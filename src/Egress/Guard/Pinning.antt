-- ===== src/Egress/Guard/Pinning.antt =====
-- The pinned addresses and the clients over any run of the guard
-- (crates/federation/src/egress.rs), whatever DNS answers in between.
use toot_tok.Common.{
  ℕ, ◌≡◌, refl, ◌⊎◌, inl, inr, Bool, true, false, Option, none, some, List, [], ◌∷◌, String,
  Bool-cases, Option-cases, sym, ◌∙◌, ap,
}
use toot_tok.Common.Eq.{◌==◌, pair_eq, string_eq, nat_eq}
use toot_tok.Common.Map.{lookup, insert, lookup-insert}
use toot_tok.Net.{IpAddr}
use toot_tok.Egress.{ip_is_blocked}
use toot_tok.Egress.Guard.{
  Url, SocketAddr, Client, Result, ok, err, Key, EgressGuard, Dns, scheme_allowed, port_of, choose,
  pin_resolved, pin_host, validate_and_pin,
}
use toot_tok.Egress.Guard.Choice.{choose_sound}

abbrev pub addr_at : IpAddr → ℕ → SocketAddr
addr_at ip port = record { ip = ip; port = port }

abbrev pub pin_at : EgressGuard → Key → SocketAddr → EgressGuard
pin_at g k a = record g { pinned = insert k a g.pinned }

abbrev pub is_ok : {A : Type 0} → Result A → Bool
is_ok (ok a) = true
is_ok (err e) = false

abbrev pub Refused : EgressGuard → EgressGuard × Result SocketAddr → Type 0
Refused g r = (r.0 ≡ g) × (is_ok r.1 ≡ false)

abbrev pub Known : EgressGuard → String → ℕ → EgressGuard × Result SocketAddr → Type 0
Known g host port r = (a : SocketAddr) × (lookup (host, port) g.pinned ≡ some a) × (r ≡ (g, ok a))

abbrev pub Fresh : EgressGuard → String → ℕ → EgressGuard × Result SocketAddr → Type 0
Fresh g host port r =
    (ip : IpAddr) × (lookup (host, port) g.pinned ≡ none)
    × (ip_is_blocked ip g.allow_loopback ≡ false)
    × (r ≡ (pin_at g (host, port) (addr_at ip port), ok (addr_at ip port)))

-- A call is refused with the guard unchanged, answers from the cache, or pins an allowed address.
abbrev pub Outcome : EgressGuard → Url → EgressGuard × Result SocketAddr → Type 0
Outcome g url r =
    Refused g r
    ⊎ ((host : String) × (url.host_str ≡ some host)
        × (Known g host (port_of url) r ⊎ Fresh g host (port_of url) r))

pin_resolved-Outcome :
    (g : EgressGuard) (host : String) (port : ℕ) (ips : Option (List IpAddr))
    → lookup (host, port) g.pinned ≡ none
    → Refused g (pin_resolved g host port ips) ⊎ Fresh g host port (pin_resolved g host port ips)
pin_resolved-Outcome g host port none free = inl (refl, refl)
pin_resolved-Outcome g host port (some []) free = inl (refl, refl)
pin_resolved-Outcome g host port (some (ip ∷ ips)) free =
    elim (Option-cases (choose g.allow_loopback (ip ∷ ips))) [
      | inl e ↦ inl (rw (e, pin_resolved), rw (e, pin_resolved))
      | inr (chosen, e) ↦ inr (
        chosen,
        free,
        (choose_sound g.allow_loopback (ip ∷ ips) chosen e).0,
        rw (e, pin_resolved),
      )
    ]

pin_host-Outcome :
    (g : EgressGuard) (url : Url) (dns : Dns) (h : Option String)
    → url.host_str ≡ h
    → Outcome g url (pin_host g url dns h)
unfolding pin_host
pin_host-Outcome g url dns none e = inl (refl, refl)
pin_host-Outcome g url dns (some host) e =
    elim (Option-cases (lookup (host, port_of url) g.pinned)) [
      | inl free ↦ rw (free, pin_host) (go (pin_resolved-Outcome g host (port_of url) _ free))
      | inr (a, known) ↦ rw (known, pin_host) (inr (host, e, inl (a, known, refl)))
    ]
  where
    go :
        {r : EgressGuard × Result SocketAddr}
        → Refused g r ⊎ Fresh g host (port_of url) r
        → Outcome g url r
    go (inl refused) = inl refused
    go (inr fresh) = inr (host, e, inr fresh)

pub validate_and_pin-Outcome :
    (g : EgressGuard) (url : Url) (dns : Dns) → Outcome g url (validate_and_pin g url dns)
unfolding validate_and_pin
validate_and_pin-Outcome g url dns = elim (Bool-cases (scheme_allowed g.allow_http url.scheme)) [
  | inl e ↦ rw e (pin_host-Outcome g url dns url.host_str refl)
  | inr e ↦ rw e (inl (refl, refl))
]

-- Every pinned address is allowed, and every client is built on a pinned address and follows no
-- redirect.
pub record IsSafe (g : EgressGuard) : Type 0 where
  pub pinned_allowed :
      (k : Key) (a : SocketAddr)
      → lookup k g.pinned ≡ some a
      → (ip_is_blocked a.ip g.allow_loopback ≡ false) × (a.port ≡ k.1)
  pub clients_pinned :
      (k : Key) (c : Client)
      → lookup k g.clients ≡ some c
      → (lookup k g.pinned ≡ some c.resolve_addr)
        × (c.resolve_host ≡ k.0)
        × (c.follows_redirects ≡ false)

-- An entry that is there stays, when a key that is not there is inserted.
pub lookup-insert_fresh :
    {V : Type 0} (k j : Key) (v w : V) (m : List (Key × V))
    → lookup k m ≡ none
    → lookup j m ≡ some w
    → lookup j (insert k v m) ≡ some w
lookup-insert_fresh k j v w m free found =
    lookup-insert k j v m
    ∙ elim (Bool-cases (k == j)) [ inl same ↦ absurd (apart same) | inr other ↦ rw other found ]
  where
    apart : (k == j) ≡ true → ⊥
    apart same = cc (sym free ∙ ap (λ (t : Key). lookup t m) ((pair_eq.decides k j).0 same) ∙ found)
