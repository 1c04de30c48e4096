-- ===== src/Egress/Guard/Safety.antt =====
-- No run of the guard connects to a blocked address, and no later DNS answer changes where a host
-- is connected to (crates/federation/src/egress.rs).
use toot_tok.Common.{
  ◌≡◌, refl, inl, inr, Bool, true, false, if◌then◌else◌, none, some, String, arith, Bool-cases,
  Option-cases, sym, ◌∙◌, ap,
}
use mathlib.Core.Path.{subst}
use toot_tok.Common.Eq.{◌==◌, pair_eq, string_eq, nat_eq}
use toot_tok.Common.Map.{lookup, insert, lookup-insert, lookup-insert_self}
use toot_tok.Egress.{ip_is_blocked}
use toot_tok.Egress.Guard.{
  Url, SocketAddr, Client, Result, ok, err, Key, EgressGuard, Dns, port_of, validate_and_pin,
  client_at, client_after, client_for, client_build,
}
use toot_tok.Egress.Guard.Pinning.{
  IsSafe, is_ok, Outcome, pin_at, validate_and_pin-Outcome, lookup-insert_fresh,
}

-- The mode is the same and every pinned address is still pinned.
pub record Extends (g h : EgressGuard) : Type 0 where
  pub same_mode : h.allow_loopback ≡ g.allow_loopback
  pub keeps : (k : Key) (a : SocketAddr) → lookup k g.pinned ≡ some a → lookup k h.pinned ≡ some a

pub Extends-refl : (g : EgressGuard) → Extends g g
Extends-refl g = record { same_mode = refl; keeps = λ k a e. e }

pub Extends-trans : (f g h : EgressGuard) → Extends f g → Extends g h → Extends f h
Extends-trans f g h p q = record {
  same_mode = q.same_mode ∙ p.same_mode;
  keeps = λ k a e. q.keeps k a (p.keeps k a e);
}

module _ (g : EgressGuard) (k : Key) (a : SocketAddr) (free : lookup k g.pinned ≡ none) where
  pin_at-Extends : Extends g (pin_at g k a)
  pin_at-Extends = record {
    same_mode = refl;
    keeps = λ j b e. lookup-insert_fresh k j a b g.pinned free e;
  }

  pin_at-IsSafe :
      ip_is_blocked a.ip g.allow_loopback ≡ false → a.port ≡ k.1 → IsSafe g → IsSafe (pin_at g k a)
  pin_at-IsSafe allowed port safe = record {
    pinned_allowed = λ j b e. elim (Bool-cases (k == j)) [
      | inl same ↦
          let this : a ≡ b = ground (arith, lookup-insert k j a g.pinned, e, same) in
          let key : k ≡ j = (pair_eq.decides k j).0 same in
          subst (λ t. (ip_is_blocked t.ip g.allow_loopback ≡ false) × (t.port ≡ j.1)) this
            (allowed, port ∙ ap (λ (t : Key). t.1) key)
      | inr other ↦ safe.pinned_allowed j b (ground (arith, lookup-insert k j a g.pinned, e, other))
    ];
    clients_pinned = λ j c e.
        let old = safe.clients_pinned j c e in
        (lookup-insert_fresh k j a c.resolve_addr g.pinned free old.0, old.1, old.2);
  }

-- What a call of `validate_and_pin` leaves behind.
abbrev Settled : EgressGuard → Url → EgressGuard × Result SocketAddr → Type 0
Settled g url r =
    (IsSafe g → IsSafe r.0)
    × Extends g r.0
    × ((a : SocketAddr)
        → r.1 ≡ ok a
        → (host : String) × (url.host_str ≡ some host)
          × (lookup (host, port_of url) r.0.pinned ≡ some a))

Settled-of_Outcome :
    (g : EgressGuard) (url : Url) (r : EgressGuard × Result SocketAddr)
    → Outcome g url r
    → Settled g url r
Settled-of_Outcome g url r (inl (same, failed)) = (
  (λ s. subst IsSafe (sym same) s),
  subst (Extends g) (sym same) (Extends-refl g),
  (λ a e. cc (ap is_ok e)),
)
Settled-of_Outcome g url r (inr (host, h, inl (a, known, e))) =
    subst (Settled g url) (sym e)
      ((λ s. s), Extends-refl g, (λ b p. (host, h, ground (arith, known, p))))
Settled-of_Outcome g url r (inr (host, h, inr (ip, free, allowed, e))) =
    let a : SocketAddr = record { ip = ip; port = port_of url } in
    subst (Settled g url) (sym e) (
      (λ s. pin_at-IsSafe g (host, port_of url) a free allowed refl s),
      pin_at-Extends g (host, port_of url) a free,
      (λ b p. let this : a ≡ b = cc in (host, h, lookup-insert_self _ a g.pinned ∙ ap some this)),
    )

pub validate_and_pin-Settled :
    (g : EgressGuard) (url : Url) (dns : Dns) → Settled g url (validate_and_pin g url dns)
validate_and_pin-Settled g url dns = Settled-of_Outcome g url _ (validate_and_pin-Outcome g url dns)

-- What a call of `client_for` leaves behind.
abbrev pub Connected : EgressGuard → Url → EgressGuard × Result Client → Type 0
Connected g url r =
    (IsSafe g → IsSafe r.0)
    × Extends g r.0
    × ((c : Client)
        → IsSafe g
        → r.1 ≡ ok c
        → (url.host_str ≡ some c.resolve_host)
          × (lookup (c.resolve_host, port_of url) r.0.pinned ≡ some c.resolve_addr)
          × (c.follows_redirects ≡ false))

module _ (g : EgressGuard) (k : Key) (c : Client) where
  abbrev store_client : EgressGuard
  store_client = record g { clients = insert k c g.clients }

  store_client-IsSafe :
      lookup k g.pinned ≡ some c.resolve_addr
      → c.resolve_host ≡ k.0
      → c.follows_redirects ≡ false
      → IsSafe g
      → IsSafe store_client
  store_client-IsSafe at host direct safe = record {
    pinned_allowed = safe.pinned_allowed;
    clients_pinned = λ j d e. elim (Bool-cases (k == j)) [
      | inl same ↦
          let this : c ≡ d = ground (arith, lookup-insert k j c g.clients, e, same) in
          let key : k ≡ j = (pair_eq.decides k j).0 same in
          subst
            (λ t.
              (lookup j g.pinned ≡ some t.resolve_addr)
              × (t.resolve_host ≡ j.0)
              × (t.follows_redirects ≡ false))
            this
            (
              subst (λ (i : Key). lookup i g.pinned ≡ some c.resolve_addr) key at,
              host ∙ ap (λ (t : Key). t.0) key,
              direct,
            )
      | inr other ↦
          safe.clients_pinned j d (ground (arith, lookup-insert k j c g.clients, e, other))
    ];
  }

abbrev Direct : EgressGuard → Url → Client → Type 0
Direct g url c =
    (url.host_str ≡ some c.resolve_host)
    × (lookup (c.resolve_host, port_of url) g.pinned ≡ some c.resolve_addr)
    × (c.follows_redirects ≡ false)

module _ (g : EgressGuard) (url : Url) (host : String) (h : url.host_str ≡ some host) where
  cached-Direct :
      (c : Client) → IsSafe g → lookup (host, port_of url) g.clients ≡ some c → Direct g url c
  cached-Direct c safe known =
      let (at, name, direct) = safe.clients_pinned (host, port_of url) c known in
      (
        h ∙ ap some (sym name),
        subst (λ (t : String). lookup (t, port_of url) g.pinned ≡ some c.resolve_addr) (sym name)
            at,
        direct,
      )

  client_at-Connected :
      (builds : Bool) (addr : SocketAddr)
      → lookup (host, port_of url) g.pinned ≡ some addr
      → Connected g url (client_at g url builds addr (some host))
  unfolding client_at
  client_at-Connected builds addr at = elim (Option-cases (lookup (host, port_of url) g.clients)) [
    | inr (c, known) ↦
        rw (known, client_at)
          (
            (λ s. s),
            Extends-refl g,
            (λ d safe e.
                let this : c ≡ d = cc in subst (Direct g url) this (cached-Direct c safe known)),
          )
    | inl free ↦ rw (free, client_at) (built builds)
  ]
    where
      fresh : Client
      fresh = record {
        resolve_host = host;
        resolve_addr = addr;
        follows_redirects = false;
        timeout_s = 10;
      }

      built :
          (b : Bool)
          → Connected g url (
              if b
              then (store_client g (host, port_of url) fresh, ok fresh)
              else (g, err client_build))
      built true = (
        (λ s. store_client-IsSafe g (host, port_of url) fresh at refl refl s),
        record { same_mode = refl; keeps = λ k a e. e },
        (λ d safe e.
            let this : fresh ≡ d = cc in
            subst (Direct (store_client g (host, port_of url) fresh) url) this (h, at, refl)),
      )
      built false = ((λ s. s), Extends-refl g, (λ d safe e. cc))

client_after-Connected :
    (g : EgressGuard) (url : Url) (builds : Bool) (r : EgressGuard × Result SocketAddr)
    → Settled g url r
    → Connected g url (client_after r url builds)
unfolding client_after
client_after-Connected g url builds (g', err e) s = (s.0, s.1, (λ c safe p. cc))
client_after-Connected g url builds (g', ok addr) s =
    let (host, h, at) = s.2 addr refl in
    let after : Connected g' url (client_at g' url builds addr (some host)) =
      client_at-Connected g' url host h builds addr at in
    subst (λ t. Connected g url (client_at g' url builds addr t)) (sym h)
      (
        (λ safe. after.0 (s.0 safe)),
        Extends-trans g g' _ s.1 after.1,
        (λ c safe p. after.2 c (s.0 safe) p),
      )

pub client_for-Connected :
    (g : EgressGuard) (url : Url) (dns : Dns) (builds : Bool)
    → Connected g url (client_for g url dns builds)
unfolding client_for
client_for-Connected g url dns builds =
    client_after-Connected g url builds _ (validate_and_pin-Settled g url dns)
