-- ===== src/Egress/Guard/Runs.antt =====
-- Any number of requests through one guard, as the delivery worker and the actor resolver make
-- them (crates/federation/src/egress.rs).
use toot_tok.Common.{◌≡◌, refl, Bool, false, some, List, [], ◌∷◌, sym, ◌∙◌, ap}
use mathlib.Core.Path.{subst}
use toot_tok.Common.Eq.{pair_eq, string_eq, nat_eq}
use toot_tok.Common.Map.{lookup}
use toot_tok.Egress.{ip_is_blocked}
use toot_tok.Egress.Guard.{Url, Client, ok, Key, EgressGuard, Dns, port_of, client_for, new}
use toot_tok.Egress.Guard.Pinning.{IsSafe}
use toot_tok.Egress.Guard.Safety.{Extends, Extends-refl, Extends-trans, client_for-Connected}

-- One use of the guard: the URL, what DNS answers at that time, and whether the client builds.
pub record Request : Type 0 where
  pub url : Url
  pub dns : Dns
  pub builds : Bool

unfoldable pub serve : EgressGuard → List Request → EgressGuard
serve g [] = g
serve g (r ∷ rs) = serve (client_for g r.url r.dns r.builds).0 rs

serve-Extends : (g : EgressGuard) (rs : List Request) → Extends g (serve g rs)
unfolding serve
serve-Extends g [] = Extends-refl g
serve-Extends g (r ∷ rs) =
    let g' = (client_for g r.url r.dns r.builds).0 in
    Extends-trans g g' _ (client_for-Connected g r.url r.dns r.builds).1 (serve-Extends g' rs)

serve-IsSafe : (g : EgressGuard) (rs : List Request) → IsSafe g → IsSafe (serve g rs)
unfolding serve
serve-IsSafe g [] s = s
serve-IsSafe g (r ∷ rs) s =
    serve-IsSafe (client_for g r.url r.dns r.builds).0 rs
      ((client_for-Connected g r.url r.dns r.builds).0 s)

new-IsSafe : (allow_loopback : Bool) → IsSafe (new allow_loopback)
unfolding new lookup
new-IsSafe al = record { pinned_allowed = λ k a e. cc; clients_pinned = λ k c e. cc }

new-mode : (al : Bool) → (new al).allow_loopback ≡ al
unfolding new
new-mode al = refl

module _ (al : Bool) (rs : List Request) (r : Request) (c : Client) where
  -- Whatever requests came before and whatever DNS answers, a client that the guard hands out is
  -- for the URL's host and port, is bound to an address that the policy of the guard's mode
  -- accepts, and follows no redirect.
  pub client_for_safe :
      (client_for (serve (new al) rs) r.url r.dns r.builds).1 ≡ ok c
      → (r.url.host_str ≡ some c.resolve_host)
        × (ip_is_blocked c.resolve_addr.ip al ≡ false)
        × (c.resolve_addr.port ≡ port_of r.url)
        × (c.follows_redirects ≡ false)
  client_for_safe e =
      let g = serve (new al) rs in
      let safe : IsSafe g = serve-IsSafe (new al) rs (new-IsSafe al) in
      let step = client_for-Connected g r.url r.dns r.builds in
      let (host, at, direct) = step.2 c safe e in
      let (allowed, port) = (step.0 safe).pinned_allowed _ c.resolve_addr at in
      let mode = step.1.same_mode ∙ (serve-Extends (new al) rs).same_mode ∙ new-mode al in
      (host, subst (λ m. ip_is_blocked c.resolve_addr.ip m ≡ false) mode allowed, port, direct)

-- DNS rebinding: once a client was handed out for a host and port, every later client for them,
-- after any other requests and under any other DNS answers, is bound to the same address.
pub rebinding_safe :
    (al : Bool) (before between : List Request) (r s : Request) (c d : Client)
    → (client_for (serve (new al) before) r.url r.dns r.builds).1 ≡ ok c
    → let g = (client_for (serve (new al) before) r.url r.dns r.builds).0 in
      (client_for (serve g between) s.url s.dns s.builds).1 ≡ ok d
      → s.url.host_str ≡ r.url.host_str
      → port_of s.url ≡ port_of r.url
      → d.resolve_addr ≡ c.resolve_addr
rebinding_safe al before between r s c d first second host port =
    let g₀ = serve (new al) before in
    let safe₀ : IsSafe g₀ = serve-IsSafe (new al) before (new-IsSafe al) in
    let one = client_for-Connected g₀ r.url r.dns r.builds in
    let g₁ = (client_for g₀ r.url r.dns r.builds).0 in
    let g₂ = serve g₁ between in
    let safe₂ : IsSafe g₂ = serve-IsSafe g₁ between (one.0 safe₀) in
    let two = client_for-Connected g₂ s.url s.dns s.builds in
    let (host₁, at₁, _) = one.2 c safe₀ first in
    let (host₂, at₂, _) = two.2 d safe₂ second in
    let kept = two.1.keeps _ c.resolve_addr ((serve-Extends g₁ between).keeps _ _ at₁) in
    let name : d.resolve_host ≡ c.resolve_host = cc (sym host₂ ∙ host ∙ host₁) in
    let pins = (client_for g₂ s.url s.dns s.builds).0.pinned in
    cc (sym at₂ ∙ ap (λ (k : Key). lookup k pins) (λ i. (name i, port i)) ∙ kept)
