-- ===== src/Egress/Resolver.antt =====
-- `GuardedResolve` (crates/federation/src/resolver.rs): the DNS resolver of the client that the
-- federation library fetches with. The system's resolver is a parameter, by its answer, and an error
-- of the thread that asks it is one of its errors.
use mathlib.Core.Path.{subst}
use toot_tok.Common.{
  ◌≡◌, ◌≢◌, refl, ap, sym, ◌∙◌, Bool, true, false, ◌&&◌, not, if◌then◌else◌, List, [], ◌∷◌, any,
  map, filter, All, String, Bool-cases, inl, inr, arith,
}
use toot_tok.Common.Eq.{string_eq}
use toot_tok.Common.Result.{Result, ok, err}
use toot_tok.Net.{IpAddr}
use toot_tok.Egress.{ip_is_blocked}
use toot_tok.Egress.Guard.{SocketAddr}

pub record GuardedResolve : Type 0 where
  pub allow_loopback : Bool
  pub allow_hosts : List String

abbrev pub is_allowed_host : GuardedResolve → String → Bool
is_allowed_host g host = any (λ h. string_eq.beq h host) g.allow_hosts

unfoldable pub check : GuardedResolve → String → IpAddr → Result String (Unit {0})
check g host ip =
    if is_allowed_host g host
    then ok tt
    else if ip_is_blocked ip g.allow_loopback
    then err "egress guard blocked"
    else ok tt

abbrev pub without_port : SocketAddr → SocketAddr
without_port a = record a { port = 0 }

unfoldable pub admitted : GuardedResolve → String → List SocketAddr → List SocketAddr
admitted g host [] = []
admitted g host (a ∷ rest) =
    let others = admitted g host rest in
    elim (check g host a.ip) [ ok u ↦ without_port a ∷ others | err e ↦ others ]

abbrev pub is_empty : List SocketAddr → Bool
is_empty [] = true
is_empty (a ∷ rest) = false

unfoldable pub resolve_host :
    GuardedResolve → String → Result String (List SocketAddr) → Result String (List SocketAddr)
resolve_host g host (err e) = err "dns"
resolve_host g host (ok addrs) =
    let allowed = admitted g host addrs in
    if is_empty allowed && not (is_allowed_host g host)
    then err "egress guard: all candidates blocked"
    else ok allowed

check_blocked :
    (g : GuardedResolve) (host : String) (ip : IpAddr)
    → is_allowed_host g host ≡ false
    → ip_is_blocked ip g.allow_loopback ≡ true
    → check g host ip ≡ err "egress guard blocked"
unfolding check
check_blocked g host ip e b = ground (arith, e, b)

check_accepted :
    (g : GuardedResolve) (host : String) (ip : IpAddr)
    → ip_is_blocked ip g.allow_loopback ≡ false
    → check g host ip ≡ ok tt
unfolding check
check_accepted g host ip b = ground (arith, b)

admitted_accepted :
    (g : GuardedResolve) (host : String) (addrs : List SocketAddr)
    → is_allowed_host g host ≡ false
    → (admitted g host addrs
        ≡ map without_port (filter (λ a. not (ip_is_blocked a.ip g.allow_loopback)) addrs))
      × All (λ a. ip_is_blocked a.ip g.allow_loopback ≡ false) (admitted g host addrs)
unfolding admitted
admitted_accepted g host [] e = (refl, tt)
admitted_accepted g host (a ∷ rest) e =
    let (same, safe) = admitted_accepted g host rest e in
    elim (Bool-cases (ip_is_blocked a.ip g.allow_loopback)) [
      | inl b ↦ rw (check_blocked g host a.ip e b, b, admitted) (same, safe)
      | inr b ↦
          rw (check_accepted g host a.ip b, b, admitted)
            (ap (λ v. without_port a ∷ v) same, (refl, safe))
    ]

-- For a host that is not exempt, what the resolver answers with is never empty: it is the
-- candidates that the address policy accepts, in their order and without a port, and so the policy
-- blocks none of them.
pub resolve_safe :
    (g : GuardedResolve) (host : String) (addrs out : List SocketAddr)
    → is_allowed_host g host ≡ false
    → resolve_host g host (ok addrs) ≡ ok out
    → (out ≡ map without_port (filter (λ a. not (ip_is_blocked a.ip g.allow_loopback)) addrs))
      × All (λ a. ip_is_blocked a.ip g.allow_loopback ≡ false) out
      × (out ≢ [])
unfolding resolve_host
resolve_safe g host addrs out e h =
    let (same, safe) = admitted_accepted g host addrs e in
    elim (Bool-cases (is_empty (admitted g host addrs))) [
      | inl z ↦ absurd (ground (arith, e, z, h))
      | inr z ↦
          let found : admitted g host addrs ≡ out = ground (arith, e, z, h) in
          (
            sym found ∙ same,
            subst (All (λ a. ip_is_blocked a.ip g.allow_loopback ≡ false)) found safe,
            λ none_left. ground (arith, ap is_empty found, ap is_empty none_left, z),
          )
    ]
