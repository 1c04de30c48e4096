-- ===== src/RateLimit/ClientIp.antt =====
-- Whose bucket a request counts in (crates/server/src/ratelimit.rs).
use toot_tok.Common.{
  ℕ, suc, ◌+◌, ◌<◌, min, ◌≡◌, refl, ◌∙◌, ap, Bool, false, Option, some, List, [], ◌∷◌, All, any,
  length, arith, map,
}
use toot_tok.Common.Eq.{◌==◌, beq_refl}
use toot_tok.Common.Text.{Text}
use toot_tok.Net.{IpAddr, ip_eq}
use toot_tok.RateLimit.{RateLimiter, Request, check, client_of_peer, client_ip, apply}
use toot_tok.RateLimit.Windows.{one_if_admitted, admissions, hits_of, IsIdle, During, window_exact}

-- A request and the time of its arrival.
abbrev pub Arrival : Type 0
Arrival = Request × ℕ

abbrev pub trusts : List IpAddr → IpAddr → Bool
trusts proxies peer = any (λ p. p == peer) proxies

module _ (parse_ip : Text → Option IpAddr) where
  untrusted-peer :
      (req : Request) (trusted : List IpAddr) (peer : IpAddr)
      → req.peer ≡ some peer
      → trusts trusted peer ≡ false
      → client_ip parse_ip req trusted ≡ peer
  unfolding client_ip
  untrusted-peer req trusted peer p u = rw (p, client_of_peer, u)

  -- How many of the requests the middleware lets through.
  unfoldable pub served : RateLimiter → List Arrival → ℕ
  served l [] = 0
  served l ((req, now) ∷ rs) =
      let (l', answer) = apply parse_ip l req now in one_if_admitted answer + served l' rs

  abbrev pub FromPeer : RateLimiter → IpAddr → ℕ → Arrival → Type 0
  FromPeer l peer start (req, now) = (req.peer ≡ some peer) × During start l.window (peer, now)

  served-admissions :
      (rs : List Arrival) (l : RateLimiter) (peer : IpAddr) (start : ℕ)
      → trusts l.trusted_proxies peer ≡ false
      → All (FromPeer l peer start) rs
      → (served l rs ≡ admissions peer l (map (λ r. (peer, r.1)) rs))
        × (hits_of peer (map (λ r. (peer, r.1)) rs) ≡ length rs)
        × All (During start l.window) (map (λ r. (peer, r.1)) rs)
  unfolding served admissions hits_of apply check
  served-admissions [] l peer start u d = (refl, refl, tt)
  served-admissions ((req, now) ∷ rs) l peer start u ((p, d), ds) =
      let ih = served-admissions rs (check l peer now).0 peer start u ds in
      rw (untrusted-peer req l.trusted_proxies peer p u, beq_refl peer)
        (ap (λ n. one_if_admitted (check l peer now).1 + n) ih.0, ap suc ih.1, (d, ih.2))

  -- Whatever `X-Forwarded-For` a peer sends that is no trusted proxy, all its requests count in one
  -- bucket: of its requests in a window that the first one opens, exactly the first `limit` go on.
  pub spoofing_useless :
      (l : RateLimiter) (peer : IpAddr) (start : ℕ) (first : Request) (rs : List Arrival)
      → trusts l.trusted_proxies peer ≡ false
      → IsIdle l peer start
      → first.peer ≡ some peer
      → 0 < l.window
      → All (FromPeer l peer start) rs
      → served l ((first, start) ∷ rs) ≡ min l.limit (suc (length rs))
  spoofing_useless l peer start first rs u idle p positive ds =
      let all_of =
        served-admissions ((first, start) ∷ rs) l peer start u
          ((p, (omega arith, omega arith)), ds) in
      all_of.0 ∙ window_exact l peer start _ idle all_of.2.1 ∙ ap (min l.limit) all_of.1
