-- ===== src/Examples/Limits.antt =====
-- The rate limiter (crates/server/src/ratelimit.rs) on short histories.
use toot_tok.Common.{
  ℕ, suc, ◌+◌, ◌*◌, min, ◌≡◌, refl, Option, none, some, List, [], ◌∷◌, arith, length,
}
use toot_tok.Common.Map.{lookup, insert}
use toot_tok.Common.Text.{Text, codes}
use toot_tok.Net.{IpAddr, ipv4, ip_eq, ip_beq_iff}
use toot_tok.RateLimit.{RateLimiter, Request, retry_after, new, check, current, count_hit, second}
use toot_tok.RateLimit.Windows.{Hit, admissions, hits_of, window_exact, new-IsIdle}
use toot_tok.RateLimit.Retry.{retry_too_early}
use toot_tok.RateLimit.ClientIp.{Arrival, served, spoofing_useless}

abbrev alice : IpAddr
alice = ipv4 203 0 113 7

abbrev bob : IpAddr
bob = ipv4 198 51 100 9

abbrev burst : List Hit
burst = (bob, 5) ∷ (alice, 7) ∷ (alice, second) ∷ []

window_exact_example :
    admissions alice (new 2) ((alice, 3) ∷ burst)
    ≡ min (new 2).limit (hits_of alice ((alice, 3) ∷ burst))
unfolding new
window_exact_example = window_exact (new 2) alice 3 burst (new-IsIdle 2 alice 3) (omega arith)

two_of_three : admissions alice (new 2) ((alice, 3) ∷ burst) ≡ 2
unfolding admissions check current count_hit new lookup insert
two_of_three = refl

bob_apart : bob ≡ alice → ⊥
bob_apart e = cc ((ip_beq_iff bob alice).1 e)

-- One hit is left of none, half a second into the window.
abbrev exhausted : RateLimiter
exhausted = record {
  buckets = (alice, record { start = 0; count = 1 }) ∷ [];
  limit = 1;
  window = 60 * second;
  trusted_proxies = [];
}

abbrev half_a_second : ℕ
half_a_second = 500_000_000

refused_now : (check exhausted alice half_a_second).1 ≡ retry_after 59
unfolding check current count_hit lookup insert
refused_now = refl

entry_now : lookup alice exhausted.buckets ≡ some (record { start = 0; count = 1 })
unfolding lookup
entry_now = refl

retry_too_early_example :
    (check (check exhausted alice half_a_second).0 alice (half_a_second + 59 * second)).1
    ≡ retry_after 1
retry_too_early_example =
    retry_too_early exhausted alice half_a_second (record { start = 0; count = 1 }) 59 (omega arith)
      entry_now (omega arith) refused_now (omega arith) (omega arith)

abbrev spoofed : Text → Request
spoofed header = record { peer = some alice; forwarded_for = some header }

abbrev spoofs : List Arrival
spoofs = (spoofed (codes "10.0.0.1"), 4) ∷ (spoofed (codes "10.0.0.2"), 5) ∷ []

abbrev reads_no_address : Text → Option IpAddr
reads_no_address s = none

spoofing_useless_example :
    served reads_no_address (new 2) ((spoofed [], 3) ∷ spoofs)
    ≡ min (new 2).limit (suc (length spoofs))
unfolding new
spoofing_useless_example =
    spoofing_useless reads_no_address (new 2) alice 3 (spoofed []) spoofs refl
      (new-IsIdle 2 alice 3) refl (omega arith)
      ((refl, (omega arith, omega arith)), ((refl, (omega arith, omega arith)), tt))
