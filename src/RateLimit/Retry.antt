-- ===== src/RateLimit/Retry.antt =====
-- What a refusal's `Retry-After` promises (crates/server/src/ratelimit.rs).
use Prim.Native.Nat.{max}
use toot_tok.Common.{
  ℕ, ◌+◌, ◌-◌, ◌*◌, ◌/◌, ◌%◌, ◌≤◌, ◌<◌, ◌≡◌, ◌≢◌, ◌∙◌, leb, if◌then◌else◌, some, arith,
}
use toot_tok.Common.Map.{lookup, lookup-insert_self}
use toot_tok.Net.{IpAddr, ip_eq}
use toot_tok.RateLimit.{
  Window, RateLimiter, Answer, admitted, retry_after, current, count_hit, check, second,
}

module _ (limit window now : ℕ) (w : Window) (positive : 0 < limit) (past : w.start ≤ now) where
  abbrev after : Window
  after = (count_hit limit window (current window (some w) now) now).0

  abbrev answer : Answer
  answer = (count_hit limit window (current window (some w) now) now).1

  answer_bounds :
      (r : ℕ)
      → answer ≡ retry_after r
      → (after ≡ w)
        × (limit ≤ w.count)
        × (now < w.start + window)
        × (r ≡ max ((w.start + window - now) / second) 1)
  unfolding current count_hit
  answer_bounds r e = ground arith

  answer_later :
      (later : ℕ)
      → limit ≤ w.count
      → (count_hit limit window (current window (some w) later) later).1 ≡ (
          if leb window (later - w.start)
          then admitted
          else retry_after (max ((window - (later - w.start)) / second) 1))
  unfolding current count_hit
  answer_later later full = ground arith

  suffices :
      (r later : ℕ)
      → answer ≡ retry_after r
      → now + (r + 1) * second ≤ later
      → (count_hit limit window (current window (some after) later) later).1 ≡ admitted
  suffices r later e h =
      let b = answer_bounds r e in rw b.0 (answer_later later b.1 ∙ ground (arith, b))

  too_early :
      (r : ℕ)
      → answer ≡ retry_after r
      → second ≤ w.start + window - now
      → (w.start + window - now) % second ≢ 0
      → (count_hit limit window
          (current window (some after) (now + r * second))
          (now + r * second)).1
        ≡ retry_after 1
  too_early r e h u =
      let b = answer_bounds r e in rw b.0 (answer_later (now + r * second) b.1 ∙ ground (arith, b))

module _ (l : RateLimiter) (ip : IpAddr) (now : ℕ) (w : Window) (r : ℕ) (positive : 0 < l.limit)
    (entry : lookup ip l.buckets ≡ some w) (past : w.start ≤ now)
    (refused : (check l ip now).1 ≡ retry_after r) where
  refused-answer : answer l.limit l.window now w positive past ≡ retry_after r
  unfolding check
  refused-answer = rw entry at refused

  -- The wait that a refusal names is at least one second, and is the rest of the window rounded
  -- down to whole seconds when that is longer.
  pub retry_after_exact :
      (1 ≤ r) × (r ≡ max ((w.start + l.window - now) / second) 1) × (now < w.start + l.window)
  retry_after_exact =
      let b = answer_bounds l.limit l.window now w positive past r refused-answer in
      (omega (arith, b.3), b.3, b.2)

  -- A client that waits one second more than the refusal names is admitted.
  pub retry_suffices :
      (later : ℕ)
      → now + (r + 1) * second ≤ later
      → (check (check l ip now).0 ip later).1 ≡ admitted
  unfolding check
  retry_suffices later h =
      rw (lookup-insert_self, entry)
        (suffices l.limit l.window now w positive past r later refused-answer h)

  -- A client that waits exactly as long as the refusal names is refused again, whenever the rest of
  -- the window is longer than a second and no whole number of seconds.
  pub retry_too_early :
      second ≤ w.start + l.window - now
      → (w.start + l.window - now) % second ≢ 0
      → (check (check l ip now).0 ip (now + r * second)).1 ≡ retry_after 1
  unfolding check
  retry_too_early h u =
      rw (lookup-insert_self, entry)
        (too_early l.limit l.window now w positive past r refused-answer h u)
