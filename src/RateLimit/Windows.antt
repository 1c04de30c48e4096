-- ===== src/RateLimit/Windows.antt =====
-- What the limiter admits over any sequence of hits (crates/server/src/ratelimit.rs).
use toot_tok.Common.{
  ℕ, suc, ◌+◌, ◌-◌, ◌≤◌, ◌<◌, min, ◌≡◌, ◌≢◌, sym, ◌∙◌, ap, false, leb, if◌then◌else◌, some, List,
  [], ◌∷◌, All, arith, Bool-cases, inl, inr,
}
use Prim.Native.Nat.{zero-le}
use mathlib.Core.Path.{subst}
use toot_tok.Common.Eq.{◌==◌, beq_refl}
use toot_tok.Common.Map.{lookup, insert, lookup-insert, lookup-insert_self}
use toot_tok.Net.{IpAddr, ip_eq, ip_beq_iff}
use toot_tok.RateLimit.{
  RateLimiter, Answer, admitted, retry_after, current, check, count_hit, new, fresh,
}

-- A hit: the client's address and the time.
abbrev pub Hit : Type 0
Hit = IpAddr × ℕ

abbrev pub one_if_admitted : Answer → ℕ
one_if_admitted admitted = 1
one_if_admitted (retry_after r) = 0

-- How many of the hits that come from `ip` are admitted.
unfoldable pub admissions : IpAddr → RateLimiter → List Hit → ℕ
admissions ip l [] = 0
admissions ip l ((j, now) ∷ hits) =
    let rest = admissions ip (check l j now).0 hits in
    if j == ip then one_if_admitted (check l j now).1 + rest else rest

unfoldable pub hits_of : IpAddr → List Hit → ℕ
hits_of ip [] = 0
hits_of ip ((j, now) ∷ hits) = let rest = hits_of ip hits in if j == ip then suc rest else rest

-- A hit of one address leaves the bucket of every other address alone.
check_isolated :
    (l : RateLimiter) (i j : IpAddr) (now : ℕ)
    → (i == j) ≡ false
    → lookup j (check l i now).0.buckets ≡ lookup j l.buckets
unfolding check
check_isolated l i j now other = rw (lookup-insert, other)

unequal : (i j : IpAddr) → i ≢ j → (i == j) ≡ false
unequal i j apart = ground (arith, ip_beq_iff i j)

-- A hit of one address changes no answer to another.
pub check_independent :
    (l : RateLimiter) (i j : IpAddr) (now later : ℕ)
    → i ≢ j
    → (check (check l i now).0 j later).1 ≡ (check l j later).1
unfolding check
check_independent l i j now later apart = rw (check_isolated l i j now (unequal i j apart))

-- The bucket of an address in the window that began at `start`.
abbrev In : RateLimiter → IpAddr → ℕ → ℕ → Type 0
In l ip start count = lookup ip l.buckets ≡ some (record { start = start; count = count })

abbrev pub During : ℕ → ℕ → Hit → Type 0
During start window h = (start ≤ h.1) × (h.1 < start + window)

abbrev counted : ℕ → ℕ → ℕ
counted limit count = if leb limit count then count else count + 1

-- One hit within a running window.
hit-within :
    (limit window start count now : ℕ)
    → start ≤ now
    → now < start + window
    → let w = current window (some (record { start = start; count = count })) now in
      ((count_hit limit window w now).0 ≡ record { start = start; count = counted limit count })
      × (one_if_admitted (count_hit limit window w now).1 ≡ (if leb limit count then 0 else 1))
unfolding current count_hit
hit-within limit window start count now from before = ground arith

module _ (l : RateLimiter) (ip : IpAddr) (start count : ℕ) (at : In l ip start count) where
  check-In :
      (now : ℕ)
      → start ≤ now
      → now < start + l.window
      → In (check l ip now).0 ip start (counted l.limit count)
        × (one_if_admitted (check l ip now).1 ≡ (if leb l.limit count then 0 else 1))
  unfolding check
  check-In now from before =
      let h = hit-within l.limit l.window start count now from before in
      rw at (lookup-insert_self ip _ l.buckets ∙ ap some h.0, h.1)

  check-In_other : (j : IpAddr) (now : ℕ) → (j == ip) ≡ false → In (check l j now).0 ip start count
  check-In_other j now other = check_isolated l j ip now other ∙ at

counted_le : (limit count : ℕ) → count ≤ limit → counted limit count ≤ limit
counted_le limit count h = ground arith

one_more :
    (limit count first n : ℕ)
    → count ≤ limit
    → first ≡ (if leb limit count then 0 else 1)
    → first + min (limit - counted limit count) n ≡ min (limit - count) (suc n)
one_more limit count first n c e = ground arith

admissions-In :
    (hits : List Hit) (l : RateLimiter) (ip : IpAddr) (start count : ℕ)
    → In l ip start count
    → count ≤ l.limit
    → All (During start l.window) hits
    → admissions ip l hits ≡ min (l.limit - count) (hits_of ip hits)
unfolding admissions hits_of check
admissions-In [] l ip start count at c d = omega arith
admissions-In ((j, now) ∷ hits) l ip start count at c ((from, before), d) =
    elim (Bool-cases (j == ip)) [
      | inl same ↦
          let e : ip ≡ j = sym ((ip_beq_iff j ip).0 same) in
          let next = check-In l ip start count at now from before in
          let at' = subst (λ k. In (check l k now).0 ip start (counted l.limit count)) e next.0 in
          let ih =
            admissions-In hits (check l j now).0 ip start (counted l.limit count) at'
              (counted_le l.limit count c) d in
          rw same (
            rw ih (
              one_more l.limit count _ (hits_of ip hits) c (
                subst
                  (λ k. one_if_admitted (check l k now).1 ≡ (if leb l.limit count then 0 else 1)) e
                  next.1)))
      | inr other ↦ rw other (
          admissions-In hits (check l j now).0 ip start count
            (check-In_other l ip start count at j now other) c d)
    ]

hit-fresh :
    (limit window now : ℕ)
    → ((count_hit limit window (fresh now) now).0 ≡ record { start = now; count = counted limit 0 })
      × (one_if_admitted (count_hit limit window (fresh now) now).1
          ≡ (if leb limit 0 then 0 else 1))
unfolding count_hit
hit-fresh limit window now = ground arith

-- A limiter whose bucket for the address is missing or over starts a new window.
abbrev pub IsIdle : RateLimiter → IpAddr → ℕ → Type 0
IsIdle l ip now = current l.window (lookup ip l.buckets) now ≡ fresh now

-- In one window, which the first hit of an address opens, exactly the first `limit` hits of that
-- address are admitted, whatever other addresses do in between.
pub window_exact :
    (l : RateLimiter) (ip : IpAddr) (start : ℕ) (hits : List Hit)
    → IsIdle l ip start
    → All (During start l.window) hits
    → admissions ip l ((ip, start) ∷ hits) ≡ min l.limit (hits_of ip ((ip, start) ∷ hits))
unfolding admissions hits_of check
window_exact l ip start hits idle d =
    let h = hit-fresh l.limit l.window start in
    let at = lookup-insert_self ip _ l.buckets ∙ ap some h.0 in
    let l' = record l {
      buckets = insert ip (count_hit l.limit l.window (fresh start) start).0 l.buckets;
    } in
    let ih =
      admissions-In hits l' ip start (counted l.limit 0) at (counted_le l.limit 0 zero-le) d in
    rw (beq_refl ip, idle, check)
      (rw ih (omega (arith, one_more l.limit 0 _ (hits_of ip hits) zero-le h.1)))

-- A new limiter is idle for every address.
pub new-IsIdle : (limit : ℕ) (ip : IpAddr) (now : ℕ) → IsIdle (new limit) ip now
unfolding new current lookup
new-IsIdle limit ip now = ground arith
