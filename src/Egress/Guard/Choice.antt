-- ===== src/Egress/Guard/Choice.antt =====
-- Which of a host's addresses the guard takes (crates/federation/src/egress.rs).
use toot_tok.Common.{
  ℕ, ◌≤◌, ◌≡◌, refl, Bool, true, false, not, leb, some, List, [], ◌∷◌, find, any, All, arith,
  Bool-cases, inl, inr, leb→le, is_none, ◌∙◌, sym, all, ap,
}
use toot_tok.Common.Eq.{◌==◌}
use mathlib.Core.Path.{subst}
use toot_tok.Net.{IpAddr, ip_eq, ip_beq_iff}
use toot_tok.Egress.{ip_is_blocked}
use toot_tok.Egress.Guard.{rank, insert_ranked, sort_by_rank, choose}

abbrev pub member : IpAddr → List IpAddr → Bool
member x ys = any (λ y. x == y) ys

module _ (P : IpAddr → Type 0) where
  All-insert_ranked : (x : IpAddr) (ys : List IpAddr) → P x → All P ys → All P (insert_ranked x ys)
  unfolding insert_ranked
  All-insert_ranked x [] h k = (h, tt)
  All-insert_ranked x (y ∷ ys) h k = elim (Bool-cases (leb (rank x) (rank y))) [
    | inl e ↦ rw e (h, k)
    | inr e ↦ rw e (k.0, All-insert_ranked x ys h k.1)
  ]

  All-of_insert_ranked :
      (x : IpAddr) (ys : List IpAddr) → All P (insert_ranked x ys) → P x × All P ys
  unfolding insert_ranked
  All-of_insert_ranked x [] k = (k.0, tt)
  All-of_insert_ranked x (y ∷ ys) k = elim (Bool-cases (leb (rank x) (rank y))) [
    | inl e ↦ (rw e at k)
    | inr e ↦
        let k' : P y × All P (insert_ranked x ys) = rw e at k in
        let r = All-of_insert_ranked x ys k'.1 in (r.0, (k'.0, r.1))
  ]

  All-of_sort : (xs : List IpAddr) → All P (sort_by_rank xs) → All P xs
  unfolding sort_by_rank
  All-of_sort [] k = tt
  All-of_sort (x ∷ xs) k =
      let r = All-of_insert_ranked x (sort_by_rank xs) k in (r.0, All-of_sort xs r.1)

any-insert_ranked :
    (p : IpAddr → Bool) (x : IpAddr) (ys : List IpAddr)
    → any p (insert_ranked x ys) ≡ any p (x ∷ ys)
unfolding insert_ranked
any-insert_ranked p x [] = refl
any-insert_ranked p x (y ∷ ys) = ground (arith, any-insert_ranked p x ys)

any-sort_by_rank : (p : IpAddr → Bool) (xs : List IpAddr) → any p (sort_by_rank xs) ≡ any p xs
unfolding sort_by_rank
any-sort_by_rank p [] = refl
any-sort_by_rank p (x ∷ xs) =
    ground (arith, any-insert_ranked p x (sort_by_rank xs), any-sort_by_rank p xs)

abbrev Above : ℕ → List IpAddr → Type 0
Above n ys = All (λ y. n ≤ rank y) ys

Above-mono : (m n : ℕ) (ys : List IpAddr) → m ≤ n → Above n ys → Above m ys
Above-mono m n [] h k = tt
Above-mono m n (y ∷ ys) h k = (omega arith, Above-mono m n ys h k.1)

abbrev IsSorted : List IpAddr → Type 0
IsSorted [] = Unit {0}
IsSorted (x ∷ xs) = Above (rank x) xs × IsSorted xs

insert_ranked-IsSorted :
    (x : IpAddr) (ys : List IpAddr) → IsSorted ys → IsSorted (insert_ranked x ys)
unfolding insert_ranked
insert_ranked-IsSorted x [] s = (tt, tt)
insert_ranked-IsSorted x (y ∷ ys) s = elim (Bool-cases (leb (rank x) (rank y))) [
  | inl e ↦
      let h = leb→le (rank x) (rank y) e in rw e ((h, Above-mono (rank x) (rank y) ys h s.0), s)
  | inr e ↦ rw e (
    All-insert_ranked (λ z. rank y ≤ rank z) x ys (ground (arith, e)) s.0,
    insert_ranked-IsSorted x ys s.1,
  )
]

sort_by_rank-IsSorted : (xs : List IpAddr) → IsSorted (sort_by_rank xs)
unfolding sort_by_rank
sort_by_rank-IsSorted [] = tt
sort_by_rank-IsSorted (x ∷ xs) =
    insert_ranked-IsSorted x (sort_by_rank xs) (sort_by_rank-IsSorted xs)

module _ (p : IpAddr → Bool) where
  find_passes : (xs : List IpAddr) (a : IpAddr) → find p xs ≡ some a → p a ≡ true
  find_passes [] a e = cc
  find_passes (x ∷ xs) a e = ground (arith, find_passes xs a)

  find-member : (xs : List IpAddr) (a : IpAddr) → find p xs ≡ some a → member a xs ≡ true
  find-member [] a e = cc
  find-member (x ∷ xs) a e = ground (arith, find-member xs a, ip_beq_iff a x)

  abbrev LeastOf : IpAddr → List IpAddr → Type 0
  LeastOf a xs = All (λ j. p j ≡ true → rank a ≤ rank j) xs

  LeastOf-Above : (a : IpAddr) (xs : List IpAddr) → Above (rank a) xs → LeastOf a xs
  LeastOf-Above a [] k = tt
  LeastOf-Above a (x ∷ xs) k = ((λ _. k.0), LeastOf-Above a xs k.1)

  find_least : (xs : List IpAddr) (a : IpAddr) → IsSorted xs → find p xs ≡ some a → LeastOf a xs
  find_least [] a s e = tt
  find_least (x ∷ xs) a s e = elim (Bool-cases (p x)) [
    | inl h ↦
        let same : x ≡ a = ground (arith, e, h) in
        subst (λ t. LeastOf t (x ∷ xs)) same ((λ _. omega arith), LeastOf-Above x xs s.0)
    | inr h ↦ ((λ t. cc), find_least xs a s.1 (ground (arith, e, h)))
  ]

  find_none : (xs : List IpAddr) → is_none (find p xs) ≡ not (any p xs)
  find_none [] = refl
  find_none (x ∷ xs) = ground (arith, find_none xs)

abbrev accepts : Bool → IpAddr → Bool
accepts allow_loopback ip = not (ip_is_blocked ip allow_loopback)

blocked_of_accepts :
    (al : Bool) (n : ℕ) (xs : List IpAddr)
    → All (λ j. accepts al j ≡ true → n ≤ rank j) xs
    → All (λ j. ip_is_blocked j al ≡ false → n ≤ rank j) xs
blocked_of_accepts al n [] k = tt
blocked_of_accepts al n (x ∷ xs) k = ((λ e. k.0 (rw e)), blocked_of_accepts al n xs k.1)

not-any-accepts :
    (al : Bool) (xs : List IpAddr) → not (any (accepts al) xs) ≡ all (λ ip. ip_is_blocked ip al) xs
not-any-accepts al [] = refl
not-any-accepts al (x ∷ xs) = ground (arith, not-any-accepts al xs)

-- What the guard takes is an address of the host that the policy accepts, and no accepted address
-- of the host has a lower rank (a global one is preferred, and then IPv4).
pub choose_sound :
    (allow_loopback : Bool) (ips : List IpAddr) (ip : IpAddr)
    → choose allow_loopback ips ≡ some ip
    → (ip_is_blocked ip allow_loopback ≡ false)
      × (member ip ips ≡ true)
      × All (λ j. ip_is_blocked j allow_loopback ≡ false → rank ip ≤ rank j) ips
unfolding choose
choose_sound al ips ip e = (
  ground (arith, find_passes (accepts al) (sort_by_rank ips) ip e),
  sym (any-sort_by_rank (λ y. ip_eq.beq ip y) ips)
      ∙ find-member (accepts al) (sort_by_rank ips) ip e,
  All-of_sort _ ips (
      blocked_of_accepts al (rank ip) (sort_by_rank ips)
        (find_least (accepts al) (sort_by_rank ips) ip (sort_by_rank-IsSorted ips) e)),
)

-- The guard takes nothing exactly when the policy blocks every address of the host.
pub choose_none :
    (allow_loopback : Bool) (ips : List IpAddr)
    → is_none (choose allow_loopback ips) ≡ all (λ ip. ip_is_blocked ip allow_loopback) ips
unfolding choose
choose_none al ips =
    find_none (accepts al) (sort_by_rank ips)
    ∙ ap not (any-sort_by_rank (accepts al) ips)
    ∙ not-any-accepts al ips
