-- ===== src/Jobs/Claims.antt =====
-- What a claim takes (crates/db/src/job.rs, `CLAIM_NEXT_DUE_SQL`).
use mathlib.Core.List.{Memᴰ}
use mathlib.Core.Path.{subst}
use toot_tok.Common.{
  ℕ, ◌≤◌, ◌≡◌, refl, sym, ◌∙◌, ap, inl, inr, true, false, leb, if◌then◌else◌, Option, none, some,
  List, [], ◌∷◌, All, arith, Bool-cases, Option-cases, String, leb→le, ==_iff, ◌==◌, ◌≢◌,
}
use toot_tok.Jobs.{Job, is_due, earlier, next_due, claimed, has_id, update_where, claim_next_due}

-- No due row of the table has an earlier `run_after`.
abbrev pub IsFirst : ℕ → Job → List Job → Type 0
IsFirst now j js = All (λ k. is_due now k ≡ true → j.run_after ≤ k.run_after) js

-- A due row that comes first, or no due row at all.
abbrev pub Picks : ℕ → List Job → Option Job → Type 0
Picks now js none = All (λ k. is_due now k ≡ false) js
Picks now js (some j) = Memᴰ j js × (is_due now j ≡ true) × IsFirst now j js

IsFirst-trans :
    (now : ℕ) (i j : Job) (js : List Job)
    → i.run_after ≤ j.run_after
    → IsFirst now j js
    → IsFirst now i js
IsFirst-trans now i j [] h f = tt
IsFirst-trans now i j (k ∷ js) h f = ((λ d. ground (arith, f.0 d)), IsFirst-trans now i j js h f.1)

IsFirst-of_none :
    (now : ℕ) (i : Job) (js : List Job) → All (λ k. is_due now k ≡ false) js → IsFirst now i js
IsFirst-of_none now i [] f = tt
IsFirst-of_none now i (k ∷ js) f = ((λ d. cc), IsFirst-of_none now i js f.1)

Picks-cons :
    (now : ℕ) (i : Job) (js : List Job) (rest : Option Job)
    → Picks now js rest
    → Picks now (i ∷ js) (if is_due now i then some (earlier i rest) else rest)
Picks-cons now i js none p = elim (Bool-cases (is_due now i)) [
  | inl d ↦ rw d (Memᴰ.head refl, d, ((λ _. omega arith), IsFirst-of_none now i js p))
  | inr d ↦ rw d (d, p)
]
Picks-cons now i js (some j) p = elim (Bool-cases (is_due now i)) [
  | inl d ↦ elim (Bool-cases (leb i.run_after j.run_after)) [
    | inl e ↦
        let first : earlier i (some j) ≡ i = rw e refl in
        rw d (
          subst (λ t. Picks now (i ∷ js) (some t)) (sym first)
            (Memᴰ.head refl, d, ((λ _. omega arith), IsFirst-trans now i j js (leb→le _ _ e) p.2)))
    | inr e ↦
        let first : earlier i (some j) ≡ j = rw e refl in
        rw d (
          subst (λ t. Picks now (i ∷ js) (some t)) (sym first)
            (Memᴰ.tail p.0, p.1, ((λ _. ground (arith, e)), p.2)))
  ]
  | inr d ↦ rw d (Memᴰ.tail p.0, p.1, ((λ t. cc), p.2))
]

pub next_due-Picks : (now : ℕ) (js : List Job) → Picks now js (next_due now js)
unfolding next_due
next_due-Picks now [] = tt
next_due-Picks now (i ∷ js) = Picks-cons now i js (next_due now js) (next_due-Picks now js)

-- What a claim answers, and what it does to the table.
abbrev pub Claims : List Job → String → ℕ → List Job × Option Job → Type 0
Claims jobs worker now (table, none) = (table ≡ jobs) × Picks now jobs none
Claims jobs worker now (table, some held) =
    (j : Job) × Picks now jobs (some j)
    × (held ≡ claimed worker now j)
    × (table ≡ update_where (has_id j.id) (claimed worker now) jobs)

-- A claim answers nothing, and changes nothing, exactly when no queued job is due. Otherwise it
-- takes a due job that no due job comes before, and marks it as running under the worker.
pub claim_next_due-Claims :
    (jobs : List Job) (worker : String) (now : ℕ)
    → Claims jobs worker now (claim_next_due jobs worker now)
unfolding claim_next_due
claim_next_due-Claims jobs worker now = elim (Option-cases (next_due now jobs)) [
  | inl e ↦ rw (e, claim_next_due) (refl, subst (Picks now jobs) e (next_due-Picks now jobs))
  | inr (j, e) ↦
      rw (e, claim_next_due) (j, subst (Picks now jobs) e (next_due-Picks now jobs), refl, refl)
]

-- After a claim no row with the claimed id is due, at any time.
not_due_after :
    (jobs : List Job) (id : ℕ) (worker : String) (now later : ℕ) (k : Job)
    → Memᴰ k (update_where (has_id id) (claimed worker now) jobs)
    → is_due later k ≡ true
    → k.id ≢ id
unfolding update_where
not_due_after [] id worker now later k m d same = elim m [ ]
not_due_after (j ∷ js) id worker now later k (Memᴰ.head e) d same = elim (Bool-cases (j.id == id)) [
  | inl h ↦
      let row : k ≡ claimed worker now j = e ∙ (rw h refl) in
      let busy : is_due later (claimed worker now j) ≡ true =
        subst (λ t. is_due later t ≡ true) row d in
      cc
  | inr h ↦
      let row : k ≡ j = e ∙ (rw h refl) in
      let same_id : (k.id == id) ≡ true = (==_iff k.id id).1 same in
      let hit : (j.id == id) ≡ true = subst (λ t. (t.id == id) ≡ true) row same_id in cc
]
not_due_after (j ∷ js) id worker now later k (Memᴰ.tail m) d same =
    not_due_after js id worker now later k m d same

exclusive_of :
    (jobs : List Job) (first second : String) (now later : ℕ) (a b : Job)
    → (p q : List Job × Option Job) → Claims jobs first now p
    → Claims p.0 second later q
    → p.1 ≡ some a
    → q.1 ≡ some b
    → b.id ≢ a.id
exclusive_of jobs first second now later a b (table, none) q c d e f same = cc
exclusive_of jobs first second now later a b (table, some held) (table', none) c d e f same = cc
exclusive_of jobs first second now later a b (table, some held) (table', some next) (j, _, h, t)
      (k, pk, h', _) e f same =
    let one : a ≡ claimed first now j = cc in
    let two : b ≡ claimed second later k = cc in
    not_due_after jobs j.id first now later k (subst (Memᴰ k) t pk.0) pk.1
      (ap (λ x. x.id) (sym two) ∙ same ∙ ap (λ x. x.id) one)

-- Two claims in a row, by any workers at any times, never take the same job.
pub claim_exclusive :
    (jobs : List Job) (first second : String) (now later : ℕ) (a b : Job)
    → (claim_next_due jobs first now).1 ≡ some a
    → (claim_next_due (claim_next_due jobs first now).0 second later).1 ≡ some b
    → b.id ≢ a.id
claim_exclusive jobs first second now later a b e f =
    exclusive_of jobs first second now later a b (claim_next_due jobs first now)
      (claim_next_due (claim_next_due jobs first now).0 second later)
      (claim_next_due-Claims jobs first now)
      (claim_next_due-Claims (claim_next_due jobs first now).0 second later) e f
