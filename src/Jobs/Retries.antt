-- ===== src/Jobs/Retries.antt =====
-- What a late worker can do to a job that it lost (crates/server/src/worker.rs).
use toot_tok.Common.{
  ℕ, ◌≡◌, refl, true, false, some, List, [], ◌∷◌, All, Bool-cases, Option-cases, inl, inr, String,
  ◌==◌,
}
use toot_tok.Common.Eq.{string_eq}
use toot_tok.Jobs.{
  Job, same_worker, update_where, claimed, has_id, claim_next_due, next_due, is_stale, reap_stale,
  is_held, bump_after_failure, bumped,
}

-- No row is held by the worker of the snapshot.
abbrev IsLost : Job → List Job → Type 0
IsLost snapshot js = All (λ j. is_held snapshot j ≡ false) js

bump-IsLost :
    (js : List Job) (snapshot : Job) (reason : String)
    → IsLost snapshot js
    → bump_after_failure js snapshot reason ≡ js
unfolding bump_after_failure update_where
bump-IsLost [] snapshot reason h = refl
bump-IsLost (j ∷ js) snapshot reason h = rw (h.0, bump-IsLost js snapshot reason h.1) refl

bumped-lost : (snapshot j : Job) (reason : String) → is_held snapshot (bumped reason j) ≡ false
unfolding is_held
bumped-lost snapshot j reason = elim (Bool-cases (j.id == snapshot.id)) [
  | inl e ↦ rw e refl
  | inr e ↦ rw e refl
]

reap-IsLost :
    (js : List Job) (snapshot : Job) (now timeout : ℕ)
    → All (λ j. is_held snapshot j ≡ true → is_stale now timeout j ≡ true) js
    → IsLost snapshot (reap_stale js now timeout)
unfolding reap_stale update_where
reap-IsLost [] snapshot now timeout h = tt
reap-IsLost (j ∷ js) snapshot now timeout h = elim (Bool-cases (is_stale now timeout j)) [
  | inl e ↦ (rw e (bumped-lost snapshot j _), reap-IsLost js snapshot now timeout h.1)
  | inr e ↦ elim (Bool-cases (is_held snapshot j)) [
    | inl d ↦
        let stale : is_stale now timeout j ≡ true = h.0 d in
        (cc, reap-IsLost js snapshot now timeout h.1)
    | inr d ↦ (rw e d, reap-IsLost js snapshot now timeout h.1)
  ]
]

claimed-lost :
    (snapshot j : Job) (worker : String) (now : ℕ)
    → same_worker (some worker) snapshot.locked_by ≡ false
    → is_held snapshot (claimed worker now j) ≡ false
unfolding is_held
claimed-lost snapshot j worker now other = elim (Bool-cases (j.id == snapshot.id)) [
  | inl e ↦ rw (e, other) refl
  | inr e ↦ rw e refl
]

update-IsLost :
    (js : List Job) (snapshot : Job) (id : ℕ) (worker : String) (now : ℕ)
    → same_worker (some worker) snapshot.locked_by ≡ false
    → IsLost snapshot js
    → IsLost snapshot (update_where (has_id id) (claimed worker now) js)
unfolding update_where
update-IsLost [] snapshot id worker now other h = tt
update-IsLost (j ∷ js) snapshot id worker now other h = elim (Bool-cases (j.id == id)) [
  | inl e ↦ (
    rw e (claimed-lost snapshot j worker now other),
    update-IsLost js snapshot id worker now other h.1,
  )
  | inr e ↦ (rw e h.0, update-IsLost js snapshot id worker now other h.1)
]

claim-IsLost :
    (js : List Job) (snapshot : Job) (worker : String) (now : ℕ)
    → same_worker (some worker) snapshot.locked_by ≡ false
    → IsLost snapshot js
    → IsLost snapshot (claim_next_due js worker now).0
unfolding claim_next_due
claim-IsLost js snapshot worker now other h = elim (Option-cases (next_due now js)) [
  | inl e ↦ rw (e, claim_next_due) h
  | inr (j, e) ↦ rw (e, claim_next_due) (update-IsLost js snapshot j.id worker now other h)
]

-- A worker whose job was stale when the reaper ran, and that reports the failure only after another
-- worker made its claim, changes nothing: the job that the other worker may now hold keeps its lock
-- and its attempts.
pub late_bump :
    (js : List Job) (snapshot : Job) (now timeout later : ℕ) (other reason : String)
    → All (λ j. is_held snapshot j ≡ true → is_stale now timeout j ≡ true) js
    → same_worker (some other) snapshot.locked_by ≡ false
    → bump_after_failure (claim_next_due (reap_stale js now timeout) other later).0 snapshot reason
      ≡ (claim_next_due (reap_stale js now timeout) other later).0
late_bump js snapshot now timeout later other reason h o =
    bump-IsLost _ snapshot reason
      (claim-IsLost _ snapshot other later o (reap-IsLost js snapshot now timeout h))
