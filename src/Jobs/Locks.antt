-- ===== src/Jobs/Locks.antt =====
-- The lock columns of a job (crates/db/src/job.rs and the statements of crates/server/src/worker.rs).
use toot_tok.Common.{
  ℕ, ◌≡◌, refl, Option, List, [], ◌∷◌, All, Bool-cases, Option-cases, inl, inr, is_some, String,
}
use toot_tok.Common.Text.{Text}
use toot_tok.Common.Table.{update_where-All, All-append}
use toot_tok.Json.{Value}
use toot_tok.Jobs.{
  Job, is_running, is_exhausted, create, claimed, bumped, claim_next_due, mark_done, dead_letter,
  reap_stale, bump_after_failure, schedule_deliver_retry, hand_back, next_due, has_id, is_stale,
  is_held,
}

-- Both lock columns are set exactly on a running row.
abbrev pub IsLocked : Job → Type 0
IsLocked j = (is_some j.locked_by ≡ is_running j.state) × (is_some j.locked_at ≡ is_running j.state)

-- A statement on the table.
pub data Statement : Type 0 where
  creates : ℕ → Text → Value → ℕ → Statement
  claims : String → ℕ → Statement
  finishes : ℕ → Option String → Statement
  buries : ℕ → String → Statement
  reaps : ℕ → ℕ → Statement
  bumps : Job → String → Statement
  retries : Job → ℕ → String → Statement
  gives_back : ℕ → Statement

unfoldable pub execute : List Job → Statement → List Job
execute js (creates fresh kind payload run_after) = create js fresh kind payload run_after
execute js (claims worker now) = (claim_next_due js worker now).0
execute js (finishes id last_error) = mark_done js id last_error
execute js (buries id error) = dead_letter js id error
execute js (reaps now timeout) = reap_stale js now timeout
execute js (bumps snapshot reason) = bump_after_failure js snapshot reason
execute js (retries snapshot now reason) = schedule_deliver_retry js snapshot now reason
execute js (gives_back id) = hand_back js id

unfoldable pub execute_all : List Job → List Statement → List Job
execute_all js [] = js
execute_all js (s ∷ ss) = execute_all (execute js s) ss

bumped-IsLocked : (reason : String) (j : Job) → IsLocked (bumped reason j)
bumped-IsLocked reason j = elim (Bool-cases (is_exhausted j)) [
  | inl e ↦ rw e (refl, refl)
  | inr e ↦ rw e (refl, refl)
]

claim-IsLocked :
    (js : List Job) (worker : String) (now : ℕ)
    → All IsLocked js
    → All IsLocked (claim_next_due js worker now).0
unfolding claim_next_due
claim-IsLocked js worker now h = elim (Option-cases (next_due now js)) [
  | inl e ↦ rw (e, claim_next_due) h
  | inr (j, e) ↦
      rw (e, claim_next_due)
        (update_where-All IsLocked (has_id j.id) (claimed worker now) js (λ _ _. (refl, refl)) h)
]

retry-IsLocked :
    (js : List Job) (job : Job) (now : ℕ) (reason : String)
    → All IsLocked js
    → All IsLocked (schedule_deliver_retry js job now reason)
unfolding schedule_deliver_retry dead_letter
retry-IsLocked js job now reason h = elim (Bool-cases (is_exhausted job)) [
  | inl e ↦ rw e (update_where-All IsLocked (has_id job.id) _ js (λ _ _. (refl, refl)) h)
  | inr e ↦ rw e (update_where-All IsLocked (has_id job.id) _ js (λ _ _. (refl, refl)) h)
]

execute-IsLocked : (js : List Job) (s : Statement) → All IsLocked js → All IsLocked (execute js s)
unfolding execute create mark_done dead_letter reap_stale bump_after_failure hand_back
execute-IsLocked js (creates fresh kind payload run_after) h =
    All-append IsLocked js _ h ((refl, refl), tt)
execute-IsLocked js (claims worker now) h = claim-IsLocked js worker now h
execute-IsLocked js (finishes id last_error) h =
    update_where-All IsLocked (has_id id) _ js (λ _ _. (refl, refl)) h
execute-IsLocked js (buries id error) h =
    update_where-All IsLocked (has_id id) _ js (λ _ _. (refl, refl)) h
execute-IsLocked js (reaps now timeout) h =
    update_where-All IsLocked (is_stale now timeout) _ js
      (λ j _. bumped-IsLocked "reaper: max attempts" j) h
execute-IsLocked js (bumps snapshot reason) h =
    update_where-All IsLocked (is_held snapshot) _ js (λ j _. bumped-IsLocked reason j) h
execute-IsLocked js (retries snapshot now reason) h = retry-IsLocked js snapshot now reason h
execute-IsLocked js (gives_back id) h =
    update_where-All IsLocked (has_id id) _ js (λ _ _. (refl, refl)) h

-- Whatever statements the workers execute, in whatever order, on a table in which both lock columns
-- are set exactly on the running rows, it stays such a table.
pub execute_all-IsLocked :
    (js : List Job) (ss : List Statement) → All IsLocked js → All IsLocked (execute_all js ss)
unfolding execute_all
execute_all-IsLocked js [] h = h
execute_all-IsLocked js (s ∷ ss) h =
    execute_all-IsLocked (execute js s) ss (execute-IsLocked js s h)
