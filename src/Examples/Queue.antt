-- ===== src/Examples/Queue.antt =====
-- The job queue (crates/db/src/job.rs, crates/server/src/worker.rs) on a table of two jobs.
use toot_tok.Common.{ℕ, ◌≡◌, ◌≢◌, refl, none, List, [], ◌∷◌, All}
use toot_tok.Common.Text.{Text, codes, starts_with}
use toot_tok.Json.{Value, json, integer, pos}
use toot_tok.Jobs.{
  Job, queued, claim_next_due, next_due, claimed, reap_stale, bump_after_failure, is_stale,
  hand_back, update_where,
}
use toot_tok.Jobs.Claims.{claim_exclusive}
use toot_tok.Jobs.Locks.{IsLocked, claims, bumps, reaps, execute_all, execute_all-IsLocked}
use toot_tok.Jobs.Retries.{late_bump}
use toot_tok.Jobs.Delivery.{delivery_rounds, delivery_starves}

abbrev payload : Value
payload = json ((codes "clip_id", integer (pos 4)) ∷ [])

abbrev job : ℕ → Text → ℕ → Job
job id kind run_after = record {
  id = id;
  kind = kind;
  payload = payload;
  run_after = run_after;
  attempts = 0;
  max_attempts = 5;
  last_error = none;
  state = queued;
  locked_by = none;
  locked_at = none;
}

abbrev transcode : Job
transcode = job 1 (codes "transcode") 10

abbrev deliver : Job
deliver = job 2 (codes "deliver") 20

abbrev table : List Job
table = deliver ∷ transcode ∷ []

claim_exclusive_example : (claimed "w1" 31 deliver).id ≢ (claimed "w0" 30 transcode).id
unfolding claim_next_due next_due update_where
claim_exclusive_example =
    claim_exclusive table "w0" "w1" 30 31 (claimed "w0" 30 transcode) (claimed "w1" 31 deliver) refl
      refl

execute_all-IsLocked_example : All IsLocked (
    execute_all table
      (claims "w0" 30 ∷ bumps (claimed "w0" 30 transcode) "failed" ∷ reaps 99 60 ∷ []))
execute_all-IsLocked_example =
    execute_all-IsLocked table
      (claims "w0" 30 ∷ bumps (claimed "w0" 30 transcode) "failed" ∷ reaps 99 60 ∷ [])
      ((refl, refl), ((refl, refl), tt))

-- The transcode job was claimed at 30 s by a worker that never came back.
abbrev hung : List Job
hung = claimed "w0" 30 transcode ∷ []

late_bump_example :
    bump_after_failure
      (claim_next_due (reap_stale hung 100 60) "w1" 101).0
      (claimed "w0" 30 transcode)
      "too late"
    ≡ (claim_next_due (reap_stale hung 100 60) "w1" 101).0
late_bump_example =
    late_bump hung (claimed "w0" 30 transcode) 100 60 101 "w1" "too late"
      ((unfold is_stale in λ _. refl), tt) refl

delivery_starves_example :
    delivery_rounds (λ js j. hand_back js j.id) table (30 ∷ 31 ∷ 32 ∷ []) ≡ table
unfolding starts_with
delivery_starves_example =
    delivery_starves (λ js j. hand_back js j.id) table (30 ∷ 31 ∷ 32 ∷ []) transcode
      (unfold next_due in (refl, (refl, (refl, tt)))) refl ((λ _. refl), ((λ _. refl), tt))
