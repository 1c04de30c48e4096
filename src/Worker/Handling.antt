-- ===== src/Worker/Handling.antt =====
-- The dispatch of a claimed job by its kind, and the bound on its time
-- (crates/server/src/worker.rs, `process_job_with_egress`, `handle_job` and `process_deliver`).
use toot_tok.Common.{ℕ, ◌^◌, ltb, if◌then◌else◌, Option, none, some, any, String}
use toot_tok.Common.Result.{Result, ok, err}
use toot_tok.Common.Text.{codes, text_eq, starts_with}
use toot_tok.Json.{Value, integer, ℤ, pos, get, and_then, as_i64}
use toot_tok.Jobs
use toot_tok.Jobs.{Job, is_held}
use toot_tok.Worker.{
  Env, World, fail_known_clip, bury_job, end_job, id_field, joined, process_probe,
}
use toot_tok.Worker.Fanout.{process_deliver_create, schedule_retry}
use toot_tok.Worker.Finalize.{process_finalize}
use toot_tok.Worker.Transcode.{process_transcode}

-- `DeliverOutcome` (crates/federation/src/deliver.rs).
pub data DeliverOutcome : Type 0 where
  delivered : DeliverOutcome
  rejected : String → DeliverOutcome
  failed : String → DeliverOutcome

-- The sending of one activity, and the import of an actor's old clips, with the clips it made.
pub record Senders : Type 0 where
  pub deliver_job : World → Job → Result String DeliverOutcome
  pub backfill_actor_posts : World → ℤ → ℕ → World × Result String ℕ

unfoldable pub delivered_job : Env → World → Job → Result String DeliverOutcome → World
unfolding end_job schedule_retry
delivered_job e w job (ok delivered) = end_job e w job none
delivered_job e w job (ok (rejected reason)) = end_job e w job (some reason)
delivered_job e w job (ok (failed reason)) = schedule_retry e w job reason
delivered_job e w job (err reason) = schedule_retry e w job reason

unfoldable pub process_deliver : Env → Senders → World → Job → World
unfolding delivered_job
process_deliver e s w job =
    if text_eq job.kind (codes "deliver_create")
    then process_deliver_create e w job
    else delivered_job e w job (s.deliver_job w job)

as_u64 : Value → Option ℕ
as_u64 (integer (pos n)) = if ltb n (2 ^ 64) then some n else none
as_u64 _ = none

-- `unwrap_or(20)`.
abbrev or_twenty : Option ℕ → ℕ
or_twenty none = 20
or_twenty (some n) = n

unfoldable pub backfilled : Env → Job → World × Result String ℕ → World
unfolding end_job bury_job
backfilled e job (w, ok created) = end_job e w job none
backfilled e job (w, err detail) = bury_job e w job (joined "backfill failed: " detail)

unfoldable pub backfill_payload : Env → Senders → World → Job → Option ℤ → World
unfolding backfilled bury_job as_u64
backfill_payload e s w job none = bury_job e w job "malformed backfill_actor payload"
backfill_payload e s w job (some actor_id) = backfilled e job (
    s.backfill_actor_posts w actor_id (or_twenty (and_then (get job.payload (codes "max")) as_u64)))

-- `process_backfill_job` (crates/federation/src/backfill.rs).
unfoldable pub process_backfill_job : Env → Senders → World → Job → World
unfolding backfill_payload
process_backfill_job e s w job =
    backfill_payload e s w job (and_then (get job.payload (codes "actor_id")) as_i64)

unfoldable pub handle_job : Env → Senders → World → Job → World
unfolding bury_job process_backfill_job
handle_job e s w job =
    if starts_with job.kind (codes "deliver")
    then process_deliver e s w job
    else if text_eq job.kind (codes "probe")
    then process_probe e w job
    else if text_eq job.kind (codes "transcode")
    then process_transcode e w job
    else if text_eq job.kind (codes "finalize")
    then process_finalize e w job
    else if text_eq job.kind (codes "backfill_actor")
    then process_backfill_job e s w job
    else bury_job e (fail_known_clip w (id_field job.payload "clip_id")) job "unknown job kind"

-- The failure of an overrun job: its clip fails only when this worker still held the job.
unfoldable pub bump_job_after_failure : World → Job → String → World
bump_job_after_failure w job reason =
    let bumped = record w { jobs = Jobs.bump_after_failure w.jobs job reason } in
    if any (is_held job) w.jobs
    then fail_known_clip bumped (id_field job.payload "clip_id")
    else bumped
