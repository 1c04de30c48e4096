-- ===== src/Worker/Fanout.antt =====
-- The fan-out of a clip's Create to the remote followers of its author
-- (crates/server/src/worker.rs, `process_deliver_create`).
use toot_tok.Common.{ℕ, suc, ltb, if◌then◌else◌, Option, none, some, List, [], ◌∷◌, String}
use toot_tok.Common.Text.{Text, codes}
use toot_tok.Db.Actors
use toot_tok.Db.Actors.{Actor, shared_inbox_or_inbox}
use toot_tok.Db.Clips
use toot_tok.Db.Follows
use toot_tok.Jobs
use toot_tok.Jobs.{Job}
use toot_tok.Json.{Value, string, integer, pos, get, json}
use toot_tok.Worker.{
  Env, World, author_read, clip_read, follower_read, delivery_enqueue, enqueue, end_job, bury_job,
  job_end, id_field, joined,
}

-- `enqueue_delivery` (crates/federation/src/deliver.rs).
unfoldable pub delivery_payload : ℕ → Text → Value → Value
delivery_payload actor_id inbox activity = json (
    (codes "actor_id", integer (pos actor_id))
    ∷ (codes "inbox_url", string inbox)
    ∷ (codes "activity", activity)
    ∷ [])

-- One delivery for each follower. An enqueueing that fails is counted.
unfoldable pub fan_out : Env → World → ℕ → Value → List Actor → World × ℕ
unfolding enqueue
fan_out e w author activity [] = (w, 0)
fan_out e w author activity (f ∷ fs) =
    let payload = delivery_payload author (shared_inbox_or_inbox f) activity in
    let rest = fan_out e w author activity fs in
    let sent = fan_out e (enqueue e w "deliver" payload) author activity fs in
    elim (e.fails (delivery_enqueue f.id)) [ some x ↦ (rest.0, suc rest.1) | none ↦ sent ]

unfoldable pub schedule_retry : Env → World → Job → String → World
schedule_retry e w job reason = elim (e.fails job_end) [
  | some x ↦ w
  | none ↦ record w { jobs = Jobs.schedule_deliver_retry w.jobs job e.now reason }
]

-- The worker's note that some enqueues failed, in its own words.
abbrev fan_out_note : ℕ → Option String
fan_out_note n = if ltb 0 n then some "fan-out enqueues failed" else none

unfoldable pub to_followers : Env → World → Job → ℕ → Value → World
unfolding fan_out schedule_retry end_job
to_followers e w job author activity = elim (e.fails follower_read) [
  | some x ↦ schedule_retry e w job (joined "follower query failed: " x)
  | none ↦
      let out =
        fan_out e w author activity (Follows.remote_follower_actors w.follows w.actors author) in
      end_job e out.0 job (fan_out_note out.1)
]

-- A read that fails is one that finds nothing.
abbrev unless_fault : {A : Type 0} → Option String → Option A → Option A
unless_fault none a = a
unless_fault (some x) a = none

unfoldable pub from_author : Env → World → Job → Value → Option Actor → World
unfolding to_followers bury_job
from_author e w job activity none = bury_job e w job "deliver_create: author actor not found"
from_author e w job activity (some author) = to_followers e w job author.id activity

unfoldable pub of_clip : Env → World → Job → Value → Option Clips.Clip → World
unfolding from_author bury_job
of_clip e w job activity none = bury_job e w job "deliver_create: clip not found"
of_clip e w job activity (some clip) =
    from_author e w job activity
      (unless_fault (e.fails author_read) (Actors.fetch_by_id w.actors clip.actor_id))

unfoldable pub deliver_create_payload : Env → World → Job → Option ℕ → Option Value → World
unfolding of_clip bury_job
deliver_create_payload e w job (some clip_id) (some activity) =
    of_clip e w job activity (unless_fault (e.fails clip_read) (Clips.fetch_by_id w.clips clip_id))
deliver_create_payload e w job clip_id activity =
    bury_job e w job "malformed deliver_create payload"

unfoldable pub process_deliver_create : Env → World → Job → World
unfolding deliver_create_payload
process_deliver_create e w job =
    deliver_create_payload e w job (id_field job.payload "clip_id")
      (get job.payload (codes "activity"))
