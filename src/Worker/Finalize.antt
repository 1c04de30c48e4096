-- ===== src/Worker/Finalize.antt =====
-- The finalization of a transcoded upload, and the announcement of a local clip
-- (crates/server/src/worker.rs, `process_finalize` and `enqueue_clip_create`).
use toot_tok.Common.{
  ℕ, Bool, true, false, ◌||◌, if◌then◌else◌, Option, none, some, is_some, [], ◌∷◌, String,
}
use toot_tok.Common.Result.{Result, ok, err}
use toot_tok.Common.Text.{Text, codes, text_eq}
use toot_tok.Db.Actors
use toot_tok.Db.Actors.{Actor}
use toot_tok.Db.Assets
use toot_tok.Db.Clips
use toot_tok.Db.Clips.{Clip, Origin, local, remote}
use toot_tok.Db.Ledger.{try_create, outbound}
use toot_tok.Jobs.{Job}
use toot_tok.Json.{Value, integer, pos, str_field, json}
use toot_tok.Notes.{or_empty, clip_object_id, clip_create_activity}
use toot_tok.Worker.{
  Env, World, asset_stamp, ready_flip, clip_read, author_read, ap_id_write, clip_reread,
  rendition_read, create_enqueue, enqueue, end_job, bury_job, fail_clip, id_field, joined,
}

-- `activity_id_from_json` (crates/federation/src/activity.rs).
unfoldable pub activity_id_from_json : Value → Text
activity_id_from_json activity = or_empty (str_field activity "id")

-- What is done, with the error that ends it.
abbrev Step : Type 0
Step = World × Option String

abbrev fault_or : {A : Type 0} → Option String → Option A → String → Result String A
fault_or (some x) a missing = err x
fault_or none none missing = err missing
fault_or none (some a) missing = ok a

abbrev or_720 : Option String → Option Text → Option Text
or_720 none (some filename) = some filename
or_720 fault filename = some (codes "720.mp4")

announce : Env → World → Actor → Clip → Text → Step
unfolding enqueue
announce e w author clip canonical =
    let filename =
      or_720 (e.fails rendition_read) (Assets.largest_video_filename w.assets clip.id) in
    let activity = clip_create_activity e.format_time e.base_url clip author filename in
    let log =
      (try_create outbound w.log (activity_id_from_json activity) author.ap_id
        (some canonical)).0 in
    elim (e.fails create_enqueue) [
      | some x ↦ (record w { log = log }, some x)
      | none ↦
          let payload =
            json ((codes "clip_id", integer (pos clip.id)) ∷ (codes "activity", activity) ∷ []) in
          (enqueue e (record w { log = log }) "deliver_create" payload, none)
    ]

reread : Env → World → Actor → ℕ → Text → Step
unfolding announce
reread e w author clip_id canonical =
    elim (fault_or (e.fails clip_reread) (Clips.fetch_by_id w.clips clip_id)
      "clip vanished after ap_id update") [
        | err x ↦ (w, some x)
        | ok clip ↦ announce e w author clip canonical
      ]

canonicalize : Env → World → Actor → Clip → ℕ → Step
unfolding reread
canonicalize e w author clip clip_id =
    let canonical = clip_object_id e.base_url clip_id in
    if text_eq clip.ap_id canonical
    then reread e w author clip_id canonical
    else elim (e.fails ap_id_write) [
      | some x ↦ (w, some x)
      | none ↦
          reread e (record w { clips = Clips.set_ap_id w.clips clip_id canonical }) author clip_id
            canonical
    ]

abbrev pub is_remote : Origin → Bool
is_remote remote = true
is_remote local = false

announce_by_author : Env → World → Clip → ℕ → Step
unfolding canonicalize
announce_by_author e w clip clip_id =
    elim (fault_or (e.fails author_read) (Actors.fetch_by_id w.actors clip.actor_id)
      "clip has no author row") [
        | err x ↦ (w, some x)
        | ok author ↦
            if is_some author.domain then (w, none) else canonicalize e w author clip clip_id
      ]

unfoldable pub enqueue_clip_create : Env → World → ℕ → Step
unfolding announce_by_author
enqueue_clip_create e w clip_id =
    elim (fault_or (e.fails clip_read) (Clips.fetch_by_id w.clips clip_id)
      "clip vanished before finalize federation") [
        | err x ↦ (w, some x)
        | ok clip ↦
            if is_remote clip.origin || is_some clip.deleted_at
            then (w, none)
            else announce_by_author e w clip clip_id
      ]

announced : Env → Step → Job → World
unfolding end_job
announced e (w, some x) job = end_job e w job (some (joined "federation enqueue failed: " x))
announced e (w, none) job = end_job e w job none

ready_clip : Env → World → Job → ℕ → World
unfolding announced fail_clip end_job
ready_clip e w job clip_id = elim (e.fails ready_flip) [
  | some x ↦ end_job e (fail_clip w clip_id) job (some (joined "finalize failed: " x))
  | none ↦
      let shown = record w { clips = Clips.mark_ready w.clips e.now clip_id } in
      announced e (enqueue_clip_create e shown clip_id) job
]

finalize_payload : Env → World → Job → Option ℕ → World
unfolding ready_clip fail_clip end_job bury_job
finalize_payload e w job none = bury_job e w job "malformed finalize payload: clip_id missing"
finalize_payload e w job (some clip_id) = elim (e.fails asset_stamp) [
  | some x ↦ end_job e (fail_clip w clip_id) job (some (joined "asset stamp failed: " x))
  | none ↦
      let stamped = record w { assets = Assets.mark_ready_for_clip w.assets e.now clip_id } in
      ready_clip e stamped job clip_id
]

unfoldable pub process_finalize : Env → World → Job → World
unfolding finalize_payload
process_finalize e w job = finalize_payload e w job (id_field job.payload "clip_id")
