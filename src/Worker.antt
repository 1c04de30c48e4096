-- ===== src/Worker.antt =====
-- The workers' handling of a claimed job (crates/server/src/worker.rs): the probe of an upload, its
-- transcoding, the finalization with the announcement of the clip, and the fan-out of the
-- announcement. A statement whose error the code handles fails when the environment says so; one
-- whose error the code drops or only logs succeeds. The ids of rows in a payload are not negative.
pub mod Transcode
pub mod Finalize
pub mod Fanout
pub mod Handling
pub mod Settled
pub mod Deliveries
pub mod Announcements
use toot_tok.Common.{
  ℕ, suc, Bool, true, false, ltb, if◌then◌else◌, Option, none, some, List, [], ◌∷◌, String, ◌*◌,
  ◌^◌,
}
use toot_tok.Common.Result.{Result, ok, err}
use toot_tok.Common.Text.{Text, codes}
use toot_tok.Db.Actors.{Actor}
use toot_tok.Db.Assets.{MediaAsset}
use toot_tok.Db.Clips
use toot_tok.Db.Clips.{Clip}
use toot_tok.Db.Follows.{Follow}
use toot_tok.Db.Ledger.{LoggedActivity}
use toot_tok.Jobs
use toot_tok.Jobs.{Job}
use toot_tok.Json.{Value, string, integer, ℤ, pos, negsuc, get, and_then, as_i64, str_field, json}
use toot_tok.Media
use toot_tok.Media.{Files, Tools, ProbeInfo, decide, accept, reject}

-- `format!("{s}{t}")`.
abbrev pub joined : String → String → String
joined String.[] t = t
joined (String.◌∷◌ c s) t = String.◌∷◌ c (joined s t)

-- The statements on the database whose errors are handled.
pub data Statement : Type 0 where
  probe_stamp : Statement
  transcode_enqueue : Statement
  asset_insert : Text → Statement
  orig_upsert : Statement
  finalize_enqueue : Statement
  asset_stamp : Statement
  ready_flip : Statement
  clip_read : Statement
  author_read : Statement
  ap_id_write : Statement
  clip_reread : Statement
  rendition_read : Statement
  create_enqueue : Statement
  follower_read : Statement
  -- The update that ends the job. Its error is only logged.
  job_end : Statement
  -- The enqueueing of the delivery to a follower.
  delivery_enqueue : ℕ → Statement

pub record Env : Type 0 where
  pub now : ℕ
  pub base_url : Text
  pub format_time : ℕ → Text
  pub fails : Statement → Option String
  -- The errors of the file system, by key.
  pub io : Text → Option String
  pub scratch : Option String
  pub tools : Tools
  -- The row of the setting, and its value as a number.
  pub clip_max_seconds : Result String (Option (Option ℤ))

pub record World : Type 0 where
  pub jobs : List Job
  pub next_job : ℕ
  pub clips : List Clip
  pub assets : List MediaAsset
  pub actors : List Actor
  pub follows : List Follow
  pub log : List LoggedActivity
  pub files : Files

abbrev natural : ℤ → Option ℕ
natural (pos n) = some n
natural (negsuc n) = none

-- A field with the id of a row.
unfoldable pub id_field : Value → String → Option ℕ
id_field v key = and_then (and_then (get v (codes key)) as_i64) natural

abbrev or_default : ℤ → Option ℤ → ℤ
or_default default none = default
or_default default (some (pos n)) = pos n
or_default default (some (negsuc n)) = default

unfoldable pub numeric_setting : Result String (Option (Option ℤ)) → ℤ → Result String ℤ
numeric_setting (err e) default = err e
numeric_setting (ok none) default = ok default
numeric_setting (ok (some v)) default = ok (or_default default v)

-- 180.0, in the units of F64.
unfoldable pub clip_max_seconds_default : ℤ
clip_max_seconds_default = pos (180 * 2 ^ 1074)

unfoldable pub enqueue : Env → World → String → Value → World
enqueue e w kind payload = record w {
  jobs = Jobs.create w.jobs w.next_job (codes kind) payload e.now;
  next_job = suc w.next_job;
}

-- The job stays as it is, claimed, when its last update fails.
unfoldable pub end_job : Env → World → Job → Option String → World
end_job e w job last_error = elim (e.fails job_end) [
  | some x ↦ w
  | none ↦ record w { jobs = Jobs.mark_done w.jobs job.id last_error }
]

unfoldable pub bury_job : Env → World → Job → String → World
bury_job e w job error = elim (e.fails job_end) [
  | some x ↦ w
  | none ↦ record w { jobs = Jobs.dead_letter w.jobs job.id error }
]

unfoldable pub fail_clip : World → ℕ → World
fail_clip w id = record w { clips = Clips.mark_failed w.clips id }

abbrev pub fail_known_clip : World → Option ℕ → World
fail_known_clip w none = w
fail_known_clip w (some id) = fail_clip w id

abbrev pub or_same : Files → Result String Files → Files
or_same files (ok next) = next
or_same files (err e) = files

-- A deletion whose error is dropped.
unfoldable pub delete_file : Env → World → Text → World
delete_file e w key = record w { files = or_same w.files (Media.delete (e.io key) w.files key) }

abbrev pub delete_known_file : Env → World → Option Text → World
delete_known_file e w none = w
delete_known_file e w (some key) = delete_file e w key

unfoldable pub reject_clip : Env → World → Job → ℕ → Option Text → String → World
unfolding fail_clip delete_file end_job
reject_clip e w job clip_id key reason =
    end_job e (delete_known_file e (fail_clip w clip_id) key) job (some reason)

abbrev pub mime_or_mp4 : Option Text → Text
mime_or_mp4 none = codes "video/mp4"
mime_or_mp4 (some mime) = mime

abbrev transcode_payload : ℕ → Text → Text → Text → Value
transcode_payload clip_id path key mime = json (
    (codes "clip_id", integer (pos clip_id))
    ∷ (codes "path", string path)
    ∷ (codes "key", string key)
    ∷ (codes "mime", string mime)
    ∷ [])

-- After the stamp of the clip, with the key of the stored file.
accepted_upload : Env → World → Job → ℕ → Text → Option Text → World
unfolding enqueue end_job fail_clip reject_clip
accepted_upload e w job clip_id path none =
    end_job e (fail_clip w clip_id) job (some "probe payload missing storage key")
accepted_upload e w job clip_id path (some key) = elim (e.fails transcode_enqueue) [
  | some x ↦ reject_clip e w job clip_id (some key) (joined "transcode enqueue failed: " x)
  | none ↦
      let mime = mime_or_mp4 (str_field job.payload "mime") in
      end_job e (enqueue e w "transcode" (transcode_payload clip_id path key mime)) job none
]

stamp_upload : Env → World → Job → ℕ → Text → Option Text → ProbeInfo → World
unfolding accepted_upload bury_job
stamp_upload e w job clip_id path key info = elim (e.fails probe_stamp) [
  | some x ↦ bury_job e w job (joined "probe stamp failed: " x)
  | none ↦
      let stamped = record w {
        clips = Clips.update_probe_info w.clips clip_id info.width info.height;
      } in
      accepted_upload e stamped job clip_id path key
]

probe_upload : Env → World → Job → ℕ → Text → Option Text → ℤ → World
unfolding stamp_upload reject_clip
probe_upload e w job clip_id path key cap = elim (e.tools.probe path) [
  | err x ↦ reject_clip e w job clip_id key (joined "probe failed: " x)
  | ok info ↦ elim (decide info cap) [
    | reject reason ↦ reject_clip e w job clip_id key reason
    | accept ↦ stamp_upload e w job clip_id path key info
  ]
]

cap_upload : Env → World → Job → ℕ → Text → Option Text → World
unfolding probe_upload reject_clip
cap_upload e w job clip_id path key =
    elim (numeric_setting e.clip_max_seconds clip_max_seconds_default) [
      | err x ↦ reject_clip e w job clip_id key (joined "settings read failed: " x)
      | ok cap ↦ probe_upload e w job clip_id path key cap
    ]

probe_payload : Env → World → Job → Option ℕ → Option Text → World
unfolding cap_upload bury_job
probe_payload e w job (some clip_id) (some path) =
    cap_upload e w job clip_id path (str_field job.payload "key")
probe_payload e w job (some clip_id) none =
    bury_job e (fail_known_clip w (some clip_id)) job
      "malformed probe payload: clip_id/path missing"
probe_payload e w job none path = bury_job e w job "malformed probe payload: clip_id/path missing"

unfoldable pub process_probe : Env → World → Job → World
unfolding probe_payload
process_probe e w job =
    probe_payload e w job (id_field job.payload "clip_id") (str_field job.payload "path")
