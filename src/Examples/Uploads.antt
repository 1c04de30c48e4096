-- ===== src/Examples/Uploads.antt =====
-- The workers (crates/server/src/worker.rs) on a clip that was transcoded, and on an announcement.
use toot_tok.Common.{ℕ, ◌≡◌, refl, false, none, some, List, [], ◌∷◌, ◌++◌, String}
use toot_tok.Common.Result.{ok, err}
use toot_tok.Common.Text.{Text, codes, text_eq}
use toot_tok.Db.Actors.{Actor}
use toot_tok.Db.Clips.{Clip, processing, ready, local, deleted_row, fetch_by_id}
use toot_tok.Jobs.{Job, running, mark_done}
use toot_tok.Json.{get, get_field, json, integer, pos, string}
use toot_tok.Media.{Tools}
use toot_tok.Worker.{Env, World, id_field}
use toot_tok.Worker.Announcements.{deleted_not_announced}
use toot_tok.Worker.Deliveries.{deliveries, fan_out-deliveries}
use toot_tok.Worker.Fanout.{fan_out}
use toot_tok.Worker.Finalize.{process_finalize}
use toot_tok.Worker.Handling.{Senders, delivered, handle_job}
use toot_tok.Worker.Settled.{IsSettled, handle_job-IsSettled}

abbrev tools : Tools
tools = record {
  probe = λ _. err "no ffprobe";
  transcode_mp4 = λ _ _ _. err "no ffmpeg";
  transcode_poster = λ _ _. err "no ffmpeg";
}

abbrev env : Env
env = record {
  now = 100;
  base_url = codes "https://here.test";
  format_time = λ t. t ∷ [];
  fails = λ _. none;
  io = λ _. none;
  scratch = none;
  tools = tools;
  clip_max_seconds = ok none;
}

abbrev clip : Clip
clip = record {
  id = 1;
  actor_id = 7;
  ap_id = codes "https://here.test/clips/1";
  origin = local;
  caption_html = none;
  status = processing;
  sha256_hash = none;
  width = none;
  height = none;
  size_bytes = some 3;
  remote_media_url = none;
  is_sensitive = false;
  cw_text = none;
  published_at = none;
  deleted_at = none;
  created_at = 20;
  sound_id = none;
}

abbrev job : Text → Job
job kind = record {
  id = 5;
  kind = kind;
  payload = json ((codes "clip_id", integer (pos 1)) ∷ []);
  run_after = 30;
  attempts = 0;
  max_attempts = 5;
  last_error = none;
  state = running;
  locked_by = some "w0";
  locked_at = some 30;
}

abbrev world : World
world = record {
  jobs = job (codes "finalize") ∷ [];
  next_job = 6;
  clips = deleted_row 50 clip ∷ [];
  assets = [];
  actors = [];
  follows = [];
  log = [];
  files = [];
}

abbrev follower : ℕ → String → Actor
follower id inbox = record {
  id = id;
  username = codes "f";
  domain = some (codes "there.test");
  inbox_url = codes inbox;
  shared_inbox_url = none;
  followers_url = [];
  is_locked = false;
  deleted_at = none;
  ap_id = codes inbox;
  public_key_pem = [];
  private_key_pem = none;
  outbox_url = [];
  display_name = none;
  summary = none;
  avatar_path = none;
  suspended_at = none;
}

abbrev followers : List Actor
followers = follower 8 "https://a.test/inbox" ∷ follower 9 "https://b.test/inbox" ∷ []

abbrev senders : Senders
senders = record {
  deliver_job = λ _ _. ok delivered;
  backfill_actor_posts = λ w actor_id max. (w, ok 0);
}

deleted_not_announced_example :
    ((process_finalize env world (job (codes "finalize"))).log ≡ [])
    × ((process_finalize env world (job (codes "finalize"))).jobs
        ≡ mark_done (job (codes "finalize") ∷ []) 5 none)
    × ((r : Clip) × (fetch_by_id (process_finalize env world (job (codes "finalize"))).clips 1
          ≡ some r)
        × (r.status ≡ ready)
        × (r.deleted_at ≡ some 50))
unfolding id_field get get_field text_eq
deleted_not_announced_example =
    deleted_not_announced env world (job (codes "finalize")) 1 50 (deleted_row 50 clip) refl refl
      refl refl refl (unfold fetch_by_id in refl) refl

fan_out-deliveries_example :
    ((fan_out env world 7 (string (codes "note")) followers).0.jobs
      ≡ world.jobs ++ (deliveries env 6 7 (string (codes "note")) followers).0)
    × ((fan_out env world 7 (string (codes "note")) followers).1
        ≡ (deliveries env 6 7 (string (codes "note")) followers).1)
fan_out-deliveries_example = fan_out-deliveries env world 7 (string (codes "note")) followers

handle_job-IsSettled_example : IsSettled 5 (handle_job env senders world (job (codes "finalize")))
handle_job-IsSettled_example = handle_job-IsSettled env senders world (job (codes "finalize")) refl
