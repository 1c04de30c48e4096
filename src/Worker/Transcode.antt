-- ===== src/Worker/Transcode.antt =====
-- The transcoding of an accepted upload (crates/server/src/worker.rs, `process_transcode`,
-- `persist_asset` and `fail_transcode`).
use toot_tok.Common.{ℕ, Option, none, some, List, [], ◌∷◌, ◌++◌, length, String}
use toot_tok.Common.Result.{Result, ok, err}
use toot_tok.Common.Text.{Text, codes}
use toot_tok.Assets.Decimal.{print_u64}
use toot_tok.Db.Assets
use toot_tok.Db.Assets.{MediaAsset}
use toot_tok.Jobs.{Job}
use toot_tok.Json.{integer, pos, str_field, json}
use toot_tok.Media
use toot_tok.Media.{Produced, TranscodeVideo, TranscodeOutputs, transcode}
use toot_tok.Worker.{
  Env, World, asset_insert, orig_upsert, finalize_enqueue, enqueue, end_job, bury_job, fail_clip,
  fail_known_clip, delete_file, id_field, joined, mime_or_mp4,
}

pub record AssetSpec : Type 0 where
  pub kind : Text
  pub rendition : Text
  pub filename : Text
  pub mime : Text
  pub codec : Option Text
  pub source : Produced

abbrev pub rendition_key : ℕ → Text → Text
rendition_key clip_id filename = codes "renditions/" ++ (print_u64 clip_id ++ b'/' ∷ filename)

unfoldable pub fail_transcode : Env → World → Job → ℕ → Text → String → World
unfolding delete_file fail_clip end_job
fail_transcode e w job clip_id key reason =
    let cleared = record w { assets = Assets.delete_for_clip w.assets clip_id } in
    let no_720 = delete_file e cleared (rendition_key clip_id (codes "720.mp4")) in
    let no_480 = delete_file e no_720 (rendition_key clip_id (codes "480.mp4")) in
    let no_poster = delete_file e no_480 (rendition_key clip_id (codes "poster.jpg")) in
    end_job e (fail_clip (delete_file e no_poster key) clip_id) job (some reason)

-- What is done, with the error that stops the rest.
abbrev Step : Type 0
Step = World × Option String

saved_asset : Env → World → ℕ → AssetSpec → List ℕ → Step
saved_asset e w clip_id spec bytes =
    let key = rendition_key clip_id spec.filename in
    elim (Media.save_bytes (e.io key) w.files key bytes) [
      | err x ↦ (w, some x)
      | ok files ↦ elim (e.fails (asset_insert spec.rendition)) [
        | some x ↦ (record w { files = files }, some x)
        | none ↦
            let row : MediaAsset = record {
              clip_id = clip_id;
              kind = spec.kind;
              rendition = spec.rendition;
              path = key;
              mime = spec.mime;
              size_bytes = some (length bytes);
              codec = spec.codec;
              ready_at = none;
            } in
            (record w { files = files; assets = Assets.create w.assets row }, none)
      ]
    ]

unfoldable pub persist_asset : Env → World → ℕ → AssetSpec → Step
unfolding saved_asset
persist_asset e w clip_id spec = elim spec.source [
  | err x ↦ (w, some x)
  | ok bytes ↦ saved_asset e w clip_id spec bytes
]

abbrev pub video_spec : TranscodeVideo → AssetSpec
video_spec v = record {
  kind = codes "video_mp4";
  rendition = v.rendition;
  filename = v.rendition ++ codes ".mp4";
  mime = codes "video/mp4";
  codec = some (codes "h264");
  source = v.path;
}

unfoldable pub persist_videos : Env → World → ℕ → List TranscodeVideo → Step
persist_videos e w clip_id [] = (w, none)
persist_videos e w clip_id (v ∷ vs) =
    let first = persist_asset e w clip_id (video_spec v) in
    let rest = persist_videos e first.0 clip_id vs in
    elim first.1 [ some x ↦ (first.0, some x) | none ↦ rest ]

abbrev pub poster_spec : Produced → AssetSpec
poster_spec poster = record {
  kind = codes "poster";
  rendition = codes "orig";
  filename = codes "poster.jpg";
  mime = codes "image/jpeg";
  codec = none;
  source = poster;
}

abbrev size_or_none : Result String ℕ → Option ℕ
size_or_none (ok n) = some n
size_or_none (err x) = none

upsert_orig : Env → World → ℕ → Text → Text → Step
upsert_orig e w clip_id key mime = elim (e.fails orig_upsert) [
  | some x ↦ (w, some x)
  | none ↦
      let row : MediaAsset = record {
        clip_id = clip_id;
        kind = codes "video_mp4";
        rendition = codes "orig";
        path = key;
        mime = mime;
        size_bytes = size_or_none (Media.open_file w.files key);
        codec = none;
        ready_at = none;
      } in
      (record w { assets = Assets.upsert w.assets row }, none)
]

-- The next step, when none failed.
abbrev and_next : Step → (World → Step) → Step
and_next (w, none) next = next w
and_next (w, some x) next = (w, some x)

unfoldable pub persist_outputs : Env → World → ℕ → Text → Text → TranscodeOutputs → Step
unfolding upsert_orig
persist_outputs e w clip_id key mime outputs =
    and_next
      (and_next (persist_videos e w clip_id outputs.videos)
        (λ v. persist_asset e v clip_id (poster_spec outputs.poster_path)))
      (λ v. upsert_orig e v clip_id key mime)

finalize_next : Env → World → Job → ℕ → Text → World
unfolding fail_transcode enqueue end_job
finalize_next e w job clip_id key = elim (e.fails finalize_enqueue) [
  | some x ↦ fail_transcode e w job clip_id key (joined "finalize enqueue failed: " x)
  | none ↦
      end_job e (enqueue e w "finalize" (json ((codes "clip_id", integer (pos clip_id)) ∷ []))) job
        none
]

persisted : Env → Step → Job → ℕ → Text → World
unfolding fail_transcode finalize_next
persisted e (w, some reason) job clip_id key = fail_transcode e w job clip_id key reason
persisted e (w, none) job clip_id key = finalize_next e w job clip_id key

transcode_upload : Env → World → Job → ℕ → Text → Text → World
unfolding fail_transcode persisted
transcode_upload e w job clip_id path key = elim e.scratch [
  | some x ↦ fail_transcode e w job clip_id key (joined "scratch dir failed: " x)
  | none ↦ elim (transcode e.tools path) [
    | err x ↦ fail_transcode e w job clip_id key (joined "transcode failed: " x)
    | ok outputs ↦
        let mime = mime_or_mp4 (str_field job.payload "mime") in
        persisted e (persist_outputs e w clip_id key mime outputs) job clip_id key
  ]
]

transcode_payload : Env → World → Job → Option ℕ → Option Text → Option Text → World
unfolding transcode_upload bury_job
transcode_payload e w job (some clip_id) (some path) (some key) =
    transcode_upload e w job clip_id path key
transcode_payload e w job clip_id path key =
    bury_job e (fail_known_clip w clip_id) job
      "malformed transcode payload: clip_id/path/key missing"

unfoldable pub process_transcode : Env → World → Job → World
unfolding transcode_payload
process_transcode e w job =
    transcode_payload e w job (id_field job.payload "clip_id") (str_field job.payload "path")
      (str_field job.payload "key")
