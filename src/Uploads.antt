-- ===== src/Uploads.antt =====
-- Uploads (crates/server/src/upload.rs): the fields of the form, the checks, and the clip with what
-- belongs to it. The bodies of the form's fields are lists of chunks of bytes, a chunk that cannot be
-- read among them; the hash, the random names, and the paths under the store's root are parameters.
-- A statement whose error the code drops succeeds.
pub mod Fields
pub mod Accepted
pub mod Handover
use toot_tok.Common.{
  ℕ, suc, ◌+◌, ◌-◌, ◌*◌, ◌/◌, ◌^◌, min, Bool, true, false, ◌&&◌, ◌||◌, not, ltb, ◌==◌,
  if◌then◌else◌, Option, none, some, is_none, List, [], ◌∷◌, ◌++◌, length, any, String,
}
use toot_tok.Common.Result.{Result, ok, err}
use toot_tok.Common.Text.{Text, codes, trim}
use toot_tok.Accounts.{AuthUser, Response, problem, reply, unavailable, database_error}
use toot_tok.Db.Assets
use toot_tok.Db.Assets.{MediaAsset}
use toot_tok.Db.Clips
use toot_tok.Db.Clips.{Clip, is_failed, is_active_hash}
use toot_tok.Db.Hashtags.{Tags, link_hashtags_to_clip}
use toot_tok.Db.Sounds.{Sound, get_or_create}
use toot_tok.Jobs
use toot_tok.Jobs.{Job}
use toot_tok.Json.{Value, string, integer, ℤ, pos, negsuc, non_empty, json}
use toot_tok.Media
use toot_tok.Media.{Files, Container, mp4, mov, webm, sniff_container}
use toot_tok.Sanitize.{strip_html_tags}
use toot_tok.Worker.{numeric_setting}
use toot_tok.Uploads.Fields.{Part, Form, read_upload_fields}

-- The statements whose errors are handled.
pub data Statement : Type 0 where
  hash_read sum_read clip_insert sound_write sound_link tags_link probe_enqueue asset_insert :
      Statement

pub record Env : Type 0 where
  pub now : ℕ
  pub has_pool : Bool
  pub fails : Statement → Bool
  -- The errors of the file system, when a file is saved and when it is deleted.
  pub save_io : Option String
  pub delete_io : Option String
  -- The rows of the settings, in the units of F64.
  pub upload_size_cap_mb : Result String (Option (Option ℤ))
  pub per_user_storage_quota_mb : Result String (Option (Option ℤ))
  pub sha256_hex : List ℕ → Text
  pub key_uuid : Text
  pub ap_uuid : Text
  pub path_of : Text → Text
  -- What other requests do to the clips before the clip is inserted.
  pub meanwhile : List Clip → List Clip

pub record World : Type 0 where
  pub clips : List Clip
  pub next_clip : ℕ
  pub assets : List MediaAsset
  pub jobs : List Job
  pub next_job : ℕ
  pub sounds : List Sound
  pub next_sound : ℕ
  pub tags : Tags
  pub files : Files

abbrev natural_units : ℤ → ℕ
natural_units (pos n) = n
natural_units (negsuc n) = 0

-- `(mb * 1024.0 * 1024.0) as` an integer type with the maximum: the cast saturates.
abbrev pub megabytes : ℕ → ℤ → ℕ
megabytes maximum mb = min maximum (natural_units mb * 2 ^ 20 / 2 ^ 1074)

abbrev pub usize_max : ℕ
usize_max = 2 ^ 64 - 1

abbrev pub i64_max : ℕ
i64_max = 2 ^ 63 - 1

abbrev map_ok {ℓ κ} : {A : Type ℓ} {B : Type κ} → (A → B) → Result String A → Result String B
map_ok f (err e) = err e
map_ok f (ok a) = ok (f a)

unfoldable pub upload_size_cap_bytes : Env → Result String ℕ
upload_size_cap_bytes e =
    map_ok (megabytes usize_max) (numeric_setting e.upload_size_cap_mb (pos (500 * 2 ^ 1074)))

abbrev or_zero : Option ℕ → ℕ
or_zero none = 0
or_zero (some n) = n

abbrev pub counts_for : ℕ → Clip → Bool
counts_for actor_id c = c.actor_id == actor_id && (is_none c.deleted_at && not (is_failed c.status))

-- Whether the asset is joined to a clip of the actor that counts.
abbrev pub is_counted : List Clip → ℕ → MediaAsset → Bool
is_counted clips actor_id m = any (λ c. c.id == m.clip_id && counts_for actor_id c) clips

-- COALESCE(SUM(size_bytes), 0): sizes that are NULL add nothing.
unfoldable pub used_bytes : List Clip → ℕ → List MediaAsset → ℕ
used_bytes clips actor_id [] = 0
used_bytes clips actor_id (m ∷ ms) =
    (if is_counted clips actor_id m then or_zero m.size_bytes else 0) + used_bytes clips actor_id ms

abbrev is_unlimited : ℤ → Bool
is_unlimited mb = natural_units mb == 0

abbrev pub quota_exceeded : Response
quota_exceeded = problem 413 "storage_quota_exceeded"

quota_for : Env → World → ℕ → ℕ → Result String ℤ → Option Response
quota_for e w actor_id size (err x) = some database_error
quota_for e w actor_id size (ok mb) =
    if is_unlimited mb
    then none
    else if e.fails sum_read
    then some database_error
    else if ltb (megabytes i64_max mb) (min i64_max (used_bytes w.clips actor_id w.assets + size))
    then some quota_exceeded
    else none

-- The problem, if there is one. The current upload counts.
unfoldable pub check_storage_quota : Env → World → ℕ → ℕ → Option Response
unfolding quota_for
check_storage_quota e w actor_id size =
    quota_for e w actor_id size (numeric_setting e.per_user_storage_quota_mb (pos 0))

abbrev pub ext : Container → Text
ext mp4 = codes "mp4"
ext mov = codes "mov"
ext webm = codes "webm"

abbrev pub mime : Container → Text
mime mp4 = codes "video/mp4"
mime mov = codes "video/quicktime"
mime webm = codes "video/webm"

abbrev pub file_key : Env → Container → Text
file_key e container = codes "original/" ++ (e.key_uuid ++ b'.' ∷ ext container)

-- The store's deletion, whose error is dropped.
abbrev without_file : Env → World → Text → World
without_file e w key = record w {
  files = elim (Media.delete e.delete_io w.files key) [ ok files ↦ files | err x ↦ w.files ];
}

-- The file is deleted and the clip failed when a later statement fails.
abbrev give_up : Env → World → Text → ℕ → World × Response
give_up e w key clip_id =
    (record (without_file e w key) { clips = Clips.mark_failed w.clips clip_id }, database_error)

abbrev pub original : Text → ℕ → Container → ℕ → MediaAsset
original key clip_id container size = record {
  clip_id = clip_id;
  kind = codes "video_mp4";
  rendition = codes "orig";
  path = key;
  mime = mime container;
  size_bytes = some size;
  codec = none;
  ready_at = none;
}

abbrev pub accepted_body : ℕ → Value
accepted_body clip_id =
    json
      ((codes "clip_id", integer (pos clip_id)) ∷ (codes "status", string (codes "pending")) ∷ [])

-- The asset's row may fail.
finish_upload : Env → World → Text → Container → ℕ → ℕ → World × Response
finish_upload e w key container size clip_id = (
  record w {
    assets =
        if e.fails asset_insert
        then w.assets
        else Assets.create w.assets (original key clip_id container size);
  },
  reply 201 (some (accepted_body clip_id)) none,
)

abbrev pub probe_payload : Env → Text → Container → ℕ → Value
probe_payload e key container clip_id = json (
    (codes "clip_id", integer (pos clip_id))
    ∷ (codes "path", string (e.path_of key))
    ∷ (codes "key", string key)
    ∷ (codes "mime", string (mime container))
    ∷ [])

enqueue_probe : Env → World → Text → Container → ℕ → ℕ → World × Response
unfolding finish_upload
enqueue_probe e w key container size clip_id =
    if e.fails probe_enqueue
    then give_up e w key clip_id
    else finish_upload e
        (record w {
          jobs =
              Jobs.create w.jobs w.next_job (codes "probe") (probe_payload e key container clip_id)
                e.now;
          next_job = suc w.next_job;
        })
        key container size clip_id

link_tags : Env → World → Text → Container → ℕ → ℕ → Option Text → World × Response
unfolding enqueue_probe
link_tags e w key container size clip_id none = enqueue_probe e w key container size clip_id
link_tags e w key container size clip_id (some caption) =
    if e.fails tags_link
    then give_up e w key clip_id
    else enqueue_probe e (record w { tags = link_hashtags_to_clip w.tags clip_id caption }) key
        container size clip_id

-- The title without markup. A track without a title is the uploader's original sound.
unfoldable pub sound_title_of : Option Text → Bool → Text → Option Text
sound_title_of (some raw) has_audio username = non_empty (some (trim (strip_html_tags raw)))
sound_title_of none has_audio username =
    if has_audio then some (codes "original sound — @" ++ username) else none

add_sound :
    Env → World → Text → Container → ℕ → ℕ → Option Text → ℕ → Option Text → World × Response
unfolding link_tags
add_sound e w key container size clip_id caption actor_id none =
    link_tags e w key container size clip_id caption
add_sound e w key container size clip_id caption actor_id (some title) =
    let made = get_or_create w.sounds w.next_sound title actor_id in
    let named = record w { sounds = made.0; next_sound = suc w.next_sound } in
    if e.fails sound_write
    then give_up e w key clip_id
    else if e.fails sound_link
    then give_up e named key clip_id
    else link_tags e (record named { clips = Clips.set_sound w.clips clip_id made.1 }) key container
        size clip_id caption

-- `none` is a violation of a unique index: of the ids, or of the hashes of active clips.
unfoldable pub insert_clip :
    List Clip → ℕ → ℕ → ℕ → Text → Text → ℕ → Option Text → Option (List Clip)
insert_clip clips now fresh actor_id ap_id hash size caption =
    if any (λ c. is_active_hash hash c || Clips.has_ap_id ap_id c) clips
    then none
    else some (Clips.create_pending_upload clips now fresh actor_id ap_id hash size caption)

abbrev pub caption_of : Form → Option Text
caption_of f = elim f.caption [ none ↦ none | some raw ↦ non_empty (some (strip_html_tags raw)) ]

inserted : Env → World → AuthUser → Form → Container → ℕ → Option (List Clip) → World × Response
unfolding add_sound
inserted e w auth f container size none =
    (without_file e w (file_key e container), problem 409 "duplicate upload")
inserted e w auth f container size (some clips) =
    add_sound e (record w { clips = clips; next_clip = suc w.next_clip }) (file_key e container)
      container size w.next_clip (caption_of f) auth.actor.id
      (sound_title_of f.sound_title f.has_audio auth.actor.username)

insert_upload : Env → World → AuthUser → Form → Container → List ℕ → World × Response
unfolding inserted
insert_upload e w auth f container bytes =
    if e.fails clip_insert
    then (without_file e w (file_key e container), database_error)
    else inserted e w auth f container (length bytes) (
        insert_clip w.clips e.now w.next_clip auth.actor.id
          (codes "https://toottok.local/clips/" ++ e.ap_uuid) (e.sha256_hex bytes) (length bytes)
          (caption_of f))

stored_upload :
    Env → World → AuthUser → Form → Container → List ℕ → Result String Files → World × Response
unfolding insert_upload
stored_upload e w auth f container bytes (err x) = (w, problem 500 "storage error")
stored_upload e w auth f container bytes (ok files) =
    insert_upload e (record w { files = files; clips = e.meanwhile w.clips }) auth f container bytes

within_quota :
    Env → World → AuthUser → Form → Container → List ℕ → Option Response → World × Response
unfolding stored_upload
within_quota e w auth f container bytes (some r) = (w, r)
within_quota e w auth f container bytes none =
    stored_upload e w auth f container bytes
      (Media.save_bytes e.save_io w.files (file_key e container) bytes)

new_upload : Env → World → AuthUser → Form → Container → List ℕ → Option Clip → World × Response
unfolding within_quota
new_upload e w auth f container bytes (some c) = (w, problem 409 "duplicate upload")
new_upload e w auth f container bytes none =
    within_quota e w auth f container bytes (check_storage_quota e w auth.actor.id (length bytes))

contained : Env → World → AuthUser → Form → List ℕ → Option Container → World × Response
unfolding new_upload
contained e w auth f bytes none = (w, problem 415 "unsupported container")
contained e w auth f bytes (some container) =
    if e.fails hash_read
    then (w, database_error)
    else new_upload e w auth f container bytes (Clips.fetch_by_sha256 w.clips (e.sha256_hex bytes))

upload_file : Env → World → AuthUser → Form → Option (List ℕ) → World × Response
unfolding contained
upload_file e w auth f none = (w, problem 400 "missing file")
upload_file e w auth f (some []) = (w, problem 400 "empty file")
upload_file e w auth f (some (b ∷ bytes)) =
    contained e w auth f (b ∷ bytes) (sniff_container (b ∷ bytes))

upload_form : Env → World → AuthUser → Result Response Form → World × Response
unfolding upload_file
upload_form e w auth (err r) = (w, r)
upload_form e w auth (ok f) = upload_file e w auth f f.file

upload_capped : Env → World → AuthUser → List (Option Part) → Result String ℕ → World × Response
unfolding upload_form
upload_capped e w auth parts (err x) = (w, database_error)
upload_capped e w auth parts (ok size_cap) =
    upload_form e w auth (read_upload_fields size_cap parts)

unfoldable pub upload : Env → World → AuthUser → List (Option Part) → World × Response
unfolding upload_capped
upload e w auth parts =
    if e.has_pool then upload_capped e w auth parts (upload_size_cap_bytes e) else (w, unavailable)
