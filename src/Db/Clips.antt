-- ===== src/Db/Clips.antt =====
-- The `clips` table (crates/db/src/clip.rs). Counters, posters and the duration, which is a
-- floating-point number, are left out.
use toot_tok.Common.{
  ℕ, Bool, true, false, ◌&&◌, not, Option, none, some, is_none, List, [], ◌∷◌, ◌++◌, find, any,
  ◌==◌, if◌then◌else◌,
}
use toot_tok.Common.Table.{update_where}
use toot_tok.Common.Text.{Text, text_eq}
use toot_tok.Json.{ℤ}

pub data Origin : Type 0 where
  local remote : Origin

pub data Status : Type 0 where
  pending processing ready failed deleted : Status

abbrev pub is_failed : Status → Bool
is_failed failed = true
is_failed _ = false

pub record Clip : Type 0 where
  pub id : ℕ
  pub actor_id : ℕ
  pub ap_id : Text
  pub origin : Origin
  pub caption_html : Option Text
  pub status : Status
  pub sha256_hash : Option Text
  pub width : Option ℤ
  pub height : Option ℤ
  pub size_bytes : Option ℕ
  pub remote_media_url : Option Text
  pub is_sensitive : Bool
  pub cw_text : Option Text
  pub published_at : Option ℕ
  pub deleted_at : Option ℕ
  pub created_at : ℕ
  pub sound_id : Option ℕ

abbrev pub has_id : ℕ → Clip → Bool
has_id id c = c.id == id

abbrev pub has_ap_id : Text → Clip → Bool
has_ap_id ap_id c = text_eq c.ap_id ap_id

unfoldable pub fetch_by_id : List Clip → ℕ → Option Clip
fetch_by_id clips id = find (has_id id) clips

unfoldable pub fetch_by_ap_id : List Clip → Text → Option Clip
fetch_by_ap_id clips ap_id = find (has_ap_id ap_id) clips

abbrev same_hash : Text → Option Text → Bool
same_hash hash none = false
same_hash hash (some h) = text_eq h hash

abbrev pub is_active_hash : Text → Clip → Bool
is_active_hash hash c =
    same_hash hash c.sha256_hash && (is_none c.deleted_at && not (is_failed c.status))

-- The live clip that is stored with a hash. Rows stand in the order of their ids.
unfoldable pub fetch_by_sha256 : List Clip → Text → Option Clip
fetch_by_sha256 clips hash = find (is_active_hash hash) clips

unfoldable pub set_ap_id : List Clip → ℕ → Text → List Clip
set_ap_id clips id ap_id = update_where (has_id id) (λ c. record c { ap_id = ap_id }) clips

abbrev pub deleted_row : ℕ → Clip → Clip
deleted_row now c = record c { deleted_at = some now; status = deleted }

unfoldable pub mark_deleted : List Clip → ℕ → ℕ → List Clip
mark_deleted clips now id = update_where (has_id id) (deleted_row now) clips

unfoldable pub create_pending_upload :
    List Clip → ℕ → ℕ → ℕ → Text → Text → ℕ → Option Text → List Clip
create_pending_upload clips now fresh actor_id ap_id sha256_hash size_bytes caption =
    clips
    ++ record {
      id = fresh;
      actor_id = actor_id;
      ap_id = ap_id;
      origin = local;
      caption_html = caption;
      status = pending;
      sha256_hash = some sha256_hash;
      width = none;
      height = none;
      size_bytes = some size_bytes;
      remote_media_url = none;
      is_sensitive = false;
      cw_text = none;
      published_at = none;
      deleted_at = none;
      created_at = now;
      sound_id = none;
    }
      ∷ []

unfoldable pub update_probe_info : List Clip → ℕ → Option ℤ → Option ℤ → List Clip
update_probe_info clips id width height =
    update_where (has_id id) (λ c. record c { status = processing; width = width; height = height })
      clips

unfoldable pub mark_failed : List Clip → ℕ → List Clip
mark_failed clips id = update_where (has_id id) (λ c. record c { status = failed }) clips

unfoldable pub set_sound : List Clip → ℕ → ℕ → List Clip
set_sound clips id sound_id =
    update_where (has_id id) (λ c. record c { sound_id = some sound_id }) clips

abbrev pub or_now : Option ℕ → ℕ → Option ℕ
or_now none now = some now
or_now (some t) now = some t

-- COALESCE(published_at, now()).
unfoldable pub mark_ready : List Clip → ℕ → ℕ → List Clip
mark_ready clips now id =
    update_where (has_id id)
      (λ c. record c { status = ready; published_at = or_now c.published_at now }) clips

-- What `create_remote` binds.
pub record RemoteClip : Type 0 where
  pub actor_id : ℕ
  pub ap_id : Text
  pub caption_html : Option Text
  pub width : Option ℤ
  pub height : Option ℤ
  pub remote_media_url : Text
  pub is_sensitive : Bool
  pub cw_text : Option Text
  pub published_at : Option ℕ

abbrev pub remote_row : ℕ → ℕ → RemoteClip → Clip
remote_row now fresh r = record {
  id = fresh;
  actor_id = r.actor_id;
  ap_id = r.ap_id;
  origin = remote;
  caption_html = r.caption_html;
  status = ready;
  sha256_hash = none;
  width = r.width;
  height = r.height;
  size_bytes = none;
  remote_media_url = some r.remote_media_url;
  is_sensitive = r.is_sensitive;
  cw_text = r.cw_text;
  published_at = r.published_at;
  deleted_at = none;
  created_at = now;
  sound_id = none;
}

-- `none` is a violation of UNIQUE (ap_id).
unfoldable pub create_remote : List Clip → ℕ → ℕ → RemoteClip → Option (List Clip)
create_remote clips now fresh r =
    if any (has_ap_id r.ap_id) clips then none else some (clips ++ remote_row now fresh r ∷ [])

abbrev pub noted : Option Text → Bool → Option Text → Clip → Clip
noted caption sensitive cw c = record c {
  caption_html = caption;
  is_sensitive = sensitive;
  cw_text = cw;
}

unfoldable pub update_note_fields : List Clip → ℕ → Option Text → Bool → Option Text → List Clip
update_note_fields clips id caption sensitive cw =
    update_where (has_id id) (noted caption sensitive cw) clips
