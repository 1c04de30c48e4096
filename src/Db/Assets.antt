-- ===== src/Db/Assets.antt =====
-- The `media_assets` table (crates/db/src/media_asset.rs). The language and the bitrate, which the
-- workers leave empty, and the row's own key are left out.
use toot_tok.Common.{
  ℕ, Bool, ◌&&◌, Option, none, some, is_none, is_some, List, [], ◌∷◌, ◌++◌, any, ◌==◌,
  if◌then◌else◌, String,
}
use toot_tok.Common.Table.{update_where, delete_where}
use toot_tok.Common.Text.{Text, codes, text_eq}

pub record MediaAsset : Type 0 where
  pub clip_id : ℕ
  pub kind : Text
  pub rendition : Text
  pub path : Text
  pub mime : Text
  pub size_bytes : Option ℕ
  pub codec : Option Text
  pub ready_at : Option ℕ

abbrev pub of_clip : ℕ → MediaAsset → Bool
of_clip id a = a.clip_id == id

-- Whether the two rows have one key of the unique index.
abbrev pub same_asset : MediaAsset → MediaAsset → Bool
same_asset a b =
    b.clip_id == a.clip_id && (text_eq b.kind a.kind && text_eq b.rendition a.rendition)

-- INSERT … ON CONFLICT DO NOTHING.
unfoldable pub create : List MediaAsset → MediaAsset → List MediaAsset
create assets a = if any (same_asset a) assets then assets else assets ++ a ∷ []

abbrev or_old : {A : Type 0} → Option A → Option A → Option A
or_old none old = old
or_old (some new) old = some new

abbrev replaced : MediaAsset → MediaAsset → MediaAsset
replaced a old = record old {
  path = a.path;
  mime = a.mime;
  size_bytes = or_old a.size_bytes old.size_bytes;
  codec = or_old a.codec old.codec;
}

-- INSERT … ON CONFLICT DO UPDATE.
unfoldable pub upsert : List MediaAsset → MediaAsset → List MediaAsset
upsert assets a =
    if any (same_asset a) assets
    then update_where (same_asset a) (replaced a) assets
    else assets ++ a ∷ []

abbrev pub is_unready : ℕ → MediaAsset → Bool
is_unready id a = of_clip id a && is_none a.ready_at

unfoldable pub mark_ready_for_clip : List MediaAsset → ℕ → ℕ → List MediaAsset
mark_ready_for_clip assets now id =
    update_where (is_unready id) (λ a. record a { ready_at = some now }) assets

unfoldable pub delete_for_clip : List MediaAsset → ℕ → List MediaAsset
delete_for_clip assets id = delete_where (of_clip id) assets

-- Whether the clip has a ready video of the rendition.
abbrev has_video : List MediaAsset → ℕ → String → Bool
has_video assets id rendition =
    any
      (λ a.
        of_clip id a
        && (text_eq a.kind (codes "video_mp4")
            && (is_some a.ready_at && text_eq a.rendition (codes rendition))))
      assets

unfoldable pub largest_video_filename : List MediaAsset → ℕ → Option Text
largest_video_filename assets id =
    if has_video assets id "1080"
    then some (codes "1080.mp4")
    else if has_video assets id "720"
    then some (codes "720.mp4")
    else if has_video assets id "480"
    then some (codes "480.mp4")
    else none
