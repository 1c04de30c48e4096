-- ===== src/Db/Hashtags.antt =====
-- Hashtags of a caption (crates/db/src/hashtag.rs): the scan, and the links of a clip. The scan is
-- on fuel; Hashtags/Scan shows that the fuel given is enough.
pub mod Scan
use toot_tok.Common.{
  ℕ, zero, suc, Bool, true, false, ◌&&◌, ◌||◌, not, leb, ltb, ◌==◌, if◌then◌else◌, Option, none,
  some, List, [], ◌∷◌, ◌++◌, find, any, map, length,
}
use toot_tok.Common.Text.{Text, text_eq, to_lower, is_digit}

abbrev pub max_hashtags : ℕ
max_hashtags = 10

-- `is_ascii_alphanumeric`, or `_`.
abbrev pub is_tag_char : ℕ → Bool
is_tag_char c = leb b'a' c && leb c b'z' || (leb b'A' c && leb c b'Z' || (is_digit c || c == b'_'))

-- The run of tag characters at the front, and what follows it.
unfoldable pub tag_run : Text → Text × Text
tag_run [] = ([], [])
tag_run (c ∷ s) =
    let rest = tag_run s in if is_tag_char c then (c ∷ rest.0, rest.1) else ([], c ∷ s)

abbrev pub is_empty : Text → Bool
is_empty [] = true
is_empty (c ∷ s) = false

-- A tag that is there is not added again.
abbrev pub with_tag : List Text → Text → List Text
with_tag tags run =
    if is_empty run || any (text_eq (map to_lower run)) tags
    then tags
    else tags ++ map to_lower run ∷ []

-- The loop over the caption, with the tags found so far. `none` is fuel that has run out.
unfoldable pub scan : ℕ → List Text → Text → Option (List Text)
scan zero tags s = none
scan (suc fuel) tags [] = some tags
scan (suc fuel) tags (c ∷ s) =
    let run = tag_run s in
    let at_tag = scan fuel (with_tag tags run.0) run.1 in
    let past = scan fuel tags s in
    if ltb (length tags) max_hashtags then (if c == b'#' then at_tag else past) else some tags

abbrev or_empty : Option (List Text) → List Text
or_empty none = []
or_empty (some tags) = tags

unfoldable pub extract_hashtags : Text → List Text
extract_hashtags caption = or_empty (scan (suc (length caption)) [] caption)

pub record Hashtag : Type 0 where
  pub id : ℕ
  pub tag : Text

pub record Tags : Type 0 where
  pub hashtags : List Hashtag
  pub next_hashtag : ℕ
  -- The pairs of a clip and a tag.
  pub clip_hashtags : List (ℕ × ℕ)

abbrev pub is_tag : Text → Hashtag → Bool
is_tag tag h = text_eq h.tag tag

abbrev pub is_link : ℕ → ℕ → ℕ × ℕ → Bool
is_link clip_id hashtag_id l = l.0 == clip_id && l.1 == hashtag_id

abbrev linked : Tags → ℕ → ℕ → Tags
linked t clip_id id = record t {
  clip_hashtags =
      if any (is_link clip_id id) t.clip_hashtags
      then t.clip_hashtags
      else t.clip_hashtags ++ (clip_id, id) ∷ [];
}

abbrev link_found : Tags → ℕ → Text → Option Hashtag → Tags
link_found t clip_id tag (some h) = linked t clip_id h.id
link_found t clip_id tag none =
    linked
      (record t {
        hashtags = t.hashtags ++ record { id = t.next_hashtag; tag = tag } ∷ [];
        next_hashtag = suc t.next_hashtag;
      })
      clip_id t.next_hashtag

-- The row of the tag is made when there is none, and the clip is linked to it once.
unfoldable pub link_tag : Tags → ℕ → Text → Tags
link_tag t clip_id tag = link_found t clip_id tag (find (is_tag tag) t.hashtags)

unfoldable pub link_all : Tags → ℕ → List Text → Tags
link_all t clip_id [] = t
link_all t clip_id (tag ∷ tags) = link_all (link_tag t clip_id tag) clip_id tags

-- One transaction: a statement that fails leaves the tables as they were.
unfoldable pub link_hashtags_to_clip : Tags → ℕ → Text → Tags
link_hashtags_to_clip t clip_id caption = link_all t clip_id (extract_hashtags caption)
