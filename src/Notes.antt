-- ===== src/Notes.antt =====
-- ActivityPub notes (crates/federation/src/note.rs): the validation of a remote note, and the JSON
-- of a local clip. The RFC 3339 reader and writer are parameters; durations, which are
-- floating-point numbers, are left out.
pub mod RoundTrip
use toot_tok.Common.{
  ℕ, Bool, true, false, ◌&&◌, ◌||◌, if◌then◌else◌, Option, none, some, List, [], ◌∷◌, ◌++◌, String,
}
use toot_tok.Common.Result.{Result, ok, err, ◌>>=◌, ◌>>◌, ensure, or_err}
use toot_tok.Common.Text.{Text, codes, text_eq}
use toot_tok.Assets.Decimal.{print_u64}
use toot_tok.Db.Actors.{Actor}
use toot_tok.Db.Clips.{Clip}
use toot_tok.Json.{
  Value, string, boolean, integer, array, object, Items, nil, cons, Fields, ℤ, fits_signed, get,
  and_then, as_str, as_bool, as_i64, str_field, non_empty, json, object_of, items_of,
}

pub record ParsedAttachment : Type 0 where
  pub media_url : Text
  pub width : Option ℤ
  pub height : Option ℤ

pub record ParsedNote : Type 0 where
  pub id : Text
  pub attributed_to : Text
  pub content_html : Option Text
  pub sensitive : Bool
  pub summary : Option Text
  pub published : Option ℕ
  pub attachment : ParsedAttachment

pub data NoteError : Type 0 where
  not_a_note no_id no_attributed_to no_mp4_attachment : NoteError

abbrev pub is_text : Option Text → String → Bool
is_text none t = false
is_text (some s) t = text_eq s (codes t)

abbrev pub or_empty : Option Text → Text
or_empty none = []
or_empty (some s) = s

abbrev pub or_false : Option Bool → Bool
or_false none = false
or_false (some b) = b

first_item : Items → Option Text
first_item nil = none
first_item (cons (string s) vs) = some s
first_item (cons v vs) = first_item vs

unfoldable pub first_string : Value → Option Text
unfolding first_item
first_string (string s) = some s
first_string (array vs) = first_item vs
first_string v = none

abbrev pub as_i32 : ℤ → Option ℤ
as_i32 z = if fits_signed 31 z then some z else none

unfoldable pub int_field : Value → String → Option ℤ
int_field entry key = and_then (and_then (get entry (codes key)) as_i64) as_i32

abbrev attachment_at : Value → Option Text → Option ParsedAttachment
attachment_at entry none = none
attachment_at entry (some url) =
    some (record {
      media_url = url;
      width = int_field entry "width";
      height = int_field entry "height";
    })

-- One entry of the loop: `none` is `continue`.
unfoldable pub mp4_entry : Value → Option ParsedAttachment
mp4_entry entry =
    let kind = str_field entry "type" in
    if (is_text kind "Document" || is_text kind "Video")
      && is_text (str_field entry "mediaType") "video/mp4"
    then attachment_at entry (non_empty (str_field entry "url"))
    else none

unfoldable pub first_mp4 : Items → Option ParsedAttachment
first_mp4 nil = none
first_mp4 (cons v vs) = elim (mp4_entry v) [ some a ↦ some a | none ↦ first_mp4 vs ]

unfoldable pub find_mp4_attachment : Value → Option ParsedAttachment
find_mp4_attachment (array vs) = first_mp4 vs
find_mp4_attachment (object fs) = mp4_entry (object fs)
find_mp4_attachment v = none

unfoldable pub parse_inbound_note : (Text → Option ℕ) → Value → Result NoteError ParsedNote
parse_inbound_note parse_time v = do
  ensure not_a_note (is_text (str_field v "type") "Note")
  id ← or_err no_id (non_empty (str_field v "id"))
  attributed_to ← or_err no_attributed_to (and_then (get v (codes "attributedTo")) first_string)
  attachment ← or_err no_mp4_attachment (and_then (get v (codes "attachment")) find_mp4_attachment)
  ok (record {
    id = id;
    attributed_to = attributed_to;
    content_html = str_field v "content";
    sensitive = or_false (and_then (get v (codes "sensitive")) as_bool);
    summary = str_field v "summary";
    published = and_then (str_field v "published") parse_time;
    attachment = attachment;
  })

pub record NoteFields : Type 0 where
  pub content_html : Option Text
  pub sensitive : Bool
  pub summary : Option Text

unfoldable pub extract_note_fields : Value → NoteFields
extract_note_fields v = record {
  content_html = str_field v "content";
  sensitive = or_false (and_then (get v (codes "sensitive")) as_bool);
  summary = str_field v "summary";
}

unfoldable pub clip_object_id : Text → ℕ → Text
clip_object_id base_url clip_id = base_url ++ (codes "/clips/" ++ print_u64 clip_id)

abbrev or_default : Option Text → Text
or_default none = codes "720.mp4"
or_default (some s) = s

abbrev pub attachment_url : Text → Clip → Option Text → Text
attachment_url base_url clip filename =
    base_url ++ (codes "/assets/" ++ (print_u64 clip.id ++ b'/' ∷ or_default filename))

abbrev pub with_int : String → Option ℤ → List (Text × Value) → List (Text × Value)
with_int key none fs = fs
with_int key (some z) fs = fs ++ (codes key, integer z) ∷ []

abbrev pub with_text : String → Option Text → List (Text × Value) → List (Text × Value)
with_text key none fs = fs
with_text key (some s) fs = fs ++ (codes key, string s) ∷ []

unfoldable pub attachment_json : Text → Clip → Option Text → Value
attachment_json base_url clip filename = json (
    with_int "height" clip.height (
      with_int "width" clip.width (
        (codes "type", string (codes "Document"))
        ∷ (codes "mediaType", string (codes "video/mp4"))
        ∷ (codes "url", string (attachment_url base_url clip filename))
        ∷ [])))

abbrev or_time : Option ℕ → ℕ → ℕ
or_time none t = t
or_time (some s) t = s

abbrev pub publication : Clip → ℕ
publication clip = or_time clip.published_at clip.created_at

unfoldable pub clip_note_json : (ℕ → Text) → Text → Clip → Actor → Option Text → Value
clip_note_json format_time base_url clip author filename = json (
    with_text "summary" clip.cw_text (
      (codes "id", string clip.ap_id)
      ∷ (codes "type", string (codes "Note"))
      ∷ (codes "attributedTo", string author.ap_id)
      ∷ (codes "content", string (or_empty clip.caption_html))
      ∷ (codes "published", string (format_time (publication clip)))
      ∷ (codes "url", string clip.ap_id)
      ∷ (codes "sensitive", boolean clip.is_sensitive)
      ∷ (codes "attachment", array (cons (attachment_json base_url clip filename) nil))
      ∷ (codes "tag", array nil)
      ∷ []))

abbrev pub as_public : Text
as_public = codes "https://www.w3.org/ns/activitystreams#Public"

unfoldable pub clip_create_activity : (ℕ → Text) → Text → Clip → Actor → Option Text → Value
clip_create_activity format_time base_url clip author filename = json (
    (codes "@context", string (codes "https://www.w3.org/ns/activitystreams"))
    ∷ (codes "id", string (clip.ap_id ++ codes "/activity"))
    ∷ (codes "type", string (codes "Create"))
    ∷ (codes "actor", string author.ap_id)
    ∷ (codes "published", string (format_time (publication clip)))
    ∷ (codes "to", array (cons (string author.followers_url) nil))
    ∷ (codes "cc", array (cons (string as_public) nil))
    ∷ (codes "object", clip_note_json format_time base_url clip author filename)
    ∷ [])
