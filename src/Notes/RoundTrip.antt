-- ===== src/Notes/RoundTrip.antt =====
-- What another server of this kind reads of a clip that this one publishes.
use toot_tok.Common.{ℕ, ◌≡◌, ◌≢◌, refl, ◌∙◌, ap, true, Option, none, some, [], ◌∷◌, ◌++◌, arith}
use toot_tok.Common.Result.{ok, or_err}
use toot_tok.Common.Text.{Text, text_eq}
use toot_tok.Db.Actors.{Actor}
use toot_tok.Db.Clips.{Clip}
use toot_tok.Json.{get, get_field, ℤ, fits_signed, non_empty, pos, negsuc}
use toot_tok.Notes.{
  ParsedAttachment, ParsedNote, parse_inbound_note, clip_note_json, attachment_json, attachment_url,
  publication, or_empty, find_mp4_attachment, first_mp4, mp4_entry, int_field, first_string,
}

-- An absent number, or one that fits an `i32`.
abbrev pub IsInt : Option ℤ → Type 0
IsInt none = Unit
IsInt (some z) = fits_signed 31 z ≡ true

-- Whatever fits an `i32` fits an `i64`.
fits_wider : (z : ℤ) → fits_signed 31 z ≡ true → fits_signed 63 z ≡ true
fits_wider (pos n) h = ground (arith, h)
fits_wider (negsuc n) h = ground (arith, h)

url_non_empty : (s t : Text) (c : ℕ) → non_empty (some (s ++ c ∷ t)) ≡ some (s ++ c ∷ t)
url_non_empty [] t c = refl
url_non_empty (d ∷ s) t c = refl

abbrev read_attachment : Text → Clip → Option Text → ParsedAttachment
read_attachment base_url clip filename = record {
  media_url = attachment_url base_url clip filename;
  width = clip.width;
  height = clip.height;
}

mp4_of_clip :
    (base_url : Text) (clip : Clip) (filename : Option Text) (w h : Option ℤ)
    → clip.width ≡ w
    → clip.height ≡ h
    → IsInt w
    → IsInt h
    → mp4_entry (attachment_json base_url clip filename)
      ≡ some (read_attachment base_url clip filename)
unfolding mp4_entry attachment_json get get_field text_eq int_field
mp4_of_clip base_url clip filename none none ew eh fw fh =
    rw (ew, eh, url_non_empty base_url _ b'/') refl
mp4_of_clip base_url clip filename none (some h) ew eh fw fh =
    rw (ew, eh, url_non_empty base_url _ b'/', fits_wider h fh, fh) refl
mp4_of_clip base_url clip filename (some w) none ew eh fw fh =
    rw (ew, eh, url_non_empty base_url _ b'/', fits_wider w fw, fw) refl
mp4_of_clip base_url clip filename (some w) (some h) ew eh fw fh =
    rw (ew, eh, url_non_empty base_url _ b'/', fits_wider w fw, fw, fits_wider h fh, fh) refl

abbrev read_note : (Text → Option ℕ) → (ℕ → Text) → Text → Clip → Actor → Option Text → ParsedNote
read_note parse_time format_time base_url clip author filename = record {
  id = clip.ap_id;
  attributed_to = author.ap_id;
  content_html = some (or_empty clip.caption_html);
  sensitive = clip.is_sensitive;
  summary = clip.cw_text;
  published = parse_time (format_time (publication clip));
  attachment = read_attachment base_url clip filename;
}

note_of_clip :
    (parse_time : Text → Option ℕ) (format_time : ℕ → Text) (base_url : Text) (clip : Clip)
    (author : Actor) (filename : Option Text) (cw : Option Text)
    → clip.cw_text ≡ cw
    → non_empty (some clip.ap_id) ≡ some clip.ap_id
    → mp4_entry (attachment_json base_url clip filename)
      ≡ some (read_attachment base_url clip filename)
    → parse_inbound_note parse_time (clip_note_json format_time base_url clip author filename)
      ≡ ok (read_note parse_time format_time base_url clip author filename)
unfolding parse_inbound_note clip_note_json get get_field text_eq find_mp4_attachment first_mp4
    first_string
note_of_clip parse_time format_time base_url clip author filename none e n m =
    simp (e, n) (rw (m, or_err) refl)
note_of_clip parse_time format_time base_url clip author filename (some cw) e n m =
    simp (e, n) (rw (m, or_err) refl)

-- The note of a clip that has an ActivityPub id, and dimensions that fit an `i32` if any, parses: as
-- the clip's id, its author, its caption (an absent one is read as empty), its warning and
-- sensitivity, its date and the first rendition. Dates are read back as they are written.
pub parse-clip_note_json :
    (parse_time : Text → Option ℕ) (format_time : ℕ → Text)
    → ((t : ℕ) → parse_time (format_time t) ≡ some t)
    → (base_url : Text) (clip : Clip) (author : Actor) (filename : Option Text) → clip.ap_id ≢ []
    → IsInt clip.width
    → IsInt clip.height
    → parse_inbound_note parse_time (clip_note_json format_time base_url clip author filename)
      ≡ ok (record {
        id = clip.ap_id;
        attributed_to = author.ap_id;
        content_html = some (or_empty clip.caption_html);
        sensitive = clip.is_sensitive;
        summary = clip.cw_text;
        published = some (publication clip);
        attachment = record {
          media_url = attachment_url base_url clip filename;
          width = clip.width;
          height = clip.height;
        };
      })
parse-clip_note_json parse_time format_time dates base_url clip author filename named w h =
    note_of_clip parse_time format_time base_url clip author filename clip.cw_text refl
      (kept clip.ap_id named)
      (mp4_of_clip base_url clip filename clip.width clip.height refl refl w h)
    ∙ ap
        (λ d. ok (record (read_note parse_time format_time base_url clip author filename) {
          published = d;
        }))
        (dates (publication clip))
  where
    kept : (s : Text) → s ≢ [] → non_empty (some s) ≡ some s
    kept [] n = absurd (n refl)
    kept (c ∷ s) n = refl
