-- ===== src/Uploads/Fields.antt =====
-- The fields of an upload's form (crates/server/src/upload.rs, `read_file_field`,
-- `read_upload_fields` and `read_file_chunks`).
pub mod Bounds
use toot_tok.Common.{
  ℕ, ◌+◌, ◌-◌, ◌*◌, ◌^◌, min, Bool, true, false, ◌||◌, ltb, if◌then◌else◌, Option, none, some, List,
  [], ◌∷◌, ◌++◌, length, String,
}
use toot_tok.Common.Result.{Result, ok, err}
use toot_tok.Common.Text.{Text, codes, eq_ignore_case}
use toot_tok.Common.Text.Utf8.{from_utf8}
use toot_tok.Accounts.{Response, problem}
use toot_tok.Json.{non_empty}

-- A chunk of a body, or an error in its place.
abbrev pub Chunk : Type 0
Chunk = Option (List ℕ)

pub record Part : Type 0 where
  pub name : Option Text
  pub chunks : List Chunk

abbrev pub invalid_multipart : Response
invalid_multipart = problem 400 "invalid multipart"

-- The chunks with the buffer so far. The sum of the lengths saturates.
unfoldable pub read_chunks :
    (ℕ → ℕ → ℕ) → Response → ℕ → List ℕ → List Chunk → Result Response (List ℕ)
read_chunks add too_large size_cap buf [] = ok buf
read_chunks add too_large size_cap buf (none ∷ rest) = err invalid_multipart
read_chunks add too_large size_cap buf (some chunk ∷ rest) =
    let more = read_chunks add too_large size_cap (buf ++ chunk) rest in
    if ltb size_cap (add (length buf) (length chunk)) then err too_large else more

abbrev pub saturating_add : ℕ → ℕ → ℕ
saturating_add a b = min (2 ^ 64 - 1) (a + b)

unfoldable pub read_file_chunks : ℕ → Part → Result Response (List ℕ)
read_file_chunks size_cap part =
    read_chunks saturating_add (problem 413 "upload too large") size_cap [] part.chunks

abbrev pub is_named : String → Part → Bool
is_named name part = elim part.name [ none ↦ false | some n ↦ eq_ignore_case n (codes name) ]

abbrev filed : Result Response (List ℕ) → Result Response (Option (List ℕ))
filed (err r) = err r
filed (ok bytes) = ok (some bytes)

-- The first field that is the file. An error in place of a field is `none`.
unfoldable pub read_file_field : ℕ → List (Option Part) → Result Response (Option (List ℕ))
read_file_field size_cap [] = ok none
read_file_field size_cap (none ∷ rest) = err invalid_multipart
read_file_field size_cap (some part ∷ rest) =
    let next = read_file_field size_cap rest in
    if is_named "file" part then filed (read_file_chunks size_cap part) else next

abbrev pub caption_max_bytes : ℕ
caption_max_bytes = 16 * 1024

-- A small text field. Text that is not UTF-8 is as none.
abbrev texted : Result Response (List ℕ) → Result Response (Option Text)
texted (err r) = err r
texted (ok bytes) = ok (non_empty (from_utf8 bytes))

unfoldable pub read_text : String → Part → Result Response (Option Text)
read_text title part =
    texted (read_chunks (λ a b. a + b) (problem 413 title) caption_max_bytes [] part.chunks)

pub record Form : Type 0 where
  pub file : Option (List ℕ)
  pub caption : Option Text
  pub sound_title : Option Text
  pub has_audio : Bool

abbrev with_file : Form → Result Response (List ℕ) → Result Response Form
with_file f (err r) = err r
with_file f (ok bytes) = ok (record f { file = some bytes })

abbrev with_sound : Form → Result Response (Option Text) → Result Response Form
with_sound f (err r) = err r
with_sound f (ok title) = ok (record f { sound_title = title })

abbrev with_caption : Form → Result Response (Option Text) → Result Response Form
with_caption f (err r) = err r
with_caption f (ok caption) = ok (record f { caption = caption })

-- One field. The audio tracks are drained, also when a chunk of theirs cannot be read.
unfoldable pub read_part : ℕ → Form → Part → Result Response Form
read_part size_cap f part =
    if is_named "file" part
    then with_file f (read_file_chunks size_cap part)
    else if is_named "sound_title" part
    then with_sound f (read_text "sound title too large" part)
    else if is_named "music" part || is_named "vo" part
    then ok (record f { has_audio = true })
    else if is_named "caption_html" part
    then with_caption f (read_text "caption too large" part)
    else ok f

-- The fields, after what the ones before gave. Later fields replace earlier ones of the same name.
unfoldable pub read_fields : ℕ → Result Response Form → List (Option Part) → Result Response Form
read_fields size_cap (err r) parts = err r
read_fields size_cap (ok f) [] = ok f
read_fields size_cap (ok f) (none ∷ rest) = err invalid_multipart
read_fields size_cap (ok f) (some part ∷ rest) =
    read_fields size_cap (read_part size_cap f part) rest

abbrev pub no_fields : Form
no_fields = record { file = none; caption = none; sound_title = none; has_audio = false }

unfoldable pub read_upload_fields : ℕ → List (Option Part) → Result Response Form
read_upload_fields size_cap parts = read_fields size_cap (ok no_fields) parts
