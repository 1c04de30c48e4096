-- ===== src/Uploads/Fields/Bounds.antt =====
-- How much of a form is kept (crates/server/src/upload.rs, `read_file_chunks`).
use mathlib.Core.Path.{subst}
use toot_tok.Common.{
  ℕ, ◌+◌, ◌-◌, ◌^◌, ◌≤◌, ◌<◌, ◌≡◌, refl, Bool, true, false, ltb, ◌||◌, Option, none, some, List, [],
  ◌∷◌, ◌++◌, length, length-append, arith, if◌then◌else◌, String,
}
use toot_tok.Common.Result.{Result, ok, err}
use toot_tok.Accounts.{Response, problem, reply}
use toot_tok.Uploads.Fields.{
  Part, Form, Chunk, read_chunks, saturating_add, read_file_chunks, read_text, read_part,
  read_fields, read_upload_fields, no_fields, caption_max_bytes, texted, is_named, with_file,
  with_sound, with_caption,
}

-- A refusal, which no success is.
abbrev pub IsProblem : Response → Type 0
IsProblem (problem status title) = Unit
IsProblem (reply status body cookie) = ⊥

-- An error is a problem, and a result has the property.
abbrev pub Gives {ℓ} : {A : Type ℓ} → (A → Type 0) → Result Response A → Type 0
Gives P (err r) = IsProblem r
Gives P (ok a) = P a

one_of_two {ℓ} :
    {A : Type ℓ} (P : A → Type 0) (b : Bool) (x y : Result Response A)
    → (b ≡ true → Gives P x)
    → (b ≡ false → Gives P y)
    → Gives P (if b then x else y)
one_of_two P true x y h k = h refl
one_of_two P false x y h k = k refl

-- Within the limit, when the limit is one that a length can pass.
abbrev pub Fits : ℕ → List ℕ → Type 0
Fits limit bytes = limit < 2 ^ 64 - 1 → length bytes ≤ limit

file-Fits :
    (limit : ℕ) (buf : List ℕ) (chunks : List Chunk)
    → Fits limit buf
    → Gives
        (Fits limit)
        (read_chunks saturating_add (problem 413 "upload too large") limit buf chunks)
unfolding read_chunks
file-Fits limit buf [] h = h
file-Fits limit buf (none ∷ rest) h = tt
file-Fits limit buf (some chunk ∷ rest) h =
    one_of_two (Fits limit) (ltb limit (saturating_add (length buf) (length chunk))) _ _ (λ _. tt)
      (λ x.
        file-Fits limit (buf ++ chunk) rest (λ k. ground (arith, x, k, length-append buf chunk)))

abbrev Anything : List ℕ → Type 0
Anything bytes = Unit

text-Gives :
    (title : String) (buf : List ℕ) (chunks : List Chunk)
    → Gives Anything (read_chunks (λ a b. a + b) (problem 413 title) caption_max_bytes buf chunks)
unfolding read_chunks
text-Gives title buf [] = tt
text-Gives title buf (none ∷ rest) = tt
text-Gives title buf (some chunk ∷ rest) =
    one_of_two Anything (ltb caption_max_bytes (length buf + length chunk)) _ _ (λ _. tt)
      (λ x. text-Gives title (buf ++ chunk) rest)

-- The file of the form is within the limit.
abbrev pub IsWithin : ℕ → Form → Type 0
IsWithin limit f = (bytes : List ℕ) → f.file ≡ some bytes → Fits limit bytes

with_file-IsWithin :
    (limit : ℕ) (f : Form) (r : Result Response (List ℕ))
    → Gives (Fits limit) r
    → Gives (IsWithin limit) (with_file f r)
with_file-IsWithin limit f (err r) h = h
with_file-IsWithin limit f (ok bytes) h =
    λ b k. let same : bytes ≡ b = cc k in subst (Fits limit) same h

with_sound-IsWithin :
    (limit : ℕ) (f : Form) (r : Result Response (List ℕ))
    → Gives Anything r
    → IsWithin limit f
    → Gives (IsWithin limit) (with_sound f (texted r))
with_sound-IsWithin limit f (err r) h k = h
with_sound-IsWithin limit f (ok bytes) h k = k

with_caption-IsWithin :
    (limit : ℕ) (f : Form) (r : Result Response (List ℕ))
    → Gives Anything r
    → IsWithin limit f
    → Gives (IsWithin limit) (with_caption f (texted r))
with_caption-IsWithin limit f (err r) h k = h
with_caption-IsWithin limit f (ok bytes) h k = k

part-IsWithin :
    (limit : ℕ) (f : Form) (part : Part)
    → IsWithin limit f
    → Gives (IsWithin limit) (read_part limit f part)
unfolding read_part read_file_chunks read_text
part-IsWithin limit f part h =
    let P = IsWithin limit in
    one_of_two P (is_named "file" part) _ _
      (λ _. with_file-IsWithin limit f _ (file-Fits limit [] part.chunks (λ k. omega arith)))
      (λ _.
        one_of_two P (is_named "sound_title" part) _ _
          (λ _. with_sound-IsWithin limit f _ (text-Gives _ [] part.chunks) h)
          (λ _.
            one_of_two P (is_named "music" part || is_named "vo" part) _ _ (λ _. h)
              (λ _.
                one_of_two P (is_named "caption_html" part) _ _
                  (λ _. with_caption-IsWithin limit f _ (text-Gives _ [] part.chunks) h) (λ _. h))))

fields-IsWithin :
    (limit : ℕ) (r : Result Response Form) (parts : List (Option Part))
    → Gives (IsWithin limit) r
    → Gives (IsWithin limit) (read_fields limit r parts)
unfolding read_fields
fields-IsWithin limit (err r) parts h = h
fields-IsWithin limit (ok f) [] h = h
fields-IsWithin limit (ok f) (none ∷ rest) h = tt
fields-IsWithin limit (ok f) (some part ∷ rest) h =
    fields-IsWithin limit (read_part limit f part) rest (part-IsWithin limit f part h)

-- Reading a form gives a problem, or a form whose file, however its chunks are cut, is within the
-- limit, when a length can pass the limit at all.
pub read_upload_fields-IsWithin :
    (limit : ℕ) (parts : List (Option Part))
    → Gives (IsWithin limit) (read_upload_fields limit parts)
unfolding read_upload_fields
read_upload_fields-IsWithin limit parts =
    fields-IsWithin limit (ok no_fields) parts (λ b k. absurd (cc k))
