-- ===== src/Assets/Serving/Bytes.antt =====
-- Which bytes of the file an answer carries (crates/server/src/assets.rs).
use toot_tok.Common.{
  ℕ, zero, suc, ◌+◌, ◌-◌, ◌≤◌, ◌<◌, ◌≡◌, refl, sym, ◌∙◌, ap, Option, none, some, List, [], ◌∷◌,
  ◌++◌, take, drop, length, length-take, length-drop, arith, Bool-cases, inl, inr,
}
use toot_tok.Common.Text.{Text}
use toot_tok.Assets.{RangeSpec, partial, full, parse_byte_range}
use toot_tok.Assets.Ranges.{Fits, parse_byte_range-Fits}
use toot_tok.Assets.Serving.{
  Status, partial_content, ContentRange, Served, Response, served, problem, Query, World, whole,
  part, respond_spec, respond, asset, respond_query, respond_stored, respond_file, failed, missing,
  found, or_extension, header_text,
}

module _ {A : Type 0} where
  take-all : (xs : List A) → take (length xs) xs ≡ xs
  take-all [] = refl
  take-all (x ∷ xs) = rw (take-all xs)

  take-append-drop : (n : ℕ) (xs : List A) → take n xs ++ drop n xs ≡ xs
  take-append-drop zero xs = refl
  take-append-drop (suc n) [] = refl
  take-append-drop (suc n) (x ∷ xs) = rw (take-append-drop n xs)

-- The bytes from `start` to `end`, which lie in the file.
abbrev pub IsPart : List ℕ → List ℕ → ℕ → ℕ → Type 0
IsPart file body start end =
    (before : List ℕ) × (after : List ℕ) × (before ++ (body ++ after) ≡ file)
    × (length before ≡ start)
    × (start + length body ≡ end + 1)
    × (end < length file)

-- An answer of status 200 carries the whole file. An answer of status 206 carries the part of it
-- that its `Content-Range` names. Both state the length of what they carry.
abbrev CarriesBy : List ℕ → Served → Status → Option ContentRange → Type 0
CarriesBy file s Status.ok none = s.body ≡ file
CarriesBy file s partial_content (some r) =
    IsPart file s.body r.start r.end × (r.size ≡ length file)
CarriesBy file s _ _ = ⊥

abbrev pub Carries : List ℕ → Response → Type 0
Carries file (problem p) = Unit
Carries file (served s) =
    CarriesBy file s s.status s.content_range × (s.content_length ≡ length s.body)

whole-Carries : (mime : Text) (file : List ℕ) → Carries file (whole mime (length file) file)
unfolding whole
whole-Carries mime file = (take-all file, sym (ap length (take-all file)))

part-Carries :
    (mime : Text) (file : List ℕ) (start end : ℕ)
    → start ≤ end
    → end < length file
    → Carries file (part mime (length file) file start end)
unfolding part
part-Carries mime file start end order inside =
    let len : ℕ = end - start + 1 in
    let size = length-take len (drop start file) in
    let room = length-drop start file in
    (
      (
        (
          take start file,
          drop len (drop start file),
          ap (λ t. take start file ++ t) (take-append-drop len (drop start file))
              ∙ take-append-drop start file,
          omega (arith, length-take start file),
          omega (arith, size, room),
          inside,
        ),
        refl,
      ),
      omega (arith, size, room),
    )

respond_spec-Carries :
    (mime : Text) (file : List ℕ) (spec : Option RangeSpec)
    → Fits (length file) spec
    → Carries file (respond_spec mime (length file) file spec)
unfolding respond_spec
respond_spec-Carries mime file none h = tt
respond_spec-Carries mime file (some full) h = whole-Carries mime file
respond_spec-Carries mime file (some (partial r)) h = part-Carries mime file r.start r.end h.0 h.1

respond-Carries :
    (mime : Text) (file : List ℕ) (range : Option Text)
    → Carries file (respond mime (length file) file range)
unfolding respond
respond-Carries mime file none = whole-Carries mime file
respond-Carries mime file (some range) =
    respond_spec-Carries mime file (parse_byte_range range (length file))
      (parse_byte_range-Fits range (length file))

respond_query-Carries :
    (w : World) (filename : Text) (range : Option Text) (file : List ℕ) (q : Query)
    → w.stored ≡ some (length file)
    → w.file ≡ some file
    → Carries file (respond_query w filename range q)
respond_query-Carries w filename range file failed s f = tt
respond_query-Carries w filename range file missing s f = tt
respond_query-Carries w filename range file (found a) s f =
    rw (s, f, respond_stored, respond_file)
      (respond-Carries (or_extension a.mime filename) file (header_text range))

-- Whatever the request's `Range` header is, an answer that carries bytes of a file carries all of
-- them with status 200, or with status 206 exactly those that its `Content-Range` names, which lie
-- in the file; and its `Content-Length` is their number. The size that the store reports is the
-- file's.
pub asset-Carries :
    (w : World) (filename : Text) (range : Option Text) (file : List ℕ)
    → w.stored ≡ some (length file)
    → w.file ≡ some file
    → Carries file (asset w filename range)
unfolding asset
asset-Carries w filename range file s f = elim (Bool-cases w.has_pool) [
  | inl e ↦ rw e (respond_query-Carries w filename range file w.query s f)
  | inr e ↦ rw e tt
]
