-- ===== src/Sanitize/Strip.antt =====
-- Stripping tags (crates/federation/src/note.rs): no `<` survives, and text without tags and
-- entities is kept.
use mathlib.Core.List.{reverse, reverse-cons}
use toot_tok.Common.{
  ℕ, zero, suc, ◌≡◌, refl, sym, ◌∙◌, ap, Bool, false, ◌==◌, [], ◌∷◌, any, arith, Bool-cases, inl,
  inr,
}
use toot_tok.Common.Text.{Text, trim, trim_start}
use toot_tok.Common.Text.{text_eq}
use toot_tok.Common.Text.Same.{text_eq_sound}
use toot_tok.Sanitize.{depth_after, strip_from, strip_tags, decode_html_entities, pass, converge}
use toot_tok.Sanitize.Escape.{any-append}

abbrev pub has : ℕ → Text → Bool
has d s = any (λ c. c == d) s

has-reverse : (p : ℕ → Bool) (s : Text) → any p (reverse s) ≡ any p s
has-reverse p [] = refl
has-reverse p (c ∷ s) =
    rw (reverse-cons c s, any-append p (reverse s) (c ∷ []), has-reverse p s) (ground arith)

none-trim_start : (p : ℕ → Bool) (s : Text) → any p s ≡ false → any p (trim_start s) ≡ false
unfolding trim_start
none-trim_start p [] h = refl
none-trim_start p (c ∷ s) h = ground (arith, none-trim_start p s)

-- Trimming brings in no character.
none-trim : (p : ℕ → Bool) (s : Text) → any p s ≡ false → any p (trim s) ≡ false
unfolding trim
none-trim p s h =
    has-reverse p (trim_start (reverse (trim_start s)))
    ∙ none-trim_start p (reverse (trim_start s))
        (has-reverse p (trim_start s) ∙ none-trim_start p s h)

strip_from_no_tag : (depth : ℕ) (s : Text) → has b'<' (strip_from depth s) ≡ false
unfolding strip_from
strip_from_no_tag depth [] = refl
strip_from_no_tag depth (c ∷ s) = ground (arith, strip_from_no_tag (depth_after depth c) s)

-- No tag can be opened in stripped text.
strip_tags_no_tag : (s : Text) → has b'<' (strip_tags s) ≡ false
unfolding strip_tags
strip_tags_no_tag s = none-trim (λ c. c == b'<') (strip_from 0 s) (strip_from_no_tag 0 s)

pass_no_tag : (s : Text) → has b'<' (pass s) ≡ false
unfolding pass
pass_no_tag s = strip_tags_no_tag (decode_html_entities s)

converge_keeps : (rounds : ℕ) (s : Text) → has b'<' s ≡ false → has b'<' (converge rounds s) ≡ false
unfolding converge
converge_keeps zero s h = h
converge_keeps (suc n) s h = elim (Bool-cases (text_eq (pass s) s)) [
  | inl e ↦ rw e h
  | inr e ↦ rw e (converge_keeps n (pass s) (pass_no_tag s))
]

-- One round or more leaves no `<`, also when the bound on the rounds is what stops them.
pub converge_no_tag : (rounds : ℕ) (s : Text) → has b'<' (converge (suc rounds) s) ≡ false
unfolding converge
converge_no_tag n s = elim (Bool-cases (text_eq (pass s) s)) [
  | inl e ↦ rw e (sym (ap (has b'<') (text_eq_sound (pass s) s e)) ∙ pass_no_tag s)
  | inr e ↦ rw e (converge_keeps n (pass s) (pass_no_tag s))
]

-- Text without tags is stripped to itself.
strip_from_plain : (s : Text) → has b'<' s ≡ false → strip_from 0 s ≡ s
unfolding strip_from
strip_from_plain [] h = refl
strip_from_plain (c ∷ s) h = ground (arith, strip_from_plain s)

-- Text without tags and entities comes through the rounds as it is, but for white space at its ends.
pub pass_plain : (s : Text) → has b'<' s ≡ false → has b'&' s ≡ false → pass s ≡ trim s
unfolding pass strip_tags decode_html_entities
pass_plain s h k = rw k (ap trim (strip_from_plain s h))
