-- ===== src/Sanitize/Escape.antt =====
-- Escaping (crates/federation/src/note.rs): what `escape_html` writes is inert, and decodes to what
-- it was given.
use toot_tok.Common.{
  ℕ, ◌≡◌, refl, sym, ◌∙◌, ap, Bool, true, false, ◌||◌, ◌==◌, [], ◌∷◌, ◌++◌, any, arith, Bool-cases,
  inl, inr, ==_iff,
}
use toot_tok.Common.Text.{Text, codes, starts_with, is_digit}
use toot_tok.Sanitize.{decode_from, decode_html_entities, decode_one_entity, escape_html, escaped}

-- The four characters that can open or close markup or an attribute.
abbrev pub is_markup : ℕ → Bool
is_markup c = c == b'<' || (c == b'>' || (c == 0x22 || c == 0x27))

pub any-append : (p : ℕ → Bool) (s t : Text) → any p (s ++ t) ≡ (any p s || any p t)
any-append p [] t = refl
any-append p (c ∷ s) t = ground (arith, any-append p s t)

escaped_inert : (c : ℕ) → any is_markup (escaped c) ≡ false
escaped_inert c = ground arith

-- Escaped text holds no `<`, `>`, `"` or `'`.
pub escape_html_inert : (s : Text) → any is_markup (escape_html s) ≡ false
unfolding escape_html
escape_html_inert [] = refl
escape_html_inert (c ∷ s) =
    rw (any-append is_markup (escaped c) (escape_html s), escaped_inert c, escape_html_inert s)

to_eq : (c d : ℕ) → (c == d) ≡ true → c ≡ d
to_eq c d e = (==_iff c d).0 e

-- The five entities that `escape_html` writes.
decode-amp : (s : Text) → decode_from 0 (codes "&amp;" ++ s) ≡ b'&' ∷ decode_from 0 s
unfolding decode_from decode_one_entity starts_with
decode-amp s = refl

decode-lt : (s : Text) → decode_from 0 (codes "&lt;" ++ s) ≡ b'<' ∷ decode_from 0 s
unfolding decode_from decode_one_entity starts_with
decode-lt s = refl

decode-gt : (s : Text) → decode_from 0 (codes "&gt;" ++ s) ≡ b'>' ∷ decode_from 0 s
unfolding decode_from decode_one_entity starts_with
decode-gt s = refl

decode-quot : (s : Text) → decode_from 0 (codes "&quot;" ++ s) ≡ 0x22 ∷ decode_from 0 s
unfolding decode_from decode_one_entity starts_with
decode-quot s = refl

decode-apos : (s : Text) → decode_from 0 (codes "&#x27;" ++ s) ≡ 0x27 ∷ decode_from 0 s
unfolding decode_from decode_one_entity starts_with is_digit
decode-apos s = refl

decode-plain :
    (c : ℕ) (s : Text) → (c == b'&') ≡ false → decode_from 0 (c ∷ s) ≡ c ∷ decode_from 0 s
unfolding decode_from
decode-plain c s h = rw (h, decode_from)

-- One escaped character is decoded to that character.
decode-escaped : (c : ℕ) (s : Text) → decode_from 0 (escaped c ++ s) ≡ c ∷ decode_from 0 s
decode-escaped c s = elim (Bool-cases (c == b'&')) [
  | inl e ↦ rw e (rw (to_eq c b'&' e) (decode-amp s))
  | inr e ↦ elim (Bool-cases (c == b'<')) [
    | inl f ↦ rw (e, f) (rw (to_eq c b'<' f) (decode-lt s))
    | inr f ↦ elim (Bool-cases (c == b'>')) [
      | inl g ↦ rw (e, f, g) (rw (to_eq c b'>' g) (decode-gt s))
      | inr g ↦ elim (Bool-cases (c == 0x22)) [
        | inl h ↦ rw (e, f, g, h) (rw (to_eq c 0x22 h) (decode-quot s))
        | inr h ↦ elim (Bool-cases (c == 0x27)) [
          | inl k ↦ rw (e, f, g, h, k) (rw (to_eq c 0x27 k) (decode-apos s))
          | inr k ↦ rw (e, f, g, h, k) (decode-plain c s e)
        ]
      ]
    ]
  ]
]

decode_from-escape : (s : Text) → decode_from 0 (escape_html s) ≡ s
unfolding escape_html
decode_from-escape [] = unfold decode_from in refl
decode_from-escape (c ∷ s) =
    decode-escaped c (escape_html s) ∙ ap (λ t. c ∷ t) (decode_from-escape s)

-- A text without `&` is decoded to itself, so the shortcut of `decode_html_entities` is sound.
pub decode_from_plain : (s : Text) → any (λ c. c == b'&') s ≡ false → decode_from 0 s ≡ s
unfolding decode_from
decode_from_plain [] h = refl
decode_from_plain (c ∷ s) h = ground (arith, decode_from_plain s)

-- Decoding gives back every text that was escaped.
pub decode-escape : (s : Text) → decode_html_entities (escape_html s) ≡ s
unfolding decode_html_entities
decode-escape s = elim (Bool-cases (any (λ c. c == b'&') (escape_html s))) [
  | inl e ↦ rw e (decode_from-escape s)
  | inr e ↦ rw e (sym (decode_from_plain (escape_html s) e) ∙ decode_from-escape s)
]
