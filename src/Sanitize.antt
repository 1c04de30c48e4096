-- ===== src/Sanitize.antt =====
-- The sanitizer of remote captions (crates/federation/src/note.rs, `strip_html_tags` and what it
-- calls), over texts as lists of characters. The source walks bytes, by whole characters; all that
-- an entity consists of is ASCII, so its length in bytes is its length in characters.
pub mod Escape
pub mod Strip
pub mod Inert
use toot_tok.Common.{
  ℕ, zero, suc, ◌+◌, ◌-◌, ◌*◌, ◌^◌, Bool, true, false, ◌&&◌, ◌||◌, not, leb, ltb, ◌==◌,
  if◌then◌else◌, Option, none, some, List, [], ◌∷◌, ◌++◌, all, any, take, drop, length,
}
use toot_tok.Common.Text.{text_eq, Text, codes, trim, is_digit, starts_with}

-- The depth of open tags behind a character.
abbrev pub depth_after : ℕ → ℕ → ℕ
depth_after depth c =
    if c == b'<' then depth + 1 else if c == b'>' && ltb 0 depth then depth - 1 else depth

abbrev pub is_kept : ℕ → ℕ → Bool
is_kept depth c = not (c == b'<') && (not (c == b'>' && ltb 0 depth) && depth == 0)

unfoldable pub strip_from : ℕ → Text → Text
strip_from depth [] = []
strip_from depth (c ∷ s) =
    let rest = strip_from (depth_after depth c) s in if is_kept depth c then c ∷ rest else rest

unfoldable pub strip_tags : Text → Text
strip_tags s = trim (strip_from 0 s)

abbrev named : List (Text × ℕ)
named =
    (codes "amp", b'&')
    ∷ (codes "lt", b'<')
    ∷ (codes "gt", b'>')
    ∷ (codes "quot", 0x22)
    ∷ (codes "apos", 0x27)
    ∷ (codes "nbsp", 0xa0)
    ∷ (codes "hellip", 0x2026)
    ∷ []

-- The character that an entity stands for, and the length of the entity with its `&`.
abbrev pub Entity : Type 0
Entity = ℕ × ℕ

unfoldable pub find_named : List (Text × ℕ) → Text → Option Entity
find_named [] after = none
find_named ((name, c) ∷ names) after =
    if starts_with after (name ++ b';' ∷ [])
    then some (c, length name + 2)
    else find_named names after

-- `str::find` of one character: its position.
unfoldable pub index_of : ℕ → Text → Option ℕ
index_of d [] = none
index_of d (c ∷ s) = elim (c == d) [
  | true ↦ some 0
  | false ↦ elim (index_of d s) [ none ↦ none | some i ↦ some (suc i) ]
]

-- `char::from_u32`: no surrogates, and nothing past U+10FFFF.
abbrev pub to_char : ℕ → Option ℕ
to_char n = if ltb n 0x110000 && not (leb 0xd800 n && leb n 0xdfff) then some n else none

unfoldable pub is_hex_digit : ℕ → Bool
is_hex_digit c = is_digit c || (leb b'a' c && leb c b'f' || leb b'A' c && leb c b'F')

hex_value : ℕ → ℕ
hex_value c = if is_digit c then c - b'0' else if leb b'a' c then c - b'a' + 10 else c - b'A' + 10

digits_value : (ℕ → ℕ) → ℕ → ℕ → Text → ℕ
digits_value value radix acc [] = acc
digits_value value radix acc (c ∷ s) = digits_value value radix (acc * radix + value c) s

-- The digits are digits, so the `u32` parsers fail on overflow only. A prefix overflows only if the
-- whole number does.
abbrev numeric : (ℕ → ℕ) → ℕ → Text → ℕ → Option Entity
numeric value radix digits consumed =
    let n = digits_value value radix 0 digits in
    if ltb n (2 ^ 32) then elim (to_char n) [ none ↦ none | some c ↦ some (c, consumed) ] else none

abbrev numeric_at : (ℕ → Bool) → (ℕ → ℕ) → ℕ → Text → ℕ → Option ℕ → Option Entity
numeric_at is_good value radix s extra none = none
numeric_at is_good value radix s extra (some end) =
    if ltb 0 end && all is_good (take end s)
    then numeric value radix (take end s) (end + extra)
    else none

-- The text behind `&#`.
numeric_entity : Text → Option Entity
unfolding is_hex_digit hex_value digits_value index_of
numeric_entity s =
    if starts_with s (b'x' ∷ []) || starts_with s (b'X' ∷ [])
    then numeric_at is_hex_digit hex_value 16 (drop 1 s) 4 (index_of b';' (drop 1 s))
    else numeric_at is_digit (λ c. c - b'0') 10 s 3 (index_of b';' s)

-- The text behind `&`.
unfoldable pub decode_one_entity : Text → Option Entity
unfolding find_named numeric_entity
decode_one_entity after = elim (find_named named after) [
  | some e ↦ some e
  | none ↦ if starts_with after (b'#' ∷ []) then numeric_entity (drop 1 after) else none
]

-- The loop, with the number of characters that the last entity still covers.
unfoldable pub decode_from : ℕ → Text → Text
decode_from skip [] = []
decode_from (suc skip) (c ∷ s) = decode_from skip s
decode_from zero (c ∷ s) = elim (c == b'&') [
  | false ↦ c ∷ decode_from 0 s
  | true ↦ elim (decode_one_entity s) [
    | some (d, consumed) ↦ d ∷ decode_from (consumed - 1) s
    | none ↦ b'&' ∷ decode_from 0 s
  ]
]

unfoldable pub decode_html_entities : Text → Text
decode_html_entities s = if any (λ c. c == b'&') s then decode_from 0 s else s

abbrev pub escaped : ℕ → Text
escaped c =
    if c == b'&'
    then codes "&amp;"
    else if c == b'<'
    then codes "&lt;"
    else if c == b'>'
    then codes "&gt;"
    else if c == 0x22
    then codes "&quot;"
    else if c == 0x27
    then codes "&#x27;"
    else c ∷ []

unfoldable pub escape_html : Text → Text
escape_html [] = []
escape_html (c ∷ s) = escaped c ++ escape_html s

-- One round: decode, then strip.
unfoldable pub pass : Text → Text
pass s = strip_tags (decode_html_entities s)

-- At most the given number of rounds, until one changes nothing.
unfoldable pub converge : ℕ → Text → Text
unfolding text_eq
converge zero current = current
converge (suc rounds) current =
    let stripped = pass current in
    let rest = converge rounds stripped in if text_eq stripped current then current else rest

unfoldable pub strip_html_tags : Text → Text
strip_html_tags s = escape_html (converge 8 s)
