-- ===== src/Db/Hashtags/Scan.antt =====
-- What the scan for hashtags gives (crates/db/src/hashtag.rs, `extract_hashtags`).
use toot_tok.Common.{
  ℕ, zero, suc, ◌≤◌, ◌<◌, ◌≡◌, refl, sym, ◌∙◌, Bool, true, false, ◌&&◌, ◌||◌, not, leb, ltb, ◌==◌,
  if◌then◌else◌, Option, some, List, [], ◌∷◌, ◌++◌, any, all, All, map, length, length-append,
  arith, Bool-cases, inl, inr,
}
use toot_tok.Common.Table.{All-append}
use toot_tok.Common.Text.Same.{text_eq_sound, text_eq_refl}
use toot_tok.Common.Text.{Text, text_eq, to_lower, is_digit}
use toot_tok.Db.Hashtags.{
  extract_hashtags, scan, tag_run, with_tag, is_tag_char, max_hashtags, is_empty,
}

-- What follows a run is not longer than the text.
tag_run-length : (s : Text) → length (tag_run s).1 ≤ length s
unfolding tag_run
tag_run-length [] = omega arith
tag_run-length (c ∷ s) = ground (arith, tag_run-length s)

tag_run-all : (s : Text) → all is_tag_char (tag_run s).0 ≡ true
unfolding tag_run
tag_run-all [] = refl
tag_run-all (c ∷ s) = elim (Bool-cases (is_tag_char c)) [
  | inl x ↦ rw (x, x) (tag_run-all s)
  | inr x ↦ rw x refl
]

-- A stored tag: it is not empty, and has small letters, digits and `_` only.
abbrev pub is_stored_char : ℕ → Bool
is_stored_char c = leb b'a' c && leb c b'z' || (is_digit c || c == b'_')

abbrev pub is_stored : Text → Bool
is_stored tag = not (is_empty tag) && all is_stored_char tag

-- No tag stands twice.
abbrev pub AreDistinct : List Text → Type 0
AreDistinct [] = Unit
AreDistinct (t ∷ ts) = (any (text_eq t) ts ≡ false) × AreDistinct ts

-- At most ten distinct stored tags.
pub AreTags : List Text → Type 0
AreTags tags = (length tags ≤ max_hashtags) × AreDistinct tags × All (λ t. is_stored t ≡ true) tags

lower-is_stored_char : (c : ℕ) → is_tag_char c ≡ true → is_stored_char (to_lower c) ≡ true
unfolding to_lower is_digit
lower-is_stored_char c h = ground (arith, h)

lower-all : (s : Text) → all is_tag_char s ≡ true → all is_stored_char (map to_lower s) ≡ true
lower-all [] h = refl
lower-all (c ∷ s) h = elim (Bool-cases (is_tag_char c)) [
  | inl x ↦ rw (lower-is_stored_char c x) (lower-all s (rw (← h, x) refl))
  | inr x ↦ let no : false ≡ true = rw (← h, x) refl in cc no
]

text_eq_sym : (s t : Text) → text_eq s t ≡ false → text_eq t s ≡ false
text_eq_sym s t h = elim (Bool-cases (text_eq t s)) [
  | inl x ↦
      let same = text_eq_sound t s x in
      let eq : text_eq s t ≡ true = rw same (text_eq_refl s) in cc (sym h ∙ eq)
  | inr x ↦ x
]

any-append_one :
    (p : Text → Bool) (xs : List Text) (x : Text)
    → any p xs ≡ false
    → p x ≡ false
    → any p (xs ++ x ∷ []) ≡ false
any-append_one p [] x h k = rw k refl
any-append_one p (y ∷ ys) x h k = ground (arith, any-append_one p ys x, h, k)

distinct_added :
    (tags : List Text) (t : Text)
    → AreDistinct tags
    → any (text_eq t) tags ≡ false
    → AreDistinct (tags ++ t ∷ [])
distinct_added [] t h k = (refl, tt)
distinct_added (x ∷ xs) t h k = elim (Bool-cases (text_eq t x)) [
  | inl y ↦ absurd (ground (arith, y, k))
  | inr y ↦ (
    any-append_one (text_eq x) xs t h.0 (text_eq_sym t x y),
    distinct_added xs t h.1 (ground (arith, y, k)),
  )
]

-- The tags before there are ten stay at most ten distinct ones when a run is added.
with_tag-AreTags :
    (tags : List Text) (run : Text)
    → length tags < max_hashtags
    → all is_tag_char run ≡ true
    → AreTags tags
    → AreTags (with_tag tags run)
unfolding AreTags
with_tag-AreTags tags [] few chars h = h
with_tag-AreTags tags (c ∷ run) few chars h =
    let tag = map to_lower (c ∷ run) in
    elim (Bool-cases (any (text_eq tag) tags)) [
      | inl x ↦ rw x h
      | inr x ↦ rw x (
        omega (arith, length-append tags (tag ∷ []), few),
        distinct_added tags tag h.1 x,
        All-append (λ t. is_stored t ≡ true) tags (tag ∷ []) h.2 (lower-all (c ∷ run) chars, tt),
      )
    ]

abbrev Ends : Option (List Text) → Type 0
Ends o = (tags : List Text) × (o ≡ some tags) × AreTags tags

one_of_two : (b : Bool) (o p : Option (List Text)) → Ends o → Ends p → Ends (if b then o else p)
one_of_two true o p x y = x
one_of_two false o p x y = y

-- With more fuel than the caption is long, the scan ends, with at most ten distinct tags.
scan-Ends :
    (fuel : ℕ) (tags : List Text) (s : Text)
    → length s < fuel
    → AreTags tags
    → Ends (scan fuel tags s)
unfolding scan
scan-Ends zero tags s h k = absurd (ground arith)
scan-Ends (suc fuel) tags [] h k = (tags, refl, k)
scan-Ends (suc fuel) tags (c ∷ s) h k =
    let short : length (tag_run s).1 < fuel = omega (arith, tag_run-length s, h) in
    let past : length s < fuel = omega (arith, h) in
    elim (Bool-cases (ltb (length tags) max_hashtags)) [
      | inl x ↦ rw x (
          one_of_two (c == b'#') _ _
            (scan-Ends fuel (with_tag tags (tag_run s).0) (tag_run s).1 short
              (with_tag-AreTags tags (tag_run s).0 (ground (arith, x)) (tag_run-all s) k))
            (scan-Ends fuel tags s past k))
      | inr x ↦ rw x (tags, refl, k)
    ]

-- The scan of any caption ends within its fuel, and the tags are at most ten, distinct, not empty,
-- and of small letters, digits and `_`.
pub extract_hashtags-AreTags :
    (caption : Text)
    → (scan (suc (length caption)) [] caption ≡ some (extract_hashtags caption))
      × AreTags (extract_hashtags caption)
unfolding extract_hashtags AreTags
extract_hashtags-AreTags caption =
    let ends = scan-Ends (suc (length caption)) [] caption (omega arith) (omega arith, tt, tt) in
    rw ends.1 (refl, ends.2)
