-- ===== src/Assets/Decimal.antt =====
-- Numbers written in decimal, as `format!` writes them, are read back by the range parser
-- (crates/server/src/assets.rs).
use toot_tok.Common.{
  ℕ, zero, suc, ◌+◌, ◌*◌, ◌/◌, ◌%◌, ◌<◌, ◌≡◌, refl, ◌∙◌, ap, Bool, true, false, ltb, ◌==◌,
  if◌then◌else◌, Option, some, [], ◌∷◌, ◌++◌, all, any, arith, Bool-cases, inl, inr, ltb→lt, ==_iff,
}
use toot_tok.Common.Text.{Text, is_digit, is_whitespace}
use toot_tok.Common.Text.Trim.{is_solid, all-append, trim_solid}
use toot_tok.Assets.{u64_limit, push_digit, and_then, digits_value, parse_u64, parse_bound}

-- The digits of a number below the fuel, the last one first in the recursion.
unfoldable pub print_digits : ℕ → ℕ → Text
print_digits zero n = []
print_digits (suc f) n =
    let front = print_digits f (n / 10) ++ (b'0' + n % 10) ∷ [] in
    if ltb n 10 then (b'0' + n) ∷ [] else front

unfoldable pub print_u64 : ℕ → Text
unfolding print_digits
print_u64 n = print_digits (suc n) n

digits_value-append :
    (s t : Text) (acc : Option ℕ) → digits_value acc (s ++ t) ≡ digits_value (digits_value acc s) t
unfolding digits_value
digits_value-append [] t acc = refl
digits_value-append (c ∷ s) t acc = digits_value-append s t (and_then acc (λ n. push_digit n c))

push-digit :
    (n d : ℕ) → d < 10 → n * 10 + d < u64_limit → push_digit n (b'0' + d) ≡ some (n * 10 + d)
unfolding is_digit
push-digit n d h k = ground arith

digits_value-digit :
    (n d m : ℕ)
    → d < 10
    → n * 10 + d ≡ m
    → m < u64_limit
    → digits_value (some n) ((b'0' + d) ∷ []) ≡ some m
unfolding digits_value
digits_value-digit n d m h e k = push-digit n d h (omega arith) ∙ ap some e

digits_value-print :
    (f n : ℕ) → n < f → n < u64_limit → digits_value (some 0) (print_digits f n) ≡ some n
unfolding print_digits
digits_value-print zero n h k = elim h [ ]
digits_value-print (suc f) n h k = elim (Bool-cases (ltb n 10)) [
  | inl e ↦ rw e (digits_value-digit 0 n n (ltb→lt n 10 e) (omega arith) k)
  | inr e ↦ rw e (
      digits_value-append (print_digits f (n / 10)) _ (some 0)
      ∙ rw (digits_value-print f (n / 10) (ground arith) (omega arith))
          (digits_value-digit (n / 10) (n % 10) n (omega arith) (omega arith) k))
]

abbrev pub all_digits : Text → Bool
all_digits s = all is_digit s

digits-print : (f n : ℕ) → all_digits (print_digits f n) ≡ true
unfolding print_digits
digits-print zero n = refl
digits-print (suc f) n = elim (Bool-cases (ltb n 10)) [
  | inl e ↦ rw e (digit-at n (ltb→lt n 10 e))
  | inr e ↦
      rw (e, all-append is_digit (print_digits f (n / 10)), digits-print f (n / 10))
        (digit-at (n % 10) (omega arith))
]
  where
    digit-at : (d : ℕ) → d < 10 → all_digits ((b'0' + d) ∷ []) ≡ true
    digit-at d h = unfold is_digit in ground arith

abbrev is_cons : Text → Bool
is_cons [] = false
is_cons (c ∷ s) = true

is_cons-append : (s : Text) (c : ℕ) → is_cons (s ++ c ∷ []) ≡ true
is_cons-append [] c = refl
is_cons-append (x ∷ s) c = refl

-- A printed number is not empty.
is_cons-print : (f n : ℕ) → is_cons (print_digits (suc f) n) ≡ true
unfolding print_digits
is_cons-print f n = elim (Bool-cases (ltb n 10)) [
  | inl e ↦ rw e
  | inr e ↦ rw e (is_cons-append (print_digits f (n / 10)) _)
]

-- What the parser needs to know of a run of digits.
pub solid_of_digits : (s : Text) → all_digits s ≡ true → is_solid s ≡ true
unfolding is_digit is_whitespace
solid_of_digits [] h = refl
solid_of_digits (c ∷ s) h = ground (arith, solid_of_digits s)

pub without :
    (d : ℕ) (s : Text) → is_digit d ≡ false → all_digits s ≡ true → any (λ c. c == d) s ≡ false
without d [] n h = refl
without d (c ∷ s) n h = elim (Bool-cases (c == d)) [
  | inl e ↦
      let same : c ≡ d = (==_iff c d).0 e in let digit : is_digit c ≡ true = ground arith in cc
  | inr e ↦ rw e (without d s n (ground arith))
]

parse_u64-digits :
    (s : Text) (n : ℕ)
    → is_cons s ≡ true
    → all_digits s ≡ true
    → digits_value (some 0) s ≡ some n
    → parse_u64 s ≡ some n
unfolding parse_u64
parse_u64-digits [] n c d v = cc
parse_u64-digits (x ∷ s) n c d v = rw no_sign v
  where
    no_sign : (x == b'+') ≡ false
    no_sign = unfold is_digit in ground arith

parse_bound-digits :
    (s : Text) (n : ℕ)
    → is_cons s ≡ true
    → all_digits s ≡ true
    → digits_value (some 0) s ≡ some n
    → parse_bound s ≡ some (some n)
unfolding parse_bound
parse_bound-digits [] n c d v = cc
parse_bound-digits (x ∷ s) n c d v =
    let value =
      ap parse_u64 (trim_solid (x ∷ s) (solid_of_digits (x ∷ s) d))
      ∙ parse_u64-digits (x ∷ s) n c d v in
    rw (value, parse_bound)

-- The three facts about a printed u64 that the range parser uses.
pub digits-print_u64 : (n : ℕ) → all_digits (print_u64 n) ≡ true
unfolding print_u64
digits-print_u64 n = digits-print (suc n) n

pub parse_bound-print : (n : ℕ) → n < u64_limit → parse_bound (print_u64 n) ≡ some (some n)
unfolding print_u64
parse_bound-print n h =
    parse_bound-digits (print_digits (suc n) n) n (is_cons-print n n) (digits-print (suc n) n)
      (digits_value-print (suc n) n (omega arith) h)
