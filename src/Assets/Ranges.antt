-- ===== src/Assets/Ranges.antt =====
-- What a `Range` header asks for (crates/server/src/assets.rs).
use toot_tok.Common.{
  ℕ, ◌-◌, ◌≤◌, ◌<◌, min, ◌≡◌, refl, ◌∙◌, Bool, true, false, ◌||◌, ◌==◌, Option, none, some, [], ◌∷◌,
  ◌++◌, any, drop, arith, Bool-cases, inl, inr, le→leb, length,
}
use toot_tok.Common.Text.{Text, codes, is_digit, is_whitespace, eq_ignore_case, trim, split_once}
use toot_tok.Common.Text.Trim.{is_solid, all-append, trim_solid}
use toot_tok.Assets.{
  RangeSpec, partial, full, u64_limit, range, range_of, range_of_bounds, range_of_parts,
  parse_bound, parse_byte_range, has_unit, range_of_value, range_of_header,
}
use toot_tok.Assets.Decimal.{
  print_u64, solid_of_digits, without, digits-print_u64, parse_bound-print,
}

-- A range lies in the file, and is not empty.
abbrev pub Fits : ℕ → Option RangeSpec → Type 0
Fits size none = Unit
Fits size (some full) = 0 < size
Fits size (some (partial r)) = (r.start ≤ r.end) × (r.end < size)

range_of-Fits : (start end : Option ℕ) (size : ℕ) → 0 < size → Fits size (range_of start end size)
unfolding range_of
range_of-Fits (some s) (some e) size h = ground arith
range_of-Fits (some s) none size h = ground arith
range_of-Fits none (some k) size h = ground arith
range_of-Fits none none size h = tt

range_of_bounds-Fits :
    (start end : Option (Option ℕ)) (size : ℕ)
    → 0 < size
    → Fits size (range_of_bounds start end size)
range_of_bounds-Fits none end size h = tt
range_of_bounds-Fits (some s) none size h = tt
range_of_bounds-Fits (some s) (some e) size h = range_of-Fits s e size h

range_of_parts-Fits :
    (parts : Option (Text × Text)) (size : ℕ) → 0 < size → Fits size (range_of_parts parts size)
range_of_parts-Fits none size h = tt
range_of_parts-Fits (some (s, e)) size h =
    range_of_bounds-Fits (parse_bound s) (parse_bound e) size h

range_of_value-Fits : (value : Text) (size : ℕ) → 0 < size → Fits size (range_of_value value size)
unfolding range_of_value
range_of_value-Fits value size h = elim (Bool-cases (any (λ c. c == b',') value)) [
  | inl e ↦ rw e tt
  | inr e ↦ rw e (range_of_parts-Fits (split_once b'-' value) size h)
]

range_of_header-Fits :
    (header : Text) (size : ℕ) → 0 < size → Fits size (range_of_header header size)
unfolding range_of_header
range_of_header-Fits header size h = elim (Bool-cases (has_unit header)) [
  | inl e ↦ rw e (range_of_value-Fits (drop 6 header) size h)
  | inr e ↦ rw e tt
]

-- Whatever the header says, the range that the parser accepts lies in the file: its start is not
-- behind its end, and its end is before the file's size. An empty file has no range.
pub parse_byte_range-Fits : (raw : Text) (size : ℕ) → Fits size (parse_byte_range raw size)
unfolding parse_byte_range
parse_byte_range-Fits raw size = elim (Bool-cases (size == 0)) [
  | inl e ↦ rw e tt
  | inr e ↦ rw e (range_of_header-Fits (trim raw) size (ground (arith, e)))
]

-- `bytes=s-e`, as clients write it.
abbrev pub write_range : ℕ → ℕ → Text
write_range s e = codes "bytes=" ++ (print_u64 s ++ b'-' ∷ print_u64 e)

abbrev bounds : ℕ → ℕ → Text
bounds s e = print_u64 s ++ b'-' ∷ print_u64 e

any-append : (p : ℕ → Bool) (s t : Text) → any p (s ++ t) ≡ (any p s || any p t)
any-append p [] t = refl
any-append p (c ∷ s) t = ground (arith, any-append p s t)

bounds-solid : (s e : ℕ) → is_solid (bounds s e) ≡ true
bounds-solid s e =
    all-append _ (print_u64 s) (b'-' ∷ print_u64 e)
    ∙ rw
        (
          solid_of_digits (print_u64 s) (digits-print_u64 s),
          solid_of_digits (print_u64 e) (digits-print_u64 e),
        )
        (unfold is_whitespace in refl)

write_range-solid : (s e : ℕ) → is_solid (write_range s e) ≡ true
unfolding is_whitespace
write_range-solid s e = bounds-solid s e

no_comma : (s e : ℕ) → any (λ c. c == b',') (bounds s e) ≡ false
no_comma s e =
    any-append _ (print_u64 s) (b'-' ∷ print_u64 e)
    ∙ rw (
      without b',' (print_u64 s) (unfold is_digit in refl) (digits-print_u64 s),
      without b',' (print_u64 e) (unfold is_digit in refl) (digits-print_u64 e),
    )

split_once-append :
    (d : ℕ) (s t : Text) → any (λ c. c == d) s ≡ false → split_once d (s ++ d ∷ t) ≡ some (s, t)
unfolding split_once
split_once-append d [] t h = ground arith
split_once-append d (c ∷ s) t h = ground (arith, split_once-append d s t)

has_unit-prefix : (t : Text) → has_unit (codes "bytes=" ++ t) ≡ true
unfolding has_unit eq_ignore_case
has_unit-prefix t = rw (le→leb 6 (length (codes "bytes=" ++ t)) (omega arith))

range_of_value-bounds :
    (s e size : ℕ)
    → s < u64_limit
    → e < u64_limit
    → range_of_value (bounds s e) size ≡ range_of (some s) (some e) size
unfolding range_of_value
range_of_value-bounds s e size h k =
    rw
      (
        no_comma s e,
        split_once-append b'-' (print_u64 s) (print_u64 e)
            (without b'-' (print_u64 s) (unfold is_digit in refl) (digits-print_u64 s)),
      )
      (rw (parse_bound-print s h, parse_bound-print e k, range_of_bounds))

-- A range that a client writes in decimal is read as that range, cut to the end of the file.
pub parse-write_range :
    (s e size : ℕ)
    → s ≤ e
    → s < size
    → e < u64_limit
    → parse_byte_range (write_range s e) size ≡ some (range s (min e (size - 1)))
unfolding parse_byte_range range_of_header
parse-write_range s e size order inside small =
    rw
      (nonempty, trim_solid (write_range s e) (write_range-solid s e), has_unit-prefix (bounds s e))
      (range_of_value-bounds s e size (omega arith) small ∙ unfold range_of in ground arith)
  where
    nonempty : (size == 0) ≡ false
    nonempty = ground arith
