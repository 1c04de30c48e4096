-- ===== src/Assets.antt =====
-- Media asset serving with HTTP byte ranges (crates/server/src/assets.rs). A header value is
-- ASCII, so its bytes are its code points; a u64 is a number below 2^64.
pub mod Ranges
pub mod Decimal
pub mod Serving
use toot_tok.Common.{
  ℕ, zero, suc, ◌+◌, ◌-◌, ◌*◌, ◌^◌, min, Bool, true, false, ◌&&◌, ◌||◌, leb, ltb, ◌==◌,
  if◌then◌else◌, Option, none, some, List, [], ◌∷◌, ◌++◌, any, take, drop, length, String,
}
use toot_tok.Common.Text.{Text, codes, trim, is_digit, eq_ignore_case, split_once, text_eq, to_str}

pub record ByteRange : Type 0 where
  pub start : ℕ
  pub end : ℕ

pub data RangeSpec : Type 0 where
  partial : ByteRange → RangeSpec
  full : RangeSpec

-- `none` is an error of the parse, `Err(RangeError)`.
abbrev pub u64_limit : ℕ
u64_limit = 2 ^ 64

-- One digit of `str::parse::<u64>`.
abbrev pub push_digit : ℕ → ℕ → Option ℕ
push_digit acc c =
    if is_digit c
    then (if ltb (acc * 10 + (c - b'0')) u64_limit then some (acc * 10 + (c - b'0')) else none)
    else none

abbrev pub and_then : Option ℕ → (ℕ → Option ℕ) → Option ℕ
and_then none f = none
and_then (some n) f = f n

unfoldable pub digits_value : Option ℕ → Text → Option ℕ
digits_value acc [] = acc
digits_value acc (c ∷ s) = digits_value (and_then acc (λ n. push_digit n c)) s

-- `str::parse::<u64>` takes a sign `+`, and wants a digit.
abbrev unsigned : Text → Option ℕ
unsigned [] = none
unsigned (c ∷ s) = digits_value (some 0) (c ∷ s)

unfoldable pub parse_u64 : Text → Option ℕ
parse_u64 [] = none
parse_u64 (c ∷ s) = if c == b'+' then unsigned s else unsigned (c ∷ s)

-- A bound that may be left out. The outer `none` is an error.
unfoldable pub parse_bound : Text → Option (Option ℕ)
parse_bound [] = some none
parse_bound (c ∷ s) = elim (parse_u64 (trim (c ∷ s))) [ none ↦ none | some n ↦ some (some n) ]

abbrev pub range : ℕ → ℕ → RangeSpec
range s e = partial (record { start = s; end = e })

-- The final `match` on the two bounds.
unfoldable pub range_of : Option ℕ → Option ℕ → ℕ → Option RangeSpec
range_of (some s) (some e) size =
    if ltb e s || leb size s then none else some (range s (min e (size - 1)))
range_of (some s) none size = if leb size s then none else some (range s (size - 1))
range_of none (some suffix) size =
    if suffix == 0
    then none
    else if leb size suffix
    then some full
    else some (range (size - suffix) (size - 1))
range_of none none size = none

abbrev range_of_bounds : Option (Option ℕ) → Option (Option ℕ) → ℕ → Option RangeSpec
range_of_bounds none end size = none
range_of_bounds (some start) none size = none
range_of_bounds (some start) (some end) size = range_of start end size

abbrev range_of_parts : Option (Text × Text) → ℕ → Option RangeSpec
range_of_parts none size = none
range_of_parts (some (start_raw, end_raw)) size =
    range_of_bounds (parse_bound start_raw) (parse_bound end_raw) size

unit_prefix : Text
unit_prefix = codes "bytes="

has_unit : Text → Bool
unfolding unit_prefix
has_unit header = leb 6 (length header) && eq_ignore_case (take 6 header) unit_prefix

range_of_value : Text → ℕ → Option RangeSpec
range_of_value value size =
    if any (λ c. c == b',') value then none else range_of_parts (split_once b'-' value) size

range_of_header : Text → ℕ → Option RangeSpec
unfolding has_unit range_of_value
range_of_header header size = if has_unit header then range_of_value (drop 6 header) size else none

unfoldable pub parse_byte_range : Text → ℕ → Option RangeSpec
unfolding range_of_header
parse_byte_range raw size = if size == 0 then none else range_of_header (trim raw) size

-- The part of a text behind its last dot, or all of it: `rsplit('.').next()`.
unfoldable pub last_part : ℕ → Text → Text
last_part d [] = []
last_part d (c ∷ s) =
    let rest = last_part d s in if any (λ x. x == d) s then rest else if c == d then s else c ∷ s

unfoldable pub mime_for_extension : Text → Text
unfolding text_eq
mime_for_extension filename =
    let ext = last_part b'.' filename in
    if text_eq ext (codes "jpg") || text_eq ext (codes "jpeg")
    then codes "image/jpeg"
    else if text_eq ext (codes "mp4")
    then codes "video/mp4"
    else if text_eq ext (codes "webm")
    then codes "video/webm"
    else if text_eq ext (codes "mov")
    then codes "video/quicktime"
    else if text_eq ext (codes "vtt")
    then codes "text/vtt"
    else codes "application/octet-stream"
