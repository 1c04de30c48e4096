-- ===== src/Common/Text.antt =====
-- Texts that the program walks, as lists of code points (of bytes, where a text is ASCII), and the
-- operations of Rust's `str` and `char` on them.
pub mod Trim
pub mod Same
pub mod Utf8
use toot_tok.Common.Tests.{leb, ltb, ◌==◌, if◌then◌else◌}
use toot_tok.Common.Lists.{all, any, length, drop}
use Prim.Native.Nat.{ℕ, zero, suc, ◌+◌}
use Prim.Native.Char.{code}
use Prim.Native.String.{String}
use mathlib.Core.Bool.{Bool, true, false, ◌&&◌, ◌||◌}
use mathlib.Core.List.{List, [], ◌∷◌, ◌++◌, reverse}
use mathlib.Core.Option.{Option, none, some}

abbrev pub Text : Type 0
Text = List ℕ

-- The code points of a literal.
abbrev pub codes : String → Text
codes String.[] = []
codes (String.◌∷◌ c s) = code c ∷ codes s

-- `char::is_whitespace`, the Unicode property White_Space.
unfoldable pub is_whitespace : ℕ → Bool
is_whitespace c =
    leb 9 c && leb c 13
    || (c == 32
        || (c == 0x85
            || (c == 0xa0
                || (c == 0x1680
                    || (leb 0x2000 c && leb c 0x200a
                        || (c == 0x2028
                            || (c == 0x2029 || (c == 0x202f || (c == 0x205f || c == 0x3000)))))))))

unfoldable pub trim_start : Text → Text
trim_start [] = []
trim_start (c ∷ s) = if is_whitespace c then trim_start s else c ∷ s

unfoldable pub trim_end : Text → Text
unfolding trim_start
trim_end s = reverse (trim_start (reverse s))

unfoldable pub trim : Text → Text
unfolding trim_end
trim s = trim_end (trim_start s)

-- `==` of two texts.
unfoldable pub text_eq : Text → Text → Bool
text_eq [] [] = true
text_eq (a ∷ s) (b ∷ t) = a == b && text_eq s t
text_eq _ _ = false

unfoldable pub is_digit : ℕ → Bool
is_digit c = leb b'0' c && leb c b'9'

unfoldable pub to_lower : ℕ → ℕ
to_lower c = if leb b'A' c && leb c b'Z' then c + 32 else c

-- `str::eq_ignore_ascii_case`.
unfoldable pub eq_ignore_case : Text → Text → Bool
unfolding to_lower
eq_ignore_case [] [] = true
eq_ignore_case (a ∷ s) (b ∷ t) = to_lower a == to_lower b && eq_ignore_case s t
eq_ignore_case _ _ = false

unfoldable pub starts_with : Text → Text → Bool
starts_with s [] = true
starts_with [] (b ∷ t) = false
starts_with (a ∷ s) (b ∷ t) = a == b && starts_with s t

abbrev pub after_cons : ℕ → Option (Text × Text) → Option (Text × Text)
after_cons c none = none
after_cons c (some (s, t)) = some (c ∷ s, t)

-- `str::split_once` at one character.
unfoldable pub split_once : ℕ → Text → Option (Text × Text)
split_once d [] = none
split_once d (c ∷ s) = if c == d then some ([], s) else after_cons c (split_once d s)

-- `str::split(d).next()`.
unfoldable pub first_part : ℕ → Text → Text
first_part d [] = []
first_part d (c ∷ s) = if c == d then [] else c ∷ first_part d s

-- `HeaderValue::to_str`: visible ASCII and tabs.
unfoldable pub to_str : Text → Option Text
to_str s = if all (λ c. leb 32 c && ltb c 127 || c == 9) s then some s else none
