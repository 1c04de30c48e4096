-- ===== src/Common/Text/Utf8.antt =====
-- `String::from_utf8`: texts are code points, and what is received is bytes.
use toot_tok.Common.Tests.{ltb, leb, if◌then◌else◌}
use Prim.Native.Nat.{ℕ, zero, suc, ◌+◌, ◌-◌, ◌*◌}
use mathlib.Core.Bool.{Bool, ◌&&◌, ◌||◌}
use mathlib.Core.List.{List, [], ◌∷◌}
use mathlib.Core.Option.{Option, none, some}
use toot_tok.Common.Text.{Text}

-- Not a surrogate, and in the range of Unicode.
abbrev is_scalar : ℕ → Bool
is_scalar c = ltb c 0xD800 || leb 0xE000 c && leb c 0x10FFFF

abbrev consed : ℕ → Option Text → Option Text
consed c none = none
consed c (some s) = some (c ∷ s)

-- How many bytes follow one that opens a character, what it adds, and the least value.
abbrev lead : ℕ → ℕ × ℕ × ℕ
lead c =
    if ltb c 0x80
    then (0, 0, 0)
    else if ltb c 0xE0
    then (1, c - 0xC0, 0x80)
    else if ltb c 0xF0
    then (2, c - 0xE0, 0x800)
    else (3, c - 0xF0, 0x10000)

abbrev opens : ℕ → Bool
opens c = ltb c 0x80 || leb 0xC0 c && ltb c 0xF8

-- The bytes when some are still to come in a character, with its value so far and its least one.
unfoldable pub utf8_from : ℕ → ℕ → ℕ → List ℕ → Option Text
utf8_from zero acc least [] = some []
utf8_from (suc n) acc least [] = none
utf8_from zero acc least (c ∷ s) =
    let rest = utf8_from (lead c).0 (lead c).1 (lead c).2 s in
    if opens c then (if ltb c 0x80 then consed c rest else rest) else none
utf8_from (suc zero) acc least (c ∷ s) =
    let char = acc * 64 + (c - 0x80) in
    let rest = utf8_from zero 0 0 s in
    if leb 0x80 c && (ltb c 0xC0 && (leb least char && is_scalar char))
    then consed char rest
    else none
utf8_from (suc (suc n)) acc least (c ∷ s) =
    let rest = utf8_from (suc n) (acc * 64 + (c - 0x80)) least s in
    if leb 0x80 c && ltb c 0xC0 then rest else none

unfoldable pub from_utf8 : List ℕ → Option Text
from_utf8 bytes = utf8_from zero 0 0 bytes
