-- ===== src/Common/Text/Trim.antt =====
-- A text without white space is what `trim` leaves of it.
use mathlib.Core.Path.{◌≡◌, refl, ◌∙◌}
use mathlib.Core.Bool.{Bool, true, ◌&&◌, not}
use mathlib.Core.List.{List, [], ◌∷◌, ◌++◌, reverse, reverse-cons, reverse-reverse}
use native.Mathlib.Omega.{arith}
use toot_tok.Common.Lists.{all}
use toot_tok.Common.Text.{Text, is_whitespace, trim_start, trim}

abbrev pub is_solid : Text → Bool
is_solid s = all (λ c. not (is_whitespace c)) s

pub all-append {ℓ} :
    {A : Type ℓ} (p : A → Bool) (xs ys : List A) → all p (xs ++ ys) ≡ (all p xs && all p ys)
all-append p [] ys = refl
all-append p (x ∷ xs) ys = ground (arith, all-append p xs ys)

all-reverse {ℓ} : {A : Type ℓ} (p : A → Bool) (xs : List A) → all p (reverse xs) ≡ all p xs
all-reverse p [] = refl
all-reverse p (x ∷ xs) =
    rw (reverse-cons x xs, all-append p (reverse xs) (x ∷ []), all-reverse p xs) (ground arith)

trim_start_solid : (s : Text) → is_solid s ≡ true → trim_start s ≡ s
unfolding trim_start
trim_start_solid [] h = refl
trim_start_solid (c ∷ s) h = ground arith

pub trim_solid : (s : Text) → is_solid s ≡ true → trim s ≡ s
unfolding trim
trim_solid s h =
    rw (trim_start_solid s h, trim_start_solid (reverse s) (all-reverse _ s ∙ h))
      (reverse-reverse s)
