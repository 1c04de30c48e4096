-- ===== src/Common/Result.antt =====
-- Results of fallible code: a value or an error.
use mathlib.Core.Path.{◌≡◌, refl}
use mathlib.Core.Bool.{Bool}
use mathlib.Core.Option.{Option, none, some}
use toot_tok.Common.Tests.{if◌then◌else◌}

pub data Result {ℓ κ} (E : Type ℓ) (A : Type κ) : Type (ℓ ⊔ κ) where
  err : E → Result E A
  ok : A → Result E A

-- `?` at the end of a statement: the first error ends the function.
infixl 4 ◌>>=◌ ◌>>◌
abbrev pub ◌>>=◌ {ℓ κ μ} :
    {E : Type ℓ} {A : Type κ} {B : Type μ} (r : Result E A) (next : A → Result E B) → Result E B
r >>= next = elim r [ err x ↦ err x | ok a ↦ next a ]

abbrev pub ◌>>◌ {ℓ κ μ} :
    {E : Type ℓ} {A : Type κ} {B : Type μ} (r : Result E A) (next : Result E B) → Result E B
r >> next = elim r [ err x ↦ err x | ok a ↦ next ]

-- The early return of an error unless the test holds.
abbrev pub ensure {ℓ} : {E : Type ℓ} (otherwise : E) (test : Bool) → Result E (Unit {0})
ensure otherwise test = if test then ok tt else err otherwise

-- `ok_or`.
abbrev pub or_err {ℓ κ} : {E : Type ℓ} {A : Type κ} → E → Option A → Result E A
or_err x none = err x
or_err x (some a) = ok a

-- When a chain succeeds, its rest does so on what its first step gives.
pub >>=-ok {ℓ κ μ} :
    {E : Type ℓ} {A : Type κ} {B : Type μ} {last : B} (r : Result E A) (next : A → Result E B)
    → (r >>= next) ≡ ok last
    → (first : A) × (next first ≡ ok last) × (r ≡ ok first)
>>=-ok (err x) next h = cc
>>=-ok (ok a) next h = (a, h, refl)

pub or_err-ok {ℓ κ} :
    {E : Type ℓ} {A : Type κ} {a : A} (x : E) (o : Option A) → or_err x o ≡ ok a → o ≡ some a
or_err-ok x (some b) h = cc
or_err-ok x none h = cc
