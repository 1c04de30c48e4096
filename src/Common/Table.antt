-- ===== src/Common/Table.antt =====
-- A database table as the list of its rows, and the statements on it.
use mathlib.Core.Path.{◌≡◌, refl}
use mathlib.Core.Logic.{inl, inr}
use mathlib.Core.Bool.{Bool, true, false}
use mathlib.Core.List.{List, [], ◌∷◌, ◌++◌}
use mathlib.Core.Option.{Option, none, some}
use native.Mathlib.Omega.{arith}
use toot_tok.Common.Tests.{if◌then◌else◌, Bool-cases}
use toot_tok.Common.Lists.{All, find, any}

-- UPDATE … SET … WHERE …
unfoldable pub update_where {ℓ} : {A : Type ℓ} → (A → Bool) → (A → A) → List A → List A
update_where p f [] = []
update_where p f (r ∷ rs) = (if p r then f r else r) ∷ update_where p f rs

-- DELETE … WHERE …
unfoldable pub delete_where {ℓ} : {A : Type ℓ} → (A → Bool) → List A → List A
delete_where p [] = []
delete_where p (r ∷ rs) = if p r then delete_where p rs else r ∷ delete_where p rs

module _ {ℓ κ} {A : Type ℓ} (P : A → Type κ) where
  -- An update keeps a property of all rows that its function keeps.
  pub update_where-All :
      (p : A → Bool) (f : A → A) (rs : List A)
      → ((r : A) → P r → P (f r))
      → All P rs
      → All P (update_where p f rs)
  unfolding update_where
  update_where-All p f [] keeps h = tt
  update_where-All p f (r ∷ rs) keeps h = elim (Bool-cases (p r)) [
    | inl e ↦ (rw e (keeps r h.0), update_where-All p f rs keeps h.1)
    | inr e ↦ (rw e h.0, update_where-All p f rs keeps h.1)
  ]

  -- An update after which all rows have a property: those that it changes, and the others.
  pub update_where-settles :
      (p : A → Bool) (f : A → A) (rs : List A)
      → ((r : A) → p r ≡ true → P (f r))
      → ((r : A) → p r ≡ false → P r)
      → All P (update_where p f rs)
  unfolding update_where
  update_where-settles p f [] changed kept = tt
  update_where-settles p f (r ∷ rs) changed kept = elim (Bool-cases (p r)) [
    | inl e ↦ (rw e (changed r e), update_where-settles p f rs changed kept)
    | inr e ↦ (rw e (kept r e), update_where-settles p f rs changed kept)
  ]

  pub All-append : (rs ts : List A) → All P rs → All P ts → All P (rs ++ ts)
  All-append [] ts h k = k
  All-append (r ∷ rs) ts h k = (h.0, All-append rs ts h.1 k)

-- The rows that are left are those that the deletion does not name.
pub delete_where-All {ℓ} :
    {A : Type ℓ} (p : A → Bool) (rs : List A) → All (λ r. p r ≡ false) (delete_where p rs)
unfolding delete_where
delete_where-All p [] = tt
delete_where-All p (r ∷ rs) = elim (Bool-cases (p r)) [
  | inl e ↦ rw e (delete_where-All p rs)
  | inr e ↦ rw e (e, delete_where-All p rs)
]

module _ {ℓ} {A : Type ℓ} (key : A → Bool) where
  abbrev on_found : (A → Bool) → (A → A) → Option A → Option A
  on_found p f none = none
  on_found p f (some r) = some (if p r then f r else r)

  -- What a lookup finds after an update that keeps the key.
  pub find-update_where :
      (p : A → Bool) (f : A → A) (rs : List A)
      → ((r : A) → key (f r) ≡ key r)
      → find key (update_where p f rs) ≡ on_found p f (find key rs)
  unfolding update_where
  find-update_where p f [] keeps = refl
  find-update_where p f (r ∷ rs) keeps = ground (arith, keeps r, find-update_where p f rs keeps)

  -- A row that is found stays found when rows are added behind it.
  pub find-append_some :
      (rs ts : List A) (r : A) → find key rs ≡ some r → find key (rs ++ ts) ≡ some r
  find-append_some [] ts r h = cc
  find-append_some (x ∷ rs) ts r h = ground (arith, find-append_some rs ts r)

  pub any-update_where :
      (p : A → Bool) (f : A → A) (rs : List A)
      → ((r : A) → key (f r) ≡ key r)
      → any key (update_where p f rs) ≡ any key rs
  unfolding update_where
  any-update_where p f [] keeps = refl
  any-update_where p f (r ∷ rs) keeps = ground (arith, keeps r, any-update_where p f rs keeps)
