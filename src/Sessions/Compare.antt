-- ===== src/Sessions/Compare.antt =====
-- The comparison of tokens (crates/server/src/csrf.rs, `constant_time_eq`).
use Prim.Native.Nat.{bit_or, bit_or-bitwise, bit_xor, bit_xor-bitwise, bitwise, differ, digits}
use toot_tok.Common.{
  ℕ, zero, suc, ◌/◌, ◌%◌, ◌≤◌, max, ◌≡◌, ◌↔◌, refl, sym, ap, ◌∙◌, true, [], ◌∷◌, arith, Bool-cases,
  inl, inr, length, ◌==◌, ==_iff, ==_refl,
}
use toot_tok.Common.Text.{Text}
use toot_tok.Sessions.{fold_diff, constant_time_eq}

differ_zero : (a b : ℕ) → differ a b ≡ 0 → a ≡ b
differ_zero zero b h = sym h
differ_zero (suc a) zero h = h
differ_zero (suc a) (suc b) h = ap suc (differ_zero a b h)

differ_same : (a : ℕ) → differ a a ≡ 0
differ_same zero = refl
differ_same (suc a) = differ_same a

xor_zero-digits : (n a b : ℕ) → a ≤ n → digits (λ b. b) differ n a b ≡ 0 → a ≡ b
xor_zero-digits zero a b small h = ground (arith, h)
xor_zero-digits (suc n) zero b small h = sym h
xor_zero-digits (suc n) (suc a) b small h =
    let x = digits (λ b. b) differ n (suc a / 2) (b / 2) in
    let halves : suc a / 2 ≡ b / 2 =
      xor_zero-digits n (suc a / 2) (b / 2) (omega arith) (omega (arith, h)) in
    let rests : suc a % 2 ≡ b % 2 = differ_zero (suc a % 2) (b % 2) (omega (arith, h)) in
    omega arith

xor_same-digits : (n a : ℕ) → a ≤ n → digits (λ b. b) differ n a a ≡ 0
xor_same-digits zero a small = omega arith
xor_same-digits (suc n) zero small = refl
xor_same-digits (suc n) (suc a) small =
    rw (xor_same-digits n (suc a / 2) (omega arith), differ_same (suc a % 2)) refl

or_zero-digits : (n a b : ℕ) → a ≤ n → digits (λ b. b) max n a b ≡ 0 → (a ≡ 0) × (b ≡ 0)
or_zero-digits zero a b small h = (omega arith, h)
or_zero-digits (suc n) zero b small h = (refl, h)
or_zero-digits (suc n) (suc a) b small h =
    let halves = or_zero-digits n (suc a / 2) (b / 2) (omega arith) (omega (arith, h)) in
    let rests : max (suc a % 2) (b % 2) ≡ 0 = omega (arith, h) in
    (omega (arith, halves.0, rests), omega (arith, halves.1, rests))

xor_zero : (a b : ℕ) → bit_xor a b ≡ 0 → a ≡ b
xor_zero a b h =
    let e : bit_xor a b ≡ bitwise (λ b. b) differ a b = λ i. bit_xor-bitwise a b i in
    xor_zero-digits a a b (omega arith) (sym e ∙ h)

xor_same : (a : ℕ) → bit_xor a a ≡ 0
xor_same a =
    let e : bit_xor a a ≡ bitwise (λ b. b) differ a a = λ i. bit_xor-bitwise a a i in
    e ∙ xor_same-digits a a (omega arith)

or_zero : (a b : ℕ) → bit_or a b ≡ 0 → (a ≡ 0) × (b ≡ 0)
or_zero a b h =
    let e : bit_or a b ≡ bitwise (λ b. b) max a b = λ i. bit_or-bitwise a b i in
    or_zero-digits a a b (omega arith) (sym e ∙ h)

or_same : bit_or 0 0 ≡ 0
or_same = refl

fold_zero :
    (acc : ℕ) (a b : Text) → length a ≡ length b → fold_diff acc a b ≡ 0 → (acc ≡ 0) × (a ≡ b)
unfolding fold_diff
fold_zero acc [] [] same h = (h, refl)
fold_zero acc [] (y ∷ b) same h = cc
fold_zero acc (x ∷ a) [] same h = cc
fold_zero acc (x ∷ a) (y ∷ b) same h =
    let rest = fold_zero (bit_or acc (bit_xor x y)) a b (omega (arith, same)) h in
    let parts = or_zero acc (bit_xor x y) rest.0 in
    let head : x ≡ y = xor_zero x y parts.1 in (parts.0, cc (head, rest.1))

fold_same : (a : Text) → fold_diff 0 a a ≡ 0
unfolding fold_diff
fold_same [] = refl
fold_same (x ∷ a) = rw (xor_same x, or_same) (fold_same a)

-- The comparison that looks at every byte accepts exactly the equal texts.
pub constant_time_eq_iff : (a b : Text) → (constant_time_eq a b ≡ true) ↔ (a ≡ b)
unfolding constant_time_eq
constant_time_eq_iff a b = (
  (λ h. elim (Bool-cases (length a == length b)) [
    | inl e ↦ (fold_zero 0 a b ((==_iff _ _).0 e) (ground (arith, e, h))).1
    | inr e ↦ ground (arith, e, h)
  ]),
  (λ e. rw (sym e, ==_refl (length a), fold_same a) refl),
)
