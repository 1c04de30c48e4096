-- ===== src/Json.antt =====
-- JSON values (`serde_json::Value`) and the accessors that the code uses. An object's keys are
-- distinct, and a number is an integer or keeps the text of its decimal fraction.
use toot_tok.Common.{ℕ, ◌^◌, ltb, if◌then◌else◌, Bool, Option, none, some, List, [], ◌∷◌, String}
use toot_tok.Common.Text.{Text, codes, text_eq}

-- `negsuc n` is -(n + 1).
pub data ℤ : Type 0 where
  pos : ℕ → ℤ
  negsuc : ℕ → ℤ

-- Whether the number fits a signed integer of w + 1 bits.
abbrev pub fits_signed : ℕ → ℤ → Bool
fits_signed w (pos n) = ltb n (2 ^ w)
fits_signed w (negsuc n) = ltb n (2 ^ w)

mutual
  pub data Value : Type 0 where
    null : Value
    boolean : Bool → Value
    integer : ℤ → Value
    decimal : Text → Value
    string : Text → Value
    array : Items → Value
    object : Fields → Value

  pub data Fields : Type 0 where
    end : Fields
    field : Text → Value → Fields → Fields

  pub data Items : Type 0 where
    nil : Items
    cons : Value → Items → Items

unfoldable pub get_field : Fields → Text → Option Value
get_field end key = none
get_field (field k v fs) key = if text_eq k key then some v else get_field fs key

-- `Value::get` with a key.
unfoldable pub get : Value → Text → Option Value
unfolding get_field
get (object fs) key = get_field fs key
get _ key = none

abbrev pub and_then {ℓ κ} : {A : Type ℓ} {B : Type κ} → Option A → (A → Option B) → Option B
and_then none f = none
and_then (some a) f = f a

abbrev pub as_str : Value → Option Text
as_str (string s) = some s
as_str _ = none

abbrev pub as_bool : Value → Option Bool
as_bool (boolean b) = some b
as_bool _ = none

abbrev pub as_i64 : Value → Option ℤ
as_i64 (integer z) = if fits_signed 63 z then some z else none
as_i64 _ = none

-- A field of an object, when it is a string.
abbrev pub str_field : Value → String → Option Text
str_field v key = and_then (get v (codes key)) as_str

-- `filter(|s| !s.is_empty())`.
abbrev pub non_empty : Option Text → Option Text
non_empty none = none
non_empty (some []) = none
non_empty (some (c ∷ s)) = some (c ∷ s)

abbrev pub object_of : List (Text × Value) → Fields
object_of [] = end
object_of ((k, v) ∷ fs) = field k v (object_of fs)

-- `json!({ … })`.
abbrev pub json : List (Text × Value) → Value
json fs = object (object_of fs)

abbrev pub items_of : List Value → Items
items_of [] = nil
items_of (v ∷ vs) = cons v (items_of vs)
