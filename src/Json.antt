-- ===== src/Json.antt =====
-- JSON values, as `json.loads` makes them and Python's `==` and `json.dumps` read them.
-- A column that holds encoded JSON is modelled by the value that its text encodes.
pub mod Equality
use macqueue.Base.{
  ◌≡◌, refl, ℕ, ◌*◌, ◌^◌, ◌+◌, ◌-◌, ◌/◌, ◌%◌, max, suc, String, Bool, true, false, not, ◌&&◌, ◌||◌,
  Option, none, some, List, [], ◌∷◌, ◌==◌, nat_eq, string_eq, if◌then◌else◌, Result, ok, err,
  key_error, type_error,
}
use macqueue.Base.Int.{ℤ, pos, negsuc, int_eq}

-- `real w` is the float whose IEEE 754 double pattern is `w`. The fields of an object stand in
-- insertion order, their keys distinct.
mutual
  pub data Json : Type 0 where
    null : Json
    bool : Bool → Json
    int : ℤ → Json
    real : ℕ → Json
    str : String → Json
    arr : Items → Json
    obj : Fields → Json

  pub data Items : Type 0 where
    nil : Items
    cons : Json → Items → Items

  pub data Fields : Type 0 where
    end : Fields
    field : String → Json → Fields → Fields

abbrev pub to_list : Items → List Json
to_list nil = []
to_list (cons j js) = j ∷ to_list js

abbrev pub from_list : List Json → Items
from_list [] = nil
from_list (j ∷ js) = cons j (from_list js)

-- `value.get(key)`, `key in value`, the keys and the items of a dict.
abbrev pub lookup : String → Fields → Option Json
lookup k end = none
lookup k (field j v fs) = if j == k then some v else lookup k fs

abbrev pub entries : Fields → List (String × Json)
entries end = []
entries (field k v fs) = (k, v) ∷ entries fs

abbrev pub key_names : Fields → List String
key_names end = []
key_names (field k v fs) = k ∷ key_names fs

abbrev pub count_fields : Fields → ℕ
count_fields end = 0
count_fields (field k v fs) = suc (count_fields fs)

abbrev pub or_key_error : String → Option Json → Result Json
or_key_error k none = err (key_error k)
or_key_error k (some v) = ok v

-- `value[key]` for a text key.
abbrev pub get_item : Json → String → Result Json
get_item (obj fs) k = or_key_error k (lookup k fs)
get_item _ k = err type_error

-- Exponent, fraction and sign of a double, and its comparison with an integer.
abbrev exponent_bits : ℕ → ℕ
exponent_bits w = w / 2 ^ 52 % 2 ^ 11

abbrev significand : ℕ → ℕ
significand w = w % 2 ^ 52 + (if exponent_bits w == 0 then 0 else 2 ^ 52)

-- The magnitude times 2 ^ 1074, which is a whole number.
abbrev scaled : ℕ → ℕ
scaled w = significand w * 2 ^ (max (exponent_bits w) 1 - 1)

is_finite : ℕ → Bool
is_finite w = not (exponent_bits w == 2047)

is_nan : ℕ → Bool
is_nan w = exponent_bits w == 2047 && not (w % 2 ^ 52 == 0)

int_eq_real : ℤ → ℕ → Bool
unfolding is_finite
int_eq_real (pos n) w = is_finite w && (n == 0 || w / 2 ^ 63 % 2 == 0) && scaled w == n * 2 ^ 1074
int_eq_real (negsuc n) w = is_finite w && w / 2 ^ 63 % 2 == 1 && scaled w == suc n * 2 ^ 1074

real_eq_real : ℕ → ℕ → Bool
unfolding is_nan
real_eq_real v w = not (is_nan v) && (v == w || v % 2 ^ 63 == 0 && w % 2 ^ 63 == 0)

abbrev of_bool : Bool → ℤ
of_bool true = pos 1
of_bool false = pos 0

-- Python's `==`: numbers by value, `True == 1`, dicts without order.
unfoldable mutual
  unfolding int_eq_real real_eq_real

  pub py_eq : Json → Json → Bool
  py_eq null null = true
  py_eq (bool a) (bool b) = of_bool a == of_bool b
  py_eq (bool a) (int n) = of_bool a == n
  py_eq (bool a) (real w) = int_eq_real (of_bool a) w
  py_eq (int n) (bool b) = n == of_bool b
  py_eq (int n) (int m) = n == m
  py_eq (int n) (real w) = int_eq_real n w
  py_eq (real v) (bool b) = int_eq_real (of_bool b) v
  py_eq (real v) (int m) = int_eq_real m v
  py_eq (real v) (real w) = real_eq_real v w
  py_eq (str s) (str t) = s == t
  py_eq (arr xs) (arr ys) = items_eq xs ys
  py_eq (obj fs) (obj gs) = count_fields fs == count_fields gs && fields_in fs gs
  py_eq _ _ = false

  pub items_eq : Items → Items → Bool
  items_eq nil nil = true
  items_eq (cons x xs) (cons y ys) = py_eq x y && items_eq xs ys
  items_eq _ _ = false

  pub fields_in : Fields → Fields → Bool
  fields_in end gs = true
  fields_in (field k v fs) gs = elim (lookup k gs) [
    | none ↦ false
    | some w ↦ py_eq v w && fields_in fs gs
  ]

-- What `json.dumps` with `allow_nan=False` encodes: no NaN and no infinity.
unfoldable mutual
  unfolding is_finite

  pub is_encodable : Json → Bool
  is_encodable (real w) = is_finite w
  is_encodable (arr xs) = are_encodable xs
  is_encodable (obj fs) = are_fields_encodable fs
  is_encodable _ = true

  pub are_encodable : Items → Bool
  are_encodable nil = true
  are_encodable (cons x xs) = is_encodable x && are_encodable xs

  pub are_fields_encodable : Fields → Bool
  are_fields_encodable end = true
  are_fields_encodable (field k v fs) = is_encodable v && are_fields_encodable fs

one_is_true : py_eq (int (pos 1)) (bool true) ≡ true
unfolding py_eq
one_is_true = refl

-- 0x3ff8… is 1.5, 0x4000… is 2.0.
two_is_two :
    (py_eq (real 0x4000000000000000) (int (pos 2)) ≡ true)
    × (py_eq (real 0x3ff8000000000000) (int (pos 2)) ≡ false)
unfolding py_eq
two_is_two = (refl, refl)
