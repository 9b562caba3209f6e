-- ===== src/Json/Equality.antt =====
-- Equality of encoded JSON: two values have one text exactly when they are the same value, order
-- of the fields included.
use macqueue.Base.{
  ◌≡◌, refl, ap, Bool, true, false, ◌&&◌, arith, ◌==◌, nat_eq, string_eq, ==_refl, eq_of_==,
  &&-eq-true,
}
use mathlib.Core.Path.{ap₂}
use macqueue.Base.Int.{int_eq}
use macqueue.Json.{Json, null, bool, int, real, str, arr, obj, Items, nil, cons, Fields, end, field}

bool_eqb : Bool → Bool → Bool
bool_eqb true b = b
bool_eqb false true = false
bool_eqb false false = true

-- `json_bytes(a) == json_bytes(b)`
unfoldable mutual
  unfolding bool_eqb

  pub same_text : Json → Json → Bool
  same_text null null = true
  same_text (bool a) (bool b) = bool_eqb a b
  same_text (int n) (int m) = n == m
  same_text (real v) (real w) = v == w
  same_text (str s) (str t) = s == t
  same_text (arr xs) (arr ys) = same_items xs ys
  same_text (obj fs) (obj gs) = same_fields fs gs
  same_text _ _ = false

  pub same_items : Items → Items → Bool
  same_items nil nil = true
  same_items (cons x xs) (cons y ys) = same_text x y && same_items xs ys
  same_items _ _ = false

  pub same_fields : Fields → Fields → Bool
  same_fields end end = true
  same_fields (field k v fs) (field j w gs) = k == j && same_text v w && same_fields fs gs
  same_fields _ _ = false

mutual
  unfolding same_text

  refl_text : (a : Json) → same_text a a ≡ true
  refl_text null = refl
  refl_text (bool true) = refl
  refl_text (bool false) = refl
  refl_text (int n) = ==_refl n
  refl_text (real w) = ==_refl w
  refl_text (str s) = ==_refl s
  refl_text (arr xs) = refl_items xs
  refl_text (obj fs) = refl_fields fs

  refl_items : (xs : Items) → same_items xs xs ≡ true
  refl_items nil = refl
  refl_items (cons x xs) = rw (refl_text x) (refl_items xs)

  refl_fields : (fs : Fields) → same_fields fs fs ≡ true
  refl_fields end = refl
  refl_fields (field k v fs) = rw (==_refl k) (rw (refl_text v) (refl_fields fs))

pub same_text_refl : (a : Json) → same_text a a ≡ true
same_text_refl a = refl_text a

bool_eqb_sound : (a b : Bool) → bool_eqb a b ≡ true → a ≡ b
unfolding bool_eqb
bool_eqb_sound a b h = ground arith

mutual
  unfolding same_text

  text_sound : (a b : Json) → same_text a b ≡ true → a ≡ b
  text_sound null null h = refl
  text_sound (bool a) (bool b) h = ap bool (bool_eqb_sound a b h)
  text_sound (int n) (int m) h = ap int (eq_of_== n m h)
  text_sound (real v) (real w) h = ap real (eq_of_== v w h)
  text_sound (str s) (str t) h = ap str (eq_of_== s t h)
  text_sound (arr xs) (arr ys) h = ap arr (items_sound xs ys h)
  text_sound (obj fs) (obj gs) h = ap obj (fields_sound fs gs h)
  text_sound _ _ h = cc

  items_sound : (xs ys : Items) → same_items xs ys ≡ true → xs ≡ ys
  items_sound nil nil h = refl
  items_sound (cons x xs) (cons y ys) h =
      let both = &&-eq-true (same_text x y) (same_items xs ys) h in
      ap₂ cons (text_sound x y both.0) (items_sound xs ys both.1)
  items_sound _ _ h = cc

  fields_sound : (fs gs : Fields) → same_fields fs gs ≡ true → fs ≡ gs
  fields_sound end end h = refl
  fields_sound (field k v fs) (field j w gs) h =
      let both = &&-eq-true (k == j && same_text v w) (same_fields fs gs) h in
      let first = &&-eq-true (k == j) (same_text v w) both.0 in
      cc (eq_of_== k j first.0, text_sound v w first.1, fields_sound fs gs both.1)
  fields_sound _ _ h = cc

pub same_text_sound : (a b : Json) → same_text a b ≡ true → a ≡ b
same_text_sound a b h = text_sound a b h
