-- ===== src/Base/Results.antt =====
-- Python's exceptions as values. A function that may raise returns a `Result`.
use Prim.Native.String.{String}
use mathlib.Core.Path.{◌≡◌, refl, subst}
use mathlib.Core.Logic.{◌⊎◌, inl, inr}
use mathlib.Core.Bool.{Bool, true, false}

-- `invalid` is common.py's `Invalid`; `integrity` is sqlite3's `IntegrityError`; `os_error` is that of a
-- file that cannot be opened or written; `runtime` is `RuntimeError`.
pub data Error : Type 0 where
  invalid key_error runtime : String → Error
  type_error value_error integrity os_error : Error

-- The value returned or the exception raised.
pub data Result {ℓ} (T : Type ℓ) : Type ℓ where
  err : Error → Result T
  ok : T → Result T

module _ {ℓ κ} {S : Type ℓ} {T : Type κ} where
  infixl 5 ◌>>=◌
  abbrev pub ◌>>=◌ : Result S → (S → Result T) → Result T
  err raised >>= next = err raised
  ok value >>= next = next value

  -- What a block that returned computed on its way.
  pub >>=-eq-ok :
      (first : Result S) (next : S → Result T) {t : T}
      → (first >>= next) ≡ ok t
      → (s : S) × (first ≡ ok s) × (next s ≡ ok t)
  >>=-eq-ok (err raised) next returned = cc
  >>=-eq-ok (ok value) next returned = (value, refl, returned)

  -- The state that a transaction commits.
  pub ok-second :
      (s s' : S) (t t' : T) → ◌≡◌ {A = Result (S × T)} (ok (s, t)) (ok (s', t')) → t ≡ t'
  ok-second s s' t t' same = cc

-- `require` of common.py: `raise Invalid(message)` unless the condition holds.
abbrev pub require : Bool → String → Result (Unit {0})
require true message = ok tt
require false message = err (invalid message)

module _ {ℓ} {T : Type ℓ} where
  infixl 5 ◌>>◌
  abbrev pub ◌>>◌ : Result (Unit {0}) → Result T → Result T
  err raised >> next = err raised
  ok _ >> next = next

  pub Result-cases : (r : Result T) → ((t : T) × (r ≡ ok t)) ⊎ ((raised : Error) × (r ≡ err raised))
  Result-cases (err raised) = inr (raised, refl)
  Result-cases (ok value) = inl (value, refl)

  pub >>-eq-ok :
      (first : Result (Unit {0})) (next : Result T) {t : T}
      → (first >> next) ≡ ok t
      → (first ≡ ok tt) × (next ≡ ok t)
  >>-eq-ok (err raised) next returned = cc
  >>-eq-ok (ok tt) next returned = (refl, returned)

  pub require-eq-ok :
      (holds : Bool) (message : String) (next : Result T) {t : T}
      → (require holds message >> next) ≡ ok t
      → (holds ≡ true) × (next ≡ ok t)
  require-eq-ok false message next returned = cc
  require-eq-ok true message next returned = (refl, returned)

  pub ok_injective : (t t' : T) → ◌≡◌ {A = Result T} (ok t) (ok t') → t ≡ t'
  ok_injective t t' same = cc

pub require-true : (holds : Bool) (message : String) → require holds message ≡ ok tt → holds ≡ true
require-true false message returned = cc
require-true true message returned = refl

-- What holds of the value, if one is returned.
abbrev pub Gives {ℓ} : {T : Type ℓ} → (T → Type 0) → Result T → Type 0
Gives P (err raised) = Unit
Gives P (ok value) = P value

module _ {ℓ} {T : Type ℓ} (P : T → Type 0) where
  pub >>=-Gives {κ} :
      {S : Type κ} (first : Result S) (next : S → Result T)
      → ((s : S) → first ≡ ok s → Gives P (next s))
      → Gives P (first >>= next)
  >>=-Gives (err raised) next h = tt
  >>=-Gives (ok value) next h = h value refl

  pub >>-Gives :
      (first : Result (Unit {0})) (next : Result T)
      → (first ≡ ok tt → Gives P next)
      → Gives P (first >> next)
  >>-Gives (err raised) next h = tt
  >>-Gives (ok tt) next h = h refl

  pub require-Gives :
      (holds : Bool) (message : String) (next : Result T)
      → (holds ≡ true → Gives P next)
      → Gives P (require holds message >> next)
  require-Gives false message next h = tt
  require-Gives true message next h = h refl

  pub Gives-value : (r : Result T) (t : T) → Gives P r → r ≡ ok t → P t
  Gives-value (err raised) t h returned = cc
  Gives-value (ok value) t h returned =
      let same : value ≡ t = ok_injective value t returned in subst P same h

pub Gives-map {ℓ} :
    {T : Type ℓ} (P Q : T → Type 0) (r : Result T) → Gives P r → ((t : T) → P t → Q t) → Gives Q r
Gives-map P Q (err raised) h k = tt
Gives-map P Q (ok value) h k = k value h

pub Gives-from {ℓ} :
    {T : Type ℓ} (P : T → Type 0) (r : Result T) → ((t : T) → r ≡ ok t → P t) → Gives P r
Gives-from P (err raised) h = tt
Gives-from P (ok value) h = h value refl
