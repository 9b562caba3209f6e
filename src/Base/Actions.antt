-- ===== src/Base/Actions.antt =====
-- Methods that change a state and may raise. What was changed before an exception stays changed.
use macqueue.Base.Results.{Result, err, ok, runtime}
use Prim.Native.String.{String}
use mathlib.Core.Path.{◌≡◌, refl, sym, subst}
use mathlib.Core.Bool.{Bool, true, false}
use mathlib.Core.List.{List, [], ◌∷◌}

abbrev pub Action : Type 0 → Type 0 → Type 0
Action S A = S → Result A × S

abbrev pub checked : Bool → String → Result (Unit {0})
checked true message = ok tt
checked false message = err (runtime message)

module _ {S : Type 0} where
  abbrev pub next : {A B : Type 0} → Result A × S → (A → Action S B) → Result B × S
  next (err raised, s) f = (err raised, s)
  next (ok a, s) f = f a s

  infixl 5 ◌>>=◌ ◌>>◌
  unfoldable pub ◌>>=◌ : {A B : Type 0} → Action S A → (A → Action S B) → Action S B
  (m >>= f) s = next (m s) f

  unfoldable pub ◌>>◌ : {B : Type 0} → Action S (Unit {0}) → Action S B → Action S B
  (m >> k) s = next (m s) (λ _. k)

  unfoldable pub return : {A : Type 0} → A → Action S A
  return a s = (ok a, s)

  -- A computation that reads nothing of the state.
  unfoldable pub lift : {A : Type 0} → Result A → Action S A
  lift r s = (r, s)

  unfoldable pub reads : {A : Type 0} → (S → A) → Action S A
  reads f s = (ok (f s), s)

  unfoldable pub modify : (S → S) → Action S (Unit {0})
  modify f s = (ok tt, f s)

  -- `require` of update.py and update_module.py, which raises `RuntimeError`.
  unfoldable pub check : Bool → String → Action S (Unit {0})
  check holds message s = (checked holds message, s)

  -- A for loop whose body may raise.
  unfoldable pub for_each : {A : Type 0} → (A → Action S (Unit {0})) → List A → Action S (Unit {0})
  for_each f [] s = (ok tt, s)
  for_each f (a ∷ rest) s = next (f a s) (λ _. for_each f rest)

-- How a method ends: with `E` of the state where it raises, with `Q` of its result and the state where
-- it returns.
abbrev pub Ends : {S A : Type 0} → (S → Type 0) → (A → S → Type 0) → Result A × S → Type 0
Ends E Q (err raised, s) = E s
Ends E Q (ok a, s) = Q a s

module _ {S : Type 0} (E : S → Type 0) where
  pub next-Ends :
      {A B : Type 0} (Q : A → S → Type 0) (R : B → S → Type 0) (r : Result A × S)
      (f : A → Action S B)
      → Ends E Q r
      → ((a : A) (t : S) → Q a t → Ends E R (f a t))
      → Ends E R (next r f)
  next-Ends Q R (err raised, s) f h k = h
  next-Ends Q R (ok a, s) f h k = k a s h

  module _ {B : Type 0} (R : B → S → Type 0) where
    pub >>=-Ends :
        {A : Type 0} (Q : A → S → Type 0) (m : Action S A) (f : A → Action S B) (s : S)
        → Ends E Q (m s)
        → ((a : A) (t : S) → Q a t → Ends E R (f a t))
        → Ends E R ((m >>= f) s)
    unfolding ◌>>=◌
    >>=-Ends Q m f s h k = next-Ends Q R (m s) f h k

    pub >>-Ends :
        (Q : S → Type 0) (m : Action S (Unit {0})) (k : Action S B) (s : S)
        → Ends E (λ _. Q) (m s)
        → ((t : S) → Q t → Ends E R (k t))
        → Ends E R ((m >> k) s)
    unfolding ◌>>◌
    >>-Ends Q m k s h g = next-Ends (λ _. Q) R (m s) (λ _. k) h (λ _. g)

    pub check-Ends :
        (holds : Bool) (message : String) (k : Action S B) (s : S)
        → E s
        → (holds ≡ true → Ends E R (k s))
        → Ends E R ((check holds message >> k) s)
    unfolding ◌>>◌ check
    check-Ends true message k s e h = h refl
    check-Ends false message k s e h = e

    pub lift-Ends :
        {A : Type 0} (r : Result A) (f : A → Action S B) (s : S)
        → E s
        → ((a : A) → r ≡ ok a → Ends E R (f a s))
        → Ends E R ((lift r >>= f) s)
    unfolding ◌>>=◌ lift
    lift-Ends (err raised) f s e h = e
    lift-Ends (ok a) f s e h = h a refl

    pub reads-Ends :
        {A : Type 0} (g : S → A) (f : A → Action S B) (s : S)
        → Ends E R (f (g s) s)
        → Ends E R ((reads g >>= f) s)
    unfolding ◌>>=◌ reads
    reads-Ends g f s h = h

    pub modify-Ends :
        (g : S → S) (k : Action S B) (s : S) → Ends E R (k (g s)) → Ends E R ((modify g >> k) s)
    unfolding ◌>>◌ modify
    modify-Ends g k s h = h

    pub return-Ends : (b : B) (s : S) → R b s → Ends E R (return b s)
    unfolding return
    return-Ends b s h = h

  pub for_each-Ends :
      {A : Type 0} (I : S → Type 0) (f : A → Action S (Unit {0})) (xs : List A) (s : S)
      → I s
      → ((a : A) (t : S) → I t → Ends E (λ _. I) (f a t))
      → Ends E (λ _. I) (for_each f xs s)
  unfolding for_each
  for_each-Ends I f [] s h k = h
  for_each-Ends I f (a ∷ rest) s h k =
      next-Ends (λ _. I) (λ _. I) (f a s) (λ _. for_each f rest) (k a s h)
        (λ _ t i. for_each-Ends I f rest t i k)

-- Parts that leave the state as it is.
module _ {S : Type 0} (s : S) where
  next-unchanged :
      {A B : Type 0} (r : Result A × S) (f : A → Action S B)
      → r.1 ≡ s
      → ((a : A) → (f a s).1 ≡ s)
      → (next r f).1 ≡ s
  next-unchanged (err raised, t) f h k = h
  next-unchanged (ok a, t) f h k = subst (λ u. (f a u).1 ≡ s) (sym h) (k a)

  pub >>=-unchanged :
      {A B : Type 0} (m : Action S A) (f : A → Action S B)
      → (m s).1 ≡ s
      → ((a : A) → (f a s).1 ≡ s)
      → ((m >>= f) s).1 ≡ s
  unfolding ◌>>=◌
  >>=-unchanged m f h k = next-unchanged (m s) f h k

  pub >>-unchanged :
      {B : Type 0} (m : Action S (Unit {0})) (k : Action S B)
      → (m s).1 ≡ s
      → (k s).1 ≡ s
      → ((m >> k) s).1 ≡ s
  unfolding ◌>>◌
  >>-unchanged m k h g = next-unchanged (m s) (λ _. k) h (λ _. g)

  pub check-unchanged : (holds : Bool) (message : String) → (check holds message s).1 ≡ s
  unfolding check
  check-unchanged holds message = refl

  pub lift-unchanged : {A : Type 0} (r : Result A) → (lift r s).1 ≡ s
  unfolding lift
  lift-unchanged r = refl

  pub reads-unchanged : {A : Type 0} (f : S → A) → (reads f s).1 ≡ s
  unfolding reads
  reads-unchanged f = refl

  pub return-unchanged : {A : Type 0} (a : A) → (return a s).1 ≡ s
  unfolding return
  return-unchanged a = refl

  pub for_each-unchanged :
      {A : Type 0} (f : A → Action S (Unit {0})) (xs : List A)
      → ((a : A) → (f a s).1 ≡ s)
      → (for_each f xs s).1 ≡ s
  unfolding for_each
  for_each-unchanged f [] h = refl
  for_each-unchanged f (a ∷ rest) h =
      next-unchanged (f a s) (λ _. for_each f rest) (h a) (λ _. for_each-unchanged f rest h)

pub Ends-unchanged :
    {S A : Type 0} (E : S → Type 0) (r : Result A × S) {s : S}
    → r.1 ≡ s
    → E s
    → Ends E (λ _ t. t ≡ s) r
Ends-unchanged E (err raised, t) h e = subst E (sym h) e
Ends-unchanged E (ok a, t) h e = h

-- A part that only looks, with what is then known of its result.
module _ {S B : Type 0} (E : S → Type 0) (R : B → S → Type 0) where
  pub looks-Ends :
      {A : Type 0} (Q : A → Type 0) (m : Action S A) (f : A → Action S B) (s : S)
      → Ends E (λ a t. (t ≡ s) × Q a) (m s)
      → ((a : A) → Q a → Ends E R (f a s))
      → Ends E R ((m >>= f) s)
  looks-Ends Q m f s h k =
      >>=-Ends E R (λ a t. (t ≡ s) × Q a) m f s h
        (λ a t q. subst (λ u. Ends E R (f a u)) (sym q.0) (k a q.1))

  pub looks_then-Ends :
      (Q : Type 0) (m : Action S (Unit {0})) (k : Action S B) (s : S)
      → Ends E (λ _ t. (t ≡ s) × Q) (m s)
      → (Q → Ends E R (k s))
      → Ends E R ((m >> k) s)
  looks_then-Ends Q m k s h g =
      >>-Ends E R (λ t. (t ≡ s) × Q) m k s h (λ t q. subst (λ u. Ends E R (k u)) (sym q.0) (g q.1))

  pub skip-Ends :
      {A : Type 0} (m : Action S A) (f : A → Action S B) (s : S)
      → E s
      → (m s).1 ≡ s
      → ((a : A) → Ends E R (f a s))
      → Ends E R ((m >>= f) s)
  skip-Ends m f s e same k =
      >>=-Ends E R (λ _ t. t ≡ s) m f s (Ends-unchanged E (m s) same e)
        (λ a t q. subst (λ u. Ends E R (f a u)) (sym q) (k a))

  pub skip_then-Ends :
      (m : Action S (Unit {0})) (k : Action S B) (s : S)
      → E s
      → (m s).1 ≡ s
      → Ends E R (k s)
      → Ends E R ((m >> k) s)
  skip_then-Ends m k s e same g =
      >>-Ends E R (λ t. t ≡ s) m k s (Ends-unchanged E (m s) same e)
        (λ t q. subst (λ u. Ends E R (k u)) (sym q) g)

pub Ends-map :
    {S A : Type 0} (E F : S → Type 0) (Q R : A → S → Type 0) (r : Result A × S)
    → Ends E Q r
    → ((t : S) → E t → F t)
    → ((a : A) (t : S) → Q a t → R a t)
    → Ends F R r
Ends-map E F Q R (err raised, s) h e k = e s h
Ends-map E F Q R (ok a, s) h e k = k a s h

-- What holds of the state however a method ends.
pub Ends-either : {S A : Type 0} (E : S → Type 0) (r : Result A × S) → Ends E (λ _. E) r → E r.1
Ends-either E (err raised, s) h = h
Ends-either E (ok a, s) h = h
