-- ===== src/Base/Sorting.antt =====
-- `ORDER BY`: insertion sort by a test `before`. Rows that tie stay in table order.
use macqueue.Base.{Bool, List, [], ◌∷◌, if◌then◌else◌, Bool-cases, inl, inr, ◌≡◌, true, false}
use macqueue.Base.Lists.{All, All-if, All-map}

module _ {ℓ} {A : Type ℓ} (before : A → A → Bool) where
  -- In front of the first entry that must not come before it.
  unfoldable pub insert : A → List A → List A
  insert a [] = a ∷ []
  insert a (x ∷ xs) = if before x a then x ∷ insert a xs else a ∷ x ∷ xs

  unfoldable pub sort_by : List A → List A
  unfolding insert
  sort_by [] = []
  sort_by (x ∷ xs) = insert x (sort_by xs)

  pub All-insert {κ} : (P : A → Type κ) (a : A) (xs : List A) → P a → All P xs → All P (insert a xs)
  unfolding insert
  All-insert P a [] h k = (h, tt)
  All-insert P a (x ∷ xs) h k =
      All-if P (before x a) (x ∷ insert a xs) (a ∷ x ∷ xs) (k.0, All-insert P a xs h k.1) (h, k)

  pub All-sort_by {κ} : (P : A → Type κ) (xs : List A) → All P xs → All P (sort_by xs)
  unfolding sort_by
  All-sort_by P [] h = tt
  All-sort_by P (x ∷ xs) h = All-insert P x (sort_by xs) h.0 (All-sort_by P xs h.1)

  pub All-of_insert {κ} :
      (P : A → Type κ) (a : A) (xs : List A) → All P (insert a xs) → P a × All P xs
  unfolding insert
  All-of_insert P a [] h = (h.0, tt)
  All-of_insert P a (x ∷ xs) h = elim (Bool-cases (before x a)) [
    | inl past ↦
        let inner : P x × All P (insert a xs) = rw past at h in
        let rest = All-of_insert P a xs inner.1 in (rest.0, (inner.0, rest.1))
    | inr here ↦ let inner : P a × All P (x ∷ xs) = rw here at h in (inner.0, inner.1)
  ]

  -- Sorting loses nothing.
  pub All-of_sort_by {κ} : (P : A → Type κ) (xs : List A) → All P (sort_by xs) → All P xs
  unfolding sort_by
  All-of_sort_by P [] h = tt
  All-of_sort_by P (x ∷ xs) h =
      let parts = All-of_insert P x (sort_by xs) h in (parts.0, All-of_sort_by P xs parts.1)

  -- No entry must come before an earlier one.
  abbrev pub IsSorted : List A → Type 0
  IsSorted [] = Unit {0}
  IsSorted (x ∷ xs) = All (λ y. before y x ≡ false) xs × IsSorted xs

module _ {ℓ} {A : Type ℓ} (before : A → A → Bool)
    (asym : (a b : A) → before a b ≡ true → before b a ≡ false)
    (through : (a b c : A) → before a b ≡ false → before b c ≡ false → before a c ≡ false) where
  insert-IsSorted :
      (a : A) (xs : List A) → IsSorted before xs → IsSorted before (insert before a xs)
  unfolding insert
  insert-IsSorted a [] s = (tt, tt)
  insert-IsSorted a (x ∷ xs) s = elim (Bool-cases (before x a)) [
    | inl past ↦ rw past (
      All-insert before (λ y. before y x ≡ false) a xs (asym x a past) s.0,
      insert-IsSorted a xs s.1,
    )
    | inr here ↦ rw here ((here, All-map xs (λ y h. through y x a h here) s.0), s)
  ]

  pub sort_by-IsSorted : (xs : List A) → IsSorted before (sort_by before xs)
  unfolding sort_by
  sort_by-IsSorted [] = tt
  sort_by-IsSorted (x ∷ xs) = insert-IsSorted x (sort_by before xs) (sort_by-IsSorted xs)
