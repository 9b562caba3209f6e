-- ===== src/Base/Updates.antt =====
-- What an `UPDATE … WHERE` does where at most one entry passes the test.
use macqueue.Base.{
  ℕ, ◌+◌, ◌≤◌, ◌≡◌, refl, sym, ap, subst, Bool, true, false, none, some, List, [], ◌∷◌, ◌++◌,
  if◌then◌else◌, Bool-cases, inl, inr, arith, ◌||◌, not, ◌∙◌,
}
use mathlib.Core.Option
use macqueue.Base.Lists.{All, count, find, update, any, filter}

-- 1 where the test holds.
abbrev pub weight : Bool → ℕ
weight b = if b then 1 else 0

module _ {ℓ} {A : Type ℓ} (p : A → Bool) (f : A → A) where
  pub update_none : (xs : List A) → count p xs ≡ 0 → update p f xs ≡ xs
  update_none [] h = refl
  update_none (x ∷ xs) h = elim (Bool-cases (p x)) [
    | inl hit ↦ absurd (omega (arith, ap weight hit))
    | inr miss ↦ rw miss (ap (λ r. x ∷ r) (update_none xs (omega arith)))
  ]

  pub All-update_found {κ} :
      (P : A → Type κ) (a : A) (xs : List A)
      → count p xs ≤ 1
      → find p xs ≡ some a
      → P (f a)
      → All P xs
      → All P (update p f xs)
  All-update_found P a [] u e n h = tt
  All-update_found P a (x ∷ xs) u e n h = elim (Bool-cases (p x)) [
    | inl hit ↦
        let same : some x ≡ some a = rw hit at e in
        rw hit
          (subst P (cc) n, subst (All P) (sym (update_none xs (omega (arith, ap weight hit)))) h.1)
    | inr miss ↦
        rw miss (h.0, All-update_found P a xs (omega (arith, ap weight miss)) (rw miss at e) n h.1)
  ]

  -- The count of another test changes by what it says of the one entry.
  pub count-update_found :
      (q : A → Bool) (a : A) (xs : List A)
      → count p xs ≤ 1
      → find p xs ≡ some a
      → count q (update p f xs) + weight (q a) ≡ count q xs + weight (q (f a))
  count-update_found q a [] u e = cc
  count-update_found q a (x ∷ xs) u e = elim (Bool-cases (p x)) [
    | inl hit ↦
        let same : some x ≡ some a = rw hit at e in
        let there : x ≡ a = cc in
        rw hit (rw (update_none xs (omega (arith, ap weight hit)), there) (omega arith))
    | inr miss ↦
        rw miss
          (omega (arith, count-update_found q a xs (omega (arith, ap weight miss)) (rw miss at e)))
  ]

  pub find-update_found :
      (a : A) (xs : List A)
      → p (f a) ≡ true
      → find p xs ≡ some a
      → find p (update p f xs) ≡ some (f a)
  find-update_found a [] t e = cc
  find-update_found a (x ∷ xs) t e = elim (Bool-cases (p x)) [
    | inl hit ↦
        let same : some x ≡ some a = rw hit at e in
        let there : x ≡ a = cc in rw hit (rw there (rw t refl))
    | inr miss ↦ rw miss (rw miss (find-update_found a xs t (rw miss at e)))
  ]

  -- A test that fails on the one entry finds what it found before.
  pub find-update_apart :
      (q : A → Bool) (a : A) (xs : List A)
      → count p xs ≤ 1
      → find p xs ≡ some a
      → q a ≡ false
      → q (f a) ≡ false
      → find q (update p f xs) ≡ find q xs
  find-update_apart q a [] u e no_old no_new = cc
  find-update_apart q a (x ∷ xs) u e no_old no_new = elim (Bool-cases (p x)) [
    | inl hit ↦
        let same : some x ≡ some a = rw hit at e in
        let there : x ≡ a = cc in
        rw hit (rw (update_none xs (omega (arith, ap weight hit)), there, no_old, no_new) refl)
    | inr miss ↦
        let rest =
          find-update_apart q a xs (omega (arith, ap weight miss)) (rw miss at e) no_old no_new in
        rw miss (ap (λ r. if q x then some x else r) rest)
  ]

  pub find_passes : (a : A) (xs : List A) → find p xs ≡ some a → p a ≡ true
  find_passes a [] e = cc
  find_passes a (x ∷ xs) e = elim (Bool-cases (p x)) [
    | inl hit ↦ let same : some x ≡ some a = rw hit at e in subst (λ y. p y ≡ true) (cc) hit
    | inr miss ↦ find_passes a xs (rw miss at e)
  ]

module _ {ℓ κ μ} {A : Type ℓ} (p : A → Bool) (f : A → A) (P : A → Type κ) (Q : A → Type μ) where
  -- Every entry, changed or not.
  pub All-update :
      (xs : List A)
      → ((x : A) → P x → p x ≡ true → Q (f x))
      → ((x : A) → P x → p x ≡ false → Q x)
      → All P xs
      → All Q (update p f xs)
  All-update [] changed kept h = tt
  All-update (x ∷ xs) changed kept h = elim (Bool-cases (p x)) [
    | inl hit ↦ rw hit (changed x h.0 hit, All-update xs changed kept h.1)
    | inr miss ↦ rw miss (kept x h.0 miss, All-update xs changed kept h.1)
  ]

module _ {ℓ} {A : Type ℓ} (p : A → Bool) (f : A → A) (q : A → Bool) where
  pub count-update-le :
      (xs : List A)
      → ((x : A) → p x ≡ true → weight (q (f x)) ≤ weight (q x))
      → count q (update p f xs) ≤ count q xs
  count-update-le [] h = omega arith
  count-update-le (x ∷ xs) h = elim (Bool-cases (p x)) [
    | inl hit ↦ rw hit (omega (arith, h x hit, count-update-le xs h))
    | inr miss ↦ rw miss (omega (arith, count-update-le xs h))
  ]

  pub count-update :
      (xs : List A) → ((x : A) → q (f x) ≡ q x) → count q (update p f xs) ≡ count q xs
  count-update [] h = refl
  count-update (x ∷ xs) h = elim (Bool-cases (p x)) [
    | inl hit ↦ rw hit (rw (h x) (omega (arith, count-update xs h)))
    | inr miss ↦ rw miss (omega (arith, count-update xs h))
  ]

  pub any-update : (xs : List A) → ((x : A) → q (f x) ≡ q x) → any q (update p f xs) ≡ any q xs
  any-update [] h = refl
  any-update (x ∷ xs) h = elim (Bool-cases (p x)) [
    | inl hit ↦ rw hit (rw (h x) (ap (λ r. q x || r) (any-update xs h)))
    | inr miss ↦ rw miss (ap (λ r. q x || r) (any-update xs h))
  ]

  pub find-update :
      (xs : List A)
      → ((x : A) → q (f x) ≡ q x)
      → find q (update p f xs) ≡ Option.map (λ x. if p x then f x else x) (find q xs)
  find-update [] h = refl
  find-update (x ∷ xs) h = ground (arith, h x, find-update xs h)

module _ {ℓ} {A : Type ℓ} (p : A → Bool) where
  pub count_of_any : (xs : List A) → any p xs ≡ false → count p xs ≡ 0
  count_of_any [] h = refl
  count_of_any (x ∷ xs) h = ground (arith, count_of_any xs)

  pub any_of_find : (a : A) (xs : List A) → find p xs ≡ some a → any p xs ≡ true
  any_of_find a [] e = cc
  any_of_find a (x ∷ xs) e = ground (arith, any_of_find a xs)

  pub any-append : (xs ys : List A) → any p (xs ++ ys) ≡ (any p xs || any p ys)
  any-append [] ys = refl
  any-append (x ∷ xs) ys = ground (arith, any-append xs ys)

  pub find_of_any : (xs : List A) → any p xs ≡ false → find p xs ≡ none
  find_of_any [] h = refl
  find_of_any (x ∷ xs) h = ground (arith, find_of_any xs)

  pub find-append :
      (xs ys : List A) → find p (xs ++ ys) ≡ (if any p xs then find p xs else find p ys)
  find-append [] ys = refl
  find-append (x ∷ xs) ys = ground (arith, find-append xs ys)

  pub count_of_find : (xs : List A) → find p xs ≡ none → count p xs ≡ 0
  count_of_find [] e = refl
  count_of_find (x ∷ xs) e = elim (Bool-cases (p x)) [
    | inl hit ↦ let clash : some x ≡ none = rw hit at e in cc
    | inr miss ↦ rw miss (omega (arith, count_of_find xs (rw miss at e)))
  ]

module _ {ℓ} {A : Type ℓ} (p q : A → Bool) where
  pub found_count : (a : A) (xs : List A) → find q xs ≡ some a → p a ≡ true → 1 ≤ count p xs
  found_count a [] e t = cc
  found_count a (x ∷ xs) e t = elim (Bool-cases (q x)) [
    | inl hit ↦
        let same : some x ≡ some a = rw hit at e in
        let there : x ≡ a = cc in omega (arith, ap (λ y. weight (p y)) there, ap weight t)
    | inr miss ↦ omega (arith, found_count a xs (rw miss at e) t)
  ]

  -- Where one entry at most passes a test, any way to find it finds it.
  pub find_unique :
      (a : A) (xs : List A) → count p xs ≤ 1 → find q xs ≡ some a → p a ≡ true → find p xs ≡ some a
  find_unique a [] u e t = cc
  find_unique a (x ∷ xs) u e t = elim (Bool-cases (q x)) [
    | inl hit ↦
        let same : some x ≡ some a = rw hit at e in let there : x ≡ a = cc in rw there (rw t refl)
    | inr miss ↦
        let rest : find q xs ≡ some a = rw miss at e in
        elim (Bool-cases (p x)) [
          | inl twice ↦ absurd (omega (arith, ap weight twice, found_count a xs rest t))
          | inr apart ↦ rw apart (find_unique a xs (omega (arith, ap weight apart)) rest t)
        ]
  ]

pub find-append_none {ℓ} :
    {A : Type ℓ} (p : A → Bool) (xs : List A) (a : A)
    → find p xs ≡ none
    → find p (xs ++ a ∷ []) ≡ (if p a then some a else none)
find-append_none p [] a e = refl
find-append_none p (x ∷ xs) a e = elim (Bool-cases (p x)) [
  | inl hit ↦ let clash : some x ≡ none = rw hit at e in cc
  | inr miss ↦ rw miss (find-append_none p xs a (rw miss at e))
]

pub find-append_some {ℓ} :
    {A : Type ℓ} (p : A → Bool) (xs ys : List A) (a : A)
    → find p xs ≡ some a
    → find p (xs ++ ys) ≡ some a
find-append_some p [] ys a e = cc
find-append_some p (x ∷ xs) ys a e = elim (Bool-cases (p x)) [
  | inl hit ↦ rw hit (rw hit at e)
  | inr miss ↦ rw miss (find-append_some p xs ys a (rw miss at e))
]

-- Deleting the entries that pass a test `g`.
module _ {ℓ} {A : Type ℓ} (p g : A → Bool) where
  pub count-split :
      (xs : List A) → count p (filter g xs) + count p (filter (λ x. not (g x)) xs) ≡ count p xs
  count-split [] = refl
  count-split (x ∷ xs) = elim (Bool-cases (g x)) [
    | inl hit ↦ rw hit (omega (arith, count-split xs))
    | inr miss ↦ rw miss (omega (arith, count-split xs))
  ]

  -- The one entry that passes `p` is not among those that pass `g`.
  pub count-filter_zero :
      (a : A) (xs : List A)
      → count p xs ≤ 1
      → find p xs ≡ some a
      → g a ≡ false
      → count p (filter g xs) ≡ 0
  count-filter_zero a [] u e out = refl
  count-filter_zero a (x ∷ xs) u e out = elim (Bool-cases (p x)) [
    | inl hit ↦
        let same : some x ≡ some a = rw hit at e in
        let there : x ≡ a = cc in rw there (rw out (omega (arith, count-split xs, ap weight hit)))
    | inr miss ↦
        let rest = count-filter_zero a xs (omega (arith, ap weight miss)) (rw miss at e) out in
        elim (Bool-cases (g x)) [
          | inl gone ↦ rw gone (omega (arith, ap weight miss))
          | inr stays ↦ rw stays rest
        ]
  ]

  pub find-filter :
      (a : A) (xs : List A) → find p xs ≡ some a → g a ≡ true → find p (filter g xs) ≡ some a
  find-filter a [] e k = cc
  find-filter a (x ∷ xs) e k = elim (Bool-cases (p x)) [
    | inl hit ↦
        let same : some x ≡ some a = rw hit at e in
        let there : x ≡ a = cc in rw there (rw k (rw (ap p (sym there) ∙ hit) refl))
    | inr miss ↦ elim (Bool-cases (g x)) [
      | inl stays ↦ rw stays (rw miss (find-filter a xs (rw miss at e) k))
      | inr gone ↦ rw gone (find-filter a xs (rw miss at e) k)
    ]
  ]

  pub any_of_count : (xs : List A) → count p xs ≡ 0 → any p xs ≡ false
  any_of_count [] h = refl
  any_of_count (x ∷ xs) h = elim (Bool-cases (p x)) [
    | inl hit ↦ absurd (omega (arith, ap weight hit))
    | inr miss ↦ rw miss (any_of_count xs (omega arith))
  ]
