-- ===== src/Runner/Counts.antt =====
-- The worker counts of a comparison.
use macqueue.Base.{
  ℕ, Bool, true, false, ◌||◌, Option, none, some, List, [], ◌∷◌, ◌++◌, ◌==◌, nat_eq, if◌then◌else◌,
  Result, ok, err, ◌≡◌, refl, inl, inr, invalid, ok_injective, Bool-cases, arith, subst,
  nat_eqb_iff,
}
use macqueue.Base.Actions.{Ends, lift-Ends, return}
use macqueue.Base.Files.{find_file}
use macqueue.Base.Lists.{any, count, count-append}
use macqueue.Runner.Comparing.{Outside, Benchmark, Count, fixed, cores_of, counts_of, count_of}

abbrev pub occurrences : ℕ → List ℕ → ℕ
occurrences n = count (λ m. m == n)

abbrev pub is_in : ℕ → List ℕ → Bool
is_in n = any (λ m. m == n)

-- Whether a number of workers is asked for.
abbrev is_number : ℕ → Option ℕ → Bool
is_number n none = false
is_number n (some m) = m == n

abbrev pub is_asked : Outside → ℕ → Count → Bool
is_asked o n (fixed m) = m == n
is_asked o n (cores_of kind) = is_number n (find_file kind o.cores)

abbrev pub once : Bool → ℕ
once b = if b then 1 else 0

add_count : List ℕ → ℕ → List ℕ
add_count counts k = if is_in k counts then counts else counts ++ k ∷ []

is_in-append : (n k : ℕ) (counts : List ℕ) → is_in n (counts ++ k ∷ []) ≡ (is_in n counts || k == n)
is_in-append n k [] = ground arith
is_in-append n k (m ∷ counts) = ground (arith, is_in-append n k counts)

is_in_eq :
    (n k : ℕ) (counts : List ℕ) → (k == n) ≡ true → is_in k counts ≡ true → is_in n counts ≡ true
is_in_eq n k counts same found = subst (λ m. is_in m counts ≡ true) ((nat_eqb_iff k n).0 same) found

is_in-add_count :
    (n k : ℕ) (counts : List ℕ) → is_in n (add_count counts k) ≡ (is_in n counts || k == n)
unfolding add_count
is_in-add_count n k counts = elim (Bool-cases (is_in k counts)) [
  | inl found ↦ rw found (elim (Bool-cases (k == n)) [
    | inl same ↦ ground (arith, is_in_eq n k counts same found)
    | inr other ↦ ground (arith, other)
  ])
  | inr new ↦ rw new (is_in-append n k counts)
]

occurrences-add_count :
    (n k : ℕ) (counts : List ℕ)
    → occurrences n counts ≡ once (is_in n counts)
    → occurrences n (add_count counts k) ≡ once (is_in n (add_count counts k))
unfolding add_count
occurrences-add_count n k counts h = elim (Bool-cases (is_in k counts)) [
  | inl found ↦ rw found h
  | inr new ↦ rw new (
      ground (
        arith,
        h,
        count-append (λ m. m == n) counts (k ∷ []),
        is_in-append n k counts,
        is_in_eq k n counts,
        nat_eqb_iff k n,
        nat_eqb_iff n k,
      ))
]

module _ (o : Outside) (n : ℕ) where
  asked : (c : Count) (k : ℕ) → count_of o c ≡ ok k → is_asked o n c ≡ (k == n)
  asked (fixed m) k h = ground (arith, ok_injective m k h)
  asked (cores_of kind) k h = cores (find_file kind o.cores) h
    where
      cores :
          (found : Option ℕ)
          → ◌≡◌ {A = Result ℕ}
              (elim found [ none ↦ err (invalid "could not determine core count") | some m ↦ ok m ])
              (ok k)
          → is_number n found ≡ (k == n)
      cores none h = cc
      cores (some m) h = ground (arith, ok_injective m k h)

  -- With the counts before.
  from_counts :
      (listed : List Count) (counts : List ℕ) (st : Benchmark)
      → occurrences n counts ≡ once (is_in n counts)
      → Ends
          (λ _. Unit)
          (λ cs _. occurrences n cs ≡ once (is_in n counts || any (is_asked o n) listed))
          (counts_of o counts listed st)
  unfolding counts_of return add_count
  from_counts [] counts st h = ground (arith, h)
  from_counts (c ∷ rest) counts st h =
      lift-Ends (λ _. Unit) _ (count_of o c) _ st tt
        (λ k resolved.
          subst
            (λ b.
              Ends (λ _. Unit) (λ cs _. occurrences n cs ≡ once b)
                (counts_of o (add_count counts k) rest st))
            (ground (arith, is_in-add_count n k counts, asked c k resolved))
            (from_counts rest (add_count counts k) st (occurrences-add_count n k counts h)))

  -- If the worker counts are resolved, then a number occurs once among them if it is asked for, as
  -- itself or by the name of a kind of core with so many cores, and does not occur otherwise.
  pub counts_of-occurrences :
      (listed : List Count) (st : Benchmark)
      → Ends
          (λ _. Unit)
          (λ counts _. occurrences n counts ≡ once (any (is_asked o n) listed))
          (counts_of o [] listed st)
  counts_of-occurrences listed st = from_counts listed [] st refl
