-- ===== src/Base/Files.antt =====
-- Files by name, as an association list in which a name stands once.
use macqueue.Base.Tests.{◌==◌, string_eq, if◌then◌else◌, Bool-cases, eq_of_==, ==_sym}
use macqueue.Base.Lists.{All, All-map, All-both}
use mathlib.Core.Logic.{inl, inr}
use mathlib.Core.Bool.{false}
use Prim.Native.String.{String}
use mathlib.Core.Path.{◌≡◌, refl, subst}
use mathlib.Core.Option.{Option, none, some}
use mathlib.Core.List.{List, [], ◌∷◌}
use native.Mathlib.Omega.{arith}
use text.Mathlib.TextEquality.{eq_iff}

abbrev pub Files {ℓ} : Type ℓ → Type ℓ
Files A = List (String × A)

abbrev pub IsNone {ℓ} : {A : Type ℓ} → Option A → Type 0
IsNone none = Unit
IsNone (some a) = ⊥

module _ {ℓ} {A : Type ℓ} where
  unfoldable pub find_file : String → Files A → Option A
  find_file key [] = none
  find_file key ((name, a) ∷ fs) = if name == key then some a else find_file key fs

  unfoldable pub put_file : String → A → Files A → Files A
  put_file key a [] = (key, a) ∷ []
  put_file key a ((name, b) ∷ fs) =
      let rest = put_file key a fs in if name == key then (key, a) ∷ fs else (name, b) ∷ rest

  -- All files of the name, of which there is one at most.
  unfoldable pub remove_file : String → Files A → Files A
  remove_file key [] = []
  remove_file key ((name, b) ∷ fs) =
      let rest = remove_file key fs in if name == key then rest else (name, b) ∷ rest

  pub find_file-put_file :
      (j key : String) (a : A) (fs : Files A)
      → find_file j (put_file key a fs) ≡ (if key == j then some a else find_file j fs)
  unfolding find_file put_file
  find_file-put_file j key a [] = refl
  find_file-put_file j key a ((name, b) ∷ fs) =
      ground (arith, eq_iff key j, eq_iff name key, eq_iff name j, find_file-put_file j key a fs)

  pub find_file-remove_file :
      (j key : String) (fs : Files A)
      → find_file j (remove_file key fs) ≡ (if key == j then none else find_file j fs)
  unfolding find_file remove_file
  find_file-remove_file j key [] = ground arith
  find_file-remove_file j key ((name, b) ∷ fs) =
      ground (arith, eq_iff key j, eq_iff name key, eq_iff name j, find_file-remove_file j key fs)

  -- A name stands once.
  abbrev pub Distinct : Files A → Type 0
  Distinct [] = Unit
  Distinct ((name, a) ∷ fs) = (IsNone (find_file name fs)) × Distinct fs

  none-apart :
      (key : String) (fs : Files A) → IsNone (find_file key fs) → All (λ e. (e.0 == key) ≡ false) fs
  unfolding find_file
  none-apart key [] h = tt
  none-apart key ((name, a) ∷ fs) h = elim (Bool-cases (name == key)) [
    | inl same ↦ absurd {0} (rw same at h)
    | inr other ↦ (other, none-apart key fs (rw other at h))
  ]

  pub Distinct-put_file :
      (key : String) (a : A) (fs : Files A) → Distinct fs → Distinct (put_file key a fs)
  unfolding put_file find_file
  Distinct-put_file key a [] h = (tt, tt)
  Distinct-put_file key a ((name, b) ∷ fs) h = elim (Bool-cases (name == key)) [
    | inl same ↦ rw same (subst (λ n. IsNone (find_file n fs)) (eq_of_== name key same) h.0, h.1)
    | inr other ↦ rw other (
      rw (find_file-put_file name key a fs, ==_sym key name, other) h.0,
      Distinct-put_file key a fs h.1,
    )
  ]

  -- The entry of the name, and all others as they were.
  pub All-put_file {κ μ} :
      (P : String × A → Type κ) (Q : String × A → Type μ) (key : String) (a : A) (fs : Files A)
      → Distinct fs
      → All P fs
      → Q (key, a)
      → ((e : String × A) → P e → (e.0 == key) ≡ false → Q e)
      → All Q (put_file key a fs)
  unfolding put_file
  All-put_file P Q key a [] d h new old = (new, tt)
  All-put_file P Q key a ((name, b) ∷ fs) d h new old = elim (Bool-cases (name == key)) [
    | inl same ↦
        let alone = subst (λ n. IsNone (find_file n fs)) (eq_of_== name key same) d.0 in
        rw same
          (new, All-map fs (λ e p. old e p.0 p.1) (All-both P _ fs h.1 (none-apart key fs alone)))
    | inr other ↦ rw other (old (name, b) h.0 other, All-put_file P Q key a fs d.1 h.1 new old)
  ]

  pub All-find_file {κ} :
      (P : String × A → Type κ) (key : String) (a : A) (fs : Files A)
      → All P fs
      → find_file key fs ≡ some a
      → P (key, a)
  unfolding find_file
  All-find_file P key a [] h e = cc
  All-find_file P key a ((name, b) ∷ fs) h e = elim (Bool-cases (name == key)) [
    | inl same ↦
        let found : some b ≡ some a = rw same at e in
        let there : b ≡ a = cc in
        subst (λ n. P (n, a)) (eq_of_== name key same) (subst (λ v. P (name, v)) there h.0)
    | inr other ↦ All-find_file P key a fs h.1 (rw other at e)
  ]

  pub All-put_file_all {κ} :
      (P : String × A → Type κ) (key : String) (a : A) (fs : Files A)
      → All P fs
      → P (key, a)
      → All P (put_file key a fs)
  unfolding put_file
  All-put_file_all P key a [] h new = (new, tt)
  All-put_file_all P key a ((name, b) ∷ fs) h new = elim (Bool-cases (name == key)) [
    | inl same ↦ rw same (new, h.1)
    | inr other ↦ rw other (h.0, All-put_file_all P key a fs h.1 new)
  ]
