-- ===== src/Sources/Finding.antt =====
-- Which snapshot `lookup` of macqueue/sources.py finds.
use macqueue.Base.{
  ◌≡◌, refl, subst, ◌∙◌, sym, String, Bool, true, false, ◌&&◌, Option, none, some, [], ◌∷◌, ◌==◌,
  string_eq, nat_eq, eq_of_==, &&-eq-true, if◌then◌else◌, Bool-cases, ◌⊎◌, inl, inr, arith,
}
use macqueue.Base.Lists.{filter, All, All-map, All-filter, filter-All}
use macqueue.Common.{has}
use macqueue.Sources.Catalog.{Snapshot, Catalog, is_later, later, latest, serves, lookup}

pub data In (s : Snapshot) : Catalog → Type 0 where
  here : {rest : Catalog} → In s (s ∷ rest)
  there : {t : Snapshot} {rest : Catalog} → In s rest → In s (t ∷ rest)

each-In : (xs : Catalog) → All (λ s. In s xs) xs
each-In [] = tt
each-In (x ∷ xs) = (here, All-map xs (λ s i. there i) (each-In xs))

later_irreflexive : (a : String) → is_later a a ≡ false
later_irreflexive String.[] = refl
later_irreflexive (String.◌∷◌ c a) = ground (arith, later_irreflexive a)

later_trans : (a b c : String) → is_later a b ≡ true → is_later b c ≡ true → is_later a c ≡ true
later_trans String.[] b c h k = cc
later_trans (String.◌∷◌ x a) String.[] c h k = cc
later_trans (String.◌∷◌ x a) (String.◌∷◌ y b) String.[] h k = refl
later_trans (String.◌∷◌ x a) (String.◌∷◌ y b) (String.◌∷◌ z c) h k =
    ground (arith, later_trans a b c)

abbrev pub IsNewest : Snapshot → Catalog → Type 0
IsNewest s xs = All (λ t. is_later t.sha256 s.sha256 ≡ false) xs

not_later : (r t x : String) → is_later x t ≡ true → is_later r t ≡ false → is_later r x ≡ false
not_later r t x h k = elim (Bool-cases (is_later r x)) [
  | inl over ↦ let clash : true ≡ false = sym (later_trans r x t over h) ∙ k in cc
  | inr under ↦ under
]

pick :
    (P : Snapshot → Type 0) (b : Bool) (x t : Snapshot)
    → (b ≡ true → P x)
    → (b ≡ false → P t)
    → P (if b then x else t)
pick P true x t h k = h refl
pick P false x t h k = k refl

picks-IsNewest :
    (x : Snapshot) (o : Option Snapshot) (xs : Catalog)
    → (o ≡ none → xs ≡ [])
    → ((t : Snapshot) → o ≡ some t → IsNewest t xs)
    → IsNewest (later x o) (x ∷ xs)
picks-IsNewest x none xs h k = (later_irreflexive x.sha256, subst (IsNewest x) (sym (h refl)) tt)
picks-IsNewest x (some t) xs h k =
    pick (λ s. IsNewest s (x ∷ xs)) (is_later x.sha256 t.sha256) x t
      (λ over. (
        later_irreflexive x.sha256,
        All-map xs (λ r old. not_later r.sha256 t.sha256 x.sha256 over old) (k t refl),
      ))
      (λ under. (under, k t refl))

latest-none : (xs : Catalog) → latest xs ≡ none → xs ≡ []
unfolding latest
latest-none [] e = refl
latest-none (x ∷ xs) e = cc

some_injective : (x s : Snapshot) → ◌≡◌ {A = Option Snapshot} (some x) (some s) → x ≡ s
some_injective x s e = cc

latest-IsNewest : (xs : Catalog) (s : Snapshot) → latest xs ≡ some s → IsNewest s xs
unfolding latest
latest-IsNewest [] s e = cc
latest-IsNewest (x ∷ xs) s e =
    subst (λ t. IsNewest t (x ∷ xs)) (some_injective (later x (latest xs)) s e)
      (picks-IsNewest x (latest xs) xs (latest-none xs) (λ t there. latest-IsNewest xs t there))

later-All :
    (P : Snapshot → Type 0) (x : Snapshot) (o : Option Snapshot)
    → P x
    → ((t : Snapshot) → o ≡ some t → P t)
    → P (later x o)
later-All P x none h rest = h
later-All P x (some t) h rest = elim (Bool-cases (is_later x.sha256 t.sha256)) [
  | inl hit ↦ rw hit h
  | inr miss ↦ rw miss (rest t refl)
]

-- What `latest` picks is one of the list.
latest-All :
    (P : Snapshot → Type 0) (xs : Catalog) (s : Snapshot) → All P xs → latest xs ≡ some s → P s
unfolding latest
latest-All P [] s h e = cc
latest-All P (x ∷ xs) s h e =
    subst P (some_injective (later x (latest xs)) s e)
      (later-All P x (latest xs) h.0 (λ t there. latest-All P xs t h.1 there))

unfiltered :
    (p q : Snapshot → Bool) (xs : Catalog)
    → All (λ t. q t ≡ false) (filter p xs)
    → All (λ t. (p t && q t) ≡ false) xs
unfiltered p q [] h = tt
unfiltered p q (x ∷ xs) h = elim (Bool-cases (p x)) [
  | inl hit ↦
      let both : (q x ≡ false) × All (λ t. q t ≡ false) (filter p xs) = rw hit at h in
      rw hit (both.0, unfiltered p q xs both.1)
  | inr miss ↦
      let rest : All (λ t. q t ≡ false) (filter p xs) = rw miss at h in
      rw miss (refl, unfiltered p q xs rest)
]

none_passes : (p : Snapshot → Bool) (xs : Catalog) → filter p xs ≡ [] → All (λ t. p t ≡ false) xs
none_passes p [] e = tt
none_passes p (x ∷ xs) e = elim (Bool-cases (p x)) [
  | inl hit ↦ let clash : x ∷ filter p xs ≡ [] = rw hit at e in cc
  | inr miss ↦ let rest : filter p xs ≡ [] = rw miss at e in (miss, none_passes p xs rest)
]

-- A snapshot of the catalog that is of the project and has the commit, and no other such has a later
-- checksum; or none.
pub record Found (project commit : String) (snapshots : Catalog) (s : Snapshot) : Type 0 where
  pub stored : In s snapshots
  pub of_project : s.project ≡ project
  pub has_commit : has commit s.revisions ≡ true
  pub newest :
      All
        (λ t.
          (t.project == project && has commit t.revisions && is_later t.sha256 s.sha256) ≡ false)
        snapshots

abbrev pub Finds : Bool → String → String → Catalog → Option Snapshot → Type 0
Finds enabled project commit snapshots (some s) =
    (enabled ≡ true) × Found project commit snapshots s
Finds enabled project commit snapshots none =
    (enabled ≡ false)
    ⊎ All (λ t. (t.project == project && has commit t.revisions) ≡ false) snapshots

found :
    (project commit : String) (snapshots : Catalog) (o : Option Snapshot)
    → latest (filter (serves project commit) snapshots) ≡ o
    → Finds true project commit snapshots o
found project commit snapshots none e =
    inr (none_passes (serves project commit) snapshots (latest-none _ e))
found project commit snapshots (some s) e =
    let these = filter (serves project commit) snapshots in
    let serving =
      latest-All (λ x. serves project commit x ≡ true) these s
        (filter-All (serves project commit) snapshots) e in
    let (same, known) = &&-eq-true (s.project == project) _ serving in
    (
      refl,
      record {
        stored =
            latest-All (λ x. In x snapshots) these s
              (All-filter (λ x. In x snapshots) (serves project commit) snapshots
                (each-In snapshots))
              e;
        of_project = eq_of_== s.project project same;
        has_commit = known;
        newest =
            All-map snapshots (λ t h. regroup t s h)
              (unfiltered (serves project commit) (λ t. is_later t.sha256 s.sha256) snapshots
                (latest-IsNewest these s e));
      },
    )
  where
    regroup :
        (t s : Snapshot)
        → (serves project commit t && is_later t.sha256 s.sha256) ≡ false
        → (t.project == project && has commit t.revisions && is_later t.sha256 s.sha256) ≡ false
    regroup t s h = ground arith

-- A lookup that finds a snapshot is allowed to, and the snapshot is in the catalog, of the project,
-- and has the commit among its revisions; no snapshot of the project with the commit has a later
-- checksum. A lookup that finds none is not allowed to, or the catalog has no such snapshot.
pub lookup-Finds :
    (enabled : Bool) (project commit : String) (snapshots : Catalog)
    → Finds enabled project commit snapshots (lookup enabled project commit snapshots)
unfolding lookup
lookup-Finds false project commit snapshots = inl refl
lookup-Finds true project commit snapshots = found project commit snapshots _ refl
