-- ===== src/Sources/Budget.antt =====
-- The catalog of packages stays within its budget, and finds what it has.
use macqueue.Base.{
  ℕ, ◌*◌, ◌^◌, ◌+◌, ◌≤◌, ◌≡◌, refl, subst, String, Bool, not, Option, none, some, List, [], ◌∷◌,
  Result, ok, err, arith, leb→le, ltb→lt, Bool-cases, inl, inr, require-eq-ok, >>-eq-ok,
  ok_injective, leb, ltb, &&-eq-true, eq_of_==, ◌==◌, string_eq,
}
use macqueue.Base.Lists.{length, filter, find, count, All}
use macqueue.Base.Updates.{count_of_find}
use macqueue.Json.{Json}
use macqueue.Sources.Catalog.{
  Snapshot, Catalog, Package, usage, is_at, publish, publish_new, publish_over, receipt_of,
  remove_snapshot, max_cache_bytes,
}

-- A package is published, with what the runner's check comes to, or one is revoked.
pub data Change : Type 0 where
  publishes : Package → String → Json → Result (Unit {0}) → Change
  revokes : String → String → Change

abbrev kept : Catalog → Result (Json × Catalog) → Catalog
kept snapshots (err _) = snapshots
kept snapshots (ok (_, snapshots')) = snapshots'

module _ (dumps : Json → List ℕ) where
  unfoldable pub change : Change → Catalog → Catalog
  change (publishes p job now alive) snapshots =
      kept snapshots (publish dumps p job now alive snapshots)
  change (revokes project sha) snapshots = remove_snapshot project sha snapshots

  unfoldable pub change_all : List Change → Catalog → Catalog
  change_all [] snapshots = snapshots
  change_all (c ∷ changes) snapshots = change_all changes (change c snapshots)

  -- A bound on the receipt that a change writes.
  abbrev pub Small : ℕ → Change → Type 0
  Small r (publishes p job now alive) =
      length (dumps (receipt_of p.project p.sha256 p.revisions job now)) ≤ r
  Small r (revokes project sha) = Unit

  -- 64 snapshots, each once, and 16 GiB with one receipt on top.
  pub record InBudget (receipt_bytes : ℕ) (snapshots : Catalog) : Type 0 where
    pub few : length snapshots ≤ 64
    pub bounded : usage snapshots ≤ 16 * 1024 ^ 3 + receipt_bytes
    pub once : (project sha : String) → count (is_at project sha) snapshots ≤ 1

  length-filter-le : (p : Snapshot → Bool) (xs : Catalog) → length (filter p xs) ≤ length xs
  length-filter-le p [] = omega arith
  length-filter-le p (x ∷ xs) = ground (arith, length-filter-le p xs)

  usage-filter-le : (p : Snapshot → Bool) (xs : Catalog) → usage (filter p xs) ≤ usage xs
  usage-filter-le p [] = omega arith
  usage-filter-le p (x ∷ xs) = ground (arith, usage-filter-le p xs)

  count-filter-le : (q p : Snapshot → Bool) (xs : Catalog) → count q (filter p xs) ≤ count q xs
  count-filter-le q p [] = omega arith
  count-filter-le q p (x ∷ xs) = elim (Bool-cases (p x)) [
    | inl hit ↦ rw hit (omega (arith, count-filter-le q p xs))
    | inr miss ↦ rw miss (omega (arith, count-filter-le q p xs))
  ]

  revoke-InBudget :
      (r : ℕ) (project sha : String) (snapshots : Catalog)
      → InBudget r snapshots
      → InBudget r (remove_snapshot project sha snapshots)
  unfolding remove_snapshot
  revoke-InBudget r project sha snapshots b =
      let keep = λ (s : Snapshot). not (is_at project sha s) in
      record {
        few = omega (arith, length-filter-le keep snapshots, b.few);
        bounded = omega (arith, usage-filter-le keep snapshots, b.bounded);
        once = λ p h. omega (arith, count-filter-le (is_at p h) keep snapshots, b.once p h);
      }

  -- A new snapshot is the only one of its package.
  count_new :
      (project sha : String) (s : Snapshot) (snapshots : Catalog)
      → find (is_at s.project s.sha256) snapshots ≡ none
      → count (is_at project sha) snapshots ≤ 1
      → count (is_at project sha) (s ∷ snapshots) ≤ 1
  count_new project sha s snapshots absent once = elim (Bool-cases (is_at project sha s)) [
    | inl hit ↦
        let (p, h) = &&-eq-true (s.project == project) (s.sha256 == sha) hit in
        let gone : count (is_at project sha) snapshots ≡ 0 =
          subst (λ x. count (is_at x sha) snapshots ≡ 0) (eq_of_== s.project project p)
            (subst (λ x. count (is_at s.project x) snapshots ≡ 0) (eq_of_== s.sha256 sha h)
              (count_of_find _ snapshots absent)) in
        rw hit (omega (arith, gone))
    | inr miss ↦ rw miss (omega (arith, once))
  ]

  publish_new-InBudget :
      (r : ℕ) (p : Package) (job : String) (now : Json) (alive : Result (Unit {0}))
      (snapshots : Catalog) (done : Json × Catalog)
      → length (dumps (receipt_of p.project p.sha256 p.revisions job now)) ≤ r
      → find (is_at p.project p.sha256) snapshots ≡ none
      → InBudget r snapshots
      → publish_new dumps p job now alive snapshots ≡ ok done
      → InBudget r done.1
  unfolding publish_new
  publish_new-InBudget r p job now alive snapshots done small absent b h =
      let (room, h₁) = require-eq-ok (ltb (length snapshots) 64) _ _ h in
      let (space, h₂) = require-eq-ok (leb (usage snapshots + p.bytes) max_cache_bytes) _ _ h₁ in
      let (_, h₃) = >>-eq-ok alive _ h₂ in
      let receipt = receipt_of p.project p.sha256 p.revisions job now in
      let new : Snapshot = record {
        project = p.project;
        sha256 = p.sha256;
        revisions = p.revisions;
        receipt = receipt;
        bytes = p.bytes + length (dumps receipt);
      } in
      let result : InBudget r (new ∷ snapshots) = record {
        few = omega (arith, ltb→lt (length snapshots) 64 room);
        bounded = omega (arith, leb→le _ _ space, small);
        once = λ project sha. count_new project sha new snapshots absent (b.once project sha);
      } in
      subst (λ (d : Json × Catalog). InBudget r d.1)
        (ok_injective (receipt, new ∷ snapshots) done h₃) result

  kept-InBudget :
      (r : ℕ) (snapshots : Catalog) (done : Result (Json × Catalog))
      → InBudget r snapshots
      → ((d : Json × Catalog) → done ≡ ok d → InBudget r d.1)
      → InBudget r (kept snapshots done)
  kept-InBudget r snapshots (err _) b h = b
  kept-InBudget r snapshots (ok d) b h = h d refl

  publish_over-InBudget :
      (r : ℕ) (found : Option Snapshot) (p : Package) (job : String) (now : Json)
      (alive : Result (Unit {0})) (snapshots : Catalog)
      → length (dumps (receipt_of p.project p.sha256 p.revisions job now)) ≤ r
      → find (is_at p.project p.sha256) snapshots ≡ found
      → InBudget r snapshots
      → InBudget r (kept snapshots (publish_over dumps found p job now alive snapshots))
  publish_over-InBudget r (some s) p job now alive snapshots small e b = b
  publish_over-InBudget r none p job now alive snapshots small e b =
      kept-InBudget r snapshots (publish_new dumps p job now alive snapshots) b
        (λ done h. publish_new-InBudget r p job now alive snapshots done small e b h)

  change-InBudget :
      (r : ℕ) (c : Change) (snapshots : Catalog)
      → Small r c
      → InBudget r snapshots
      → InBudget r (change c snapshots)
  unfolding change publish
  change-InBudget r (publishes p job now alive) snapshots small b =
      publish_over-InBudget r _ p job now alive snapshots small refl b
  change-InBudget r (revokes project sha) snapshots small b =
      revoke-InBudget r project sha snapshots b

  changed-InBudget :
      (r : ℕ) (changes : List Change) (snapshots : Catalog)
      → All (Small r) changes
      → InBudget r snapshots
      → InBudget r (change_all changes snapshots)
  unfolding change_all
  changed-InBudget r [] snapshots small b = b
  changed-InBudget r (c ∷ changes) snapshots small b =
      changed-InBudget r changes (change c snapshots) small.1
        (change-InBudget r c snapshots small.0 b)

-- After any publications and revocations on a worker that starts with no packages, there are 64
-- snapshots at most, no two of one package, and all their files have at most 16 GiB and the bytes of
-- one receipt together, given a bound on the bytes of the receipts that are written.
pub change_all-InBudget :
    (dumps : Json → List ℕ) (receipt_bytes : ℕ) (changes : List Change)
    → All (Small dumps receipt_bytes) changes
    → InBudget dumps receipt_bytes (change_all dumps changes [])
change_all-InBudget dumps r changes small =
    changed-InBudget dumps r changes [] small
      (record { few = omega arith; bounded = omega arith; once = λ _ _. omega arith })
