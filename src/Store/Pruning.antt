-- ===== src/Store/Pruning.antt =====
-- Pruning keeps the tables sound and removes no job that has not ended.
use macqueue.Base.{
  ℕ, ◌+◌, ◌≡◌, refl, ◌∙◌, sym, ap, subst, String, Bool, true, false, not, some, List, [], ◌∷◌,
  arith, Bool-cases, inl, inr, ◌==◌, string_eq, eq_of_==, ◌⊎◌, Result-cases,
}
use macqueue.Base.Lists.{
  All-map, All-both, All-filter, filter-All, filter, find, any, count, All-find,
}
use macqueue.Base.Updates.{count-split, count-filter_zero, find-filter, any_of_count, count_of_any}
use macqueue.Store.Rows.{Db, Job, Log, reap, is_terminal, by_id, by_key, has_active}
use macqueue.Store.Leases.{at_seq}
use macqueue.Store.Prune.{Directory, prune, delete_jobs, is_stale, logged_by, referenced}
use macqueue.Store.Steps.Claims.{All-Selects, Selects}
use macqueue.Store.Invariant.{IsRow, IsSound, IsAccounted, Refers, bytes_of}
use macqueue.Store.Invariant.Changes.{reap-IsSound}

module _ (gone : Job → Bool) (db : Db) (v : IsSound db) where
  abbrev deletes : Log → Bool
  deletes l = any (logged_by l) (filter gone db.jobs)

  -- A job that stays keeps its log chunks.
  bytes_kept :
      (i : String) (ls : List Log)
      → count (by_id i) (filter gone db.jobs) ≡ 0
      → bytes_of i (filter (λ l. not (deletes l)) ls) ≡ bytes_of i ls
  bytes_kept i [] h = refl
  bytes_kept i (l ∷ ls) h = elim (Bool-cases (deletes l)) [
    | inl dropped ↦ elim (Bool-cases (l.job_id == i)) [
      | inl mine ↦
          let none_gone : count (by_id l.job_id) (filter gone db.jobs) ≡ 0 =
            subst (λ k. count (by_id k) (filter gone db.jobs) ≡ 0) (sym (eq_of_== l.job_id i mine))
              h in
          let clash : true ≡ false =
            sym dropped ∙ any_of_count (logged_by l) gone (filter gone db.jobs) none_gone in
          cc
      | inr other ↦ rw (dropped, other) (omega (arith, bytes_kept i ls h))
    ]
    | inr kept ↦ rw kept (omega (arith, bytes_kept i ls h))
  ]

  split_of :
      (p : Job → Bool)
      → count p (filter gone db.jobs) + count p (filter (λ j. not (gone j)) db.jobs)
        ≡ count p db.jobs
  split_of p = count-split p gone db.jobs

  stays-IsAccounted :
      (j : Job)
      → ((not (gone j) ≡ true) × Selects db.jobs j) × IsAccounted db.logs j
      → IsAccounted (filter (λ l. not (deletes l)) db.logs) j
  stays-IsAccounted j ((stays, there), a) =
      a
      ∙ sym (
          bytes_kept j.id db.logs (
            count-filter_zero (by_id j.id) gone j db.jobs (v.distinct_ids j.id) there
              (ground arith)))

  pub delete_jobs-IsSound : IsSound (delete_jobs gone db)
  delete_jobs-IsSound = record {
    rows = All-filter IsRow (λ j. not (gone j)) db.jobs v.rows;
    one_active = omega (arith, split_of has_active, v.one_active);
    distinct_ids = λ i. omega (arith, split_of (by_id i), v.distinct_ids i);
    distinct_keys = λ k. omega (arith, split_of (by_key k), v.distinct_keys k);
    distinct_logs =
        λ i q. omega (arith, count-split (at_seq i q) deletes db.logs, v.distinct_logs i q);
    accounted = All-map (filter (λ j. not (gone j)) db.jobs) stays-IsAccounted (
        All-both _ (IsAccounted db.logs) (filter (λ j. not (gone j)) db.jobs)
          (All-both _ (Selects db.jobs) (filter (λ j. not (gone j)) db.jobs)
            (filter-All (λ j. not (gone j)) db.jobs)
            (All-filter (Selects db.jobs) (λ j. not (gone j)) db.jobs
              (All-Selects db.jobs v.distinct_ids)))
          (All-filter (IsAccounted db.logs) (λ j. not (gone j)) db.jobs v.accounted));
    refer =
        All-map (filter (λ l. not (deletes l)) db.logs) (λ l h. still_refers l h.0 h.1)
          (All-both _ (Refers db.jobs) (filter (λ l. not (deletes l)) db.logs)
            (filter-All (λ l. not (deletes l)) db.logs)
            (All-filter (Refers db.jobs) (λ l. not (deletes l)) db.logs v.refer));
  }
    where
      still_refers :
          (l : Log)
          → not (deletes l) ≡ true
          → Refers db.jobs l
          → Refers (filter (λ j. not (gone j)) db.jobs) l
      still_refers l k r =
          let none_gone = count_of_any (logged_by l) (filter gone db.jobs) (ground arith) in
          omega (arith, split_of (by_id l.job_id), none_gone)

-- A row that is still waiting or running has no time of its end, and so is not stale.
live_not_stale :
    (age now : ℕ) (j : Job) → IsRow j → is_terminal j.status ≡ false → is_stale age now j ≡ false
live_not_stale age now j r h = ground arith

-- What pruning has kept where it returned, and where it raised.
pub record Pruned (s after : Directory) (t : ℕ) : Type 0 where
  pub sound : IsSound after.db
  pub live :
      (i : String) (j : Job)
      → find (by_id i) (reap t s.db).jobs ≡ some j
      → is_terminal j.status ≡ false
      → (find (by_id i) after.db.jobs ≡ some j) ⊎ (after.db ≡ s.db)

prune_with :
    (age t now : ℕ) (s : Directory)
    → IsSound s.db
    → (after : Directory)
    → (after.db ≡ delete_jobs (is_stale age now) (reap t s.db)) ⊎ (after.db ≡ s.db)
    → Pruned s after t
prune_with age t now s v after (inr e) = record {
  sound = subst IsSound (sym e) v;
  live = λ i j _ _. inr e;
}
prune_with age t now s v after (inl e) =
    let sound = reap-IsSound t s.db v in
    record {
      sound = subst IsSound (sym e) (delete_jobs-IsSound (is_stale age now) (reap t s.db) sound);
      live = λ i j there alive. inl (
          ap (λ d. find (by_id i) d.jobs) e
          ∙ find-filter (by_id i) (λ k. not (is_stale age now k)) j (reap t s.db).jobs there
              (ap not (
                live_not_stale age now j
                  (All-find IsRow (by_id i) (reap t s.db).jobs j sound.rows there) alive)));
    }

prune_cases :
    (age t now later : ℕ) (s : Directory)
    → ((prune age t now later s).1.db ≡ delete_jobs (is_stale age now) (reap t s.db))
      ⊎ ((prune age t now later s).1.db ≡ s.db)
unfolding prune
prune_cases age t now later s =
    elim (Result-cases (referenced (delete_jobs (is_stale age now) (reap t s.db)).jobs)) [
      | inl (refs, e) ↦ inl (rw (e, prune) refl)
      | inr (x, e) ↦ inr (rw (e, prune) refl)
    ]

-- Pruning leaves the tables sound, the logs of the deleted jobs gone with them; and a job that has
-- not ended is still there as the reaping left it, unless pruning raised and rolled all back.
pub prune-Pruned :
    (age t now later : ℕ) (s : Directory) → IsSound s.db → Pruned s (prune age t now later s).1 t
prune-Pruned age t now later s v =
    prune_with age t now s v (prune age t now later s).1 (prune_cases age t now later s)
