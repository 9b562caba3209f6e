-- ===== src/Store/Claiming.antt =====
-- Which job a claim hands out, and when it hands out none.
use macqueue.Base.Updates.{find-update_found}
use macqueue.Base.{
  ℕ, ◌≡◌, ◌≤◌, ◌∙◌, sym, ap, subst, String, true, false, Option, none, some, List, [], ◌∷◌, Result,
  ok, >>=-eq-ok, arith, Bool-cases, ◌⊎◌, inl, inr, ==_refl, string_eq,
}
use macqueue.Base.Lists.{
  All, All-map, All-both, All-filter, All-of_filter, filter-All, any, find, filter,
}
use macqueue.Base.Sorting.{sort_by, IsSorted, sort_by-IsSorted, All-sort_by, All-of_sort_by}
use macqueue.Store.Rows.{
  Db, Job, is_queued, view, select, reap, update_job, by_id, has_active, has_queued, Public,
}
use macqueue.Store.Queue.{Claim, claim, claim_tx, give, first_for, is_for, older, start}
use macqueue.Store.Steps.Claims.{All-Selects, Selects, All-first_for}
use macqueue.Store.Steps.Effects.{or_missing-eq-ok}
use macqueue.Store.Invariant.{IsSound}
use macqueue.Store.Invariant.Changes.{reap-IsSound}
use macqueue.Store.Idempotence.{transaction-eq-ok}

older_asym : (a b : Job) → older a b ≡ true → older b a ≡ false
older_asym a b h = ground arith

older_through : (a b c : Job) → older a b ≡ false → older b c ≡ false → older a c ≡ false
older_through a b c h k = ground arith

not_older : (a b : Job) → older a b ≡ false → b.created ≤ a.created
not_older a b h = ground arith

-- A job that the worker's projects include.
abbrev pub Wanted : List String → Job → Type 0
Wanted projects r = is_for projects r ≡ ok true

abbrev NotBefore : List String → Job → Job → Type 0
NotBefore projects row r = Wanted projects r → row.created ≤ r.created

-- The first wanted row of a sorted list is the oldest wanted one.
first_for-oldest :
    (projects : List String) (rows : List Job) (row : Job)
    → IsSorted older rows
    → first_for projects rows ≡ ok (some row)
    → Wanted projects row × All (NotBefore projects row) rows
unfolding first_for
first_for-oldest projects [] row s e = cc
first_for-oldest projects (r ∷ rows) row s e =
    let (wanted, w, k) = >>=-eq-ok (is_for projects r) _ e in
    elim (Bool-cases wanted) [
      | inl hit ↦
          let same : ok (some r) ≡ ok (some row) = rw hit at k in
          let there : r ≡ row = cc in
          subst (λ q. Wanted projects q × All (NotBefore projects q) (r ∷ rows)) there
            (w ∙ ap ok hit, ((λ _. omega arith), All-map rows (λ q h _. not_older q r h) s.0))
      | inr miss ↦
          let rest = first_for-oldest projects rows row s.1 (rw miss at k) in
          (rest.0, ((λ t. let clash : ok false ≡ ok true = sym (w ∙ ap ok miss) ∙ t in cc), rest.1))
    ]

first_for-none :
    (projects : List String) (rows : List Job)
    → first_for projects rows ≡ ok none
    → All (λ r. is_for projects r ≡ ok false) rows
unfolding first_for
first_for-none projects [] e = tt
first_for-none projects (r ∷ rows) e =
    let (wanted, w, k) = >>=-eq-ok (is_for projects r) _ e in
    elim (Bool-cases wanted) [
      | inl hit ↦ let clash : ok (some r) ≡ ok none = rw hit at k in cc
      | inr miss ↦ (w ∙ ap ok miss, first_for-none projects rows (rw miss at k))
    ]

-- What a claim that hands out a job has done.
pub record Hands (worker : String) (projects : List String) (lease : String) (now : ℕ) (db : Db)
    (c : Claim) (db' : Db) : Type 0 where
  pub row : Job
  pub idle : any has_active db.jobs ≡ false
  pub found : find (by_id row.id) db.jobs ≡ some row
  pub ready : is_queued row.status ≡ true
  pub wanted : Wanted projects row
  pub oldest :
      All (λ r. is_queued r.status ≡ true → Wanted projects r → row.created ≤ r.created) db.jobs
  pub shown : c.job ≡ view (start worker lease now row)
  pub leased : c.lease ≡ lease
  pub after : db' ≡ update_job row.id (start worker lease now) db

some-row : (a b : Job) → some a ≡ some b → a ≡ b
some-row a b h = cc

give-Hands :
    (worker : String) (projects : List String) (lease : String) (now : ℕ) (row : Job) (db : Db)
    (c : Claim) (db' : Db)
    → any has_active db.jobs ≡ false
    → (is_queued row.status ≡ true) × Selects db.jobs row
    → Wanted projects row
    → All (λ r. is_queued r.status ≡ true → Wanted projects r → row.created ≤ r.created) db.jobs
    → give worker lease now (some row) db ≡ ok (some c, db')
    → Hands worker projects lease now db c db'
unfolding give
give-Hands worker projects lease now row db c db' idle (ready, found) wanted oldest h =
    let f = start worker lease now in
    let (row', e, k) = >>=-eq-ok (select row.id (update_job row.id f db)) _ h in
    let there = find-update_found (by_id row.id) f row db.jobs (==_refl row.id) found in
    let same_row : row' ≡ f row = some-row row' (f row) (sym (or_missing-eq-ok _ row' e) ∙ there) in
    let same : update_job row.id f db ≡ db' = cc in
    record {
      row = row;
      idle = idle;
      found = found;
      ready = ready;
      wanted = wanted;
      oldest = oldest;
      shown = claim_job (view row') c k ∙ ap view same_row;
      leased = claim_lease (view row') c k;
      after = sym same;
    }
  where
    after : Db
    after = update_job row.id (start worker lease now) db

    claim_job :
        (p : Public) (c : Claim)
        → ◌≡◌ {A = Result (Option Claim × Db)}
            (ok (some (record { job = p; lease = lease; lease_seconds = 60 }), after))
            (ok (some c, db'))
        → c.job ≡ p
    claim_job p c h = ground arith

    claim_lease :
        (p : Public) (c : Claim)
        → ◌≡◌ {A = Result (Option Claim × Db)}
            (ok (some (record { job = p; lease = lease; lease_seconds = 60 }), after))
            (ok (some c, db'))
        → c.lease ≡ lease
    claim_lease p c h = ground arith

claim_tx-Hands :
    (worker : String) (projects : List String) (lease : String) (now : ℕ) (db : Db) (c : Claim)
    (db' : Db)
    → IsSound db
    → claim_tx worker projects lease now db ≡ ok (some c, db')
    → Hands worker projects lease now db c db'
unfolding claim_tx
claim_tx-Hands worker projects lease now db c db' v h = elim (Bool-cases (any has_active db.jobs)) [
  | inl busy ↦
      let clash : ◌≡◌ {A = Result (Option Claim × Db)} (ok (none, db)) (ok (some c, db')) =
        rw busy at h in
      cc
  | inr idle ↦
      let queue = filter has_queued db.jobs in
      let (chosen, e, k) = >>=-eq-ok (first_for projects (sort_by older queue)) _ (rw idle at h) in
      pick chosen e k idle
]
  where
    pick :
        (chosen : Option Job)
        → first_for projects (sort_by older (filter has_queued db.jobs)) ≡ ok chosen
        → give worker lease now chosen db ≡ ok (some c, db')
        → any has_active db.jobs ≡ false
        → Hands worker projects lease now db c db'
    pick none e k idle =
        let clash : ◌≡◌ {A = Result (Option Claim × Db)} (ok (none, db)) (ok (some c, db')) =
          unfold give in k in
        cc
    pick (some row) e k idle =
        let queue = filter has_queued db.jobs in
        let sorted = sort_by-IsSorted older older_asym older_through queue in
        let first = first_for-oldest projects (sort_by older queue) row sorted e in
        let members = All-sort_by older _ queue (
          All-both _ (Selects db.jobs) queue (filter-All has_queued db.jobs) (
            All-filter (Selects db.jobs) has_queued db.jobs
              (All-Selects db.jobs v.distinct_ids))) in
        give-Hands worker projects lease now row db c db' idle
          (All-first_for _ projects (sort_by older queue) row members e) first.0
          (All-of_filter (NotBefore projects row) has_queued db.jobs
            (All-of_sort_by older (NotBefore projects row) queue first.1))
          k

-- A claim that hands out a job found no job running or asked to cancel; the job was queued after
-- the reaping, is of a project that the worker serves, and is the oldest such job; the reply shows
-- it as running with the fresh lease; and its row alone has changed beyond the reaping.
pub claim-Hands :
    (worker : String) (projects : List String) (lease : String) (t now : ℕ) (db : Db) (c : Claim)
    (db' : Db)
    → IsSound db
    → ◌≡◌ {A = Result (Option Claim) × Db} (claim worker projects lease t now db) (ok (some c), db')
    → Hands worker projects lease now (reap t db) c db'
unfolding claim
claim-Hands worker projects lease t now db c db' v h =
    claim_tx-Hands worker projects lease now (reap t db) c db' (reap-IsSound t db v)
      (transaction-eq-ok t (claim_tx worker projects lease now) db (some c) db' h)

give-some :
    (worker lease : String) (now : ℕ) (row : Job) (db db' : Db)
    → ¬ (give worker lease now (some row) db ≡ ok (none, db'))
unfolding give
give-some worker lease now row db db' h =
    let (row', e, k) =
      >>=-eq-ok (select row.id (update_job row.id (start worker lease now) db)) _ h in
    cc

claim_tx-none :
    (worker : String) (projects : List String) (lease : String) (now : ℕ) (db db' : Db)
    → claim_tx worker projects lease now db ≡ ok (none, db')
    → (any has_active db.jobs ≡ true)
      ⊎ All (λ r. is_queued r.status ≡ true → is_for projects r ≡ ok false) db.jobs
unfolding claim_tx
claim_tx-none worker projects lease now db db' h = elim (Bool-cases (any has_active db.jobs)) [
  | inl busy ↦ inl busy
  | inr idle ↦
      let queue = filter has_queued db.jobs in
      let (chosen, e, k) = >>=-eq-ok (first_for projects (sort_by older queue)) _ (rw idle at h) in
      inr (empty_handed chosen e k)
]
  where
    empty_handed :
        (chosen : Option Job)
        → first_for projects (sort_by older (filter has_queued db.jobs)) ≡ ok chosen
        → give worker lease now chosen db ≡ ok (none, db')
        → All (λ r. is_queued r.status ≡ true → is_for projects r ≡ ok false) db.jobs
    empty_handed none e k =
        All-of_filter (λ r. is_for projects r ≡ ok false) has_queued db.jobs
          (All-of_sort_by older (λ r. is_for projects r ≡ ok false) (filter has_queued db.jobs)
            (first_for-none projects (sort_by older (filter has_queued db.jobs)) e))
    empty_handed (some row) e k = absurd (give-some worker lease now row db db' k)

-- A claim that hands out nothing, without an error, had a reason: after the reaping a job was
-- running or asked to cancel, or no queued job was of a project that the worker serves.
pub claim-none :
    (worker : String) (projects : List String) (lease : String) (t now : ℕ) (db db' : Db)
    → ◌≡◌ {A = Result (Option Claim) × Db} (claim worker projects lease t now db) (ok none, db')
    → (any has_active (reap t db).jobs ≡ true)
      ⊎ All (λ r. is_queued r.status ≡ true → is_for projects r ≡ ok false) (reap t db).jobs
unfolding claim
claim-none worker projects lease t now db db' h =
    claim_tx-none worker projects lease now (reap t db) db'
      (transaction-eq-ok t (claim_tx worker projects lease now) db none db' h)
