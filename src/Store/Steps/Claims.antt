-- ===== src/Store/Steps/Claims.antt =====
-- What `submit`, `claim` and `cancel` commit, each one `Change`.
use macqueue.Base.{
  ℕ, ◌≤◌, ◌≡◌, refl, ap, subst, String, true, false, Option, none, some, List, [], ◌∷◌, ◌++◌, ok,
  >>=-eq-ok, ok-second, require-eq-ok, arith, ◌==◌, string_eq, ==_refl, ltb, Bool-cases, inl, inr,
}
use macqueue.Base.Lists.{
  any, find, count, filter, All, All-map, All-both, All-filter, filter-All, find-count,
}
use macqueue.Base.Sorting.{sort_by, All-sort_by}
use macqueue.Base.Updates.{weight}
use macqueue.Store.Steps.Effects.{or_missing-eq-ok}
use macqueue.Json.{Json, py_eq}
use macqueue.Store.Rows.{
  Status, queued, running, Job, Db, Public, is_queued, by_id, by_key, has_active, has_queued,
  update_job, select,
}
use macqueue.Store.Queue.{
  Claim, cancel_tx, cancel_job, cancel_now, request_cancel, new_job, start, enqueue, submit_with,
  expiry_of, insert_job, give, first_for, is_for, older, submit_tx, claim_tx,
}
use macqueue.Store.Steps.{Change, same, inserts, starts, steps, cancels, requests}

cancel_job-Change :
    (row : Job) (i : String) (now : ℕ) (db : Db)
    → find (by_id i) db.jobs ≡ some row
    → (s : Status) → row.status ≡ s
    → Change db (cancel_job s i now db)
cancel_job-Change row i now db e queued h = steps i row (cancel_now now) e (cancels now h)
cancel_job-Change row i now db e running h = steps i row request_cancel e (requests h)
cancel_job-Change row i now db e _ h = same

pub cancel_tx-Change :
    (i : String) (now : ℕ) (db : Db) {p : Public} {db' : Db}
    → cancel_tx i now db ≡ ok (p, db')
    → Change db db'
unfolding cancel_tx
cancel_tx-Change i now db {db'} h =
    let (row, e, h₁) = >>=-eq-ok (select i db) _ h in
    let (row', _, h₂) = >>=-eq-ok (select i (cancel_job row.status i now db)) _ h₁ in
    let there : cancel_job row.status i now db ≡ db' = ground arith in
    subst (Change db) there
      (cancel_job-Change row i now db (or_missing-eq-ok _ row e) row.status refl)

-- Where ids are distinct, each row is the one that its id Selects.
abbrev pub AreDistinct : List Job → Type 0
AreDistinct jobs = (i : String) → count (by_id i) jobs ≤ 1

abbrev pub Selects : List Job → Job → Type 0
Selects jobs r = find (by_id r.id) jobs ≡ some r

pub All-Selects : (jobs : List Job) → AreDistinct jobs → All (Selects jobs) jobs
All-Selects [] d = tt
All-Selects (x ∷ jobs) d = (
  rw (==_refl x.id) refl,
  All-map jobs
      (λ r e. elim (Bool-cases (x.id == r.id)) [
        | inl hit ↦ absurd (omega (arith, find-count (by_id r.id) r jobs e, d r.id, ap weight hit))
        | inr miss ↦ rw miss e
      ])
      (All-Selects jobs (λ i. omega (arith, d i))),
)

pub All-first_for {κ} :
    (P : Job → Type κ) (projects : List String) (rows : List Job) (row : Job)
    → All P rows
    → first_for projects rows ≡ ok (some row)
    → P row
unfolding first_for
All-first_for P projects [] row h e = cc
All-first_for P projects (r ∷ rows) row h e =
    let (wanted, _, k) = >>=-eq-ok (is_for projects r) _ e in
    elim (Bool-cases wanted) [
      | inl hit ↦ let found : ok (some r) ≡ ok (some row) = rw hit at k in subst P (cc) h.0
      | inr miss ↦ All-first_for P projects rows row h.1 (rw miss at k)
    ]

give-Change :
    (worker lease : String) (now : ℕ) (chosen : Option Job) (db : Db) {c : Option Claim} {db' : Db}
    → any has_active db.jobs ≡ false
    → ((row : Job) → chosen ≡ some row → (is_queued row.status ≡ true) × Selects db.jobs row)
    → give worker lease now chosen db ≡ ok (c, db')
    → Change db db'
unfolding give
give-Change worker lease now none db {db'} idle picked h =
    let there : db ≡ db' = ground arith in subst (Change db) there same
give-Change worker lease now (some row) db {db'} idle picked h =
    let (ready, there_is) = picked row refl in
    let after = update_job row.id (start worker lease now) db in
    let (row', _, k) = >>=-eq-ok (select row.id after) _ h in
    let there : after ≡ db' = ground arith in
    subst (Change db) there (starts row worker lease now idle there_is (ground arith))

pub claim_tx-Change :
    (worker : String) (projects : List String) (lease : String) (now : ℕ) (db : Db)
    {c : Option Claim} {db' : Db}
    → AreDistinct db.jobs
    → claim_tx worker projects lease now db ≡ ok (c, db')
    → Change db db'
unfolding claim_tx
claim_tx-Change worker projects lease now db {c} {db'} d h =
    elim (Bool-cases (any has_active db.jobs)) [
      | inl busy ↦
          let there : db ≡ db' = ok-second none c db db' (rw busy at h) in
          subst (Change db) there same
      | inr idle ↦
          let queue = filter has_queued db.jobs in
          let (chosen, e, k) =
            >>=-eq-ok (first_for projects (sort_by older queue)) _ (rw idle at h) in
          let ready = All-sort_by older _ queue (
            All-both _ (Selects db.jobs) queue (filter-All has_queued db.jobs)
              (All-filter (Selects db.jobs) has_queued db.jobs (All-Selects db.jobs d))) in
          give-Change worker lease now chosen db idle
            (λ row is.
              All-first_for _ projects (sort_by older queue) row ready
                (subst (λ o. first_for projects (sort_by older queue) ≡ ok o) is e))
            k
    ]

enqueue-Change :
    (spec : Json) (key job_id : String) (now : ℕ) (db : Db) {p : Public} {db' : Db}
    → enqueue spec key job_id now db ≡ ok (p, db')
    → Change db db'
unfolding enqueue insert_job
enqueue-Change spec key job_id now db {db'} h =
    let (_, h₁) = require-eq-ok (ltb (count has_queued db.jobs) 1000) _ _ h in
    let (expires_in, _, h₂) = >>=-eq-ok (expiry_of spec) _ h₁ in
    let row = new_job job_id spec key now expires_in in
    let (after, e, h₃) = >>=-eq-ok (insert_job row db) _ h₂ in
    let (row', _, h₄) = >>=-eq-ok (select job_id after) _ h₃ in
    let there : record db { jobs = db.jobs ++ row ∷ [] } ≡ db' = ground arith in
    subst (Change db) there (inserts job_id spec key now expires_in (ground arith) (ground arith))

submit_with-Change :
    (found : Option Job) (spec : Json) (key job_id : String) (now : ℕ) (db : Db) {p : Public}
    {db' : Db}
    → submit_with found spec key job_id now db ≡ ok (p, db')
    → Change db db'
unfolding submit_with
submit_with-Change (some row) spec key job_id now db {db'} h =
    let (_, k) = require-eq-ok (py_eq row.spec spec) _ _ h in
    let there : db ≡ db' = ground arith in subst (Change db) there same
submit_with-Change none spec key job_id now db h = enqueue-Change spec key job_id now db h

pub submit_tx-Change :
    (spec : Json) (key job_id : String) (now : ℕ) (db : Db) {p : Public} {db' : Db}
    → submit_tx spec key job_id now db ≡ ok (p, db')
    → Change db db'
unfolding submit_tx
submit_tx-Change spec key job_id now db h =
    submit_with-Change (find (by_key key) db.jobs) spec key job_id now db h
