-- ===== src/Store/Idempotence/Submission.antt =====
-- A submission under a request key that was used before.
use macqueue.Base.{
  ℕ, ◌≡◌, refl, ◌∙◌, sym, ap, subst, String, true, Option, none, some, List, [], ◌∷◌, ◌++◌, Result,
  ok, err, >>=-eq-ok, require-eq-ok, ltb, arith, ◌==◌, string_eq, ==_refl, Bool-cases, inl, inr,
  integrity, eq_of_==, value_error,
}
use macqueue.Base.Lists.{any, find, count}
use macqueue.Base.Updates.{find-append, find_unique, find_passes}
use macqueue.Json.{Json, py_eq, is_encodable}
use macqueue.Store.Rows.{Db, Job, Public, view, reap, encode, select, by_id, by_key, has_queued}
use macqueue.Store.Queue.{
  submit, submit_encoded, submit_tx, submit_with, enqueue, insert_job, expiry_of, new_job,
}
use macqueue.Store.Steps.Effects.{or_missing-eq-ok}
use macqueue.Store.Invariant.{IsSound}
use macqueue.Store.Invariant.Changes.{reap-IsSound}
use macqueue.Store.History.{Call, step, run}
use macqueue.Store.History.Sound.{run-IsSound, step-IsSound}
use macqueue.Store.History.Life.{run-Stays, reap-Stays}
use macqueue.Store.Idempotence.{transaction-eq-ok}

-- The row that a submission's reply shows.
record Submitted (spec : Json) (key : String) (p : Public) (db : Db) : Type 0 where
  row : Job
  found : find (by_id p.id) db.jobs ≡ some row
  keyed : row.request_key ≡ key
  shown : view row ≡ p

view-id : (row : Job) (p : Public) → view row ≡ p → row.id ≡ p.id
unfolding view
view-id row p h = ap (λ q. q.id) h

view-spec : (row : Job) (p : Public) → view row ≡ p → row.spec ≡ p.spec
unfolding view
view-spec row p h = ap (λ q. q.spec) h

some-Job : (j k : Job) → some j ≡ some k → j ≡ k
some-Job j k h = cc

insert_job-eq-ok :
    (new : Job) (db after : Db)
    → insert_job new db ≡ ok after
    → (after ≡ record db { jobs = db.jobs ++ new ∷ [] })
      × (find (by_id new.id) after.jobs ≡ some new)
unfolding insert_job
insert_job-eq-ok new db after h = elim (Bool-cases (any (by_id new.id) db.jobs)) [
  | inl taken ↦ let clash : err integrity ≡ ok after = rw taken at h in cc
  | inr fresh ↦
      let added : record db { jobs = db.jobs ++ new ∷ [] } ≡ after = ground arith in
      (
        sym added,
        subst (λ d. find (by_id new.id) d.jobs ≡ some new) added
            (find-append (by_id new.id) db.jobs (new ∷ []) ∙ rw fresh (rw (==_refl new.id) refl)),
      )
]

submit_with-Submitted :
    (o : Option Job) (spec : Json) (key job_id : String) (now : ℕ) (db : Db) (p : Public) (db' : Db)
    → IsSound db
    → find (by_key key) db.jobs ≡ o
    → submit_with o spec key job_id now db ≡ ok (p, db')
    → Submitted spec key p db'
unfolding submit_with enqueue insert_job
submit_with-Submitted (some row) spec key job_id now db p db' v e h =
    let (_, k) = require-eq-ok (py_eq row.spec spec) _ _ h in
    let shown : view row ≡ p = cc in
    let same : db ≡ db' = cc in
    record {
      row = row;
      found =
          subst (λ d. find (by_id p.id) d.jobs ≡ some row) same
            (find_unique (by_id p.id) (by_key key) row db.jobs (v.distinct_ids p.id) e
              (ap (λ i. i == p.id) (view-id row p shown) ∙ ==_refl p.id));
      keyed = eq_of_== row.request_key key (find_passes (by_key key) (λ j. j) row db.jobs e);
      shown = shown;
    }
submit_with-Submitted none spec key job_id now db p db' v e h =
    let (_, h₁) = require-eq-ok (ltb (count has_queued db.jobs) 1000) _ _ h in
    let (expires_in, _, h₂) = >>=-eq-ok (expiry_of spec) _ h₁ in
    let new = new_job job_id spec key now expires_in in
    let (after, there, h₃) = >>=-eq-ok (insert_job new db) _ h₂ in
    let (row, e₄, h₄) = >>=-eq-ok (select job_id after) _ h₃ in
    let (added, is_new) = insert_job-eq-ok new db after there in
    let found : find (by_id job_id) after.jobs ≡ some row = or_missing-eq-ok _ row e₄ in
    let same_row : some new ≡ some row = sym is_new ∙ found in
    let shown : view row ≡ p = cc in
    let same : after ≡ db' = cc in
    let same_id : job_id ≡ p.id =
      ap (λ r. r.id) (some-Job new row same_row) ∙ view-id row p shown in
    record {
      row = row;
      found =
          subst (λ d. find (by_id p.id) d.jobs ≡ some row) same
            (subst (λ i. find (by_id i) after.jobs ≡ some row) same_id found);
      keyed = ap (λ r. r.request_key) (sym (some-Job new row same_row));
      shown = shown;
    }

submit_encoded-Submitted :
    (r : Result Json) (spec : Json) (key job_id : String) (t now : ℕ) (db : Db) (p : Public)
    (db' : Db)
    → IsSound db
    → ◌≡◌ {A = Result Public × Db} (submit_encoded r key job_id t now db) (ok p, db')
    → Submitted spec key p db'
unfolding submit_encoded submit_tx
submit_encoded-Submitted (ok encoded) spec key job_id t now db p db' v h =
    let done = transaction-eq-ok t (submit_tx encoded key job_id now) db p db' h in
    let r =
      submit_with-Submitted (find (by_key key) (reap t db).jobs) encoded key job_id now (reap t db)
        p db' (reap-IsSound t db v) refl done in
    record { row = r.row; found = r.found; keyed = r.keyed; shown = r.shown }
submit_encoded-Submitted (err e) spec key job_id t now db p db' v h =
    let clash : err e ≡ ok p = ap (λ q. q.0) h in cc

submit-IsSound :
    (spec : Json) (key job_id : String) (t now : ℕ) (db : Db) (p : Public) (db' : Db)
    → IsSound db
    → ◌≡◌ {A = Result Public × Db} (submit spec key job_id t now db) (ok p, db')
    → IsSound db'
unfolding step
submit-IsSound spec key job_id t now db p db' v h =
    subst IsSound (ap (λ q. q.1) h) (step-IsSound db (t, Call.submit spec key job_id now) v)

view_id : (row : Job) → (view row).id ≡ row.id
unfolding view
view_id row = refl

encoded_of_submit :
    (spec : Json) (key job_id : String) (t now : ℕ) (db : Db) (p : Public) (db' : Db)
    → ◌≡◌ {A = Result Public × Db} (submit spec key job_id t now db) (ok p, db')
    → encode spec ≡ ok spec
unfolding submit submit_encoded
encoded_of_submit spec key job_id t now db p db' h = elim (Bool-cases (is_encodable spec)) [
  | inl e ↦ rw e refl
  | inr e ↦ let clash : err value_error ≡ ok p = ap (λ q. q.0) (rw e at h) in cc
]

-- The reply to a key that a row has, where the specs are equal.
resubmit :
    (spec : Json) (key job_id : String) (t now : ℕ) (db : Db) (row : Job)
    → encode spec ≡ ok spec
    → find (by_key key) (reap t db).jobs ≡ some row
    → py_eq row.spec spec ≡ true
    → ◌≡◌ {A = Result Public × Db} (submit spec key job_id t now db) (ok (view row), reap t db)
unfolding submit
resubmit spec key job_id t now db row enc e agrees =
    rw (enc, submit_encoded) (rw (e, submit_with) (rw agrees refl))

-- A submission that was accepted, then any calls of anyone, then the same submission again: the
-- second one is accepted, shows the same job, and changes no row beyond the reaping. (The submitted
-- value must equal the stored one, which only a value with a NaN inside does not.)
pub submit_again :
    (spec : Json) (key job_id : String) (t now : ℕ) (db : Db) (p : Public) (db' : Db)
    (cs : List (ℕ × Call)) (job_id₂ : String) (t₂ now₂ : ℕ)
    → IsSound db
    → ◌≡◌ {A = Result Public × Db} (submit spec key job_id t now db) (ok p, db')
    → py_eq p.spec spec ≡ true
    → (q : Public) × (◌≡◌ {A = Result Public × Db}
        (submit spec key job_id₂ t₂ now₂ (run db' cs))
        (ok q, reap t₂ (run db' cs)))
      × (q.id ≡ p.id)
unfolding submit
submit_again spec key job_id t now db p db' cs job_id₂ t₂ now₂ v h agrees =
    let enc = encoded_of_submit spec key job_id t now db p db' h in
    let r = submit_encoded-Submitted (encode spec) spec key job_id t now db p db' v h in
    let v' = submit-IsSound spec key job_id t now db p db' v h in
    let st = run-Stays db' cs p.id r.row v' r.found in
    let last = reap-Stays t₂ (run db' cs) p.id st.row st.found in
    let later = reap t₂ (run db' cs) in
    let sound = reap-IsSound t₂ (run db' cs) (run-IsSound db' cs v') in
    let keyed = last.evolved.request_key ∙ st.evolved.request_key ∙ r.keyed in
    let spec_kept = last.evolved.spec ∙ st.evolved.spec ∙ view-spec r.row p r.shown in
    let there : find (by_key key) later.jobs ≡ some last.row =
      find_unique (by_key key) (by_id p.id) last.row later.jobs (sound.distinct_keys key) last.found
        (ap (λ k. k == key) keyed ∙ ==_refl key) in
    (
      view last.row,
      resubmit spec key job_id₂ t₂ now₂ (run db' cs) last.row enc there
          (ap (λ s. py_eq s spec) spec_kept ∙ agrees),
      view_id last.row
          ∙ eq_of_== last.row.id p.id
              (find_passes (by_id p.id) (λ j. j) last.row later.jobs last.found),
    )
