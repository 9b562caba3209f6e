-- ===== src/Store/Steps.antt =====
-- The life of a job as a step relation, and what each method does to the tables in its terms.
pub mod Effects
pub mod Claims
use macqueue.Base.{
  ℕ, ◌+◌, ◌≤◌, ◌≡◌, String, Bool, true, false, Option, none, some, List, [], ◌∷◌, ◌++◌,
}
use macqueue.Base.Int.{ℤ}
use macqueue.Base.Lists.{any, find}
use macqueue.Base.Text.{encoded_size}
use macqueue.Json.{Json}
use macqueue.Store.Rows.{
  Status, queued, running, cancel_requested, cancelled, cancel_requested, cancelled, Job, Log, Db,
  is_active, is_terminal, is_succeeded, is_truthy, by_id, by_key, has_active, update_job, expire,
  lapse, overdue, lapsed,
}
use macqueue.Store.Queue.{new_job, start, cancel_now, request_cancel}
use macqueue.Store.Leases.{renew, add_bytes, set_artifact, complete, max_log_bytes, at_seq}

-- What a method may do to a row that is not new and is not being claimed.
pub data RowStep : Job → Job → Type 0 where
  cancels : {j : Job} (now : ℕ) → j.status ≡ queued → RowStep j (cancel_now now j)
  requests : {j : Job} → j.status ≡ running → RowStep j (request_cancel j)
  renews : {j : Job} (now : ℕ) → is_active j.status ≡ true → RowStep j (renew now j)
  publishes :
      {j : Job} (name sha : String)
      → is_active j.status ≡ true
      → RowStep j (set_artifact name sha j)
  completes :
      {j : Job} (status : Status) (result : Json) (now : ℕ)
      → is_active j.status ≡ true
      → is_terminal status ≡ true
      → (is_succeeded status ≡ true → is_truthy j.artifact ≡ true)
      → (j.status ≡ cancel_requested → status ≡ cancelled)
      → RowStep j (complete status result now j)

-- One committed change of the tables.
pub data Change : Db → Db → Type 0 where
  same : {db : Db} → Change db db
  inserts :
      {db : Db} (job_id : String) (spec : Json) (key : String) (now expires_in : ℕ)
      → any (by_id job_id) db.jobs ≡ false
      → any (by_key key) db.jobs ≡ false
      → Change db (record db { jobs = db.jobs ++ new_job job_id spec key now expires_in ∷ [] })
  starts :
      {db : Db} (row : Job) (worker lease : String) (now : ℕ)
      → any has_active db.jobs ≡ false
      → find (by_id row.id) db.jobs ≡ some row
      → row.status ≡ queued
      → Change db (update_job row.id (start worker lease now) db)
  steps :
      {db : Db} (i : String) (row : Job) (f : Job → Job)
      → find (by_id i) db.jobs ≡ some row
      → RowStep row (f row)
      → Change db (update_job i f db)
  writes :
      {db : Db} (i : String) (row : Job) (seq : ℤ) (text : String)
      → find (by_id i) db.jobs ≡ some row
      → is_active row.status ≡ true
      → find (at_seq i seq) db.logs ≡ none
      → row.log_bytes + encoded_size text ≤ max_log_bytes
      → Change db (
          update_job i
            (add_bytes (encoded_size text))
            (record db { logs = db.logs ++ record { job_id = i; seq = seq; text = text } ∷ [] }))
