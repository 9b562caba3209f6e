-- ===== src/Store/Invariant/Rows.antt =====
-- Every step of a row keeps its columns in agreement with its status.
use macqueue.Base.{ℕ, ◌+◌, ◌≤◌, ◌≡◌, String, true, arith}
use macqueue.Json.{Json}
use macqueue.Store.Rows.{queued, Job, expire, lapse, overdue, lapsed}
use macqueue.Store.Queue.{new_job, start}
use macqueue.Store.Leases.{add_bytes, max_log_bytes}
use macqueue.Store.Steps.{RowStep, cancels, requests, renews, publishes, completes}
use macqueue.Store.Invariant.{IsRow}

pub RowStep-IsRow : {j k : Job} → RowStep j k → IsRow j → IsRow k
RowStep-IsRow (cancels now h) v = ground arith
RowStep-IsRow (requests h) v = ground arith
RowStep-IsRow (renews now h) v = ground arith
RowStep-IsRow (publishes name sha h) v = ground arith
RowStep-IsRow (completes status result now h t a c) v = ground arith

pub new_job-IsRow :
    (job_id : String) (spec : Json) (key : String) (now expires_in : ℕ)
    → IsRow (new_job job_id spec key now expires_in)
new_job-IsRow job_id spec key now expires_in = ground arith

pub start-IsRow :
    (j : Job) (worker lease : String) (now : ℕ)
    → IsRow j
    → j.status ≡ queued
    → IsRow (start worker lease now j)
start-IsRow j worker lease now v h = ground arith

pub add_bytes-IsRow :
    (j : Job) (n : ℕ) → IsRow j → j.log_bytes + n ≤ max_log_bytes → IsRow (add_bytes n j)
add_bytes-IsRow j n v h = ground arith

pub expire-IsRow : (now : ℕ) (j : Job) → IsRow j → overdue now j ≡ true → IsRow (expire now j)
expire-IsRow now j v h = ground arith

pub lapse-IsRow : (now : ℕ) (j : Job) → IsRow j → lapsed now j ≡ true → IsRow (lapse now j)
lapse-IsRow now j v h = ground arith
