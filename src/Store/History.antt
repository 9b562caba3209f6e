-- ===== src/Store/History.antt =====
-- The queue as its clients drive it: any sequence of calls, each one transaction, each with its own
-- readings of the clock and its fresh identifiers. `prune` is an operator's command and stands apart.
pub mod Sound
pub mod Life
use macqueue.Base.{ℕ, String, List, [], ◌∷◌}
use macqueue.Base.Int.{ℤ}
use macqueue.Json.{Json}
use macqueue.Store.Rows.{Db}
use macqueue.Store.Queue
use macqueue.Store.Leases

pub data Call : Type 0 where
  submit : (spec : Json) (key job_id : String) (now : ℕ) → Call
  get : (job_id : String) → Call
  list : (limit : ℕ) → Call
  claim : (worker : String) (projects : List String) (lease : String) (now : ℕ) → Call
  cancel : (job_id : String) (now : ℕ) → Call
  heartbeat : (job_id lease : String) (now : ℕ) → Call
  append_log : (job_id lease : String) (seq : ℤ) (text : String) → Call
  logs : (job_id : String) (after : ℤ) → Call
  artifact : (job_id : String) → Call
  publish : (job_id lease name sha : String) → Call
  finish : (job_id lease : String) (status result : Json) (now : ℕ) → Call

-- The tables after one call at the time `t` of its reaping.
unfoldable pub step : Db → ℕ × Call → Db
unfolding Queue.submit Queue.get Queue.list Queue.claim Queue.cancel Leases.heartbeat
    Leases.append_log Leases.logs Leases.artifact Leases.publish Leases.finish
step db (t, submit spec key job_id now) = (Queue.submit spec key job_id t now db).1
step db (t, get job_id) = (Queue.get job_id t db).1
step db (t, list limit) = (Queue.list limit t db).1
step db (t, claim worker projects lease now) = (Queue.claim worker projects lease t now db).1
step db (t, cancel job_id now) = (Queue.cancel job_id t now db).1
step db (t, heartbeat job_id lease now) = (Leases.heartbeat job_id lease t now db).1
step db (t, append_log job_id lease seq text) = (Leases.append_log job_id lease seq text t db).1
step db (t, logs job_id after) = (Leases.logs job_id after t db).1
step db (t, artifact job_id) = (Leases.artifact job_id t db).1
step db (t, publish job_id lease name sha) = (Leases.publish job_id lease name sha t db).1
step db (t, finish job_id lease status result now) =
    (Leases.finish job_id lease status result t now db).1

unfoldable pub run : Db → List (ℕ × Call) → Db
run db [] = db
run db (c ∷ cs) = run (step db c) cs

abbrev pub empty : Db
empty = record { jobs = []; logs = [] }
