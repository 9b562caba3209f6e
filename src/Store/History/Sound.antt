-- ===== src/Store/History/Sound.antt =====
-- Whatever the calls, the tables stay sound: each call either changes nothing or commits one
-- `Change` of the reaped tables.
use macqueue.Base.{
  ℕ, ◌≡◌, refl, subst, String, true, Option, none, some, List, [], ◌∷◌, Result, ok, err, >>=-eq-ok,
  require-eq-ok, ok-second, arith,
}
use macqueue.Base.Lists.{any, find, filter, take}
use macqueue.Base.Sorting.{sort_by}
use macqueue.Base.Int.{ℤ}
use macqueue.Json.{Json}
use macqueue.Store.Rows.{
  view, Public, Log, Db, Tx, commit, transaction, reap, is_terminal, Status, final_status, encode,
  select, by_id,
}
use macqueue.Store.Queue.{
  submit_encoded, summaries, Summary, newer, submit_tx, get_tx, list_tx, claim_tx, cancel_tx,
}
use macqueue.Store.Leases.{
  finish_as, artifact_of, earlier, is_after, heartbeat_tx, append_log_tx, logs_tx, artifact_tx,
  publish_tx, finish_tx,
}
use macqueue.Store.Steps.{Change, same}
use macqueue.Store.Steps.Effects.{
  heartbeat_tx-Change, append_log_tx-Change, publish_tx-Change, finish_tx-Change,
}
use macqueue.Store.Steps.Claims.{submit_tx-Change, claim_tx-Change, cancel_tx-Change}
use macqueue.Store.Invariant.{IsSound}
use macqueue.Store.Invariant.Changes.{Change-IsSound, reap-IsSound}
use macqueue.Store.History.{
  Call, submit, get, list, claim, cancel, heartbeat, append_log, logs, artifact, publish, finish,
  step, run, empty,
}

-- What one transaction may do to the tables.
pub data Commits (t : ℕ) (db : Db) : Db → Type 0 where
  rolls_back : Commits t db db
  changes : {db' : Db} → Change (reap t db) db' → Commits t db db'

commit-Commits {ℓ} :
    {A : Type ℓ} (t : ℕ) (db : Db) (r : Result (A × Db))
    → ((a : A) (db' : Db) → r ≡ ok (a, db') → Change (reap t db) db')
    → Commits t db (commit db r).1
commit-Commits t db (ok (a, db')) h = changes (h a db' refl)
commit-Commits t db (err e) h = rolls_back

transaction-Commits {ℓ} :
    {A : Type ℓ} (t : ℕ) (body : Tx A) (db : Db)
    → ((a : A) (db' : Db) → body (reap t db) ≡ ok (a, db') → Change (reap t db) db')
    → Commits t db (transaction t body db).1
unfolding transaction
transaction-Commits t body db h = commit-Commits t db (body (reap t db)) h

-- The readers return the tables as they are.
reads {ℓ} :
    {A : Type ℓ} (a a' : A) (db : Db) {db' : Db}
    → ◌≡◌ {A = Result (A × Db)} (ok (a, db)) (ok (a', db'))
    → Change db db'
reads a a' db {db'} h = subst (Change db) (ok-second a a' db db' h) same

get_tx-Change :
    (i : String) (db : Db) {p : Public} {db' : Db} → get_tx i db ≡ ok (p, db') → Change db db'
unfolding get_tx
get_tx-Change i db {p} h = let (row, _, k) = >>=-eq-ok (select i db) _ h in reads (view row) p db k

list_tx-Change :
    (n : ℕ) (db : Db) {p : List Summary} {db' : Db} → list_tx n db ≡ ok (p, db') → Change db db'
unfolding list_tx
list_tx-Change n db {p} h =
    let (items, _, k) = >>=-eq-ok (summaries (take n (sort_by newer db.jobs))) _ h in
    reads items p db k

logs_tx-Change :
    (i : String) (after : ℤ) (db : Db) {p : List Log} {db' : Db}
    → logs_tx i after db ≡ ok (p, db')
    → Change db db'
unfolding logs_tx
logs_tx-Change i after db {p} h =
    let (_, k) = require-eq-ok (any (by_id i) db.jobs) _ _ h in
    reads (take 100 (sort_by earlier (filter (is_after i after) db.logs))) p db k

artifact_tx-Change :
    (i : String) (db : Db) {p : String × Option String} {db' : Db}
    → artifact_tx i db ≡ ok (p, db')
    → Change db db'
unfolding artifact_tx
artifact_tx-Change i db {p} h =
    let (found, _, k) = >>=-eq-ok (artifact_of (find (by_id i) db.jobs)) _ h in reads found p db k

pub final_status-terminal : (v : Json) (s : Status) → final_status v ≡ some s → is_terminal s ≡ true
final_status-terminal v s h = ground arith

finish_as-Commits :
    (o : Option Status) (v : Json) (i lease : String) (result : Json) (t now : ℕ) (db : Db)
    → final_status v ≡ o
    → Commits t db (finish_as o i lease result t now db).1
unfolding finish_as
finish_as-Commits none v i lease result t now db e = rolls_back
finish_as-Commits (some s) v i lease result t now db e =
    transaction-Commits t (finish_tx i lease s result now) db
      λ p db' h. finish_tx-Change i lease s result now (reap t db) (final_status-terminal v s e) h

submit-Commits :
    (r : Result Json) (key job_id : String) (t now : ℕ) (db : Db)
    → Commits t db (submit_encoded r key job_id t now db).1
unfolding submit_encoded
submit-Commits (ok spec) key job_id t now db =
    transaction-Commits t (submit_tx spec key job_id now) db
      λ p db' h. submit_tx-Change spec key job_id now (reap t db) h
submit-Commits (err e) key job_id t now db = rolls_back

-- Every call rolls back or commits one change of the reaped tables.
pub step-Commits : (db : Db) (t : ℕ) (c : Call) → IsSound db → Commits t db (step db (t, c))
unfolding step
step-Commits db t (submit spec key job_id now) v = submit-Commits (encode spec) key job_id t now db
step-Commits db t (get i) v =
    transaction-Commits t (get_tx i) db λ p db' h. get_tx-Change i (reap t db) h
step-Commits db t (list n) v =
    transaction-Commits t (list_tx n) db λ p db' h. list_tx-Change n (reap t db) h
step-Commits db t (claim worker projects lease now) v =
    transaction-Commits t (claim_tx worker projects lease now) db λ p db' h.
      claim_tx-Change worker projects lease now (reap t db) (reap-IsSound t db v).distinct_ids h
step-Commits db t (cancel i now) v =
    transaction-Commits t (cancel_tx i now) db λ p db' h. cancel_tx-Change i now (reap t db) h
step-Commits db t (heartbeat i lease now) v =
    transaction-Commits t (heartbeat_tx i lease now) db
      λ p db' h. heartbeat_tx-Change i lease now (reap t db) h
step-Commits db t (append_log i lease seq text) v =
    transaction-Commits t (append_log_tx i lease seq text) db
      λ p db' h. append_log_tx-Change i lease seq text (reap t db) h
step-Commits db t (logs i after) v =
    transaction-Commits t (logs_tx i after) db λ p db' h. logs_tx-Change i after (reap t db) h
step-Commits db t (artifact i) v =
    transaction-Commits t (artifact_tx i) db λ p db' h. artifact_tx-Change i (reap t db) h
step-Commits db t (publish i lease name sha) v =
    transaction-Commits t (publish_tx i lease name sha) db
      λ p db' h. publish_tx-Change i lease name sha (reap t db) h
step-Commits db t (finish i lease status result now) v =
    finish_as-Commits (final_status status) status i lease result t now db refl

pub step-IsSound : (db : Db) (c : ℕ × Call) → IsSound db → IsSound (step db c)
step-IsSound db (t, c) v = keep (step-Commits db t c v)
  where
    keep : {after : Db} → Commits t db after → IsSound after
    keep rolls_back = v
    keep (changes ch) = Change-IsSound ch (reap-IsSound t db v)

pub run-IsSound : (db : Db) (cs : List (ℕ × Call)) → IsSound db → IsSound (run db cs)
unfolding run
run-IsSound db [] v = v
run-IsSound db (c ∷ cs) v = run-IsSound (step db c) cs (step-IsSound db c v)

-- After any sequence of calls on an empty queue, whatever their arguments and clock readings: at
-- most one job is running or asked to cancel; ids, request keys and log numbers are unique; each
-- row's lease, times and artifact agree with its status; and each job's `log_bytes` is the size of
-- its log chunks, at most 16 MiB.
pub run-empty-IsSound : (cs : List (ℕ × Call)) → IsSound (run empty cs)
run-empty-IsSound cs = run-IsSound empty cs (record {
  rows = tt;
  one_active = omega arith;
  distinct_ids = λ i. omega arith;
  distinct_keys = λ k. omega arith;
  distinct_logs = λ i q. omega arith;
  accounted = tt;
  refer = tt;
})
