-- ===== src/Store/Invariant/Changes.antt =====
-- Every change of the tables, and the reaping before it, keeps them sound.
use macqueue.Base.{ℕ, ◌≤◌, ◌≡◌, refl, sym, ap, ◌∙◌, String, Bool, true, ◌==◌, string_eq, arith}
use macqueue.Base.Lists.{All-map, All-find, count, update}
use macqueue.Base.Updates.{count-update, weight, All-update, count-update-le, count_of_any}
use macqueue.Store.Rows.{
  Job, Db, is_active, has_active, by_id, by_key, reap, overdue, expire, lapsed, lapse,
}
use macqueue.Store.Queue.{new_job, start}
use macqueue.Store.Steps.{
  Change, same, inserts, starts, steps, writes, RowStep, cancels, requests, renews, publishes,
  completes,
}
use macqueue.Store.Invariant.{IsRow, IsSound, IsAccounted, bytes_of}
use macqueue.Store.Invariant.Updates.{update_job-IsSound, insert-IsSound}
use macqueue.Store.Invariant.Writes.{write-IsSound}
use macqueue.Store.Invariant.Rows.{
  RowStep-IsRow, new_job-IsRow, start-IsRow, expire-IsRow, lapse-IsRow,
}

-- What no step of a row changes, and that only a claim makes a row active.
pub record Keeps (j k : Job) : Type 0 where
  pub id : k.id ≡ j.id
  pub request_key : k.request_key ≡ j.request_key
  pub log_bytes : k.log_bytes ≡ j.log_bytes
  pub active : weight (is_active k.status) ≤ weight (is_active j.status)

pub RowStep-Keeps : {j k : Job} → RowStep j k → Keeps j k
RowStep-Keeps (cancels now h) = ground arith
RowStep-Keeps (requests h) = ground arith
RowStep-Keeps (renews now h) = ground arith
RowStep-Keeps (publishes name sha h) = ground arith
RowStep-Keeps (completes status result now h t a c) = ground arith

pub Change-IsSound : {db db' : Db} → Change db db' → IsSound db → IsSound db'
Change-IsSound same v = v
Change-IsSound {db} (inserts job_id spec key now expires_in new_id new_key) v =
    insert-IsSound db (new_job job_id spec key now expires_in) v
      (new_job-IsRow job_id spec key now expires_in) refl refl
      (count_of_any (by_id job_id) db.jobs new_id) (count_of_any (by_key key) db.jobs new_key)
Change-IsSound {db} (starts row worker lease now idle found ready) v =
    let f = start worker lease now in
    update_job-IsSound db v row.id row f found refl refl
      (start-IsRow row worker lease now (All-find IsRow (by_id row.id) db.jobs row v.rows found)
        ready)
      refl (omega (arith, count_of_any has_active db.jobs idle))
Change-IsSound {db} (steps i row f found st) v =
    let k = RowStep-Keeps st in
    update_job-IsSound db v i row f found k.id k.request_key
      (RowStep-IsRow st (All-find IsRow (by_id i) db.jobs row v.rows found)) k.log_bytes
      (omega (arith, v.one_active, k.active))
Change-IsSound {db} (writes i row seq text found active fresh fits) v =
    write-IsSound db i row seq text v found fresh fits

-- A sweep over all rows that end some of them.
module _ (p : Job → Bool) (f : Job → Job) (keeps : (j : Job) → Keeps j (f j))
    (rows_ok : (j : Job) → IsRow j → p j ≡ true → IsRow (f j)) where
  sweep-IsSound : (db : Db) → IsSound db → IsSound (record db { jobs = update p f db.jobs })
  sweep-IsSound db v = record {
    rows = All-update p f IsRow IsRow db.jobs rows_ok (λ j r _. r) v.rows;
    one_active =
        omega
          (arith, v.one_active, count-update-le p f has_active db.jobs (λ j _. (keeps j).active));
    distinct_ids = λ i. omega (arith, v.distinct_ids i, same_ids i);
    distinct_keys = λ k. omega (
      arith,
      v.distinct_keys k,
      count-update p f (by_key k) db.jobs (λ j. ap (λ r. r == k) (keeps j).request_key),
    );
    distinct_logs = v.distinct_logs;
    accounted =
        All-update p f (IsAccounted db.logs) (IsAccounted db.logs) db.jobs
          (λ j a _. (keeps j).log_bytes ∙ a ∙ ap (λ r. bytes_of r db.logs) (sym (keeps j).id))
          (λ j a _. a) v.accounted;
    refer = All-map db.logs (λ l r. omega (arith, same_ids l.job_id)) v.refer;
  }
    where
      same_ids : (i : String) → count (by_id i) (update p f db.jobs) ≡ count (by_id i) db.jobs
      same_ids i = count-update p f (by_id i) db.jobs (λ j. ap (λ r. r == i) (keeps j).id)

pub expire-Keeps : (now : ℕ) (j : Job) → Keeps j (expire now j)
expire-Keeps now j = ground arith

pub lapse-Keeps : (now : ℕ) (j : Job) → Keeps j (lapse now j)
lapse-Keeps now j = ground arith

pub reap-IsSound : (now : ℕ) (db : Db) → IsSound db → IsSound (reap now db)
unfolding reap
reap-IsSound now db v =
    sweep-IsSound (lapsed now) (lapse now) (lapse-Keeps now) (lapse-IsRow now) _
      (sweep-IsSound (overdue now) (expire now) (expire-Keeps now) (expire-IsRow now) db v)
