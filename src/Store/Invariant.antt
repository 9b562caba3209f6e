-- ===== src/Store/Invariant.antt =====
-- What holds of the tables between two transactions.
pub mod Rows
pub mod Updates
pub mod Writes
pub mod Changes
use macqueue.Base.{
  ℕ, ◌+◌, ◌≤◌, ◌≡◌, String, Bool, true, false, Option, none, List, [], ◌∷◌, ◌==◌, string_eq,
  is_some, if◌then◌else◌,
}
use macqueue.Base.Int.{ℤ}
use macqueue.Base.Lists.{All, any, count}
use macqueue.Base.Text.{encoded_size}
use macqueue.Store.Rows.{
  Status, queued, Job, Log, Db, is_active, is_terminal, is_succeeded, is_truthy, has_active, by_id,
  by_key,
}
use macqueue.Store.Leases.{at_seq, max_log_bytes}

-- The columns of a row agree with its status.
pub record IsRow (j : Job) : Type 0 where
  pub leased : is_active j.status ≡ true → is_some j.lease ≡ true
  pub timed : is_active j.status ≡ true → is_some j.lease_until ≡ true
  pub open_ended : is_active j.status ≡ true → j.finished ≡ none
  pub waiting : j.status ≡ queued → (j.lease ≡ none) × (j.started ≡ none) × (j.finished ≡ none)
  pub ended : is_terminal j.status ≡ true → is_some j.finished ≡ true
  pub has_file : is_succeeded j.status ≡ true → is_truthy j.artifact ≡ true
  pub log_capped : j.log_bytes ≤ max_log_bytes

-- The bytes of the log chunks of one job.
abbrev pub bytes_of : String → List Log → ℕ
bytes_of i [] = 0
bytes_of i (l ∷ ls) = (if l.job_id == i then encoded_size l.text else 0) + bytes_of i ls

abbrev pub IsAccounted : List Log → Job → Type 0
IsAccounted logs j = j.log_bytes ≡ bytes_of j.id logs

abbrev pub Refers : List Job → Log → Type 0
Refers jobs l = 1 ≤ count (by_id l.job_id) jobs

pub record IsSound (db : Db) : Type 0 where
  pub rows : All IsRow db.jobs
  pub one_active : count has_active db.jobs ≤ 1
  pub distinct_ids : (i : String) → count (by_id i) db.jobs ≤ 1
  pub distinct_keys : (k : String) → count (by_key k) db.jobs ≤ 1
  pub distinct_logs : (i : String) (q : ℤ) → count (at_seq i q) db.logs ≤ 1
  pub accounted : All (IsAccounted db.logs) db.jobs
  pub refer : All (Refers db.jobs) db.logs
