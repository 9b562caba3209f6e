-- ===== src/Worker/Pruning.antt =====
-- `prune_worker` of macqueue/worker.py, which holds the lock of the worker while it deletes. Names of
-- receipts, workspaces and archives are the identifiers of their jobs, and a directory has each once.
use macqueue.Base.{
  ℕ, suc, ◌+◌, ◌*◌, ◌^◌, String, Bool, not, ◌&&◌, ◌||◌, List, [], ◌∷◌, ◌==◌, nat_eq, string_eq, leb,
  if◌then◌else◌, Result, ok, err, invalid,
}
use macqueue.Base.Lists.{any, filter}
use macqueue.Worker.Handling.{is_job_id}

-- A receipt, with the time of its last change.
pub record Stored : Type 0 where
  pub job_id : String
  pub modified : ℕ
  pub delivered : Bool
  pub artifact_error : Bool

-- The state directory: receipts, workspaces under jobs/ with whether they are symbolic links, and
-- archives.
pub record Local : Type 0 where
  pub receipts : List Stored
  pub workspaces : List (String × Bool)
  pub archives : List String

abbrev pub day : ℕ
day = 86400 * 10 ^ 6

-- Too new, not delivered, or without its artifact.
abbrev pub is_kept : ℕ → ℕ → Stored → Bool
is_kept now days r = leb now (r.modified + days * day) || not r.delivered || r.artifact_error

abbrev pub is_linked : String → List (String × Bool) → Bool
is_linked id = any (λ w. w.0 == id && w.1)

-- The workspace, the archive and the receipt of a job.
abbrev pub delete : String → Local → Local
delete id st = record {
  receipts = filter (λ r. not (r.job_id == id)) st.receipts;
  workspaces = filter (λ w. not (w.0 == id)) st.workspaces;
  archives = filter (λ a. not (a == id)) st.archives;
}

abbrev pub count_one : Result ℕ × Local → Result ℕ × Local
count_one (err e, st) = (err e, st)
count_one (ok n, st) = (ok (suc n), st)

unfoldable pub prune_each : ℕ → ℕ → List Stored → Local → Result ℕ × Local
prune_each now days [] st = (ok 0, st)
prune_each now days (r ∷ rs) st =
    let skipped = prune_each now days rs st in
    let deleted = count_one (prune_each now days rs (delete r.job_id st)) in
    if is_kept now days r
    then skipped
    else if not (is_job_id r.job_id)
    then (err (invalid "invalid local receipt name"), st)
    else if is_linked r.job_id st.workspaces
    then (err (invalid "job directory cannot be a symlink"), st)
    else deleted

unfoldable pub prune_worker : ℕ → ℕ → Local → Result ℕ × Local
prune_worker now days st = prune_each now days st.receipts st
