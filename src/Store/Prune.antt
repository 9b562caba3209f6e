-- ===== src/Store/Prune.antt =====
-- `prune` of store.py, with the files it removes: artifacts by name, source packages in `inputs/`
-- by the checksum that is their name before `.tar.gz`.
use macqueue.Base.{
  ℕ, ◌+◌, ◌*◌, String, Bool, false, not, ◌&&◌, ◌||◌, none, some, List, [], ◌∷◌, ◌++◌, ◌==◌,
  string_eq, ltb, if◌then◌else◌, Result, ok, err, type_error, ◌>>=◌,
}
use macqueue.Base.Lists.{any, filter, length}
use macqueue.Json.{Json, str, arr, obj, get_item, to_list, py_eq}
use macqueue.Store.Rows.{Job, Log, Db, reap, second}

pub record Package : Type 0 where
  pub sha : String
  pub modified : ℕ

-- The state directory: the database and the files beside it.
pub record Directory : Type 0 where
  pub db : Db
  pub artifacts : List String
  pub inputs : List Package

abbrev pub days : ℕ → ℕ
days n = n * 86400 * second

-- `finished < now - days * 86400`
abbrev pub is_stale : ℕ → ℕ → Job → Bool
is_stale age now j = elim j.finished [ none ↦ false | some t ↦ ltb (t + days age) now ]

-- `row["artifact"]` is true and names this file.
abbrev pub names_file : String → Job → Bool
names_file name j = elim j.artifact [ none ↦ false | some a ↦ not (a == "") && a == name ]

abbrev pub logged_by : Log → Job → Bool
logged_by l j = j.id == l.job_id

-- Values that a Python set can hold.
hashable : Json → Result Json
hashable (arr xs) = err type_error
hashable (obj fs) = err type_error
hashable v = ok v

-- The checksum that a step refers to, if it is about a source package.
package_of : Json → Result (List Json)
unfolding hashable
package_of step = do
  op ← get_item step "op"
  if py_eq op (str "provision") || py_eq op (str "revoke-source")
      then (do sha ← get_item step "sha256"; v ← hashable sha; ok (v ∷ []))
      else ok []

packages_of : List Json → Result (List Json)
unfolding package_of
packages_of [] = ok []
packages_of (step ∷ steps) = do mine ← package_of step; rest ← packages_of steps; ok (mine ++ rest)

steps_of : Json → Result (List Json)
steps_of (arr steps) = ok (to_list steps)
steps_of _ = err type_error

unfoldable pub referenced : List Job → Result (List Json)
unfolding packages_of steps_of
referenced [] = ok []
referenced (row ∷ rows) = do
  value ← get_item row.spec "steps"
  steps ← steps_of value
  mine ← packages_of steps
  rest ← referenced rows
  ok (mine ++ rest)

abbrev pub is_unused : ℕ → ℕ → List Json → Package → Bool
is_unused age now refs p =
    not (any (λ v. py_eq (str p.sha) v) refs) && ltb (p.modified + days age) now

-- `DELETE FROM jobs`, and by `ON DELETE CASCADE` the logs of the deleted jobs.
abbrev pub delete_jobs : (Job → Bool) → Db → Db
delete_jobs gone db = record {
  jobs = filter (λ j. not (gone j)) db.jobs;
  logs = filter (λ l. not (any (logged_by l) (filter gone db.jobs))) db.logs;
}

-- Unlinking is not undone where the transaction is.
unfoldable pub prune : ℕ → ℕ → ℕ → ℕ → Directory → Result ℕ × Directory
unfolding reap referenced
prune age reaped_at now later s =
    let before = reap reaped_at s.db in
    let rows = filter (is_stale age now) before.jobs in
    let after = delete_jobs (is_stale age now) before in
    let artifacts = filter (λ name. not (any (names_file name) rows)) s.artifacts in
    elim (referenced after.jobs) [
      | err e ↦ (err e, record s { artifacts = artifacts })
      | ok refs ↦ (
        ok (length rows),
        record {
          db = after;
          artifacts = artifacts;
          inputs = filter (λ p. not (is_unused age later refs p)) s.inputs;
        },
      )
    ]
