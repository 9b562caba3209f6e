-- ===== src/Store/Leases.antt =====
-- The methods of store.py that a lease holder calls (`owned`, `heartbeat`, `append_log`, `finish`
-- and the publication of an artifact), and the readers `logs` and `artifact`.
use macqueue.Base.{
  ℕ, ◌+◌, ◌*◌, String, Bool, false, not, ◌&&◌, ◌||◌, Option, none, some, List, [], ◌∷◌, ◌++◌, ◌==◌,
  string_eq, leb, if◌then◌else◌, Result, ok, err, invalid, key_error, ◌>>=◌, ◌>>◌, require,
}
use macqueue.Base.Int.{ℤ, ltb_ℤ, int_eq}
use macqueue.Base.Lists.{find, filter, take, any}
use macqueue.Base.Sorting.{sort_by}
use macqueue.Base.Text.{encoded_size}
use macqueue.Json.{Json}
use macqueue.Json.Equality.{same_text}
use macqueue.Store.Rows.{
  Encoded, compact, spaced, Status, cancelled, is_terminal, is_active, is_succeeded, is_cancelled,
  is_cancel_requested, same_status, final_status, Job, Log, Db, Public, Tx, view, select,
  update_job, by_id, transaction, encode, compare_digest, is_truthy, lease_time,
}

-- `row["lease"] is not None and compare_digest(row["lease"], lease or "")`
abbrev pub holds : Option String → String → Result Bool
holds none given = ok false
holds (some lease) given = compare_digest lease given

unfoldable pub owned : String → String → Db → Result Job
owned job_id lease db = do
  row ← select job_id db
  granted ← holds row.lease lease
  require granted "wrong job lease"
  require (is_active row.status) "job lease is no longer active"
  ok row

pub record Beat : Type 0 where
  pub cancel : Bool
  pub lease_seconds : ℕ

abbrev pub renew : ℕ → Job → Job
renew now j = record j { lease_until = some (now + lease_time) }

unfoldable pub heartbeat_tx : String → String → ℕ → Tx Beat
unfolding owned
heartbeat_tx job_id lease now db = do
  row ← owned job_id lease db
  ok (
    record { cancel = is_cancel_requested row.status; lease_seconds = 60 },
    update_job job_id (renew now) db,
  )

unfoldable pub heartbeat : String → String → ℕ → ℕ → Db → Result Beat × Db
unfolding heartbeat_tx transaction
heartbeat job_id lease reaped_at now = transaction reaped_at (heartbeat_tx job_id lease now)

abbrev pub max_log_bytes : ℕ
max_log_bytes = 16 * 1024 * 1024

abbrev pub at_seq : String → ℤ → Log → Bool
at_seq job_id seq l = l.job_id == job_id && l.seq == seq

abbrev pub add_bytes : ℕ → Job → Job
add_bytes n j = record j { log_bytes = j.log_bytes + n }

-- With the log chunk that has this number, if there is one.
unfoldable pub append_with : Option Log → Job → String → ℤ → String → Tx (Unit {0})
append_with (some existing) row job_id seq text db = do
  require (existing.text == text) "log sequence collision"
  ok (tt, db)
append_with none row job_id seq text db = do
  require (leb (row.log_bytes + encoded_size text) max_log_bytes) "event log limit reached"
  let logs = db.logs ++ record { job_id = job_id; seq = seq; text = text } ∷ []
  ok (tt, update_job job_id (add_bytes (encoded_size text)) (record db { logs = logs }))

unfoldable pub append_log_tx : String → String → ℤ → String → Tx (Unit {0})
unfolding owned append_with
append_log_tx job_id lease seq text db = do
  row ← owned job_id lease db
  append_with (find (at_seq job_id seq) db.logs) row job_id seq text db

unfoldable pub append_log : String → String → ℤ → String → ℕ → Db → Result (Unit {0}) × Db
unfolding append_log_tx transaction
append_log job_id lease seq text reaped_at =
    transaction reaped_at (append_log_tx job_id lease seq text)

-- `WHERE job_id=? AND seq>? ORDER BY seq LIMIT 100`
abbrev pub is_after : String → ℤ → Log → Bool
is_after job_id after l = l.job_id == job_id && ltb_ℤ after l.seq

abbrev pub earlier : Log → Log → Bool
earlier a b = ltb_ℤ a.seq b.seq

unfoldable pub logs_tx : String → ℤ → Tx (List Log)
unfolding sort_by
logs_tx job_id after db = do
  require (any (by_id job_id) db.jobs) "job not found"
  ok (take 100 (sort_by earlier (filter (is_after job_id after) db.logs)), db)

unfoldable pub logs : String → ℤ → ℕ → Db → Result (List Log) × Db
unfolding logs_tx transaction
logs job_id after reaped_at = transaction reaped_at (logs_tx job_id after)

-- The file name and the checksum, where the row has a file name.
abbrev pub artifact_of : Option Job → Result (String × Option String)
artifact_of none = err (key_error "artifact not found")
artifact_of (some row) = elim row.artifact [
  | none ↦ err (key_error "artifact not found")
  | some name ↦
      if name == "" then err (key_error "artifact not found") else ok (name, row.artifact_sha256)
]

unfoldable pub artifact_tx : String → Tx (String × Option String)
artifact_tx job_id db = do found ← artifact_of (find (by_id job_id) db.jobs); ok (found, db)

unfoldable pub artifact : String → ℕ → Db → Result (String × Option String) × Db
unfolding artifact_tx transaction
artifact job_id reaped_at = transaction reaped_at (artifact_tx job_id)

-- The last transaction of the upload of an artifact (server.py): the lease is checked again before
-- the file takes its final name and the row refers to it.
abbrev pub set_artifact : String → String → Job → Job
set_artifact name sha j = record j { artifact = some name; artifact_sha256 = some sha }

unfoldable pub publish_tx : String → String → String → String → Tx (Unit {0})
unfolding owned
publish_tx job_id lease name sha db = do
  row ← owned job_id lease db
  ok (tt, update_job job_id (set_artifact name sha) db)

unfoldable pub publish : String → String → String → String → ℕ → Db → Result (Unit {0}) × Db
unfolding publish_tx transaction
publish job_id lease name sha reaped_at = transaction reaped_at (publish_tx job_id lease name sha)

-- `value or ""`
abbrev pub or_empty : Option String → String
or_empty none = ""
or_empty (some s) = s

-- Whether the column has the text of json_bytes of a value; json.dumps puts a space behind a colon, and
-- what it wrote here has one.
abbrev pub same_result : Option Encoded → Json → Bool
same_result none r = false
same_result (some (compact v)) r = same_text v r
same_result (some (spaced v)) r = false

abbrev pub is_retry : Option Job → String → Result Bool
is_retry none lease = ok false
is_retry (some row) lease =
    if is_terminal row.status then compare_digest (or_empty row.lease) lease else ok false

abbrev pub complete : Status → Json → ℕ → Job → Job
complete status result now j = record j {
  status = status;
  result = some (compact result);
  finished = some now;
}

-- A completion that was recorded before: it must agree, and changes nothing.
unfoldable pub finish_again : String → Status → Json → Tx Public
unfolding view same_text
finish_again job_id status result db = do
  row ← select job_id db
  encoded ← encode result
  require
      (same_result row.result encoded && (same_status row.status status || is_cancelled row.status))
      "completion conflicts with recorded outcome"
  ok (view row, db)

abbrev pub outcome : Status → Status → Status
outcome was status = if is_cancel_requested was then cancelled else status

unfoldable pub finish_first : String → String → Status → Json → ℕ → Tx Public
unfolding owned view
finish_first job_id lease status result now db = do
  row ← owned job_id lease db
  let status' = outcome row.status status
  require (not (is_succeeded status') || is_truthy row.artifact)
      "successful jobs require an artifact upload"
  encoded ← encode result
  let db' = update_job job_id (complete status' encoded now) db
  row' ← select job_id db'
  ok (view row', db')

unfoldable pub finish_tx : String → String → Status → Json → ℕ → Tx Public
unfolding finish_again finish_first
finish_tx job_id lease status result now db = do
  retried ← is_retry (find (by_id job_id) db.jobs) lease
  if retried
      then finish_again job_id status result db
      else finish_first job_id lease status result now db

unfoldable pub finish_as : Option Status → String → String → Json → ℕ → ℕ → Db → Result Public × Db
unfolding finish_tx transaction
finish_as none job_id lease result reaped_at now db = (err (invalid "invalid final status"), db)
finish_as (some status) job_id lease result reaped_at now db =
    transaction reaped_at (finish_tx job_id lease status result now) db

unfoldable pub finish : String → String → Json → Json → ℕ → ℕ → Db → Result Public × Db
unfolding finish_as
finish job_id lease status result reaped_at now db =
    finish_as (final_status status) job_id lease result reaped_at now db
