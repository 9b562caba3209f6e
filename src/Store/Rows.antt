-- ===== src/Store/Rows.antt =====
-- The tables of store.py. A column that may be NULL is an `Option`; `spec` and `result` hold the
-- values that their JSON text encodes; times are whole microseconds since the epoch.
use macqueue.Base.{
  ℕ, ◌*◌, String, Bool, true, false, not, ◌&&◌, Option, none, some, List, ◌==◌, nat_eq, string_eq,
  leb, if◌then◌else◌, Result, ok, err, key_error, type_error, value_error,
}
use macqueue.Base.Int.{ℤ}
use macqueue.Base.Lists.{find, update}
use macqueue.Base.Text.{is_ascii}
use macqueue.Json.{Json, str, obj, field, end, is_encodable}

pub data Status : Type 0 where
  queued running cancel_requested succeeded failed cancelled expired lost : Status

-- `TERMINAL`
abbrev pub is_terminal : Status → Bool
is_terminal queued = false
is_terminal running = false
is_terminal cancel_requested = false
is_terminal _ = true

abbrev pub is_queued : Status → Bool
is_queued queued = true
is_queued _ = false

abbrev pub is_cancel_requested : Status → Bool
is_cancel_requested cancel_requested = true
is_cancel_requested _ = false

abbrev pub is_succeeded : Status → Bool
is_succeeded succeeded = true
is_succeeded _ = false

abbrev pub is_cancelled : Status → Bool
is_cancelled cancelled = true
is_cancelled _ = false

-- `status IN ('running','cancel_requested')`
abbrev pub is_active : Status → Bool
is_active running = true
is_active cancel_requested = true
is_active _ = false

abbrev pub same_status : Status → Status → Bool
same_status queued s = is_queued s
same_status running running = true
same_status cancel_requested s = is_cancel_requested s
same_status succeeded s = is_succeeded s
same_status failed failed = true
same_status cancelled s = is_cancelled s
same_status expired expired = true
same_status lost lost = true
same_status _ _ = false

-- The status that a completion may name.
abbrev pub status_name : String → Option Status
status_name s =
    if s == "succeeded"
    then some succeeded
    else if s == "failed"
    then some failed
    else if s == "cancelled"
    then some cancelled
    else none

abbrev pub final_status : Json → Option Status
final_status (str s) = status_name s
final_status _ = none

-- The text of a JSON value in a column: compact by json_bytes, or by json.dumps with its spaces.
pub data Encoded : Type 0 where
  compact spaced : Json → Encoded

abbrev pub decoded : Option Encoded → Option Json
decoded none = none
decoded (some (compact v)) = some v
decoded (some (spaced v)) = some v

pub record Job : Type 0 where
  pub id : String
  pub spec : Json
  pub status : Status
  pub created : ℕ
  pub expires : ℕ
  pub started : Option ℕ
  pub finished : Option ℕ
  pub worker : Option String
  pub lease : Option String
  pub lease_until : Option ℕ
  pub result : Option Encoded
  pub artifact : Option String
  pub artifact_sha256 : Option String
  pub request_key : String
  pub log_bytes : ℕ

pub record Log : Type 0 where
  pub job_id : String
  pub seq : ℤ
  pub text : String

pub record Db : Type 0 where
  pub jobs : List Job
  pub logs : List Log

-- One second, the unit of the source's constants.
abbrev pub second : ℕ
second = 1000000

-- `LEASE_SECONDS`
abbrev pub lease_time : ℕ
lease_time = 60 * second

abbrev pub by_id : String → Job → Bool
by_id i j = j.id == i

abbrev pub by_key : String → Job → Bool
by_key k j = j.request_key == k

abbrev pub has_active : Job → Bool
has_active j = is_active j.status

abbrev pub has_queued : Job → Bool
has_queued j = is_queued j.status

-- A row as clients see it: no lease, no request key, and of the artifact only whether there is one.
pub record Public : Type 0 where
  pub id : String
  pub spec : Json
  pub status : Status
  pub created : ℕ
  pub expires : ℕ
  pub started : Option ℕ
  pub finished : Option ℕ
  pub worker : Option String
  pub lease_until : Option ℕ
  pub result : Option Json
  pub artifact_sha256 : Option String
  pub log_bytes : ℕ
  pub has_artifact : Bool

-- `bool(row["artifact"])`
abbrev pub is_truthy : Option String → Bool
is_truthy none = false
is_truthy (some s) = not (s == "")

unfoldable pub view : Job → Public
view j = record {
  id = j.id;
  spec = j.spec;
  status = j.status;
  created = j.created;
  expires = j.expires;
  started = j.started;
  finished = j.finished;
  worker = j.worker;
  lease_until = j.lease_until;
  result = decoded j.result;
  artifact_sha256 = j.artifact_sha256;
  log_bytes = j.log_bytes;
  has_artifact = is_truthy j.artifact;
}

abbrev pub or_missing : Option Job → Result Job
or_missing none = err (key_error "job not found")
or_missing (some j) = ok j

-- `SELECT * FROM jobs WHERE id=?`, and `KeyError` where `public` or `owned` is given no row.
abbrev pub select : String → Db → Result Job
select i db = or_missing (find (by_id i) db.jobs)

-- `UPDATE jobs SET … WHERE id=?`
abbrev pub update_job : String → (Job → Job) → Db → Db
update_job i f db = record db { jobs = update (by_id i) f db.jobs }

-- `json_bytes(value).decode()`: NaN and the infinities raise `ValueError`.
abbrev pub encode : Json → Result Json
encode v = if is_encodable v then ok v else err value_error

-- `secrets.compare_digest` on texts: `TypeError` unless both are ASCII.
abbrev pub compare_digest : String → String → Result Bool
compare_digest a b = if is_ascii a && is_ascii b then ok (a == b) else err type_error

-- Reaping. `leb` on a NULL `lease_until` is not true.
abbrev pub at_most : Option ℕ → ℕ → Bool
at_most none now = false
at_most (some t) now = leb t now

abbrev pub lease_error : Json
lease_error = obj (field "error" (str "worker lease expired; never automatically replayed") end)

abbrev pub overdue : ℕ → Job → Bool
overdue now j = is_queued j.status && leb j.expires now

abbrev pub expire : ℕ → Job → Job
expire now j = record j { status = expired; finished = some now }

abbrev pub lapsed : ℕ → Job → Bool
lapsed now j = is_active j.status && at_most j.lease_until now

abbrev pub lapse : ℕ → Job → Job
lapse now j = record j {
  status = if is_cancel_requested j.status then cancelled else lost;
  finished = some now;
  result = some (spaced lease_error);
}

unfoldable pub reap : ℕ → Db → Db
reap now db = record db {
  jobs = update (lapsed now) (lapse now) (update (overdue now) (expire now) db.jobs);
}

-- The body of a `with self.transaction()` block.
abbrev pub Tx {ℓ} : Type ℓ → Type ℓ
Tx A = Db → Result (A × Db)

abbrev pub commit {ℓ} : {A : Type ℓ} → Db → Result (A × Db) → Result A × Db
commit db (ok (a, db')) = (ok a, db')
commit db (err e) = (err e, db)

-- Reaps, runs the body and commits; an exception rolls all of it back, the reaping included.
unfoldable pub transaction {ℓ} : {A : Type ℓ} → ℕ → Tx A → Db → Result A × Db
transaction reaped_at body db = commit db (body (reap reaped_at db))
