-- ===== src/Store/Queue.antt =====
-- `submit`, `get`, `list`, `claim` and `cancel` of store.py.
use macqueue.Base.{
  ℕ, ◌+◌, ◌*◌, String, Bool, Option, none, some, List, [], ◌∷◌, ◌++◌, string_eq, ltb, if◌then◌else◌,
  Result, ok, err, type_error, integrity, ◌>>=◌, ◌>>◌, require, ◌||◌,
}
use macqueue.Base.Int.{pos}
use macqueue.Base.Lists.{find, filter, any, count, take, length}
use macqueue.Base.Sorting.{sort_by}
use macqueue.Json.{Json, str, int, arr, obj, get_item, lookup, to_list, py_eq}
use macqueue.Store.Rows.{
  Status, queued, running, cancelled, cancel_requested, Job, Db, Public, Tx, view, select,
  update_job, by_id, by_key, has_active, has_queued, transaction, encode, second, lease_time,
}

-- `spec.get("expires_in_seconds", 86400)`. validate_job admits the integers from 1 to 604800 here;
-- for any other value the model reports a type error.
abbrev expiry_field : Option Json → Result ℕ
expiry_field none = ok 86400
expiry_field (some (int (pos n))) = ok n
expiry_field (some _) = err type_error

unfoldable pub expiry_of : Json → Result ℕ
expiry_of (obj fs) = expiry_field (lookup "expires_in_seconds" fs)
expiry_of _ = err type_error

-- The row that `INSERT INTO jobs(id,spec,status,created,expires,request_key)` makes.
abbrev pub new_job : String → Json → String → ℕ → ℕ → Job
new_job job_id spec key now expires_in = record {
  id = job_id;
  spec = spec;
  status = queued;
  created = now;
  expires = now + expires_in * second;
  started = none;
  finished = none;
  worker = none;
  lease = none;
  lease_until = none;
  result = none;
  artifact = none;
  artifact_sha256 = none;
  request_key = key;
  log_bytes = 0;
}

-- PRIMARY KEY on `id`, UNIQUE on `request_key`.
unfoldable pub insert_job : Job → Db → Result Db
insert_job row db =
    if any (by_id row.id) db.jobs || any (by_key row.request_key) db.jobs
    then err integrity
    else ok (record db { jobs = db.jobs ++ row ∷ [] })

unfoldable pub enqueue : Json → String → String → ℕ → Tx Public
unfolding expiry_of insert_job view
enqueue spec key job_id now db = do
  require (ltb (count has_queued db.jobs) 1000) "queue is full"
  expires_in ← expiry_of spec
  db' ← insert_job (new_job job_id spec key now expires_in) db
  row ← select job_id db'
  ok (view row, db')

-- With the row that has the request key, if there is one.
unfoldable pub submit_with : Option Job → Json → String → String → ℕ → Tx Public
unfolding enqueue
submit_with (some row) spec key job_id now db = do
  require (py_eq row.spec spec) "idempotency key already used for another job"
  ok (view row, db)
submit_with none spec key job_id now db = enqueue spec key job_id now db

unfoldable pub submit_tx : Json → String → String → ℕ → Tx Public
unfolding submit_with
submit_tx spec key job_id now db = submit_with (find (by_key key) db.jobs) spec key job_id now db

-- With the encoded spec, or the error of encoding it.
unfoldable pub submit_encoded : Result Json → String → String → ℕ → ℕ → Db → Result Public × Db
unfolding submit_tx transaction
submit_encoded (ok spec) key job_id reaped_at now db =
    transaction reaped_at (submit_tx spec key job_id now) db
submit_encoded (err e) key job_id reaped_at now db = (err e, db)

-- `job_id` is the fresh `uuid4().hex`; `reaped_at` and `now` are the two readings of the clock.
unfoldable pub submit : Json → String → String → ℕ → ℕ → Db → Result Public × Db
unfolding submit_encoded
submit spec key job_id reaped_at now db = submit_encoded (encode spec) key job_id reaped_at now db

unfoldable pub get_tx : String → Tx Public
unfolding view
get_tx job_id db = do row ← select job_id db; ok (view row, db)

unfoldable pub get : String → ℕ → Db → Result Public × Db
unfolding get_tx transaction
get job_id reaped_at = transaction reaped_at (get_tx job_id)

-- An entry of `Store.list`: the public fields but `spec` and `result`, and three values of the spec.
pub record Summary : Type 0 where
  pub job : Public
  pub project : Json
  pub label : Option Json
  pub steps : ℕ

abbrev pub item_label : Json → Option Json
item_label (obj fs) = lookup "label" fs
item_label _ = none

abbrev pub count_steps : Json → Result ℕ
count_steps (arr steps) = ok (length (to_list steps))
count_steps _ = err type_error

unfoldable pub summary : Job → Result Summary
unfolding view
summary row = do
  project ← get_item row.spec "project"
  steps ← get_item row.spec "steps"
  n ← count_steps steps
  ok (record { job = view row; project = project; label = item_label row.spec; steps = n })

unfoldable pub summaries : List Job → Result (List Summary)
unfolding summary
summaries [] = ok []
summaries (row ∷ rows) = do item ← summary row; rest ← summaries rows; ok (item ∷ rest)

-- `ORDER BY created DESC` and `ORDER BY created`.
abbrev pub newer : Job → Job → Bool
newer a b = ltb b.created a.created

abbrev pub older : Job → Job → Bool
older a b = ltb a.created b.created

unfoldable pub list_tx : ℕ → Tx (List Summary)
unfolding summaries sort_by
list_tx limit db = do items ← summaries (take limit (sort_by newer db.jobs)); ok (items, db)

unfoldable pub list : ℕ → ℕ → Db → Result (List Summary) × Db
unfolding list_tx transaction
list limit reaped_at = transaction reaped_at (list_tx limit)

-- `json.loads(row["spec"])["project"] in projects`
unfoldable pub is_for : List String → Job → Result Bool
is_for projects row = do
  project ← get_item row.spec "project"
  ok (any (λ p. py_eq (str p) project) projects)

unfoldable pub first_for : List String → List Job → Result (Option Job)
unfolding is_for
first_for projects [] = ok none
first_for projects (row ∷ rows) =
    let rest = first_for projects rows in
    do wanted ← is_for projects row; if wanted then ok (some row) else rest

pub record Claim : Type 0 where
  pub job : Public
  pub lease : String
  pub lease_seconds : ℕ

abbrev pub start : String → String → ℕ → Job → Job
start worker lease now j = record j {
  status = running;
  worker = some worker;
  lease = some lease;
  lease_until = some (now + lease_time);
  started = some now;
}

unfoldable pub give : String → String → ℕ → Option Job → Tx (Option Claim)
unfolding view
give worker lease now none db = ok (none, db)
give worker lease now (some row) db = do
  let db' = update_job row.id (start worker lease now) db
  row' ← select row.id db'
  ok (some (record { job = view row'; lease = lease; lease_seconds = 60 }), db')

unfoldable pub claim_tx : String → List String → String → ℕ → Tx (Option Claim)
unfolding first_for give sort_by
claim_tx worker projects lease now db = if any has_active db.jobs then ok (none, db) else do
  chosen ← first_for projects (sort_by older (filter has_queued db.jobs))
  give worker lease now chosen db

-- `lease` is the fresh `token_urlsafe(32)`.
unfoldable pub claim : String → List String → String → ℕ → ℕ → Db → Result (Option Claim) × Db
unfolding claim_tx transaction
claim worker projects lease reaped_at now =
    transaction reaped_at (claim_tx worker projects lease now)

abbrev pub cancel_now : ℕ → Job → Job
cancel_now now j = record j { status = cancelled; finished = some now }

abbrev pub request_cancel : Job → Job
request_cancel j = record j { status = cancel_requested }

-- `UPDATE`s by the status that the row had.
abbrev pub cancel_job : Status → String → ℕ → Db → Db
cancel_job queued i now db = update_job i (cancel_now now) db
cancel_job running i now db = update_job i request_cancel db
cancel_job _ i now db = db

unfoldable pub cancel_tx : String → ℕ → Tx Public
unfolding view
cancel_tx job_id now db = do
  row ← select job_id db
  let db' = cancel_job row.status job_id now db
  row' ← select job_id db'
  ok (view row', db')

unfoldable pub cancel : String → ℕ → ℕ → Db → Result Public × Db
unfolding cancel_tx transaction
cancel job_id reaped_at now = transaction reaped_at (cancel_tx job_id now)
