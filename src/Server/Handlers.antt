-- ===== src/Server/Handlers.antt =====
-- The handlers of macqueue/server.py, one for each route. A handler returns the reply or the
-- exception that it ends in, and the state that it leaves.
use macqueue.Base.{
  ℕ, ◌*◌, String, Bool, true, false, ◌&&◌, ◌||◌, Option, none, List, [], ◌∷◌, ◌==◌, nat_eq,
  string_eq, leb, if◌then◌else◌, Result, ok, err, ◌>>=◌, ◌>>◌, require,
}
use macqueue.Base.Int.{ℤ, pos}
use macqueue.Base.Lists.{length}
use macqueue.Base.Text.{size, all_chars, encoded_size}
use macqueue.Common.{keys, integer, name, text_where, list_where, is_alphanumeric}
use macqueue.Json.{Json, get_item}
use macqueue.Schema.Jobs.{validate_job, max_job_bytes}
use macqueue.Server.{
  Request, Body, okay, job, claimed, beat, State, Reply, replies, header_or, read_body,
}
use macqueue.Store.History.{Call, run}
use macqueue.Store.Leases
use macqueue.Store.Leases.{owned}
use macqueue.Store.Queue
use macqueue.Store.Queue.{Claim}
use macqueue.Store.Rows.{Db}

-- The readings of the clock and the fresh identifiers of one request.
pub record Moment : Type 0 where
  pub reaped_at : ℕ
  pub now : ℕ
  pub reaped_again : ℕ
  pub job_id : String

-- One attempt of a claim that waits: what other requests do to the queue before it, its fresh lease
-- and its readings of the clock.
pub record Attempt : Type 0 where
  pub others : List (ℕ × Call)
  pub lease : String
  pub reaped_at : ℕ
  pub now : ℕ

abbrev pub Handled : Type 0
Handled = Result Reply × State

-- The rest of a handler after a check that changes nothing.
abbrev pub after {ℓ} : {A : Type ℓ} → Result A → (A → State → Handled) → State → Handled
after (err e) rest st = (err e, st)
after (ok a) rest st = rest a st

abbrev pub with_db : Db → State → State
with_db db st = record st { db = db }

abbrev pub reply_with {ℓ} : {A : Type ℓ} → ℕ → (A → Body) → Result A → Result Reply
reply_with status body (ok a) = replies status (body a)
reply_with status body (err e) = err e

-- A handler that ends in one call of the store.
abbrev pub store {ℓ} : {A : Type ℓ} → ℕ → (A → Body) → (Db → Result A × Db) → State → Handled
store status body call st = (reply_with status body (call st.db).0, with_db (call st.db).1 st)

abbrev is_key_char : ℕ → Bool
is_key_char c = is_alphanumeric c || c == b'_' || c == b'.' || c == b'-'

-- `[a-zA-Z0-9_.-]{1,128}`
abbrev pub is_key : String → Bool
is_key s = leb 1 (size s) && leb (size s) 128 && all_chars is_key_char s

abbrev pub lease_of : Request → String
lease_of req = header_or "" (req.headers "X-Job-Lease")

abbrev pub names_of : List Json → Result (List String)
names_of [] = ok []
names_of (j ∷ js) = do n ← name j; ns ← names_of js; ok (n ∷ ns)

-- The external functions: the length of a decimal float, `json.loads`, SHA-256 in hexadecimal, and
-- the `after` of a query.
pub record Library : Type 0 where
  pub real_size : ℕ → ℕ
  pub loads : List ℕ → Result Json
  pub sha256 : List ℕ → String
  pub after_of : String → Result ℤ

module _ (lib : Library) where
  unfoldable pub checked_job : Request → Result (Json × String)
  checked_job req = do
    decoded ← read_body lib.loads max_job_bytes req
    spec ← validate_job lib.real_size decoded
    let key = header_or "" (req.headers "Idempotency-Key")
    require (is_key key) "provide an Idempotency-Key"
    ok (spec, key)

  unfoldable pub submit : Moment → Request → State → Handled
  submit at req st =
      after (checked_job req)
        (λ checked. store 201 job (Queue.submit checked.0 checked.1 at.job_id at.reaped_at at.now))
        st

  abbrev pub body_limit : ℕ
  body_limit = 1024 * 1024

  unfoldable pub checked_claim : Request → Result (String × List String)
  checked_claim req = do
    body ← read_body lib.loads body_limit req
    keys body ("worker" ∷ "projects" ∷ []) []
    given ← get_item body "worker"
    worker ← name given
    listed ← get_item body "projects"
    projects ← list_where (λ xs. leb 1 (length xs) && leb (length xs) 100) "invalid projects" listed
    names ← names_of projects
    ok (worker, names)

  -- The attempts until a job is handed out or the deadline has passed, which ends the list.
  abbrev pub is_final : Result (Option Claim) → Bool
  is_final (ok none) = false
  is_final _ = true

  unfoldable pub poll : String → List String → List Attempt → State → Handled
  poll worker projects [] st = (replies 200 (claimed none), st)
  poll worker projects (a ∷ rest) st =
      let tried = Queue.claim worker projects a.lease a.reaped_at a.now (run st.db a.others) in
      let later = poll worker projects rest (with_db tried.1 st) in
      if is_final tried.0 then (reply_with 200 claimed tried.0, with_db tried.1 st) else later

  unfoldable pub claim : List Attempt → Request → State → Handled
  claim attempts req st =
      after (checked_claim req) (λ checked. poll checked.0 checked.1 attempts) st

  unfoldable pub heartbeat : Moment → Request → String → State → Handled
  heartbeat at req job_id =
      store 200 beat (Leases.heartbeat job_id (lease_of req) at.reaped_at at.now)

  unfoldable pub checked_log : Request → Result (ℤ × String)
  checked_log req = do
    body ← read_body lib.loads body_limit req
    keys body ("seq" ∷ "text" ∷ []) []
    given ← get_item body "seq"
    seq ← integer given (pos 0) (pos 1000000) "log sequence"
    chunk ← get_item body "text"
    text ← text_where (λ s. leb (encoded_size s) 65536) "log chunk exceeds 64 KiB" chunk
    ok (seq, text)

  unfoldable pub append_log : Moment → Request → String → State → Handled
  append_log at req job_id st =
      after (checked_log req)
        (λ checked.
          store 200 (λ _. okay)
            (Leases.append_log job_id (lease_of req) checked.0 checked.1 at.reaped_at))
        st

  unfoldable pub checked_finish : Request → Result (Json × Json)
  checked_finish req = do
    body ← read_body lib.loads body_limit req
    keys body ("status" ∷ "result" ∷ []) []
    status ← get_item body "status"
    result ← get_item body "result"
    ok (status, result)

  unfoldable pub finish : Moment → Request → String → State → Handled
  finish at req job_id st =
      after (checked_finish req)
        (λ checked.
          store 200 job
            (Leases.finish job_id (lease_of req) checked.0 checked.1 at.reaped_at at.now))
        st
