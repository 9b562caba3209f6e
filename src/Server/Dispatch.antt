-- ===== src/Server/Dispatch.antt =====
-- `dispatch` of macqueue/server.py: the routes, the roles and the replies to exceptions.
use macqueue.Base.{
  String, Bool, true, false, not, ◌&&◌, Option, none, some, List, [], ◌∷◌, ◌==◌, nat_eq, string_eq,
  if◌then◌else◌, err, key_error, os_error,
}
use macqueue.Base.Text.{size, all_chars, split, starts_with}
use macqueue.Schema.Steps.{is_sha256, is_lower_hex}
use macqueue.Server.{
  Method, get, post, put, Request, Body, okay, unauthorized, file, State, Reply, answer, replies,
  is_authorized,
}
use macqueue.Server.Handlers
use macqueue.Server.Handlers.{Library, Moment, Attempt, Handled, after, store, reply_with}
use macqueue.Server.Uploads.{file_or, find_file, upload_input, download_input, upload_artifact}
use macqueue.Store.Leases
use macqueue.Store.Queue

pub record Tokens : Type 0 where
  pub submit : String
  pub worker : String

pub data Action : Type 0 where
  show heartbeat logs finish cancel artifact : Action

-- What the path names. `input` and `job` carry whether it is below /v1/worker/.
pub data Route : Type 0 where
  input : Bool → String → Route
  jobs claim : Route
  job : Bool → String → Action → Route
  unknown : Route

abbrev actions : List (String × Action)
actions =
    ("heartbeat", heartbeat)
    ∷ ("logs", logs)
    ∷ ("finish", finish)
    ∷ ("cancel", cancel)
    ∷ ("artifact", artifact)
    ∷ []

abbrev pub is_job_id : String → Bool
is_job_id s = size s == 32 && all_chars is_lower_hex s

abbrev action_named : List (String × Action) → String → Option Action
action_named [] s = none
action_named ((n, a) ∷ rest) s = if n == s then some a else action_named rest s

abbrev job_route : Bool → String → Option Action → Route
job_route worker id none = unknown
job_route worker id (some action) = if is_job_id id then job worker id action else unknown

-- The components after /v1/ and, for a worker, after /v1/worker/.
abbrev route_below : Bool → List String → Route
route_below worker (kind ∷ []) =
    if not worker && kind == "jobs"
    then jobs
    else if worker && kind == "claim"
    then claim
    else unknown
route_below worker (kind ∷ id ∷ []) =
    if kind == "inputs" && is_sha256 id
    then input worker id
    else if kind == "jobs"
    then job_route worker id (some show)
    else unknown
route_below worker (kind ∷ id ∷ action ∷ []) =
    if kind == "jobs" then job_route worker id (action_named actions action) else unknown
route_below worker _ = unknown

abbrev route_of_parts : List String → Route
route_of_parts (root ∷ version ∷ first ∷ rest) =
    if root == "" && version == "v1"
    then if first == "worker" then route_below true rest else route_below false (first ∷ rest)
    else unknown
route_of_parts _ = unknown

unfoldable pub route_of : String → Route
route_of path = route_of_parts (split b'/' path)

abbrev pub not_found : State → Handled
not_found st = (err (key_error "route not found"), st)

unfoldable pub download_artifact : Moment → String → State → Handled
download_artifact at id st =
    let found = Leases.artifact id at.reaped_at st.db in
    after found.0
      (λ entry st'. (
        reply_with 200 (λ bytes. file bytes entry.1)
            (file_or (err os_error) (find_file entry.0 st'.artifacts)),
        st',
      ))
      (Handlers.with_db found.1 st)

module _ (lib : Library) where
  unfoldable pub show_logs : Moment → Request → String → State → Handled
  show_logs at req id st =
      after (lib.after_of req.query) (λ n. store 200 Body.logs (Leases.logs id n at.reaped_at)) st

  unfoldable pub serve : Moment → List Attempt → Request → Route → Method → State → Handled
  serve at attempts req (input false sha) put st = upload_input lib sha req st
  serve at attempts req (input true sha) get st = download_input at req sha st
  serve at attempts req jobs post st = Handlers.submit lib at req st
  serve at attempts req jobs get st = store 200 Body.jobs (Queue.list 100 at.reaped_at) st
  serve at attempts req claim post st = Handlers.claim lib attempts req st
  serve at attempts req (job true id heartbeat) post st = Handlers.heartbeat lib at req id st
  serve at attempts req (job true id logs) post st = Handlers.append_log lib at req id st
  serve at attempts req (job true id finish) post st = Handlers.finish lib at req id st
  serve at attempts req (job true id artifact) put st = upload_artifact lib at req id st
  serve at attempts req (job false id show) get st =
      store 200 Body.job (Queue.get id at.reaped_at) st
  serve at attempts req (job false id cancel) post st =
      store 200 Body.job (Queue.cancel id at.reaped_at at.now) st
  serve at attempts req (job false id logs) get st = show_logs at req id st
  serve at attempts req (job false id artifact) get st = download_artifact at id st
  serve at attempts req _ _ st = not_found st

  abbrev pub role_token : Tokens → String → String
  role_token tokens path = if starts_with path "/v1/worker/" then tokens.worker else tokens.submit

  abbrev pub is_get : Method → Bool
  is_get get = true
  is_get _ = false

  abbrev pub answered : Handled → Reply × State
  answered (outcome, st) = (answer outcome, st)

  unfoldable pub dispatch : Tokens → Moment → List Attempt → Request → State → Reply × State
  dispatch tokens at attempts req st =
      if is_get req.method && req.path == "/healthz"
      then answered (replies 200 okay, st)
      else if is_authorized (role_token tokens req.path) req
      then answered (serve at attempts req (route_of req.path) req.method st)
      else answered (replies 401 unauthorized, st)
