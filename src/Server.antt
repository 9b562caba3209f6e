-- ===== src/Server.antt =====
-- macqueue/server.py: what a request carries, its length and its body, and the replies. The children
-- model the handlers. HTTP itself is http.server's: a request arrives as its method, the path and the
-- query of its URL, its header fields and the bytes that follow them.
pub mod Handlers
pub mod Uploads
pub mod Dispatch
pub mod Calls
pub mod Sound
mod Samples
use macqueue.Base.{
  ℕ, ◌*◌, ◌+◌, ◌-◌, zero, suc, String, Bool, true, false, not, ◌&&◌, ◌||◌, Option, none, some, List,
  [], ◌∷◌, ◌==◌, nat_eq, string_eq, leb, if◌then◌else◌, Result, ok, err, Error, invalid, key_error,
  ◌>>=◌, ◌>>◌, require,
}
use macqueue.Base.Lists.{length, take}
use macqueue.Base.Text.{append, size, all_chars, is_digit, starts_with, drop_prefix}
use macqueue.Json.{Json, obj, Fields}
use macqueue.Store.Rows.{Db, Log, Public}
use macqueue.Store.Queue.{Summary, Claim}
use macqueue.Store.Leases.{Beat}
use Prim.Native.Char.{code}

pub data Method : Type 0 where
  get post put : Method

pub record Request : Type 0 where
  pub method : Method
  pub path : String
  pub query : String
  pub headers : String → Option String
  pub body : List ℕ

-- The JSON or the file of a reply. The text of an error is that of the exception.
pub data Body : Type 0 where
  okay unauthorized : Body
  job : Public → Body
  jobs : List Summary → Body
  claimed : Option Claim → Body
  beat : Beat → Body
  logs : List Log → Body
  stored : String → ℕ → Body
  file : List ℕ → Option String → Body
  problem : Error → Body

pub record Reply : Type 0 where
  pub status : ℕ
  pub body : Body

-- The files are named by their paths in the state directory.
pub record State : Type 0 where
  pub db : Db
  pub artifacts : List (String × List ℕ)
  pub inputs : List (String × List ℕ)
  pub input_reserved : ℕ

-- `self.headers.get(name, default)`
abbrev pub header_or : String → Option String → String
header_or default none = default
header_or default (some v) = v

abbrev pub is_set : Option String → Bool
is_set none = false
is_set (some v) = not (v == "")

-- `int(raw)` for a text of digits.
abbrev pub decimal : ℕ → String → ℕ
decimal n String.[] = n
decimal n (String.◌∷◌ c s) = decimal (n * 10 + (code c - b'0')) s

unfoldable pub content_length : ℕ → Request → Result ℕ
content_length limit req = do
  require (not (is_set (req.headers "Transfer-Encoding"))) "chunked uploads are not supported"
  let raw = header_or "0" (req.headers "Content-Length")
  require (leb 1 (size raw) && all_chars is_digit raw) "invalid Content-Length"
  let count = decimal 0 raw
  require (leb count limit) "request exceeds size limit"
  ok count

-- `json.loads`, given bytes, is the parameter.
abbrev pub parsed : (List ℕ → Result Json) → List ℕ → Result Json
parsed loads [] = ok (obj Fields.end)
parsed loads (b ∷ bs) = loads (b ∷ bs)

unfoldable pub read_body : (List ℕ → Result Json) → ℕ → Request → Result Json
read_body loads maximum req = do
  count ← content_length maximum req
  let bytes = take count req.body
  require (length bytes == count) "truncated request body"
  parsed loads bytes

-- The reply to an exception.
abbrev pub problem_status : Error → ℕ
problem_status (key_error _) = 404
problem_status Error.integrity = 500
problem_status Error.os_error = 500
problem_status (Error.runtime _) = 500
problem_status _ = 400

abbrev pub answer : Result Reply → Reply
answer (ok r) = r
answer (err e) = record { status = problem_status e; body = problem e }

abbrev pub replies : ℕ → Body → Result Reply
replies status body = ok (record { status = status; body = body })

-- Whether the bearer token is the expected one.
abbrev pub is_authorized : String → Request → Bool
is_authorized token req =
    let given = header_or "" (req.headers "Authorization") in
    starts_with given "Bearer " && drop_prefix given "Bearer " == token

-- The file name of a job's artifact.
abbrev pub archive_of : String → String
archive_of job_id = append job_id ".tar.gz"
