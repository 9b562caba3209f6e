-- ===== src/Server/Uploads.antt =====
-- The uploads and the downloads of macqueue/server.py: the artifact of a job, and the source packages
-- of provisioning jobs. A file arrives whole in a temporary file before it takes its name.
use macqueue.Base.{
  ℕ, ◌*◌, ◌+◌, ◌^◌, String, Bool, true, false, Option, none, some, List, [], ◌∷◌, ◌==◌, nat_eq,
  string_eq, ltb, leb, if◌then◌else◌, is_some, Result, ok, err, invalid, type_error, ◌>>=◌, ◌>>◌,
  require,
}
use macqueue.Base.Lists.{length, take}
use macqueue.Json.{Json, null, arr, get_item, to_list}
use macqueue.Schema.Command.{is_exactly}
use macqueue.Server.{Request, stored, file, State, replies, header_or, content_length, archive_of}
use macqueue.Server.Handlers.{Library, Moment, Handled, after, with_db, reply_with, lease_of}
use macqueue.Store.Leases
use macqueue.Store.Leases.{owned}
use macqueue.Store.Rows.{Db, Tx, transaction}

unfoldable pub put_file : String → List ℕ → List (String × List ℕ) → List (String × List ℕ)
put_file key bytes [] = (key, bytes) ∷ []
put_file key bytes (f ∷ fs) =
    let rest = put_file key bytes fs in if f.0 == key then (key, bytes) ∷ fs else f ∷ rest

abbrev pub max_artifact : ℕ
max_artifact = 512 * 1024 * 1024

unfoldable pub find_file : String → List (String × List ℕ) → Option (List ℕ)
find_file key [] = none
find_file key (f ∷ fs) = if f.0 == key then some f.1 else find_file key fs

unfoldable pub total_size : List (String × List ℕ) → ℕ
total_size [] = 0
total_size (f ∷ fs) = length f.1 + total_size fs

abbrev pub max_input_bytes : ℕ
max_input_bytes = 512 * 1024 * 1024

-- The checksum of a provisioning step; `null`, which no checksum equals, where it is no such step.
abbrev pub provision_sha : Bool → Json → Result Json
provision_sha true step = get_item step "sha256"
provision_sha false step = ok null

-- Whether this is the only step of a provisioning job of this package.
abbrev pub provisions : String → List Json → Result Bool
provisions sha (step ∷ []) = do
  op ← get_item step "op"
  given ← provision_sha (is_exactly "provision" op) step
  ok (is_exactly sha given)
provisions sha _ = ok false

abbrev pub steps_of : Json → Result (List Json)
steps_of (arr items) = ok (to_list items)
steps_of _ = err type_error

unfoldable pub owned_input : String → String → String → Tx (Unit {0})
owned_input job_id lease sha db = do
  row ← owned job_id lease db
  listed ← get_item row.spec "steps"
  steps ← steps_of listed
  belongs ← provisions sha steps
  require belongs "input does not belong to this provisioning lease"
  ok (tt, db)

abbrev pub file_or {ℓ} : {A : Type ℓ} → Result A → Option A → Result A
file_or missing none = missing
file_or missing (some bytes) = ok bytes

unfoldable pub download_input : Moment → Request → String → State → Handled
download_input at req sha st =
    let job_id = header_or "" (req.headers "X-Job-ID") in
    let checked = transaction at.reaped_at (owned_input job_id (lease_of req) sha) st.db in
    after checked.0
      (λ _ st'. (
        reply_with 200 (λ bytes. file bytes (some sha))
            (file_or (err (invalid "source package has not been uploaded"))
              (find_file sha st'.inputs)),
        st',
      ))
      (with_db checked.1 st)

-- `os.link` to the name, and nothing where it is taken.
unfoldable pub keep_first : String → List ℕ → List (String × List ℕ) → List (String × List ℕ)
keep_first key bytes fs = if is_some (find_file key fs) then fs else put_file key bytes fs

module _ (lib : Library) where
  -- The bytes of an upload, all of which must arrive and have the checksum.
  unfoldable pub received : ℕ → Request → String → String → Result (List ℕ)
  received count req truncated sha = do
    let bytes = take count req.body
    require (length bytes == count) truncated
    require (lib.sha256 bytes == sha) "checksum mismatch"
    ok bytes

  unfoldable pub checked_artifact : Request → Result (List ℕ)
  checked_artifact req = do
    count ← content_length max_artifact req
    require (leb 1 count) "empty artifact"
    received count req "truncated artifact" (header_or "" (req.headers "X-Artifact-SHA256"))

  -- The file takes its final name, job_id.tar.gz, in the transaction that records it.
  abbrev pub published : String → List ℕ → Result (Unit {0}) × Db → State → Handled
  published job_id bytes (err e, db) st = (err e, with_db db st)
  published job_id bytes (ok _, db) st = (
    replies 200 (stored (lib.sha256 bytes) (length bytes)),
    record st { db = db; artifacts = put_file (archive_of job_id) bytes st.artifacts },
  )

  abbrev pub publish : Moment → Request → String → List ℕ → State → Handled
  publish at req job_id bytes st =
      published job_id bytes
        (Leases.publish job_id (lease_of req) (archive_of job_id) (lib.sha256 bytes) at.reaped_again
          st.db)
        st

  -- The lease is checked before the upload and again when it is published.
  unfoldable pub upload_artifact : Moment → Request → String → State → Handled
  upload_artifact at req job_id st =
      let renewed = Leases.heartbeat job_id (lease_of req) at.reaped_at at.now st.db in
      after renewed.0 (λ _. after (checked_artifact req) (publish at req job_id))
        (with_db renewed.1 st)

  -- The publication of a source package is immutable: the first file of a checksum stays.
  unfoldable pub checked_input : String → Request → State → Result (List ℕ)
  checked_input sha req st = do
    count ← content_length max_input_bytes req
    require (leb 1 count) "empty source package"
    require (ltb (length st.inputs) 1000) "source upload count budget exceeded"
    require (leb (total_size st.inputs + st.input_reserved + count) (16 * 1024 ^ 3))
        "source upload storage budget exceeded"
    received count req "truncated source package" sha

  unfoldable pub upload_input : String → Request → State → Handled
  upload_input sha req st =
      after (checked_input sha req st)
        (λ bytes st'. (
          replies 200 (stored sha (length bytes)),
          record st' { inputs = keep_first sha bytes st'.inputs },
        ))
        st
