-- ===== src/Server/Calls.antt =====
-- The server and the queue: what a request does to the tables is a sequence of calls of the store.
use macqueue.Store.Queue.{get_tx}
use macqueue.Store.Leases.{owned}
use macqueue.Base.{
  ◌≡◌, refl, sym, ◌∙◌, ap, ℕ, String, true, false, ◌&&◌, List, [], ◌∷◌, ◌++◌, Result, ok, err,
  Bool-cases, inl, inr, >>=-eq-ok, Result-cases, ok_injective, ◌==◌, string_eq, require-eq-ok,
  ◌>>=◌,
}
use macqueue.Json.{get_item}
use macqueue.Server.{Request, State, Method, get, post, put, is_authorized, archive_of, header_or}
use macqueue.Server.Dispatch.{
  Tokens, Route, serve, dispatch, route_of, show_logs, download_artifact, input, jobs, claim, job,
  show, heartbeat, logs, finish, cancel, artifact, role_token, is_get,
}
use macqueue.Server.Handlers
use macqueue.Server.Handlers.{Library, Moment, Attempt, Handled, after, store, with_db}
use macqueue.Server.Uploads
use macqueue.Server.Uploads.{upload_artifact, upload_input, download_input, owned_input}
use macqueue.Store.History.{Call, step, run}
use macqueue.Store.Rows.{Db, Tx, transaction, select, reap, Job, view, commit}
use macqueue.Store.Leases
use macqueue.Store.Queue

-- The tables come from calls of the store.
abbrev pub Reached : Db → State → Type 0
Reached before st = (calls : List (ℕ × Call)) × (run before calls ≡ st.db)

pub run-append : (db : Db) (xs ys : List (ℕ × Call)) → run db (xs ++ ys) ≡ run (run db xs) ys
unfolding run
run-append db [] ys = refl
run-append db (x ∷ xs) ys = run-append (step db x) xs ys

stays : (st : State) → Reached st.db st
unfolding run
stays st = ([], refl)

module _ {ℓ} {A : Type ℓ} where
  after-Reached :
      (r : Result A) (rest : A → State → Handled) (db : Db) (st : State)
      → Reached db st
      → ((a : A) → Reached st.db (rest a st).1)
      → Reached db (after r rest st).1
  after-Reached (err e) rest db st h k = h
  after-Reached (ok a) rest db st (cs, e) k =
      let (ds, f) = k a in (cs ++ ds, run-append db cs ds ∙ (ap (λ d. run d ds) e ∙ f))

-- The lease check of a download reads a row that is there.
owned_input-reads :
    (id lease sha : String) (db : Db) {done : Unit {0} × Db}
    → owned_input id lease sha db ≡ ok done
    → (done.1 ≡ db) × (row : Job) × (select id db ≡ ok row)
unfolding owned_input owned
owned_input-reads id lease sha db {done} e =
    let (row, o, h₁) = >>=-eq-ok (owned id lease db) _ e in
    let (listed, _, h₂) = >>=-eq-ok (get_item row.spec "steps") _ h₁ in
    let (steps, _, h₃) = >>=-eq-ok (Uploads.steps_of listed) _ h₂ in
    let (belongs, _, h₄) = >>=-eq-ok (Uploads.provisions sha steps) _ h₃ in
    let (_, h₅) = require-eq-ok belongs _ _ h₄ in
    let (found, s, _) = >>=-eq-ok (select id db) _ o in
    (sym (ap (λ d. d.1) (ok_injective (tt, db) done h₅)), found, s)

get_tx-found :
    (id : String) (db : Db) (row : Job) → select id db ≡ ok row → get_tx id db ≡ ok (view row, db)
unfolding get_tx
get_tx-found id db row found = ap (λ r. r >>= λ j. ok (view j, db)) found

commits {ℓ} :
    {A : Type ℓ} (t : ℕ) (body : Tx A) (db : Db) (r : Result (A × Db))
    → body (reap t db) ≡ r
    → (transaction t body db).1 ≡ (commit db r).1
unfolding transaction
commits t body db r e = ap (λ x. (commit db x).1) e

get-reaps :
    (id : String) (t : ℕ) (db : Db) (row : Job)
    → select id (reap t db) ≡ ok row
    → run db ((t, Call.get id) ∷ []) ≡ reap t db
unfolding run step Queue.get
get-reaps id t db row found =
    commits t (get_tx id) db (ok (view row, reap t db)) (get_tx-found id (reap t db) row found)

-- It sees the reaped tables, as `get` does.
download-step :
    (id lease sha : String) (t : ℕ) (db : Db)
    → (cs : List (ℕ × Call)) × (run db cs ≡ (transaction t (owned_input id lease sha) db).1)
unfolding run
download-step id lease sha t db = elim (Result-cases (owned_input id lease sha (reap t db))) [
  | inl (done, e) ↦
      let (kept, row, s) = owned_input-reads id lease sha (reap t db) e in
      let here = commits t (owned_input id lease sha) db (ok done) e in
      ((t, Call.get id) ∷ [], get-reaps id t db row s ∙ (sym kept ∙ sym here))
  | inr (raised, e) ↦ ([], sym (commits t (owned_input id lease sha) db (err raised) e))
]

download_input-Reached :
    (at : Moment) (req : Request) (sha : String) (st : State)
    → Reached st.db (download_input at req sha st).1
unfolding download_input
download_input-Reached at req sha st =
    let id = header_or "" (req.headers "X-Job-ID") in
    let checked = transaction at.reaped_at (owned_input id (Handlers.lease_of req) sha) st.db in
    let st' = with_db checked.1 st in
    after-Reached checked.0 _ st.db st'
      (download-step id (Handlers.lease_of req) sha at.reaped_at st.db) (λ _. stays st')

download_artifact-Reached :
    (at : Moment) (id : String) (st : State) → Reached st.db (download_artifact at id st).1
unfolding download_artifact run step
download_artifact-Reached at id st =
    let found = Leases.artifact id at.reaped_at st.db in
    let st' = with_db found.1 st in
    after-Reached found.0 _ st.db st' ((at.reaped_at, Call.artifact id) ∷ [], refl) (λ _. stays st')

module _ (lib : Library) where
  published-db :
      (id : String) (bytes : List ℕ) (r : Result (Unit {0}) × Db) (st : State)
      → (Uploads.published lib id bytes r st).1.db ≡ r.1
  published-db id bytes (ok _, db) st = refl
  published-db id bytes (err e, db) st = refl

  submit-Reached :
      (at : Moment) (req : Request) (st : State) → Reached st.db (Handlers.submit lib at req st).1
  unfolding run step Handlers.submit
  submit-Reached at req st =
      after-Reached (Handlers.checked_job lib req) _ st.db st (stays st)
        (λ checked. ((at.reaped_at, Call.submit checked.0 checked.1 at.job_id at.now) ∷ [], refl))

  append_log-Reached :
      (at : Moment) (req : Request) (id : String) (st : State)
      → Reached st.db (Handlers.append_log lib at req id st).1
  unfolding run step Handlers.append_log
  append_log-Reached at req id st =
      after-Reached (Handlers.checked_log lib req) _ st.db st (stays st) (λ checked.
        ((at.reaped_at, Call.append_log id (Handlers.lease_of req) checked.0 checked.1) ∷ [], refl))

  finish-Reached :
      (at : Moment) (req : Request) (id : String) (st : State)
      → Reached st.db (Handlers.finish lib at req id st).1
  unfolding run step Handlers.finish
  finish-Reached at req id st =
      after-Reached (Handlers.checked_finish lib req) _ st.db st (stays st) (λ checked. (
        (at.reaped_at, Call.finish id (Handlers.lease_of req) checked.0 checked.1 at.now) ∷ [],
        refl,
      ))

  heartbeat-Reached :
      (at : Moment) (req : Request) (id : String) (st : State)
      → Reached st.db (Handlers.heartbeat lib at req id st).1
  unfolding run step Handlers.heartbeat
  heartbeat-Reached at req id st =
      ((at.reaped_at, Call.heartbeat id (Handlers.lease_of req) at.now) ∷ [], refl)

  show_logs-Reached :
      (at : Moment) (req : Request) (id : String) (st : State)
      → Reached st.db (show_logs lib at req id st).1
  unfolding run step show_logs
  show_logs-Reached at req id st =
      after-Reached (lib.after_of req.query) _ st.db st (stays st)
        (λ n. ((at.reaped_at, Call.logs id n) ∷ [], refl))

  poll-Reached :
      (worker : String) (projects : List String) (attempts : List Attempt) (st : State)
      → Reached st.db (Handlers.poll lib worker projects attempts st).1
  unfolding Handlers.poll step run
  poll-Reached worker projects [] st = stays st
  poll-Reached worker projects (a ∷ rest) st =
      let tried = Queue.claim worker projects a.lease a.reaped_at a.now (run st.db a.others) in
      let mine : List (ℕ × Call) =
        a.others ++ (a.reaped_at, Call.claim worker projects a.lease a.now) ∷ [] in
      let here : run st.db mine ≡ tried.1 = run-append st.db a.others _ in
      elim (Bool-cases (Handlers.is_final lib tried.0)) [
        | inl final ↦ rw final (mine, here)
        | inr later ↦
            let (cs, e) = poll-Reached worker projects rest (with_db tried.1 st) in
            rw later (mine ++ cs, run-append st.db mine cs ∙ (ap (λ d. run d cs) here ∙ e))
      ]

  claim-Reached :
      (attempts : List Attempt) (req : Request) (st : State)
      → Reached st.db (Handlers.claim lib attempts req st).1
  unfolding Handlers.claim
  claim-Reached attempts req st =
      after-Reached (Handlers.checked_claim lib req) _ st.db st (stays st)
        (λ checked. poll-Reached checked.0 checked.1 attempts st)

  upload_input-Reached :
      (sha : String) (req : Request) (st : State) → Reached st.db (upload_input lib sha req st).1
  unfolding upload_input run
  upload_input-Reached sha req st =
      after-Reached (Uploads.checked_input lib sha req st) _ st.db st (stays st) (λ bytes. stays st)

  upload_artifact-Reached :
      (at : Moment) (req : Request) (id : String) (st : State)
      → Reached st.db (upload_artifact lib at req id st).1
  unfolding upload_artifact run step
  upload_artifact-Reached at req id st =
      let renewed = Leases.heartbeat id (Handlers.lease_of req) at.reaped_at at.now st.db in
      let st' = with_db renewed.1 st in
      after-Reached renewed.0 _ st.db st'
        ((at.reaped_at, Call.heartbeat id (Handlers.lease_of req) at.now) ∷ [], refl)
        (λ beaten.
          after-Reached (Uploads.checked_artifact lib req) _ st'.db st' (stays st') (λ bytes. (
            (
              at.reaped_again,
              Call.publish id (Handlers.lease_of req) (archive_of id) (lib.sha256 bytes),
            )
                ∷ [],
            sym (
                published-db id bytes
                  (Leases.publish id (Handlers.lease_of req) (archive_of id) (lib.sha256 bytes)
                    at.reaped_again renewed.1)
                  st'),
          )))

  -- What a request does to the tables, whatever its route, is what some calls of the store do.
  serve-Reached :
      (at : Moment) (attempts : List Attempt) (req : Request) (route : Route) (method : Method)
      (st : State)
      → Reached st.db (serve lib at attempts req route method st).1
  unfolding serve run step
  serve-Reached at attempts req (input false sha) put st = upload_input-Reached sha req st
  serve-Reached at attempts req (input true sha) get st = download_input-Reached at req sha st
  serve-Reached at attempts req jobs post st = submit-Reached at req st
  serve-Reached at attempts req jobs get st = ((at.reaped_at, Call.list 100) ∷ [], refl)
  serve-Reached at attempts req claim post st = claim-Reached attempts req st
  serve-Reached at attempts req (job true id heartbeat) post st = heartbeat-Reached at req id st
  serve-Reached at attempts req (job true id logs) post st = append_log-Reached at req id st
  serve-Reached at attempts req (job true id finish) post st = finish-Reached at req id st
  serve-Reached at attempts req (job true id artifact) put st = upload_artifact-Reached at req id st
  serve-Reached at attempts req (job false id show) get st =
      ((at.reaped_at, Call.get id) ∷ [], refl)
  serve-Reached at attempts req (job false id cancel) post st =
      ((at.reaped_at, Call.cancel id at.now) ∷ [], refl)
  serve-Reached at attempts req (job false id logs) get st = show_logs-Reached at req id st
  serve-Reached at attempts req (job false id artifact) get st = download_artifact-Reached at id st
  serve-Reached at attempts req _ _ st = stays st

  pub dispatch-Reached :
      (tokens : Tokens) (at : Moment) (attempts : List Attempt) (req : Request) (st : State)
      → Reached st.db (dispatch lib tokens at attempts req st).1
  unfolding dispatch
  dispatch-Reached tokens at attempts req st =
      elim (Bool-cases (is_get lib req.method && req.path == "/healthz")) [
        | inl probe ↦ rw probe (stays st)
        | inr other ↦ elim (Bool-cases (is_authorized (role_token lib tokens req.path) req)) [
          | inl granted ↦
              rw (other, granted) (serve-Reached at attempts req (route_of req.path) req.method st)
          | inr denied ↦ rw (other, denied) (stays st)
        ]
      ]
