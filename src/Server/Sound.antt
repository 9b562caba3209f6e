-- ===== src/Server/Sound.antt =====
-- A server from its start: what any sequence of requests leaves.
use macqueue.Base.Text.{starts_with}
use macqueue.Base.{
  ◌≡◌, refl, subst, String, true, false, ◌&&◌, List, [], ◌∷◌, ◌==◌, string_eq, Bool-cases, inl, inr,
  eq_of_==, &&-eq-true, sym, ◌≢◌, ◌⊎◌, arith, ◌∙◌,
}
use macqueue.Server.{Request, State, unauthorized, is_authorized, header_or}
use macqueue.Server.Calls.{dispatch-Reached}
use macqueue.Server.Dispatch.{Tokens, dispatch, role_token, is_get}
use macqueue.Server.Handlers.{Library, Moment, Attempt}
use macqueue.Store.History.{empty, run}
use macqueue.Store.History.Sound.{run-IsSound, run-empty-IsSound}
use macqueue.Store.Invariant.{IsSound}

pub record Arrival : Type 0 where
  pub at : Moment
  pub attempts : List Attempt
  pub request : Request

abbrev pub fresh : State
fresh = record { db = empty; artifacts = []; inputs = []; input_reserved = 0 }

module _ (lib : Library) (tokens : Tokens) where
  -- The state after requests that are answered one after the other.
  abbrev pub served : State → List Arrival → State
  served st [] = st
  served st (a ∷ rest) = served (dispatch lib tokens a.at a.attempts a.request st).1 rest

  served_from :
      (st : State) (arrivals : List Arrival) → IsSound st.db → IsSound (served st arrivals).db
  served_from st [] v = v
  served_from st (a ∷ rest) v =
      let (calls, e) = dispatch-Reached lib tokens a.at a.attempts a.request st in
      served_from (dispatch lib tokens a.at a.attempts a.request st).1 rest
        (subst IsSound e (run-IsSound st.db calls v))

  -- After any sequence of requests to a server that starts with an empty queue, whatever they carry,
  -- and whatever other requests do while a claim waits, the tables are sound: one active job at
  -- most, unique ids, request keys and log numbers, rows that agree with their status.
  pub served-IsSound : (arrivals : List Arrival) → IsSound (served fresh arrivals).db
  unfolding run
  served-IsSound arrivals = served_from fresh arrivals (run-empty-IsSound [])

  dispatch-denied :
      (at : Moment) (attempts : List Attempt) (req : Request) (st : State)
      → is_authorized (role_token lib tokens req.path) req ≡ false
      → (is_get lib req.method && req.path == "/healthz") ≡ false
      → dispatch lib tokens at attempts req st ≡ (record { status = 401; body = unauthorized }, st)
  unfolding dispatch
  dispatch-denied at attempts req st denied other = rw (other, denied) refl

  no_probe :
      (req : Request)
      → starts_with req.path "/v1/worker/" ≡ true
      → (is_get lib req.method && req.path == "/healthz") ≡ false
  no_probe req below = elim (Bool-cases (req.path == "/healthz")) [
    | inl probe ↦
        let clash : starts_with "/healthz" "/v1/worker/" ≡ true =
          subst (λ p. starts_with p "/v1/worker/" ≡ true) (eq_of_== req.path "/healthz" probe)
            below in
        cc
    | inr other ↦ rw other (ground arith)
  ]

  -- A token is one role's only.
  one_role :
      (req : Request) (a b : String)
      → a ≢ b
      → is_authorized a req ≡ true
      → is_authorized b req ≡ false
  one_role req a b differ h = elim (Bool-cases (is_authorized b req)) [
    | inl k ↦
        let given = header_or "" (req.headers "Authorization") in
        let (_, ga) = &&-eq-true (starts_with given "Bearer ") _ h in
        let (_, gb) = &&-eq-true (starts_with given "Bearer ") _ k in
        absurd (differ (sym (eq_of_== _ a ga) ∙ eq_of_== _ b gb))
    | inr denied ↦ denied
  ]

  -- Where the two tokens differ, as the server requires, a request below /v1/worker/ that carries the
  -- submitter's token is answered by 401 and changes nothing, and so is any other request elsewhere,
  -- but for health probes, that carries the worker's.
  pub roles-apart :
      (at : Moment) (attempts : List Attempt) (req : Request) (st : State)
      → tokens.submit ≢ tokens.worker
      → ((is_authorized tokens.submit req ≡ true) × (starts_with req.path "/v1/worker/" ≡ true))
        ⊎ ((is_authorized tokens.worker req ≡ true)
            × (starts_with req.path "/v1/worker/" ≡ false)
            × ((is_get lib req.method && req.path == "/healthz") ≡ false))
      → dispatch lib tokens at attempts req st ≡ (record { status = 401; body = unauthorized }, st)
  roles-apart at attempts req st differ (inl (given, below)) =
      let denied = one_role req tokens.submit tokens.worker differ given in
      dispatch-denied at attempts req st (rw below denied) (no_probe req below)
  roles-apart at attempts req st differ (inr (given, above, other)) =
      let denied = one_role req tokens.worker tokens.submit (λ e. differ (sym e)) given in
      dispatch-denied at attempts req st (rw above denied) other
