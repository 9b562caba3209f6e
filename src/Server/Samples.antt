-- ===== src/Server/Samples.antt =====
-- A small server, its requests and its replies.
use macqueue.Base.{
  ◌≡◌, ◌≢◌, refl, subst, String, true, Option, none, some, List, [], ◌∷◌, ok, ◌==◌, string_eq,
  if◌then◌else◌, inl,
}
use macqueue.Base.Int.{pos}
use macqueue.Json.{Json, int, str, arr, obj, field, end, cons, nil}
use macqueue.Server.{Request, get, post, unauthorized, read_body, content_length}
use macqueue.Server.Dispatch.{Tokens, dispatch, serve, route_of}
use macqueue.Server.Handlers.{Library, Moment}
use macqueue.Server.Sound.{Arrival, fresh, served, served-IsSound, roles-apart}
use macqueue.Store.Invariant.{IsSound}
use macqueue.Store.Queue
use macqueue.Store.Rows.{transaction}
use macqueue.Server.Handlers
use macqueue.Schema.Jobs.{
  validate_job, check_header, check_sources, check_steps, dumps_size, decimal_size,
}
use macqueue.Schema.Steps.{op_of, check_step}
use macqueue.Schema.Command.{only}
use macqueue.Common.{name, keys, object, text_where, list_where, integer}

abbrev metadata_job : Json
metadata_job = obj (
    field "version" (int (pos 1)) (
      field "project" (str "seeds") (
        field "sources"
          (obj (field "candidate" (str "0123456789abcdef0123456789abcdef01234567") end))
          (field "steps"
            (arr (cons (obj (field "id" (str "tools") (field "op" (str "metadata") end))) nil))
            end))))

abbrev lib : Library
lib = record {
  real_size = λ _. 0;
  loads = λ _. ok metadata_job;
  sha256 = λ _. "";
  after_of = λ _. ok (pos 0);
}

abbrev tokens : Tokens
tokens = record { submit = "s"; worker = "w" }

abbrev headers : String → String → Option String
headers token name =
    if name == "Authorization"
    then some token
    else if name == "Content-Length"
    then some "2"
    else if name == "Idempotency-Key"
    then some "k1"
    else none

abbrev at : Moment
at = record {
  reaped_at = 10;
  now = 11;
  reaped_again = 12;
  job_id = "0123456789abcdef0123456789abcdef";
}

abbrev claiming : Request
claiming = record {
  method = post;
  path = "/v1/worker/claim";
  query = "";
  headers = headers "Bearer s";
  body = 1 ∷ 2 ∷ [];
}

differ : tokens.submit ≢ tokens.worker
differ e =
    let clash : (tokens.submit == tokens.worker) ≡ true =
      subst (λ t. (tokens.submit == t) ≡ true) e refl in
    cc

roles-apart_example :
    dispatch lib tokens at [] claiming fresh ≡ (record { status = 401; body = unauthorized }, fresh)
roles-apart_example = roles-apart lib tokens at [] claiming fresh differ (inl (refl, refl))

abbrev listing : Request
listing = record {
  method = get;
  path = "/v1/jobs";
  query = "";
  headers = headers "Bearer s";
  body = [];
}

abbrev submission : Request
submission = record {
  method = post;
  path = "/v1/jobs";
  query = "";
  headers = headers "Bearer s";
  body = 1 ∷ 2 ∷ [];
}

created : (dispatch lib tokens at [] submission fresh).0.status ≡ 201
unfolding dispatch serve route_of Handlers.submit Handlers.checked_job read_body content_length
    validate_job check_header check_sources check_steps dumps_size decimal_size op_of check_step
    only name keys object text_where list_where integer Queue.submit Queue.submit_tx
    Queue.submit_with Queue.submit_encoded Queue.enqueue Queue.insert_job Queue.expiry_of
    transaction macqueue.Json.is_encodable macqueue.Store.Rows.reap
created = refl

abbrev arrivals : List Arrival
arrivals =
    record { at = at; attempts = []; request = submission }
    ∷ record { at = at; attempts = []; request = listing }
    ∷ record { at = at; attempts = []; request = claiming }
    ∷ []

served-IsSound_example : IsSound (served lib tokens fresh arrivals).db
served-IsSound_example = served-IsSound lib tokens arrivals
