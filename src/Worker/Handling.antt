-- ===== src/Worker/Handling.antt =====
-- `Worker.retry`, `Worker.handle`, `Worker.signal` and the loop of `Worker.run_locked` of
-- macqueue/worker.py. What the server answers, how the runner ends and which writes succeed are
-- arguments. The threads of a lease leave the reason for which they stopped the job.
use macqueue.Base.{
  ℕ, String, Bool, true, false, not, ◌&&◌, ◌||◌, Option, none, some, List, [], ◌∷◌, ◌==◌, nat_eq,
  string_eq, ltb, leb, if◌then◌else◌, Result, ok, err, invalid, runtime, os_error,
}
use macqueue.Base.Files.{Files, put_file}
use macqueue.Base.Text.{size, all_chars, is_digit}
use macqueue.Store.Rows.{Status, succeeded, failed, cancelled}

-- A request that is answered, refused with a status, or broken off (OSError or ValueError).
pub data Attempt (A : Type 0) : Type 0 where
  answered : A → Attempt A
  refused : ℕ → Attempt A
  broken : Attempt A

abbrev gave_up : {A : Type 0} → Result A
gave_up = err (runtime "result delivery unavailable; job files retained locally")

-- The attempts, each with whether the time or the lease is over after it. The time is over after the
-- last. With what is returned stand the requests that were made, in their order.
unfoldable pub retry : {A : Type 0} → List (Attempt A × Bool) → Result A × List (Attempt A)
retry [] = (gave_up, [])
retry ((answered a, over) ∷ rest) = (ok a, answered a ∷ [])
retry ((refused status, over) ∷ rest) =
    let later = retry rest in
    if ltb status 500
    then (err (runtime "HTTP"), refused status ∷ [])
    else if over
    then (gave_up, refused status ∷ [])
    else (later.0, refused status ∷ later.1)
retry ((broken, over) ∷ rest) =
    let later = retry rest in if over then (gave_up, broken ∷ []) else (later.0, broken ∷ later.1)

-- How `Runner.run` ends; an exception may be a CleanupError.
pub data Ran : Type 0 where
  completed : Ran
  raised : Bool → Ran

-- Where the process dies, or leaves `handle` by an exception outside of its try statements: before the
-- report of the job, or in it, after the requests that it made.
pub data Death : Type 0 where
  in_run in_report : Death

-- A claimed job, with all that happens outside while it is handled.
pub record Work : Type 0 where
  pub id : String
  pub ran : Ran
  pub reason : Option String
  pub noted : Bool
  pub has_artifacts : Bool
  pub reserved : Bool
  pub packed : Bool
  pub upload : List (Attempt (Unit {0}) × Bool)
  pub finish : List (Attempt Status × Bool)
  pub dies : Option Death

-- job_id.result.json
pub record Receipt : Type 0 where
  pub status : Status
  pub artifact_error : Bool
  pub delivered : Bool

pub data Event : Type 0 where
  started ended : Work → Event
  -- A finish request with its status, and what became of it.
  posted : Work → Status → Attempt Status → Event

-- `marker` says whether ACTIVE.json exists, and `dead` that the process is gone; `events`, newest
-- first, is what the worker did.
pub record Service : Type 0 where
  pub marker : Bool
  pub stopped : Bool
  pub dead : Bool
  pub receipts : Files Receipt
  pub events : List Event

abbrev is_lower_hex : ℕ → Bool
is_lower_hex c = is_digit c || leb b'a' c && leb c b'f'

abbrev pub is_job_id : String → Bool
is_job_id id = size id == 32 && all_chars is_lower_hex id

abbrev is_text : String → Option String → Bool
is_text s none = false
is_text s (some t) = t == s

abbrev pub status_of : Ran → Option String → Status
status_of completed reason = succeeded
status_of (raised _) reason = if is_text "cancelled" reason then cancelled else failed

abbrev pub is_clean : Ran → Bool
is_clean completed = true
is_clean (raised unconfirmed) = not unconfirmed

unfoldable pub deliver : Work → Result (Unit {0})
deliver work =
    if work.reserved
    then err (invalid "reserved result path already exists")
    else if work.packed
    then (retry work.upload).0
    else err (invalid "uncompressed artifacts exceed size limit; retained locally")

abbrev pub has_failed : Result (Unit {0}) → Bool
has_failed (err _) = true
has_failed (ok _) = false

abbrev pub artifact_failed : Work → Bool
artifact_failed work = work.has_artifacts && has_failed (deliver work)

abbrev pub downgrade : Status → Status
downgrade succeeded = failed
downgrade status = status

-- The status that the finish request carries.
unfoldable pub final_status : Work → Status
final_status work =
    if artifact_failed work
    then downgrade (status_of work.ran work.reason)
    else status_of work.ran work.reason

abbrev put_receipt : String → Receipt → Service → Service
put_receipt id receipt st = record st { receipts = put_file id receipt st.receipts }

abbrev pub post_all : Work → List (Attempt Status) → List Event → List Event
post_all work [] log = log
post_all work (a ∷ rest) log = post_all work rest (posted work (final_status work) a ∷ log)

abbrev pub told : Work → Result Status × List (Attempt Status) → Service → Service
told work (err _, made) st = record st { events = post_all work made st.events }
told work (ok status, made) st =
    put_receipt work.id
      (record { status = status; artifact_error = artifact_failed work; delivered = true })
      (record st { events = post_all work made st.events })

-- The second try statement; its exceptions are only logged.
unfoldable pub report : Work → Service → Service
report work st =
    if work.noted
    then told work (retry work.finish) (
        put_receipt work.id
          (record {
            status = status_of work.ran work.reason;
            artifact_error = false;
            delivered = false;
          })
          st)
    else st

abbrev pub begin : Work → Service → Service
begin work st = record st {
  marker = true;
  stopped = st.stopped || not (is_clean work.ran);
  events = started work ∷ st.events;
}

abbrev pub end_with : Bool → Work → Service → Service
end_with true work st = record st { marker = false; events = ended work ∷ st.events }
end_with false work st = st

abbrev pub run_to_end : Option Death → Work → Service → Service
run_to_end none work st = end_with (is_clean work.ran) work (report work st)
run_to_end (some in_run) work st = record st { dead = true }
run_to_end (some in_report) work st = record (report work st) { dead = true }

-- The marker is written with O_EXCL.
unfoldable pub handle : Work → Service → Result (Unit {0}) × Service
handle work st =
    if not (is_job_id work.id)
    then (err (invalid "invalid server job ID"), st)
    else if st.marker
    then (err os_error, st)
    else (ok tt, run_to_end work.dies work (begin work st))

-- One turn of the loop, with what it finds. `halted` says that the worker was stopped or paused while
-- it claimed, and `signalled` that a signal has come by the end of the turn.
pub record Turn : Type 0 where
  pub paused : Bool
  pub low_disk : Bool
  pub claim : Attempt (Option Work)
  pub halted : Bool
  pub declined : Attempt (Unit {0})
  pub signalled : Bool

abbrev pub unavailable : {A : Type 0} → Attempt A → Service → Result (Unit {0}) × Service
unavailable (answered _) st = (ok tt, st)
unavailable (refused _) st = (err (runtime "HTTP"), st)
unavailable broken st = (err os_error, st)

-- A job that comes while the worker is halted is given back.
abbrev pub claimed : Turn → Attempt (Option Work) → Service → Result (Unit {0}) × Service
claimed turn (answered (some work)) st =
    if st.stopped || turn.halted then unavailable turn.declined st else handle work st
claimed turn reply st = unavailable reply st

unfoldable pub take_turn : Turn → Service → Result (Unit {0}) × Service
take_turn turn st = if turn.paused || turn.low_disk then (ok tt, st) else claimed turn turn.claim st

abbrev pub signal : Bool → Service → Service
signal signalled st = record st { stopped = st.stopped || signalled }

abbrev pub after_turn :
    Bool
    → Turn
    → Result (Unit {0}) × Service
    → (Service → Result (Unit {0}) × Service)
    → Result (Unit {0}) × Service
after_turn once turn (r, st) continue =
    if once then (r, signal turn.signalled st) else continue (signal turn.signalled st)

-- The turns of the loop so far; a process that has died makes none. With `once` the first is the last, and its exceptions are raised.
unfoldable pub loop : Bool → List Turn → Service → Result (Unit {0}) × Service
loop once [] st = (ok tt, st)
loop once (turn ∷ turns) st =
    let continue = loop once turns in
    if st.stopped || st.dead then (ok tt, st) else after_turn once turn (take_turn turn st) continue

-- A new process, which holds the lock.
unfoldable pub run_locked : Bool → List Turn → Service → Result (Unit {0}) × Service
run_locked once turns st =
    if st.marker
    then (err (invalid "previous worker exited with an active job"), st)
    else loop once turns (record st { stopped = false; dead = false })
