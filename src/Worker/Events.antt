-- ===== src/Worker/Events.antt =====
-- What a worker may do, as the events of macqueue/worker.py `Worker.handle`.
use macqueue.Base.{Bool, true, false, some, List, [], ◌∷◌, ok, ltb, ◌≡◌, ◌⊎◌}
use macqueue.Store.Rows.{Status, succeeded}
use macqueue.Worker.Handling.{
  Attempt, answered, refused, broken, completed, Work, Event, started, ended, posted, Death,
  Service, is_clean, deliver, final_status,
}

-- The runner has completed the job, and its artifacts, if it has any, have been accepted.
abbrev pub IsDone : Work → Type 0
IsDone work = (work.ran ≡ completed) × ((work.has_artifacts ≡ false) ⊎ (deliver work ≡ ok tt))

-- No further request follows: an answer, or a refusal that is not the server's own trouble.
abbrev pub is_settled : Attempt Status → Bool
is_settled (answered _) = true
is_settled (refused status) = ltb status 500
is_settled broken = false

-- Events, newest first. A job starts when no other is open. Its finish requests carry one status, which
-- is a success only if the job is done, and none follows one that is settled. It ends when its
-- processes are known to have ended.
mutual
  pub data Quiet : List Event → Type 0 where
    nothing : Quiet []
    closed :
        {work : Work} {log : List Event} {settled : Bool}
        → Open settled work log
        → is_clean work.ran ≡ true
        → Quiet (ended work ∷ log)

  pub data Open : Bool → Work → List Event → Type 0 where
    fresh : {work : Work} {log : List Event} → Quiet log → Open false work (started work ∷ log)
    asked :
        {work : Work} {log : List Event} (attempt : Attempt Status)
        → Open false work log
        → (final_status work ≡ succeeded → IsDone work)
        → Open (is_settled attempt) work (posted work (final_status work) attempt ∷ log)

-- The processes of the job may still run, or the worker died while it handled the job.
abbrev pub IsUnsure : Work → Type 0
IsUnsure work = (is_clean work.ran ≡ false) ⊎ ((m : Death) × (work.dies ≡ some m))

-- While the marker stands, one job is open of which that is so.
pub data Orderly (st : Service) : Type 0 where
  idle : st.marker ≡ false → Quiet st.events → Orderly st
  stuck :
      (work : Work) (settled : Bool)
      → st.marker ≡ true
      → IsUnsure work
      → Open settled work st.events
      → Orderly st
