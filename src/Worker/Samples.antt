-- ===== src/Worker/Samples.antt =====
-- A short log, sent in two chunks with a failed request between them.
use macqueue.Worker.Pruned.{SameOf, Gone, prune_worker-SameOf, prune_worker-Gone}
use macqueue.Worker.Pruning.{Local, day, prune_worker, prune_each}
use macqueue.Base.Files.{put_file}
use macqueue.Store.Rows.{succeeded, failed}
use macqueue.Worker.Handling
use macqueue.Worker.Handling.{
  Work, completed, raised, answered, refused, broken, started, ended, posted, in_run, run_locked,
  loop, handle, report, retry, deliver, final_status,
}
use macqueue.Worker.Exclusive.{run_all, new_service, run_all-Orderly}
use macqueue.Worker.Events.{Orderly}
use macqueue.Worker.Renewal.{
  Current, Renewal, Turn, second, take_turn, loops, replied, unavailable, renew, heartbeat,
  check_renewal, stop_for, run_turns-Current,
}
use macqueue.Base.{
  ◌≡◌, refl, true, false, List, [], ◌∷◌, arith, ◌*◌, none, Bool, some, ok, String, inl, inr,
}
use macqueue.Worker.{event, round, take_batch, send, collect}
use macqueue.Worker.Delivery.{Happening, happens, turn, feed_all, silent, InOrder, feed_all-InOrder}

abbrev happenings : List Happening
happenings =
    happens "{\"n\":1}" "large"
    ∷ happens "{\"n\":2}" "large"
    ∷ turn false false
    ∷ happens "{\"n\":3}" "large"
    ∷ turn false true
    ∷ turn false true
    ∷ []

two_chunks :
    (feed_all happenings silent).sent ≡ (0, "{\"n\":1}\n{\"n\":2}\n") ∷ (1, "{\"n\":3}\n") ∷ []
unfolding event round take_batch send collect
two_chunks = refl

feed_all-InOrder_example : InOrder (feed_all happenings silent)
feed_all-InOrder_example =
    feed_all-InOrder happenings (omega arith, (omega arith, (omega arith, tt)))

-- A heartbeat that the server accepts, then none for 41 seconds.
abbrev fresh : Renewal
fresh = record { last_ok = 0; next_heartbeat = 0; reason = none; cancelled = false }

abbrev answered_turn : Turn
answered_turn = loops second (replied false) second (2 * second) (2 * second)

abbrev late_turn : Turn
late_turn = loops (42 * second) unavailable (42 * second) (42 * second) (42 * second)

run_turns-Current_example :
    Current (42 * second) second (take_turn late_turn (take_turn answered_turn fresh))
    × (◌≡◌ {A = Bool} false true
        → (take_turn late_turn (take_turn answered_turn fresh)).cancelled ≡ true)
run_turns-Current_example = run_turns-Current (answered_turn ∷ []) late_turn fresh

stopped_late : (take_turn late_turn (take_turn answered_turn fresh)).cancelled ≡ true
unfolding renew heartbeat check_renewal stop_for
stopped_late = refl

-- A job that succeeds, one whose processes may still run, and a new process of the worker.
abbrev good_work : Work
good_work = record {
  id = "0123456789abcdef0123456789abcdef";
  ran = completed;
  reason = none;
  noted = true;
  has_artifacts = true;
  reserved = false;
  packed = true;
  upload = (broken, false) ∷ (answered tt, false) ∷ [];
  finish = (refused 503, false) ∷ (answered succeeded, false) ∷ [];
  dies = none;
}

abbrev bad_work : Work
bad_work = record good_work { ran = raised true; finish = (answered failed, false) ∷ [] }

abbrev with_work : Work → Handling.Turn
with_work work = record {
  paused = false;
  low_disk = false;
  claim = answered (some work);
  halted = false;
  declined = broken;
  signalled = false;
}

abbrev runs : List (Bool × List Handling.Turn)
runs =
    (false, with_work good_work ∷ with_work bad_work ∷ with_work good_work ∷ [])
    ∷ (false, with_work good_work ∷ [])
    ∷ []

what_happened :
    (run_all runs new_service).events
    ≡ posted bad_work failed (answered failed)
      ∷ started bad_work
      ∷ ended good_work
      ∷ posted good_work succeeded (answered succeeded)
      ∷ posted good_work succeeded (refused 503)
      ∷ started good_work
      ∷ []
unfolding run_all run_locked loop Handling.take_turn handle report retry deliver final_status
    put_file
what_happened = refl

-- A process that dies while the job runs, and the one after it.
dead_runs :
    (run_all
      ((false, with_work (record good_work { dies = some in_run }) ∷ []) ∷ runs)
      new_service).events
    ≡ started (record good_work { dies = some in_run }) ∷ []
unfolding run_all run_locked loop Handling.take_turn handle
dead_runs = refl

run_all-Orderly_example : Orderly (run_all runs new_service)
run_all-Orderly_example = run_all-Orderly runs

-- A job that can be deleted, and one that was not delivered.
abbrev old_job : String
old_job = "0123456789abcdef0123456789abcdef"

abbrev undelivered_job : String
undelivered_job = "1123456789abcdef0123456789abcdef"

abbrev local_jobs : Local
local_jobs = record {
  receipts =
      record { job_id = old_job; modified = 0; delivered = true; artifact_error = false }
      ∷ record { job_id = undelivered_job; modified = 0; delivered = false; artifact_error = false }
      ∷ [];
  workspaces = (old_job, false) ∷ (undelivered_job, false) ∷ [];
  archives = old_job ∷ undelivered_job ∷ [];
}

abbrev left_jobs : Local
left_jobs = record {
  receipts =
      record { job_id = undelivered_job; modified = 0; delivered = false; artifact_error = false }
      ∷ [];
  workspaces = (undelivered_job, false) ∷ [];
  archives = undelivered_job ∷ [];
}

pruned : prune_worker (8 * day) 7 local_jobs ≡ (ok 1, left_jobs)
unfolding prune_worker prune_each
pruned = refl

prune_worker-SameOf_example :
    SameOf undelivered_job local_jobs (prune_worker (8 * day) 7 local_jobs).1
prune_worker-SameOf_example =
    prune_worker-SameOf (8 * day) 7 undelivered_job local_jobs (inr (inl refl), tt)

prune_worker-Gone_example : Gone old_job left_jobs × Unit {0}
prune_worker-Gone_example = prune_worker-Gone (8 * day) 7 local_jobs left_jobs 1 pruned
