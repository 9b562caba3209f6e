-- ===== src/Store/Samples.antt =====
-- Small queues, and the theorems about the tables at them.
use macqueue.Base.{
  ℕ, ◌≡◌, refl, Option, none, some, List, [], ◌∷◌, Result, ok, err, arith, true, false, ◌⊎◌, subst,
  ap, invalid,
}
use macqueue.Base.Int.{pos}
use macqueue.Base.Lists.{All, any}
use macqueue.Json.{Json, str, arr, obj, field, end, cons, nil, py_eq, is_encodable}
use macqueue.Store.Rows.{Db, Job, Public, view, reap, has_active, is_queued, failed}
use macqueue.Store.Queue
use macqueue.Store.Queue.{new_job, start, Claim, is_for}
use macqueue.Store.Leases
use macqueue.Store.Leases.{owned, complete}
use macqueue.Store.Prune.{Directory, prune}
use macqueue.Store.History.{Call, step, run, empty}
use macqueue.Store.History.Sound.{run-empty-IsSound, step-IsSound}
use macqueue.Store.History.Life.{Stays, run-Stays}
use macqueue.Store.Invariant.{IsSound}
use macqueue.Store.Idempotence.Submission.{submit_again}
use macqueue.Store.Idempotence.Completion.{finish_twice}
use macqueue.Store.Idempotence.Logging.{append_log_twice}
use macqueue.Store.Claiming.{claim-Hands, claim-none, Hands}
use macqueue.Store.Timeouts.{lease_over, Refused}
use macqueue.Store.Pruning.{prune-Pruned, Pruned}

abbrev spec : Json
spec = obj (
    field "project" (str "seed") (
      field "steps" (arr (cons (obj (field "id" (str "m") (field "op" (str "metadata") end))) nil))
        end))

-- One job submitted, claimed, logged to, asked to cancel, and reported as failed.
abbrev script : List (ℕ × Call)
script =
    (10, Call.submit spec "k1" "j1" 10)
    ∷ (11, Call.claim "mac" ("seed" ∷ []) "lease1" 11)
    ∷ (12, Call.append_log "j1" "lease1" (pos 0) "hello")
    ∷ (13, Call.cancel "j1" 13)
    ∷ (14, Call.finish "j1" "lease1" (str "failed") (obj end) 14)
    ∷ []

abbrev sent : Job
sent = new_job "j1" spec "k1" 10 86400

abbrev waiting : Db
waiting = record { jobs = sent ∷ []; logs = [] }

abbrev held : Job
held = start "mac" "lease1" 11 sent

abbrev busy : Db
busy = record { jobs = held ∷ []; logs = [] }

runs_waiting : run empty ((10, Call.submit spec "k1" "j1" 10) ∷ []) ≡ waiting
unfolding run step is_encodable reap
runs_waiting = refl

runs_busy :
    run empty
      ((10, Call.submit spec "k1" "j1" 10) ∷ (11, Call.claim "mac" ("seed" ∷ []) "lease1" 11) ∷ [])
    ≡ busy
unfolding run step is_encodable py_eq reap
runs_busy = refl

waiting-IsSound : IsSound waiting
waiting-IsSound =
    subst IsSound runs_waiting (run-empty-IsSound ((10, Call.submit spec "k1" "j1" 10) ∷ []))

busy-IsSound : IsSound busy
busy-IsSound = subst IsSound runs_busy (
    run-empty-IsSound
      ((10, Call.submit spec "k1" "j1" 10) ∷ (11, Call.claim "mac" ("seed" ∷ []) "lease1" 11) ∷ []))

run-empty-IsSound_example : IsSound (run empty script)
run-empty-IsSound_example = run-empty-IsSound script

run-Stays_example : Stays "j1" held (run busy ((13, Call.cancel "j1" 13) ∷ [])).jobs
run-Stays_example = run-Stays busy ((13, Call.cancel "j1" 13) ∷ []) "j1" held busy-IsSound refl

empty-IsSound : IsSound empty
unfolding run
empty-IsSound = run-empty-IsSound []

accepts_sent :
    ◌≡◌ {A = Result Public × Db} (Queue.submit spec "k1" "j1" 10 10 empty) (ok (view sent), waiting)
unfolding Queue.submit is_encodable reap
accepts_sent = refl

agrees_with_itself : py_eq (view sent).spec spec ≡ true
unfolding py_eq view
agrees_with_itself = refl

abbrev claims : List (ℕ × Call)
claims = (11, Call.claim "mac" ("seed" ∷ []) "lease1" 11) ∷ []

submit_again_example :
    (q : Public) × (◌≡◌ {A = Result Public × Db}
      (Queue.submit spec "k1" "j2" 12 12 (run waiting claims))
      (ok q, reap 12 (run waiting claims)))
    × (q.id ≡ (view sent).id)
submit_again_example =
    submit_again spec "k1" "j1" 10 10 empty (view sent) waiting claims "j2" 12 12 empty-IsSound
      accepts_sent agrees_with_itself

abbrev failure : Job
failure = complete failed (obj end) 14 held

abbrev over : Db
over = record { jobs = failure ∷ []; logs = [] }

accepts_failure :
    ◌≡◌ {A = Result Public × Db}
      (Leases.finish "j1" "lease1" (str "failed") (obj end) 14 14 busy)
      (ok (view failure), over)
unfolding Leases.finish is_encodable reap
accepts_failure = refl

over-IsSound : IsSound over
unfolding step
over-IsSound =
    subst IsSound (ap (λ q. q.1) accepts_failure)
      (step-IsSound busy (14, Call.finish "j1" "lease1" (str "failed") (obj end) 14) busy-IsSound)

finish_twice_example :
    ◌≡◌ {A = Result Public × Db}
      (Leases.finish "j1" "lease1" (str "failed") (obj end) 20 20 (run over claims))
      (ok (view failure), reap 20 (run over claims))
finish_twice_example =
    finish_twice "j1" "lease1" (str "failed") (obj end) 14 14 busy (view failure) over claims 20 20
      busy-IsSound accepts_failure

abbrev logged : Db
logged = record {
  jobs = record held { log_bytes = 5 } ∷ [];
  logs = record { job_id = "j1"; seq = pos 0; text = "hello" } ∷ [];
}

accepts_chunk :
    ◌≡◌ {A = Result (Unit {0}) × Db}
      (Leases.append_log "j1" "lease1" (pos 0) "hello" 12 busy)
      (ok tt, logged)
unfolding Leases.append_log reap
accepts_chunk = refl

still_owned : owned "j1" "lease1" (reap 13 (run logged [])) ≡ ok (record held { log_bytes = 5 })
unfolding owned reap run
still_owned = refl

append_log_twice_example :
    Leases.append_log "j1" "lease1" (pos 0) "other" 13 (run logged [])
    ≡ (err (invalid "log sequence collision"), run logged [])
append_log_twice_example =
    append_log_twice "j1" "lease1" (pos 0) "hello" 12 busy logged [] "other" 13
      (record held { log_bytes = 5 }) busy-IsSound accepts_chunk still_owned

abbrev handed : Claim
handed = record { job = view held; lease = "lease1"; lease_seconds = 60 }

hands_out :
    ◌≡◌ {A = Result (Option Claim) × Db}
      (Queue.claim "mac" ("seed" ∷ []) "lease1" 11 11 waiting)
      (ok (some handed), busy)
unfolding Queue.claim py_eq reap
hands_out = refl

claim-Hands_example : Hands "mac" ("seed" ∷ []) "lease1" 11 (reap 11 waiting) handed busy
claim-Hands_example =
    claim-Hands "mac" ("seed" ∷ []) "lease1" 11 11 waiting handed busy waiting-IsSound hands_out

hands_nothing :
    ◌≡◌ {A = Result (Option Claim) × Db}
      (Queue.claim "mac" ("other" ∷ []) "lease1" 11 11 waiting)
      (ok none, waiting)
unfolding Queue.claim py_eq reap
hands_nothing = refl

claim-none_example :
    (any has_active (reap 11 waiting).jobs ≡ true)
    ⊎ All
        (λ r. is_queued r.status ≡ true → is_for ("other" ∷ []) r ≡ ok false)
        (reap 11 waiting).jobs
claim-none_example = claim-none "mac" ("other" ∷ []) "lease1" 11 11 waiting waiting hands_nothing

lease_over_example :
    Refused busy (Leases.heartbeat "j1" "lease1" 60000011 60000011 busy)
    × Refused busy (Leases.append_log "j1" "lease1" (pos 0) "late" 60000011 busy)
    × Refused busy (Leases.publish "j1" "lease1" "j1.tar.gz" "sha" 60000011 busy)
lease_over_example =
    lease_over busy "j1" held 60000011 60000011 "lease1" 60000011 (pos 0) "late" "j1.tar.gz" "sha"
      refl refl refl (omega arith)

abbrev files : Directory
files = record { db = over; artifacts = "j1.tar.gz" ∷ []; inputs = [] }

prune-Pruned_example : Pruned files (prune 30 20 20 20 files).1 20
prune-Pruned_example = prune-Pruned 30 20 20 20 files over-IsSound
