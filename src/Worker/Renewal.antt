-- ===== src/Worker/Renewal.antt =====
-- The renewal of a lease (macqueue/worker.py `Lease.loop` and `Worker.watchdog`): heartbeats, and the
-- reasons for which a job is stopped. Times are whole microseconds of the monotonic clock.
use macqueue.Base.{
  ◌≡◌, refl, ap, subst, ◌∙◌, List, [], ◌∷◌, ℕ, ◌+◌, ◌*◌, ◌-◌, String, Bool, true, false, Option,
  none, some, ltb, leb, if◌then◌else◌, arith, Bool-cases, inl, inr, ◌⊎◌, ◌<◌,
}

pub record Renewal : Type 0 where
  pub last_ok : ℕ
  pub next_heartbeat : ℕ
  pub reason : Option String
  pub cancelled : Bool

-- What became of a heartbeat: the reply, an error status of the server, or no usable reply.
pub data Beaten : Type 0 where
  replied : (cancel : Bool) → Beaten
  refused : (status : ℕ) → Beaten
  unavailable : Beaten

abbrev pub second : ℕ
second = 1000000

unfoldable pub stop_for : String → Renewal → Renewal
stop_for why r = record r { reason = some why; cancelled = true }

abbrev pub stop_when : Bool → String → Renewal → Renewal
stop_when true why r = stop_for why r
stop_when false why r = r

-- A heartbeat that was started and ended at these times.
unfoldable pub heartbeat : Beaten → ℕ → ℕ → Renewal → Renewal
heartbeat (replied cancel) started ended r =
    record (stop_when cancel "cancelled" (record r { last_ok = started })) {
      next_heartbeat = ended + 10 * second;
    }
heartbeat (refused status) started ended r = record (stop_when (ltb status 500) "lease lost" r) {
  next_heartbeat = ended + 2 * second;
}
heartbeat unavailable started ended r = record r { next_heartbeat = ended + 2 * second }

abbrev pub is_stale : ℕ → Renewal → Bool
is_stale now r = leb (40 * second) (now - r.last_ok)

-- The check that the loop and the watchdog both make.
unfoldable pub check_renewal : ℕ → Renewal → Renewal
check_renewal now r = stop_when (is_stale now r) "lease renewal unavailable" r

-- The part of a round of the loop before the log: the heartbeat when it is due, then the check.
unfoldable pub renew : ℕ → Beaten → ℕ → ℕ → ℕ → Renewal → Renewal
renew now beaten started ended checked r =
    check_renewal checked (if leb r.next_heartbeat now then heartbeat beaten started ended r else r)

abbrev pub over_disk : Option String → Renewal → Renewal
over_disk none r = r
over_disk (some why) r = stop_for why r

-- A turn of the watchdog: the deadline of the job, the renewal, and what it found of the disk.
unfoldable pub watch : ℕ → ℕ → ℕ → Option String → Renewal → Renewal
watch deadline now checked disk r =
    over_disk disk (check_renewal checked (stop_when (leb deadline now) "job timed out" r))

-- A turn of either thread, and the time of its check.
pub data Turn : Type 0 where
  loops : (now : ℕ) (beaten : Beaten) (started ended checked : ℕ) → Turn
  watches : (deadline now checked : ℕ) (disk : Option String) → Turn

abbrev pub take_turn : Turn → Renewal → Renewal
take_turn (loops now beaten started ended checked) r = renew now beaten started ended checked r
take_turn (watches deadline now checked disk) r = watch deadline now checked disk r

abbrev pub checked_at : Turn → ℕ
checked_at (loops now beaten started ended checked) = checked
checked_at (watches deadline now checked disk) = checked

abbrev pub run_turns : List Turn → Renewal → Renewal
run_turns [] r = r
run_turns (t ∷ ts) r = run_turns ts (take_turn t r)

-- When the last heartbeat that the server accepted was started, if that was not in this turn at `k`: a
-- heartbeat is sent when it is due.
abbrev pub accepted_in : Turn → Renewal → ℕ → ℕ
accepted_in (loops now (replied _) started ended checked) r k =
    if leb r.next_heartbeat now then started else k
accepted_in _ r k = k

abbrev pub last_accepted : List Turn → Renewal → ℕ → ℕ
last_accepted [] r k = k
last_accepted (t ∷ ts) r k = last_accepted ts (take_turn t r) (accepted_in t r k)

-- Stopped, or the last accepted heartbeat was started at `k`, less than 40 seconds ago.
abbrev pub Current : ℕ → ℕ → Renewal → Type 0
Current now k r = (r.cancelled ≡ true) ⊎ (now < k + 40 * second)

stop_when-keeps :
    (b : Bool) (why : String) (r : Renewal)
    → r.cancelled ≡ true
    → (stop_when b why r).cancelled ≡ true
unfolding stop_for
stop_when-keeps true why r h = refl
stop_when-keeps false why r h = h

check_renewal-Current : (now : ℕ) (r : Renewal) → Current now r.last_ok (check_renewal now r)
unfolding check_renewal stop_for
check_renewal-Current now r = elim (Bool-cases (is_stale now r)) [
  | inl stale ↦ rw stale (inl refl)
  | inr fresh ↦ rw fresh (inr (ground arith))
]

heartbeat-keeps :
    (beaten : Beaten) (started ended : ℕ) (r : Renewal)
    → r.cancelled ≡ true
    → (heartbeat beaten started ended r).cancelled ≡ true
unfolding heartbeat
heartbeat-keeps (replied cancel) started ended r h =
    stop_when-keeps cancel "cancelled" (record r { last_ok = started }) h
heartbeat-keeps (refused status) started ended r h =
    stop_when-keeps (ltb status 500) "lease lost" r h
heartbeat-keeps unavailable started ended r h = h

due-keeps :
    (due : Bool) (beaten : Beaten) (started ended : ℕ) (r : Renewal)
    → r.cancelled ≡ true
    → (if due then heartbeat beaten started ended r else r).cancelled ≡ true
due-keeps true beaten started ended r h = heartbeat-keeps beaten started ended r h
due-keeps false beaten started ended r h = h

over_disk-Current :
    (disk : Option String) (now : ℕ) (r : Renewal)
    → (k : ℕ) → Current now k r
    → Current now k (over_disk disk r)
unfolding stop_for
over_disk-Current none now r k h = h
over_disk-Current (some why) now r k h = inl refl

over_disk-keeps :
    (disk : Option String) (r : Renewal) → r.cancelled ≡ true → (over_disk disk r).cancelled ≡ true
unfolding stop_for
over_disk-keeps none r h = h
over_disk-keeps (some why) r h = refl

stop_when-last_ok :
    (b : Bool) (why : String) (r : Renewal) → (stop_when b why r).last_ok ≡ r.last_ok
unfolding stop_for
stop_when-last_ok true why r = refl
stop_when-last_ok false why r = refl

over_disk-last_ok : (disk : Option String) (r : Renewal) → (over_disk disk r).last_ok ≡ r.last_ok
unfolding stop_for
over_disk-last_ok none r = refl
over_disk-last_ok (some why) r = refl

due-last_ok :
    (due : Bool) (now : ℕ) (beaten : Beaten) (started ended checked : ℕ) (r : Renewal)
    → leb r.next_heartbeat now ≡ due
    → (if due then heartbeat beaten started ended r else r).last_ok
      ≡ accepted_in (loops now beaten started ended checked) r r.last_ok
unfolding heartbeat
due-last_ok false now (replied cancel) started ended checked r h = rw h refl
due-last_ok false now (refused status) started ended checked r h = refl
due-last_ok false now unavailable started ended checked r h = refl
due-last_ok true now (replied cancel) started ended checked r h =
    rw h (stop_when-last_ok cancel "cancelled" (record r { last_ok = started }))
due-last_ok true now (refused status) started ended checked r h =
    stop_when-last_ok (ltb status 500) "lease lost" r
due-last_ok true now unavailable started ended checked r h = refl

-- Before the check of a turn.
abbrev beaten_at : ℕ → Beaten → ℕ → ℕ → Renewal → Renewal
beaten_at now beaten started ended r =
    if leb r.next_heartbeat now then heartbeat beaten started ended r else r

take_turn-last_ok : (t : Turn) (r : Renewal) → (take_turn t r).last_ok ≡ accepted_in t r r.last_ok
unfolding renew watch check_renewal
take_turn-last_ok (loops now beaten started ended checked) r =
    stop_when-last_ok _ "lease renewal unavailable" (beaten_at now beaten started ended r)
    ∙ due-last_ok (leb r.next_heartbeat now) now beaten started ended checked r refl
take_turn-last_ok (watches deadline now checked disk) r =
    over_disk-last_ok disk _
    ∙ (stop_when-last_ok _ "lease renewal unavailable" _
        ∙ stop_when-last_ok (leb deadline now) "job timed out" r)

run_turns-last_ok :
    (ts : List Turn) (r : Renewal) → (run_turns ts r).last_ok ≡ last_accepted ts r r.last_ok
run_turns-last_ok [] r = refl
run_turns-last_ok (t ∷ ts) r =
    run_turns-last_ok ts (take_turn t r)
    ∙ ap (last_accepted ts (take_turn t r)) (take_turn-last_ok t r)

take_turn-Current :
    (t : Turn) (r : Renewal) → Current (checked_at t) (accepted_in t r r.last_ok) (take_turn t r)
unfolding renew watch
take_turn-Current (loops now beaten started ended checked) r =
    subst (λ k. Current checked k (renew now beaten started ended checked r))
      (due-last_ok (leb r.next_heartbeat now) now beaten started ended checked r refl)
      (check_renewal-Current checked (beaten_at now beaten started ended r))
take_turn-Current (watches deadline now checked disk) r =
    let timed = stop_when (leb deadline now) "job timed out" r in
    over_disk-Current disk checked (check_renewal checked timed) r.last_ok (
      subst (λ k. Current checked k (check_renewal checked timed))
        (stop_when-last_ok (leb deadline now) "job timed out" r)
        (check_renewal-Current checked timed))

take_turn-keeps : (t : Turn) (r : Renewal) → r.cancelled ≡ true → (take_turn t r).cancelled ≡ true
unfolding renew watch check_renewal
take_turn-keeps (loops now beaten started ended checked) r h =
    stop_when-keeps _ "lease renewal unavailable" _
      (due-keeps (leb r.next_heartbeat now) beaten started ended r h)
take_turn-keeps (watches deadline now checked disk) r h = over_disk-keeps disk _ (
    stop_when-keeps _ "lease renewal unavailable" _
      (stop_when-keeps (leb deadline now) "job timed out" r h))

run_turns-keeps :
    (ts : List Turn) (r : Renewal) → r.cancelled ≡ true → (run_turns ts r).cancelled ≡ true
run_turns-keeps [] r h = h
run_turns-keeps (t ∷ ts) r h = run_turns-keeps ts (take_turn t r) (take_turn-keeps t r h)

-- After any turns of the loop and of the watchdog, whatever became of the heartbeats, the job has been
-- stopped, or the start of the last heartbeat that the server accepted, or the time that the lease
-- began with if there is none, was less than 40 seconds before the check of the last turn; and a job
-- that was stopped stays stopped through all of them.
pub run_turns-Current :
    (ts : List Turn) (t : Turn) (r : Renewal)
    → Current
        (checked_at t)
        (accepted_in t (run_turns ts r) (last_accepted ts r r.last_ok))
        (take_turn t (run_turns ts r))
      × (r.cancelled ≡ true → (take_turn t (run_turns ts r)).cancelled ≡ true)
run_turns-Current ts t r = (
  subst
      (λ k.
        Current (checked_at t) (accepted_in t (run_turns ts r) k) (take_turn t (run_turns ts r)))
      (run_turns-last_ok ts r) (take_turn-Current t (run_turns ts r)),
  λ h. take_turn-keeps t (run_turns ts r) (run_turns-keeps ts r h),
)
