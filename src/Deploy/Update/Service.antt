-- ===== src/Deploy/Update/Service.antt =====
-- `Update.stop` and `Update.start`: pausing and stopping the service, and bringing it back.
use macqueue.Base.{ℕ, zero, suc, Bool, true, false, not, if◌then◌else◌}
use macqueue.Base.Actions.{Action, ◌>>=◌, ◌>>◌, return, modify, check, reads}
use macqueue.Deploy.Update.{Machine, Outside}

-- A loop of that many rounds, each with one look: whether it broke, and the number of the next look.
unfoldable pub look_until : ℕ → (ℕ → Bool) → ℕ → Bool × ℕ
look_until zero test look = (false, look)
look_until (suc rounds) test look =
    let later = look_until rounds test (suc look) in if test look then (true, suc look) else later

abbrev pub set_paused : Bool → Machine → Machine
set_paused b s = record s { paused = b }

abbrev pub set_running : Bool → Machine → Machine
set_running b s = record s { running = b }

module _ (out : Outside) where
  -- `check=True`: another exit code raises CalledProcessError.
  abbrev pub exits : Bool → Action Machine (Unit {0})
  exits done = check done "CalledProcessError"

  abbrev pub bootout : Bool → Action Machine (Unit {0})
  bootout false = return tt
  bootout true = do exits out.stops; modify (set_running false)

  -- After three seconds a job that was claimed has its ACTIVE.json; up to 60 looks wait for its end.
  unfoldable pub stop_mac : Action Machine (Unit {0})
  stop_mac = do
    modify (set_paused true)
    let drained = look_until 60 (λ look. not (out.active look)) 0
    check (not (out.active drained.1))
        "active job still running; retry later, worker remains paused"
    loaded ← reads (λ s. s.running)
    bootout loaded
    check (look_until 60 (λ look. not (out.locked look)) 0).0
        "worker did not stop; installation stays paused"
    check (not (out.active (suc drained.1))) "unconfirmed job cleanup; refusing update"

  unfoldable pub stop_linux : Action Machine (Unit {0})
  stop_linux = do exits out.stops; modify (set_running false)

  abbrev pub stop_on : Bool → Action Machine (Unit {0})
  stop_on true = stop_mac
  stop_on false = stop_linux

  unfoldable pub stop : Action Machine (Unit {0})
  stop s = stop_on s.mac s

  abbrev pub resume : Bool → Action Machine (Unit {0})
  resume true = return tt
  resume false = modify (set_paused false)

  unfoldable pub start_mac : Bool → Action Machine (Unit {0})
  start_mac paused = do
    exits out.starts
    modify (set_running true)
    check (look_until 120 out.ready 0).0 "updated worker did not become ready; remains paused"
    check (not out.gui_session) "unexpected GUI session"
    resume paused

  unfoldable pub start_linux : Action Machine (Unit {0})
  start_linux = do exits out.starts; modify (set_running true); exits out.is_active

  abbrev pub start_on : Bool → Bool → Action Machine (Unit {0})
  start_on true paused = start_mac paused
  start_on false paused = start_linux

  unfoldable pub start : Bool → Action Machine (Unit {0})
  start paused s = start_on s.mac paused s
