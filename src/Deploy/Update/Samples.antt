-- ===== src/Deploy/Update/Samples.antt =====
-- Examples for deploy/update.py.
use macqueue.Base.{
  ℕ, String, true, false, none, some, List, [], ◌∷◌, ◌==◌, nat_eq, string_eq, ok, ◌≡◌, refl,
  if◌then◌else◌, not,
}
use macqueue.Base.Files.{find_file, put_file}
use macqueue.Base.Actions.{◌>>=◌, ◌>>◌, return, lift, reads, modify, check, for_each}
use macqueue.Json.{null}
use macqueue.Deploy.Update.{File, Receipt, Machine, Outside, prepared, target, current}
use macqueue.Deploy.Update.Service.{stop, start, stop_linux, start_linux}
use macqueue.Deploy.Update.Backup.{replace, record_item, record_items}
use macqueue.Deploy.Update.Rollback.{RestoresTo, apply-restore, apply-untouched}
use macqueue.Deploy.Update.Apply.{
  Tools, Stage, Run, rollout, apply, save, check_file, check_files, check_machine, check_stage,
  prepare, install_file, install,
}

-- A digest that tells the texts of the examples apart.
abbrev first_byte : List ℕ → String
first_byte [] = "empty"
first_byte (b ∷ _) = if b == 1 then "one" else if b == 2 then "two" else "other"

abbrev tools : Tools
tools = record {
  sha256 = first_byte;
  compiles = λ _ _. true;
  load_config = λ _. ok (record { capabilities = none; max_output_bytes = none; others = null });
  dump_config = λ _. 3 ∷ [];
  dscl = λ _. ok "";
}

abbrev plain : ℕ → File
plain b = record { bytes = b ∷ []; uid = 0; gid = 0; mode = 0o644; is_link = false }

abbrev server : Machine
server = record {
  mac = false;
  installation_id = "a";
  gid = 0;
  targets = ("agent.py", plain 1) ∷ ("macqueue/store.py", plain 1) ∷ [];
  before = [];
  receipt = none;
  paused = false;
  running = true;
}

-- The disk is full at the second file.
abbrev full_disk : Outside
full_disk = record {
  active = λ _. false;
  stops = true;
  locked = λ _. false;
  starts = true;
  ready = λ _. true;
  is_active = true;
  gui_session = false;
  writable = λ name. not (name == "macqueue/store.py");
  saves = λ _. true;
}

abbrev mended : Outside
mended = record full_disk { writable = λ _. true }

abbrev stage : Stage
stage = record {
  platform = "debian";
  files =
      ("agent.py", record { before = some "one"; after = some "two" })
      ∷ ("macqueue/store.py", record { before = some "one"; after = some "two" })
      ∷ ("macqueue/plans.py", record { before = none; after = some "two" })
      ∷ [];
  probe = rollout "" "";
  staged =
      ("agent.py", 2 ∷ []) ∷ ("macqueue/store.py", 2 ∷ []) ∷ ("macqueue/plans.py", 2 ∷ []) ∷ [];
  source_probe = none;
}

abbrev no_run : Run
no_run = record { copied = none; code = 0; report = none; artifacts = []; diagnostics = true }

abbrev left : Machine
left = (apply tools full_disk stage no_run server).1

abbrev saved : Receipt
saved = record {
  installation_id = "a";
  status = prepared;
  was_paused = false;
  files =
      (
        "agent.py",
        record { before = some "one"; after = some "two"; uid = 0; gid = 0; mode = 0o644 },
      )
      ∷ (
        "macqueue/store.py",
        record { before = some "one"; after = some "two"; uid = 0; gid = 0; mode = 0o644 },
      )
      ∷ (
        "macqueue/plans.py",
        record { before = none; after = some "two"; uid = 0; gid = 0; mode = 0o644 },
      )
      ∷ [];
  probe_report = none;
}

left_receipt : left.receipt ≡ some saved
unfolding apply check_stage check_files check_file prepare record_items record_item install
    install_file stop stop_linux start start_linux save replace target current put_file find_file
    for_each ◌>>=◌ ◌>>◌ return lift reads modify check check_machine
left_receipt = refl

left_changed : find_file "agent.py" left.targets ≡ some (plain 2)
unfolding apply check_stage check_files check_file prepare record_items record_item install
    install_file stop stop_linux start start_linux save replace target current put_file find_file
    for_each ◌>>=◌ ◌>>◌ return lift reads modify check check_machine
left_changed = refl

apply-restore_example : RestoresTo tools server mended saved left
apply-restore_example =
    apply-restore tools server full_disk stage no_run refl saved left_receipt mended (λ _. refl)

abbrev other_stage : Stage
other_stage = record stage { platform = "macos" }

other_receipt : (apply tools full_disk other_stage no_run server).1.receipt ≡ none
unfolding apply check_stage check_files check_file ◌>>=◌ ◌>>◌ return lift reads modify check
other_receipt = refl

apply-untouched_example :
    (apply tools full_disk other_stage no_run server).1.targets ≡ server.targets
apply-untouched_example =
    apply-untouched tools server full_disk other_stage no_run refl other_receipt
