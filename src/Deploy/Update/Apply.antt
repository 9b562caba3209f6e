-- ===== src/Deploy/Update/Apply.antt =====
-- `Update.apply` and `Update.rollback`.
use macqueue.Base.{
  ℕ, ◌*◌, ◌^◌, String, Bool, true, false, not, ◌&&◌, ◌||◌, Option, none, some, List, [], ◌∷◌, ◌++◌,
  map, ◌==◌, nat_eq, string_eq, if◌then◌else◌, err, ok, os_error, Result, is_some,
}
use macqueue.Base.Lists.{any, all, filter}
use macqueue.Base.Text.{contains_text}
use macqueue.Base.Files.{Files, find_file, put_file}
use macqueue.Base.Actions.{Action, ◌>>=◌, ◌>>◌, return, lift, modify, check, reads, for_each}
use macqueue.Json.{Json}
use macqueue.Deploy.Update.{
  Item, Status, installed, prepared, rolled_back, Receipt, Machine, Outside, target, current,
  digest_eq, config_name,
}
use macqueue.Deploy.Update.Backup.{
  or_os_error, or_missing, replace, check_restore, restore, record_items,
}
use macqueue.Deploy.Update.Service.{stop, start}

pub record Hashes : Type 0 where
  pub before : Option String
  pub after : Option String

pub data Probe : Type 0 where
  source_provision rollout : String → String → Probe

-- The decoded plan.json, and the files that lie beside it: those under files/ by their names, and
-- source-probe.tar.gz.
pub record Stage : Type 0 where
  pub platform : String
  pub files : Files Hashes
  pub probe : Probe
  pub staged : Files (List ℕ)
  pub source_probe : Option (List ℕ)

-- The worker's configuration: what the update reads and writes, and all its other keys.
pub record Config : Type 0 where
  pub capabilities : Option (List String)
  pub max_output_bytes : Option ℕ
  pub others : Json

-- `in_state` says whether the report's path leads below the state directory.
pub record Report : Type 0 where
  pub path : String
  pub in_state : Bool
  pub sandbox : Bool
  pub enable : List String

-- The run of the probes: the copy of the source package, the exit code, the report that the last
-- ROLLOUT_REPORT line names, whether each artifact is a regular file, and whether the copies for
-- diagnostics are written.
pub record Run : Type 0 where
  pub copied : Option (List ℕ)
  pub code : ℕ
  pub report : Option Report
  pub artifacts : List Bool
  pub diagnostics : Bool

-- The libraries and tools: SHA-256, Python's compiler, `json` on the configuration, and dscl.
pub record Tools : Type 0 where
  pub sha256 : List ℕ → String
  pub compiles : String → List ℕ → Bool
  pub load_config : List ℕ → Result Config
  pub dump_config : Config → List ℕ
  pub dscl : String → Result String

abbrev pub mem : String → List String → Bool
mem a = any (λ b. b == a)

-- `set(xs) <= set(ys)`
abbrev pub within : List String → List String → Bool
within xs ys = all (λ x. mem x ys) xs

-- `list(dict.fromkeys(xs))`
abbrev pub distinct : List String → List String
distinct [] = []
distinct (x ∷ xs) = x ∷ filter (λ y. not (y == x)) (distinct xs)

abbrev platform_of : Bool → String
platform_of mac = if mac then "macos" else "debian"

abbrev pub names_of {ℓ} : {A : Type ℓ} → Files A → List String
names_of = map (λ f. f.0)

abbrev pub is_source_probe : Probe → Bool
is_source_probe (source_provision _ _) = true
is_source_probe (rollout _ _) = false

abbrev pub set_receipt : Receipt → Machine → Machine
set_receipt receipt s = record s { receipt = some receipt }

abbrev saved : Bool → Receipt → Action Machine (Unit {0})
saved false receipt = lift (err os_error)
saved true receipt = modify (set_receipt receipt)

-- The n-th save of a call.
unfoldable pub save : Outside → ℕ → Receipt → Action Machine (Unit {0})
save out n = saved (out.saves n)

abbrev pub start_backup : Machine → Machine
start_backup s = record s { before = []; receipt = none }

abbrev pub login_policy : List (String × String)
login_policy =
    ("IsHidden", "IsHidden: 1")
    ∷ ("UserShell", "UserShell: /usr/bin/false")
    ∷ ("AuthenticationAuthority", "DisabledUser")
    ∷ ("dsAttrTypeNative:accountPolicyData", "FALSEPREDICATE")
    ∷ []

abbrev usual_capabilities : List String
usual_capabilities = "cargo" ∷ "benchmark" ∷ "inspect" ∷ []

abbrev enabled_by : Probe → List String
enabled_by (source_provision _ _) = "source-provision" ∷ []
enabled_by (rollout _ _) = "pgo" ∷ "profiling-build" ∷ "sample" ∷ "xctrace" ∷ []

-- config.get('capabilities', [])
abbrev pub or_empty : Option (List String) → List String
or_empty none = []
or_empty (some xs) = xs

module _ (tools : Tools) where
  abbrev digest : Option (List ℕ) → Option String
  digest none = none
  digest (some bytes) = some (tools.sha256 bytes)

  unfoldable pub check_file : Files (List ℕ) → String → Hashes → Action Machine (List ℕ)
  check_file staged name hashes = do
    target name
    now ← current tools.sha256 name
    check (now == hashes.before) "installed file differs from reviewed version"
    check (digest (find_file name staged) == hashes.after) "staged file hash changed"
    payload ← lift (or_os_error (find_file name staged))
    check (tools.compiles name payload) "SyntaxError"
    return payload

  unfoldable pub check_files :
      Files (List ℕ) → Files Hashes → Files (List ℕ) → Action Machine (Files (List ℕ))
  check_files staged [] payloads = return payloads
  check_files staged ((name, hashes) ∷ files) payloads = do
    payload ← check_file staged name hashes
    check_files staged files (put_file name payload payloads)

  abbrev pub check_login : String × String → Action Machine (Unit {0})
  check_login (attribute, expected) = do
    shown ← lift (tools.dscl attribute)
    check (contains_text shown expected) "service login policy differs"

  abbrev pub check_package : Option (List ℕ) → Probe → Action Machine (Unit {0})
  check_package sent (source_provision sha _) =
      check (digest sent == some sha) "source probe package changed"
  check_package sent (rollout _ _) = return tt

  unfoldable pub check_machine : Bool → Stage → Action Machine (Unit {0})
  check_machine false stage = return tt
  check_machine true stage = do
    check_package stage.source_probe stage.probe
    for_each check_login login_policy

  -- All that is looked at before anything is written.
  unfoldable pub check_stage : Stage → Action Machine (Files (List ℕ))
  check_stage stage = do
    mac ← reads (λ s. s.mac)
    check (stage.platform == platform_of mac) "wrong deployment platform"
    check (any (λ _. true) stage.files && not (mem config_name (names_of stage.files)))
        "config is changed only by successful local probes"
    payloads ← check_files stage.staged stage.files []
    check_machine mac stage
    return payloads

  abbrev pub receipt_of : Machine → Files Item → Receipt
  receipt_of s files = record {
    installation_id = s.installation_id;
    status = prepared;
    was_paused = if s.mac then s.paused else false;
    files = files;
    probe_report = none;
  }

  unfoldable pub prepare : Outside → Files (List ℕ) → Action Machine Receipt
  prepare out payloads = do
    modify start_backup
    mac ← reads (λ s. s.mac)
    files ←
        record_items tools.sha256 payloads
          (names_of payloads ++ (if mac then config_name ∷ [] else [])) []
    receipt ← reads (λ s. receipt_of s files)
    save out 0 receipt
    return receipt

  unfoldable pub install_file :
      Outside → Files (List ℕ) → Receipt → String → Action Machine (Unit {0})
  install_file out payloads receipt name = do
    item ← lift (or_missing name (find_file name receipt.files))
    bytes ← lift (or_missing name (find_file name payloads))
    target name
    replace out name bytes item

  abbrev pub check_copied : Probe → Option (List ℕ) → Action Machine (Unit {0})
  check_copied (source_provision sha _) copied =
      check (digest copied == some sha) "copied source package changed"
  check_copied (rollout _ _) copied = return tt

  unfoldable pub probed : Probe → Run → Action Machine Report
  probed probe run = do
    check_copied probe run.copied
    check (run.code == 0 && is_some run.report)
        "local probes did not complete; use rollback receipt"
    report ← lift (or_os_error run.report)
    check report.in_state "unexpected probe report path"
    check (report.sandbox && within report.enable (enabled_by probe)) "invalid probe report"
    return report

  abbrev pub new_config : Config → List String → List String → List ℕ
  new_config config capabilities enable = tools.dump_config (record config {
    capabilities = some (distinct (capabilities ++ enable));
    max_output_bytes = some (256 * 1024 ^ 2);
  })

  abbrev pub after_write : Item → List ℕ → Item
  after_write item bytes = record item { after = some (tools.sha256 bytes) }

  abbrev pub named : Receipt → Report → Item → List ℕ → Receipt
  named receipt report item bytes = record receipt {
    files = put_file config_name (after_write item bytes) receipt.files;
    probe_report = some report.path;
  }

  -- The receipt names the new configuration before it is written.
  unfoldable pub announce :
      Outside → Run → Receipt → Report → Item → List ℕ → Action Machine Receipt
  announce out run receipt report item bytes = do
    save out 1 (named receipt report item bytes)
    replace out config_name bytes (after_write item bytes)
    lift (if run.diagnostics then ok tt else err os_error)
    check (all (λ regular. regular) run.artifacts) "invalid diagnostic artifact"
    return (named receipt report item bytes)

  unfoldable pub configure : Outside → Probe → Run → Receipt → Action Machine Receipt
  configure out probe run receipt = do
    report ← probed probe run
    target config_name
    file ← reads (λ s. find_file config_name s.targets)
    old ← lift (or_os_error file)
    config ← lift (tools.load_config old.bytes)
    check (is_source_probe probe || within (or_empty config.capabilities) usual_capabilities)
        "optional capabilities were already configured; review this rollout"
    capabilities ← lift (or_missing "capabilities" config.capabilities)
    item ← lift (or_missing config_name (find_file config_name receipt.files))
    announce out run receipt report item (new_config config capabilities report.enable)

  abbrev pub configure_on : Outside → Probe → Run → Bool → Receipt → Action Machine Receipt
  configure_on out probe run true receipt = configure out probe run receipt
  configure_on out probe run false receipt = return receipt

  -- The body of the try statement, whose handler only prints and raises again.
  unfoldable pub install :
      Outside → Stage → Run → Files (List ℕ) → Receipt → Action Machine (Unit {0})
  install out stage run payloads receipt = do
    for_each (install_file out payloads receipt) (names_of payloads)
    mac ← reads (λ s. s.mac)
    receipt' ← configure_on out stage.probe run mac receipt
    save out 2 (record receipt' { status = installed })
    start out receipt'.was_paused

  unfoldable pub apply : Outside → Stage → Run → Action Machine (Unit {0})
  apply out stage run = do
    payloads ← check_stage stage
    receipt ← prepare out payloads
    stop out
    install out stage run payloads receipt

  abbrev is_rolled_back : Status → Bool
  is_rolled_back rolled_back = true
  is_rolled_back _ = false

  unfoldable pub rollback : Outside → Action Machine (Unit {0})
  rollback out = do
    found ← reads (λ s. s.receipt)
    receipt ← lift (or_os_error found)
    here ← reads (λ s. s.installation_id)
    check (receipt.installation_id == here) "installation changed"
    check (not (is_rolled_back receipt.status)) "already rolled back"
    check_restore tools.sha256 receipt
    stop out
    restore tools.sha256 out receipt
    start out receipt.was_paused
    save out 0 (record receipt { status = rolled_back })
