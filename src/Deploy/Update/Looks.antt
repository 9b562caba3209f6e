-- ===== src/Deploy/Update/Looks.antt =====
-- What only looks at the files, and what the checks let pass.
use macqueue.Base.{
  ℕ, String, Bool, true, false, Option, none, some, List, [], ◌∷◌, ◌==◌, string_eq, ◌≡◌, refl, inl,
  inr, arith, Bool-cases, Result, not-true, &&-eq-true,
}
use macqueue.Base.Lists.{any}
use macqueue.Base.Files.{Files, find_file, put_file, find_file-put_file, IsNone}
use macqueue.Base.Actions.{
  check, return, modify, looks-Ends, lift, ◌>>◌, Ends, >>-Ends, check-Ends, >>=-unchanged,
  >>-unchanged, check-unchanged, lift-unchanged, return-unchanged, for_each-unchanged, reads-Ends,
  modify-Ends, return-Ends, skip-Ends, skip_then-Ends,
}
use macqueue.Deploy.Update.{
  File, Receipt, Machine, Outside, target, current, is_target, digest_of, NoLink, current_of,
  config_name,
}
use macqueue.Deploy.Update.Service.{
  stop, start, stop_mac, stop_linux, start_mac, start_linux, bootout, stop_on, start_on, resume,
  set_paused, set_running,
}
use macqueue.Deploy.Update.Apply.{
  Tools, Stage, Run, Hashes, check_stage, check_files, check_file, save, set_receipt, check_package,
  check_machine, check_login, login_policy, Probe, source_provision, rollout, mem, names_of,
  check_copied, probed,
}

put_file_free :
    (name : String) (bytes : List ℕ) (payloads : Files (List ℕ))
    → (name == config_name) ≡ false
    → IsNone (find_file config_name payloads)
    → IsNone (find_file config_name (put_file name bytes payloads))
put_file_free name bytes payloads apart h =
    rw (find_file-put_file config_name name bytes payloads, apart) h

module _ (tools : Tools) where
  -- The looks before the first write.
  pub target_unchanged : (name : String) (s : Machine) → (target name s).1 ≡ s
  unfolding target
  target_unchanged name s = check-unchanged s (is_target s.mac name) "invalid update target"

  current_of_unchanged :
      (found : Option File) (s : Machine) → (current_of tools.sha256 found s).1 ≡ s
  current_of_unchanged none s = return-unchanged s none
  current_of_unchanged (some f) s =
      >>-unchanged s _ _ (check-unchanged s _ _) (return-unchanged s (some (tools.sha256 f.bytes)))

  current_unchanged : (name : String) (s : Machine) → (current tools.sha256 name s).1 ≡ s
  unfolding current
  current_unchanged name s = current_of_unchanged (find_file name s.targets) s

  check_file_unchanged :
      (staged : Files (List ℕ)) (name : String) (hashes : Hashes) (s : Machine)
      → (check_file tools staged name hashes s).1 ≡ s
  unfolding check_file
  check_file_unchanged staged name hashes s = >>-unchanged s _ _ (target_unchanged name s) (
      >>=-unchanged s _ _ (current_unchanged name s) λ _.
        >>-unchanged s _ _ (check-unchanged s _ _) (
          >>-unchanged s _ _ (check-unchanged s _ _) (
            >>=-unchanged s _ _ (lift-unchanged s _)
              λ payload. >>-unchanged s _ _ (check-unchanged s _ _) (return-unchanged s payload))))

  check_files_unchanged :
      (staged : Files (List ℕ)) (files : Files Hashes) (payloads : Files (List ℕ)) (s : Machine)
      → (check_files tools staged files payloads s).1 ≡ s
  unfolding check_files
  check_files_unchanged staged [] payloads s = return-unchanged s payloads
  check_files_unchanged staged ((name, hashes) ∷ files) payloads s =
      >>=-unchanged s _ _ (check_file_unchanged staged name hashes s)
        λ payload. check_files_unchanged staged files (put_file name payload payloads) s

  check_login_unchanged : (a : String × String) (s : Machine) → (check_login tools a s).1 ≡ s
  check_login_unchanged (attribute, expected) s =
      >>=-unchanged s _ _ (lift-unchanged s _) λ shown. check-unchanged s _ _

  check_package_unchanged :
      (sent : Option (List ℕ)) (probe : Probe) (s : Machine)
      → (check_package tools sent probe s).1 ≡ s
  check_package_unchanged sent (source_provision sha _) s = check-unchanged s _ _
  check_package_unchanged sent (rollout _ _) s = return-unchanged s tt

  check_machine_unchanged :
      (mac : Bool) (stage : Stage) (s : Machine) → (check_machine tools mac stage s).1 ≡ s
  unfolding check_machine
  check_machine_unchanged false stage s = return-unchanged s tt
  check_machine_unchanged true stage s =
      >>-unchanged s _ _ (check_package_unchanged stage.source_probe stage.probe s)
        (for_each-unchanged s (check_login tools) login_policy (λ a. check_login_unchanged a s))

  check_copied_unchanged :
      (probe : Probe) (copied : Option (List ℕ)) (s : Machine)
      → (check_copied tools probe copied s).1 ≡ s
  check_copied_unchanged (source_provision sha _) copied s = check-unchanged s _ _
  check_copied_unchanged (rollout _ _) copied s = return-unchanged s tt

  pub probed_unchanged :
      (probe : Probe) (run : Run) (s : Machine) → (probed tools probe run s).1 ≡ s
  unfolding probed
  probed_unchanged probe run s = >>-unchanged s _ _ (check_copied_unchanged probe run.copied s) (
      >>-unchanged s _ _ (check-unchanged s _ _) (
        >>=-unchanged s _ _ (lift-unchanged s _) λ report.
          >>-unchanged s _ _ (check-unchanged s _ _)
            (>>-unchanged s _ _ (check-unchanged s _ _) (return-unchanged s report))))

  abbrev pub Seen : Option File → Option String → Type 0
  Seen found now = (now ≡ digest_of tools.sha256 found) × NoLink tools.sha256 found

  module _ (E : Machine → Type 0) where
    pub target-Ends :
        (name : String) (s : Machine)
        → E s
        → Ends E (λ _ t. (t ≡ s) × (is_target s.mac name ≡ true)) (target name s)
    unfolding target check
    target-Ends name s e = elim (Bool-cases (is_target s.mac name)) [
      | inl valid ↦ rw valid (refl, refl)
      | inr wrong ↦ rw wrong e
    ]

    current_of-Ends :
        (found : Option File) (s : Machine)
        → E s
        → Ends E (λ now t. (t ≡ s) × Seen found now) (current_of tools.sha256 found s)
    unfolding check return ◌>>◌
    current_of-Ends none s e = (refl, (refl, tt))
    current_of-Ends (some f) s e = elim (Bool-cases f.is_link) [
      | inl linked ↦ rw linked e
      | inr plain ↦ rw plain (refl, (refl, refl))
    ]

    pub current-Ends :
        (name : String) (s : Machine)
        → E s
        → Ends E
            (λ now t. (t ≡ s) × Seen (find_file name s.targets) now)
            (current tools.sha256 name s)
    unfolding current
    current-Ends name s e = current_of-Ends (find_file name s.targets) s e

    pub save-Ends :
        (out : Outside) (n : ℕ) (receipt : Receipt) (s : Machine)
        → E s
        → Ends E (λ _ t. t ≡ set_receipt receipt s) (save out n receipt s)
    unfolding save lift modify
    save-Ends out n receipt s e = elim (Bool-cases (out.saves n)) [
      | inl done ↦ rw done refl
      | inr failed ↦ rw failed e
    ]

    -- The configuration is not among the files.
    check_files-Ends :
        (staged : Files (List ℕ)) (files : Files Hashes) (payloads : Files (List ℕ)) (s : Machine)
        → E s
        → mem config_name (names_of files) ≡ false
        → IsNone (find_file config_name payloads)
        → Ends E
            (λ p t. (t ≡ s) × IsNone (find_file config_name p))
            (check_files tools staged files payloads s)
    unfolding check_files
    check_files-Ends staged [] payloads s e free none_yet = return-Ends E _ _ s (refl, none_yet)
    check_files-Ends staged ((name, hashes) ∷ files) payloads s e free none_yet =
        skip-Ends E _ _ _ s e (check_file_unchanged staged name hashes s) λ payload.
          check_files-Ends staged files (put_file name payload payloads) s e (ground arith)
            (put_file_free name payload payloads (ground arith) none_yet)

    pub check_stage-Ends :
        (stage : Stage) (s : Machine)
        → E s
        → Ends E (λ p t. (t ≡ s) × IsNone (find_file config_name p)) (check_stage tools stage s)
    unfolding check_stage find_file
    check_stage-Ends stage s e = reads-Ends E _ _ _ s (
        check-Ends E _ _ _ _ s e λ _. check-Ends E _ _ _ _ s e λ fit.
          looks-Ends E _ (λ p. IsNone (find_file config_name p)) _ _ s
            (check_files-Ends stage.staged stage.files [] s e
              (not-true _ (&&-eq-true (any (λ _. true) stage.files) _ fit).1) tt)
            λ payloads free.
              skip_then-Ends E _ _ _ s e (check_machine_unchanged s.mac stage s)
                (return-Ends E _ _ s (refl, free)))

-- Stopping and starting change only whether the service is paused and running.
module _ (I : Machine → Type 0) (out : Outside)
    (keeps_paused : (b : Bool) (s : Machine) → I s → I (set_paused b s))
    (keeps_running : (b : Bool) (s : Machine) → I s → I (set_running b s)) where
  abbrev Ended : Result (Unit {0}) × Machine → Type 0
  Ended = Ends I (λ _. I)

  exits-Ends : (done : Bool) (message : String) (s : Machine) → I s → Ended (check done message s)
  unfolding check
  exits-Ends true message s h = h
  exits-Ends false message s h = h

  modified : (g : Machine → Machine) (s : Machine) → I (g s) → Ended (modify g s)
  unfolding modify
  modified g s h = h

  bootout-Ends : (loaded : Bool) (s : Machine) → I s → Ended (bootout out loaded s)
  unfolding return
  bootout-Ends false s h = h
  bootout-Ends true s h =
      >>-Ends I (λ _. I) I _ _ s (exits-Ends out.stops _ s h)
        (λ t i. modified (set_running false) t (keeps_running false t i))

  stop_mac-Ends : (s : Machine) → I s → Ended (stop_mac out s)
  unfolding stop_mac
  stop_mac-Ends s h =
      modify-Ends I (λ _. I) _ _ s
        (check-Ends I (λ _. I) _ _ _ _ (keeps_paused true s h)
          λ _.
            reads-Ends I (λ _. I) _ _ _
              (>>-Ends I (λ _. I) I _ _ _ (bootout-Ends s.running _ (keeps_paused true s h))
                λ t i. check-Ends I (λ _. I) _ _ _ t i λ _. exits-Ends _ _ t i))

  stop_linux-Ends : (s : Machine) → I s → Ended (stop_linux out s)
  unfolding stop_linux
  stop_linux-Ends s h = bootout-Ends true s h

  stop_on-Ends : (mac : Bool) (s : Machine) → I s → Ended (stop_on out mac s)
  stop_on-Ends true s h = stop_mac-Ends s h
  stop_on-Ends false s h = stop_linux-Ends s h

  pub stop-Ends : (s : Machine) → I s → Ended (stop out s)
  unfolding stop
  stop-Ends s h = stop_on-Ends s.mac s h

  resume-Ends : (paused : Bool) (s : Machine) → I s → Ended (resume out paused s)
  unfolding return
  resume-Ends true s h = h
  resume-Ends false s h = modified (set_paused false) s (keeps_paused false s h)

  start_mac-Ends : (paused : Bool) (s : Machine) → I s → Ended (start_mac out paused s)
  unfolding start_mac
  start_mac-Ends paused s h =
      >>-Ends I (λ _. I) I _ _ s (exits-Ends out.starts _ s h)
        λ t i.
          modify-Ends I (λ _. I) _ _ t
            (check-Ends I (λ _. I) _ _ _ _ (keeps_running true t i)
              λ _.
                check-Ends I (λ _. I) _ _ _ _ (keeps_running true t i)
                  λ _. resume-Ends paused _ (keeps_running true t i))

  start_linux-Ends : (s : Machine) → I s → Ended (start_linux out s)
  unfolding start_linux
  start_linux-Ends s h =
      >>-Ends I (λ _. I) I _ _ s (exits-Ends out.starts _ s h)
        λ t i. modify-Ends I (λ _. I) _ _ t (exits-Ends out.is_active _ _ (keeps_running true t i))

  start_on-Ends : (mac paused : Bool) (s : Machine) → I s → Ended (start_on out mac paused s)
  start_on-Ends true paused s h = start_mac-Ends paused s h
  start_on-Ends false paused s h = start_linux-Ends s h

  pub start-Ends : (paused : Bool) (s : Machine) → I s → Ended (start out paused s)
  unfolding start
  start-Ends paused s h = start_on-Ends s.mac paused s h
