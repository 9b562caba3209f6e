-- ===== src/Deploy/Update/Undone.antt =====
-- `apply` and `rollback` together: the files of before come back.
use macqueue.Base.{ℕ, Bool, true, false, none, List, ◌≡◌, refl, sym, subst, ◌∙◌}
use macqueue.Base.Files.{Files, find_file, IsNone}
use macqueue.Base.Actions.{
  Ends, >>=-Ends, >>-Ends, for_each-Ends, reads-Ends, return-Ends, looks-Ends, Ends-map,
}
use macqueue.Deploy.Update.{Receipt, Machine, Outside, config_name, installed}
use macqueue.Deploy.Update.Service.{stop, start, set_paused, set_running}
use macqueue.Deploy.Update.Looks.{save-Ends, stop-Ends, start-Ends, check_stage-Ends}
use macqueue.Deploy.Update.Apply.{
  Tools, Stage, Run, Probe, set_receipt, install, configure_on, apply,
}
use macqueue.Deploy.Update.Backing.{
  Undoable-eq, Settled, untouched, undoable, Early, Ready, prepare-Ends, Ready-Settled,
  Early-Settled,
}
use macqueue.Deploy.Update.Undo.{install_file-Ends, configure-Ends, Final}

module _ (tools : Tools) (was : Machine) where
  -- Pausing, stopping and starting do not touch the files or the receipt.
  Settled-eq :
      (s t : Machine)
      → t.mac ≡ s.mac
      → t.targets ≡ s.targets
      → t.before ≡ s.before
      → t.receipt ≡ s.receipt
      → Settled tools was s
      → Settled tools was t
  Settled-eq s t mac targets before receipt (untouched none_yet same) =
      untouched (receipt ∙ none_yet) (targets ∙ same)
  Settled-eq s t mac targets before receipt (undoable r saved u) =
      undoable r (receipt ∙ saved) (Undoable-eq tools was r.files s t mac targets before u)

  Ready-eq :
      (payloads : Files (List ℕ)) (receipt : Receipt) (s t : Machine)
      → t.mac ≡ s.mac
      → t.targets ≡ s.targets
      → t.before ≡ s.before
      → t.receipt ≡ s.receipt
      → Ready tools was payloads receipt s
      → Ready tools was payloads receipt t
  Ready-eq payloads receipt s t mac targets before same r = record {
    saved = same ∙ r.saved;
    undo = Undoable-eq tools was receipt.files s t mac targets before r.undo;
    planned = r.planned;
  }

  start-Settled :
      (out : Outside) (paused : Bool) (s : Machine)
      → Settled tools was s
      → Ends (Settled tools was) (λ _. Settled tools was) (start out paused s)
  start-Settled out paused s h =
      start-Ends (Settled tools was) out (λ b t. Settled-eq t (set_paused b t) refl refl refl refl)
        (λ b t. Settled-eq t (set_running b t) refl refl refl refl) paused s h

  stop-Ready :
      (out : Outside) (payloads : Files (List ℕ)) (receipt : Receipt) (s : Machine)
      → Ready tools was payloads receipt s
      → Ends (Settled tools was) (λ _. Ready tools was payloads receipt) (stop out s)
  stop-Ready out payloads receipt s r =
      Ends-map (Ready tools was payloads receipt) _ (λ _. Ready tools was payloads receipt) _ _
        (stop-Ends (Ready tools was payloads receipt) out
          (λ b t. Ready-eq payloads receipt t (set_paused b t) refl refl refl refl)
          (λ b t. Ready-eq payloads receipt t (set_running b t) refl refl refl refl) s r)
        (Ready-Settled tools was payloads receipt) (λ _ _ q. q)

  configure_on-Ends :
      (out : Outside) (probe : Probe) (run : Run) (payloads : Files (List ℕ)) (receipt : Receipt)
      (mac : Bool) (s : Machine)
      → IsNone (find_file config_name payloads)
      → Ready tools was payloads receipt s
      → Ends (Settled tools was) (Final tools was) (configure_on tools out probe run mac receipt s)
  configure_on-Ends out probe run payloads receipt true s free r =
      configure-Ends tools was out probe run payloads receipt s free r
  configure_on-Ends out probe run payloads receipt false s free r =
      return-Ends (Settled tools was) (Final tools was) receipt s (r.saved, r.undo)

  install-Settled :
      (out : Outside) (stage : Stage) (run : Run) (payloads : Files (List ℕ)) (receipt : Receipt)
      (s : Machine)
      → IsNone (find_file config_name payloads)
      → Ready tools was payloads receipt s
      → Ends
          (Settled tools was)
          (λ _. Settled tools was)
          (install tools out stage run payloads receipt s)
  unfolding install
  install-Settled out stage run payloads receipt s free r =
      let E = Settled tools was in
      >>-Ends E (λ _. E) (Ready tools was payloads receipt) _ _ s
        (for_each-Ends E (Ready tools was payloads receipt) _ _ s r
          λ name t q. install_file-Ends tools was out payloads receipt name t q)
        λ t q.
          reads-Ends E (λ _. E) _ _ t
            (>>=-Ends E (λ _. E) (Final tools was) _ _ t
              (configure_on-Ends out stage.probe run payloads receipt t.mac t free q)
              λ receipt' u f.
                let done = record receipt' { status = installed } in
                >>-Ends E (λ _. E) (λ v. v ≡ set_receipt done u) _ _ u
                  (save-Ends tools E out 2 done u (undoable receipt' f.0 f.1))
                  λ v saved. start-Settled out receipt'.was_paused v (
                    subst E (sym saved) (
                      undoable done refl (
                        Undoable-eq tools was receipt'.files u (set_receipt done u) refl refl refl
                          f.1))))

  pub apply-Settled :
      (out : Outside) (stage : Stage) (run : Run)
      → was.receipt ≡ none
      → Ends (Settled tools was) (λ _. Settled tools was) (apply tools out stage run was)
  unfolding apply
  apply-Settled out stage run fresh =
      let E = Settled tools was in
      looks-Ends E (λ _. E) (λ p. IsNone (find_file config_name p)) _ _ was
        (check_stage-Ends tools E stage was (untouched fresh refl))
        λ payloads free.
          >>=-Ends E (λ _. E) (Ready tools was payloads) _ _ was
            (Ends-map (Early tools was) E (Ready tools was payloads) _ _
              (prepare-Ends tools was out payloads was refl) (Early-Settled tools was) (λ _ _ q. q))
            λ receipt t r.
              >>-Ends E (λ _. E) (Ready tools was payloads receipt) _ _ t
                (stop-Ready out payloads receipt t r)
                λ u q. install-Settled out stage run payloads receipt u free q
