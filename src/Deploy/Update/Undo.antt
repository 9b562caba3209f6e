-- ===== src/Deploy/Update/Undo.antt =====
-- However `apply` ends, what its receipt says leads back to the files of before.
use macqueue.Deploy.Update.Writes.{written-Undoable, replace-Ends, has_written}
use macqueue.Base.{
  ℕ, String, true, false, Option, none, some, List, ◌==◌, string_eq, ok, ◌≡◌, refl, sym, subst, ap,
  ◌∙◌, inl, inr, eq_of_==, Bool-cases, ==_sym,
}
use macqueue.Base.Lists.{All, All-map}
use macqueue.Base.Files.{
  Files, find_file, put_file, find_file-put_file, Distinct-put_file, IsNone, All-put_file,
  All-find_file,
}
use macqueue.Base.Actions.{
  Ends, >>-Ends, check-Ends, lift-Ends, reads-Ends, return-Ends, looks_then-Ends, Ends-map,
  skip-Ends, skip_then-Ends, lift-unchanged,
}
use macqueue.Deploy.Update.{File, Item, Receipt, Machine, Outside, is_target, config_name}
use macqueue.Deploy.Update.Backup.{replace, after_of, or_missing}
use macqueue.Deploy.Update.Restoring.{Recorded, OldOrNew, IsKept}
use macqueue.Deploy.Update.Looks.{target-Ends, save-Ends, probed_unchanged, target_unchanged}
use macqueue.Deploy.Update.Apply.{
  Tools, Run, Probe, set_receipt, install_file, configure, Report, after_write, named, announce,
  new_config,
}
use macqueue.Deploy.Update.Backing.{
  Undoable, Undoable-eq, Settled, undoable, Ready, Planned, Ready-Settled,
}

module _ (tools : Tools) (was : Machine) where
  or_missing-ok :
      {A : Type 0} (name : String) (o : Option A) (a : A) → or_missing name o ≡ ok a → o ≡ some a
  or_missing-ok name none a h = cc
  or_missing-ok name (some b) a h = cc

  after_by_plan :
      (payloads : Files (List ℕ)) (name : String) (bytes : List ℕ) (e : String × Item)
      → find_file name payloads ≡ some bytes
      → Planned tools was payloads e
      → (name == e.0) ≡ true
      → e.1.after ≡ some (tools.sha256 bytes)
  after_by_plan payloads name bytes e there planned same =
      planned
      ∙ ap (after_of tools.sha256 e.1.before)
          (ap (λ n. find_file n payloads) (sym (eq_of_== name e.0 same)) ∙ there)

  written-Ready :
      (out : Outside) (payloads : Files (List ℕ)) (receipt : Receipt) (name : String) (item : Item)
      (bytes : List ℕ) (s : Machine)
      → Ready tools was payloads receipt s
      → find_file name receipt.files ≡ some item
      → find_file name payloads ≡ some bytes
      → Ends
          (Settled tools was)
          (λ _. Ready tools was payloads receipt)
          (replace out name bytes item s)
  written-Ready out payloads receipt name item bytes s r found there =
      Ends-map (Settled tools was) (Settled tools was)
        (λ _ t. t ≡ has_written tools was name bytes item s) _ _
        (replace-Ends tools was (Settled tools was) out name bytes item s
          (Ready-Settled tools was payloads receipt s r))
        (λ _ h. h)
        λ _ t same. subst (Ready tools was payloads receipt) (sym same) (record {
          saved = r.saved;
          undo =
              written-Undoable tools was name bytes item item receipt.files s found
                (All-map receipt.files (λ e p. after_by_plan payloads name bytes e there p)
                  r.planned)
                r.undo;
          planned = r.planned;
        })

  -- One turn of the loop over the payloads.
  pub install_file-Ends :
      (out : Outside) (payloads : Files (List ℕ)) (receipt : Receipt) (name : String) (s : Machine)
      → Ready tools was payloads receipt s
      → Ends
          (Settled tools was)
          (λ _. Ready tools was payloads receipt)
          (install_file tools out payloads receipt name s)
  unfolding install_file
  install_file-Ends out payloads receipt name s r =
      let e = Ready-Settled tools was payloads receipt s r in
      lift-Ends (Settled tools was) _ _ _ s e λ item found.
        lift-Ends (Settled tools was) _ _ _ s e λ bytes there.
          looks_then-Ends (Settled tools was) _ (is_target s.mac name ≡ true) _ _ s
            (target-Ends tools (Settled tools was) name s e)
            λ _.
              written-Ready out payloads receipt name item bytes s r
                (or_missing-ok name _ item found) (or_missing-ok name _ bytes there)

  IsKept-after :
      (found : Option File) (item : Item) (bytes : List ℕ) (kept : Option (List ℕ))
      → IsKept tools.sha256 was found item kept
      → IsKept tools.sha256 was found (after_write tools item bytes) kept
  IsKept-after none item bytes kept h = tt
  IsKept-after (some f) item bytes kept h = h

  -- While the configuration is the old one, a new digest may be announced for it.
  OldOrNew-after :
      (item : Item) (bytes : List ℕ) (targets : Files File)
      → item.after ≡ item.before
      → OldOrNew tools.sha256 was targets (config_name, item)
      → OldOrNew tools.sha256 was targets (config_name, after_write tools item bytes)
  OldOrNew-after item bytes targets same (inl old) = inl old
  OldOrNew-after item bytes targets same (inr (f, there, plain, inl new)) =
      inr (f, there, plain, inr (sym same ∙ new))
  OldOrNew-after item bytes targets same (inr (f, there, plain, inr old)) =
      inr (f, there, plain, inr old)

  after_unplanned :
      (before : Option String) (o : Option (List ℕ))
      → IsNone o
      → after_of tools.sha256 before o ≡ before
  after_unplanned before none h = refl
  after_unplanned before (some bytes) h = absurd {0} h

  missing_before :
      (name j : String) (item : Item) (files : Files Item)
      → IsNone (find_file j (put_file name item files))
      → IsNone (find_file j files)
  missing_before name j item files h = elim (Bool-cases (name == j)) [
    | inl same ↦
        let gone : IsNone (find_file j (put_file name item files)) = h in
        absurd {0} (rw (find_file-put_file j name item files, same) at gone)
    | inr apart ↦ rw (find_file-put_file j name item files, apart) at h
  ]

  announced-Undoable :
      (payloads : Files (List ℕ)) (receipt : Receipt) (report : Report) (item : Item)
      (bytes : List ℕ) (s : Machine)
      → IsNone (find_file config_name payloads)
      → find_file config_name receipt.files ≡ some item
      → Ready tools was payloads receipt s
      → Undoable tools was (named tools receipt report item bytes).files s
  announced-Undoable payloads receipt report item bytes s free there r =
      let files = receipt.files in
      let u = r.undo in
      let old =
        All-find_file (Recorded tools.sha256 was s.mac s.before) config_name item files u.recorded
          there in
      let plan : Planned tools was payloads (config_name, item) =
        All-find_file (Planned tools was payloads) config_name item files r.planned there in
      record {
        same_mac = u.same_mac;
        names = Distinct-put_file config_name (after_write tools item bytes) files u.names;
        recorded =
            All-put_file (Recorded tools.sha256 was s.mac s.before) _ config_name
              (after_write tools item bytes) files u.names u.recorded
              (old.0, old.1, IsKept-after _ item bytes _ old.2) (λ _ k _. k);
        current =
            All-put_file (OldOrNew tools.sha256 was s.targets) _ config_name
              (after_write tools item bytes) files u.names u.current
              (OldOrNew-after item bytes s.targets (plan ∙ after_unplanned item.before _ free) (
                All-find_file (OldOrNew tools.sha256 was s.targets) config_name item files u.current
                  there))
              (λ _ k _. k);
        apart = λ j missing. u.apart j (missing_before config_name j _ files missing);
      }

  abbrev pub Final : Receipt → Machine → Type 0
  Final receipt s = (s.receipt ≡ some receipt) × Undoable tools was receipt.files s

  named_after :
      (receipt : Receipt) (report : Report) (item : Item) (bytes : List ℕ) (s : Machine)
      → Undoable tools was receipt.files s
      → All
          (λ e. (config_name == e.0) ≡ true → e.1.after ≡ some (tools.sha256 bytes))
          (named tools receipt report item bytes).files
  named_after receipt report item bytes s u =
      All-put_file (Recorded tools.sha256 was s.mac s.before) _ config_name
        (after_write tools item bytes) receipt.files u.names u.recorded (λ _. refl)
        (λ e _ apart same.
          let clash : false ≡ true = sym apart ∙ ==_sym e.0 config_name ∙ same in cc)

  -- The configuration, when its digest is in the receipt.
  config_written :
      (out : Outside) (receipt : Receipt) (report : Report) (item : Item) (bytes : List ℕ)
      (s : Machine)
      → Undoable tools was receipt.files s
      → Undoable tools was (named tools receipt report item bytes).files s
      → Undoable tools was
          (named tools receipt report item bytes).files
          (has_written tools was config_name bytes (after_write tools item bytes) s)
  config_written out receipt report item bytes s u v =
      written-Undoable tools was config_name bytes (after_write tools item bytes)
        (after_write tools item bytes) (named tools receipt report item bytes).files s
        (find_file-put_file config_name config_name (after_write tools item bytes) receipt.files)
        (named_after receipt report item bytes s u) v

  -- From the announcement of the new configuration on.
  announce-Ends :
      (out : Outside) (run : Run) (payloads : Files (List ℕ)) (receipt : Receipt) (report : Report)
      (item : Item) (bytes : List ℕ) (s : Machine)
      → IsNone (find_file config_name payloads)
      → Ready tools was payloads receipt s
      → find_file config_name receipt.files ≡ some item
      → Ends (Settled tools was) Final (announce tools out run receipt report item bytes s)
  unfolding announce
  announce-Ends out run payloads receipt report item bytes s free r found =
      let E = Settled tools was in
      let receipt' = named tools receipt report item bytes in
      let v = announced-Undoable payloads receipt report item bytes s free found r in
      >>-Ends E Final (λ t. t ≡ set_receipt receipt' s) _ _ s
        (save-Ends tools E out 1 receipt' s (Ready-Settled tools was payloads receipt s r))
        λ t said.
          let u =
            subst (λ m. Undoable tools was receipt'.files m) (sym said)
              (Undoable-eq tools was receipt'.files s (set_receipt receipt' s) refl refl refl v) in
          let u₀ =
            subst (λ m. Undoable tools was receipt.files m) (sym said)
              (Undoable-eq tools was receipt.files s (set_receipt receipt' s) refl refl refl
                r.undo) in
          let kept : t.receipt ≡ some receipt' = ap (λ m. m.receipt) said in
          let e = undoable receipt' kept u in
          >>-Ends E Final
            (λ t'. t' ≡ has_written tools was config_name bytes (after_write tools item bytes) t) _
            _ t (replace-Ends tools was E out config_name bytes (after_write tools item bytes) t e)
            λ t' done.
              let final : Final receipt' t' =
                subst (Final receipt') (sym done)
                  (kept, config_written out receipt report item bytes t u₀ u) in
              let e' = undoable receipt' final.0 final.1 in
              skip_then-Ends E Final _ _ t' e' (lift-unchanged t' _)
                (check-Ends E Final _ _ _ t' e' λ _. return-Ends E Final receipt' t' final)

  pub configure-Ends :
      (out : Outside) (probe : Probe) (run : Run) (payloads : Files (List ℕ)) (receipt : Receipt)
      (s : Machine)
      → IsNone (find_file config_name payloads)
      → Ready tools was payloads receipt s
      → Ends (Settled tools was) Final (configure tools out probe run receipt s)
  unfolding configure
  configure-Ends out probe run payloads receipt s free r =
      let E = Settled tools was in
      let e = Ready-Settled tools was payloads receipt s r in
      skip-Ends E Final _ _ s e (probed_unchanged tools probe run s) λ report.
        skip_then-Ends E Final _ _ s e (target_unchanged tools config_name s) (
          reads-Ends E Final _ _ s (
            lift-Ends E Final _ _ s e λ old _. lift-Ends E Final _ _ s e λ config _.
              check-Ends E Final _ _ _ s e λ _. lift-Ends E Final _ _ s e λ capabilities _.
                lift-Ends E Final _ _ s e λ item found.
                  let bytes = new_config tools config capabilities report.enable in
                  announce-Ends out run payloads receipt report item bytes s free r
                    (or_missing-ok config_name _ item found)))
