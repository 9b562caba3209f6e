-- ===== src/Deploy/Update/Writes.antt =====
-- A file of the receipt that is written leaves the update one that can be undone.
use macqueue.Base.{
  ℕ, String, true, false, some, List, ◌==◌, string_eq, ◌≡◌, refl, sym, subst, ap, ◌∙◌, inl, inr,
  eq_of_==, Bool-cases,
}
use macqueue.Base.Lists.{All, All-map, All-both}
use macqueue.Base.Files.{Files, find_file, put_file, find_file-put_file, IsNone}
use macqueue.Base.Actions.{Ends}
use macqueue.Deploy.Update.{File, Item, Machine, Outside}
use macqueue.Deploy.Update.Backup.{set_targets, replace}
use macqueue.Deploy.Update.Restoring.{OldOrNew}
use macqueue.Deploy.Update.Apply.{Tools}
use macqueue.Deploy.Update.Backing.{Undoable}

module _ (tools : Tools) (was : Machine) where
  abbrev pub new_file : List ℕ → Item → File
  new_file bytes item = record {
    bytes = bytes;
    uid = item.uid;
    gid = item.gid;
    mode = item.mode;
    is_link = false;
  }

  abbrev pub has_written : String → List ℕ → Item → Machine → Machine
  has_written name bytes item s = set_targets (put_file name (new_file bytes item) s.targets) s

  -- `replace` leaves the old file where it fails.
  pub replace-Ends :
      (E : Machine → Type 0) (out : Outside) (name : String) (bytes : List ℕ) (item : Item)
      (s : Machine)
      → E s
      → Ends E (λ _ t. t ≡ has_written name bytes item s) (replace out name bytes item s)
  unfolding replace
  replace-Ends E out name bytes item s e = elim (Bool-cases (out.writable name)) [
    | inl done ↦ rw done refl
    | inr failed ↦ rw failed e
  ]

  -- An entry that says which bytes come, when they have come under its name.
  OldOrNew-put_file :
      (name : String) (bytes : List ℕ) (item : Item) (targets : Files File) (e : String × Item)
      → OldOrNew tools.sha256 was targets e
      → ((name == e.0) ≡ true → e.1.after ≡ some (tools.sha256 bytes))
      → OldOrNew tools.sha256 was (put_file name (new_file bytes item) targets) e
  OldOrNew-put_file name bytes item targets e h after = elim (Bool-cases (name == e.0)) [
    | inl same ↦ inr (
      new_file bytes item,
      find_file-put_file e.0 name _ targets ∙ (rw same refl),
      refl,
      inl (after same),
    )
    | inr apart ↦ rw (find_file-put_file e.0 name (new_file bytes item) targets, apart) h
  ]

  All-OldOrNew :
      (name : String) (bytes : List ℕ) (item : Item) (targets : Files File) (files : Files Item)
      → All (OldOrNew tools.sha256 was targets) files
      → All (λ e. (name == e.0) ≡ true → e.1.after ≡ some (tools.sha256 bytes)) files
      → All (OldOrNew tools.sha256 was (put_file name (new_file bytes item) targets)) files
  All-OldOrNew name bytes item targets files h after =
      All-map files (λ e p. OldOrNew-put_file name bytes item targets e p.0 p.1)
        (All-both _ _ files h after)

  -- A write to a name of the receipt leaves all other names alone.
  find_file_apart :
      (name j : String) (f : File) (item : Item) (targets : Files File) (files : Files Item)
      → find_file name files ≡ some item
      → IsNone (find_file j files)
      → find_file j (put_file name f targets) ≡ find_file j targets
  find_file_apart name j f item targets files found missing = elim (Bool-cases (name == j)) [
    | inl same ↦
        let there = ap (λ n. find_file n files) (sym (eq_of_== name j same)) ∙ found in
        absurd {0} (subst IsNone there missing)
    | inr apart ↦ rw (find_file-put_file j name f targets, apart) refl
  ]

  pub written-Undoable :
      (name : String) (bytes : List ℕ) (item found : Item) (files : Files Item) (s : Machine)
      → find_file name files ≡ some found
      → All (λ e. (name == e.0) ≡ true → e.1.after ≡ some (tools.sha256 bytes)) files
      → Undoable tools was files s
      → Undoable tools was files (has_written name bytes item s)
  written-Undoable name bytes item found files s there after u = record {
    same_mac = u.same_mac;
    names = u.names;
    recorded = u.recorded;
    current = All-OldOrNew name bytes item s.targets files u.current after;
    apart = λ j missing.
        find_file_apart name j _ found s.targets files there missing ∙ u.apart j missing;
  }
