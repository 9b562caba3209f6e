-- ===== src/Deploy/Update/Rollback.antt =====
-- What `restore` makes of an installation that `apply` has left.
use macqueue.Base.{
  String, true, none, some, if◌then◌else◌, ok, is_some, ◌≡◌, refl, sym, subst, ◌∙◌, Option-cases,
  inl, inr, ◌⊎◌,
}
use macqueue.Base.Files.{Files, find_file}
use macqueue.Base.Actions.{Ends-either}
use macqueue.Deploy.Update.{File, Item, Receipt, Machine, Outside}
use macqueue.Deploy.Update.Backup.{set_targets, restore}
use macqueue.Deploy.Update.Restoring.{restore_lem}
use macqueue.Deploy.Update.Apply.{Tools, Stage, Run, apply}
use macqueue.Deploy.Update.Backing.{Undoable, Settled, untouched, undoable}
use macqueue.Deploy.Update.Undone.{apply-Settled}

-- `restore` returns, and under every name is the file of before, or none where none was.
abbrev pub RestoresTo : Tools → Machine → Outside → Receipt → Machine → Type 0
RestoresTo tools was out receipt m =
    (fs : Files File) × (restore tools.sha256 out receipt m ≡ (ok tt, set_targets fs m))
    × ((j : String) → find_file j fs ≡ find_file j was.targets)

module _ (tools : Tools) (was : Machine) where
  undo_lem :
      (out : Outside) (receipt : Receipt) (m : Machine)
      → ((n : String) → out.writable n ≡ true)
      → Undoable tools was receipt.files m
      → RestoresTo tools was out receipt m
  undo_lem out receipt m w u =
      let (fs, done, found) = restore_lem tools.sha256 was out receipt m w u.recorded u.current in
      (fs, done, λ j. found j ∙ either j (Option-cases (find_file j receipt.files)))
    where
      either :
          (j : String)
          → (find_file j receipt.files ≡ none)
            ⊎ ((item : Item) × (find_file j receipt.files ≡ some item))
          → (if is_some (find_file j receipt.files)
              then find_file j was.targets
              else find_file j m.targets)
            ≡ find_file j was.targets
      either j (inl missing) = rw missing (u.apart j (rw missing tt))
      either j (inr (item, there)) = rw there refl

  undo_from :
      (out : Outside) (receipt : Receipt) (m : Machine)
      → ((n : String) → out.writable n ≡ true)
      → Settled tools was m
      → m.receipt ≡ some receipt
      → RestoresTo tools was out receipt m
  undo_from out receipt m w (untouched none_yet same) e =
      let clash : none ≡ some receipt = sym none_yet ∙ e in cc
  undo_from out receipt m w (undoable r saved u) e =
      let there : some r ≡ some receipt = sym saved ∙ e in
      let same : r ≡ receipt = cc in
      undo_lem out receipt m w (subst (λ (x : Receipt). Undoable tools was x.files m) same u)

  same_targets_from :
      (m : Machine) → Settled tools was m → m.receipt ≡ none → m.targets ≡ was.targets
  same_targets_from m (untouched none_yet same) e = same
  same_targets_from m (undoable r saved u) e = let clash : none ≡ some r = sym e ∙ saved in cc

-- An update starts with a fresh backup directory. However `apply` ends, by returning or by an exception
-- at any of its looks, writes and calls, if it has saved a receipt, then `restore` with the receipt
-- that was saved last, given that its writes succeed, passes its preflight and returns, and afterwards
-- under every name there is the file of before the update, with its bytes, owner, group and mode, and
-- no file where there was none.
pub apply-restore :
    (tools : Tools) (was : Machine) (out : Outside) (stage : Stage) (run : Run)
    → was.receipt ≡ none
    → (receipt : Receipt) → (apply tools out stage run was).1.receipt ≡ some receipt
    → (again : Outside) → ((n : String) → again.writable n ≡ true)
    → RestoresTo tools was again receipt (apply tools out stage run was).1
apply-restore tools was out stage run fresh receipt saved again w =
    undo_from tools was again receipt (apply tools out stage run was).1 w
      (Ends-either (Settled tools was) _ (apply-Settled tools was out stage run fresh)) saved

-- Where no receipt was saved, `apply` has changed no file.
pub apply-untouched :
    (tools : Tools) (was : Machine) (out : Outside) (stage : Stage) (run : Run)
    → was.receipt ≡ none
    → (apply tools out stage run was).1.receipt ≡ none
    → (apply tools out stage run was).1.targets ≡ was.targets
apply-untouched tools was out stage run fresh unsaved =
    same_targets_from tools was (apply tools out stage run was).1
      (Ends-either (Settled tools was) _ (apply-Settled tools was out stage run fresh)) unsaved
