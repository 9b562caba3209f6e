-- ===== src/Deploy/Update/Backup.antt =====
-- What `Update.apply` records before it changes a file, and `Update.restore` with its preflight.
use macqueue.Base.{
  ℕ, String, Bool, true, false, ◌||◌, Option, none, some, List, [], ◌∷◌, ◌==◌, string_eq,
  if◌then◌else◌, err, ok, os_error, Result, key_error,
}
use macqueue.Base.Files.{Files, find_file, put_file, remove_file}
use macqueue.Base.Actions.{Action, ◌>>=◌, ◌>>◌, return, lift, modify, check, reads, for_each}
use macqueue.Deploy.Update.{File, Item, Receipt, Machine, Outside, target, current, digest_eq}

abbrev pub set_targets : Files File → Machine → Machine
set_targets fs s = record s { targets = fs }

abbrev pub or_os_error {ℓ} : {A : Type ℓ} → Option A → Result A
or_os_error none = err os_error
or_os_error (some a) = ok a

-- `d[name]`
abbrev pub or_missing {ℓ} : {A : Type ℓ} → String → Option A → Result A
or_missing name none = err (key_error name)
or_missing name (some a) = ok a

module _ (out : Outside) where
  abbrev pub write : Bool → String → List ℕ → Item → Action Machine (Unit {0})
  write false name bytes item s = (err os_error, s)
  write true name bytes item s = (
    ok tt,
    set_targets
        (put_file name
          (record {
            bytes = bytes;
            uid = item.uid;
            gid = item.gid;
            mode = item.mode;
            is_link = false;
          })
          s.targets)
        s,
  )

  -- The file takes its name when it is complete, so that a failure leaves the old one.
  unfoldable pub replace : String → List ℕ → Item → Action Machine (Unit {0})
  replace name = write (out.writable name) name

  abbrev pub unlink : String → Action Machine (Unit {0})
  unlink name s = (ok tt, set_targets (remove_file name s.targets) s)

  abbrev pub restore_as : Option String → String → Item → Action Machine (Unit {0})
  restore_as none name item = do target name; unlink name
  restore_as (some _) name item = do
    target name
    kept ← reads (λ s. find_file name s.before)
    bytes ← lift (or_os_error kept)
    replace name bytes item

  unfoldable pub restore_item : String × Item → Action Machine (Unit {0})
  restore_item (name, item) = restore_as item.before name item

module _ (sha256 : List ℕ → String) where
  abbrev kept_digest : Option (List ℕ) → Option String
  kept_digest none = none
  kept_digest (some bytes) = some (sha256 bytes)

  abbrev pub check_kept : Option String → String → Action Machine (Unit {0})
  check_kept none name = return tt
  check_kept (some before) name = do
    kept ← reads (λ s. find_file name s.before)
    check (kept_digest kept == some before) "backup changed"

  unfoldable pub check_item : String × Item → Action Machine (Unit {0})
  check_item (name, item) = do
    target name
    now ← current sha256 name
    check (now == item.before || now == item.after) "file changed since update"
    check_kept item.before name

  -- Every file is looked at before any is changed.
  unfoldable pub check_restore : Receipt → Action Machine (Unit {0})
  check_restore receipt = for_each check_item receipt.files

  unfoldable pub restore : Outside → Receipt → Action Machine (Unit {0})
  restore out receipt = do check_restore receipt; for_each (restore_item out) receipt.files

  abbrev pub keep_bytes : String → Option File → Machine → Machine
  keep_bytes name none s = s
  keep_bytes name (some f) s = record s { before = put_file name f.bytes s.before }

  -- The owner, the group and the mode of a file that is not there yet are fixed.
  abbrev pub item_of : Machine → Option String → Option String → Option File → Item
  item_of s before after none = record {
    before = before;
    after = after;
    uid = 0;
    gid = if s.mac then s.gid else 0;
    mode = if s.mac then 0o640 else 0o644;
  }
  item_of s before after (some f) = record {
    before = before;
    after = after;
    uid = f.uid;
    gid = f.gid;
    mode = f.mode;
  }

  abbrev pub after_of : Option String → Option (List ℕ) → Option String
  after_of before none = before
  after_of before (some bytes) = some (sha256 bytes)

  unfoldable pub record_item : Files (List ℕ) → String → Action Machine Item
  record_item payloads name = do
    target name
    before ← current sha256 name
    file ← reads (λ s. find_file name s.targets)
    item ← reads (λ s. item_of s before (after_of before (find_file name payloads)) file)
    modify (keep_bytes name file)
    return item

  unfoldable pub record_items :
      Files (List ℕ) → List String → Files Item → Action Machine (Files Item)
  record_items payloads [] files = return files
  record_items payloads (name ∷ names) files = do
    item ← record_item payloads name
    record_items payloads names (put_file name item files)
