-- ===== src/Deploy/Update/Restoring.antt =====
-- From a receipt and its backup the files of the start come back.
use macqueue.Base.{
  ℕ, String, Bool, true, false, Option, none, some, List, [], ◌∷◌, ◌==◌, string_eq, if◌then◌else◌,
  ok, is_some, ◌≡◌, refl, sym, subst, ap, ◌∙◌, ◌⊎◌, inl, inr, arith, eq_of_==, ==_refl, Bool-cases,
  ◌||◌,
}
use macqueue.Base.Lists.{All}
use macqueue.Base.Files.{
  Files, find_file, put_file, remove_file, find_file-put_file, find_file-remove_file,
}
use macqueue.Base.Actions.{◌>>=◌, ◌>>◌, for_each, check, reads, lift, return}
use macqueue.Deploy.Update.{
  File, Item, Receipt, Machine, Outside, target, current, is_target, digest_of, digest_eq, NoLink,
  current-NoLink, target_lem,
}
use macqueue.Deploy.Update.Backup.{
  set_targets, replace, restore_as, restore_item, check_item, check_restore, restore, check_kept,
}

or-true : (a b : Bool) → b ≡ true → (a || b) ≡ true
or-true a b h = ground arith

module _ (sha256 : List ℕ → String) (was : Machine) where
  -- The backup of a file, with the owner, the group and the mode of its entry.
  abbrev pub IsKept : Option File → Item → Option (List ℕ) → Type 0
  IsKept none item kept = Unit
  IsKept (some f) item kept =
      (kept ≡ some f.bytes)
      × (item.uid ≡ f.uid)
      × (item.gid ≡ f.gid)
      × (item.mode ≡ f.mode)
      × (f.is_link ≡ false)

  -- What an entry says of the file before the update.
  abbrev pub Recorded : Bool → Files (List ℕ) → String × Item → Type 0
  Recorded mac before e =
      (is_target mac e.0 ≡ true)
      × (e.1.before ≡ digest_of sha256 (find_file e.0 was.targets))
      × IsKept (find_file e.0 was.targets) e.1 (find_file e.0 before)

  -- The file of an entry is the old one or the new one.
  abbrev pub OldOrNew : Files File → String × Item → Type 0
  OldOrNew targets e =
      (find_file e.0 targets ≡ find_file e.0 was.targets)
      ⊎ ((f : File) × (find_file e.0 targets ≡ some f)
          × (f.is_link ≡ false)
          × ((e.1.after ≡ some (sha256 f.bytes)) ⊎ (e.1.before ≡ some (sha256 f.bytes))))

  if_found :
      (name j : String) (found other : Option File)
      → find_file name was.targets ≡ found
      → (if name == j then found else other)
        ≡ (if name == j then find_file j was.targets else other)
  if_found name j found other e = elim (Bool-cases (name == j)) [
    | inl same ↦ rw same (sym e ∙ ap (λ n. find_file n was.targets) (eq_of_== name j same))
    | inr apart ↦ rw apart refl
  ]

  -- The file that is written back is the old one, links apart.
  replace_kept :
      (out : Outside) (m : Machine) (name : String) (item : Item) (f : File)
      → out.writable name ≡ true
      → IsKept (some f) item (find_file name m.before)
      → replace out name f.bytes item m ≡ (ok tt, set_targets (put_file name f m.targets) m)
  unfolding replace
  replace_kept out m name item f w k =
      let same : ◌≡◌ {A = File}
          (record {
            bytes = f.bytes;
            uid = item.uid;
            gid = item.gid;
            mode = item.mode;
            is_link = false;
          })
          f =
        ground arith in
      rw w (ap (λ g. (ok tt, set_targets (put_file name g m.targets) m)) same)

  -- One turn of the loop of `restore`.
  abbrev PutsBack : Outside → Machine → String → Item → Type 0
  PutsBack out m name item =
      (fs : Files File) × (restore_item out (name, item) m ≡ (ok tt, set_targets fs m))
      × ((j : String)
          → find_file j fs ≡ (if name == j then find_file j was.targets else find_file j m.targets))

  restore_from :
      (out : Outside) (m : Machine) (name : String) (item : Item) (found : Option File)
      → ((n : String) → out.writable n ≡ true)
      → find_file name was.targets ≡ found
      → is_target m.mac name ≡ true
      → item.before ≡ digest_of sha256 found
      → IsKept found item (find_file name m.before)
      → PutsBack out m name item
  unfolding restore_item target check ◌>>◌ ◌>>=◌ reads lift
  restore_from out m name item none w e t b k = (
    remove_file name m.targets,
    subst (λ v. restore_as out v name item m ≡ (ok tt, set_targets (remove_file name m.targets) m))
        (sym b) (rw t refl),
    λ j. find_file-remove_file j name m.targets ∙ if_found name j none _ e,
  )
  restore_from out m name item (some f) w e t b k = (
    put_file name f m.targets,
    subst (λ v. restore_as out v name item m ≡ (ok tt, set_targets (put_file name f m.targets) m))
        (sym b) (rw (t, k.0) (replace_kept out m name item f (w name) k)),
    λ j. find_file-put_file j name f m.targets ∙ if_found name j (some f) _ e,
  )

  put_back_or :
      (same : Bool) (later : Option Item) (item : Item) (old other : Option File)
      → (if is_some later then old else (if same then old else other))
        ≡ (if is_some (if same then some item else later) then old else other)
  put_back_or true none item old other = refl
  put_back_or true (some _) item old other = refl
  put_back_or false none item old other = refl
  put_back_or false (some _) item old other = refl

  -- The loop of `restore`.
  restore_all :
      (out : Outside) (files : Files Item) (m : Machine)
      → ((n : String) → out.writable n ≡ true)
      → All (Recorded m.mac m.before) files
      → (fs : Files File) × (for_each (restore_item out) files m ≡ (ok tt, set_targets fs m))
        × ((j : String)
            → find_file j fs ≡ (
                if is_some (find_file j files)
                then find_file j was.targets
                else find_file j m.targets))
  unfolding for_each find_file
  restore_all out [] m w h = (m.targets, refl, λ j. refl)
  restore_all out ((name, item) ∷ files) m w h =
      let (fs, turn, there) = restore_from out m name item _ w refl h.0.0 h.0.1 h.0.2 in
      let (fs', rest, found) = restore_all out files (set_targets fs m) w h.1 in
      (fs', rw turn rest, λ j. found j ∙ rw (there j) (put_back_or (name == j) _ item _ _))

  kept-NoLink :
      (found : Option File) (item : Item) (kept : Option (List ℕ))
      → IsKept found item kept
      → NoLink sha256 found
  kept-NoLink none item kept h = tt
  kept-NoLink (some f) item kept h = h.4

  check_kept_lem :
      (m : Machine) (name : String) (item : Item) (found : Option File)
      → IsKept found item (find_file name m.before)
      → check_kept sha256 (digest_of sha256 found) name m ≡ (ok tt, m)
  unfolding check ◌>>=◌ reads return
  check_kept_lem m name item none h = refl
  check_kept_lem m name item (some f) h = rw h.0 (rw (==_refl (sha256 f.bytes)) refl)

  known_bytes :
      (bytes : List ℕ) (item : Item)
      → (item.after ≡ some (sha256 bytes)) ⊎ (item.before ≡ some (sha256 bytes))
      → (some (sha256 bytes) == item.before || some (sha256 bytes) == item.after) ≡ true
  known_bytes bytes item (inl new) =
      or-true _ _
        (subst (λ v. (some (sha256 bytes) == v) ≡ true) (sym new) (==_refl (some (sha256 bytes))))
  known_bytes bytes item (inr old) = rw old (rw (==_refl (sha256 bytes)) refl)

  -- What is found is known: the digest before or the one after.
  known_digest :
      (m : Machine) (name : String) (item : Item)
      → Recorded m.mac m.before (name, item)
      → OldOrNew m.targets (name, item)
      → (now : Option String) × (current sha256 name m ≡ (ok now, m))
        × ((now == item.before || now == item.after) ≡ true)
  known_digest m name item h (inl old) =
      let free = subst (NoLink sha256) (sym old) (kept-NoLink _ item _ h.2) in
      (
        digest_of sha256 (find_file name m.targets),
        current-NoLink sha256 name m free,
        rw (old, ← h.1) (rw (==_refl item.before) refl),
      )
  known_digest m name item h (inr (f, new, free, known)) = (
    some (sha256 f.bytes),
    current-NoLink sha256 name m (rw new free) ∙ ap (λ o. (ok (digest_of sha256 o), m)) new,
    known_bytes f.bytes item known,
  )

  check_one :
      (m : Machine) (name : String) (item : Item)
      → Recorded m.mac m.before (name, item)
      → OldOrNew m.targets (name, item)
      → check_item sha256 (name, item) m ≡ (ok tt, m)
  unfolding check_item check ◌>>◌ ◌>>=◌
  check_one m name item h now =
      let (seen, found, known) = known_digest m name item h now in
      rw (target_lem name m h.0) (
        rw found (
          rw known (
            subst (λ v. check_kept sha256 v name m ≡ (ok tt, m)) (sym h.1)
              (check_kept_lem m name item _ h.2))))

  -- The preflight, which changes nothing.
  check_all :
      (files : Files Item) (m : Machine)
      → All (Recorded m.mac m.before) files
      → All (OldOrNew m.targets) files
      → for_each (check_item sha256) files m ≡ (ok tt, m)
  unfolding for_each
  check_all [] m h now = refl
  check_all ((name, item) ∷ files) m h now =
      rw (check_one m name item h.0 now.0) (check_all files m h.1 now.1)

  pub restore_lem :
      (out : Outside) (receipt : Receipt) (m : Machine)
      → ((n : String) → out.writable n ≡ true)
      → All (Recorded m.mac m.before) receipt.files
      → All (OldOrNew m.targets) receipt.files
      → (fs : Files File) × (restore sha256 out receipt m ≡ (ok tt, set_targets fs m))
        × ((j : String)
            → find_file j fs ≡ (
                if is_some (find_file j receipt.files)
                then find_file j was.targets
                else find_file j m.targets))
  unfolding restore check_restore ◌>>◌
  restore_lem out receipt m w h now =
      let (fs, turns, found) = restore_all out receipt.files m w h in
      (fs, rw (check_all receipt.files m h now) turns, found)

  pub check_restore_lem :
      (receipt : Receipt) (m : Machine)
      → All (Recorded m.mac m.before) receipt.files
      → All (OldOrNew m.targets) receipt.files
      → check_restore sha256 receipt m ≡ (ok tt, m)
  unfolding check_restore
  check_restore_lem receipt m h now = check_all receipt.files m h now
