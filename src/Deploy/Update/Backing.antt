-- ===== src/Deploy/Update/Backing.antt =====
-- What the receipt says when it is first saved.
use macqueue.Base.{
  ℕ, String, true, Option, none, some, List, [], ◌∷◌, ◌==◌, string_eq, ◌≡◌, refl, sym, subst, ap,
  ◌∙◌, inl, inr, eq_of_==, ==_refl, Bool-cases,
}
use macqueue.Base.Lists.{All, All-map}
use macqueue.Base.Files.{
  Files, find_file, put_file, find_file-put_file, Distinct, Distinct-put_file, IsNone, All-put_file,
}
use macqueue.Base.Actions.{
  looks-Ends, looks_then-Ends, Ends, >>=-Ends, >>-Ends, reads-Ends, modify-Ends, return-Ends,
}
use macqueue.Deploy.Update.{File, Item, Receipt, Machine, Outside, is_target, digest_of, NoLink}
use macqueue.Deploy.Update.Backup.{keep_bytes, record_item, record_items, after_of, item_of}
use macqueue.Deploy.Update.Looks.{Seen, target-Ends, current-Ends, save-Ends}
use macqueue.Deploy.Update.Restoring.{Recorded, OldOrNew, IsKept}
use macqueue.Deploy.Update.Apply.{receipt_of, start_backup, Tools, set_receipt, prepare}

module _ (tools : Tools) (was : Machine) where
  -- The files can be brought back by the receipt.
  pub record Undoable (files : Files Item) (m : Machine) : Type 0 where
    pub same_mac : m.mac ≡ was.mac
    pub names : Distinct files
    pub recorded : All (Recorded tools.sha256 was m.mac m.before) files
    pub current : All (OldOrNew tools.sha256 was m.targets) files
    pub apart :
        (j : String) → IsNone (find_file j files) → find_file j m.targets ≡ find_file j was.targets

  -- It is about the targets and the backup.
  pub Undoable-eq :
      (files : Files Item) (s t : Machine)
      → t.mac ≡ s.mac
      → t.targets ≡ s.targets
      → t.before ≡ s.before
      → Undoable files s
      → Undoable files t
  Undoable-eq files s t mac targets before u = record {
    same_mac = mac ∙ u.same_mac;
    names = u.names;
    recorded =
        subst (λ b. All (Recorded tools.sha256 was t.mac b) files) (sym before)
          (subst (λ m. All (Recorded tools.sha256 was m s.before) files) (sym mac) u.recorded);
    current = subst (λ fs. All (OldOrNew tools.sha256 was fs) files) (sym targets) u.current;
    apart = λ j missing. ap (find_file j) targets ∙ u.apart j missing;
  }

  -- Before the receipt is saved no target has changed; from then on the update can be undone.
  pub data Settled (m : Machine) : Type 0 where
    untouched : m.receipt ≡ none → m.targets ≡ was.targets → Settled m
    undoable : (receipt : Receipt) → m.receipt ≡ some receipt → Undoable receipt.files m → Settled m

  -- The state while the backup is written.
  pub record Early (s : Machine) : Type 0 where
    pub same_targets : s.targets ≡ was.targets
    pub same_mac : s.mac ≡ was.mac
    pub no_receipt : s.receipt ≡ none

  abbrev pub Known : Files (List ℕ) → String × Item → Type 0
  Known before e = Recorded tools.sha256 was was.mac before e

  abbrev pub Planned : Files (List ℕ) → String × Item → Type 0
  Planned payloads e = e.1.after ≡ after_of tools.sha256 e.1.before (find_file e.0 payloads)

  -- An entry that is noted, in the state after its file is kept.
  record Noted (payloads : Files (List ℕ)) (s : Machine) (name : String) (item : Item) (t : Machine)
      : Type 0 where
    early : Early t
    known : Known t.before (name, item)
    planned : Planned payloads (name, item)
    grows : (e : String × Item) → Known s.before e → Known t.before e

  IsKept-same :
      (found : Option File) (f : File) (item : Item) (kept : Option (List ℕ))
      → found ≡ some f
      → IsKept tools.sha256 was found item kept
      → IsKept tools.sha256 was found item (some f.bytes)
  IsKept-same none f item kept e h = tt
  IsKept-same (some g) f item kept e h = (cc, h.1, h.2, h.3, h.4)

  IsKept-put_file :
      (name : String) (f : File) (before : Files (List ℕ)) (e : String × Item)
      → find_file name was.targets ≡ some f
      → Known before e
      → Known (put_file name f.bytes before) e
  IsKept-put_file name f before e there h = elim (Bool-cases (name == e.0)) [
    | inl same ↦ (
      h.0,
      h.1,
      rw (find_file-put_file e.0 name f.bytes before, same)
          (IsKept-same _ f e.1 _
            (ap (λ n. find_file n was.targets) (sym (eq_of_== name e.0 same)) ∙ there) h.2),
    )
    | inr apart ↦ (h.0, h.1, rw (find_file-put_file e.0 name f.bytes before, apart) h.2)
  ]

  noted :
      (payloads : Files (List ℕ)) (s : Machine) (name : String) (before : Option String)
      (found : Option File)
      → Early s
      → find_file name was.targets ≡ found
      → is_target was.mac name ≡ true
      → before ≡ digest_of tools.sha256 found
      → NoLink tools.sha256 found
      → Noted payloads s name
          (item_of tools.sha256 s before
            (after_of tools.sha256 before (find_file name payloads))
            found)
          (keep_bytes tools.sha256 name found s)
  noted payloads s name before none e there valid b plain = record {
    early = e;
    known = (valid, b ∙ ap (digest_of tools.sha256) (sym there), rw there tt);
    planned = refl;
    grows = λ _ h. h;
  }
  noted payloads s name before (some f) e there valid b plain = record {
    early = record {
      same_targets = e.same_targets;
      same_mac = e.same_mac;
      no_receipt = e.no_receipt;
    };
    known = (
      valid,
      b ∙ ap (digest_of tools.sha256) (sym there),
      rw there (
          rw (find_file-put_file name name f.bytes s.before, ==_refl name)
            (refl, refl, refl, refl, plain)),
    );
    planned = refl;
    grows = λ g h. IsKept-put_file name f s.before g there h;
  }

  record_item-Ends :
      (payloads : Files (List ℕ)) (name : String) (s : Machine)
      → Early s
      → Ends Early
          (λ item t. Noted payloads s name item t)
          (record_item tools.sha256 payloads name s)
  unfolding record_item
  record_item-Ends payloads name s e =
      looks_then-Ends Early _ (is_target s.mac name ≡ true) _ _ s (target-Ends tools Early name s e)
        λ valid.
          looks-Ends Early _ (Seen tools (find_file name s.targets)) _ _ s
            (current-Ends tools Early name s e)
            λ before seen. reads-Ends Early _ _ _ s (
              reads-Ends Early _ _ _ s (
                modify-Ends Early _ _ _ s (
                  return-Ends Early _ _ _ (
                    noted payloads s name before (find_file name s.targets) e
                      (ap (find_file name) (sym e.same_targets))
                      (subst (λ mac. is_target mac name ≡ true) e.same_mac valid) seen.0 seen.1))))

  -- What the loop over the names has noted.
  record NotedAll (payloads : Files (List ℕ)) (files : Files Item) (s : Machine) : Type 0 where
    early : Early s
    once : Distinct files
    known : All (Known s.before) files
    planned : All (Planned payloads) files

  record_items-Ends :
      (payloads : Files (List ℕ)) (names : List String) (files : Files Item) (s : Machine)
      → NotedAll payloads files s
      → Ends Early (NotedAll payloads) (record_items tools.sha256 payloads names files s)
  unfolding record_items
  record_items-Ends payloads [] files s h = return-Ends Early _ _ _ h
  record_items-Ends payloads (name ∷ names) files s h =
      >>=-Ends Early _ (Noted payloads s name) _ _ s (record_item-Ends payloads name s h.early)
        λ item t n. record_items-Ends payloads names (put_file name item files) t (record {
          early = n.early;
          once = Distinct-put_file name item files h.once;
          known =
              All-put_file (Known t.before) (Known t.before) name item files h.once
                (All-map files n.grows h.known) n.known (λ _ k _. k);
          planned =
              All-put_file (Planned payloads) (Planned payloads) name item files h.once h.planned
                n.planned (λ _ k _. k);
        })

  -- The receipt is on disk and stands for the files.
  pub record Ready (payloads : Files (List ℕ)) (receipt : Receipt) (s : Machine) : Type 0 where
    pub saved : s.receipt ≡ some receipt
    pub undo : Undoable receipt.files s
    pub planned : All (Planned payloads) receipt.files

  pub Early-Settled : (s : Machine) → Early s → Settled s
  Early-Settled s e = untouched e.no_receipt e.same_targets

  pub Ready-Settled :
      (payloads : Files (List ℕ)) (receipt : Receipt) (s : Machine)
      → Ready payloads receipt s
      → Settled s
  Ready-Settled payloads receipt s r = undoable receipt r.saved r.undo

  all_old :
      (targets : Files File) (files : Files Item)
      → targets ≡ was.targets
      → All (OldOrNew tools.sha256 was targets) files
  all_old targets [] same = tt
  all_old targets (e ∷ files) same = (inl (ap (find_file e.0) same), all_old targets files same)

  saved-Ready :
      (payloads : Files (List ℕ)) (receipt : Receipt) (s : Machine)
      → NotedAll payloads receipt.files s
      → Ready payloads receipt (set_receipt receipt s)
  saved-Ready payloads receipt s n = record {
    saved = refl;
    undo = record {
      same_mac = n.early.same_mac;
      names = n.once;
      recorded =
          subst (λ mac. All (Recorded tools.sha256 was mac s.before) receipt.files)
            (sym n.early.same_mac) n.known;
      current = all_old s.targets receipt.files n.early.same_targets;
      apart = λ j _. ap (find_file j) n.early.same_targets;
    };
    planned = n.planned;
  }

  pub prepare-Ends :
      (out : Outside) (payloads : Files (List ℕ)) (s : Machine)
      → s ≡ was
      → Ends Early (Ready payloads) (prepare tools out payloads s)
  unfolding prepare
  prepare-Ends out payloads s same =
      let begun : Early (start_backup s) = record {
        same_targets = ap (λ m. m.targets) same;
        same_mac = ap (λ m. m.mac) same;
        no_receipt = refl;
      } in
      modify-Ends Early _ _ _ s (
        reads-Ends Early _ _ _ _ (
          >>=-Ends Early _ (NotedAll payloads) _ _ _
            (record_items-Ends payloads _ [] _
              (record { early = begun; once = tt; known = tt; planned = tt }))
            λ files t n. reads-Ends Early _ _ _ t (
              >>-Ends Early _ (λ u. u ≡ set_receipt (receipt_of tools t files) t) _ _ t
                (save-Ends tools Early out 0 _ t n.early)
                λ u done. return-Ends Early _ _ u (
                  subst (Ready payloads (receipt_of tools t files)) (sym done)
                    (saved-Ready payloads _ t n)))))
