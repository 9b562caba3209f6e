-- ===== src/Worker/Pruned.antt =====
-- What `prune_worker` deletes, and what it leaves.
use macqueue.Base.{
  ℕ, ◌+◌, ◌*◌, String, Bool, true, false, not, ◌&&◌, List, [], ◌∷◌, ◌==◌, nat_eq, string_eq,
  if◌then◌else◌, Result, ok, err, ◌≡◌, refl, sym, subst, ◌∙◌, Bool-cases, inl, inr, arith, ◌≤◌, ◌⊎◌,
  ltb,
}
use mathlib.Core.Path.{fun_ext}
use macqueue.Base.Lists.{All, All-map, All-of_filter, any, filter}
use macqueue.Worker.Handling.{is_job_id}
use macqueue.Worker.Pruning.{
  day, Stored, Local, is_kept, is_linked, delete, count_one, prune_each, prune_worker,
}
use text.Mathlib.TextEquality.{eq_iff}

-- What there is of a job.
abbrev pub has_receipt : String → Local → Bool
has_receipt id st = any (λ r. r.job_id == id) st.receipts

abbrev pub has_workspace : String → Local → Bool
has_workspace id st = any (λ w. w.0 == id) st.workspaces

abbrev pub has_archive : String → Local → Bool
has_archive id st = any (λ a. a == id) st.archives

abbrev pub SameOf : String → Local → Local → Type 0
SameOf id st st' =
    (has_receipt id st' ≡ has_receipt id st)
    × (has_workspace id st' ≡ has_workspace id st)
    × (has_archive id st' ≡ has_archive id st)

any_of_apart {ℓ} :
    {A : Type ℓ} (key : A → String) (id gone : String) (xs : List A)
    → (gone == id) ≡ false
    → any (λ x. key x == id) (filter (λ x. not (key x == gone)) xs) ≡ any (λ x. key x == id) xs
any_of_apart key id gone [] h = refl
any_of_apart key id gone (x ∷ xs) h =
    ground
      (arith, eq_iff (key x) gone, eq_iff (key x) id, eq_iff gone id, any_of_apart key id gone xs h)

any_of_gone {ℓ} :
    {A : Type ℓ} (key : A → String) (id : String) (xs : List A)
    → any (λ x. key x == id) (filter (λ x. not (key x == id)) xs) ≡ false
any_of_gone key id [] = refl
any_of_gone key id (x ∷ xs) = elim (Bool-cases (key x == id)) [
  | inl hit ↦ rw hit (any_of_gone key id xs)
  | inr miss ↦ rw miss (rw miss (any_of_gone key id xs))
]

delete-SameOf :
    (id gone : String) (st : Local) → (gone == id) ≡ false → SameOf id st (delete gone st)
delete-SameOf id gone st h = (
  any_of_apart (λ r. r.job_id) id gone st.receipts h,
  any_of_apart (λ w. w.0) id gone st.workspaces h,
  any_of_apart (λ a. a) id gone st.archives h,
)

SameOf-trans : (id : String) (a b c : Local) → SameOf id a b → SameOf id b c → SameOf id a c
SameOf-trans id a b c h k = (k.0 ∙ h.0, k.1 ∙ h.1, k.2 ∙ h.2)

count_one_state : (r : Result ℕ × Local) → (count_one r).1 ≡ r.1
count_one_state (err e, st) = refl
count_one_state (ok n, st) = refl

either :
    (P : Result ℕ × Local → Type 0) (b : Bool) (x y : Result ℕ × Local)
    → (b ≡ true → P x)
    → (b ≡ false → P y)
    → P (if b then x else y)
either P true x y h k = h refl
either P false x y h k = k refl

abbrev pub KeptOf : ℕ → ℕ → String → Stored → Type 0
KeptOf now days id r = (r.job_id == id) ≡ true → is_kept now days r ≡ true

other_job :
    (now days : ℕ) (id : String) (r : Stored)
    → KeptOf now days id r
    → is_kept now days r ≡ false
    → (r.job_id == id) ≡ false
other_job now days id r h gone = elim (Bool-cases (r.job_id == id)) [
  | inl same ↦ let clash : true ≡ false = sym (h same) ∙ gone in cc
  | inr other ↦ other
]

prune_each-SameOf :
    (now days : ℕ) (id : String) (rs : List Stored) (st : Local)
    → All (KeptOf now days id) rs
    → SameOf id st (prune_each now days rs st).1
unfolding prune_each
prune_each-SameOf now days id [] st h = (refl, refl, refl)
prune_each-SameOf now days id (r ∷ rs) st h =
    either (λ x. SameOf id st x.1) (is_kept now days r) _ _
      (λ _. prune_each-SameOf now days id rs st h.1)
      λ gone.
        either (λ x. SameOf id st x.1) (not (is_job_id r.job_id)) _ _ (λ _. (refl, refl, refl))
          λ _.
            either (λ x. SameOf id st x.1) (is_linked r.job_id st.workspaces) _ _
              (λ _. (refl, refl, refl))
              λ _.
                subst (SameOf id st)
                  (sym (count_one_state (prune_each now days rs (delete r.job_id st))))
                  (SameOf-trans id st (delete r.job_id st) _
                    (delete-SameOf id r.job_id st (other_job now days id r h.0 gone))
                    (prune_each-SameOf now days id rs (delete r.job_id st) h.1))

-- Nothing of a job is left.
abbrev pub Gone : String → Local → Type 0
Gone id st =
    (has_receipt id st ≡ false) × (has_workspace id st ≡ false) × (has_archive id st ≡ false)

empty_filter {ℓ} :
    {A : Type ℓ} (p q : A → Bool) (xs : List A) → any p xs ≡ false → any p (filter q xs) ≡ false
empty_filter p q [] h = refl
empty_filter p q (x ∷ xs) h = ground (arith, empty_filter p q xs)

delete-Gone : (id gone : String) (st : Local) → Gone id st → Gone id (delete gone st)
delete-Gone id gone st h = (
  empty_filter _ _ st.receipts h.0,
  empty_filter _ _ st.workspaces h.1,
  empty_filter _ _ st.archives h.2,
)

prune_each-Gone :
    (now days : ℕ) (id : String) (rs : List Stored) (st : Local)
    → Gone id st
    → Gone id (prune_each now days rs st).1
unfolding prune_each
prune_each-Gone now days id [] st h = h
prune_each-Gone now days id (r ∷ rs) st h =
    either (λ x. Gone id x.1) (is_kept now days r) _ _ (λ _. prune_each-Gone now days id rs st h)
      λ _.
        either (λ x. Gone id x.1) (not (is_job_id r.job_id)) _ _ (λ _. h)
          λ _.
            either (λ x. Gone id x.1) (is_linked r.job_id st.workspaces) _ _ (λ _. h)
              λ _.
                subst (Gone id)
                  (sym (count_one_state (prune_each now days rs (delete r.job_id st))))
                  (prune_each-Gone now days id rs (delete r.job_id st)
                    (delete-Gone id r.job_id st h))

-- How many were deleted, if nothing was wrong.
abbrev pub AllGone : ℕ → ℕ → List Stored → Result ℕ × Local → Type 0
AllGone now days rs (err _, st) = Unit
AllGone now days rs (ok n, st) =
    All (λ r. Gone r.job_id st) (filter (λ r. not (is_kept now days r)) rs)

one_current :
    (now days : ℕ) (r : Stored) (rs : List Stored) (x : Result ℕ × Local)
    → is_kept now days r ≡ true
    → AllGone now days rs x
    → AllGone now days (r ∷ rs) x
one_current now days r rs (err _, st) k h = tt
one_current now days r rs (ok n, st) k h = rw k h

one_old :
    (now days : ℕ) (r : Stored) (rs : List Stored) (x : Result ℕ × Local)
    → is_kept now days r ≡ false
    → Gone r.job_id x.1
    → AllGone now days rs x
    → AllGone now days (r ∷ rs) (count_one x)
one_old now days r rs (err _, st) k g h = tt
one_old now days r rs (ok n, st) k g h = rw k (g, h)

prune_each-AllGone :
    (now days : ℕ) (rs : List Stored) (st : Local) → AllGone now days rs (prune_each now days rs st)
unfolding prune_each
prune_each-AllGone now days [] st = tt
prune_each-AllGone now days (r ∷ rs) st =
    let A = AllGone now days (r ∷ rs) in
    either A (is_kept now days r) _ _
      (λ kept. one_current now days r rs _ kept (prune_each-AllGone now days rs st))
      λ old.
        either A (not (is_job_id r.job_id)) _ _ (λ _. tt)
          λ _.
            either A (is_linked r.job_id st.workspaces) _ _ (λ _. tt)
              λ _.
                one_old now days r rs (prune_each now days rs (delete r.job_id st)) old
                  (prune_each-Gone now days r.job_id rs (delete r.job_id st) (
                    any_of_gone (λ (s : Stored). s.job_id) r.job_id st.receipts,
                    any_of_gone (λ (w : String × Bool). w.0) r.job_id st.workspaces,
                    any_of_gone (λ (a : String). a) r.job_id st.archives,
                  ))
                  (prune_each-AllGone now days rs (delete r.job_id st))

-- Why a receipt stays, and when one may go.
abbrev pub Stays : ℕ → ℕ → Stored → Type 0
Stays now days r =
    (now ≤ r.modified + days * day) ⊎ (r.delivered ≡ false) ⊎ (r.artifact_error ≡ true)

abbrev pub may_go : ℕ → ℕ → Stored → Bool
may_go now days r = r.delivered && not r.artifact_error && ltb (r.modified + days * day) now

kept_of : (now days : ℕ) (r : Stored) → Stays now days r → is_kept now days r ≡ true
kept_of now days r h = ground arith

go_of : (now days : ℕ) (r : Stored) → not (is_kept now days r) ≡ may_go now days r
go_of now days r = ground arith

-- A job of whose receipts each is newer than the given days, or not delivered, or without its artifact,
-- keeps its receipt, its workspace and its archive, if it has them, whatever becomes of the call.
pub prune_worker-SameOf :
    (now days : ℕ) (id : String) (st : Local)
    → All (Stays now days) (filter (λ r. r.job_id == id) st.receipts)
    → SameOf id st (prune_worker now days st).1
unfolding prune_worker
prune_worker-SameOf now days id st h = prune_each-SameOf now days id st.receipts st (
    All-of_filter _ _ st.receipts
      (All-map (filter (λ r. r.job_id == id) st.receipts) (kept_of now days) h))

-- If the call returns, then of every job with a receipt that is old enough, delivered and with its
-- artifact, no receipt, workspace or archive is left.
pub prune_worker-Gone :
    (now days : ℕ) (st st' : Local) (n : ℕ)
    → prune_worker now days st ≡ (ok n, st')
    → All (λ r. Gone r.job_id st') (filter (may_go now days) st.receipts)
unfolding prune_worker
prune_worker-Gone now days st st' n h =
    rw (← fun_ext (go_of now days))
      (subst (AllGone now days st.receipts) h (prune_each-AllGone now days st.receipts st))
