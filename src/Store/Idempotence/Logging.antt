-- ===== src/Store/Idempotence/Logging.antt =====
-- A log chunk that is sent again, and one that reuses a number.
use macqueue.Store.History.Sound.{Commits, rolls_back, changes, step-Commits, step-IsSound}
use macqueue.Store.History.{Call, step, run}
use macqueue.Store.Invariant.{IsSound}
use macqueue.Store.Steps.{Change, same, inserts, starts, steps, writes}
use macqueue.Base.{
  ℕ, ◌≡◌, refl, ◌∙◌, ap, subst, String, Bool, Option, none, some, List, [], ◌∷◌, ◌++◌, Result, ok,
  err, Error, invalid, >>=-eq-ok, require-eq-ok, ◌==◌, string_eq, ==_refl, Bool-cases, inl, inr,
  if◌then◌else◌, leb, ◌+◌, eq_of_==,
}
use macqueue.Base.Int.{ℤ, int_eq}
use macqueue.Base.Lists.{find}
use macqueue.Base.Updates.{find-append_none, find-append_some}
use macqueue.Base.Text.{encoded_size}
use macqueue.Store.Rows.{Db, Job, Log, reap, update_job}
use macqueue.Store.Leases.{
  owned, append_log, append_log_tx, append_with, at_seq, add_bytes, max_log_bytes,
}
use macqueue.Store.Idempotence.{transaction-eq-ok}

-- An accepted chunk stands in the log under its number.
append_with-found :
    (o : Option Log) (row : Job) (i : String) (seq : ℤ) (text : String) (db db' : Db)
    → find (at_seq i seq) db.logs ≡ o
    → append_with o row i seq text db ≡ ok (tt, db')
    → (l : Log) × (find (at_seq i seq) db'.logs ≡ some l) × (l.text ≡ text)
unfolding append_with
append_with-found (some l) row i seq text db db' e h =
    let (same_text, k) = require-eq-ok (l.text == text) _ _ h in
    let same : db ≡ db' = cc in
    (l, subst (λ d. find (at_seq i seq) d.logs ≡ some l) same e, eq_of_== l.text text same_text)
append_with-found none row i seq text db db' e h =
    let (_, k) = require-eq-ok (leb (row.log_bytes + encoded_size text) max_log_bytes) _ _ h in
    let chunk : Log = record { job_id = i; seq = seq; text = text } in
    let logs = db.logs ++ chunk ∷ [] in
    let same : update_job i (add_bytes (encoded_size text)) (record db { logs = logs }) ≡ db' =
      cc in
    (
      chunk,
      subst (λ d. find (at_seq i seq) d.logs ≡ some chunk) same
          (find-append_none (at_seq i seq) db.logs chunk e
            ∙ rw (==_refl i) (rw (==_refl seq) refl)),
      refl,
    )

-- A written chunk stays.
Change-logs :
    {db db' : Db} (p : Log → Bool) (l : Log)
    → Change db db'
    → find p db.logs ≡ some l
    → find p db'.logs ≡ some l
Change-logs p l same e = e
Change-logs p l (inserts job_id spec key now expires_in a b) e = e
Change-logs p l (starts row worker lease now idle found ready) e = e
Change-logs p l (steps i row f found st) e = e
Change-logs {db} p l (writes i row seq text found active fresh fits) e =
    find-append_some p db.logs _ l e

step-logs :
    (db : Db) (c : ℕ × Call) (p : Log → Bool) (l : Log)
    → IsSound db
    → find p db.logs ≡ some l
    → find p (step db c).logs ≡ some l
unfolding reap
step-logs db (t, c) p l v e = after (step-Commits db t c v)
  where
    after : {db' : Db} → Commits t db db' → find p db'.logs ≡ some l
    after rolls_back = e
    after (changes ch) = Change-logs p l ch e

run-logs :
    (db : Db) (cs : List (ℕ × Call)) (p : Log → Bool) (l : Log)
    → IsSound db
    → find p db.logs ≡ some l
    → find p (run db cs).logs ≡ some l
unfolding run
run-logs db [] p l v e = e
run-logs db (c ∷ cs) p l v e =
    run-logs (step db c) cs p l (step-IsSound db c v) (step-logs db c p l v e)

abbrev collision : Error
collision = invalid "log sequence collision"

-- What a chunk under a number in use does.
reuse :
    (i lease : String) (seq : ℤ) (text : String) (t : ℕ) (db : Db) (row : Job) (l : Log)
    → owned i lease (reap t db) ≡ ok row
    → find (at_seq i seq) (reap t db).logs ≡ some l
    → append_log i lease seq text t db
      ≡ (if l.text == text then (ok tt, reap t db) else (err collision, db))
unfolding append_log
reuse i lease seq text t db row l o e = elim (Bool-cases (l.text == text)) [
  | inl agree ↦ rw (o, append_log_tx) (rw (e, append_with) (rw agree refl))
  | inr differ ↦ rw (o, append_log_tx) (rw (e, append_with) (rw differ refl))
]

-- A log chunk was accepted, then came any calls of anyone but prune, and the lease is still in force: a
-- chunk under the same number is accepted without being stored again where its text is the same, and is
-- refused, the tables as they were, where its text is another.
pub append_log_twice :
    (i lease : String) (seq : ℤ) (text : String) (t : ℕ) (db db' : Db) (cs : List (ℕ × Call))
    (text₂ : String) (t₂ : ℕ) (row : Job)
    → IsSound db
    → ◌≡◌ {A = Result (Unit {0}) × Db} (append_log i lease seq text t db) (ok tt, db')
    → owned i lease (reap t₂ (run db' cs)) ≡ ok row
    → append_log i lease seq text₂ t₂ (run db' cs)
      ≡ (if text == text₂ then (ok tt, reap t₂ (run db' cs)) else (err collision, run db' cs))
unfolding append_log append_log_tx step reap
append_log_twice i lease seq text t db db' cs text₂ t₂ row v h o =
    let done = transaction-eq-ok t (append_log_tx i lease seq text) db tt db' h in
    let (first, _, k) = >>=-eq-ok (owned i lease (reap t db)) _ done in
    let (l, there, is_text) =
      append_with-found (find (at_seq i seq) (reap t db).logs) first i seq text (reap t db) db' refl
        k in
    let v' =
      subst IsSound (ap (λ q. q.1) h) (step-IsSound db (t, Call.append_log i lease seq text) v) in
    rw (← is_text)
      (reuse i lease seq text₂ t₂ (run db' cs) row l o (run-logs db' cs (at_seq i seq) l v' there))
