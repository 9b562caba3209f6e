-- ===== src/Store/Idempotence/Completion.antt =====
-- A completion that is delivered again after its reply was lost.
use macqueue.Base.{
  ℕ, ◌≡◌, refl, ◌∙◌, sym, ap, subst, String, true, not, ◌&&◌, ◌||◌, Option, none, some, List,
  Result, ok, err, >>=-eq-ok, require-eq-ok, arith, string_eq, ==_refl, Bool-cases, inl, inr,
  invalid,
}
use macqueue.Base.Lists.{find, update}
use macqueue.Base.Updates.{find_passes, find-update_found}
use macqueue.Base.Text.{is_ascii}
use macqueue.Json.{Json}
use macqueue.Json.Equality.{same_text_refl}
use macqueue.Store.Rows.{
  Db, Job, Public, Status, view, reap, transaction, commit, encode, select, by_id, update_job,
  is_terminal, is_succeeded, is_truthy, is_cancelled, same_status, final_status,
}
use macqueue.Store.Leases.{
  finish, finish_as, finish_tx, finish_first, finish_again, is_retry, same_result, outcome,
  complete, owned,
}
use macqueue.Store.Steps.Effects.{or_missing-eq-ok, owned-Owns}
use macqueue.Store.Invariant.{IsSound}
use macqueue.Store.History.{Call, step, run}
use macqueue.Store.History.Sound.{step-IsSound, final_status-terminal}
use macqueue.Store.History.Life.{run-Stays, reap-Stays}
use macqueue.Store.Idempotence.{transaction-eq-ok}

-- The row that a completion has left, as a repeated one will judge it.
record Completed (i lease : String) (status : Status) (result : Json) (p : Public) (db : Db)
    : Type 0 where
  row : Job
  found : find (by_id i) db.jobs ≡ some row
  ended : is_terminal row.status ≡ true
  recognised : is_retry (some row) lease ≡ ok true
  encoded : encode result ≡ ok result
  agreed :
      (same_result row.result result && (same_status row.status status || is_cancelled row.status))
      ≡ true
  shown : view row ≡ p

encode-eq-ok : (v w : Json) → encode v ≡ ok w → v ≡ w
encode-eq-ok v w h = ground arith

finish_again-Completed :
    (i lease : String) (status : Status) (result : Json) (db : Db) (p : Public) (db' : Db)
    → is_retry (find (by_id i) db.jobs) lease ≡ ok true
    → finish_again i status result db ≡ ok (p, db')
    → Completed i lease status result p db'
unfolding finish_again
finish_again-Completed i lease status result db p db' r h =
    let (row, e, h₁) = >>=-eq-ok (select i db) _ h in
    let (encoded, f, h₂) = >>=-eq-ok (encode result) _ h₁ in
    let agrees =
      same_result row.result encoded
      && (same_status row.status status || is_cancelled row.status) in
    let (g, h₃) = require-eq-ok agrees _ _ h₂ in
    let same_value : result ≡ encoded = encode-eq-ok result encoded f in
    let found = or_missing-eq-ok (find (by_id i) db.jobs) row e in
    let same : db ≡ db' = cc in
    let recognised : is_retry (some row) lease ≡ ok true =
      subst (λ o. is_retry o lease ≡ ok true) found r in
    record {
      row = row;
      found = subst (λ d. find (by_id i) d.jobs ≡ some row) same found;
      ended = retry_ended row lease recognised;
      recognised = recognised;
      encoded = f ∙ ap ok (sym same_value);
      agreed =
          subst
            (λ w.
              (same_result row.result w
                && (same_status row.status status || is_cancelled row.status))
              ≡ true)
            (sym same_value) g;
      shown = cc;
    }
  where
    retry_ended :
        (row : Job) (lease : String)
        → is_retry (some row) lease ≡ ok true
        → is_terminal row.status ≡ true
    retry_ended row lease h = ground arith

some-eq : (j k : Job) → some j ≡ some k → j ≡ k
some-eq j k h = cc

outcome_agrees :
    (was status : Status)
    → (same_status (outcome was status) status || is_cancelled (outcome was status)) ≡ true
outcome_agrees was status = ground arith

outcome-is_terminal :
    (was status : Status) → is_terminal status ≡ true → is_terminal (outcome was status) ≡ true
outcome-is_terminal was status h = ground arith

retries :
    (row : Job) (lease : String)
    → is_terminal row.status ≡ true
    → row.lease ≡ some lease
    → is_ascii lease ≡ true
    → is_retry (some row) lease ≡ ok true
retries row lease ended held plain = rw (ended, held) (rw plain (ap ok (==_refl lease)))

finish_first-Completed :
    (i lease : String) (status : Status) (result : Json) (now : ℕ) (db : Db) (p : Public) (db' : Db)
    → is_terminal status ≡ true
    → finish_first i lease status result now db ≡ ok (p, db')
    → Completed i lease status result p db'
unfolding finish_first
finish_first-Completed i lease status result now db p db' t h =
    let (old, e₁, h₁) = >>=-eq-ok (owned i lease db) _ h in
    let o = owned-Owns i lease db old e₁ in
    let status' = outcome old.status status in
    let (_, h₂) = require-eq-ok (not (is_succeeded status') || is_truthy old.artifact) _ _ h₁ in
    let (encoded, e₃, h₃) = >>=-eq-ok (encode result) _ h₂ in
    let f = complete status' encoded now in
    let (row, e₄, h₄) = >>=-eq-ok (select i (update_job i f db)) _ h₃ in
    let same_value : result ≡ encoded = encode-eq-ok result encoded e₃ in
    let there : find (by_id i) (update (by_id i) f db.jobs) ≡ some (f old) =
      find-update_found (by_id i) f old db.jobs (find_passes (by_id i) f old db.jobs o.found)
        o.found in
    let same_row : row ≡ f old = some-eq row (f old) (sym (or_missing-eq-ok _ row e₄) ∙ there) in
    let same : update_job i f db ≡ db' = cc in
    let shown : view row ≡ p = cc in
    let ended = outcome-is_terminal old.status status t in
    record {
      row = f old;
      found = subst (λ d. find (by_id i) d.jobs ≡ some (f old)) same there;
      ended = ended;
      recognised = retries (f old) lease ended o.held o.plain;
      encoded = e₃ ∙ ap ok (sym same_value);
      agreed = rw (← same_value) (rw (same_text_refl result) (outcome_agrees old.status status));
      shown = ap view (sym same_row) ∙ shown;
    }

finish_tx-Completed :
    (i lease : String) (status : Status) (result : Json) (now : ℕ) (db : Db) (p : Public) (db' : Db)
    → is_terminal status ≡ true
    → finish_tx i lease status result now db ≡ ok (p, db')
    → Completed i lease status result p db'
unfolding finish_tx
finish_tx-Completed i lease status result now db p db' t h =
    let (retried, e, k) = >>=-eq-ok (is_retry (find (by_id i) db.jobs) lease) _ h in
    elim (Bool-cases retried) [
      | inl again ↦
          finish_again-Completed i lease status result db p db' (e ∙ ap ok again) (rw again at k)
      | inr first ↦ finish_first-Completed i lease status result now db p db' t (rw first at k)
    ]

-- A completion that meets such a row: the reply of the first time, and nothing changes.
finish_tx_again :
    (i lease : String) (status : Status) (result : Json) (now : ℕ) (db : Db) (p : Public)
    → Completed i lease status result p db
    → finish_tx i lease status result now db ≡ ok (p, db)
unfolding finish_tx finish_again
finish_tx_again i lease status result now db p c =
    rw (c.found, is_retry)
      (rw (c.recognised) (rw (c.encoded) (rw c.agreed (ap (λ q. ok (q, db)) c.shown))))

-- The row stays as it is, and so does what a completion finds.
Completed-run :
    (i lease : String) (status : Status) (result : Json) (p : Public) (db : Db)
    (cs : List (ℕ × Call)) (t : ℕ)
    → IsSound db
    → Completed i lease status result p db
    → Completed i lease status result p (reap t (run db cs))
Completed-run i lease status result p db cs t v c =
    let st = run-Stays db cs i c.row v c.found in
    let last = reap-Stays t (run db cs) i st.row st.found in
    let still = st.evolved.ended c.ended in
    let unchanged = last.evolved.ended (ap (λ j. is_terminal j.status) still ∙ c.ended) ∙ still in
    record {
      row = c.row;
      found = last.found ∙ ap some unchanged;
      ended = c.ended;
      recognised = c.recognised;
      encoded = c.encoded;
      agreed = c.agreed;
      shown = c.shown;
    }

finish_as_twice :
    (o : Option Status) (status : Json) (i lease : String) (result : Json) (t now : ℕ) (db : Db)
    (p : Public) (db' : Db) (cs : List (ℕ × Call)) (t₂ now₂ : ℕ)
    → final_status status ≡ o
    → IsSound db'
    → ◌≡◌ {A = Result Public × Db} (finish_as o i lease result t now db) (ok p, db')
    → ◌≡◌ {A = Result Public × Db}
        (finish_as o i lease result t₂ now₂ (run db' cs))
        (ok p, reap t₂ (run db' cs))
unfolding finish_as transaction
finish_as_twice none status i lease result t now db p db' cs t₂ now₂ e v h =
    let clash : err (invalid "invalid final status") ≡ ok p = ap (λ q. q.0) h in cc
finish_as_twice (some s) status i lease result t now db p db' cs t₂ now₂ e v h =
    let done = transaction-eq-ok t (finish_tx i lease s result now) db p db' h in
    let first =
      finish_tx-Completed i lease s result now (reap t db) p db' (final_status-terminal status s e)
        done in
    let later = reap t₂ (run db' cs) in
    ap (commit (run db' cs)) (
      finish_tx_again i lease s result now₂ later p
        (Completed-run i lease s result p db' cs t₂ v first))

-- A completion that was accepted, then any calls of anyone, then the same completion again: it has
-- the reply of the first time, and changes nothing beyond the reaping.
pub finish_twice :
    (i lease : String) (status result : Json) (t now : ℕ) (db : Db) (p : Public) (db' : Db)
    (cs : List (ℕ × Call)) (t₂ now₂ : ℕ)
    → IsSound db
    → ◌≡◌ {A = Result Public × Db} (finish i lease status result t now db) (ok p, db')
    → ◌≡◌ {A = Result Public × Db}
        (finish i lease status result t₂ now₂ (run db' cs))
        (ok p, reap t₂ (run db' cs))
unfolding finish step
finish_twice i lease status result t now db p db' cs t₂ now₂ v h =
    let v' =
      subst IsSound (ap (λ q. q.1) h)
        (step-IsSound db (t, Call.finish i lease status result now) v) in
    finish_as_twice (final_status status) status i lease result t now db p db' cs t₂ now₂ refl v' h
