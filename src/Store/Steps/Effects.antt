-- ===== src/Store/Steps/Effects.antt =====
-- What the methods of a lease holder commit, each one `Change` of the tables.
use macqueue.Base.{
  ℕ, ◌+◌, ◌≡◌, refl, subst, String, Bool, true, not, ◌&&◌, ◌||◌, Option, none, some, [], ◌∷◌, ◌++◌,
  ok, >>=-eq-ok, require-eq-ok, arith, string_eq, eq_of_==, leb, leb→le, Bool-cases, inl, inr,
}
use macqueue.Base.Int.{ℤ}
use macqueue.Base.Lists.{find}
use macqueue.Base.Text.{encoded_size, is_ascii}
use macqueue.Json.{Json}
use macqueue.Store.Rows.{
  cancelled, cancel_requested, same_status, is_cancelled, Status, Job, Log, Db, Public, is_active,
  is_terminal, is_succeeded, is_truthy, by_id, update_job, select, or_missing, encode,
}
use macqueue.Store.Leases.{
  owned, holds, Beat, heartbeat_tx, append_with, append_log_tx, finish_again, finish_first,
  finish_tx, outcome, complete, is_retry, same_result, add_bytes, max_log_bytes, publish_tx, renew,
  set_artifact, at_seq,
}
use macqueue.Store.Steps.{Change, same, steps, writes, renews, publishes, completes}

pub or_missing-eq-ok : (o : Option Job) (row : Job) → or_missing o ≡ ok row → o ≡ some row
or_missing-eq-ok o row h = ground arith

-- What `owned` has checked when it returns a row.
pub record Owns (db : Db) (i lease : String) (row : Job) : Type 0 where
  pub found : find (by_id i) db.jobs ≡ some row
  pub held : row.lease ≡ some lease
  pub active : is_active row.status ≡ true
  pub plain : is_ascii lease ≡ true

holds-eq-ok : (l : Option String) (given : String) → holds l given ≡ ok true → l ≡ some given
holds-eq-ok none given h = cc
holds-eq-ok (some l) given h = ground (arith, eq_of_== l given)

holds-is_ascii :
    (l : Option String) (given : String) → holds l given ≡ ok true → is_ascii given ≡ true
holds-is_ascii none given h = cc
holds-is_ascii (some l) given h = ground arith

pub owned-Owns :
    (i lease : String) (db : Db) (row : Job) → owned i lease db ≡ ok row → Owns db i lease row
unfolding owned
owned-Owns i lease db row h =
    let (row₁, e₁, h₁) = >>=-eq-ok (select i db) _ h in
    let (granted, e₂, h₂) = >>=-eq-ok (holds row₁.lease lease) _ h₁ in
    let (e₃, h₃) = require-eq-ok granted _ _ h₂ in
    let (e₄, h₄) = require-eq-ok (is_active row₁.status) _ _ h₃ in
    let same_row : row₁ ≡ row = ground arith in
    record {
      found = or_missing-eq-ok _ row (cc);
      held = holds-eq-ok row.lease lease (cc);
      active = cc;
      plain = holds-is_ascii row₁.lease lease (cc);
    }

pub heartbeat_tx-Change :
    (i lease : String) (now : ℕ) (db : Db) {beat : Beat} {db' : Db}
    → heartbeat_tx i lease now db ≡ ok (beat, db')
    → Change db db'
unfolding heartbeat_tx
heartbeat_tx-Change i lease now db {db'} h =
    let (row, e, k) = >>=-eq-ok (owned i lease db) _ h in
    let o = owned-Owns i lease db row e in
    let there : update_job i (renew now) db ≡ db' = ground arith in
    subst (Change db) there (steps i row (renew now) o.found (renews now o.active))

pub publish_tx-Change :
    (i lease name sha : String) (db : Db) {u : Unit {0}} {db' : Db}
    → publish_tx i lease name sha db ≡ ok (u, db')
    → Change db db'
unfolding publish_tx
publish_tx-Change i lease name sha db {db'} h =
    let (row, e, k) = >>=-eq-ok (owned i lease db) _ h in
    let o = owned-Owns i lease db row e in
    let there : update_job i (set_artifact name sha) db ≡ db' = ground arith in
    subst (Change db) there
      (steps i row (set_artifact name sha) o.found (publishes name sha o.active))

append_with-Change :
    (found : Option Log) (row : Job) (i : String) (seq : ℤ) (text : String) (db : Db) {u : Unit {0}}
    {db' : Db}
    → find (by_id i) db.jobs ≡ some row
    → is_active row.status ≡ true
    → find (at_seq i seq) db.logs ≡ found
    → append_with found row i seq text db ≡ ok (u, db')
    → Change db db'
unfolding append_with
append_with-Change (some existing) row i seq text db {db'} e active f h =
    let there : db ≡ db' = ground arith in subst (Change db) there same
append_with-Change none row i seq text db {db'} e active f h =
    let (fits, k) = require-eq-ok (leb (row.log_bytes + encoded_size text) max_log_bytes) _ _ h in
    let there : update_job i (add_bytes (encoded_size text))
          (record db { logs = db.logs ++ record { job_id = i; seq = seq; text = text } ∷ [] })
        ≡ db' =
      ground arith in
    subst (Change db) there (writes i row seq text e active f (leb→le _ _ fits))

pub append_log_tx-Change :
    (i lease : String) (seq : ℤ) (text : String) (db : Db) {u : Unit {0}} {db' : Db}
    → append_log_tx i lease seq text db ≡ ok (u, db')
    → Change db db'
unfolding append_log_tx
append_log_tx-Change i lease seq text db h =
    let (row, e, k) = >>=-eq-ok (owned i lease db) _ h in
    let o = owned-Owns i lease db row e in
    append_with-Change (find (at_seq i seq) db.logs) row i seq text db o.found o.active refl k

outcome_terminal :
    (was status : Status) → is_terminal status ≡ true → is_terminal (outcome was status) ≡ true
outcome_terminal was status h = ground arith

outcome_cancelled : (was status : Status) → was ≡ cancel_requested → outcome was status ≡ cancelled
outcome_cancelled was status h = ground arith

artifact_needed : (s : Bool) (t : Bool) → (not s || t) ≡ true → s ≡ true → t ≡ true
artifact_needed s t h k = ground arith

finish_first-Change :
    (i lease : String) (status : Status) (result : Json) (now : ℕ) (db : Db) {p : Public} {db' : Db}
    → is_terminal status ≡ true
    → finish_first i lease status result now db ≡ ok (p, db')
    → Change db db'
unfolding finish_first
finish_first-Change i lease status result now db {db'} t h =
    let (row, e₁, h₁) = >>=-eq-ok (owned i lease db) _ h in
    let o = owned-Owns i lease db row e₁ in
    let status' = outcome row.status status in
    let (needed, h₂) =
      require-eq-ok (not (is_succeeded status') || is_truthy row.artifact) _ _ h₁ in
    let (encoded, _, h₃) = >>=-eq-ok (encode result) _ h₂ in
    let f = complete status' encoded now in
    let (row', _, h₄) = >>=-eq-ok (select i (update_job i f db)) _ h₃ in
    let there : update_job i f db ≡ db' = ground arith in
    subst (Change db) there (
      steps i row f o.found (
        completes status' encoded now o.active (outcome_terminal row.status status t)
          (artifact_needed (is_succeeded status') (is_truthy row.artifact) needed)
          (outcome_cancelled row.status status)))

finish_again-same :
    (i : String) (status : Status) (result : Json) (db : Db) {p : Public} {db' : Db}
    → finish_again i status result db ≡ ok (p, db')
    → db ≡ db'
unfolding finish_again
finish_again-same i status result db h =
    let (row, _, h₁) = >>=-eq-ok (select i db) _ h in
    let (encoded, _, h₂) = >>=-eq-ok (encode result) _ h₁ in
    let agrees =
      same_result row.result encoded
      && (same_status row.status status || is_cancelled row.status) in
    let (_, h₃) = require-eq-ok agrees _ _ h₂ in ground arith

pub finish_tx-Change :
    (i lease : String) (status : Status) (result : Json) (now : ℕ) (db : Db) {p : Public} {db' : Db}
    → is_terminal status ≡ true
    → finish_tx i lease status result now db ≡ ok (p, db')
    → Change db db'
unfolding finish_tx
finish_tx-Change i lease status result now db {db'} t h =
    let (retried, _, k) = >>=-eq-ok (is_retry (find (by_id i) db.jobs) lease) _ h in
    elim (Bool-cases retried) [
      | inl again ↦ subst (Change db) (finish_again-same i status result db (rw again at k)) same
      | inr first ↦ finish_first-Change i lease status result now db t (rw first at k)
    ]
