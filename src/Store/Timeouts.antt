-- ===== src/Store/Timeouts.antt =====
-- The clock: what the reaping leaves behind, and what an expired lease is still good for.
use macqueue.Base.{
  ℕ, ◌≡◌, ◌≤◌, refl, ◌∙◌, ap, String, Bool, true, false, some, List, [], ◌∷◌, Result, ok, err,
  Error, arith, le→leb, if◌then◌else◌, require, ◌>>=◌, ◌>>◌,
}
use macqueue.Base.Int.{ℤ}
use macqueue.Base.Lists.{All, update, find}
use macqueue.Base.Updates.{All-update, find-update}
use mathlib.Core.Option
use macqueue.Store.Rows.{
  Db, Job, Tx, reap, overdue, expire, lapsed, lapse, is_active, by_id, transaction,
}
use macqueue.Store.Leases.{
  owned, holds, heartbeat, heartbeat_tx, append_log, append_log_tx, publish, publish_tx,
}

abbrev pub IsSettled : ℕ → Job → Type 0
IsSettled now j = (overdue now j ≡ false) × (lapsed now j ≡ false)

expire-settles : (now : ℕ) (j : Job) → overdue now j ≡ true → overdue now (expire now j) ≡ false
expire-settles now j h = refl

lapse-settles : (now : ℕ) (j : Job) → IsSettled now (lapse now j)
lapse-settles now j = ground arith

reap-settles : (now : ℕ) (db : Db) → All (IsSettled now) (reap now db).jobs
unfolding reap
reap-settles now db =
    All-update (lapsed now) (lapse now) (λ j. overdue now j ≡ false) (IsSettled now)
      (update (overdue now) (expire now) db.jobs) (λ j h k. lapse-settles now j) (λ j h k. (h, k))
      (All-update (overdue now) (expire now) (λ j. Unit {0}) (λ j. overdue now j ≡ false) db.jobs
        (λ j _ h. expire-settles now j h) (λ j _ h. h) (everything db.jobs))
  where
    everything : (jobs : List Job) → All (λ j. Unit {0}) jobs
    everything [] = tt
    everything (j ∷ jobs) = (tt, everything jobs)

-- What the reaping makes of one row.
abbrev pub reaped : ℕ → Job → Job
reaped now j =
    let k = if overdue now j then expire now j else j in if lapsed now k then lapse now k else k

reap-find :
    (now : ℕ) (db : Db) (i : String) (j : Job)
    → find (by_id i) db.jobs ≡ some j
    → find (by_id i) (reap now db).jobs ≡ some (reaped now j)
unfolding reap
reap-find now db i j e =
    find-update (lapsed now) (lapse now) (by_id i) (update (overdue now) (expire now) db.jobs)
      (λ k. refl)
    ∙ ap (Option.map (λ k. if lapsed now k then lapse now k else k)) (
        find-update (overdue now) (expire now) (by_id i) db.jobs (λ k. refl)
        ∙ ap (Option.map (λ k. if overdue now k then expire now k else k)) e)

abbrev Fails {ℓ} : {A : Type ℓ} → Result A → Type ℓ
Fails {A} r = (e : Error) × (r ≡ err e)

-- A row that is not active is owned by nobody.
owned-Fails :
    (i lease : String) (db : Db) (row : Job)
    → find (by_id i) db.jobs ≡ some row
    → is_active row.status ≡ false
    → Fails (owned i lease db)
unfolding owned
owned-Fails i lease db row e idle = rw e (granted (holds row.lease lease))
  where
    granted :
        (r : Result Bool)
        → Fails (
            r >>= λ g.
            require g "wrong job lease"
            >> (require (is_active row.status) "job lease is no longer active" >> ok row))
    granted (ok true) = rw idle (_, refl)
    granted (ok false) = (_, refl)
    granted (err x) = (x, refl)

-- A call that raises leaves the tables as they were.
abbrev pub Refused {ℓ} : {A : Type ℓ} → Db → Result A × Db → Type ℓ
Refused db (r, after) = Fails r × (after ≡ db)

refused {ℓ} :
    {A : Type ℓ} (t : ℕ) (body : Tx A) (db : Db)
    → Fails (body (reap t db))
    → Refused db (transaction t body db)
unfolding transaction
refused t body db (e, h) = rw h ((e, refl), refl)

bind-Fails {ℓ κ} :
    {A : Type ℓ} {B : Type κ} (m : Result A) (f : A → Result B) → Fails m → Fails (m >>= f)
bind-Fails m f (e, h) = (e, rw h refl)

reaped-idle :
    (t : ℕ) (j : Job) (l : ℕ)
    → is_active j.status ≡ true
    → j.lease_until ≡ some l
    → l ≤ t
    → is_active (reaped t j).status ≡ false
reaped-idle t j l a u h = ground (arith, le→leb l t h)

-- Once the time of a running job's lease is over, no call under any lease renews it, adds to its
-- log or publishes an artifact for it: each of these raises, and the tables stay as they were.
pub lease_over :
    (db : Db) (i : String) (j : Job) (l t : ℕ) (lease : String) (now : ℕ) (seq : ℤ)
    (text name sha : String)
    → find (by_id i) db.jobs ≡ some j
    → is_active j.status ≡ true
    → j.lease_until ≡ some l
    → l ≤ t
    → Refused db (heartbeat i lease t now db)
      × Refused db (append_log i lease seq text t db)
      × Refused db (publish i lease name sha t db)
unfolding heartbeat heartbeat_tx append_log append_log_tx publish publish_tx
lease_over db i j l t lease now seq text name sha e a u h =
    let none_owns =
      owned-Fails i lease (reap t db) (reaped t j) (reap-find t db i j e)
        (reaped-idle t j l a u h) in
    (
      refused t (heartbeat_tx i lease now) db (bind-Fails (owned i lease (reap t db)) _ none_owns),
      refused t (append_log_tx i lease seq text) db
          (bind-Fails (owned i lease (reap t db)) _ none_owns),
      refused t (publish_tx i lease name sha) db
          (bind-Fails (owned i lease (reap t db)) _ none_owns),
    )
