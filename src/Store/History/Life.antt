-- ===== src/Store/History/Life.antt =====
-- The life of one job through any sequence of calls.
use macqueue.Base.{
  ◌⊎◌, ℕ, ◌≤◌, ◌≡◌, refl, sym, ap, subst, ◌∙◌, String, Bool, true, some, List, [], ◌∷◌, ◌==◌,
  string_eq, if◌then◌else◌, arith, eq_of_==, Bool-cases, inl, inr,
}
use mathlib.Core.Option
use macqueue.Base.Lists.{find, update}
use macqueue.Base.Updates.{
  find-update, find-update_found, find-update_apart, find_passes, find-append, any_of_find,
}
use macqueue.Base.Text.{encoded_size}
use macqueue.Store.Rows.{
  cancelled, Status, queued, running, cancel_requested, Job, Db, is_active, is_terminal, by_id,
  reap, overdue, expire, lapsed, lapse,
}
use macqueue.Store.Queue.{new_job, start}
use macqueue.Store.Leases.{add_bytes}
use macqueue.Store.Steps.{
  Change, same, inserts, starts, steps, writes, RowStep, cancels, requests, renews, publishes,
  completes,
}
use macqueue.Store.Invariant.{IsSound}
use macqueue.Store.Invariant.Changes.{reap-IsSound}
use macqueue.Store.History.{Call, step, run}
use macqueue.Store.History.Sound.{Commits, rolls_back, changes, step-Commits, step-IsSound}

-- How far a job has come.
abbrev pub phase : Status → ℕ
phase queued = 0
phase running = 1
phase cancel_requested = 2
phase _ = 3

abbrev pub IsCancelling : Status → Type 0
IsCancelling s = (s ≡ cancel_requested) ⊎ (s ≡ cancelled)

-- What may have become of a row: what was submitted stays, the status only moves on, and a row that
-- has ended is as it was.
pub record Evolves (j k : Job) : Type 0 where
  pub id : k.id ≡ j.id
  pub spec : k.spec ≡ j.spec
  pub request_key : k.request_key ≡ j.request_key
  pub created : k.created ≡ j.created
  pub expires : k.expires ≡ j.expires
  pub onward : phase j.status ≤ phase k.status
  pub ended : is_terminal j.status ≡ true → k ≡ j
  pub cancelling : j.status ≡ cancel_requested → IsCancelling k.status

Evolves-refl : (j : Job) → Evolves j j
Evolves-refl j = ground arith

Evolves-trans : (j k l : Job) → Evolves j k → Evolves k l → Evolves j l
Evolves-trans j k l v w = record {
  id = w.id ∙ v.id;
  spec = w.spec ∙ v.spec;
  request_key = w.request_key ∙ v.request_key;
  created = w.created ∙ v.created;
  expires = w.expires ∙ v.expires;
  onward = omega (arith, v.onward, w.onward);
  cancelling = λ h. onward_cancelling (v.cancelling h);
  ended = λ h. w.ended (ap (λ m. is_terminal m.status) (v.ended h) ∙ h) ∙ v.ended h;
}
  where
    onward_cancelling : IsCancelling k.status → IsCancelling l.status
    onward_cancelling (inl h) = w.cancelling h
    onward_cancelling (inr h) = inr (ap (λ m. m.status) (w.ended (ap is_terminal h)) ∙ h)

RowStep-Evolves : {j k : Job} → RowStep j k → Evolves j k
RowStep-Evolves (cancels now h) = ground arith
RowStep-Evolves (requests h) = ground arith
RowStep-Evolves (renews now h) = ground arith
RowStep-Evolves (publishes name sha h) = ground arith
RowStep-Evolves (completes status result now h t a c) = ground arith

start-Evolves :
    (j : Job) (worker lease : String) (now : ℕ)
    → j.status ≡ queued
    → Evolves j (start worker lease now j)
start-Evolves j worker lease now h = ground arith

add_bytes-Evolves : (j : Job) (n : ℕ) → is_active j.status ≡ true → Evolves j (add_bytes n j)
add_bytes-Evolves j n h = ground arith

expire-Evolves : (now : ℕ) (j : Job) → overdue now j ≡ true → Evolves j (expire now j)
expire-Evolves now j h = ground arith

lapse-Evolves : (now : ℕ) (j : Job) → lapsed now j ≡ true → Evolves j (lapse now j)
lapse-Evolves now j h = ground arith

-- The row with an id is still there, and has evolved.
pub record Stays (i : String) (j : Job) (jobs : List Job) : Type 0 where
  pub row : Job
  pub found : find (by_id i) jobs ≡ some row
  pub evolved : Evolves j row

update-Stays :
    (db : Db) (i h : String) (j row : Job) (f : Job → Job)
    → IsSound db
    → find (by_id i) db.jobs ≡ some j
    → find (by_id h) db.jobs ≡ some row
    → Evolves row (f row)
    → Stays i j (update (by_id h) f db.jobs)
update-Stays db i h j row f v e found st = elim (Bool-cases (row.id == i)) [
  | inl hit ↦
      let same_id : h ≡ i =
        sym (eq_of_== row.id h (find_passes (by_id h) f row db.jobs found))
        ∙ eq_of_== row.id i hit in
      let same_row : some row ≡ some j = sym found ∙ ap (λ k. find (by_id k) db.jobs) same_id ∙ e in
      record {
        row = f row;
        found = rw same_id (
            find-update_found (by_id i) f row db.jobs (ap (λ k. k == i) st.id ∙ hit)
              (ap (λ k. find (by_id k) db.jobs) (sym same_id) ∙ found));
        evolved = subst (λ k. Evolves k (f row)) (cc) st;
      }
  | inr miss ↦ record {
    row = j;
    found =
        find-update_apart (by_id h) f (by_id i) row db.jobs (v.distinct_ids h) found miss
          (ap (λ k. k == i) st.id ∙ miss)
        ∙ e;
    evolved = Evolves-refl j;
  }
]

Change-Stays :
    {db db' : Db} (i : String) (j : Job)
    → Change db db'
    → IsSound db
    → find (by_id i) db.jobs ≡ some j
    → Stays i j db'.jobs
Change-Stays i j same v e = record { row = j; found = e; evolved = Evolves-refl j }
Change-Stays {db} i j (inserts job_id spec key now expires_in a b) v e = record {
  row = j;
  found =
      find-append (by_id i) db.jobs (new_job job_id spec key now expires_in ∷ [])
      ∙ rw (any_of_find (by_id i) j db.jobs e) e;
  evolved = Evolves-refl j;
}
Change-Stays {db} i j (starts row worker lease now idle found ready) v e =
    update-Stays db i row.id j row (start worker lease now) v e found
      (start-Evolves row worker lease now ready)
Change-Stays {db} i j (steps h row f found st) v e =
    update-Stays db i h j row f v e found (RowStep-Evolves st)
Change-Stays {db} i j (writes h row seq text found active fresh fits) v e =
    update-Stays db i h j row (add_bytes (encoded_size text)) v e found
      (add_bytes-Evolves row (encoded_size text) active)

-- One sweep of the reaping.
sweep-Stays :
    (p : Job → Bool) (f : Job → Job) (jobs : List Job) (i : String) (j : Job)
    → ((k : Job) → (f k).id ≡ k.id)
    → ((k : Job) → p k ≡ true → Evolves k (f k))
    → find (by_id i) jobs ≡ some j
    → Stays i j (update p f jobs)
sweep-Stays p f jobs i j same_id evolves e = record {
  row = if p j then f j else j;
  found =
      find-update p f (by_id i) jobs (λ k. ap (λ n. n == i) (same_id k))
      ∙ ap (Option.map (λ k. if p k then f k else k)) e;
  evolved = elim (Bool-cases (p j)) [
    | inl hit ↦ rw hit (evolves j hit)
    | inr miss ↦ rw miss (Evolves-refl j)
  ];
}

Stays-trans :
    {i : String} {j : Job} {jobs after : List Job}
    → (first : Stays i j jobs) → Stays i first.row after
    → Stays i j after
Stays-trans {j} first second = record {
  row = second.row;
  found = second.found;
  evolved = Evolves-trans j first.row second.row first.evolved second.evolved;
}

pub reap-Stays :
    (now : ℕ) (db : Db) (i : String) (j : Job)
    → find (by_id i) db.jobs ≡ some j
    → Stays i j (reap now db).jobs
unfolding reap
reap-Stays now db i j e =
    let first =
      sweep-Stays (overdue now) (expire now) db.jobs i j (λ k. refl) (expire-Evolves now) e in
    Stays-trans first (
      sweep-Stays (lapsed now) (lapse now) (update (overdue now) (expire now) db.jobs) i first.row
        (λ k. refl) (lapse-Evolves now) first.found)

step-Stays :
    (db : Db) (c : ℕ × Call) (i : String) (j : Job)
    → IsSound db
    → find (by_id i) db.jobs ≡ some j
    → Stays i j (step db c).jobs
step-Stays db (t, c) i j v e = after (step-Commits db t c v)
  where
    after : {db' : Db} → Commits t db db' → Stays i j db'.jobs
    after rolls_back = record { row = j; found = e; evolved = Evolves-refl j }
    after (changes ch) =
        let reaped = reap-Stays t db i j e in
        Stays-trans reaped (Change-Stays i reaped.row ch (reap-IsSound t db v) reaped.found)

-- From sound tables, through any sequence of submissions, claims, cancellations, heartbeats, log
-- chunks, artifacts and completions, with the reaping of each, and as long as no prune deletes it, the
-- row of a job is never lost; its id, its spec, its request key and its times of creation and expiry
-- never change; its status moves only forward (queued, running, cancel requested, ended), so that no
-- job is run a second time; and a row that has ended is left exactly as it was. A job that was asked to
-- cancel never ends but as cancelled.
pub run-Stays :
    (db : Db) (cs : List (ℕ × Call)) (i : String) (j : Job)
    → IsSound db
    → find (by_id i) db.jobs ≡ some j
    → Stays i j (run db cs).jobs
unfolding run
run-Stays db [] i j v e = record { row = j; found = e; evolved = Evolves-refl j }
run-Stays db (c ∷ cs) i j v e =
    let first = step-Stays db c i j v e in
    Stays-trans first (run-Stays (step db c) cs i first.row (step-IsSound db c v) first.found)
