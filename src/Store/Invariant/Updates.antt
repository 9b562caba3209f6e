-- ===== src/Store/Invariant/Updates.antt =====
-- An updated row and an inserted row keep the tables sound.
use macqueue.Base.{
  ◌+◌, ◌≤◌, ◌≡◌, refl, sym, ap, subst, ◌∙◌, String, false, some, List, [], ◌∷◌, ◌++◌, ◌==◌,
  string_eq, arith, eq_of_==, Bool-cases, inl, inr,
}
use macqueue.Base.Lists.{All, All-map, All-append, All-find, find, count, update, count-append}
use macqueue.Base.Updates.{weight, All-update_found, count-update_found}
use macqueue.Store.Rows.{Job, Log, Db, is_active, has_active, by_id, by_key, update_job}
use macqueue.Store.Invariant.{IsRow, IsSound, IsAccounted, Refers, bytes_of}

-- An update of the one row with an id, where the row keeps its id and key.
module _ (db : Db) (v : IsSound db) (i : String) (row : Job) (f : Job → Job)
    (found : find (by_id i) db.jobs ≡ some row) (same_id : (f row).id ≡ row.id)
    (same_key : (f row).request_key ≡ row.request_key) where
  pub update-distinct_ids :
      (j : String) → count (by_id j) (update (by_id i) f db.jobs) ≡ count (by_id j) db.jobs
  update-distinct_ids j = omega (
    arith,
    count-update_found (by_id i) f (by_id j) row db.jobs (v.distinct_ids i) found,
    ap (λ k. weight (k == j)) same_id,
  )

  pub update-distinct_keys :
      (k : String) → count (by_key k) (update (by_id i) f db.jobs) ≡ count (by_key k) db.jobs
  update-distinct_keys k = omega (
    arith,
    count-update_found (by_id i) f (by_key k) row db.jobs (v.distinct_ids i) found,
    ap (λ j. weight (j == k)) same_key,
  )

  pub update-refer :
      (ls : List Log) → All (Refers db.jobs) ls → All (Refers (update (by_id i) f db.jobs)) ls
  update-refer ls h = All-map ls (λ l r. omega (arith, update-distinct_ids l.job_id)) h

  -- The row's new columns must be in order, and only a claim may add an active row.
  pub update_job-IsSound :
      IsRow (f row)
      → (f row).log_bytes ≡ row.log_bytes
      → count has_active db.jobs + weight (is_active (f row).status)
        ≤ 1 + weight (is_active row.status)
      → IsSound (update_job i f db)
  update_job-IsSound ok_row same_bytes room = record {
    rows = All-update_found (by_id i) f IsRow row db.jobs (v.distinct_ids i) found ok_row v.rows;
    one_active =
        omega
          (arith, count-update_found (by_id i) f has_active row db.jobs (v.distinct_ids i) found);
    distinct_ids = λ j. omega (arith, update-distinct_ids j, v.distinct_ids j);
    distinct_keys = λ k. omega (arith, update-distinct_keys k, v.distinct_keys k);
    distinct_logs = v.distinct_logs;
    accounted =
        All-update_found (by_id i) f (IsAccounted db.logs) row db.jobs (v.distinct_ids i) found
          (same_bytes
            ∙ All-find (IsAccounted db.logs) (by_id i) db.jobs row v.accounted found
            ∙ ap (λ k. bytes_of k db.logs) (sym same_id))
          v.accounted;
    refer = update-refer db.logs v.refer;
  }

pub bytes_of-append :
    (i : String) (xs ys : List Log) → bytes_of i (xs ++ ys) ≡ bytes_of i xs + bytes_of i ys
bytes_of-append i [] ys = omega arith
bytes_of-append i (l ∷ xs) ys = omega (arith, bytes_of-append i xs ys)

-- A job that no row stands for has no log chunk.
bytes_of_new :
    (i : String) (jobs : List Job) (ls : List Log)
    → count (by_id i) jobs ≡ 0
    → All (Refers jobs) ls
    → bytes_of i ls ≡ 0
bytes_of_new i jobs [] h r = refl
bytes_of_new i jobs (l ∷ ls) h r = elim (Bool-cases (l.job_id == i)) [
  | inl hit ↦
      let there : 1 ≤ count (by_id i) jobs =
        subst (λ j. 1 ≤ count (by_id j) jobs) (eq_of_== l.job_id i hit) r.0 in
      absurd (omega arith)
  | inr miss ↦ rw miss (omega (arith, bytes_of_new i jobs ls h r.1))
]

pub insert-IsSound :
    (db : Db) (row : Job)
    → IsSound db
    → IsRow row
    → row.log_bytes ≡ 0
    → is_active row.status ≡ false
    → count (by_id row.id) db.jobs ≡ 0
    → count (by_key row.request_key) db.jobs ≡ 0
    → IsSound (record db { jobs = db.jobs ++ row ∷ [] })
insert-IsSound db row v r empty idle new_id new_key = record {
  rows = All-append IsRow db.jobs (row ∷ []) v.rows (r, tt);
  one_active =
      omega (arith, count-append has_active db.jobs (row ∷ []), v.one_active, ap weight idle);
  distinct_ids = λ i. elim (Bool-cases (row.id == i)) [
    | inl hit ↦
        let none_there : count (by_id i) db.jobs ≡ 0 =
          subst (λ j. count (by_id j) db.jobs ≡ 0) (eq_of_== row.id i hit) new_id in
        omega (arith, count-append (by_id i) db.jobs (row ∷ []), ap weight hit)
    | inr miss ↦
        omega (arith, count-append (by_id i) db.jobs (row ∷ []), ap weight miss, v.distinct_ids i)
  ];
  distinct_keys = λ k. elim (Bool-cases (row.request_key == k)) [
    | inl hit ↦
        let none_there : count (by_key k) db.jobs ≡ 0 =
          subst (λ j. count (by_key j) db.jobs ≡ 0) (eq_of_== row.request_key k hit) new_key in
        omega (arith, count-append (by_key k) db.jobs (row ∷ []), ap weight hit)
    | inr miss ↦
        omega (arith, count-append (by_key k) db.jobs (row ∷ []), ap weight miss, v.distinct_keys k)
  ];
  distinct_logs = v.distinct_logs;
  accounted =
      All-append (IsAccounted db.logs) db.jobs (row ∷ []) v.accounted
        (empty ∙ sym (bytes_of_new row.id db.jobs db.logs new_id v.refer), tt);
  refer =
      All-map db.logs (λ l h. omega (arith, count-append (by_id l.job_id) db.jobs (row ∷ [])))
        v.refer;
}
