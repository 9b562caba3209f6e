-- ===== src/Store/Invariant/Writes.antt =====
-- A log chunk and the count of bytes in its job's row are written together.
use macqueue.Base.{
  ◌+◌, ◌≤◌, ◌≡◌, refl, ap, ◌∙◌, String, none, some, List, [], ◌∷◌, ◌++◌, ◌==◌, string_eq,
  if◌then◌else◌, arith, ==_sym, &&-eq-true, eq_of_==, Bool-cases, inl, inr,
}
use macqueue.Base.Int.{int_eq, ℤ}
use macqueue.Base.Lists.{All, All-append, All-find, find, count, update, count-append, find-count}
use macqueue.Base.Text.{encoded_size}
use macqueue.Base.Updates.{count_of_find, weight, All-update, All-update_found, count-update_found}
use macqueue.Store.Rows.{Job, Log, Db, has_active, by_id, update_job}
use macqueue.Store.Leases.{add_bytes, at_seq, max_log_bytes}
use macqueue.Store.Invariant.{IsRow, IsSound, IsAccounted, Refers}
use macqueue.Store.Invariant.Updates.{
  update-distinct_ids, update-distinct_keys, update-refer, bytes_of-append,
}
use macqueue.Store.Invariant.Rows.{add_bytes-IsRow}

-- A new log chunk, counted in its job's row.
write-IsAccounted :
    (logs : List Log) (i : String) (seq : ℤ) (text : String) (jobs : List Job)
    → All (IsAccounted logs) jobs
    → All
        (IsAccounted (logs ++ record { job_id = i; seq = seq; text = text } ∷ []))
        (update (by_id i) (add_bytes (encoded_size text)) jobs)
write-IsAccounted logs i seq text jobs h =
    let chunk : Log = record { job_id = i; seq = seq; text = text } in
    All-update (by_id i) (add_bytes (encoded_size text)) (IsAccounted logs)
      (IsAccounted (logs ++ chunk ∷ [])) jobs
      (λ j e hit. omega (
        arith,
        e,
        bytes_of-append j.id logs (chunk ∷ []),
        ap (λ b. if b then encoded_size text else 0) (==_sym i j.id ∙ hit),
      ))
      (λ j e miss. omega (
        arith,
        e,
        bytes_of-append j.id logs (chunk ∷ []),
        ap (λ b. if b then encoded_size text else 0) (==_sym i j.id ∙ miss),
      ))
      h

pub write-IsSound :
    (db : Db) (i : String) (row : Job) (seq : ℤ) (text : String)
    → IsSound db
    → find (by_id i) db.jobs ≡ some row
    → find (at_seq i seq) db.logs ≡ none
    → row.log_bytes + encoded_size text ≤ max_log_bytes
    → IsSound (
        update_job i
          (add_bytes (encoded_size text))
          (record db { logs = db.logs ++ record { job_id = i; seq = seq; text = text } ∷ [] }))
write-IsSound db i row seq text v found fresh fits =
    let chunk : Log = record { job_id = i; seq = seq; text = text } in
    let f = add_bytes (encoded_size text) in
    let old = All-find IsRow (by_id i) db.jobs row v.rows found in
    record {
      rows =
          All-update_found (by_id i) f IsRow row db.jobs (v.distinct_ids i) found
            (add_bytes-IsRow row (encoded_size text) old fits) v.rows;
      one_active = omega (
        arith,
        v.one_active,
        count-update_found (by_id i) f has_active row db.jobs (v.distinct_ids i) found,
      );
      distinct_ids =
          λ j. omega (arith, update-distinct_ids db v i row f found refl refl j, v.distinct_ids j);
      distinct_keys = λ k.
          omega (arith, update-distinct_keys db v i row f found refl refl k, v.distinct_keys k);
      distinct_logs = λ j q. elim (Bool-cases (at_seq j q chunk)) [
        | inl hit ↦
            let both = &&-eq-true (i == j) (seq == q) hit in
            let empty = count_of_find (at_seq i seq) db.logs fresh in
            let none_there : count (at_seq j q) db.logs ≡ 0 =
              rw (← eq_of_== i j both.0, ← eq_of_== seq q both.1) empty in
            omega (arith, count-append (at_seq j q) db.logs (chunk ∷ []), ap weight hit)
        | inr miss ↦ omega (
          arith,
          count-append (at_seq j q) db.logs (chunk ∷ []),
          ap weight miss,
          v.distinct_logs j q,
        )
      ];
      accounted = write-IsAccounted db.logs i seq text db.jobs v.accounted;
      refer = update-refer db v i row f found refl refl (db.logs ++ chunk ∷ []) (
          All-append (Refers db.jobs) db.logs (chunk ∷ []) v.refer
            (find-count (by_id i) row db.jobs found, tt));
    }
