-- ===== src/Store/Idempotence.antt =====
-- Retries: a submission, a completion and a log chunk that are sent again have the reply of the
-- first time and change nothing, whatever other calls came between.
pub mod Submission
pub mod Completion
pub mod Logging
use macqueue.Base.{ℕ, ◌≡◌, refl, ◌∙◌, sym, ap, String, Result, ok, err, arith}
use macqueue.Store.Rows.{Db, Tx, commit, transaction, reap}

module _ {ℓ} {A : Type ℓ} where
  commit-eq-ok :
      (db : Db) (r : Result (A × Db)) (a : A) (db' : Db)
      → ◌≡◌ {A = Result A × Db} (commit db r) (ok a, db')
      → r ≡ ok (a, db')
  commit-eq-ok db (ok (b, after)) a db' h = cc (ap (λ t. t.0) h, ap (λ t. t.1) h)
  commit-eq-ok db (err e) a db' h = let clash : err e ≡ ok a = ap (λ t. t.0) h in cc

  -- What a transaction that returned has committed.
  pub transaction-eq-ok :
      (t : ℕ) (body : Tx A) (db : Db) (a : A) (db' : Db)
      → ◌≡◌ {A = Result A × Db} (transaction t body db) (ok a, db')
      → body (reap t db) ≡ ok (a, db')
  unfolding transaction
  transaction-eq-ok t body db a db' h = commit-eq-ok db (body (reap t db)) a db' h
