-- ===== src/Runner/Closed.antt =====
-- No process of a comparison of macqueue/runner.py is left.
use macqueue.Base.{
  ℕ, String, Option, List, [], ◌∷◌, ◌++◌, Result, ok, err, ◌≡◌, refl, ap, ◌∙◌, string_eq,
  nat_eqb_iff,
}
use macqueue.Base.Actions.{
  Action, ◌>>=◌, ◌>>◌, next, lift, modify, reads, return, for_each, Ends, Ends-either,
  lift-unchanged, reads-unchanged, skip_then-Ends, skip-Ends, for_each-Ends, for_each-unchanged,
  return-unchanged, >>=-unchanged, >>-unchanged, >>-Ends, modify-Ends,
}
use macqueue.Json.{Json}
use macqueue.Runner.Comparing.{
  Outside, Step, Benchmark, Count, Command, Line, readiness, Phase, warmup, sample, Place,
  counts_of, verify_frozen, finally, run_sessions, close_each, compare_workers, compare, without,
  write_line, open_session, start_process, close_process, measure, pair, run_round, order_of,
  enumerate, requests_of,
}

-- No persistent process runs.
abbrev pub AllClosed : Benchmark → Type 0
AllClosed st = st.running ≡ []

-- The processes that run are those that the program will close.
abbrev Known : Benchmark → Type 0
Known st = st.running ≡ st.sessions

without-head : (s : String × ℕ) (rest : List (String × ℕ)) → without s (s ∷ rest) ≡ rest
without-head s rest = rw ((string_eq.eqb_iff s.0 s.0).1 refl, (nat_eqb_iff s.1 s.1).1 refl) refl

module _ (o : Outside) where
  write_line-Known :
      (line : Line) (st : Benchmark) → Known st → Ends Known (λ _. Known) (write_line o line st)
  unfolding write_line modify
  write_line-Known line st h =
      skip_then-Ends Known (λ _. Known) (lift (o.write line)) _ st h (lift-unchanged st _) h

  open_session-Known :
      (step : Step) (workers : ℕ) (c : String × Command) (st : Benchmark)
      → Known st
      → Ends Known (λ _. Known) (open_session o step workers c st)
  unfolding open_session start_process modify
  open_session-Known step workers (variant, cmd) st h =
      let Started : Benchmark → Type 0 = λ t. t.running ≡ t.sessions ++ (variant, workers) ∷ [] in
      >>-Ends Known (λ _. Known) Started (start_process o variant workers _) _ st
        (skip_then-Ends Known (λ _. Started) (lift _) _ st h (lift-unchanged st _)
          (ap (λ l. l ++ (variant, workers) ∷ []) h))
        (λ t q.
          modify-Ends Known (λ _. Known) _ _ t
            (skip-Ends Known (λ _. Known) (lift (o.first variant workers)) _ _ q
              (lift-unchanged _ _)
              (λ ready.
                skip_then-Ends Known (λ _. Known) (lift _) _ _ q (lift-unchanged _ _)
                  (write_line-Known (readiness variant workers ready) _ q))))

  measure-Known :
      (step : Step) (expanded : Option Json) (order : List String) (request : Json) (place : Place)
      (st : Benchmark)
      → Known st
      → Ends Known (λ _. Known) (measure o step expanded order request place st)
  unfolding measure
  measure-Known step expanded order request place st h =
      skip_then-Ends Known (λ _. Known) (lift _) _ st h (lift-unchanged st _)
        (skip-Ends Known (λ _. Known) (lift _) _ st h (lift-unchanged st _)
          (λ cmd.
            skip-Ends Known (λ _. Known) (lift _) _ st h (lift-unchanged st _)
              (λ result.
                skip-Ends Known (λ _. Known) (lift _) _ st h (lift-unchanged st _)
                  (λ identity. write_line-Known _ st h))))

  pair-Known :
      (step : Step) (workers : ℕ) (phase : Phase) (index : ℕ) (r : ℕ × Json) (st : Benchmark)
      → Known st
      → Ends Known (λ _. Known) (pair o step workers phase index r st)
  unfolding pair
  pair-Known step workers phase index (request_index, request) st h =
      skip-Ends Known (λ _. Known) (reads _) _ st h (reads-unchanged st _)
        (λ live.
          skip-Ends Known (λ _. Known) (lift _) _ st h (lift-unchanged st _)
            (λ expanded.
              for_each-Ends Known Known _ (order_of index) st h
                (λ variant t k. measure-Known step expanded (order_of index) request _ t k)))

  round-Known :
      (step : Step) (workers : ℕ) (phase : Phase) (index : ℕ) (st : Benchmark)
      → Known st
      → Ends Known (λ _. Known) (run_round o step workers phase index st)
  unfolding run_round
  round-Known step workers phase index st h =
      for_each-Ends Known Known _ (enumerate 0 (requests_of step)) st h
        (λ r t k. pair-Known step workers phase index r t k)

  lifted-Known :
      (r : Result (Unit {0})) (st : Benchmark) → Known st → Ends Known (λ _. Known) (lift r st)
  unfolding lift
  lifted-Known (err _) st h = h
  lifted-Known (ok _) st h = h

  run_sessions-Known :
      (step : Step) (workers : ℕ) (st : Benchmark)
      → Known st
      → Ends Known (λ _. Known) (run_sessions o step workers st)
  unfolding run_sessions
  run_sessions-Known step workers st h =
      >>-Ends Known (λ _. Known) Known _ _ st
        (for_each-Ends Known Known (open_session o step workers) _ st h
          (λ c t k. open_session-Known step workers c t k))
        (λ t k.
          >>-Ends Known (λ _. Known) Known _ _ t
            (for_each-Ends Known Known (run_round o step workers warmup) _ t k
              (λ index u l. round-Known step workers warmup index u l))
            (λ u l.
              >>-Ends Known (λ _. Known) Known _ _ u
                (for_each-Ends Known Known (run_round o step workers sample) _ u l
                  (λ index v n. round-Known step workers sample index v n))
                (λ v n.
                  skip-Ends Known (λ _. Known) (reads _) _ v n (reads-unchanged v _)
                    (λ sessions.
                      for_each-Ends Known Known _ sessions v n (λ s w p. lifted-Known _ w p)))))

module _ (o : Outside)
    (closes : (variant : String) (workers : ℕ) → o.close variant workers ≡ ok tt) where
  close_each-AllClosed :
      (sessions : List (String × ℕ)) (st : Benchmark)
      → st.running ≡ sessions
      → ((close_each o sessions st).0 ≡ ok tt) × AllClosed (close_each o sessions st).1
  unfolding close_each close_process return ◌>>◌ lift modify
  close_each-AllClosed [] st same = (refl, same)
  close_each-AllClosed (s ∷ rest) st same = rw (closes s.0 s.1) (
      close_each-AllClosed rest (record st { running = without s st.running })
        (ap (without s) same ∙ without-head s rest))

  after_closing :
      (result : Result (Unit {0})) (r : Result (Unit {0}) × Benchmark)
      → AllClosed r.1
      → AllClosed (next r (λ _. lift result)).1
  unfolding lift
  after_closing result (ok _, st) h = h
  after_closing result (err _, st) h = h

  closes_all :
      (m : Action Benchmark (Unit {0})) (st : Benchmark)
      → Known (m st).1
      → AllClosed (finally m (reads (λ t. t.sessions) >>= close_each o) st).1
  unfolding finally ◌>>=◌ ◌>>◌ reads
  closes_all m st known =
      after_closing (m st).0 (close_each o (m st).1.sessions (m st).1)
        (close_each-AllClosed (m st).1.sessions (m st).1 known).1

  ends : (r : Result (Unit {0}) × Benchmark) → AllClosed r.1 → Ends AllClosed (λ _. AllClosed) r
  ends (ok _, st) h = h
  ends (err _, st) h = h

  compare_workers-Ends :
      (step : Step) (workers : ℕ) (st : Benchmark)
      → AllClosed st
      → Ends AllClosed (λ _. AllClosed) (compare_workers o step workers st)
  unfolding compare_workers
  compare_workers-Ends step workers st none_open =
      let fresh = record st { sessions = [] } in
      modify-Ends AllClosed (λ _. AllClosed) _ _ st
        (ends _ (
          closes_all (run_sessions o step workers) fresh
            (Ends-either Known _ (run_sessions-Known o step workers fresh none_open))))

  counts_of-unchanged :
      (listed : List Count) (counts : List ℕ) (st : Benchmark)
      → (counts_of o counts listed st).1 ≡ st
  unfolding counts_of
  counts_of-unchanged [] counts st = return-unchanged st counts
  counts_of-unchanged (c ∷ rest) counts st =
      >>=-unchanged st _ _ (lift-unchanged st _) (λ n. counts_of-unchanged rest _ st)

  verify_frozen-unchanged : (c : String × Command) (st : Benchmark) → (verify_frozen o c st).1 ≡ st
  unfolding verify_frozen
  verify_frozen-unchanged c st =
      >>-unchanged st _ _ (lift-unchanged st _)
        (>>=-unchanged st _ _ (lift-unchanged st _) (λ _. lift-unchanged st _))

  -- If the close of a process never raises, then after `compare`, whether it returns or raises, every
  -- persistent process that it started has been closed, when none ran before.
  pub compare-AllClosed :
      (step : Step) (st : Benchmark) → AllClosed st → AllClosed (compare o step st).1
  unfolding compare
  compare-AllClosed step st none_open = Ends-either AllClosed (compare o step st) (
      skip-Ends AllClosed (λ _. AllClosed) (counts_of o [] step.worker_counts) _ st none_open
        (counts_of-unchanged step.worker_counts [] st)
        (λ counts.
          skip_then-Ends AllClosed (λ _. AllClosed) (for_each (verify_frozen o) step.commands) _ st
            none_open
            (for_each-unchanged st (verify_frozen o) step.commands
              (λ c. verify_frozen-unchanged c st))
            (skip_then-Ends AllClosed (λ _. AllClosed) (lift o.create) _ st none_open
              (lift-unchanged st o.create)
              (for_each-Ends AllClosed AllClosed (compare_workers o step) counts st none_open
                (λ workers t k. compare_workers-Ends step workers t k)))))
