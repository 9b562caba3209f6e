-- ===== src/Runner/Measured.antt =====
-- What a comparison of macqueue/runner.py measures, and in which order.
use macqueue.Base.{
  ◌∙◌, ap, refl, ℕ, nat_eq, String, Option, List, [], ◌∷◌, ◌++◌, map, ok, ◌≡◌, sym, subst,
}
use macqueue.Base.Actions.{◌>>=◌, ◌>>◌, next, lift, modify, return, for_each}
use macqueue.Json.{Json}
use macqueue.Runner.Comparing.{
  Outside, Step, Benchmark, Place, Phase, warmup, sample, Line, readiness, measured, Command,
  counts_of, verify_frozen, run_sessions, close_each, compare_workers, compare, write_line,
  open_session, start_process, close_process, measure, pair, run_round, upto, enumerate, order_of,
  requests_of,
}
use macqueue.Runner.Planned.{
  places, concat_map, place_of, planned_order, order-planned, planned_round, planned_workers,
  planned, Adds, append_nil, places-append, for_each-Adds, for_each-quiet, >>=-Adds, >>-Adds,
  then_quiet-Adds, for_each_single-Adds, lift-Adds, reads-Adds, finally-Adds,
}

module _ (o : Outside) where
  write_line-Adds :
      (line : Line) (s : Benchmark) → Adds (places (line ∷ [])) s (write_line o line s)
  unfolding write_line modify
  write_line-Adds line s =
      >>-Adds [] (places (line ∷ [])) _ _ s (lift-Adds (o.write line) s)
        (λ t. places-append t.lines (line ∷ []))

  -- A change of what does not stand in the output.
  aside-Adds :
      (f : Benchmark → Benchmark) (s : Benchmark) → (f s).lines ≡ s.lines → Adds [] s (modify f s)
  unfolding modify
  aside-Adds f s same = ap places same ∙ sym (append_nil (places s.lines))

  start-Adds :
      (variant : String) (workers : ℕ) (cmd : Command) (s : Benchmark)
      → Adds [] s (start_process o variant workers cmd s)
  unfolding start_process
  start-Adds variant workers cmd s = >>-Adds [] [] _ _ s (lift-Adds _ s) (λ t. aside-Adds _ t refl)

  close-Adds : (c : String × ℕ) (s : Benchmark) → Adds [] s (close_process o c s)
  unfolding close_process
  close-Adds c s = >>-Adds [] [] _ _ s (lift-Adds _ s) (λ t. aside-Adds _ t refl)

  open_session-Adds :
      (step : Step) (workers : ℕ) (c : String × Command) (s : Benchmark)
      → Adds [] s (open_session o step workers c s)
  unfolding open_session
  open_session-Adds step workers (variant, cmd) s =
      >>-Adds [] [] _ _ s (start-Adds variant workers _ s) (λ t.
        >>-Adds [] [] _ _ t (aside-Adds _ t refl) (λ u.
          >>=-Adds [] [] _ _ u (lift-Adds _ u) (λ ready v.
            >>-Adds [] [] _ _ v (lift-Adds _ v)
              (λ w. write_line-Adds (readiness variant workers ready) w))))

  measure-Adds :
      (step : Step) (expanded : Option Json) (order : List String) (request : Json) (place : Place)
      (s : Benchmark)
      → Adds (place ∷ []) s (measure o step expanded order request place s)
  unfolding measure
  measure-Adds step expanded order request place s =
      >>-Adds [] (place ∷ []) _ _ s (lift-Adds _ s) (λ t.
        >>=-Adds [] (place ∷ []) _ _ t (lift-Adds _ t) (λ cmd u.
          >>=-Adds [] (place ∷ []) _ _ u (lift-Adds _ u) (λ result v.
            >>=-Adds [] (place ∷ []) _ _ v (lift-Adds _ v)
              (λ identity w. write_line-Adds (measured place order request identity result _) w))))

  pair-Adds :
      (step : Step) (workers : ℕ) (phase : Phase) (index : ℕ) (r : ℕ × Json) (s : Benchmark)
      → Adds
          (map (place_of workers phase index r.0) (planned_order index))
          s
          (pair o step workers phase index r s)
  unfolding pair
  pair-Adds step workers phase index (request_index, request) s =
      let placed = map (place_of workers phase index request_index) (planned_order index) in
      >>=-Adds [] placed _ _ s (reads-Adds _ s) (λ live t.
        >>=-Adds [] placed _ _ t (lift-Adds _ t) (λ expanded u.
          subst
            (λ order. Adds (map (place_of workers phase index request_index) order) u (
              for_each
                (λ variant.
                  measure o step expanded (order_of index) request
                    (place_of workers phase index request_index variant))
                (order_of index) u))
            (order-planned index)
            (for_each_single-Adds (place_of workers phase index request_index) _ (order_of index) u
              (λ variant v.
                measure-Adds step expanded (order_of index) request
                  (place_of workers phase index request_index variant) v))))

  round-Adds :
      (step : Step) (workers : ℕ) (phase : Phase) (index : ℕ) (s : Benchmark)
      → Adds (planned_round step workers phase index) s (run_round o step workers phase index s)
  unfolding run_round
  round-Adds step workers phase index s =
      for_each-Adds (λ r. map (place_of workers phase index r.0) (planned_order index)) _
        (enumerate 0 (requests_of step)) s (λ r t. pair-Adds step workers phase index r t)

  sessions-Adds :
      (step : Step) (workers : ℕ) (s : Benchmark)
      → Adds (planned_workers step workers) s (run_sessions o step workers s)
  unfolding run_sessions
  sessions-Adds step workers s =
      let warm = concat_map (planned_round step workers warmup) (upto step.warmups) in
      let taken = concat_map (planned_round step workers sample) (upto step.samples) in
      >>-Adds [] (warm ++ taken) _ _ s
        (for_each-quiet (open_session o step workers) _ s
          (λ c t. open_session-Adds step workers c t))
        (λ t.
          >>-Adds warm taken _ _ t
            (for_each-Adds (planned_round step workers warmup) _ (upto step.warmups) t
              (λ index u. round-Adds step workers warmup index u))
            (λ u.
              then_quiet-Adds taken _ _ u
                (for_each-Adds (planned_round step workers sample) _ (upto step.samples) u
                  (λ index v. round-Adds step workers sample index v))
                (λ v.
                  >>=-Adds [] [] _ _ v (reads-Adds _ v)
                    (λ sessions w. for_each-quiet _ sessions w (λ c x. lift-Adds _ x)))))

  close_each-Adds :
      (sessions : List (String × ℕ)) (s : Benchmark) → Adds [] s (close_each o sessions s)
  unfolding close_each return
  close_each-Adds [] s = sym (append_nil (places s.lines))
  close_each-Adds (c ∷ rest) s = >>-Adds [] [] _ _ s (close-Adds c s) (λ t. close_each-Adds rest t)

  workers-Adds :
      (step : Step) (workers : ℕ) (s : Benchmark)
      → Adds (planned_workers step workers) s (compare_workers o step workers s)
  unfolding compare_workers
  workers-Adds step workers s =
      >>-Adds [] (planned_workers step workers) _ _ s (aside-Adds _ s refl) (λ t.
        finally-Adds (planned_workers step workers) _ _ t (sessions-Adds step workers t)
          (λ u. >>=-Adds [] [] _ _ u (reads-Adds _ u) (λ sessions v. close_each-Adds sessions v)))

  binary-Adds : (c : String × Command) (s : Benchmark) → Adds [] s (verify_frozen o c s)
  unfolding verify_frozen
  binary-Adds c s =
      >>-Adds [] [] _ _ s (lift-Adds _ s)
        (λ t. >>=-Adds [] [] _ _ t (lift-Adds _ t) (λ actual u. lift-Adds _ u))

  after_counts :
      (step : Step) (counts : List ℕ) (s : Benchmark)
      → Adds (planned step counts) s (
          (for_each (verify_frozen o) step.commands
              >> (lift o.create >> for_each (compare_workers o step) counts))
            s)
  after_counts step counts s =
      >>-Adds [] (planned step counts) _ _ s
        (for_each-quiet (verify_frozen o) step.commands s binary-Adds)
        (λ t. >>-Adds [] (planned step counts) _ _ t (lift-Adds o.create t) (λ u.
          for_each-Adds (planned_workers step) (compare_workers o step) counts u
            (workers-Adds step)))

  -- When the worker counts of a step are resolved, a comparison that returns has added to its output
  -- the measurements at the planned places, in that order, and no other: for each count the warmups
  -- and then the samples, in each round each request with both variants, the baseline first in the
  -- rounds of an even index and the candidate first in the others.
  pub compare-places :
      (step : Step) (counts : List ℕ) (st : Benchmark)
      → counts_of o [] step.worker_counts st ≡ (ok counts, st)
      → Adds (planned step counts) st (compare o step st)
  unfolding compare ◌>>=◌
  compare-places step counts st resolved =
      subst
        (λ r. Adds (planned step counts) st (
          next r (λ cs.
            for_each (verify_frozen o) step.commands
            >> (lift o.create >> for_each (compare_workers o step) cs))))
        (sym resolved) (after_counts step counts st)
