-- ===== src/Worker/Exclusive.antt =====
-- A worker handles one job at a time, and none after a job whose processes may still run.
use macqueue.Base.{
  String, Bool, true, false, not, ◌&&◌, ◌||◌, Option, none, some, List, [], ◌∷◌, if◌then◌else◌,
  Result, ok, err, ltb, ◌≡◌, refl, sym, subst, ◌∙◌, arith, ◌⊎◌, inl, inr, Bool-cases,
}
use macqueue.Store.Rows.{Status, succeeded}
use macqueue.Worker.Handling.{
  Attempt, answered, refused, broken, retry, Ran, completed, raised, Work, Event, posted, Death,
  in_run, in_report, run_to_end, post_all, Service, is_clean, deliver, artifact_failed,
  final_status, status_of, told, report, begin, end_with, downgrade, unavailable, is_job_id,
  has_failed, handle, Turn, claimed, take_turn, after_turn, loop, run_locked,
}
use macqueue.Worker.Events.{
  IsDone, is_settled, Quiet, Open, Orderly, nothing, closed, fresh, asked, idle, stuck,
}

no_success : (status : Status) → downgrade status ≡ succeeded → ⊥
no_success status h = ground arith

ran_well : (ran : Ran) (reason : Option String) → status_of ran reason ≡ succeeded → ran ≡ completed
ran_well completed reason h = refl
ran_well (raised unconfirmed) reason h = ground arith

accepted :
    (has_artifacts : Bool) (r : Result (Unit {0}))
    → (has_artifacts && has_failed r) ≡ false
    → (has_artifacts ≡ false) ⊎ (r ≡ ok tt)
accepted false r h = inl refl
accepted true (ok tt) h = inr refl
accepted true (err _) h = cc

final_status-IsDone : (work : Work) → final_status work ≡ succeeded → IsDone work
unfolding final_status
final_status-IsDone work h = elim (Bool-cases (artifact_failed work)) [
  | inl failure ↦
      let worse : downgrade (status_of work.ran work.reason) ≡ succeeded = rw failure at h in
      absurd (no_success _ worse)
  | inr fine ↦
      let same : status_of work.ran work.reason ≡ succeeded = rw fine at h in
      (ran_well work.ran work.reason same, accepted work.has_artifacts (deliver work) fine)
]

-- Only the last request may be settled.
Repeats : List (Attempt Status) → Type 0
Repeats [] = Unit
Repeats (a ∷ rest) = ((is_settled a ≡ false) ⊎ (rest ≡ [])) × Repeats rest

either_list-Repeats :
    (b : Bool) (x y : Result Status × List (Attempt Status))
    → (b ≡ true → Repeats x.1)
    → (b ≡ false → Repeats y.1)
    → Repeats (if b then x else y).1
either_list-Repeats true x y h k = h refl
either_list-Repeats false x y h k = k refl

retry-Repeats : (attempts : List (Attempt Status × Bool)) → Repeats (retry attempts).1
unfolding retry Repeats
retry-Repeats [] = tt
retry-Repeats ((answered a, over) ∷ rest) = (inr refl, tt)
retry-Repeats ((refused status, over) ∷ rest) =
    either_list-Repeats (ltb status 500) _ _ (λ _. (inr refl, tt))
      (λ high.
        either_list-Repeats over _ _ (λ _. (inr refl, tt)) (λ _. (inl high, retry-Repeats rest)))
retry-Repeats ((broken, over) ∷ rest) =
    either_list-Repeats over _ _ (λ _. (inr refl, tt)) (λ _. (inl refl, retry-Repeats rest))

post_all-Open :
    (work : Work) (made : List (Attempt Status)) (log : List Event)
    → Repeats made
    → Open false work log
    → (settled : Bool) × Open settled work (post_all work made log)
unfolding Repeats
post_all-Open work [] log r o = (false, o)
post_all-Open work (a ∷ rest) log (inl again, r) o = post_all-Open work rest _ r (
    subst (λ b. Open b work (posted work (final_status work) a ∷ log)) again
      (asked a o (final_status-IsDone work)))
post_all-Open work (a ∷ rest) log (inr last, r) o =
    subst
      (λ more.
        (settled : Bool) × Open settled work
          (post_all work more (posted work (final_status work) a ∷ log)))
      (sym last) (is_settled a, asked a o (final_status-IsDone work))

told-Open :
    (work : Work) (r : Result Status × List (Attempt Status)) (st : Service)
    → Repeats r.1
    → Open false work st.events
    → (settled : Bool) × Open settled work (told work r st).events
told-Open work (err _, made) st r o = post_all-Open work made st.events r o
told-Open work (ok status, made) st r o = post_all-Open work made st.events r o

told_marker :
    (work : Work) (r : Result Status × List (Attempt Status)) (st : Service)
    → (told work r st).marker ≡ st.marker
told_marker work (err _, made) st = refl
told_marker work (ok status, made) st = refl

either-Open :
    (b : Bool) (work : Work) (x y : Service)
    → (settled : Bool) × Open settled work x.events
    → (settled : Bool) × Open settled work y.events
    → (settled : Bool) × Open settled work (if b then x else y).events
either-Open true work x y h k = h
either-Open false work x y h k = k

report-Open :
    (work : Work) (st : Service)
    → Open false work st.events
    → (settled : Bool) × Open settled work (report work st).events
unfolding report
report-Open work st o =
    either-Open work.noted work _ st
      (told-Open work (retry work.finish) _ (retry-Repeats work.finish) o) (false, o)

either_marker :
    (b : Bool) (x y : Service) → x.marker ≡ y.marker → (if b then x else y).marker ≡ y.marker
either_marker true x y h = h
either_marker false x y h = refl

report_marker : (work : Work) (st : Service) → (report work st).marker ≡ st.marker
unfolding report
report_marker work st = either_marker work.noted _ st (told_marker work (retry work.finish) _)

end-Orderly :
    (clean settled : Bool) (work : Work) (st : Service)
    → is_clean work.ran ≡ clean
    → st.marker ≡ true
    → Open settled work st.events
    → Orderly (end_with clean work st)
end-Orderly true settled work st c m o = idle refl (closed o c)
end-Orderly false settled work st c m o = stuck work settled m (inl c) o

run_to_end-Orderly :
    (dies : Option Death) (work : Work) (st : Service)
    → work.dies ≡ dies
    → st.marker ≡ true
    → Open false work st.events
    → Orderly (run_to_end dies work st)
run_to_end-Orderly none work st e m o =
    let (settled, told) = report-Open work st o in
    end-Orderly (is_clean work.ran) settled work (report work st) refl (report_marker work st ∙ m)
      told
run_to_end-Orderly (some in_run) work st e m o = stuck work false m (inr (in_run, e)) o
run_to_end-Orderly (some in_report) work st e m o =
    let (settled, told) = report-Open work st o in
    stuck work settled (report_marker work st ∙ m) (inr (in_report, e)) told

quiet_of : (st : Service) → st.marker ≡ false → Orderly st → Quiet st.events
quiet_of st m (idle _ q) = q
quiet_of st m (stuck work _ there _ _) = let clash : true ≡ false = sym there ∙ m in cc

either-Orderly :
    (b : Bool) (x y : Result (Unit {0}) × Service)
    → (b ≡ true → Orderly x.1)
    → (b ≡ false → Orderly y.1)
    → Orderly (if b then x else y).1
either-Orderly true x y h k = h refl
either-Orderly false x y h k = k refl

handle-Orderly : (work : Work) (st : Service) → Orderly st → Orderly (handle work st).1
unfolding handle
handle-Orderly work st h =
    either-Orderly (not (is_job_id work.id)) _ _ (λ _. h)
      λ _.
        either-Orderly st.marker _ _ (λ _. h)
          λ absent.
            run_to_end-Orderly work.dies work (begin work st) refl refl
              (fresh (quiet_of st absent h))

unavailable_state : {A : Type 0} (reply : Attempt A) (st : Service) → (unavailable reply st).1 ≡ st
unavailable_state (answered _) st = refl
unavailable_state (refused _) st = refl
unavailable_state broken st = refl

claimed-Orderly :
    (turn : Turn) (reply : Attempt (Option Work)) (st : Service)
    → Orderly st
    → Orderly (claimed turn reply st).1
claimed-Orderly turn (answered none) st h = h
claimed-Orderly turn (refused _) st h = h
claimed-Orderly turn broken st h = h
claimed-Orderly turn (answered (some work)) st h =
    either-Orderly (st.stopped || turn.halted) _ _
      (λ _. subst Orderly (sym (unavailable_state turn.declined st)) h)
      (λ _. handle-Orderly work st h)

take_turn-Orderly : (turn : Turn) (st : Service) → Orderly st → Orderly (take_turn turn st).1
unfolding take_turn
take_turn-Orderly turn st h =
    either-Orderly (turn.paused || turn.low_disk) _ _ (λ _. h)
      (λ _. claimed-Orderly turn turn.claim st h)

stopped-Orderly : (b : Bool) (st : Service) → Orderly st → Orderly (record st { stopped = b })
stopped-Orderly b st (idle m q) = idle m q
stopped-Orderly b st (stuck work s m c o) = stuck work s m c o

revived-Orderly :
    (st : Service) → Orderly st → Orderly (record st { stopped = false; dead = false })
revived-Orderly st (idle m q) = idle m q
revived-Orderly st (stuck work s m c o) = stuck work s m c o

after-Orderly :
    (once : Bool) (turn : Turn) (r : Result (Unit {0}) × Service)
    (continue : Service → Result (Unit {0}) × Service)
    → Orderly r.1
    → ((st : Service) → Orderly st → Orderly (continue st).1)
    → Orderly (after_turn once turn r continue).1
after-Orderly true turn (r, st) continue h k = stopped-Orderly _ st h
after-Orderly false turn (r, st) continue h k = k _ (stopped-Orderly _ st h)

loop-Orderly :
    (once : Bool) (turns : List Turn) (st : Service) → Orderly st → Orderly (loop once turns st).1
unfolding loop
loop-Orderly once [] st h = h
loop-Orderly once (turn ∷ turns) st h =
    either-Orderly (st.stopped || st.dead) _ _ (λ _. h)
      λ _.
        after-Orderly once turn (take_turn turn st) (loop once turns) (take_turn-Orderly turn st h)
          (λ t o. loop-Orderly once turns t o)

run_locked-Orderly :
    (once : Bool) (turns : List Turn) (st : Service)
    → Orderly st
    → Orderly (run_locked once turns st).1
unfolding run_locked
run_locked-Orderly once turns st h =
    either-Orderly st.marker _ _ (λ _. h) (λ _. loop-Orderly once turns _ (revived-Orderly st h))

-- One process of the worker after the other, each with its option --once and its turns.
unfoldable pub run_all : List (Bool × List Turn) → Service → Service
run_all [] st = st
run_all ((once, turns) ∷ runs) st = run_all runs (run_locked once turns st).1

run_on-Orderly :
    (runs : List (Bool × List Turn)) (st : Service) → Orderly st → Orderly (run_all runs st)
unfolding run_all
run_on-Orderly [] st h = h
run_on-Orderly ((once, turns) ∷ runs) st h =
    run_on-Orderly runs (run_locked once turns st).1 (run_locked-Orderly once turns st h)

abbrev pub new_service : Service
new_service = record { marker = false; stopped = false; dead = false; receipts = []; events = [] }

-- However the processes of a worker with a new state directory run and die, one after the other,
-- whatever the server answers, jobs do and signals come, no job starts while another is open; all finish
-- requests of a job that was started carry one status, which is a success only if the runner has completed the job and
-- its artifacts, if it has any, were accepted, and no such request follows one that was answered or
-- refused with a status below 500; and either ACTIVE.json is absent and every job has ended, with its
-- processes gone, or it stands, the last job is open because its processes may still run or the worker
-- died while it handled it, and no job has started since.
pub run_all-Orderly : (runs : List (Bool × List Turn)) → Orderly (run_all runs new_service)
run_all-Orderly runs = run_on-Orderly runs new_service (idle refl nothing)
