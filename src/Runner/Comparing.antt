-- ===== src/Runner/Comparing.antt =====
-- `Runner.compare` of macqueue/runner.py. What the processes, the disk and the checks between
-- measurements do is an argument; the numbers of cores and the frozen binaries are the runner's.
use macqueue.Base.{
  ℕ, zero, suc, ◌%◌, String, Bool, true, false, not, ◌&&◌, Option, none, some, List, [], ◌∷◌, ◌++◌,
  ◌==◌, nat_eq, string_eq, if◌then◌else◌, is_some, Result, ok, err, invalid, key_error, require,
}
use macqueue.Base.Actions.{Action, ◌>>=◌, ◌>>◌, return, lift, reads, modify, for_each}
use macqueue.Base.Files.{Files, find_file}
use macqueue.Base.Lists.{any}
use macqueue.Base.Text.{append, split}
use macqueue.Json.{Json, null, Fields, lookup, py_eq}
use macqueue.Schema.{expand_seed_request}

-- A count of workers is a number or the name of a kind of core.
pub data Count : Type 0 where
  fixed : ℕ → Count
  cores_of : String → Count

pub record Command : Type 0 where
  pub program : String
  pub stdout : String
  pub stderr : String

pub record Step : Type 0 where
  pub worker_counts : List Count
  pub is_jsonl : Bool
  pub ready : Option (String × Json)
  pub requests : List Json
  pub commands : Files Command
  pub warmups : ℕ
  pub samples : ℕ

pub data Phase : Type 0 where
  warmup sample : Phase

-- The place of a measurement in the loops.
pub record Place : Type 0 where
  pub workers : ℕ
  pub phase : Phase
  pub index : ℕ
  pub request_index : ℕ
  pub variant : String

-- `logs` is the stdout and the stderr of a run command.
pub data Line : Type 0 where
  readiness : String → ℕ → Fields → Line
  measured :
      Place
      → (order : List String) → (request : Json) → (identity : Files String) → Fields
      → (logs : Option (String × String)) → Line

-- The lines of the output whose `record` returned, the `sessions` of the current number of workers,
-- and, outside of the program, the persistent processes that were started and not closed. A process
-- is its variant and its workers.
pub record Benchmark : Type 0 where
  pub lines : List Line
  pub sessions : List (String × ℕ)
  pub running : List (String × ℕ)

pub record Outside : Type 0 where
  pub cores : Files ℕ
  pub frozen : Files (Files String)
  pub digest : String → String → Result String
  pub create : Result (Unit {0})
  pub write : Line → Result (Unit {0})
  pub start : String → ℕ → Command → Result (Unit {0})
  pub first : String → ℕ → Result Fields
  pub check : Place → Result (Unit {0})
  pub ask : Place → Json → Result Fields
  pub execute : Place → Command → Result Fields
  pub finish_session : String → ℕ → Result (Unit {0})
  pub close : String → ℕ → Result (Unit {0})
  -- A number in decimal digits.
  pub decimal : ℕ → String

abbrev or_missing {ℓ} : {A : Type ℓ} → String → Option A → Result A
or_missing key none = err (key_error key)
or_missing key (some a) = ok a

abbrev pub upto : ℕ → List ℕ
upto zero = []
upto (suc n) = upto n ++ n ∷ []

abbrev pub enumerate {ℓ} : {A : Type ℓ} → ℕ → List A → List (ℕ × A)
enumerate i [] = []
enumerate i (a ∷ rest) = (i, a) ∷ enumerate (suc i) rest

-- The first that is equal is left out.
abbrev pub without : String × ℕ → List (String × ℕ) → List (String × ℕ)
without s [] = []
without s (r ∷ rest) =
    let others = without s rest in if r.0 == s.0 && r.1 == s.1 then rest else r ∷ others

-- `try: m finally: k`
unfoldable pub finally : {S A : Type 0} → Action S A → Action S (Unit {0}) → Action S A
unfolding ◌>>=◌ ◌>>◌
finally m k s = let (result, t) = m s in (k >> lift result) t

abbrev is_text : String → Option String → Bool
is_text s none = false
is_text s (some t) = s == t

abbrev pub is_empty {ℓ} : {A : Type ℓ} → List A → Bool
is_empty [] = true
is_empty (_ ∷ _) = false

-- The name of a file: `value.split("/")[-1]`.
abbrev last_of : String → List String → String
last_of s [] = s
last_of _ (t ∷ rest) = last_of t rest

abbrev binary_name : Command → String
binary_name cmd = last_of "" (split b'/' cmd.program)

unfoldable pub sample_command : Command → String → Command
sample_command original suffix = record original {
  stdout = append original.stdout (append "." suffix);
  stderr = append original.stderr (append "." suffix);
}

abbrev is_ready : Option (String × Json) → Fields → Bool
is_ready none ready = true
is_ready (some (field, equals)) ready = elim (lookup field ready) [
  | none ↦ py_eq null equals
  | some v ↦ py_eq v equals
]

abbrev phase_name : Phase → String
phase_name warmup = "warmup"
phase_name sample = "sample"

abbrev pub order_of : ℕ → List String
order_of index =
    if index % 2 == 0 then "baseline" ∷ "candidate" ∷ [] else "candidate" ∷ "baseline" ∷ []

unfoldable pub expand : Bool → Json → Result (Option Json)
unfolding expand_seed_request
expand false request = ok none
expand true request = elim (expand_seed_request request) [
  | err raised ↦ err raised
  | ok expanded ↦ ok (some expanded)
]

abbrev pub requests_of : Step → List Json
requests_of step = if is_empty step.requests then null ∷ [] else step.requests

module _ (o : Outside) where
  abbrev pub count_of : Count → Result ℕ
  count_of (fixed n) = ok n
  count_of (cores_of kind) = elim (find_file kind o.cores) [
    | none ↦ err (invalid "could not determine core count")
    | some n ↦ ok n
  ]

  -- Each count once, in the order of first occurrence.
  unfoldable pub counts_of : List ℕ → List Count → Action Benchmark (List ℕ)
  counts_of counts [] = return counts
  counts_of counts (c ∷ rest) = do
    n ← lift (count_of c)
    counts_of (if any (λ m. m == n) counts then counts else counts ++ n ∷ []) rest

  abbrev manifest_of : String → Files String
  manifest_of variant = elim (find_file variant o.frozen) [ none ↦ [] | some m ↦ m ]

  unfoldable pub verify_frozen : String × Command → Action Benchmark (Unit {0})
  verify_frozen (variant, cmd) = do
    let sha256 = find_file (binary_name cmd) (manifest_of variant)
    lift (require (is_some sha256) "benchmark requires binaries frozen in this job")
    actual ← lift (o.digest variant (binary_name cmd))
    lift (require (is_text actual sha256) "frozen binary checksum changed")

  unfoldable pub write_line : Line → Action Benchmark (Unit {0})
  write_line line = do
    lift (o.write line)
    modify (λ st. record st { lines = st.lines ++ line ∷ [] })

  -- A process that starts runs, whatever the program keeps of it, until it is closed.
  unfoldable pub start_process : String → ℕ → Command → Action Benchmark (Unit {0})
  start_process variant workers cmd = do
    lift (o.start variant workers cmd)
    modify (λ st. record st { running = st.running ++ (variant, workers) ∷ [] })

  unfoldable pub close_process : String × ℕ → Action Benchmark (Unit {0})
  close_process s = do
    lift (o.close s.0 s.1)
    modify (λ st. record st { running = without s st.running })

  unfoldable pub open_session : Step → ℕ → String × Command → Action Benchmark (Unit {0})
  open_session step workers (variant, cmd) = do
    start_process variant workers (sample_command cmd (append "w" (o.decimal workers)))
    modify (λ st. record st { sessions = st.sessions ++ (variant, workers) ∷ [] })
    ready ← lift (o.first variant workers)
    lift (require (is_ready step.ready ready) "unexpected readiness record")
    write_line (readiness variant workers ready)

  abbrev run_suffix : Place → String
  run_suffix p = append "w" (
      append (o.decimal p.workers)
        (append "-" (append (phase_name p.phase) (append "-" (o.decimal p.index)))))

  abbrev ask_or_execute : Place → Command → Option Json → Result Fields
  ask_or_execute place sampled none = o.execute place sampled
  ask_or_execute place sampled (some expanded) = o.ask place expanded

  -- One turn of the innermost loop. With sessions, the expanded request goes to that of the variant.
  unfoldable pub measure :
      Step → Option Json → List String → Json → Place → Action Benchmark (Unit {0})
  measure step expanded order request place = do
    lift (o.check place)
    cmd ← lift (or_missing place.variant (find_file place.variant step.commands))
    let sampled = sample_command cmd (run_suffix place)
    result ← lift (ask_or_execute place sampled expanded)
    identity ← lift (or_missing place.variant (find_file place.variant o.frozen))
    write_line (
        measured place order request identity result
          (if is_some expanded then none else some (sampled.stdout, sampled.stderr)))

  unfoldable pub pair : Step → ℕ → Phase → ℕ → ℕ × Json → Action Benchmark (Unit {0})
  pair step workers phase index (request_index, request) = do
    live ← reads (λ st. not (is_empty st.sessions))
    expanded ← lift (expand live request)
    for_each
        (λ variant. measure step expanded (order_of index) request (record {
          workers = workers;
          phase = phase;
          index = index;
          request_index = request_index;
          variant = variant;
        }))
        (order_of index)

  unfoldable pub run_round : Step → ℕ → Phase → ℕ → Action Benchmark (Unit {0})
  run_round step workers phase index =
      for_each (pair step workers phase index) (enumerate 0 (requests_of step))

  unfoldable pub run_sessions : Step → ℕ → Action Benchmark (Unit {0})
  run_sessions step workers = do
    for_each (open_session step workers) (if step.is_jsonl then step.commands else [])
    for_each (run_round step workers warmup) (upto step.warmups)
    for_each (run_round step workers sample) (upto step.samples)
    sessions ← reads (λ st. st.sessions)
    for_each (λ (s : String × ℕ). lift (o.finish_session s.0 s.1)) sessions

  -- The sessions are closed in their order; an exception leaves the rest.
  unfoldable pub close_each : List (String × ℕ) → Action Benchmark (Unit {0})
  close_each [] = return tt
  close_each (s ∷ rest) = do close_process s; close_each rest

  unfoldable pub compare_workers : Step → ℕ → Action Benchmark (Unit {0})
  compare_workers step workers = do
    modify (λ st. record st { sessions = [] })
    finally (run_sessions step workers)
        (do sessions ← reads (λ st. st.sessions); close_each sessions)

  unfoldable pub compare : Step → Action Benchmark (Unit {0})
  compare step = do
    counts ← counts_of [] step.worker_counts
    for_each verify_frozen step.commands
    lift o.create
    for_each (compare_workers step) counts
