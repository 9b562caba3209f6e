-- ===== src/Schema/Benchmarks.antt =====
-- The checks of a compare, a train and a profile step in `validate_job` of macqueue/schema.py.
use macqueue.Base.{
  String, Bool, true, false, not, ◌&&◌, ◌||◌, Option, none, some, List, [], ◌∷◌, ◌==◌, nat_eq,
  string_eq, leb, if◌then◌else◌, Result, ok, ◌>>=◌, ◌>>◌, require,
}
use macqueue.Base.Int.{pos, leb_ℤ}
use macqueue.Base.Lists.{length, any, all}
use macqueue.Common.{object, list_where, text_where, keys, integer, member}
use macqueue.Json.{Json, bool, int, str, obj, Fields, lookup, get_item}
use macqueue.Schema.{each, seed_request, output}
use macqueue.Schema.Command.{get_or, command, workers_text, only, is_exactly, is_one_of}

unfoldable pub compare_command : Json → Result (Unit {0})
compare_command cmd = do
  command true cmd
  stdin ← get_item cmd "stdin"
  require (is_exactly "" stdin) "compare supplies stdin; command stdin must be empty"
  listed ← get_item cmd "argv"
  argv ← list_where (λ _. true) "argv must contain 1..100 arguments" listed
  require (any (is_exactly workers_text) argv) "compare argv must include WORKERS"

abbrev pub is_worker_count : Json → Bool
is_worker_count (str s) = member ("performance" ∷ "available" ∷ []) s
is_worker_count (int n) = leb_ℤ (pos 1) n && leb_ℤ n (pos 1024)
is_worker_count _ = false

abbrev pub request_only : Json → Result (Unit {0})
unfolding seed_request
request_only r = do _ ← seed_request true r; ok tt

abbrev pub is_ready_value : Json → Bool
is_ready_value (str _) = true
is_ready_value (int _) = true
is_ready_value (bool _) = true
is_ready_value _ = false

-- The `ready` of a compare step, whose value is checked, and of a train step, whose value is not.
unfoldable pub ready : Bool → Json → Option Json → Result (Unit {0})
ready checks_value step none = ok tt
ready checks_value step (some r) = do
  keys r ("field" ∷ "equals" ∷ []) []
  named ← get_item r "field"
  _ ← text_where (λ _. true) "invalid readiness field" named
  equals ← get_item r "equals"
  require (not checks_value || is_ready_value equals) "invalid readiness value"

abbrev pub field_of : Json → String → Option Json
field_of (obj fields) k = lookup k fields
field_of _ k = none

unfoldable pub compare_requests : Json → List Json → Result (Unit {0})
compare_requests mode requests =
    if is_exactly "jsonl" mode
    then require (leb 1 (length requests)) "jsonl mode requires seeds requests"
      >> each request_only requests
    else require (length requests == 0) "process mode does not accept requests"

abbrev pub values : Fields → List Json
values Fields.end = []
values (Fields.field k v fs) = v ∷ values fs

unfoldable pub compare_step : Json → Result (Unit {0})
compare_step step = do
  only step
      ("mode" ∷ "commands" ∷ "worker_counts" ∷ "warmups" ∷ "samples" ∷ "requests" ∷ "output" ∷ [])
      ("ready" ∷ [])
  mode ← get_item step "mode"
  require (is_one_of ("process" ∷ "jsonl" ∷ []) mode) "invalid benchmark mode"
  commands ← get_item step "commands"
  keys commands ("baseline" ∷ "candidate" ∷ []) []
  variants ← object "expected an object" commands
  each compare_command (values variants)
  listed ← get_item step "worker_counts"
  counts ← list_where (λ xs. leb 1 (length xs) && leb (length xs) 16) "invalid worker counts" listed
  require (all is_worker_count counts) "invalid worker count"
  warmups ← get_item step "warmups"
  _ ← integer warmups (pos 0) (pos 100) "warmups"
  samples ← get_item step "samples"
  _ ← integer samples (pos 1) (pos 1000) "samples"
  given ← get_item step "requests"
  requests ← list_where (λ xs. leb (length xs) 100) "invalid requests" given
  compare_requests mode requests
  ready true step (field_of step "ready")
  written ← get_item step "output"
  _ ← output written
  ok tt

unfoldable pub train_step : Json → Result (Unit {0})
train_step step = do
  only step ("command" ∷ "requests" ∷ "output" ∷ []) ("ready" ∷ [])
  cmd ← get_item step "command"
  command false cmd
  stdin ← get_item cmd "stdin"
  require (is_exactly "" stdin) "train supplies stdin"
  given ← get_item step "requests"
  requests ←
      list_where (λ xs. leb 1 (length xs) && leb (length xs) 100)
        "expected 1..100 training requests" given
  each request_only requests
  ready false step (field_of step "ready")
  written ← get_item step "output"
  _ ← output written
  ok tt

unfoldable pub profile_step : Json → Result (Unit {0})
profile_step step = do
  only step ("tool" ∷ "command" ∷ "duration_seconds" ∷ "output" ∷ []) ("template" ∷ [])
  tool ← get_item step "tool"
  require (is_one_of ("sample" ∷ "xctrace" ∷ []) tool) "invalid profiling tool"
  cmd ← get_item step "command"
  command false cmd
  duration ← get_item step "duration_seconds"
  _ ← integer duration (pos 1) (pos 600) "profiling duration"
  written ← get_item step "output"
  _ ← output written
  require
      (is_one_of ("Time Profiler" ∷ "CPU Profiler" ∷ [])
        (get_or step "template" (str "Time Profiler")))
      "invalid trace template"
