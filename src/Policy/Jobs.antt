-- ===== src/Policy/Jobs.antt =====
-- `validate` of macqueue/policy.py: a whole job, after the wire format's own check.
use macqueue.Base.{
  ℕ, String, Bool, true, false, List, [], ◌∷◌, ◌==◌, string_eq, if◌then◌else◌, Result, ok, err,
  type_error, ◌>>=◌, ◌>>◌, require, zero, suc,
}
use macqueue.Base.Text.{append, starts_with}
use macqueue.Common.{member, object, list_where, text_where}
use macqueue.Json.{Json, str, arr, obj, Fields, end, field, get_item, py_eq, Items}
use macqueue.Policy.{Config, capability}
use macqueue.Policy.Commands.{Texts, allow_command, texts_of}
use macqueue.Schema.{each}
use macqueue.Schema.Command.{is_exactly, get_or}
use macqueue.Schema.Jobs.{validate_job}
use macqueue.Schema.Steps.{
  Op, exec, provision, revoke_source, compare, train, pgo_import, pgo_merge, profile, op_of,
}

abbrev pub text : Json → Result String
text value = text_where (λ _. true) "" value

abbrev pub with_texts : List String → (String → List String → Result (Unit {0})) → Result (Unit {0})
with_texts [] check = err type_error
with_texts (exe ∷ args) check = check exe args

-- `self.command(cmd, template=…)`, and what it is given: the parts of a checked command.
unfoldable pub allow : Config → Texts → Bool → Json → Result (Unit {0})
allow config lib template cmd = do
  listed ← get_item cmd "argv"
  argv ← list_where (λ _. true) "" listed
  environment ← get_item cmd "env"
  env ← object "" environment
  directory ← get_item cmd "cwd"
  cwd ← text directory
  given ← get_item cmd "stdin"
  stdin ← text given
  with_texts (texts_of argv) (λ exe args. allow_command config lib template exe args env cwd stdin)

abbrev pub argument : ℕ → List String → String
argument n [] = ""
argument zero (x ∷ xs) = x
argument (suc n) (x ∷ xs) = argument n xs

-- `cmd["argv"][n]` of a checked command.
abbrev pub argument_of : ℕ → Json → Result String
argument_of n cmd = do
  listed ← get_item cmd "argv"
  argv ← list_where (λ _. true) "" listed
  ok (argument n (texts_of argv))

abbrev pub frozen_path : String → Json → String
frozen_path variant mode =
    append "${JOB}/artifacts/frozen/"
      (append variant (if is_exactly "jsonl" mode then "/match_benchmark" else "/seed-seeker"))

unfoldable pub allow_variants : Config → Texts → Json → Fields → Result (Unit {0})
allow_variants config lib mode end = ok tt
allow_variants config lib mode (field variant cmd rest) = do
  allow config lib true cmd
  exe ← argument_of 0 cmd
  require (exe == frozen_path variant mode) "compare must use frozen variant binaries"
  allow_variants config lib mode rest

abbrev pub is_empty : Json → Bool
is_empty (arr Items.nil) = true
is_empty _ = false

unfoldable pub allow_profile : Config → Texts → Json → Result (Unit {0})
allow_profile config lib step = do
  named ← get_item step "tool"
  tool ← text named
  capability config tool
  cmd ← get_item step "command"
  allow config lib false cmd
  exe ← argument_of 0 cmd
  require (starts_with exe "${JOB}/artifacts/frozen/") "profile only frozen job binaries"
  require (is_empty (get_or cmd "wrappers" (arr Items.nil)))
      "profiling commands cannot have wrappers"
  stdin ← get_item cmd "stdin"
  require (is_exactly "" stdin) "profiling commands require empty stdin"

abbrev pub profile_environment : Json
profile_environment = obj (field "LLVM_PROFILE_FILE" (str "${JOB}/work/pgo/raw/%m-%p.profraw") end)

unfoldable pub allow_train : Config → Texts → Json → Result (Unit {0})
unfolding py_eq
allow_train config lib step = do
  capability config "pgo"
  cmd ← get_item step "command"
  allow config lib false cmd
  exe ← argument_of 0 cmd
  require (exe == "${JOB}/artifacts/frozen/training/match_benchmark")
      "train requires the frozen training adapter"
  workers ← argument_of 2 cmd
  require (workers == "1") "PGO training uses one worker for non-atomic counters"
  env ← get_item cmd "env"
  require (py_eq env profile_environment) "train requires the fixed profile output"

unfoldable pub allow_step : Config → Texts → Op → Json → Result (Unit {0})
allow_step config lib provision step =
    capability config "source-provision" >> capability config "cargo"
allow_step config lib revoke_source step =
    capability config "source-provision" >> capability config "cargo"
allow_step config lib exec step = do cmd ← get_item step "command"; allow config lib false cmd
allow_step config lib compare step = do
  capability config "benchmark"
  commands ← get_item step "commands"
  variants ← object "" commands
  mode ← get_item step "mode"
  allow_variants config lib mode variants
allow_step config lib profile step = allow_profile config lib step
allow_step config lib train step = allow_train config lib step
allow_step config lib pgo_merge step = capability config "pgo"
allow_step config lib pgo_import step = capability config "pgo"
allow_step config lib _ step = ok tt

abbrev pub allow_named : Config → Texts → Json → Result (Unit {0})
allow_named config lib step = do
  named ← get_item step "op"
  op ← op_of named
  allow_step config lib op step

unfoldable pub validate : Config → Texts → (ℕ → ℕ) → Json → Result Json
validate config lib real_size spec = do
  _ ← validate_job real_size spec
  given ← get_item spec "project"
  project ← text given
  require (member config.projects project) "project is not allowlisted on this worker"
  listed ← get_item spec "steps"
  steps ← list_where (λ _. true) "" listed
  each (allow_named config lib) steps
  ok spec
