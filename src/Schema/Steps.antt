-- ===== src/Schema/Steps.antt =====
-- The checks that `validate_job` of macqueue/schema.py makes of one step, operation by operation.
use macqueue.Base.{
  ℕ, String, Bool, false, not, ◌&&◌, ◌||◌, List, [], ◌∷◌, ◌==◌, nat_eq, string_eq, leb,
  if◌then◌else◌, Result, ok, err, invalid, ◌>>=◌, ◌>>◌, require,
}
use macqueue.Base.Text.{size, encoded_size, starts_with, all_chars, is_digit}
use macqueue.Common.{text_where, name, relative}
use macqueue.Json.{Json, str, get_item}
use macqueue.Schema.{output}
use macqueue.Schema.Benchmarks.{compare_step, train_step, profile_step}
use macqueue.Schema.Command.{command, only, is_exactly, is_one_of}

-- The operations that the chain of tests on `op` tells apart.
pub data Op : Type 0 where
  exec metadata provision revoke_source mkdir write copy freeze compare train pgo_import pgo_merge
        profile :
      Op

abbrev pub operations : List (String × Op)
operations =
    ("exec", exec)
    ∷ ("metadata", metadata)
    ∷ ("provision", provision)
    ∷ ("revoke-source", revoke_source)
    ∷ ("mkdir", mkdir)
    ∷ ("write", write)
    ∷ ("copy", copy)
    ∷ ("freeze", freeze)
    ∷ ("compare", compare)
    ∷ ("train", train)
    ∷ ("pgo_import", pgo_import)
    ∷ ("pgo_merge", pgo_merge)
    ∷ ("profile", profile)
    ∷ []

abbrev pub op_named : List (String × Op) → String → Result Op
op_named [] s = err (invalid "unknown operation")
op_named ((n, op) ∷ rest) s = if n == s then ok op else op_named rest s

unfoldable pub op_of : Json → Result Op
op_of (str s) = op_named operations s
op_of _ = err (invalid "unknown operation")

abbrev pub is_lower_hex : ℕ → Bool
is_lower_hex c = is_digit c || leb b'a' c && leb c b'f'

-- `[a-f0-9]{64}`
abbrev pub is_sha256 : String → Bool
is_sha256 s = size s == 64 && all_chars is_lower_hex s

abbrev pub source_step : ℕ → Json → Result (Unit {0})
source_step steps step = do
  only step ("sha256" ∷ []) []
  sha ← get_item step "sha256"
  _ ← text_where is_sha256 "invalid source package SHA-256" sha
  require (steps == 1) "source provisioning/revocation must be a separate job"

unfoldable pub mkdir_step : Json → Result (Unit {0})
mkdir_step step = do
  only step ("path" ∷ []) []
  path ← get_item step "path"
  p ← relative path
  require
      ((starts_with p "work/" || starts_with p "artifacts/")
        && not (starts_with p "artifacts/frozen"))
      "invalid writable path"

unfoldable pub write_step : Json → Result (Unit {0})
write_step step = do
  only step ("path" ∷ "text" ∷ []) []
  path ← get_item step "path"
  _ ← output path
  text ← get_item step "text"
  _ ← text_where (λ s. leb (encoded_size s) 65536) "write exceeds 64 KiB" text
  ok tt

unfoldable pub copy_step : Json → Result (Unit {0})
copy_step step = do
  only step ("source" ∷ "destination" ∷ []) []
  source ← get_item step "source"
  s ← relative source
  require (starts_with s "work/" || starts_with s "artifacts/") "invalid copy source"
  destination ← get_item step "destination"
  _ ← output destination
  ok tt

unfoldable pub freeze_step : Json → Result (Unit {0})
freeze_step step = do
  only step ("variant" ∷ "target_dir" ∷ "profile" ∷ []) []
  variant ← get_item step "variant"
  _ ← name variant
  target ← get_item step "target_dir"
  t ← relative target
  require (starts_with t "work/targets/") "invalid target directory"
  chosen ← get_item step "profile"
  require (is_one_of ("release" ∷ "profiling" ∷ []) chosen) "invalid build profile"

abbrev pub profile_source : String
profile_source = "work/checkouts/candidate/pgo/seed-seeker-aarch64-apple-darwin.profdata"

-- One step of a job of so many steps.
unfoldable pub check_step : ℕ → Op → Json → Result (Unit {0})
check_step steps exec step = do
  only step ("command" ∷ []) []
  cmd ← get_item step "command"
  command false cmd
check_step steps metadata step = only step [] []
check_step steps provision step = source_step steps step
check_step steps revoke_source step = source_step steps step
check_step steps mkdir step = mkdir_step step
check_step steps write step = write_step step
check_step steps copy step = copy_step step
check_step steps freeze step = freeze_step step
check_step steps compare step = compare_step step
check_step steps train step = train_step step
check_step steps pgo_import step = do
  only step ("source" ∷ "sha256" ∷ []) []
  source ← get_item step "source"
  require (is_exactly profile_source source) "only the checked-in target profile may be imported"
  sha ← get_item step "sha256"
  _ ← text_where is_sha256 "profile requires exact SHA-256" sha
  ok tt
check_step steps pgo_merge step = do
  only step ("raw_dir" ∷ "output" ∷ []) []
  raw ← get_item step "raw_dir"
  merged ← get_item step "output"
  require (is_exactly "work/pgo/raw" raw && is_exactly "work/pgo/merged.profdata" merged)
      "PGO paths are fixed below work/pgo/"
check_step steps profile step = profile_step step
