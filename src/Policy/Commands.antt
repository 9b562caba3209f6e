-- ===== src/Policy/Commands.antt =====
-- `command` of macqueue/policy.py: the commands that a worker allows. The argument list and the
-- environment hold texts, as the wire format has checked.
use macqueue.Base.{
  ℕ, ◌^◌, String, Bool, true, false, not, ◌&&◌, ◌||◌, Option, none, some, List, [], ◌∷◌, ◌++◌, ◌==◌,
  nat_eq, string_eq, leb, if◌then◌else◌, is_some, Result, ok, err, invalid, ◌>>=◌, ◌>>◌, require,
}
use macqueue.Base.Lists.{any, all, length}
use macqueue.Base.Text.{append, size, starts_with, drop_prefix, all_chars, split}
use macqueue.Common.{member, is_name_char, is_alphanumeric, object}
use macqueue.Json.{Json, str, Fields, lookup, key_names, count_fields}
use macqueue.Policy.{Config, capability, job_argument}
use macqueue.Schema.{seed_request, each}

abbrev pub same_texts : List String → List String → Bool
same_texts [] [] = true
same_texts (a ∷ xs) (b ∷ ys) = a == b && same_texts xs ys
same_texts _ _ = false

abbrev pub target_text : String
target_text = "aarch64-apple-darwin"

abbrev pub focused_test : List String
focused_test =
    "cargo" ∷ "test" ∷ "--locked" ∷ "--offline" ∷ "-p" ∷ "shpd-seedfinder-core" ∷ "--release" ∷ []

abbrev pub build : List String
build =
    "cargo" ∷ "build" ∷ "--locked" ∷ "--offline" ∷ "--release" ∷ "--target" ∷ target_text ∷ "-p"
    ∷ "shpd-seedfinder-cli" ∷ "-p" ∷ "shpd-seedfinder-ffi" ∷ "--bin" ∷ "seed-seeker" ∷ "--example"
    ∷ "match_benchmark" ∷ []

abbrev pub profile_build : List String
profile_build =
    "cargo" ∷ "build" ∷ "--locked" ∷ "--offline" ∷ "--profile" ∷ "profiling" ∷ "--target"
    ∷ target_text ∷ "-p" ∷ "shpd-seedfinder-cli" ∷ "-p" ∷ "shpd-seedfinder-ffi" ∷ "-p"
    ∷ "shpd-seedfinder-core" ∷ "--bin" ∷ "seed-seeker" ∷ "--example" ∷ "match_benchmark"
    ∷ "--example" ∷ "equivalence" ∷ []

abbrev pub fmt : List String
fmt = "cargo" ∷ "fmt" ∷ "--all" ∷ "--" ∷ "--check" ∷ []

abbrev pub clippy : List String
clippy =
    "cargo" ∷ "clippy" ∷ "--locked" ∷ "--offline" ∷ "--workspace" ∷ "--exclude"
    ∷ "shpd-seedfinder-gtk" ∷ "--all-targets" ∷ "--" ∷ "-D" ∷ "warnings" ∷ []

abbrev pub test : List String
test =
    "cargo" ∷ "test" ∷ "--locked" ∷ "--offline" ∷ "--workspace" ∷ "--exclude"
    ∷ "shpd-seedfinder-gtk" ∷ "--release" ∷ []

abbrev pub text_of : Option Json → String
text_of (some (str s)) = s
text_of _ = ""

-- What Python's library computes: `json.loads` of a text, `str.splitlines`, and the value of a text
-- that `isdecimal` holds of.
pub record Texts : Type 0 where
  pub loads : String → Result Json
  pub lines : String → List String
  pub decimal : String → Option ℕ

abbrev pub profile_output : String
profile_output = "${JOB}/work/pgo/raw/%m-%p.profraw"

abbrev pub use_flags : List String
use_flags =
    "-Cprofile-use=${JOB}/work/pgo/merged.profdata"
    ∷ "-Cprofile-use=${JOB}/work/pgo/checked.profdata" ∷ []

abbrev pub with_warnings : List String → List String
with_warnings [] = []
with_warnings (f ∷ fs) = append f " -Cllvm-args=-pgo-warn-missing-function" ∷ with_warnings fs

abbrev pub check_when : Bool → Result (Unit {0}) → Result (Unit {0})
check_when true check = check
check_when false check = ok tt

abbrev pub checked_path : Result String → Result (Unit {0})
checked_path r = do _ ← r; ok tt

unfoldable pub check_environment : Config → Fields → String → Result (Unit {0})
check_environment config env flags = do
  require
      (all (member ("CARGO_TARGET_DIR" ∷ "RUSTFLAGS" ∷ "LLVM_PROFILE_FILE" ∷ [])) (key_names env))
      "environment variable is not allowlisted"
  check_when (is_some (lookup "CARGO_TARGET_DIR" env))
      (checked_path (job_argument (text_of (lookup "CARGO_TARGET_DIR" env)) "${JOB}/work/targets/"))
  check_when (not (flags == "")) (
      capability config "pgo"
      >> require
          (member ("-Cprofile-generate=${JOB}/work/pgo/raw" ∷ use_flags ++ with_warnings use_flags)
            flags)
          "only fixed PGO RUSTFLAGS are allowed")
  check_when (is_some (lookup "LLVM_PROFILE_FILE" env)) (
      capability config "pgo"
      >> require (text_of (lookup "LLVM_PROFILE_FILE" env) == profile_output)
          "invalid LLVM_PROFILE_FILE")
  require (not (starts_with flags "-Cprofile-generate") || is_some (lookup "LLVM_PROFILE_FILE" env))
      "PGO generation requires LLVM_PROFILE_FILE"

-- `work/checkouts/[A-Za-z0-9_-]+`
abbrev pub is_checkout : String → Bool
is_checkout s =
    starts_with s "work/checkouts/"
    && leb 1 (size (drop_prefix s "work/checkouts/"))
    && all_chars is_name_char (drop_prefix s "work/checkouts/")

abbrev pub is_filter_char : ℕ → Bool
is_filter_char c = is_alphanumeric c || c == b'_' || c == b':' || c == b'.' || c == b'-'

-- `[A-Za-z0-9_:.-]{1,200}`, not an option.
abbrev pub is_filter : String → Bool
is_filter s =
    leb 1 (size s) && leb (size s) 200 && all_chars is_filter_char s && not (starts_with s "-")

abbrev pub is_focused : List String → Bool
is_focused argv = same_texts argv focused_test || ends_focused focused_test argv
  where
    ends_focused : List String → List String → Bool
    ends_focused [] (f ∷ []) = is_filter f
    ends_focused (a ∷ xs) (b ∷ ys) = a == b && ends_focused xs ys
    ends_focused _ _ = false

abbrev pub is_approved : List String → Bool
is_approved argv =
    any (same_texts argv) (build ∷ fmt ∷ clippy ∷ test ∷ profile_build ∷ []) || is_focused argv

unfoldable pub check_cargo :
    Config → List String → Fields → String → String → String → Result (Unit {0})
check_cargo config argv env flags cwd stdin = do
  capability config "cargo"
  require (is_some (lookup "CARGO_TARGET_DIR" env) && is_some (lookup "RUSTFLAGS" env))
      "Cargo requires explicit job target dir and RUSTFLAGS"
  require (is_checkout cwd) "Cargo cwd must be a disposable checkout root"
  check_when (same_texts argv profile_build) (capability config "profiling-build")
  require (is_approved argv) "Cargo argv does not match an approved build/check/test"
  require (flags == "" || any (same_texts argv) (build ∷ profile_build ∷ []))
      "PGO flags apply only to approved builds"
  require (stdin == "") "Cargo stdin must be empty"

abbrev pub last : String → List String → String
last d [] = d
last d (x ∷ xs) = last x xs

abbrev pub is_between : ℕ → ℕ → Option ℕ → Bool
is_between low high none = false
is_between low high (some n) = leb low n && leb n high

abbrev pub request_line : Texts → String → Result (Unit {0})
request_line lib text = do value ← lib.loads text; _ ← seed_request false value; ok tt

-- The checks of one binary's arguments return the text that counts its workers.
abbrev pub seed_seeker : Texts → List String → String → Result String
seed_seeker lib (flag ∷ seeds ∷ option ∷ workers ∷ []) stdin = do
  require (flag == "--benchmark" && option == "--workers") "invalid seed-seeker arguments"
  require (is_between 1 (10 ^ 10) (lib.decimal seeds)) "invalid seed count"
  require (stdin == "") "seed-seeker stdin must be empty"
  ok workers
seed_seeker lib _ stdin = err (invalid "invalid seed-seeker arguments")

abbrev pub match_benchmark : Texts → List String → String → Result String
match_benchmark lib (query ∷ workers ∷ []) stdin = do
  decoded ← lib.loads query
  _ ← object "query must be a JSON object" decoded
  each (request_line lib) (lib.lines stdin)
  ok workers
match_benchmark lib _ stdin = err (invalid "invalid match_benchmark arguments")

abbrev pub equivalence : Config → List String → String → Result String
equivalence config args stdin = do
  capability config "profiling-build"
  require (length args == 0 && stdin == "") "equivalence only supports its default invocation"
  ok "1"

unfoldable pub check_binary : Config → Texts → String → List String → String → Result String
check_binary config lib binary args stdin =
    if binary == "seed-seeker"
    then seed_seeker lib args stdin
    else if binary == "match_benchmark"
    then match_benchmark lib args stdin
    else if binary == "equivalence"
    then equivalence config args stdin
    else err (invalid "binary is not allowlisted")

unfoldable pub check_frozen :
    Config → Texts → Bool → String → List String → String → String → Result (Unit {0})
check_frozen config lib template exe args flags stdin = do
  capability config "benchmark"
  path ← job_argument exe "${JOB}/artifacts/frozen/"
  let parts = split b'/' path
  require (length parts == 4) "binary must be in a frozen variant directory"
  workers ← check_binary config lib (last "" parts) args stdin
  require (workers == "${WORKERS}" && template || is_between 1 1024 (lib.decimal workers))
      "invalid worker count"
  require (flags == "") "RUSTFLAGS are only valid for builds"

abbrev pub inspector_flags : String → List String
inspector_flags exe =
    if exe == "llvm-objdump"
    then "--disassemble" ∷ "--demangle" ∷ "--section-headers" ∷ "--syms" ∷ "--macho"
      ∷ "--full-contents" ∷ []
    else if exe == "nm"
    then "-n" ∷ "-m" ∷ "-C" ∷ "-g" ∷ []
    else "-m" ∷ "-l" ∷ []

abbrev pub all_but_last : List String → List String
all_but_last [] = []
all_but_last (x ∷ []) = []
all_but_last (x ∷ y ∷ ys) = x ∷ all_but_last (y ∷ ys)

unfoldable pub check_inspector : Config → String → List String → Fields → String → Result (Unit {0})
check_inspector config exe args env stdin = do
  capability config "inspect"
  require (leb 1 (length args)) "inspector requires a frozen executable"
  _ ← job_argument (last "" args) "${JOB}/artifacts/frozen/"
  require (all (member (inspector_flags exe)) (all_but_last args)) "invalid inspector arguments"
  require (count_fields env == 0 && stdin == "") "inspection requires empty env/stdin"

unfoldable pub check_templates : Config → List String → Fields → String → Result (Unit {0})
check_templates config more env stdin = do
  capability config "xctrace"
  require (same_texts more ("templates" ∷ [])) "invalid xctrace list"
  require (count_fields env == 0 && stdin == "") "xctrace requires empty env/stdin"

-- What follows the output of an export: `--toc`, or `--xpath` and an expression.
abbrev pub is_selector : List String → Bool
is_selector (flag ∷ []) = flag == "--toc"
is_selector (flag ∷ _ ∷ []) = flag == "--xpath"
is_selector _ = false

unfoldable pub check_export : Config → List String → Fields → String → Result (Unit {0})
check_export config (flag ∷ from ∷ option ∷ to ∷ selector ∷ more) env stdin = do
  capability config "xctrace"
  require (leb (length more) 1 && flag == "--input" && option == "--output")
      "invalid xctrace export"
  _ ← job_argument from "${JOB}/artifacts/"
  out ← job_argument to "${JOB}/artifacts/"
  require (not (starts_with out "artifacts/frozen/")) "cannot export to frozen binaries"
  require (is_selector (selector ∷ more)) "invalid export selector"
  require (count_fields env == 0 && stdin == "") "xctrace requires empty env/stdin"
check_export config _ env stdin =
    capability config "xctrace" >> err (invalid "invalid xctrace export")

unfoldable pub check_xcrun : Config → List String → Fields → String → Result (Unit {0})
check_xcrun config (tool ∷ verb ∷ more) env stdin =
    if tool == "xctrace" && verb == "list"
    then check_templates config more env stdin
    else if tool == "xctrace" && verb == "export"
    then check_export config more env stdin
    else err (invalid "executable is not allowlisted")
check_xcrun config _ env stdin = err (invalid "executable is not allowlisted")

-- The branch that the executable chooses.
unfoldable pub check_executable :
    Config → Texts → Bool → String → List String → Fields → String → String → Result (Unit {0})
check_executable config lib template exe args env cwd stdin =
    let flags = text_of (lookup "RUSTFLAGS" env) in
    if exe == "cargo"
    then check_cargo config (exe ∷ args) env flags cwd stdin
    else if starts_with exe "${JOB}/artifacts/frozen/"
    then check_frozen config lib template exe args flags stdin
    else if member ("llvm-objdump" ∷ "nm" ∷ "size" ∷ []) exe
    then check_inspector config exe args env stdin
    else if exe == "xcrun"
    then check_xcrun config args env stdin
    else err (invalid "executable is not allowlisted")

abbrev pub texts_of : List Json → List String
texts_of [] = []
texts_of (str s ∷ js) = s ∷ texts_of js
texts_of (_ ∷ js) = texts_of js

unfoldable pub allow_command :
    Config → Texts → Bool → String → List String → Fields → String → String → Result (Unit {0})
allow_command config lib template exe args env cwd stdin = do
  check_environment config env (text_of (lookup "RUSTFLAGS" env))
  check_executable config lib template exe args env cwd stdin
