-- ===== src/Policy/Samples.antt =====
-- A command that runs a frozen binary.
use macqueue.Base.{◌≡◌, refl, String, true, false, some, List, [], ◌∷◌, ok}
use macqueue.Base.Files.{Files, find_file}
use macqueue.Common.{relative, text_where}
use macqueue.Json.{obj, end}
use macqueue.Policy.{Config, capability, job_argument}
use macqueue.Policy.Allowed.{Allowed, allow_command-Allowed}
use macqueue.Policy.Argv.{argv, wrap, resolve, check_paths, expand_all, expand}
use macqueue.Policy.Run.{Runnable, argv-Runnable}
use macqueue.Policy.Commands.{
  Texts, allow_command, check_environment, check_executable, check_frozen, check_binary,
}

abbrev config : Config
config = record { capabilities = "benchmark" ∷ []; projects = [] }

abbrev lib : Texts
lib = record { loads = λ _. ok (obj end); lines = λ _. []; decimal = λ _. some 8 }

abbrev binary : String
binary = "${JOB}/artifacts/frozen/candidate/seed-seeker"

abbrev arguments : List String
arguments = "--benchmark" ∷ "8" ∷ "--workers" ∷ "8" ∷ []

allowed : allow_command config lib false binary arguments end "work/checkouts/candidate" "" ≡ ok tt
unfolding allow_command check_environment check_executable check_frozen check_binary capability
    job_argument relative text_where
allowed = refl

allow_command-Allowed_example : Allowed binary arguments "work/checkouts/candidate"
allow_command-Allowed_example =
    allow_command-Allowed config lib false binary arguments end "work/checkouts/candidate" ""
      allowed

abbrev tools : Files String
tools = ("cargo", "/bin/cargo") ∷ ("time", "/usr/bin/time") ∷ []

-- The arguments of a build with 4 workers under `time`.
build_argv :
    argv tools
      (λ _. ok tt)
      (λ _. ok true)
      "/j"
      (some "4")
      ("cargo" ∷ "-j${WORKERS}" ∷ "${JOB}/a" ∷ [])
      ("time" ∷ [])
    ≡ ok ("/usr/bin/time" ∷ "-l" ∷ "/bin/cargo" ∷ "-j4" ∷ "/j/a" ∷ [])
unfolding argv wrap resolve check_paths expand_all expand find_file
build_argv = refl

argv-Runnable_example :
    Runnable tools
      (λ _. ok tt)
      (λ _. ok true)
      "/j"
      (some "4")
      ("cargo" ∷ "-j${WORKERS}" ∷ "${JOB}/a" ∷ [])
      ("time" ∷ [])
      ("/usr/bin/time" ∷ "-l" ∷ "/bin/cargo" ∷ "-j4" ∷ "/j/a" ∷ [])
argv-Runnable_example =
    argv-Runnable tools (λ _. ok tt) (λ _. ok true) "/j" (some "4")
      ("cargo" ∷ "-j${WORKERS}" ∷ "${JOB}/a" ∷ []) ("time" ∷ []) build_argv
