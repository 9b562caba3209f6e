-- ===== src/Policy.antt =====
-- macqueue/policy.py: what a worker allows of a job that the wire format accepts. The configuration
-- is the capabilities and the projects of the worker; the sandbox and the search for tools are not
-- modelled.
pub mod Commands
pub mod Jobs
pub mod Allowed
pub mod Argv
pub mod Run
mod Samples
use macqueue.Base.{
  ℕ, ◌+◌, String, Bool, true, false, not, ◌&&◌, ◌||◌, Option, none, some, List, [], ◌∷◌, ◌++◌, ◌==◌,
  nat_eq, string_eq, leb, ltb, if◌then◌else◌, Result, ok, err, invalid, ◌>>=◌, ◌>>◌, require,
}
use macqueue.Base.Lists.{any, all, length}
use macqueue.Base.Text.{starts_with, drop_prefix}
use macqueue.Common.{member, relative}
use macqueue.Json.{Json, str}

pub record Config : Type 0 where
  pub capabilities : List String
  pub projects : List String

abbrev known_capabilities : List String
known_capabilities =
    "cargo" ∷ "benchmark" ∷ "inspect" ∷ "profiling" ∷ "profiling-build" ∷ "sample" ∷ "xctrace"
    ∷ "pgo" ∷ "source-provision" ∷ []

-- The check of the constructor.
unfoldable pub check_config : Config → Result (Unit {0})
check_config config =
    require (all (member known_capabilities) config.capabilities) "unknown capability"

unfoldable pub capability : Config → String → Result (Unit {0})
capability config cap =
    require
      (member config.capabilities cap
        || member ("profiling-build" ∷ "sample" ∷ "xctrace" ∷ []) cap
          && member config.capabilities "profiling")
      "capability disabled locally"

-- `job_argument(value, prefix)`, given "${JOB}/" + prefix. The path, relative to the job.
unfoldable pub job_argument : String → String → Result String
job_argument value prefix = do
  require (starts_with value prefix) "expected a job path"
  relative (str (drop_prefix value "${JOB}/"))
