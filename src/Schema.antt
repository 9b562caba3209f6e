-- ===== src/Schema.antt =====
-- macqueue/schema.py: the wire format of a job. Seed requests and output paths; the children model
-- commands, steps and whole jobs.
pub mod Command
pub mod Benchmarks
pub mod Steps
pub mod Jobs
pub mod Paths
pub mod Seeds
pub mod Written
pub mod Writes
pub mod Accepted
mod Samples
use macqueue.Base.{
  ◌≡◌, refl, ℕ, ◌*◌, ◌^◌, ◌-◌, ◌+◌, zero, suc, String, Bool, true, false, not, ◌&&◌, ◌||◌, List, [],
  ◌∷◌, ◌==◌, string_eq, leb, if◌then◌else◌, Result, ok, err, invalid, type_error, ◌>>=◌, ◌>>◌,
  require,
}
use macqueue.Base.Int.{ℤ, pos, negsuc, ltb_ℤ, leb_ℤ}
use macqueue.Base.Lists.{length, any}
use macqueue.Base.Text.{starts_with}
use macqueue.Common.{object, list_where, has, keys, integer, relative, member}
use macqueue.Json.{Json, int, arr, obj, Items, nil, cons, Fields, end, field, from_list, get_item}

abbrev pub max_explicit_seeds : ℕ
max_explicit_seeds = 1048576

abbrev pub max_range_seeds : ℕ
max_range_seeds = 1048576

abbrev pub max_seed : ℕ
max_seed = 2 ^ 64 - 1

-- A loop whose body only checks.
abbrev pub each {ℓ} : {A : Type ℓ} → (A → Result (Unit {0})) → List A → Result (Unit {0})
each check [] = ok tt
each check (x ∷ xs) = check x >> each check xs

-- The sum of two integers that have both been checked to be at least 0.
abbrev pub is_within_uint64 : ℤ → ℤ → Bool
is_within_uint64 (pos start) (pos count) = leb (start + count) (2 ^ 64)
is_within_uint64 _ _ = false

abbrev pub seed : Json → Result (Unit {0})
seed value = do _ ← integer value (pos 0) (pos max_seed) "seed"; ok tt

unfoldable pub range_request : Bool → Json → Result (Unit {0})
range_request allow_range value = do
  require allow_range "seed_range requires a structured compare or train step"
  keys value ("seed_range" ∷ []) []
  item ← get_item value "seed_range"
  keys item ("start" ∷ "count" ∷ []) []
  start ← get_item item "start"
  low ← integer start (pos 0) (pos max_seed) "seed range start"
  count ← get_item item "count"
  n ← integer count (pos 1) (pos max_range_seeds) "seed range count"
  require (is_within_uint64 low n) "seed range exceeds uint64"
  ok tt

abbrev pub seeds_message : String
seeds_message = "seeds must contain 1..1048576 values; use seed_range for larger comparisons"

unfoldable pub explicit_request : Json → Result (Unit {0})
explicit_request value = do
  keys value ("seeds" ∷ []) []
  listed ← get_item value "seeds"
  seeds ←
      list_where (λ xs. leb 1 (length xs) && leb (length xs) max_explicit_seeds) seeds_message
        listed
  each seed seeds

unfoldable pub seed_request : Bool → Json → Result Json
seed_request allow_range value = do
  fields ← object "matching request must be an object" value
  if has "seed_range" fields then range_request allow_range value else explicit_request value
  ok value

-- `list(range(start, start + count))`
abbrev pub seed_items : ℕ → ℕ → Items
seed_items start zero = nil
seed_items start (suc n) = cons (int (pos start)) (seed_items (suc start) n)

-- The range of a checked request, whose bounds are at least 0.
abbrev pub range_items : Json → Json → Result Items
range_items (int (pos start)) (int (pos count)) = ok (seed_items start count)
range_items _ _ = err type_error

unfoldable pub expand_seed_request : Json → Result Json
expand_seed_request value = do
  _ ← seed_request true value
  fields ← object "matching request must be an object" value
  if has "seeds" fields then ok value else do
    item ← get_item value "seed_range"
    start ← get_item item "start"
    count ← get_item item "count"
    items ← range_items start count
    ok (obj (field "seeds" (arr items) end))

abbrev pub reserved : List String
reserved =
    "artifacts/job.json" ∷ "artifacts/worker-result.json" ∷ "artifacts/artifact-manifest.json" ∷ []

unfoldable pub output : Json → Result String
unfolding relative
output value = do
  s ← relative value
  require (starts_with s "artifacts/" && not (starts_with s "artifacts/frozen/"))
      "output must be below artifacts/, outside frozen/"
  require
      (not (member reserved s)
        && not (starts_with s "artifacts/internal/" || starts_with s "artifacts/environment-"))
      "output path is reserved for worker records"
  ok s
