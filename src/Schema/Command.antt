-- ===== src/Schema/Command.antt =====
-- `command` of macqueue/schema.py: one command of a job.
use macqueue.Base.{
  String, Bool, true, false, not, ◌&&◌, ◌||◌, Option, none, some, List, [], ◌∷◌, ◌==◌, string_eq,
  leb, if◌then◌else◌, Result, ok, err, type_error, ◌>>=◌, ◌>>◌, require,
}
use macqueue.Base.Int.{pos}
use macqueue.Base.Lists.{length, any, all}
use macqueue.Base.Text.{size, encoded_size, starts_with, contains_text}
use macqueue.Common.{list_where, text_where, keys, integer, relative, member}
use macqueue.Json.{Json, str, arr, obj, Items, lookup, entries, get_item, py_eq}
use macqueue.Schema.{output}

abbrev pub is_text : (String → Bool) → Json → Bool
is_text p (str s) = p s
is_text p _ = false

abbrev pub is_argument : String → Bool
is_argument a = not (contains_text a "\0") && leb (size a) 65536

-- The keys of a decoded object are texts.
abbrev pub is_variable : String × Json → Bool
is_variable entry = is_text (λ v. not (contains_text v "\0") && leb (size v) 1024) entry.1

abbrev pub is_environment : Json → Bool
is_environment (obj fields) = all is_variable (entries fields)
is_environment _ = false

-- What `set(…)` takes: no list and no dict.
abbrev pub is_hashable : Json → Bool
is_hashable (arr _) = false
is_hashable (obj _) = false
is_hashable _ = true

-- `len(values) == len(set(values))`
unfoldable pub are_distinct : List Json → Bool
unfolding py_eq
are_distinct [] = true
are_distinct (x ∷ xs) = not (any (py_eq x) xs) && are_distinct xs

abbrev pub are_wrappers : List Json → Result Bool
unfolding are_distinct
are_wrappers ws =
    if all is_hashable ws
    then ok (are_distinct ws && all (is_text (member ("time" ∷ "caffeinate" ∷ []))) ws)
    else err type_error

unfoldable pub wrappers : Json → Result (Unit {0})
wrappers value = do
  ws ← list_where (λ _. true) "unsupported execution wrapper" value
  supported ← are_wrappers ws
  require supported "unsupported execution wrapper"

abbrev pub or_default : Json → Option Json → Json
or_default j none = j
or_default j (some v) = v

-- `value.get(key, default)` for an object.
abbrev pub get_or : Json → String → Json → Json
get_or (obj fields) key default = or_default default (lookup key fields)
get_or _ key default = default

abbrev pub workers_text : String
workers_text = "${WORKERS}"

unfoldable pub command_paths : Json → Result (Unit {0})
command_paths value = do
  stdout ← get_item value "stdout"
  out ← output stdout
  stderr ← get_item value "stderr"
  errors ← output stderr
  require (not (out == errors)) "stdout and stderr paths must differ"

-- With `template=True` where the command stands in a compare step.
unfoldable pub command : Bool → Json → Result (Unit {0})
command template value = do
  keys value ("argv" ∷ "cwd" ∷ "env" ∷ "stdin" ∷ "timeout_seconds" ∷ "stdout" ∷ "stderr" ∷ [])
      ("wrappers" ∷ [])
  listed ← get_item value "argv"
  argv ←
      list_where (λ xs. leb 1 (length xs) && leb (length xs) 100)
        "argv must contain 1..100 arguments" listed
  require (all (is_text is_argument) argv) "invalid argv"
  directory ← get_item value "cwd"
  cwd ← relative directory
  require (starts_with cwd "work/") "cwd must be under work/"
  env ← get_item value "env"
  require (is_environment env) "invalid env"
  given ← get_item value "stdin"
  _ ← text_where (λ s. leb (encoded_size s) 65536) "stdin exceeds 64 KiB" given
  timeout ← get_item value "timeout_seconds"
  _ ← integer timeout (pos 1) (pos 86400) "command timeout"
  command_paths value
  wrappers (get_or value "wrappers" (arr Items.nil))
  require (template || not (any (is_text (λ a. contains_text a workers_text)) argv))
      "WORKERS is only valid in compare commands"

unfoldable pub only : Json → List String → List String → Result (Unit {0})
only step more optional = keys step ("id" ∷ "op" ∷ more) optional

abbrev pub is_exactly : String → Json → Bool
is_exactly s j = is_text (λ t. t == s) j

abbrev pub is_one_of : List String → Json → Bool
is_one_of names j = is_text (member names) j
