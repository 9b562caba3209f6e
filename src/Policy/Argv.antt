-- ===== src/Policy/Argv.antt =====
-- `Policy.expand` and `Policy.argv` of macqueue/policy.py. The tools are the worker's; what the disk
-- says of a path below a job is an argument.
use macqueue.Base.{
  ℕ, zero, suc, ◌-◌, String, Bool, not, Option, none, some, List, [], ◌∷◌, ◌==◌, string_eq,
  if◌then◌else◌, Result, ok, err, key_error, type_error, ◌>>=◌, ◌>>◌, require,
}
use macqueue.Base.Files.{Files, find_file}
use macqueue.Base.Text.{size, starts_with, contains_text, drop_prefix, append}

-- `s.replace(old, new)` after `skip` more characters of an occurrence, for an `old` that is not empty.
abbrev replace_from : ℕ → String → String → String → String
replace_from skip old new String.[] = String.[]
replace_from (suc skip) old new (String.◌∷◌ c s) = replace_from skip old new s
replace_from zero old new (String.◌∷◌ c s) =
    let kept = String.◌∷◌ c (replace_from 0 old new s) in
    let taken = append new (replace_from (size old - 1) old new s) in
    if starts_with (String.◌∷◌ c s) old then taken else kept

abbrev pub replace_text : String → String → String → String
replace_text s old new = replace_from 0 old new s

abbrev pub with_workers : Option String → String → String
with_workers none s = s
with_workers (some workers) s = replace_text s "${WORKERS}" workers

-- The root and the workers as texts.
unfoldable pub expand : String → Option String → String → Result String
expand root workers value = do
  let expanded = with_workers workers (replace_text value "${JOB}" root)
  require (not (contains_text expanded "${")) "unknown template variable"
  ok expanded

unfoldable pub expand_all : String → Option String → List String → Result (List String)
expand_all root workers [] = ok []
expand_all root workers (a ∷ rest) = do
  a' ← expand root workers a
  rest' ← expand_all root workers rest
  ok (a' ∷ rest')

abbrev pub or_key_missing : String → Option String → Result String
or_key_missing key none = err (key_error key)
or_key_missing key (some path) = ok path

module _ (tools : Files String) (safe_path : String → Result (Unit {0}))
    (is_file : String → Result Bool) where
  unfoldable pub check_paths : List String → Result (Unit {0})
  check_paths [] = ok tt
  check_paths (a ∷ rest) =
      let later = check_paths rest in
      if starts_with a "${JOB}/" then safe_path (drop_prefix a "${JOB}/") >> later else later

  -- Of the first argument as it stands in the command, and of the expanded arguments.
  unfoldable pub resolve : String → List String → Result (List String)
  resolve program [] = ok []
  resolve program (first ∷ rest) =
      if starts_with program "${JOB}/"
      then (do
        found ← is_file (drop_prefix program "${JOB}/")
        require found "binary is missing"
        ok (first ∷ rest))
      else (do tool ← or_key_missing first (find_file first tools); ok (tool ∷ rest))

  -- The first wrapper is the outermost.
  unfoldable pub wrap : List String → List String → Result (List String)
  wrap [] args = ok args
  wrap (wrapper ∷ rest) args = do
    inner ← wrap rest args
    tool ← or_key_missing wrapper (find_file wrapper tools)
    ok (tool ∷ (if wrapper == "time" then "-l" else "-i") ∷ inner)

  -- A checked command has at least one argument.
  unfoldable pub argv : String → Option String → List String → List String → Result (List String)
  argv root workers [] wrappers = err type_error
  argv root workers (program ∷ given) wrappers = do
    check_paths (program ∷ given)
    expanded ← expand_all root workers (program ∷ given)
    resolved ← resolve program expanded
    wrap wrappers resolved
