-- ===== src/Schema/Writes.antt =====
-- What `validate_job` of macqueue/schema.py guarantees of the paths of a step.
use macqueue.Base.{
  ◌≡◌, refl, ap, ◌∙◌, ℕ, String, Bool, true, false, not, ◌||◌, List, [], ◌∷◌, ◌++◌, ok, >>=-eq-ok,
  >>-eq-ok, require-eq-ok, require-true, arith, &&-eq-true, Bool-cases, inl, inr, ok_injective,
  eq_of_==, string_eq,
}
use macqueue.Base.Lists.{All, All-append}
use macqueue.Base.Text.{starts_with}
use macqueue.Common.{keys, relative, name, integer, text_where, list_where, object}
use macqueue.Json.{Json, str, obj, Fields, get_item}
use macqueue.Schema.{output, each}
use macqueue.Schema.Benchmarks.{
  compare_step, compare_command, compare_requests, train_step, profile_step, values, request_only,
  ready,
}
use macqueue.Schema.Command.{command, command_paths, only, is_exactly}
use macqueue.Schema.Paths.{
  Writable, output-Writable, relative-Confined, below-Confined, text-eq-ok, starts_with_trans,
}
use macqueue.Schema.Steps.{
  Op, exec, metadata, provision, revoke_source, mkdir, write, copy, freeze, compare, train,
  pgo_import, pgo_merge, profile, check_step, mkdir_step, write_step, copy_step, freeze_step,
}
use macqueue.Schema.Written.{
  text_at, command_writes, writes, all_writes, writes_of, command_at, frozen_at, MayWrite,
}

at-Writable :
    (j : Json) (k : String) {v : Json} {s : String}
    → get_item j k ≡ ok v
    → (v ≡ str s) × Writable s
    → All Writable (text_at j k)
at-Writable j k {v} {s} e (text, w) = rw (e, text) (w, tt)

output_at :
    (j : Json) (k : String) {v : Json} {s : String}
    → get_item j k ≡ ok v
    → output v ≡ ok s
    → All Writable (text_at j k)
output_at j k {v} e h = at-Writable j k e (output-Writable v h)

command_paths-Writable :
    (cmd : Json) → command_paths cmd ≡ ok tt → All Writable (command_writes cmd)
unfolding command_paths
command_paths-Writable cmd h =
    let (_, e₁, h₁) = >>=-eq-ok (get_item cmd "stdout") _ h in
    let (_, o₁, h₂) = >>=-eq-ok (output _) _ h₁ in
    let (_, e₂, h₃) = >>=-eq-ok (get_item cmd "stderr") _ h₂ in
    let (_, o₂, _) = >>=-eq-ok (output _) _ h₃ in
    All-append Writable (text_at cmd "stdout") (text_at cmd "stderr") (output_at cmd "stdout" e₁ o₁)
      (output_at cmd "stderr" e₂ o₂)

command-Writable :
    (template : Bool) (cmd : Json)
    → command template cmd ≡ ok tt
    → All Writable (command_writes cmd)
unfolding command
command-Writable template cmd h =
    let (_, h₁) = >>-eq-ok (keys cmd _ _) _ h in
    let (_, _, h₂) = >>=-eq-ok (get_item cmd "argv") _ h₁ in
    let (_, _, h₃) = >>=-eq-ok (list_where _ _ _) _ h₂ in
    let (_, h₄) = require-eq-ok _ _ _ h₃ in
    let (_, _, h₅) = >>=-eq-ok (get_item cmd "cwd") _ h₄ in
    let (_, _, h₆) = >>=-eq-ok (relative _) _ h₅ in
    let (_, h₇) = require-eq-ok _ _ _ h₆ in
    let (_, _, h₈) = >>=-eq-ok (get_item cmd "env") _ h₇ in
    let (_, h₉) = require-eq-ok _ _ _ h₈ in
    let (_, _, i₁) = >>=-eq-ok (get_item cmd "stdin") _ h₉ in
    let (_, _, i₂) = >>=-eq-ok (text_where _ _ _) _ i₁ in
    let (_, _, i₃) = >>=-eq-ok (get_item cmd "timeout_seconds") _ i₂ in
    let (_, _, i₄) = >>=-eq-ok (integer _ _ _ _) _ i₃ in
    let (done, _) = >>-eq-ok (command_paths cmd) _ i₄ in command_paths-Writable cmd done

under-command :
    (template : Bool) (step : Json) {cmd : Json}
    → get_item step "command" ≡ ok cmd
    → command template cmd ≡ ok tt
    → All Writable (command_at (get_item step "command"))
under-command template step {cmd} e h = rw e (command-Writable template cmd h)

mkdir-Writable : (step : Json) → mkdir_step step ≡ ok tt → All Writable (text_at step "path")
unfolding mkdir_step
mkdir-Writable step h =
    let (_, h₁) = >>-eq-ok (only step _ _) _ h in
    let (v, e, h₂) = >>=-eq-ok (get_item step "path") _ h₁ in
    let (p, r, h₃) = >>=-eq-ok (relative v) _ h₂ in
    let top = require-true _ _ h₃ in
    let (text, inside) = relative-Confined v r in
    let (place, outside) = &&-eq-true (starts_with p "work/" || starts_with p "artifacts/") _ top in
    at-Writable step "path" e (text, (inside, place, not-frozen p outside))
  where
    not-frozen :
        (p : String)
        → not (starts_with p "artifacts/frozen") ≡ true
        → starts_with p "artifacts/frozen/" ≡ false
    not-frozen p h = elim (Bool-cases (starts_with p "artifacts/frozen/")) [
      | inl under ↦
          let at = starts_with_trans p "artifacts/frozen/" "artifacts/frozen" refl under in
          ground arith
      | inr other ↦ other
    ]

write-Writable : (step : Json) → write_step step ≡ ok tt → All Writable (text_at step "path")
unfolding write_step
write-Writable step h =
    let (_, h₁) = >>-eq-ok (only step _ _) _ h in
    let (_, e, h₂) = >>=-eq-ok (get_item step "path") _ h₁ in
    let (_, o, _) = >>=-eq-ok (output _) _ h₂ in output_at step "path" e o

copy-Writable : (step : Json) → copy_step step ≡ ok tt → All Writable (text_at step "destination")
unfolding copy_step
copy-Writable step h =
    let (_, h₁) = >>-eq-ok (only step _ _) _ h in
    let (_, _, h₂) = >>=-eq-ok (get_item step "source") _ h₁ in
    let (_, _, h₃) = >>=-eq-ok (relative _) _ h₂ in
    let (_, h₄) = require-eq-ok _ _ _ h₃ in
    let (_, e, h₅) = >>=-eq-ok (get_item step "destination") _ h₄ in
    let (_, o, _) = >>=-eq-ok (output _) _ h₅ in output_at step "destination" e o

each-Writable :
    (cmds : List Json) → each compare_command cmds ≡ ok tt → All Writable (all_writes cmds)
unfolding compare_command
each-Writable [] h = tt
each-Writable (cmd ∷ cmds) h =
    let (one, rest) = >>-eq-ok (compare_command cmd) _ h in
    let (c, _) = >>-eq-ok (command true cmd) _ one in
    All-append Writable (command_writes cmd) (all_writes cmds) (command-Writable true cmd c)
      (each-Writable cmds rest)

object-eq-ok :
    (message : String) (j : Json) {fields : Fields} → object message j ≡ ok fields → j ≡ obj fields
unfolding object
object-eq-ok message (obj fs) {fields} h = ap obj (ok_injective fs fields h)
object-eq-ok message _ h = cc

compare-Writable :
    (step : Json)
    → compare_step step ≡ ok tt
    → All Writable (writes_of (get_item step "commands") ++ text_at step "output")
unfolding compare_step
compare-Writable step h =
    let (_, h₁) = >>-eq-ok (only step _ _) _ h in
    let (mode, _, h₂) = >>=-eq-ok (get_item step "mode") _ h₁ in
    let (_, h₃) = require-eq-ok _ _ _ h₂ in
    let (commands, e, h₄) = >>=-eq-ok (get_item step "commands") _ h₃ in
    let (_, h₅) = >>-eq-ok (keys commands _ _) _ h₄ in
    let (variants, o, h₆) = >>=-eq-ok (object _ commands) _ h₅ in
    let (checked, h₇) = >>-eq-ok (each compare_command (values variants)) _ h₆ in
    let (_, _, h₈) = >>=-eq-ok (get_item step "worker_counts") _ h₇ in
    let (_, _, h₉) = >>=-eq-ok (list_where _ _ _) _ h₈ in
    let (_, i₁) = require-eq-ok _ _ _ h₉ in
    let (_, _, i₂) = >>=-eq-ok (get_item step "warmups") _ i₁ in
    let (_, _, i₃) = >>=-eq-ok (integer _ _ _ _) _ i₂ in
    let (_, _, i₄) = >>=-eq-ok (get_item step "samples") _ i₃ in
    let (_, _, i₅) = >>=-eq-ok (integer _ _ _ _) _ i₄ in
    let (_, _, i₆) = >>=-eq-ok (get_item step "requests") _ i₅ in
    let (_, _, i₇) = >>=-eq-ok (list_where _ _ _) _ i₆ in
    let (_, i₈) = >>-eq-ok (compare_requests mode _) _ i₇ in
    let (_, i₉) = >>-eq-ok (ready _ _ _) _ i₈ in
    let (_, w, j₁) = >>=-eq-ok (get_item step "output") _ i₉ in
    let (_, r, _) = >>=-eq-ok (output _) _ j₁ in
    let found : get_item step "commands" ≡ ok (obj variants) =
      e ∙ ap ok (object-eq-ok _ commands o) in
    All-append Writable (writes_of (get_item step "commands")) (text_at step "output")
      (rw found (each-Writable (values variants) checked)) (output_at step "output" w r)

train-Writable :
    (step : Json)
    → train_step step ≡ ok tt
    → All Writable (command_at (get_item step "command") ++ text_at step "output")
unfolding train_step
train-Writable step h =
    let (_, h₁) = >>-eq-ok (only step _ _) _ h in
    let (cmd, e, h₂) = >>=-eq-ok (get_item step "command") _ h₁ in
    let (c, h₃) = >>-eq-ok (command false cmd) _ h₂ in
    let (_, _, h₄) = >>=-eq-ok (get_item cmd "stdin") _ h₃ in
    let (_, h₅) = require-eq-ok _ _ _ h₄ in
    let (_, _, h₆) = >>=-eq-ok (get_item step "requests") _ h₅ in
    let (_, _, h₇) = >>=-eq-ok (list_where _ _ _) _ h₆ in
    let (_, h₈) = >>-eq-ok (each request_only _) _ h₇ in
    let (_, h₉) = >>-eq-ok (ready _ _ _) _ h₈ in
    let (_, w, i₁) = >>=-eq-ok (get_item step "output") _ h₉ in
    let (_, r, _) = >>=-eq-ok (output _) _ i₁ in
    All-append Writable (command_at (get_item step "command")) (text_at step "output")
      (under-command false step e c) (output_at step "output" w r)

profile-Writable :
    (step : Json)
    → profile_step step ≡ ok tt
    → All Writable (command_at (get_item step "command") ++ text_at step "output")
unfolding profile_step
profile-Writable step h =
    let (_, h₁) = >>-eq-ok (only step _ _) _ h in
    let (_, _, h₂) = >>=-eq-ok (get_item step "tool") _ h₁ in
    let (_, h₃) = require-eq-ok _ _ _ h₂ in
    let (cmd, e, h₄) = >>=-eq-ok (get_item step "command") _ h₃ in
    let (c, h₅) = >>-eq-ok (command false cmd) _ h₄ in
    let (_, _, h₆) = >>=-eq-ok (get_item step "duration_seconds") _ h₅ in
    let (_, _, h₇) = >>=-eq-ok (integer _ _ _ _) _ h₆ in
    let (_, w, h₈) = >>=-eq-ok (get_item step "output") _ h₇ in
    let (_, r, _) = >>=-eq-ok (output _) _ h₈ in
    All-append Writable (command_at (get_item step "command")) (text_at step "output")
      (under-command false step e c) (output_at step "output" w r)

exec-Writable :
    (step : Json)
    → check_step 1 exec step ≡ ok tt
    → All Writable (command_at (get_item step "command"))
unfolding check_step
exec-Writable step h =
    let (_, h₁) = >>-eq-ok (only step _ _) _ h in
    let (cmd, e, h₂) = >>=-eq-ok (get_item step "command") _ h₁ in under-command false step e h₂

freeze-MayWrite :
    (step : Json)
    → freeze_step step ≡ ok tt
    → All (MayWrite freeze) (frozen_at (get_item step "variant"))
unfolding freeze_step name
freeze-MayWrite step h =
    let (_, h₁) = >>-eq-ok (only step _ _) _ h in
    let (v, e, h₂) = >>=-eq-ok (get_item step "variant") _ h₁ in
    let (variant, n, _) = >>=-eq-ok (text_where _ _ v) _ h₂ in
    let (text, valid) = text-eq-ok _ _ v n in rw (e, text) ((variant, valid, refl), tt)

exact : (s : String) (v : Json) → is_exactly s v ≡ true → v ≡ str s
exact s (str t) h = ap str (eq_of_== t s h)
exact s _ h = cc

merge-Writable :
    (step : Json) → check_step 1 pgo_merge step ≡ ok tt → All Writable (text_at step "output")
unfolding check_step
merge-Writable step h =
    let (_, h₁) = >>-eq-ok (only step _ _) _ h in
    let (raw, _, h₂) = >>=-eq-ok (get_item step "raw_dir") _ h₁ in
    let (merged, e, h₃) = >>=-eq-ok (get_item step "output") _ h₂ in
    let (_, same) = &&-eq-true (is_exactly "work/pgo/raw" raw) _ (require-true _ _ h₃) in
    at-Writable step "output" e (
      exact "work/pgo/merged.profdata" merged same,
      (below-Confined "work/pgo/merged.profdata" refl, refl, refl),
    )

-- Every path that an accepted step writes to in the directory of its job is confined to work/ or
-- artifacts/, outside the frozen binaries, or is the directory of a frozen variant.
pub check_step-MayWrite :
    (steps : ℕ) (op : Op) (step : Json)
    → check_step steps op step ≡ ok tt
    → All (MayWrite op) (writes op step)
unfolding check_step
check_step-MayWrite steps exec step h = exec-Writable step h
check_step-MayWrite steps mkdir step h = mkdir-Writable step h
check_step-MayWrite steps write step h = write-Writable step h
check_step-MayWrite steps copy step h = copy-Writable step h
check_step-MayWrite steps freeze step h = freeze-MayWrite step h
check_step-MayWrite steps compare step h = compare-Writable step h
check_step-MayWrite steps train step h = train-Writable step h
check_step-MayWrite steps profile step h = profile-Writable step h
check_step-MayWrite steps pgo_import step h = (
  (below-Confined "work/pgo/checked.profdata" refl, refl, refl),
  ((below-Confined "artifacts/pgo/checked.profdata" refl, refl, refl), tt),
)
check_step-MayWrite steps pgo_merge step h = merge-Writable step h
check_step-MayWrite steps metadata step h = tt
check_step-MayWrite steps provision step h = tt
check_step-MayWrite steps revoke_source step h = tt
