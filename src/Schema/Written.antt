-- ===== src/Schema/Written.antt =====
-- The paths that a step of a job names to be written (macqueue/schema.py `validate_job`, whose paths
-- runner.py opens).
use macqueue.Base.{◌≡◌, String, true, List, [], ◌∷◌, ◌++◌, Result, ok, err, string_eq}
use macqueue.Base.Text.{append}
use macqueue.Common.{is_name}
use macqueue.Json.{Json, str, obj, get_item}
use macqueue.Schema.Benchmarks.{values}
use macqueue.Schema.Paths.{Writable}
use macqueue.Schema.Steps.{
  Op, exec, metadata, provision, revoke_source, mkdir, write, copy, freeze, compare, train,
  pgo_import, pgo_merge, profile,
}

abbrev pub as_texts : Result Json → List String
as_texts (ok (str s)) = s ∷ []
as_texts _ = []

-- The text under a key, if there is one.
abbrev pub text_at : Json → String → List String
text_at j k = as_texts (get_item j k)

abbrev pub command_writes : Json → List String
command_writes cmd = text_at cmd "stdout" ++ text_at cmd "stderr"

abbrev pub all_writes : List Json → List String
all_writes [] = []
all_writes (cmd ∷ cmds) = command_writes cmd ++ all_writes cmds

-- The commands of a field: that of an exec step, or those of the variants of a compare step.
abbrev pub writes_of : Result Json → List String
writes_of (ok (obj fields)) = all_writes (values fields)
writes_of _ = []

abbrev pub command_at : Result Json → List String
command_at (ok cmd) = command_writes cmd
command_at (err _) = []

abbrev pub frozen_at : Result Json → List String
frozen_at (ok (str variant)) = append "artifacts/frozen/" variant ∷ []
frozen_at _ = []

-- The paths of the job's directory that the operation of a step creates or opens for writing, where
-- the step or the operation names them. The records of the worker are not among them. A provision
-- and a revocation change the mirrors of the worker, outside the directory.
abbrev pub writes : Op → Json → List String
writes exec step = command_at (get_item step "command")
writes mkdir step = text_at step "path"
writes write step = text_at step "path"
writes copy step = text_at step "destination"
writes freeze step = frozen_at (get_item step "variant")
writes compare step = writes_of (get_item step "commands") ++ text_at step "output"
writes train step = command_at (get_item step "command") ++ text_at step "output"
writes profile step = command_at (get_item step "command") ++ text_at step "output"
writes pgo_import step = "work/pgo/checked.profdata" ∷ "artifacts/pgo/checked.profdata" ∷ []
writes pgo_merge step = text_at step "output"
writes metadata step = []
writes provision step = []
writes revoke_source step = []

-- A freeze step writes to the directory of a variant with a valid name, just below artifacts/frozen/.
abbrev pub MayWrite : Op → String → Type 0
MayWrite freeze s =
    (variant : String) × (is_name variant ≡ true) × (s ≡ append "artifacts/frozen/" variant)
MayWrite _ s = Writable s
