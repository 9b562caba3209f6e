-- ===== src/Schema/Accepted.antt =====
-- What `validate_job` of macqueue/schema.py guarantees of a job that it accepts.
use macqueue.Base.{◌≡◌, ℕ, ◌≤◌, String, Bool, true, false, List, [], ◌∷◌, ok, nat_eq}
use macqueue.Base.Lists.{All, length}
use macqueue.Base.Int.{pos}
use macqueue.Common.{member, is_name}
use macqueue.Json.{Json, int, str, arr, to_list, get_item, Items}
use macqueue.Schema.Steps.{Op, provision, revoke_source, op_of}
use macqueue.Schema.Written.{writes, MayWrite}
use macqueue.Schema.Command.{get_or}

abbrev pub is_source : Op → Bool
is_source provision = true
is_source revoke_source = true
is_source _ = false

-- One step after steps with these ids, in a job of so many: it has a name of its own, an operation,
-- and paths to write to that are confined; it is alone if it changes the source mirrors.
pub record StepSound (count : ℕ) (ids : List String) (step : Json) : Type 0 where
  pub id : String
  pub op : Op
  pub named : Json
  pub is_id : get_item step "id" ≡ ok (str id)
  pub is_valid : is_name id ≡ true
  pub is_new : member ids id ≡ false
  pub has_op : get_item step "op" ≡ ok named
  pub is_op : op_of named ≡ ok op
  pub confined : All (MayWrite op) (writes op step)
  pub alone : is_source op ≡ true → count ≡ 1

abbrev pub StepsSound : ℕ → List String → List Json → Type 0
StepsSound count ids [] = Unit
StepsSound count ids (step ∷ rest) =
    (s : StepSound count ids step) × StepsSound count (s.id ∷ ids) rest

-- An accepted job.
pub record JobSound (job : Json) : Type 0 where
  pub items : Items
  pub has_steps : get_item job "steps" ≡ ok (arr items)
  pub some_steps : 1 ≤ length (to_list items)
  pub few_steps : length (to_list items) ≤ 100
  pub sound : StepsSound (length (to_list items)) [] (to_list items)
  pub expiry : ℕ
  pub is_expiry : get_or job "expires_in_seconds" (int (pos 86400)) ≡ int (pos expiry)
  pub expires : 1 ≤ expiry
  pub expires_soon : expiry ≤ 604800
