-- ===== src/Schema/Samples.antt =====
-- Concrete jobs and requests, run through the checks of the wire format.
use macqueue.Base.{◌≡◌, refl, String, ok, err, invalid}
use macqueue.Base.Int.{pos}
use macqueue.Common.{relative, name, keys, object, text_where, list_where, integer}
use macqueue.Json.{Json, int, str, arr, obj, nil, cons, field, end}
use macqueue.Schema.{output, seed_request, range_request, expand_seed_request}
use macqueue.Schema.Command.{only}
use macqueue.Schema.Jobs.{
  validate_job, check_header, check_sources, check_steps, dumps_size, decimal_size,
}
use macqueue.Schema.Paths.{OutputPath, output-OutputPath}
use macqueue.Schema.Seeds.{Expanded, expand-Expanded}
use macqueue.Schema.Steps.{op_of, check_step, write_step}

abbrev commit : String
commit = "0123456789abcdef0123456789abcdef01234567"

abbrev note_step : Json
note_step = obj (
    field "id" (str "note") (
      field "op" (str "write")
        (field "path" (str "artifacts/logs/note.txt") (field "text" (str "hello") end))))

abbrev tools_step : Json
tools_step = obj (field "id" (str "tools") (field "op" (str "metadata") end))

abbrev job_with : Json → Json → Json
job_with first second = obj (
    field "version" (int (pos 1)) (
      field "project" (str "seeds") (
        field "sources" (obj (field "candidate" (str commit) end))
          (field "steps" (arr (cons first (cons second nil))) end))))

twice_refused :
    validate_job (λ _. 0) (job_with tools_step tools_step) ≡ err (invalid "duplicate step id")
unfolding validate_job check_header check_sources check_steps dumps_size decimal_size op_of
    check_step write_step only output relative name keys object text_where list_where integer
twice_refused = refl

written : output (str "artifacts/logs/note.txt") ≡ ok "artifacts/logs/note.txt"
unfolding output relative text_where
written = refl

output-OutputPath_example :
    (str "artifacts/logs/note.txt" ≡ str "artifacts/logs/note.txt")
    × OutputPath "artifacts/logs/note.txt"
output-OutputPath_example = output-OutputPath (str "artifacts/logs/note.txt") written

abbrev three_seeds : Json
three_seeds =
    obj
      (field "seed_range" (obj (field "start" (int (pos 7)) (field "count" (int (pos 3)) end))) end)

expanded :
    expand_seed_request three_seeds
    ≡ ok (
        obj (
          field "seeds"
            (arr (cons (int (pos 7)) (cons (int (pos 8)) (cons (int (pos 9)) nil))))
            end))
unfolding expand_seed_request seed_request range_request object keys integer
expanded = refl

expand-Expanded_example :
    (w : Json) × (expand_seed_request three_seeds ≡ ok w)
    × Expanded
        (field "seed_range"
          (obj (field "start" (int (pos 7)) (field "count" (int (pos 3)) end)))
          end)
        w
unfolding seed_request range_request object keys integer
expand-Expanded_example =
    expand-Expanded
      (field "seed_range" (obj (field "start" (int (pos 7)) (field "count" (int (pos 3)) end))) end)
      refl
