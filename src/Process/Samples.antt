-- ===== src/Process/Samples.antt =====
-- An output of two records that arrives in three reads, with an error message between them.
use macqueue.Base.{◌≡◌, refl, ℕ, List, [], ◌∷◌, ok}
use macqueue.Process.{
  Output, stdout, stderr, pump, keep, cut, cut_from, cut_lines, add_line, pop_line,
}
use macqueue.Process.Reads.{
  Activity, arrives, takes, Read, read_all, bytes_of, nothing, read_all-Read,
}

-- "{}" and a blank line, then the start of a line.
abbrev reads : List Activity
reads =
    arrives stdout (123 ∷ [])
    ∷ arrives stderr (33 ∷ [])
    ∷ arrives stdout (125 ∷ 10 ∷ 10 ∷ 123 ∷ [])
    ∷ takes
    ∷ arrives stdout (125 ∷ 10 ∷ 91 ∷ [])
    ∷ []

abbrev end : List (List ℕ) × Output
end = (
  (123 ∷ 125 ∷ []) ∷ [],
  record {
    total = 9;
    stdout_log = 123 ∷ 125 ∷ 10 ∷ 10 ∷ 123 ∷ 125 ∷ 10 ∷ 91 ∷ [];
    stderr_log = 33 ∷ [];
    partial = 91 ∷ [];
    lines = (123 ∷ 125 ∷ []) ∷ [];
  },
)

taken : read_all 100 1000 reads ([], nothing 100 1000) ≡ ok end
unfolding pump keep cut cut_from cut_lines add_line pop_line
taken = refl

read_all-Read_example : Read 1000 (bytes_of stdout reads) (bytes_of stderr reads) end.0 end.1
read_all-Read_example = read_all-Read 100 1000 reads taken
