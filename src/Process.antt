-- ===== src/Process.antt =====
-- The output of a bounded subprocess (macqueue/process.py `Process`): bytes are counted, copied to
-- the log file and, where records are kept, cut into lines. A byte is its number.
pub mod Lines
pub mod Reads
mod Samples
use macqueue.Base.{
  ℕ, ◌+◌, ◌≤◌, suc, zero, min, String, Bool, true, false, not, ◌&&◌, ◌||◌, Option, none, some, List,
  [], ◌∷◌, ◌++◌, ◌==◌, nat_eq, leb, if◌then◌else◌, Result, ok, err, invalid, ◌>>=◌, ◌>>◌, require,
}
use macqueue.Base.Lists.{length, any, take}

pub data Stream : Type 0 where
  stdout stderr : Stream

-- The bytes of the log files of both streams, the partial record and the records not yet taken.
pub record Output : Type 0 where
  pub total : ℕ
  pub stdout_log : List ℕ
  pub stderr_log : List ℕ
  pub partial : List ℕ
  pub lines : List (List ℕ)

abbrev pub newline : ℕ
newline = b'\n'

-- What `bytes.strip` removes.
abbrev pub is_space : ℕ → Bool
is_space b = b == 32 || leb 9 b && leb b 13

abbrev pub is_blank : List ℕ → Bool
is_blank line = not (any (λ b. not (is_space b)) line)

-- The bytes before the first newline, and those behind it.
abbrev pub cut_with : ℕ → Option (List ℕ × List ℕ) → Option (List ℕ × List ℕ)
cut_with b none = none
cut_with b (some (line, rest)) = some (b ∷ line, rest)

unfoldable pub cut : List ℕ → Option (List ℕ × List ℕ)
cut [] = none
cut (b ∷ bs) = let found = cut bs in if b == newline then some ([], bs) else cut_with b found

-- The same for the first newline at or behind an index (`search_from`).
unfoldable pub cut_from : ℕ → List ℕ → Option (List ℕ × List ℕ)
unfolding cut
cut_from zero bs = cut bs
cut_from (suc n) [] = none
cut_from (suc n) (b ∷ bs) = cut_with b (cut_from n bs)

-- The limit on unread records.
abbrev pub max_lines : ℕ
max_lines = 64

abbrev pub record_message : String
record_message = "JSON-lines record exceeds configured byte limit"

-- A line that is complete; a blank one is no record.
unfoldable pub add_line : List ℕ → List (List ℕ) → Result (List (List ℕ))
add_line line lines =
    if is_blank line
    then ok lines
    else require (leb (suc (length lines)) max_lines) "unsolicited JSON-lines output limit exceeded"
      >> ok (lines ++ line ∷ [])

module _ (max_record_bytes : ℕ) where
  -- The loop over the newlines of `partial`, on fuel: each turn removes a newline, and searches what
  -- is left from its start.
  unfoldable pub cut_lines :
      ℕ → Option (List ℕ × List ℕ) → List ℕ → List (List ℕ) → Result (List ℕ × List (List ℕ))
  cut_lines fuel none partial lines = ok (partial, lines)
  cut_lines zero (some (line, rest)) partial lines = ok (partial, lines)
  cut_lines (suc fuel) (some (line, rest)) partial lines = do
    require (leb (length line) max_record_bytes) record_message
    lines' ← add_line line lines
    cut_lines fuel (cut_from 0 rest) rest lines'

  -- The search begins behind the partial record, which has no newline.
  unfoldable pub keep : List ℕ → List ℕ → List (List ℕ) → Result (List ℕ × List (List ℕ))
  keep chunk partial lines = do
    let joined = partial ++ chunk
    found ← cut_lines (length joined) (cut_from (length partial) joined) joined lines
    require (leb (length found.0) max_record_bytes) record_message
    ok found

  abbrev pub pump_kept : Bool → Stream → List ℕ → Output → Result (List ℕ × List (List ℕ))
  pump_kept true stdout chunk out = keep chunk out.partial out.lines
  pump_kept _ _ chunk out = ok (out.partial, out.lines)

  abbrev pub copy_to : Stream → List ℕ → Output → Output
  copy_to stdout chunk out = record out { stdout_log = out.stdout_log ++ chunk }
  copy_to stderr chunk out = record out { stderr_log = out.stderr_log ++ chunk }

  -- One read from a stream.
  unfoldable pub pump : ℕ → Bool → Stream → List ℕ → Output → Result Output
  pump max_output keep_lines stream chunk out = do
    let total = out.total + length chunk
    require (leb total max_output) "process output limit exceeded"
    kept ← pump_kept keep_lines stream chunk out
    ok (record (copy_to stream chunk out) { total = total; partial = kept.0; lines = kept.1 })

abbrev pub pop_from : List (List ℕ) → Output → Option (List ℕ × Output)
pop_from [] out = none
pop_from (line ∷ rest) out = some (line, record out { lines = rest })

-- `self.lines.popleft()` of `record`, where there is a line.
unfoldable pub pop_line : Output → Option (List ℕ × Output)
pop_line out = pop_from out.lines out
