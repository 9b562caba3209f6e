-- ===== src/Process/Reads.antt =====
-- Any sequence of reads from a process whose records are kept, and of taking its records.
use macqueue.Base.{
  ◌≡◌, refl, sym, ap, ◌∙◌, ℕ, ◌+◌, ◌≤◌, true, Option, none, some, List, [], ◌∷◌, ◌++◌, leb, leb→le,
  Result, ok, ◌>>=◌, >>=-eq-ok, require-eq-ok, ok_injective, subst, arith, Bool-cases, inl, inr,
}
use macqueue.Base.Lists.{length, length-append}
use mathlib.Core.List.{append_assoc}
use macqueue.Process.{Output, Stream, stdout, stderr, pump, pop_from, pop_line, keep, is_blank}
use macqueue.Process.Lines.{
  split_stream, records, split-append, keep-Kept, IsFree, split_stream-IsFree,
}

append_nil : (s : List ℕ) → s ++ [] ≡ s
append_nil [] = refl
append_nil (b ∷ bs) = ap (λ r. b ∷ r) (append_nil bs)

records-append : (xs ys : List (List ℕ)) → records (xs ++ ys) ≡ records xs ++ records ys
records-append [] ys = refl
records-append (x ∷ xs) ys = elim (Bool-cases (is_blank x)) [
  | inl blank ↦ rw blank (records-append xs ys)
  | inr full ↦ rw full (ap (λ r. x ∷ r) (records-append xs ys))
]

-- The output of both streams so far is counted together and stands in their logs; the records that
-- were taken, and then those that wait, are the lines of the standard output so far that are not
-- blank; and the bytes behind its last newline wait for the rest of their line.
pub record Read (max_output : ℕ) (out_bytes err_bytes : List ℕ) (taken : List (List ℕ))
    (out : Output) : Type 0 where
  pub counted : out.total ≡ length out_bytes + length err_bytes
  pub bounded : out.total ≤ max_output
  pub copied : out.stdout_log ≡ out_bytes
  pub copied_errors : out.stderr_log ≡ err_bytes
  pub complete : taken ++ out.lines ≡ records (split_stream out_bytes).0
  pub waiting : out.partial ≡ (split_stream out_bytes).1

-- A read from a stream, or the taking of a record, which waits where there is none.
pub data Activity : Type 0 where
  arrives : Stream → List ℕ → Activity
  takes : Activity

-- What a process has written to a stream.
abbrev pub bytes_of : Stream → List Activity → List ℕ
bytes_of s [] = []
bytes_of stdout (arrives stdout chunk ∷ rest) = chunk ++ bytes_of stdout rest
bytes_of stderr (arrives stderr chunk ∷ rest) = chunk ++ bytes_of stderr rest
bytes_of s (_ ∷ rest) = bytes_of s rest

abbrev pub after_pop : List (List ℕ) → Output → Option (List ℕ × Output) → List (List ℕ) × Output
after_pop taken out none = (taken, out)
after_pop taken out (some (line, next)) = (taken ++ line ∷ [], next)

module _ (max_record_bytes max_output : ℕ) where
  -- With the records that were taken.
  abbrev pub read_all : List Activity → List (List ℕ) × Output → Result (List (List ℕ) × Output)
  read_all [] st = ok st
  read_all (arrives stream chunk ∷ rest) (taken, out) = do
    next ← pump max_record_bytes max_output true stream chunk out
    read_all rest (taken, next)
  read_all (takes ∷ rest) (taken, out) = read_all rest (after_pop taken out (pop_line out))

  stdout-Read :
      (seen errors chunk : List ℕ) (taken : List (List ℕ)) (out : Output) {next : Output}
      → Read max_output seen errors taken out
      → pump max_record_bytes max_output true stdout chunk out ≡ ok next
      → Read max_output (seen ++ chunk) errors taken next
  unfolding pump
  stdout-Read seen errors chunk taken out {next = next} v h =
      let (below, h₁) = require-eq-ok (leb (out.total + length chunk) max_output) _ _ h in
      let (kept, e, h₂) = >>=-eq-ok (keep max_record_bytes chunk out.partial out.lines) _ h₁ in
      let free = subst IsFree (sym v.waiting) (split_stream-IsFree seen) in
      let (lines, tail) = keep-Kept max_record_bytes chunk out.partial out.lines free e in
      let whole = split-append seen chunk in
      let there : split_stream (out.partial ++ chunk)
          ≡ split_stream ((split_stream seen).1 ++ chunk) =
        ap (λ p. split_stream (p ++ chunk)) v.waiting in
      let more = (split_stream ((split_stream seen).1 ++ chunk)).0 in
      subst (Read max_output (seen ++ chunk) errors taken) (ok_injective _ next h₂) (record {
        counted = omega (arith, v.counted, length-append seen chunk);
        bounded = leb→le (out.total + length chunk) max_output below;
        copied = ap (λ w. w ++ chunk) v.copied;
        copied_errors = v.copied_errors;
        complete =
            ap (λ x. taken ++ x) (lines ∙ ap (λ x. out.lines ++ records x.0) there)
            ∙ (sym (append_assoc taken out.lines (records more))
                ∙ (ap (λ x. x ++ records more) v.complete
                    ∙ (sym (records-append (split_stream seen).0 more)
                        ∙ ap (λ x. records x.0) (sym whole))));
        waiting = tail ∙ (ap (λ x. x.1) there ∙ ap (λ x. x.1) (sym whole));
      })

  stderr-Read :
      (seen errors chunk : List ℕ) (taken : List (List ℕ)) (out : Output) {next : Output}
      → Read max_output seen errors taken out
      → pump max_record_bytes max_output true stderr chunk out ≡ ok next
      → Read max_output seen (errors ++ chunk) taken next
  unfolding pump
  stderr-Read seen errors chunk taken out {next = next} v h =
      let (below, h₁) = require-eq-ok (leb (out.total + length chunk) max_output) _ _ h in
      subst (Read max_output seen (errors ++ chunk) taken) (ok_injective _ next h₁) (record {
        counted = omega (arith, v.counted, length-append errors chunk);
        bounded = leb→le (out.total + length chunk) max_output below;
        copied = v.copied;
        copied_errors = ap (λ w. w ++ chunk) v.copied_errors;
        complete = v.complete;
        waiting = v.waiting;
      })

  pop-Read :
      (seen errors : List ℕ) (taken lines : List (List ℕ)) (out : Output)
      → out.lines ≡ lines
      → Read max_output seen errors taken out
      → Read max_output seen errors
          (after_pop taken out (pop_from lines out)).0
          (after_pop taken out (pop_from lines out)).1
  pop-Read seen errors taken [] out e v = v
  pop-Read seen errors taken (line ∷ rest) out e v =
      let before : taken ++ (line ∷ rest) ≡ records (split_stream seen).0 =
        subst (λ ls. taken ++ ls ≡ records (split_stream seen).0) e v.complete in
      record {
        counted = v.counted;
        bounded = v.bounded;
        copied = v.copied;
        copied_errors = v.copied_errors;
        complete = append_assoc taken (line ∷ []) rest ∙ before;
        waiting = v.waiting;
      }

  from-Read :
      (seen errors : List ℕ) (acts : List Activity) (taken : List (List ℕ)) (out : Output)
      {end : List (List ℕ) × Output}
      → Read max_output seen errors taken out
      → read_all acts (taken, out) ≡ ok end
      → Read max_output (seen ++ bytes_of stdout acts) (errors ++ bytes_of stderr acts) end.0 end.1
  unfolding pop_line
  from-Read seen errors [] taken out {end = end} v h =
      rw (append_nil seen, append_nil errors)
        (subst (λ (r : List (List ℕ) × Output). Read max_output seen errors r.0 r.1)
          (ok_injective (taken, out) end h) v)
  from-Read seen errors (arrives stdout chunk ∷ rest) taken out {end = end} v h =
      let (next, e, h₁) = >>=-eq-ok (pump max_record_bytes max_output true stdout chunk out) _ h in
      subst (λ s. Read max_output s (errors ++ bytes_of stderr rest) end.0 end.1)
        (append_assoc seen chunk (bytes_of stdout rest))
        (from-Read (seen ++ chunk) errors rest taken next
          (stdout-Read seen errors chunk taken out v e) h₁)
  from-Read seen errors (arrives stderr chunk ∷ rest) taken out {end = end} v h =
      let (next, e, h₁) = >>=-eq-ok (pump max_record_bytes max_output true stderr chunk out) _ h in
      subst (λ s. Read max_output (seen ++ bytes_of stdout rest) s end.0 end.1)
        (append_assoc errors chunk (bytes_of stderr rest))
        (from-Read seen (errors ++ chunk) rest taken next
          (stderr-Read seen errors chunk taken out v e) h₁)
  from-Read seen errors (takes ∷ rest) taken out v h =
      from-Read seen errors rest (after_pop taken out (pop_line out)).0
        (after_pop taken out (pop_line out)).1 (pop-Read seen errors taken out.lines out refl v) h

  abbrev pub nothing : Output
  nothing = record { total = 0; stdout_log = []; stderr_log = []; partial = []; lines = [] }

  -- However the output of a process is cut into reads of its two streams, with records taken between
  -- them, if the reads are all taken, then each log has the output of its stream, their size is counted
  -- together and within the limit, the records that were taken and then those that wait are the lines
  -- of the whole standard output that are not blank, in their order, and the partial record is what
  -- follows its last newline.
  pub read_all-Read :
      (acts : List Activity) {end : List (List ℕ) × Output}
      → read_all acts ([], nothing) ≡ ok end
      → Read max_output (bytes_of stdout acts) (bytes_of stderr acts) end.0 end.1
  unfolding split_stream
  read_all-Read acts h =
      from-Read [] [] acts [] nothing
        (record {
          counted = omega arith;
          bounded = omega arith;
          copied = refl;
          copied_errors = refl;
          complete = refl;
          waiting = refl;
        })
        h
