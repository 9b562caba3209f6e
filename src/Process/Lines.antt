-- ===== src/Process/Lines.antt =====
-- The records of a process do not depend on how its output was cut into reads.
use macqueue.Base.{
  ◌≡◌, refl, sym, ap, ◌∙◌, subst, ℕ, ◌≤◌, ◌<◌, suc, zero, true, false, not, Option, none, some,
  List, [], ◌∷◌, ◌++◌, ◌==◌, nat_eq, leb, if◌then◌else◌, ok, >>=-eq-ok, require-eq-ok, ok_injective,
  Bool-cases, inl, inr, arith, require, ◌>>◌,
}
use macqueue.Base.Lists.{length, filter, All}
use mathlib.Core.List.{append_assoc}
use macqueue.Process.{newline, cut, cut_from, cut_with, cut_lines, add_line, keep, is_blank}

-- The reference: the complete lines of a stream, and what follows the last newline.
abbrev on_first : ℕ → List (List ℕ) × List ℕ → List (List ℕ) × List ℕ
on_first b ([], tail) = ([], b ∷ tail)
on_first b (l ∷ ls, tail) = ((b ∷ l) ∷ ls, tail)

abbrev start_line : List (List ℕ) × List ℕ → List (List ℕ) × List ℕ
start_line (ls, tail) = ([] ∷ ls, tail)

unfoldable pub split_stream : List ℕ → List (List ℕ) × List ℕ
split_stream [] = ([], [])
split_stream (b ∷ bs) =
    let rest = split_stream bs in if b == newline then start_line rest else on_first b rest

abbrev pub records : List (List ℕ) → List (List ℕ)
records ls = filter (λ l. not (is_blank l)) ls

abbrev Cuts : List ℕ → Option (List ℕ × List ℕ) → Type 0
Cuts s none = split_stream s ≡ ([], s)
Cuts s (some (l, r)) =
    (split_stream s ≡ (l ∷ (split_stream r).0, (split_stream r).1)) × (length r < length s)

next-Cuts :
    (b : ℕ) (bs : List ℕ) (found : Option (List ℕ × List ℕ))
    → (b == newline) ≡ false
    → Cuts bs found
    → Cuts (b ∷ bs) (cut_with b found)
unfolding split_stream
next-Cuts b bs none other h = rw (other, h) refl
next-Cuts b bs (some (l, r)) other (h, less) = (rw (other, h) refl, omega (arith, less))

cut-at : (b : ℕ) (bs : List ℕ) → (b == newline) ≡ true → cut (b ∷ bs) ≡ some ([], bs)
unfolding cut
cut-at b bs ends = rw ends refl

cut-past : (b : ℕ) (bs : List ℕ) → (b == newline) ≡ false → cut (b ∷ bs) ≡ cut_with b (cut bs)
unfolding cut
cut-past b bs other = rw other refl

split-at :
    (b : ℕ) (bs : List ℕ)
    → (b == newline) ≡ true
    → split_stream (b ∷ bs) ≡ start_line (split_stream bs)
unfolding split_stream
split-at b bs ends = rw ends refl

cut-Cuts : (s : List ℕ) → Cuts s (cut s)
unfolding cut split_stream
cut-Cuts [] = refl
cut-Cuts (b ∷ bs) = elim (Bool-cases (b == newline)) [
  | inl ends ↦ subst (Cuts (b ∷ bs)) (sym (cut-at b bs ends)) (split-at b bs ends, omega arith)
  | inr other ↦
      subst (Cuts (b ∷ bs)) (sym (cut-past b bs other))
        (next-Cuts b bs (cut bs) other (cut-Cuts bs))
]

abbrev pub IsFree : List ℕ → Type 0
IsFree s = All (λ b. (b == newline) ≡ false) s

cut_from-past :
    (partial chunk : List ℕ)
    → IsFree partial
    → cut_from (length partial) (partial ++ chunk) ≡ cut (partial ++ chunk)
unfolding cut_from
cut_from-past [] chunk free = refl
cut_from-past (b ∷ bs) chunk free =
    ap (cut_with b) (cut_from-past bs chunk free.1) ∙ sym (cut-past b (bs ++ chunk) free.0)

on_first-IsFree :
    (b : ℕ) (d : List (List ℕ) × List ℕ)
    → (b == newline) ≡ false
    → IsFree d.1
    → IsFree (on_first b d).1
on_first-IsFree b ([], tail) other free = (other, free)
on_first-IsFree b (l ∷ ls, tail) other free = free

-- What follows the last newline has none.
pub split_stream-IsFree : (s : List ℕ) → IsFree (split_stream s).1
unfolding split_stream
split_stream-IsFree [] = tt
split_stream-IsFree (b ∷ bs) = elim (Bool-cases (b == newline)) [
  | inl ends ↦ rw ends (split_stream-IsFree bs)
  | inr other ↦ rw other (on_first-IsFree b (split_stream bs) other (split_stream-IsFree bs))
]

pub append_nil : (ls : List (List ℕ)) → ls ++ [] ≡ ls
append_nil [] = refl
append_nil (l ∷ ls) = ap (λ r. l ∷ r) (append_nil ls)

add_line-records :
    (line : List ℕ) (lines : List (List ℕ)) {lines' : List (List ℕ)}
    → add_line line lines ≡ ok lines'
    → lines' ≡ lines ++ records (line ∷ [])
unfolding add_line
add_line-records line lines {lines' = lines'} h = elim (Bool-cases (is_blank line)) [
  | inl blank ↦
      let same : lines ≡ lines' = ok_injective lines lines' (rw blank at h) in
      rw blank (sym same ∙ sym (append_nil lines))
  | inr full ↦
      let rest : (require (leb (suc (length lines)) 64)
              "unsolicited JSON-lines output limit exceeded"
            >> ok (lines ++ line ∷ []))
          ≡ ok lines' =
        rw full at h in
      let (_, e) = require-eq-ok _ _ _ rest in
      rw full (sym (ok_injective (lines ++ line ∷ []) lines' e))
]

-- What a loop that returned made of the bytes that it was given.
abbrev pub Kept : List ℕ → List (List ℕ) → List ℕ × List (List ℕ) → Type 0
Kept s lines kept = (kept.1 ≡ lines ++ records (split_stream s).0) × (kept.0 ≡ (split_stream s).1)

records-cons : (l : List ℕ) (ls : List (List ℕ)) → records (l ∷ ls) ≡ records (l ∷ []) ++ records ls
records-cons l ls = elim (Bool-cases (is_blank l)) [
  | inl blank ↦ rw blank refl
  | inr full ↦ rw full refl
]

module _ (max_record_bytes : ℕ) where
  cut_lines-Kept :
      (fuel : ℕ) (s : List ℕ) (lines : List (List ℕ)) (found : Option (List ℕ × List ℕ))
      {kept : List ℕ × List (List ℕ)}
      → Cuts s found
      → length s ≤ fuel
      → cut_lines max_record_bytes fuel found s lines ≡ ok kept
      → Kept s lines kept
  unfolding cut_lines cut_from
  cut_lines-Kept fuel s lines none {kept = kept} c enough h =
      let same : (s, lines) ≡ kept = ok_injective (s, lines) kept h in
      (
        sym (ap (λ k. k.1) same)
            ∙ (sym (append_nil lines) ∙ ap (λ x. lines ++ records x.0) (sym c)),
        sym (ap (λ k. k.0) same) ∙ ap (λ x. x.1) (sym c),
      )
  cut_lines-Kept zero s lines (some (l, r)) c enough h = absurd (omega (arith, c.1, enough))
  cut_lines-Kept (suc fuel) s lines (some (l, r)) {kept = kept} c enough h =
      let (_, h₁) = require-eq-ok (leb (length l) max_record_bytes) _ _ h in
      let (lines', e, h₂) = >>=-eq-ok (add_line l lines) _ h₁ in
      let (rest, tail) =
        cut_lines-Kept fuel r lines' (cut_from 0 r) (cut-Cuts r) (omega (arith, c.1, enough)) h₂ in
      (
        rest
            ∙ (ap (λ x. x ++ records (split_stream r).0) (add_line-records l lines e)
                ∙ (append_assoc lines (records (l ∷ [])) (records (split_stream r).0)
                    ∙ (ap (λ x. lines ++ x) (sym (records-cons l (split_stream r).0))
                        ∙ ap (λ x. lines ++ records x.0) (sym c.0)))),
        tail ∙ ap (λ x. x.1) (sym c.0),
      )

  pub keep-Kept :
      (chunk partial : List ℕ) (lines : List (List ℕ)) {kept : List ℕ × List (List ℕ)}
      → IsFree partial
      → keep max_record_bytes chunk partial lines ≡ ok kept
      → Kept (partial ++ chunk) lines kept
  unfolding keep
  keep-Kept chunk partial lines {kept = kept} free h =
      let joined = partial ++ chunk in
      let (found, e, h₁) =
        >>=-eq-ok
          (cut_lines max_record_bytes (length joined) (cut_from (length partial) joined) joined
            lines)
          _ h in
      let (_, h₂) = require-eq-ok (leb (length found.0) max_record_bytes) _ _ h₁ in
      subst (Kept joined lines) (ok_injective found kept h₂) (
        cut_lines-Kept (length joined) joined lines (cut_from (length partial) joined)
          (subst (Cuts joined) (sym (cut_from-past partial chunk free)) (cut-Cuts joined))
          (omega arith) e)

-- A stream that is split after any of its parts: the complete lines of the first part stay, and what
-- follows its last newline stands before the second part.
abbrev pub joined_with : List ℕ → List (List ℕ) × List ℕ → List (List ℕ) × List ℕ
joined_with ys d = (d.0 ++ (split_stream (d.1 ++ ys)).0, (split_stream (d.1 ++ ys)).1)

on_first-joined :
    (b : ℕ) (ys : List ℕ) (d : List (List ℕ) × List ℕ)
    → (b == newline) ≡ false
    → on_first b (joined_with ys d) ≡ joined_with ys (on_first b d)
unfolding split_stream
on_first-joined b ys ([], tail) other = rw other refl
on_first-joined b ys (l ∷ ls, tail) other = refl

pub split-append : (xs ys : List ℕ) → split_stream (xs ++ ys) ≡ joined_with ys (split_stream xs)
unfolding split_stream
split-append [] ys = refl
split-append (b ∷ xs) ys = elim (Bool-cases (b == newline)) [
  | inl ends ↦ rw (ends, split-append xs ys) refl
  | inr other ↦ rw (other, split-append xs ys) (on_first-joined b ys (split_stream xs) other)
]
