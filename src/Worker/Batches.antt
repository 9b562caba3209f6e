-- ===== src/Worker/Batches.antt =====
-- The live log reaches the server whole and in order, in chunks that it accepts.
use macqueue.Base.{
  ◌≡◌, refl, sym, ap, ◌∙◌, ℕ, ◌+◌, ◌≤◌, String, false, ◌&&◌, List, [], ◌∷◌, ◌++◌, ltb, arith,
  Bool-cases, inl, inr, ltb→lt,
}
use macqueue.Base.Lists.{All}
use macqueue.Base.Text.{append, encoded_size}
use macqueue.Worker.{Batch, line, preview, collect, join}

encoded_size-append : (s t : String) → encoded_size (append s t) ≡ encoded_size s + encoded_size t
encoded_size-append String.[] t = omega arith
encoded_size-append (String.◌∷◌ c s) t = omega (arith, encoded_size-append s t)

abbrev pub IsLine : String → Type 0
IsLine s = encoded_size s ≤ 60001

abbrev pub total : List String → ℕ
total [] = 0
total (s ∷ ss) = encoded_size s + total ss

pub encoded_size-join : (ss : List String) → encoded_size (join ss) ≡ total ss
encoded_size-join [] = refl
encoded_size-join (s ∷ ss) =
    encoded_size-append s (join ss) ∙ ap (λ n. encoded_size s + n) (encoded_size-join ss)

pub line-IsLine :
    (encoded large : String) → encoded_size large ≤ 60000 → IsLine (line (preview encoded large))
line-IsLine encoded large h = elim (Bool-cases (ltb 60000 (encoded_size encoded))) [
  | inl big ↦ rw (big, encoded_size-append large "\n") (omega (arith, h))
  | inr small ↦ rw (small, encoded_size-append encoded "\n") (ground arith)
]

-- The lines of a chunk are the first of the queue, the others stay in order, and the chunk, with what
-- it has, is no larger than a request may be.
abbrev pub Splits : ℕ → List String → Batch → Type 0
Splits size items b = (b.chunks ++ b.rest ≡ items) × (size + total b.chunks ≤ 65536)

requeue :
    (size : ℕ) (item : String)
    → ltb 65536 (size + encoded_size item) ≡ false
    → (ltb 0 size && ltb 65536 (size + encoded_size item)) ≡ false
requeue size item h = ground arith

pub collect-Splits :
    (size : ℕ) (items : List String)
    → All IsLine items
    → size ≤ 65536
    → Splits size items (collect size items)
unfolding collect
collect-Splits size [] h low = (refl, omega (arith, low))
collect-Splits size (item ∷ items) h low = elim (Bool-cases (ltb size 4096)) [
  | inl room ↦
      let fits : size + encoded_size item ≤ 65536 = omega (arith, ltb→lt size 4096 room, h.0) in
      let kept : ltb 65536 (size + encoded_size item) ≡ false = ground arith in
      let (order, bound) = collect-Splits (size + encoded_size item) items h.1 fits in
      rw (room, requeue size item kept) (ap (λ xs. item ∷ xs) order, omega (arith, bound))
  | inr full ↦ rw full (refl, omega (arith, low))
]

pub append_assoc : (s t u : String) → append (append s t) u ≡ append s (append t u)
append_assoc String.[] t u = refl
append_assoc (String.◌∷◌ c s) t u = ap (λ r. String.◌∷◌ c r) (append_assoc s t u)

pub append_empty : (s : String) → append s "" ≡ s
append_empty String.[] = refl
append_empty (String.◌∷◌ c s) = ap (λ r. String.◌∷◌ c r) (append_empty s)

pub join-append : (xs ys : List String) → join (xs ++ ys) ≡ append (join xs) (join ys)
join-append [] ys = refl
join-append (x ∷ xs) ys =
    ap (λ r. append x r) (join-append xs ys) ∙ sym (append_assoc x (join xs) (join ys))
