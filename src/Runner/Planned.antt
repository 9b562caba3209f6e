-- ===== src/Runner/Planned.antt =====
-- The measurements that a comparison of macqueue/runner.py is to make, and how parts of it add to them.
use macqueue.Base.{
  arith, ℕ, zero, suc, ◌%◌, ◌==◌, nat_eq, String, List, [], ◌∷◌, ◌++◌, map, Result, ok, err, ◌≡◌,
  refl, sym, ap, ◌∙◌, subst,
}
use macqueue.Base.Actions.{
  Action, ◌>>=◌, ◌>>◌, next, lift, reads, for_each, Ends, Ends-map, next-Ends,
}
use mathlib.Core.List.{append_assoc}
use macqueue.Json.{Json}
use macqueue.Runner.Comparing.{
  Step, Benchmark, Place, Phase, warmup, sample, Line, readiness, measured, finally, upto,
  enumerate, order_of, requests_of,
}

abbrev pub places : List Line → List Place
places [] = []
places (readiness _ _ _ ∷ lines) = places lines
places (measured place _ _ _ _ _ ∷ lines) = place ∷ places lines

abbrev pub concat_map {ℓ κ} : {A : Type ℓ} {B : Type κ} → (A → List B) → List A → List B
concat_map f [] = []
concat_map f (x ∷ xs) = f x ++ concat_map f xs

abbrev pub place_of : ℕ → Phase → ℕ → ℕ → String → Place
place_of workers phase index request_index variant = record {
  workers = workers;
  phase = phase;
  index = index;
  request_index = request_index;
  variant = variant;
}

pub concat_map-singles {ℓ κ} :
    {A : Type ℓ} {B : Type κ} (f : A → B) (xs : List A) → concat_map (λ a. f a ∷ []) xs ≡ map f xs
concat_map-singles f [] = refl
concat_map-singles f (x ∷ xs) = ap (λ l. f x ∷ l) (concat_map-singles f xs)

-- The variants take turns in being first.
abbrev pub planned_order : ℕ → List String
planned_order zero = "baseline" ∷ "candidate" ∷ []
planned_order (suc zero) = "candidate" ∷ "baseline" ∷ []
planned_order (suc (suc n)) = planned_order n

pub order-planned : (n : ℕ) → order_of n ≡ planned_order n
order-planned zero = refl
order-planned (suc zero) = refl
order-planned (suc (suc n)) =
    let same : ((suc (suc n)) % 2 == 0) ≡ (n % 2 == 0) = ground arith in rw same (order-planned n)

-- A round is one pair for each request, and both phases have theirs for each number of workers.
abbrev pub planned_round : Step → ℕ → Phase → ℕ → List Place
planned_round step workers phase index =
    concat_map (λ (r : ℕ × Json). map (place_of workers phase index r.0) (planned_order index))
      (enumerate 0 (requests_of step))

abbrev pub planned_workers : Step → ℕ → List Place
planned_workers step workers =
    concat_map (planned_round step workers warmup) (upto step.warmups)
    ++ concat_map (planned_round step workers sample) (upto step.samples)

abbrev pub planned : Step → List ℕ → List Place
planned step = concat_map (planned_workers step)

-- If it returns, the measurements at these places were added.
abbrev pub Adds : {A : Type 0} → List Place → Benchmark → Result A × Benchmark → Type 0
Adds xs s r = Ends (λ _. Unit) (λ _ t. places t.lines ≡ places s.lines ++ xs) r

pub append_nil {ℓ} : {A : Type ℓ} (xs : List A) → xs ++ [] ≡ xs
append_nil [] = refl
append_nil (x ∷ xs) = ap (λ l. x ∷ l) (append_nil xs)

pub places-append : (xs ys : List Line) → places (xs ++ ys) ≡ places xs ++ places ys
places-append [] ys = refl
places-append (readiness _ _ _ ∷ xs) ys = places-append xs ys
places-append (measured place _ _ _ _ _ ∷ xs) ys = ap (λ l. place ∷ l) (places-append xs ys)

pub next-Adds :
    {A B : Type 0} (xs ys : List Place) (s : Benchmark) (r : Result A × Benchmark)
    (f : A → Action Benchmark B)
    → Adds xs s r
    → ((a : A) (t : Benchmark) → Adds ys t (f a t))
    → Adds (xs ++ ys) s (next r f)
next-Adds xs ys s r f h k =
    next-Ends (λ _. Unit) (λ _ t. places t.lines ≡ places s.lines ++ xs)
      (λ _ t. places t.lines ≡ places s.lines ++ (xs ++ ys)) r f h
      (λ a t same.
        Ends-map (λ _. Unit) (λ _. Unit) (λ _ u. places u.lines ≡ places t.lines ++ ys)
          (λ _ u. places u.lines ≡ places s.lines ++ (xs ++ ys)) (f a t) (k a t) (λ _ _. tt)
          (λ _ u more. more ∙ ap (λ l. l ++ ys) same ∙ append_assoc (places s.lines) xs ys))

pub for_each-Adds :
    {A : Type 0} (g : A → List Place) (f : A → Action Benchmark (Unit {0})) (xs : List A)
    (s : Benchmark)
    → ((a : A) (t : Benchmark) → Adds (g a) t (f a t))
    → Adds (concat_map g xs) s (for_each f xs s)
unfolding for_each
for_each-Adds g f [] s h = sym (append_nil (places s.lines))
for_each-Adds g f (a ∷ rest) s h =
    next-Adds (g a) (concat_map g rest) s (f a s) (λ _. for_each f rest) (h a s)
      (λ _ t. for_each-Adds g f rest t h)

pub for_each-quiet :
    {A : Type 0} (f : A → Action Benchmark (Unit {0})) (xs : List A) (s : Benchmark)
    → ((a : A) (t : Benchmark) → Adds [] t (f a t))
    → Adds [] s (for_each f xs s)
unfolding for_each
for_each-quiet f [] s h = sym (append_nil (places s.lines))
for_each-quiet f (a ∷ rest) s h =
    next-Adds [] [] s (f a s) (λ _. for_each f rest) (h a s) (λ _ t. for_each-quiet f rest t h)

pub >>=-Adds :
    {A B : Type 0} (xs ys : List Place) (m : Action Benchmark A) (f : A → Action Benchmark B)
    (s : Benchmark)
    → Adds xs s (m s)
    → ((a : A) (t : Benchmark) → Adds ys t (f a t))
    → Adds (xs ++ ys) s ((m >>= f) s)
unfolding ◌>>=◌
>>=-Adds xs ys m f s h k = next-Adds xs ys s (m s) f h k

pub >>-Adds :
    {B : Type 0} (xs ys : List Place) (m : Action Benchmark (Unit {0})) (k : Action Benchmark B)
    (s : Benchmark)
    → Adds xs s (m s)
    → ((t : Benchmark) → Adds ys t (k t))
    → Adds (xs ++ ys) s ((m >> k) s)
unfolding ◌>>◌
>>-Adds xs ys m k s h g = next-Adds xs ys s (m s) (λ _. k) h (λ _. g)

pub then_quiet-Adds :
    {B : Type 0} (xs : List Place) (m : Action Benchmark (Unit {0})) (k : Action Benchmark B)
    (s : Benchmark)
    → Adds xs s (m s)
    → ((t : Benchmark) → Adds [] t (k t))
    → Adds xs s ((m >> k) s)
then_quiet-Adds xs m k s h g =
    subst (λ ps. Adds ps s ((m >> k) s)) (append_nil xs) (>>-Adds xs [] m k s h g)

pub for_each_single-Adds :
    {A : Type 0} (g : A → Place) (f : A → Action Benchmark (Unit {0})) (xs : List A) (s : Benchmark)
    → ((a : A) (t : Benchmark) → Adds (g a ∷ []) t (f a t))
    → Adds (map g xs) s (for_each f xs s)
for_each_single-Adds g f xs s h =
    subst (λ ps. Adds ps s (for_each f xs s)) (concat_map-singles g xs)
      (for_each-Adds (λ a. g a ∷ []) f xs s h)

pub lift-Adds : {A : Type 0} (r : Result A) (s : Benchmark) → Adds [] s (lift r s)
unfolding lift
lift-Adds (err _) s = tt
lift-Adds (ok _) s = sym (append_nil (places s.lines))

pub reads-Adds : {A : Type 0} (f : Benchmark → A) (s : Benchmark) → Adds [] s (reads f s)
unfolding reads
reads-Adds f s = sym (append_nil (places s.lines))

pub after_finally :
    {A : Type 0} (xs : List Place) (s : Benchmark) (r : Result A × Benchmark)
    (q : Result (Unit {0}) × Benchmark)
    → Adds xs s r
    → Adds [] r.1 q
    → Adds xs s (next q (λ _. lift r.0))
unfolding lift
after_finally xs s r (err _, u) h g = tt
after_finally xs s (err _, t) (ok _, u) h g = tt
after_finally xs s (ok _, t) (ok _, u) h g = g ∙ append_nil (places t.lines) ∙ h

pub finally-Adds :
    {A : Type 0} (xs : List Place) (m : Action Benchmark A) (k : Action Benchmark (Unit {0}))
    (s : Benchmark)
    → Adds xs s (m s)
    → ((t : Benchmark) → Adds [] t (k t))
    → Adds xs s (finally m k s)
unfolding finally ◌>>◌
finally-Adds xs m k s h g = after_finally xs s (m s) (k (m s).1) h (g (m s).1)
