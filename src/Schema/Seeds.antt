-- ===== src/Schema/Seeds.antt =====
-- The expansion of seed requests (macqueue/schema.py): what `expand_seed_request` returns is again a
-- request of the wire format, without ranges.
use macqueue.Base.{
  ◌≡◌, refl, ◌∙◌, ap, subst, ℕ, zero, suc, ◌+◌, ◌^◌, ◌≤◌, ◌<◌, String, Bool, true, false, ◌&&◌, [],
  ◌∷◌, none, ◌==◌, string_eq, eq_of_==, le→leb, leb→le, ok, >>=-eq-ok, >>-eq-ok, require-eq-ok,
  &&-eq-true, Bool-cases, inl, inr, arith, ok_injective, ◌⊎◌, require-true, ◌||◌,
}
use macqueue.Base.Int.{ℤ, pos, negsuc, leb_ℤ}
use macqueue.Base.Lists.{all, length}
use macqueue.Common.{keys, member, integer, object, has, list_where}
use macqueue.Json.{Json, int, arr, obj, Fields, field, end, lookup, key_names, to_list, get_item}
use macqueue.Schema.{
  each, seed, seed_items, seed_request, range_request, explicit_request, expand_seed_request,
  max_seed, max_range_seeds, is_within_uint64,
}

length-seed_items : (start count : ℕ) → length (to_list (seed_items start count)) ≡ count
length-seed_items start zero = refl
length-seed_items start (suc n) = ap suc (length-seed_items (suc start) n)

seed-in-range : (n : ℕ) → n < 2 ^ 64 → seed (int (pos n)) ≡ ok tt
unfolding integer
seed-in-range n h = ground arith

each-seed_items :
    (start count : ℕ)
    → start + count ≤ 2 ^ 64
    → each seed (to_list (seed_items start count)) ≡ ok tt
each-seed_items start zero h = refl
each-seed_items start (suc n) h =
    rw (seed-in-range start (omega (arith, h))) (each-seed_items (suc start) n (omega (arith, h)))

-- An object has no key that fails a test which all its keys pass.
lookup-none :
    (p : String → Bool) (k : String) (fields : Fields)
    → all p (key_names fields) ≡ true
    → p k ≡ false
    → lookup k fields ≡ none
lookup-none p k end h e = refl
lookup-none p k (field j v fs) h e =
    let (known, rest) = &&-eq-true (p j) _ h in
    elim (Bool-cases (j == k)) [
      | inl same ↦ let clash : p k ≡ true = subst (λ x. p x ≡ true) (eq_of_== j k same) known in cc
      | inr other ↦ rw other (lookup-none p k fs rest e)
    ]

-- The request for the seeds of a range, one by one.
abbrev range : ℕ → ℕ → Json
range start count = obj (
    field "seed_range" (obj (field "start" (int (pos start)) (field "count" (int (pos count)) end)))
      end)

abbrev listed : ℕ → ℕ → Json
listed start count = obj (field "seeds" (arr (seed_items start count)) end)

listed-is-request :
    (start count : ℕ)
    → 1 ≤ count
    → count ≤ 1048576
    → start + count ≤ 2 ^ 64
    → seed_request false (listed start count) ≡ ok (listed start count)
unfolding seed_request explicit_request keys object list_where
listed-is-request start count low high sum =
    rw
      (
        length-seed_items start count,
        le→leb 1 count low,
        le→leb count 1048576 high,
        each-seed_items start count sum,
      )
      refl

pub integer-eq-ok :
    (j : Json) (low high : ℤ) (name : String) {n : ℤ}
    → integer j low high name ≡ ok n
    → (j ≡ int n) × (leb_ℤ low n ≡ true) × (leb_ℤ n high ≡ true)
unfolding integer
integer-eq-ok (int m) low high name {n} h =
    let (within, e) = require-eq-ok (leb_ℤ low m && leb_ℤ m high) _ _ h in
    let (from, to) = &&-eq-true (leb_ℤ low m) _ within in
    subst (λ x. (int m ≡ int x) × (leb_ℤ low x ≡ true) × (leb_ℤ x high ≡ true)) (ok_injective m n e)
      (refl, from, to)
integer-eq-ok _ low high name h = cc

-- The range of a checked request.
pub record Range (fields : Fields) : Type 0 where
  pub item : Json
  pub start : ℕ
  pub count : ℕ
  pub is_item : get_item (obj fields) "seed_range" ≡ ok item
  pub is_start : get_item item "start" ≡ ok (int (pos start))
  pub is_count : get_item item "count" ≡ ok (int (pos count))
  pub low : 1 ≤ count
  pub high : count ≤ 1048576
  pub sum : start + count ≤ 2 ^ 64

within_uint64 :
    (s n : ℤ)
    → is_within_uint64 s n ≡ true
    → (a : ℕ) × (b : ℕ) × (s ≡ pos a) × (n ≡ pos b) × (a + b ≤ 2 ^ 64)
within_uint64 (pos a) (pos b) h = (a, b, refl, refl, leb→le (a + b) (2 ^ 64) h)
within_uint64 (pos a) (negsuc b) h = cc
within_uint64 (negsuc a) n h = cc

range_request-Range :
    (fields : Fields)
    → range_request true (obj fields) ≡ ok tt
    → (keys (obj fields) ("seed_range" ∷ []) [] ≡ ok tt) × Range fields
unfolding range_request
range_request-Range fields h =
    let (known, h₁) = >>-eq-ok (keys (obj fields) ("seed_range" ∷ []) []) _ h in
    let (item, e, h₂) = >>=-eq-ok (get_item (obj fields) "seed_range") _ h₁ in
    let (_, h₃) = >>-eq-ok (keys item ("start" ∷ "count" ∷ []) []) _ h₂ in
    let (s, es, h₄) = >>=-eq-ok (get_item item "start") _ h₃ in
    let (low, el, h₅) = >>=-eq-ok (integer s (pos 0) (pos max_seed) "seed range start") _ h₄ in
    let (c, ec, h₆) = >>=-eq-ok (get_item item "count") _ h₅ in
    let (n, en, h₇) = >>=-eq-ok (integer c (pos 1) (pos max_range_seeds) "seed range count") _ h₆ in
    let (fits, _) = require-eq-ok (is_within_uint64 low n) _ _ h₇ in
    let (a, b, ea, eb, sum) = within_uint64 low n fits in
    let (is_s, _, _) = integer-eq-ok s _ _ _ el in
    let (is_c, from, to) = integer-eq-ok c _ _ _ en in
    let least : leb_ℤ (pos 1) (pos b) ≡ true = subst (λ x. leb_ℤ (pos 1) x ≡ true) eb from in
    let most : leb_ℤ (pos b) (pos max_range_seeds) ≡ true =
      subst (λ x. leb_ℤ x (pos max_range_seeds) ≡ true) eb to in
    (
      known,
      record {
        item = item;
        start = a;
        count = b;
        is_item = e;
        is_start = es ∙ ap ok (is_s ∙ ap int ea);
        is_count = ec ∙ ap ok (is_c ∙ ap int eb);
        low = ground arith;
        high = ground arith;
        sum = sum;
      },
    )

abbrev is_known : String → Bool
is_known k = member ("seed_range" ∷ []) k || member [] k

no-seeds :
    (fields : Fields)
    → keys (obj fields) ("seed_range" ∷ []) [] ≡ ok tt
    → lookup "seeds" fields ≡ none
unfolding keys object
no-seeds fields h =
    let (_, e) = require-eq-ok (all (λ k. has k fields) ("seed_range" ∷ [])) _ _ h in
    let known = require-true (all is_known (key_names fields)) "unknown keys" e in
    lookup-none is_known "seeds" fields known refl

-- What the expansion of a request is: the request itself where it lists its seeds, and else the
-- seeds from the start of its range, as many as its count, in order; one that is accepted where
-- ranges are not.
abbrev pub Expanded : Fields → Json → Type 0
Expanded fields w =
    (seed_request false w ≡ ok w)
    × ((w ≡ obj fields) ⊎ ((r : Range fields) × (w ≡ listed r.start r.count)))

expand_ranged :
    (fields : Fields) (r : Range fields)
    → has "seed_range" fields ≡ true
    → range_request true (obj fields) ≡ ok tt
    → lookup "seeds" fields ≡ none
    → (w : Json) × (expand_seed_request (obj fields) ≡ ok w) × Expanded fields w
unfolding expand_seed_request seed_request object
expand_ranged fields r e h absent = (
  listed r.start r.count,
  rw (e, h, absent, r.is_item, r.is_start, r.is_count) refl,
  (listed-is-request r.start r.count r.low r.high r.sum, inr (r, refl)),
)

expand-listed :
    (fields : Fields)
    → has "seed_range" fields ≡ false
    → explicit_request (obj fields) ≡ ok tt
    → (w : Json) × (expand_seed_request (obj fields) ≡ ok w) × Expanded fields w
unfolding expand_seed_request seed_request explicit_request keys object
expand-listed fields e h =
    let (known, _) = >>-eq-ok (keys (obj fields) ("seeds" ∷ []) []) _ h in
    let (there, _) = require-eq-ok (all (λ k. has k fields) ("seeds" ∷ [])) _ _ known in
    let (given, _) = &&-eq-true (has "seeds" fields) _ there in
    (obj fields, rw (e, h, given) refl, (rw (e, h) refl, inl refl))

-- A seed request that is accepted is expanded: to itself where it lists its seeds, and else to the
-- list of the seeds from the start of its range on, as many as its count, which is within 1 to
-- 1048576 and does not pass 2 ^ 64. The expansion is accepted where ranges are not.
pub expand-Expanded :
    (fields : Fields)
    → seed_request true (obj fields) ≡ ok (obj fields)
    → (w : Json) × (expand_seed_request (obj fields) ≡ ok w) × Expanded fields w
unfolding seed_request object
expand-Expanded fields h = elim (Bool-cases (has "seed_range" fields)) [
  | inl e ↦
      let (done, _) = >>-eq-ok (range_request true (obj fields)) (ok (obj fields)) (rw e at h) in
      let (known, r) = range_request-Range fields done in
      expand_ranged fields r e done (no-seeds fields known)
  | inr e ↦
      let (done, _) = >>-eq-ok (explicit_request (obj fields)) (ok (obj fields)) (rw e at h) in
      expand-listed fields e done
]
