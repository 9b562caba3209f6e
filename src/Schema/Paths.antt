-- ===== src/Schema/Paths.antt =====
-- Where the paths that macqueue/common.py and macqueue/schema.py accept lead to.
use Prim.Native.Char.{code}
use macqueue.Base.{
  ◌≡◌, refl, subst, String, Bool, true, false, not, ◌&&◌, List, [], ◌∷◌, ◌==◌, string_eq, eq_of_==,
  if◌then◌else◌, ok, >>=-eq-ok, require-eq-ok, &&-eq-true, arith, ok_injective, ◌||◌, nat_eq,
  not-true,
}
use macqueue.Base.Lists.{all}
use macqueue.Base.Text.{split, starts_with}
use macqueue.Common.{member, relative, is_component, is_below, text_where}
use macqueue.Json.{Json, str}
use macqueue.Schema.{output, reserved}

-- Where a path leads, as POSIX resolves it without links: the directories from the last one up,
-- from those of the start. An empty component and "." stay, ".." goes up.
abbrev pub enter : String → List String → List String
enter c at = if "" == c then at else if "." == c then at else if ".." == c then up at else c ∷ at
  where
    up : List String → List String
    up [] = []
    up (d ∷ ds) = ds

abbrev pub walk : List String → List String → List String
walk at [] = at
walk at (c ∷ cs) = walk (enter c at) cs

-- `at` with the components pushed one by one.
abbrev pub push_all : List String → List String → List String
push_all at [] = at
push_all at (c ∷ cs) = push_all (c ∷ at) cs

enter-component : (c : String) (at : List String) → is_component c ≡ true → enter c at ≡ c ∷ at
enter-component c at h = ground arith

walk-push_all : (at cs : List String) → all is_component cs ≡ true → walk at cs ≡ push_all at cs
walk-push_all at [] h = refl
walk-push_all at (c ∷ cs) h =
    let (first, rest) = &&-eq-true (is_component c) _ h in
    rw (enter-component c at first) (walk-push_all (c ∷ at) cs rest)

-- The path is not absolute, and from any directory it leads through its own components, one below
-- the other, to a place under that directory.
abbrev pub Confined : String → Type 0
Confined s =
    (starts_with s "/" ≡ false)
    × ((at : List String) → walk at (split b'/' s) ≡ push_all at (split b'/' s))

pub below-Confined : (s : String) → is_below s ≡ true → Confined s
below-Confined s h =
    let (start, parts) = &&-eq-true (not (starts_with s "/")) _ h in
    (ground arith, λ at. walk-push_all at (split b'/' s) parts)

pub text-eq-ok :
    (p : String → Bool) (message : String) (value : Json) {s : String}
    → text_where p message value ≡ ok s
    → (value ≡ str s) × (p s ≡ true)
unfolding text_where
text-eq-ok p message (str t) {s} h =
    let (holds, e) = require-eq-ok (p t) message (ok t) h in
    subst (λ x. (str t ≡ str x) × (p x ≡ true)) (ok_injective t s e) (refl, holds)
text-eq-ok p message _ h = cc

-- A path that `relative` accepts is confined.
pub relative-Confined :
    (value : Json) {s : String} → relative value ≡ ok s → (value ≡ str s) × Confined s
unfolding relative
relative-Confined value {s} h =
    let (t, e, h₁) = >>=-eq-ok (text_where _ _ value) _ h in
    let (below, h₂) = require-eq-ok (is_below t) _ _ h₁ in
    let (_, h₃) = require-eq-ok _ _ _ h₂ in
    let (text, _) = text-eq-ok _ _ value e in
    subst (λ x. (value ≡ str x) × Confined x) (ok_injective t s h₃) (text, below-Confined t below)

-- A confined path under work/ or artifacts/, and not in the directory of the frozen binaries.
abbrev pub Writable : String → Type 0
Writable s =
    Confined s
    × ((starts_with s "work/" || starts_with s "artifacts/") ≡ true)
    × (starts_with s "artifacts/frozen/" ≡ false)

-- A confined path below artifacts/, outside the frozen binaries and the records of the worker.
pub record OutputPath (s : String) : Type 0 where
  pub confined : Confined s
  pub below : starts_with s "artifacts/" ≡ true
  pub thawed : starts_with s "artifacts/frozen/" ≡ false
  pub unreserved : member reserved s ≡ false
  pub own : (starts_with s "artifacts/internal/" || starts_with s "artifacts/environment-") ≡ false

-- An accepted output path is a relative path that leads through its own components, one below the
-- other, to a place below artifacts/, and is not below artifacts/frozen/; it is none of the three
-- records of the worker, nor below artifacts/internal/, nor does it start with artifacts/environment-.
pub output-OutputPath :
    (value : Json) {s : String} → output value ≡ ok s → (value ≡ str s) × OutputPath s
unfolding output
output-OutputPath value {s} h =
    let (t, e, h₁) = >>=-eq-ok (relative value) _ h in
    let (top, h₂) =
      require-eq-ok (starts_with t "artifacts/" && not (starts_with t "artifacts/frozen/")) _ _
        h₁ in
    let (free, h₃) = require-eq-ok _ _ _ h₂ in
    let (text, inside) = relative-Confined value e in
    let (below, outside) = &&-eq-true (starts_with t "artifacts/") _ top in
    let (unnamed, own) = &&-eq-true (not (member reserved t)) _ free in
    subst (λ x. (value ≡ str x) × OutputPath x) (ok_injective t s h₃)
      (
        text,
        record {
          confined = inside;
          below = below;
          thawed = not-true _ outside;
          unreserved = not-true _ unnamed;
          own = not-true _ own;
        },
      )

-- An output path may be written to.
pub output-Writable :
    (value : Json) {s : String} → output value ≡ ok s → (value ≡ str s) × Writable s
output-Writable value {s} h =
    let (text, o) = output-OutputPath value h in (text, (o.confined, under s o.below, o.thawed))
  where
    under :
        (t : String)
        → starts_with t "artifacts/" ≡ true
        → (starts_with t "work/" || starts_with t "artifacts/") ≡ true
    under t h = ground arith

-- A text that starts with a text starts with what that one starts with.
pub starts_with_trans :
    (s q p : String) → starts_with q p ≡ true → starts_with s q ≡ true → starts_with s p ≡ true
starts_with_trans s q String.[] h k = refl
starts_with_trans s String.[] (String.◌∷◌ e p) h k = cc
starts_with_trans String.[] (String.◌∷◌ d q) (String.◌∷◌ e p) h k = cc
starts_with_trans (String.◌∷◌ c s) (String.◌∷◌ d q) (String.◌∷◌ e p) h k =
    let (de, qp) = &&-eq-true (code d == code e) _ h in
    let (cd, sq) = &&-eq-true (code c == code d) _ k in
    rw (eq_of_== (code c) (code d) cd, de) (starts_with_trans s q p qp sq)
