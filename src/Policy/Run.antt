-- ===== src/Policy/Run.antt =====
-- What a worker runs of a command (macqueue/policy.py `Policy.argv`).
use macqueue.Base.{
  String, Bool, true, false, not, Option, none, some, List, [], ◌∷◌, ◌≡◌, refl, sym, ◌∙◌, ap, subst,
  ◌==◌, string_eq, if◌then◌else◌, Result, ok, ◌>>=◌, ◌>>◌, require, >>=-eq-ok, >>-eq-ok,
  require-eq-ok, ok_injective, not-true, Bool-cases, inl, inr, ◌⊎◌,
}
use macqueue.Base.Files.{Files, find_file}
use macqueue.Base.Lists.{All}
use macqueue.Base.Text.{starts_with, contains_text, drop_prefix}
use macqueue.Policy.Argv.{
  replace_text, with_workers, or_key_missing, expand, expand_all, check_paths, resolve, wrap, argv,
}

-- An argument with its templates filled in; none is left.
pub record IsExpansion (root : String) (workers : Option String) (given expanded : String)
    : Type 0 where
  pub filled : expanded ≡ with_workers workers (replace_text given "${JOB}" root)
  pub plain : contains_text expanded "${" ≡ false

abbrev pub AreExpansions : String → Option String → List String → List String → Type 0
AreExpansions root workers [] [] = Unit
AreExpansions root workers (a ∷ given) (b ∷ expanded) =
    IsExpansion root workers a b × AreExpansions root workers given expanded
AreExpansions root workers _ _ = ⊥

expand-IsExpansion :
    (root : String) (workers : Option String) (a : String) {b : String}
    → expand root workers a ≡ ok b
    → IsExpansion root workers a b
unfolding expand
expand-IsExpansion root workers a {b} h =
    let filled = with_workers workers (replace_text a "${JOB}" root) in
    let (plain, e) = require-eq-ok (not (contains_text filled "${")) _ _ h in
    subst (IsExpansion root workers a) (ok_injective filled b e)
      (record { filled = refl; plain = not-true _ plain })

expand_all-AreExpansions :
    (root : String) (workers : Option String) (given : List String) {expanded : List String}
    → expand_all root workers given ≡ ok expanded
    → AreExpansions root workers given expanded
unfolding expand_all
expand_all-AreExpansions root workers [] {expanded} h =
    subst (AreExpansions root workers []) (ok_injective [] expanded h) tt
expand_all-AreExpansions root workers (a ∷ given) {expanded} h =
    let (b, e, h₁) = >>=-eq-ok (expand root workers a) _ h in
    let (rest, f, h₂) = >>=-eq-ok (expand_all root workers given) _ h₁ in
    subst (AreExpansions root workers (a ∷ given)) (ok_injective (b ∷ rest) expanded h₂)
      (expand-IsExpansion root workers a e, expand_all-AreExpansions root workers given f)

found :
    (key : String) (o : Option String) {path : String}
    → or_key_missing key o ≡ ok path
    → o ≡ some path
found key none h = cc
found key (some p) {path} h = ap some (ok_injective p path h)

module _ (tools : Files String) (safe_path : String → Result (Unit {0}))
    (is_file : String → Result Bool) where
  -- The tool that a wrapper names runs with its option before the rest, the first wrapper outermost.
  abbrev pub Wraps : List String → List String → List String → Type 0
  Wraps [] inner args = args ≡ inner
  Wraps (wrapper ∷ wrappers) inner args =
      (tool : String) × (rest : List String) × (find_file wrapper tools ≡ some tool)
      × (args ≡ tool ∷ (if wrapper == "time" then "-l" else "-i") ∷ rest)
      × Wraps wrappers inner rest

  -- What is run for the first argument: the file itself, below the job, or the tool of that name.
  abbrev pub Runs : Bool → String → String → String → Type 0
  Runs true program expanded first =
      (is_file (drop_prefix program "${JOB}/") ≡ ok true) × (first ≡ expanded)
  Runs false program expanded first = find_file expanded tools ≡ some first

  abbrev pub IsChecked : String → Type 0
  IsChecked a = (starts_with a "${JOB}/" ≡ false) ⊎ (safe_path (drop_prefix a "${JOB}/") ≡ ok tt)

  pub record Runnable (root : String) (workers : Option String) (given wrappers args : List String)
      : Type 0 where
    pub program : String
    pub rest : List String
    pub is_given : given ≡ program ∷ rest
    pub checked : All IsChecked given
    pub expanded : String
    pub others : List String
    pub expansions : AreExpansions root workers given (expanded ∷ others)
    pub first : String
    pub runs : Runs (starts_with program "${JOB}/") program expanded first
    pub wrapped : Wraps wrappers (first ∷ others) args

  check_paths-All :
      (given : List String)
      → check_paths tools safe_path is_file given ≡ ok tt
      → All IsChecked given
  unfolding check_paths
  check_paths-All [] h = tt
  check_paths-All (a ∷ rest) h = elim (Bool-cases (starts_with a "${JOB}/")) [
    | inl below ↦
        let both : (safe_path (drop_prefix a "${JOB}/") >> check_paths tools safe_path is_file rest)
            ≡ ok tt =
          rw below at h in
        let (one, more) = >>-eq-ok (safe_path (drop_prefix a "${JOB}/")) _ both in
        (inr one, check_paths-All rest more)
    | inr other ↦
        let more : check_paths tools safe_path is_file rest ≡ ok tt = rw other at h in
        (inl other, check_paths-All rest more)
  ]

  wrap-Wraps :
      (wrappers inner : List String) {args : List String}
      → wrap tools safe_path is_file wrappers inner ≡ ok args
      → Wraps wrappers inner args
  unfolding wrap
  wrap-Wraps [] inner {args} h = sym (ok_injective inner args h)
  wrap-Wraps (wrapper ∷ wrappers) inner {args} h =
      let (rest, e, h₁) = >>=-eq-ok (wrap tools safe_path is_file wrappers inner) _ h in
      let (tool, f, h₂) = >>=-eq-ok (or_key_missing wrapper (find_file wrapper tools)) _ h₁ in
      (tool, rest, found wrapper _ f, sym (ok_injective _ args h₂), wrap-Wraps wrappers inner e)

  resolve-Runs :
      (below : Bool) (program expanded : String) (others : List String) {inner : List String}
      → starts_with program "${JOB}/" ≡ below
      → resolve tools safe_path is_file program (expanded ∷ others) ≡ ok inner
      → (first : String) × Runs below program expanded first × (inner ≡ first ∷ others)
  unfolding resolve
  resolve-Runs true program expanded others {inner} b h =
      let there : (is_file (drop_prefix program "${JOB}/")
            >>= (λ found. require found "binary is missing" >> ok (expanded ∷ others)))
          ≡ ok inner =
        rw b at h in
      let (is_there, e, h₁) = >>=-eq-ok (is_file (drop_prefix program "${JOB}/")) _ there in
      let (sure, h₂) = require-eq-ok is_there _ _ h₁ in
      (expanded, ((e ∙ ap ok sure), refl), sym (ok_injective (expanded ∷ others) inner h₂))
  resolve-Runs false program expanded others {inner} b h =
      let named : (or_key_missing expanded (find_file expanded tools)
            >>= (λ tool. ok (tool ∷ others)))
          ≡ ok inner =
        rw b at h in
      let (tool, e, h₁) = >>=-eq-ok (or_key_missing expanded (find_file expanded tools)) _ named in
      (tool, found expanded _ e, sym (ok_injective (tool ∷ others) inner h₁))

  runnable :
      (root : String) (workers : Option String) (program : String)
      (rest wrappers expanded : List String) {inner args : List String}
      → All IsChecked (program ∷ rest)
      → AreExpansions root workers (program ∷ rest) expanded
      → resolve tools safe_path is_file program expanded ≡ ok inner
      → wrap tools safe_path is_file wrappers inner ≡ ok args
      → Runnable root workers (program ∷ rest) wrappers args
  runnable root workers program rest wrappers [] c e r w = absurd e
  runnable root workers program rest wrappers (expanded ∷ others) {inner} {args} c e r w =
      let (first, runs, same) =
        resolve-Runs (starts_with program "${JOB}/") program expanded others refl r in
      record {
        program = program;
        rest = rest;
        is_given = refl;
        checked = c;
        expanded = expanded;
        others = others;
        expansions = e;
        first = first;
        runs = runs;
        wrapped = subst (λ xs. Wraps wrappers xs args) same (wrap-Wraps wrappers inner w);
      }

  -- If a command can be run with some arguments, then it has a first argument, and each argument that
  -- starts with ${JOB}/ was found safe; each is expanded in its place, with no template left; the first
  -- is, below the job, a file that is there, and else replaced by the tool of its name; and before
  -- them stands, for each wrapper, the first outermost, its tool with -l for time and -i for the other.
  pub argv-Runnable :
      (root : String) (workers : Option String) (given wrappers : List String) {args : List String}
      → argv tools safe_path is_file root workers given wrappers ≡ ok args
      → Runnable root workers given wrappers args
  unfolding argv
  argv-Runnable root workers [] wrappers h = cc
  argv-Runnable root workers (program ∷ rest) wrappers h =
      let (checked, h₁) = >>-eq-ok (check_paths tools safe_path is_file (program ∷ rest)) _ h in
      let (expanded, e, h₂) = >>=-eq-ok (expand_all root workers (program ∷ rest)) _ h₁ in
      let (inner, r, h₃) = >>=-eq-ok (resolve tools safe_path is_file program expanded) _ h₂ in
      runnable root workers program rest wrappers expanded
        (check_paths-All (program ∷ rest) checked)
        (expand_all-AreExpansions root workers (program ∷ rest) e) r h₃
