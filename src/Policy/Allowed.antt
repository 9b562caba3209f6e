-- ===== src/Policy/Allowed.antt =====
-- What a worker may run: the commands that macqueue/policy.py allows.
use macqueue.Base.{
  ◌≡◌, sym, subst, ap, ◌⊎◌, inl, inr, String, Bool, true, List, [], ◌∷◌, ◌==◌, string_eq, eq_of_==,
  ok, err, >>=-eq-ok, >>-eq-ok, require-eq-ok, Bool-cases, invalid,
}
use macqueue.Base.Text.{starts_with, drop_prefix}
use macqueue.Common.{member}
use macqueue.Json.{Json, str, Fields, lookup}
use macqueue.Policy.{Config, capability, job_argument}
use macqueue.Policy.Commands.{
  Texts, allow_command, check_environment, check_executable, check_cargo, check_frozen,
  check_inspector, is_checkout, is_approved, last, text_of, check_when,
}
use macqueue.Schema.Paths.{Confined, relative-Confined}

str_text : Json → String
str_text (str s) = s
str_text _ = ""

-- A path of the job below a directory of it.
abbrev pub Below : String → String → Type 0
Below value prefix = (starts_with value prefix ≡ true) × Confined (drop_prefix value "${JOB}/")

job_argument-Below :
    (value prefix : String) {path : String}
    → job_argument value prefix ≡ ok path
    → Below value prefix
unfolding job_argument str_text
job_argument-Below value prefix {path = path} h =
    let (starts, h₁) = require-eq-ok (starts_with value prefix) _ _ h in
    let (text, inside) = relative-Confined (str (drop_prefix value "${JOB}/")) h₁ in
    (starts, subst Confined (sym (ap str_text text)) inside)

-- The executables: cargo with an approved argument list in a checkout; a frozen binary of the job;
-- an inspector of a frozen binary; Apple's profiler.
abbrev pub Allowed : String → List String → String → Type 0
Allowed exe args cwd =
    ((exe ≡ "cargo") × (is_checkout cwd ≡ true) × (is_approved (exe ∷ args) ≡ true))
    ⊎ (Below exe "${JOB}/artifacts/frozen/"
        ⊎ (((member ("llvm-objdump" ∷ "nm" ∷ "size" ∷ []) exe ≡ true)
              × Below (last "" args) "${JOB}/artifacts/frozen/")
            ⊎ (exe ≡ "xcrun")))

module _ (config : Config) (lib : Texts) (template : Bool) (exe : String) (args : List String) where
  cargo-Allowed :
      (env : Fields) (flags cwd stdin : String)
      → check_cargo config (exe ∷ args) env flags cwd stdin ≡ ok tt
      → (is_checkout cwd ≡ true) × (is_approved (exe ∷ args) ≡ true)
  unfolding check_cargo
  cargo-Allowed env flags cwd stdin h =
      let (_, h₁) = >>-eq-ok (capability config "cargo") _ h in
      let (_, h₂) = require-eq-ok _ _ _ h₁ in
      let (place, h₃) = require-eq-ok (is_checkout cwd) _ _ h₂ in
      let (_, h₄) = >>-eq-ok (check_when _ (capability config "profiling-build")) _ h₃ in
      let (approved, _) = require-eq-ok (is_approved (exe ∷ args)) _ _ h₄ in (place, approved)

  frozen-Below :
      (flags stdin : String)
      → check_frozen config lib template exe args flags stdin ≡ ok tt
      → Below exe "${JOB}/artifacts/frozen/"
  unfolding check_frozen
  frozen-Below flags stdin h =
      let (_, h₁) = >>-eq-ok (capability config "benchmark") _ h in
      let (_, e, _) = >>=-eq-ok (job_argument exe "${JOB}/artifacts/frozen/") _ h₁ in
      job_argument-Below exe "${JOB}/artifacts/frozen/" e

  inspected-Below :
      (env : Fields) (stdin : String)
      → check_inspector config exe args env stdin ≡ ok tt
      → Below (last "" args) "${JOB}/artifacts/frozen/"
  unfolding check_inspector
  inspected-Below env stdin h =
      let (_, h₁) = >>-eq-ok (capability config "inspect") _ h in
      let (_, h₂) = require-eq-ok _ _ _ h₁ in
      let (_, e, _) = >>=-eq-ok (job_argument (last "" args) "${JOB}/artifacts/frozen/") _ h₂ in
      job_argument-Below (last "" args) "${JOB}/artifacts/frozen/" e

  executable-Allowed :
      (env : Fields) (cwd stdin : String)
      → check_executable config lib template exe args env cwd stdin ≡ ok tt
      → Allowed exe args cwd
  unfolding check_executable
  executable-Allowed env cwd stdin h =
      let flags = text_of (lookup "RUSTFLAGS" env) in
      elim (Bool-cases (exe == "cargo")) [
        | inl cargo ↦
            let (place, approved) = cargo-Allowed env flags cwd stdin (rw cargo at h) in
            inl (eq_of_== exe "cargo" cargo, place, approved)
        | inr a ↦ elim (Bool-cases (starts_with exe "${JOB}/artifacts/frozen/")) [
          | inl frozen ↦ inr (inl (frozen-Below flags stdin (rw (a, frozen) at h)))
          | inr b ↦ elim (Bool-cases (member ("llvm-objdump" ∷ "nm" ∷ "size" ∷ []) exe)) [
            | inl inspects ↦
                inr (inr (inl (inspects, inspected-Below env stdin (rw (a, b, inspects) at h))))
            | inr c ↦ elim (Bool-cases (exe == "xcrun")) [
              | inl apple ↦ inr (inr (inr (eq_of_== exe "xcrun" apple)))
              | inr d ↦
                  let refused : err (invalid "executable is not allowlisted") ≡ ok tt =
                    rw (a, b, c, d) at h in
                  cc
            ]
          ]
        ]
      ]

  -- A command that a worker allows runs cargo with an approved argument list in a checkout, or a
  -- frozen binary of the job, or an inspector whose last argument is a frozen binary, or xcrun; the
  -- path of the binary leads through its own components to a place below the job.
  pub allow_command-Allowed :
      (env : Fields) (cwd stdin : String)
      → allow_command config lib template exe args env cwd stdin ≡ ok tt
      → Allowed exe args cwd
  unfolding allow_command
  allow_command-Allowed env cwd stdin h =
      let (_, h₁) =
        >>-eq-ok (check_environment config env (text_of (lookup "RUSTFLAGS" env))) _ h in
      executable-Allowed env cwd stdin h₁
