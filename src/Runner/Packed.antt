-- ===== src/Runner/Packed.antt =====
-- What an archive of artifacts holds.
use macqueue.Base.{
  ℕ, suc, ◌+◌, ◌≤◌, ◌≡◌, refl, ap, subst, String, true, not, Option, none, some, List, [], ◌∷◌,
  ◌++◌, map, leb, ltb, is_some, ok, arith, leb→le, ltb→lt, >>=-eq-ok, require-eq-ok, ok_injective,
}
use macqueue.Base.Files.{Files, find_file}
use macqueue.Base.Lists.{All, length}
use macqueue.Base.Text.{append}
use macqueue.Common.{relative}
use macqueue.Json.{str}
use macqueue.Runner.{
  Entry, directory, regular, link, special, Listed, collect, manifest_name, listed, pack_artifacts,
}

-- The regular files, in their order.
abbrev pub regulars : Files Entry → Files (List ℕ)
regulars [] = []
regulars ((path, regular bytes) ∷ entries) = (path, bytes) ∷ regulars entries
regulars ((path, _) ∷ entries) = regulars entries

abbrev pub total_bytes : Files (List ℕ) → ℕ
total_bytes [] = 0
total_bytes ((path, bytes) ∷ files) = length bytes + total_bytes files

abbrev pub IsPlain : String × Entry → Type 0
IsPlain (path, directory) = Unit
IsPlain (path, regular _) = Unit
IsPlain (path, link) = ⊥
IsPlain (path, special) = ⊥

record Collected (max_bytes total count : ℕ) (entries : Files Entry) (files : Files (List ℕ))
    : Type 0 where
  all_regular : files ≡ regulars entries
  bounded : total ≤ max_bytes → total + total_bytes files ≤ max_bytes
  few : count ≤ 50000 → count + length files ≤ 50000
  plain : All IsPlain entries

collect-Collected :
    (max_bytes : ℕ) (entries : Files Entry) (total count : ℕ) (files : Files (List ℕ))
    → collect max_bytes entries total count ≡ ok files
    → Collected max_bytes total count entries files
unfolding collect
collect-Collected max_bytes [] total count files h =
    subst (Collected max_bytes total count []) (ok_injective [] files h) (record {
      all_regular = refl;
      bounded = λ b. omega arith;
      few = λ b. omega arith;
      plain = tt;
    })
collect-Collected max_bytes ((path, directory) ∷ entries) total count files h =
    let (_, _, h₁) = >>=-eq-ok (relative (str (append "artifacts/" path))) _ h in
    let c = collect-Collected max_bytes entries total count files h₁ in
    record { all_regular = c.all_regular; bounded = c.bounded; few = c.few; plain = (tt, c.plain) }
collect-Collected max_bytes ((path, regular bytes) ∷ entries) total count files h =
    let (_, _, h₀) = >>=-eq-ok (relative (str (append "artifacts/" path))) _ h in
    let (fits, h₁) = require-eq-ok (leb (total + length bytes) max_bytes) _ _ h₀ in
    let (room, h₂) = require-eq-ok (ltb count 50000) _ _ h₁ in
    let (rest, done, h₃) =
      >>=-eq-ok (collect max_bytes entries (total + length bytes) (suc count)) _ h₂ in
    let c = collect-Collected max_bytes entries (total + length bytes) (suc count) rest done in
    let all : Collected max_bytes total count ((path, regular bytes) ∷ entries)
        ((path, bytes) ∷ rest) =
      record {
        all_regular = ap (λ fs. (path, bytes) ∷ fs) c.all_regular;
        bounded = λ b. omega (arith, c.bounded (leb→le _ _ fits));
        few = λ b. omega (arith, c.few (ltb→lt count 50000 room));
        plain = (tt, c.plain);
      } in
    subst (Collected max_bytes total count ((path, regular bytes) ∷ entries))
      (ok_injective ((path, bytes) ∷ rest) files h₃) all
collect-Collected max_bytes ((path, link) ∷ entries) total count files h = cc
collect-Collected max_bytes ((path, special) ∷ entries) total count files h = cc

module _ (sha256 : List ℕ → String) (dumps : List Listed → List ℕ)
    (compressed : Files (List ℕ) → ℕ) where
  pub record Packed (max_bytes : ℕ) (artifacts : Files Entry) (manifest : List Listed)
      (archive : Files (List ℕ)) : Type 0 where
    pub plain : All IsPlain artifacts
    pub manifest_free : find_file manifest_name artifacts ≡ none
    pub complete : archive ≡ regulars artifacts ++ (manifest_name, dumps manifest) ∷ []
    pub truthful : manifest ≡ map (listed sha256) (regulars artifacts)
    pub few : length manifest ≤ 50000
    pub bounded : total_bytes (regulars artifacts) ≤ max_bytes
    pub small : compressed archive ≤ max_bytes

  not_some : (o : Option Entry) → not (is_some o) ≡ true → o ≡ none
  not_some none h = refl
  not_some (some _) h = cc

  length-map : (f : String × List ℕ → Listed) (xs : Files (List ℕ)) → length (map f xs) ≡ length xs
  length-map f [] = refl
  length-map f (x ∷ xs) = ap suc (length-map f xs)

  written_archive :
      (max_bytes : ℕ) (artifacts : Files Entry) (files : Files (List ℕ))
      → Collected max_bytes 0 0 artifacts files
      → find_file manifest_name artifacts ≡ none
      → compressed (files ++ (manifest_name, dumps (map (listed sha256) files)) ∷ []) ≤ max_bytes
      → Packed max_bytes artifacts
          (map (listed sha256) files)
          (files ++ (manifest_name, dumps (map (listed sha256) files)) ∷ [])
  written_archive max_bytes artifacts files c free small = record {
    plain = c.plain;
    manifest_free = free;
    complete =
        ap (λ fs. fs ++ (manifest_name, dumps (map (listed sha256) files)) ∷ []) c.all_regular;
    truthful = ap (map (listed sha256)) c.all_regular;
    few = omega (arith, length-map (listed sha256) files, c.few (omega arith));
    bounded =
        subst (λ fs. total_bytes fs ≤ max_bytes) c.all_regular
          (omega (arith, c.bounded (omega arith)));
    small = small;
  }

  -- If an archive is made, then there is no symbolic link and no special file among the artifacts, and
  -- nothing with the name of the manifest; the archive holds each regular file with its bytes, and then
  -- the manifest, which lists each with its size and checksum; there are at most 50000, their bytes are
  -- within the limit together, and so is the compressed archive.
  pub pack_artifacts-Packed :
      (max_bytes : ℕ) (artifacts : Files Entry) (manifest : List Listed) (archive : Files (List ℕ))
      → pack_artifacts sha256 dumps compressed max_bytes artifacts ≡ ok (manifest, archive)
      → Packed max_bytes artifacts manifest archive
  unfolding pack_artifacts
  pack_artifacts-Packed max_bytes artifacts manifest archive h =
      let (files, done, h₁) = >>=-eq-ok (collect max_bytes artifacts 0 0) _ h in
      let (free, h₂) = require-eq-ok (not (is_some (find_file manifest_name artifacts))) _ _ h₁ in
      let archive' = files ++ (manifest_name, dumps (map (listed sha256) files)) ∷ [] in
      let (small, h₃) = require-eq-ok (leb (compressed archive') max_bytes) _ _ h₂ in
      subst (λ (r : List Listed × Files (List ℕ)). Packed max_bytes artifacts r.0 r.1)
        (ok_injective (map (listed sha256) files, archive') (manifest, archive) h₃)
        (written_archive max_bytes artifacts files
          (collect-Collected max_bytes artifacts 0 0 files done) (not_some _ free)
          (leb→le _ _ small))
