-- ===== src/Runner.antt =====
-- macqueue/runner.py: how the artifacts of a job are packed, and in Comparing how the binaries are
-- compared. A directory is the sorted list of what
-- stands below it, by relative path.
pub mod Packed
pub mod Comparing
pub mod Closed
pub mod Planned
pub mod Measured
pub mod Counts
mod Samples
use macqueue.Base.{
  ℕ, suc, ◌+◌, String, Bool, true, false, not, Option, none, some, List, [], ◌∷◌, ◌++◌, map, ◌==◌,
  string_eq, leb, ltb, is_some, Result, ok, err, invalid, ◌>>=◌, ◌>>◌, require,
}
use macqueue.Base.Files.{Files, find_file}
use macqueue.Base.Lists.{length}
use macqueue.Base.Text.{append}
use macqueue.Common.{relative}
use macqueue.Json.{str}

pub data Entry : Type 0 where
  directory : Entry
  regular : List ℕ → Entry
  link : Entry
  special : Entry

-- An entry of the manifest: path, bytes and sha256.
pub record Listed : Type 0 where
  pub path : String
  pub bytes : ℕ
  pub sha256 : String

-- The loop, with `total` and the number of files so far.
unfoldable pub collect : ℕ → Files Entry → ℕ → ℕ → Result (Files (List ℕ))
collect max_bytes [] total count = ok []
collect max_bytes ((path, directory) ∷ entries) total count = do
  _ ← relative (str (append "artifacts/" path))
  collect max_bytes entries total count
collect max_bytes ((path, regular bytes) ∷ entries) total count = do
  _ ← relative (str (append "artifacts/" path))
  require (leb (total + length bytes) max_bytes)
      "uncompressed artifacts exceed size limit; retained locally"
  require (ltb count 50000) "artifact file count limit exceeded"
  files ← collect max_bytes entries (total + length bytes) (suc count)
  ok ((path, bytes) ∷ files)
collect max_bytes ((path, link) ∷ entries) total count = err (invalid "symlink is not allowed")
collect max_bytes ((path, special) ∷ entries) total count =
    err (invalid "artifact contains a special file")

abbrev pub manifest_name : String
manifest_name = "artifact-manifest.json"

abbrev pub listed : (List ℕ → String) → String × List ℕ → Listed
listed sha256 (path, bytes) = record { path = path; bytes = length bytes; sha256 = sha256 bytes }

-- SHA-256, json_bytes of a manifest, and the size of the compressed archive.
module _ (sha256 : List ℕ → String) (dumps : List Listed → List ℕ)
    (compressed : Files (List ℕ) → ℕ) where
  -- The manifest, and the files of the archive.
  unfoldable pub pack_artifacts : ℕ → Files Entry → Result (List Listed × Files (List ℕ))
  pack_artifacts max_bytes artifacts = do
    files ← collect max_bytes artifacts 0 0
    require (not (is_some (find_file manifest_name artifacts)))
        "reserved artifact manifest path already exists"
    let manifest = map (listed sha256) files
    let packed = files ++ (manifest_name, dumps manifest) ∷ []
    require (leb (compressed packed) max_bytes) "compressed artifact exceeds upload limit"
    ok (manifest, packed)
