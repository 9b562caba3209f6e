-- ===== src/Sources/Catalog.antt =====
-- The catalog of unpacked packages on a worker: `lookup`, `publish` and `remove_snapshot` of
-- macqueue/sources.py. A snapshot is a directory with its receipt, by project and checksum; it is made
-- and removed whole, and has no symbolic links.
use macqueue.Base.{
  ℕ, ◌*◌, ◌^◌, ◌+◌, String, Bool, true, false, not, ◌&&◌, ◌||◌, Option, none, some, List, [], ◌∷◌,
  ◌==◌, nat_eq, string_eq, leb, ltb, if◌then◌else◌, Result, ok, ◌>>◌, require,
}
use macqueue.Base.Lists.{length, filter, find}
use macqueue.Json.{Json, str, bool, obj, Fields, field, end}
use macqueue.Common.{has}
use Prim.Native.Char.{code}

pub record Snapshot : Type 0 where
  pub project : String
  pub sha256 : String
  pub revisions : Fields
  pub receipt : Json
  -- The bytes of all its files, the receipt included.
  pub bytes : ℕ

abbrev pub Catalog : Type 0
Catalog = List Snapshot

abbrev pub max_cache_bytes : ℕ
max_cache_bytes = 16 * 1024 ^ 3

-- `a > b` of texts, by code points.
abbrev pub is_later : String → String → Bool
is_later String.[] b = false
is_later (String.◌∷◌ c a) String.[] = true
is_later (String.◌∷◌ c a) (String.◌∷◌ d b) =
    ltb (code d) (code c) || code c == code d && is_later a b

abbrev pub later : Snapshot → Option Snapshot → Snapshot
later s none = s
later s (some t) = if is_later s.sha256 t.sha256 then s else t

-- The first of `sorted(…, reverse=True)`.
unfoldable pub latest : List Snapshot → Option Snapshot
latest [] = none
latest (s ∷ rest) = some (later s (latest rest))

abbrev pub serves : String → String → Snapshot → Bool
serves project commit s = s.project == project && has commit s.revisions

-- `enabled` says that the worker has the capability source-provision and a state directory.
unfoldable pub lookup : Bool → String → String → Catalog → Option Snapshot
lookup enabled project commit snapshots =
    if enabled then latest (filter (serves project commit) snapshots) else none

abbrev pub usage : Catalog → ℕ
usage [] = 0
usage (s ∷ rest) = s.bytes + usage rest

abbrev pub is_at : String → String → Snapshot → Bool
is_at project sha s = s.project == project && s.sha256 == sha

abbrev pub receipt_of : String → String → Fields → String → Json → Json
receipt_of project sha revisions job now = obj (
    field "project" (str project) (
      field "sha256" (str sha) (
        field "revisions" (obj revisions) (
          field "provision_job" (str job)
            (field "verified_at" now (field "offline_metadata" (bool true) end))))))

-- An unpacked package: the fields of its manifest that are read, and the bytes of its files.
pub record Package : Type 0 where
  pub project : String
  pub sha256 : String
  pub revisions : Fields
  pub bytes : ℕ

-- `alive` is the outcome of runner.check(), and `dumps` is json_bytes.
module _ (dumps : Json → List ℕ) where
  unfoldable pub publish_new :
      Package → String → Json → Result (Unit {0}) → Catalog → Result (Json × Catalog)
  publish_new p job now alive snapshots = do
    require (ltb (length snapshots) 64)
        "source snapshot count limit reached; revoke an unused package"
    require (leb (usage snapshots + p.bytes) max_cache_bytes)
        "source cache budget reached; revoke an unused source package"
    alive
    let receipt = receipt_of p.project p.sha256 p.revisions job now
    ok (
      receipt,
      record {
        project = p.project;
        sha256 = p.sha256;
        revisions = p.revisions;
        receipt = receipt;
        bytes = p.bytes + length (dumps receipt);
      }
          ∷ snapshots,
    )

  abbrev pub publish_over :
      Option Snapshot
      → Package
      → String
      → Json
      → Result (Unit {0})
      → Catalog
      → Result (Json × Catalog)
  publish_over none p job now alive snapshots = publish_new p job now alive snapshots
  publish_over (some s) p job now alive snapshots = ok (s.receipt, snapshots)

  unfoldable pub publish :
      Package → String → Json → Result (Unit {0}) → Catalog → Result (Json × Catalog)
  publish p job now alive snapshots =
      publish_over (find (is_at p.project p.sha256) snapshots) p job now alive snapshots

-- `remove_snapshot`, of the snapshot that a revocation names.
unfoldable pub remove_snapshot : String → String → Catalog → Catalog
remove_snapshot project sha snapshots = filter (λ s. not (is_at project sha s)) snapshots
