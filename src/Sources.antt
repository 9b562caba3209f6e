-- ===== src/Sources.antt =====
-- macqueue/sources.py: packages of source code and their dependencies. What tarfile delivers is a
-- list of members, and a directory is a tree of files and directories by relative path.
pub mod Unpack
pub mod Confined
pub mod Catalog
pub mod Budget
pub mod Finding
mod Samples
use macqueue.Base.{
  ℕ, ◌*◌, ◌^◌, ◌+◌, ◌≡◌, refl, String, Bool, true, false, not, ◌&&◌, ◌||◌, Option, none, some, List,
  [], ◌∷◌, ◌==◌, nat_eq, string_eq, leb, ltb, if◌then◌else◌, Result, ok, err, invalid, ◌>>=◌, ◌>>◌,
  require,
}
use macqueue.Base.Int.{ℤ, pos, negsuc, leb_ℤ}
use macqueue.Base.Lists.{length, any}
use macqueue.Base.Text.{starts_with}

abbrev pub max_input_bytes : ℕ
max_input_bytes = 512 * 1024 ^ 2

abbrev pub max_expanded_bytes : ℕ
max_expanded_bytes = 4 * 1024 ^ 3

abbrev pub max_files : ℕ
max_files = 100000

-- The types of a member that the code tells apart.
pub data Kind : Type 0 where
  regular old_regular directory sparse_file extension other : Kind

-- A header, with the bytes that can be read of its member, and the reads of the decompressed stream
-- that tarfile makes from the member before to its end: the size asked for and what was delivered.
pub record Member : Type 0 where
  pub name : String
  pub kind : Kind
  pub size : ℤ
  pub sparse : Bool
  pub pax_keys : List String
  pub mode : ℕ
  pub body : List ℕ
  pub reads : List (ℤ × List ℕ)

abbrev pub is_extension : Kind → Bool
is_extension extension = true
is_extension _ = false

abbrev pub is_sparse : Kind → Bool
is_sparse sparse_file = true
is_sparse _ = false

abbrev pub is_size : ℤ → Bool
is_size size = leb_ℤ (pos 0) size && leb_ℤ size (pos max_input_bytes)

-- `BoundedTarInfo.checked_header`: of every header, extensions included, before its body is read.
unfoldable pub checked_header : Member → Result (Unit {0})
checked_header item = do
  require (is_size item.size) "invalid archive member size"
  require (not (is_extension item.kind) || leb_ℤ item.size (pos 65536))
      "archive extension header too large"
  require (not (is_sparse item.kind)) "sparse members are not allowed"
  ok tt

-- `LimitedReader.read`: the total, and what the stream delivers.
unfoldable pub read : ℤ → List ℕ → ℕ → Result ℕ
read size bytes total = do
  require (is_size size) "unbounded archive read"
  require (leb (total + length bytes) max_expanded_bytes) "expanded archive exceeds 4 GiB"
  ok (total + length bytes)
