-- ===== src/Sources/Unpack.antt =====
-- `unpack` of macqueue/sources.py. The target directory is new, so that it holds what unpack puts there
-- and no symbolic links.
use macqueue.Base.{
  ℕ, ◌+◌, ◌%◌, ◌/◌, String, Bool, true, false, not, ◌&&◌, ◌||◌, Option, none, some, List, [], ◌∷◌,
  ◌==◌, nat_eq, string_eq, leb, ltb, if◌then◌else◌, Result, ok, err, invalid, os_error, ◌>>=◌, ◌>>◌,
  require,
}
use macqueue.Base.Int.{ℤ, pos, negsuc}
use macqueue.Base.Lists.{length, any, all, take}
use macqueue.Base.Files.{Files, find_file, put_file}
use macqueue.Base.Text.{starts_with, append, split, size, all_chars}
use macqueue.Common.{relative, keys, member, object}
use macqueue.Json.{Json, str, int, entries, count_fields, get_item}
use macqueue.Schema.Command.{is_exactly}
use macqueue.Sources.{
  Kind, regular, old_regular, directory, Member, is_size, read, checked_header, is_extension,
  max_files, max_input_bytes, max_expanded_bytes,
}
use Prim.Native.Char.{code}

pub data Node : Type 0 where
  folder : Node
  content : List ℕ → Bool → Node

-- `seen`, `total`, the target directory, and the total of the LimitedReader.
pub record Progress : Type 0 where
  pub seen : List String
  pub total : ℕ
  pub tree : Files Node
  pub streamed : ℕ

-- The calls of `check`, before each member and while one is copied.
pub record Checks : Type 0 where
  pub before : ℕ → Result (Unit {0})
  pub during : String → Result (Unit {0})

-- `s.rstrip('/')`
abbrev pub rstrip : String → String
rstrip String.[] = String.[]
rstrip (String.◌∷◌ c s) =
    let rest = rstrip s in if rest == "" && code c == b'/' then "" else String.◌∷◌ c rest

abbrev pub is_directory : Kind → Bool
is_directory directory = true
is_directory _ = false

abbrev pub is_plain : Kind → Bool
is_plain regular = true
is_plain old_regular = true
is_plain directory = true
is_plain _ = false

abbrev pub is_expected : String → Bool
is_expected name =
    member ("manifest.json" ∷ "source.bundle" ∷ "vendor" ∷ []) name || starts_with name "vendor/"

abbrev pub size_of : ℤ → ℕ
size_of (pos n) = n
size_of (negsuc n) = 0

-- `mkdir(exist_ok=True)` of one directory.
abbrev pub make_directory : String → Option Node → Files Node → Result (Files Node)
make_directory path none tree = ok (put_file path folder tree)
make_directory path (some folder) tree = ok tree
make_directory path (some (content _ _)) tree = err os_error

-- The directories that the components lead through, from the first on.
unfoldable pub make_directories : String → List String → Files Node → Result (Files Node)
make_directories path [] tree = ok tree
make_directories path (name ∷ names) tree = do
  made ← make_directory (append path name) (find_file (append path name) tree) tree
  make_directories (append (append path name) "/") names made

-- All but the last component.
abbrev pub parents : List String → List String
parents [] = []
parents (name ∷ []) = []
parents (name ∷ next ∷ names) = name ∷ parents (next ∷ names)

-- `dest.open('xb')`
abbrev pub create : String → Node → Option Node → Files Node → Result (Files Node)
create path node none tree = ok (put_file path node tree)
create path node (some _) tree = err os_error

-- `item.mode & 0o111`
abbrev is_executable : ℕ → Bool
is_executable mode = not (mode % 2 == 0 && mode / 8 % 2 == 0 && mode / 64 % 2 == 0)

unfoldable pub extract : Checks → Member → String → Bool → Files Node → Result (Files Node)
extract checks item name true tree = do
  require (size_of item.size == 0) "directory with file data"
  make_directories "" (split b'/' name) tree
extract checks item name false tree = do
  made ← make_directories "" (parents (split b'/' name)) tree
  checks.during name
  let bytes = take (size_of item.size) item.body
  require (length bytes == size_of item.size) "truncated archive member"
  create name (content bytes (is_executable item.mode)) (find_file name made) made

abbrev pub name_of : Member → String
name_of item = if is_directory item.kind then rstrip item.name else item.name

unfoldable pub add_member : Checks → Member → Progress → Result Progress
add_member checks item p = do
  checks.before (length p.seen)
  require (ltb (length p.seen) max_files) "too many source package members"
  name ← relative (str (name_of item))
  require (not (member p.seen name)) "duplicate source package member"
  require (is_expected name) "unexpected source package path"
  require (is_plain item.kind && not item.sparse) "links/special files are not allowed"
  require (is_size item.size) "invalid archive member size"
  require (not (any (λ key. starts_with key "GNU.sparse") item.pax_keys))
      "sparse members are not allowed"
  require (leb (p.total + size_of item.size) max_expanded_bytes)
      "source package exceeds expanded limit"
  tree ← extract checks item name (is_directory item.kind) p.tree
  ok (record {
    seen = name ∷ p.seen;
    total = p.total + size_of item.size;
    tree = tree;
    streamed = p.streamed;
  })

-- tarfile passes extension headers to the hook and keeps them to itself.
abbrev pub next_member : Checks → Member → Bool → Progress → Result Progress
next_member checks item true p = ok p
next_member checks item false p = add_member checks item p

-- Reads through the LimitedReader.
unfoldable pub stream : List (ℤ × List ℕ) → ℕ → Result ℕ
unfolding read
stream [] total = ok total
stream ((size, bytes) ∷ rest) total = do total' ← read size bytes total; stream rest total'

unfoldable pub add_members : Checks → List Member → Progress → Result Progress
add_members checks [] p = ok p
add_members checks (item ∷ items) p = do
  streamed ← stream item.reads p.streamed
  checked_header item
  q ← next_member checks item (is_extension item.kind) (record p { streamed = streamed })
  add_members checks items q

abbrev read_node : Option Node → Result (List ℕ)
read_node (some (content bytes _)) = ok bytes
read_node (some folder) = err os_error
read_node none = err (invalid "missing path")

unfoldable pub read_file : String → Files Node → Result (List ℕ)
read_file path tree = read_node (find_file path tree)

abbrev pub is_hex : ℕ → Bool
is_hex c = leb b'0' c && leb c b'9' || leb b'a' c && leb c b'f'

abbrev pub is_digest : ℕ → Json → Bool
is_digest n (str s) = size s == n && all_chars is_hex s
is_digest n _ = false

abbrev pub is_revision : String × Json → Bool
is_revision (commit, checksum) = is_digest 40 (str commit) && is_digest 64 checksum

abbrev pub is_one : Json → Bool
is_one (int (pos n)) = n == 1
is_one _ = false

abbrev is_folder : Option Node → Bool
is_folder (some folder) = true
is_folder _ = false

module _ (sha256 : List ℕ → String) (loads : List ℕ → Result Json) where
  unfoldable pub check_manifest : Json → Files Node → Result (Unit {0})
  check_manifest manifest tree = do
    keys manifest ("version" ∷ "project" ∷ "revisions" ∷ "bundle_sha256" ∷ []) []
    version ← get_item manifest "version"
    require (is_one version) "unsupported source package"
    given ← get_item manifest "revisions"
    revisions ← object "expected 1..4 revisions" given
    require (leb 1 (count_fields revisions) && leb (count_fields revisions) 4)
        "expected 1..4 revisions"
    require (all is_revision (entries revisions)) "invalid revision/lock identity"
    bundle ← read_file "source.bundle" tree
    expected ← get_item manifest "bundle_sha256"
    require (is_exactly (sha256 bundle) expected) "Git bundle checksum mismatch"
    require (is_folder (find_file "vendor" tree)) "vendor directory missing"
    ok tt

  -- The manifest, and the target directory.
  unfoldable pub unpack : Checks → ℕ → List Member → Result (Json × Files Node)
  unpack checks archive_size items = do
    require (leb archive_size max_input_bytes) "source archive exceeds 512 MiB"
    p ← add_members checks items (record { seen = []; total = 0; tree = []; streamed = 0 })
    bytes ← read_file "manifest.json" p.tree
    require (leb (length bytes) 65536) "source manifest too large"
    manifest ← loads bytes
    check_manifest manifest p.tree
    ok (manifest, p.tree)
