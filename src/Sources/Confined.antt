-- ===== src/Sources/Confined.antt =====
-- What an unpacked package can hold, and how much.
use macqueue.Base.{
  ℕ, ◌+◌, ◌≤◌, ◌≡◌, String, Bool, true, false, Option, none, some, List, [], ◌∷◌, string_eq,
  if◌then◌else◌, Result, ok, Gives, Gives-map, ◌*◌, ◌^◌, ◌&&◌, ltb, leb, nat_eq, ◌==◌, not, ap, ◌∙◌,
  subst, ok_injective, eq_of_==, >>=-eq-ok, >>-eq-ok, require-eq-ok, >>=-Gives, >>-Gives,
  require-Gives, Gives-value, arith, leb→le, ltb→lt, Bool-cases, inl, inr,
}
use macqueue.Base.Int.{ℤ}
use macqueue.Base.Lists.{All, all, any, count, length, take, length-take-le}
use macqueue.Base.Files.{Files, put_file, All-put_file_all}
use macqueue.Base.Text.{starts_with, append, split}
use macqueue.Common.{member, relative, keys, object}
use macqueue.Schema.Paths.{Confined, relative-Confined}
use macqueue.Schema.Command.{is_exactly}
use macqueue.Json.{Json, str, get_item, count_fields, entries}
use macqueue.Sources.{
  Member, read, checked_header, is_size, max_input_bytes, max_files, max_expanded_bytes,
  is_extension,
}
use macqueue.Sources.Unpack.{
  Node, folder, content, Progress, Checks, is_expected, make_directories, make_directory, create,
  stream, extract, add_member, add_members, next_member, check_manifest, unpack, size_of,
  is_directory, read_file, is_one, is_plain, is_revision, name_of, parents,
}

abbrev pub node_bytes : Node → ℕ
node_bytes folder = 0
node_bytes (content bytes _) = length bytes

abbrev pub tree_bytes : Files Node → ℕ
tree_bytes [] = 0
tree_bytes ((name, node) ∷ tree) = node_bytes node + tree_bytes tree

-- A file has an expected name that stays below the target directory.
abbrev pub Placed : String × Node → Type 0
Placed (name, folder) = Unit
Placed (name, content _ _) = (is_expected name ≡ true) × Confined name

tree_bytes-put_file :
    (path : String) (node : Node) (tree : Files Node)
    → tree_bytes (put_file path node tree) ≤ node_bytes node + tree_bytes tree
unfolding put_file
tree_bytes-put_file path node [] = omega arith
tree_bytes-put_file path node ((name, b) ∷ tree) = elim (Bool-cases (name == path)) [
  | inl same ↦ rw same (omega arith)
  | inr other ↦ rw other (omega (arith, tree_bytes-put_file path node tree))
]

-- Directories add no bytes.
abbrev NoMore : Files Node → Files Node → Type 0
NoMore tree made = (tree_bytes made ≤ tree_bytes tree) × All Placed made

make_directory-NoMore :
    (path : String) (found : Option Node) (tree : Files Node)
    → All Placed tree
    → Gives (NoMore tree) (make_directory path found tree)
make_directory-NoMore path none tree h = (
  omega (arith, tree_bytes-put_file path folder tree),
  All-put_file_all Placed path folder tree h tt,
)
make_directory-NoMore path (some folder) tree h = (omega arith, h)
make_directory-NoMore path (some (content _ _)) tree h = tt

make_directories-NoMore :
    (path : String) (names : List String) (tree : Files Node)
    → All Placed tree
    → Gives (NoMore tree) (make_directories path names tree)
unfolding make_directories
make_directories-NoMore path [] tree h = (omega arith, h)
make_directories-NoMore path (name ∷ names) tree h =
    >>=-Gives (NoMore tree) (make_directory (append path name) _ tree) _ λ made made_eq.
      let one =
        Gives-value (NoMore tree) _ made (make_directory-NoMore (append path name) _ tree h)
          made_eq in
      Gives-map (NoMore made) (NoMore tree) _
        (make_directories-NoMore (append (append path name) "/") names made one.1)
        (λ t more. (omega arith, more.1))

-- One member adds the bytes of its size at most.
abbrev Adds : ℕ → Files Node → Files Node → Type 0
Adds size tree made = (tree_bytes made ≤ tree_bytes tree + size) × All Placed made

create-Adds :
    (name : String) (bytes : List ℕ) (executable : Bool) (found : Option Node) (tree : Files Node)
    → All Placed tree
    → Placed (name, content bytes executable)
    → Gives (Adds (length bytes) tree) (create name (content bytes executable) found tree)
create-Adds name bytes executable none tree h c = (
  omega (arith, tree_bytes-put_file name (content bytes executable) tree),
  All-put_file_all Placed name (content bytes executable) tree h c,
)
create-Adds name bytes executable (some _) tree h c = tt

extract-Adds :
    (checks : Checks) (item : Member) (name : String) (as_directory : Bool) (tree : Files Node)
    → All Placed tree
    → is_expected name ≡ true
    → Confined name
    → Gives (Adds (size_of item.size) tree) (extract checks item name as_directory tree)
unfolding extract
extract-Adds checks item name true tree h expected below =
    require-Gives (Adds (size_of item.size) tree) (size_of item.size == 0) _ _ λ _.
      Gives-map (NoMore tree) (Adds (size_of item.size) tree) _
        (make_directories-NoMore "" _ tree h) (λ t more. (omega arith, more.1))
extract-Adds checks item name false tree h expected below =
    let A = Adds (size_of item.size) tree in
    >>=-Gives A (make_directories "" (parents (split b'/' name)) tree) _ λ made made_eq.
      let one = Gives-value (NoMore tree) _ made (make_directories-NoMore "" _ tree h) made_eq in
      >>-Gives A (checks.during name) _ λ _.
        require-Gives A (length (take (size_of item.size) item.body) == size_of item.size) _ _ λ _.
          Gives-map (Adds (length (take (size_of item.size) item.body)) made) A _
            (create-Adds name (take (size_of item.size) item.body) _ _ made one.1 (expected, below))
            (λ t more. (omega (arith, length-take-le (size_of item.size) item.body), more.1))

-- The bounds that the loop keeps.
record Within (p : Progress) : Type 0 where
  few : length p.seen ≤ max_files
  bounded : p.total ≤ max_expanded_bytes
  counted : tree_bytes p.tree ≤ p.total
  confined : All Placed p.tree
  limited : p.streamed ≤ max_expanded_bytes

abbrev Follows : ℕ → ℕ → Progress → Progress → Type 0
Follows n bytes p q =
    Within q × (length q.seen ≡ length p.seen + n) × (q.streamed ≡ p.streamed + bytes)

add_member-Follows :
    (checks : Checks) (item : Member) (p q : Progress)
    → Within p
    → add_member checks item p ≡ ok q
    → Follows 1 0 p q
unfolding add_member
add_member-Follows checks item p q w h =
    let (_, h₁) = >>-eq-ok (checks.before (length p.seen)) _ h in
    let (room, h₂) = require-eq-ok (ltb (length p.seen) max_files) _ _ h₁ in
    let (name, named, h₃) = >>=-eq-ok (relative (str (name_of item))) _ h₂ in
    let (_, h₄) = require-eq-ok (not (member p.seen name)) _ _ h₃ in
    let (expected, h₅) = require-eq-ok (is_expected name) _ _ h₄ in
    let (_, h₆) = require-eq-ok (is_plain item.kind && not item.sparse) _ _ h₅ in
    let (_, h₇) = require-eq-ok (is_size item.size) _ _ h₆ in
    let (_, h₈) =
      require-eq-ok (not (any (λ key. starts_with key "GNU.sparse") item.pax_keys)) _ _ h₇ in
    let (fits, h₉) = require-eq-ok (leb (p.total + size_of item.size) max_expanded_bytes) _ _ h₈ in
    let (tree, made, h₁₀) =
      >>=-eq-ok (extract checks item name (is_directory item.kind) p.tree) _ h₉ in
    let added =
      Gives-value (Adds (size_of item.size) p.tree) _ tree
        (extract-Adds checks item name (is_directory item.kind) p.tree w.confined expected
          (relative-Confined (str (name_of item)) named).1)
        made in
    let q' : Progress = record {
      seen = name ∷ p.seen;
      total = p.total + size_of item.size;
      tree = tree;
      streamed = p.streamed;
    } in
    let within : Within q' = record {
      few = omega (arith, ltb→lt (length p.seen) max_files room);
      bounded = leb→le _ _ fits;
      counted = omega (arith, w.counted, added.0);
      confined = added.1;
      limited = w.limited;
    } in
    subst (Follows 1 0 p) (ok_injective q' q h₁₀) (within, omega arith, omega arith)

-- The members that are not extensions, which tarfile keeps to itself.
abbrev pub count_members : List Member → ℕ
count_members items = count (λ item. not (is_extension item.kind)) items

next_member-Follows :
    (checks : Checks) (item : Member) (is_ext : Bool) (p q : Progress)
    → Within p
    → next_member checks item is_ext p ≡ ok q
    → Follows (if not is_ext then 1 else 0) 0 p q
next_member-Follows checks item true p q w h =
    subst (Follows 0 0 p) (ok_injective p q h) (w, omega arith, omega arith)
next_member-Follows checks item false p q w h = add_member-Follows checks item p q w h

abbrev pub stream_bytes : List (ℤ × List ℕ) → ℕ
stream_bytes [] = 0
stream_bytes ((size, bytes) ∷ rest) = length bytes + stream_bytes rest

-- The bytes that were read of the decompressed stream.
abbrev pub read_bytes : List Member → ℕ
read_bytes [] = 0
read_bytes (item ∷ items) = stream_bytes item.reads + read_bytes items

stream-eq-ok :
    (reads : List (ℤ × List ℕ)) (total : ℕ) {total' : ℕ}
    → total ≤ max_expanded_bytes
    → stream reads total ≡ ok total'
    → (total' ≤ max_expanded_bytes) × (total' ≡ total + stream_bytes reads)
unfolding stream read
stream-eq-ok [] total {total'} low h =
    subst (λ t. (t ≤ max_expanded_bytes) × (t ≡ total + 0)) (ok_injective total total' h)
      (low, omega arith)
stream-eq-ok ((size, bytes) ∷ rest) total low h =
    let (next, e, h₁) = >>=-eq-ok (read size bytes total) _ h in
    let (_, e₁) = require-eq-ok (is_size size) _ _ e in
    let (fits, e₂) = require-eq-ok (leb (total + length bytes) max_expanded_bytes) _ _ e₁ in
    let same = ok_injective (total + length bytes) next e₂ in
    let (bound, sum) =
      stream-eq-ok rest next
        (subst (λ t. t ≤ max_expanded_bytes) same (leb→le (total + length bytes) _ fits)) h₁ in
    (bound, omega (arith, sum, same))

add_members-Follows :
    (checks : Checks) (items : List Member) (p q : Progress)
    → Within p
    → add_members checks items p ≡ ok q
    → Follows (count_members items) (read_bytes items) p q
unfolding add_members
add_members-Follows checks [] p q w h =
    subst (Follows 0 0 p) (ok_injective p q h) (w, omega arith, omega arith)
add_members-Follows checks (item ∷ items) p q w h =
    let (streamed, s, h₀) = >>=-eq-ok (stream item.reads p.streamed) _ h in
    let (low, sum) = stream-eq-ok item.reads p.streamed w.limited s in
    let (_, h₁) = >>-eq-ok (checked_header item) _ h₀ in
    let p' : Progress = record p { streamed = streamed } in
    let w' : Within p' = record {
      few = w.few;
      bounded = w.bounded;
      counted = w.counted;
      confined = w.confined;
      limited = low;
    } in
    let (r, one, h₂) = >>=-eq-ok (next_member checks item (is_extension item.kind) p') _ h₁ in
    let first = next_member-Follows checks item (is_extension item.kind) p' r w' one in
    let rest = add_members-Follows checks items r q first.0 h₂ in
    (rest.0, omega (arith, first.1, rest.1), omega (arith, first.2, rest.2, sum))

-- What unpack promises of the directory that it returns, and of its manifest.
pub record Unpacked (sha256 : List ℕ → String) (items : List Member) (manifest : Json)
    (tree : Files Node) : Type 0 where
  pub few : count_members items ≤ 100000
  pub bounded : tree_bytes tree ≤ 4 * 1024 ^ 3
  pub limited : read_bytes items ≤ 4 * 1024 ^ 3
  pub confined : All Placed tree
  pub bundle :
      (bytes : List ℕ) × (read_file "source.bundle" tree ≡ ok bytes)
      × (get_item manifest "bundle_sha256" ≡ ok (str (sha256 bytes)))

exactly : (s : String) (j : Json) → is_exactly s j ≡ true → j ≡ str s
exactly s (str t) h = ap str (eq_of_== t s h)
exactly s _ h = cc

bundle_of :
    (sha256 : List ℕ → String) (loads : List ℕ → Result Json) (manifest : Json) (tree : Files Node)
    → check_manifest sha256 loads manifest tree ≡ ok tt
    → (bytes : List ℕ) × (read_file "source.bundle" tree ≡ ok bytes)
      × (get_item manifest "bundle_sha256" ≡ ok (str (sha256 bytes)))
unfolding check_manifest
bundle_of sha256 loads manifest tree h =
    let (_, h₁) = >>-eq-ok (keys manifest _ _) _ h in
    let (version, _, h₂) = >>=-eq-ok (get_item manifest "version") _ h₁ in
    let (_, h₃) = require-eq-ok (is_one version) _ _ h₂ in
    let (given, _, h₄) = >>=-eq-ok (get_item manifest "revisions") _ h₃ in
    let (revisions, _, h₅) = >>=-eq-ok (object _ given) _ h₄ in
    let (_, h₆) =
      require-eq-ok (leb 1 (count_fields revisions) && leb (count_fields revisions) 4) _ _ h₅ in
    let (_, h₇) = require-eq-ok (all is_revision (entries revisions)) _ _ h₆ in
    let (bundle, found, h₈) = >>=-eq-ok (read_file "source.bundle" tree) _ h₇ in
    let (expected, said, h₉) = >>=-eq-ok (get_item manifest "bundle_sha256") _ h₈ in
    let (same, _) = require-eq-ok (is_exactly (sha256 bundle) expected) _ _ h₉ in
    (bundle, found, said ∙ ap (λ (j : Json). ok j) (exactly _ expected same))

-- If unpack returns a manifest, then the package has at most 100000 members besides the headers of
-- extensions, at most 4 GiB were read of the decompressed stream, the files of the target directory
-- have at most 4 GiB together, each of them is
-- manifest.json, source.bundle or vendor or stands below vendor/, with a path that is not absolute and
-- leads through its own components, and the Git bundle has the checksum that the manifest gives.
pub unpack-Unpacked :
    (sha256 : List ℕ → String) (loads : List ℕ → Result Json) (checks : Checks) (archive_size : ℕ)
    (items : List Member) (manifest : Json) (tree : Files Node)
    → unpack sha256 loads checks archive_size items ≡ ok (manifest, tree)
    → Unpacked sha256 items manifest tree
unfolding unpack
unpack-Unpacked sha256 loads checks archive_size items manifest tree h =
    let (_, h₁) = require-eq-ok (leb archive_size max_input_bytes) _ _ h in
    let empty : Progress = record { seen = []; total = 0; tree = []; streamed = 0 } in
    let (p, done, h₂) = >>=-eq-ok (add_members checks items empty) _ h₁ in
    let (bytes, _, h₃) = >>=-eq-ok (read_file "manifest.json" p.tree) _ h₂ in
    let (_, h₄) = require-eq-ok (leb (length bytes) 65536) _ _ h₃ in
    let (found, _, h₅) = >>=-eq-ok (loads bytes) _ h₄ in
    let (good, h₆) = >>-eq-ok (check_manifest sha256 loads found p.tree) _ h₅ in
    let (w, n, sum) =
      add_members-Follows checks items empty p
        (record {
          few = omega arith;
          bounded = omega arith;
          counted = omega arith;
          confined = tt;
          limited = omega arith;
        })
        done in
    subst (λ (r : Json × Files Node). Unpacked sha256 items r.0 r.1) (ok_injective _ _ h₆)
      (record {
        few = omega (arith, w.few, n);
        bounded = omega (arith, w.bounded, w.counted);
        limited = omega (arith, w.limited, sum);
        confined = w.confined;
        bundle = bundle_of sha256 loads found p.tree good;
      })
