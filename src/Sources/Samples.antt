-- ===== src/Sources/Samples.antt =====
-- Examples for macqueue/sources.py.
use macqueue.Base.{
  ℕ, String, true, false, some, List, [], ◌∷◌, ok, ◌≡◌, refl, arith, Result, nat_eq,
}
use macqueue.Base.Int.{pos}
use macqueue.Base.Lists.{length}
use macqueue.Base.Files.{Files, find_file, put_file}
use macqueue.Json.{Json, null, str, int, obj, Fields, field, end}
use macqueue.Common.{keys, object, relative, text_where}
use macqueue.Sources.{Member, regular, directory, extension, read, checked_header}
use macqueue.Sources.Unpack.{
  Node, folder, content, Checks, unpack, stream, add_members, add_member, extract, make_directories,
  read_file, check_manifest,
}
use macqueue.Sources.Confined.{Unpacked, unpack-Unpacked}
use macqueue.Sources.Catalog.{Package, lookup, latest, publish, publish_new, receipt_of}
use macqueue.Sources.Budget.{InBudget, change_all, change_all-InBudget, change, publishes, revokes}
use macqueue.Sources.Finding.{Finds, lookup-Finds}

abbrev commit : String
commit = "0123456789012345678901234567890123456789"

abbrev lock_sha : String
lock_sha = "0123456789012345678901234567890123456789012345678901234567890123"

abbrev revisions : Fields
revisions = field commit (str lock_sha) end

abbrev manifest : Json
manifest = obj (
    field "version" (int (pos 1)) (
      field "project" (str "p")
        (field "revisions" (obj revisions) (field "bundle_sha256" (str "b") end))))

abbrev loads : List ℕ → Result Json
loads _ = ok manifest

abbrev sha256 : List ℕ → String
sha256 _ = "b"

abbrev no_checks : Checks
no_checks = record { before = λ _. ok tt; during = λ _. ok tt }

abbrev file : String → List ℕ → Member
file path bytes = record {
  name = path;
  kind = regular;
  size = pos (length bytes);
  sparse = false;
  pax_keys = [];
  mode = 0o644;
  body = bytes;
  reads = (pos 512, bytes) ∷ [];
}

abbrev items : List Member
items =
    file "manifest.json" (1 ∷ 2 ∷ [])
    ∷ file "source.bundle" (3 ∷ [])
    ∷ record (file "vendor/" []) { kind = directory }
    ∷ record (file "long" (0 ∷ [])) { kind = extension }
    ∷ file "vendor/a/lib.rs" (4 ∷ [])
    ∷ []

abbrev tree : Files Node
tree =
    ("manifest.json", content (1 ∷ 2 ∷ []) false)
    ∷ ("source.bundle", content (3 ∷ []) false)
    ∷ ("vendor", folder)
    ∷ ("vendor/a", folder)
    ∷ ("vendor/a/lib.rs", content (4 ∷ []) false)
    ∷ []

unpacked : unpack sha256 loads no_checks 100 items ≡ ok (manifest, tree)
unfolding unpack stream read add_members add_member extract make_directories read_file
    check_manifest checked_header keys object relative text_where find_file put_file
unpacked = refl

unpack-Unpacked_example : Unpacked sha256 items manifest tree
unpack-Unpacked_example = unpack-Unpacked sha256 loads no_checks 100 items manifest tree unpacked

abbrev dumps : Json → List ℕ
dumps _ = 1 ∷ 2 ∷ []

abbrev one_package : Package
one_package = record { project = "p"; sha256 = lock_sha; revisions = revisions; bytes = 1000 }

change_all-InBudget_example :
    InBudget dumps 2
      (change_all dumps (publishes one_package "j" null (ok tt) ∷ revokes "p" "other" ∷ []) [])
change_all-InBudget_example =
    change_all-InBudget dumps 2 (publishes one_package "j" null (ok tt) ∷ revokes "p" "other" ∷ [])
      (omega arith, (tt, tt))

lookup-Finds_example :
    Finds true "p" commit
      (change_all dumps (publishes one_package "j" null (ok tt) ∷ []) [])
      (lookup true "p" commit (change_all dumps (publishes one_package "j" null (ok tt) ∷ []) []))
lookup-Finds_example =
    lookup-Finds true "p" commit (change_all dumps (publishes one_package "j" null (ok tt) ∷ []) [])

found :
    lookup true "p" commit (change_all dumps (publishes one_package "j" null (ok tt) ∷ []) [])
    ≡ some (record {
      project = "p";
      sha256 = lock_sha;
      revisions = revisions;
      receipt = receipt_of "p" lock_sha revisions "j" null;
      bytes = 1002;
    })
unfolding lookup change_all change publish publish_new latest
found = refl
