-- ===== src/Schema/Jobs.antt =====
-- `validate_job` of macqueue/schema.py: a whole job.
use macqueue.Base.{
  ℕ, ◌*◌, ◌+◌, ◌/◌, suc, zero, String, Bool, true, false, not, ◌&&◌, ◌||◌, Option, none, some, List,
  [], ◌∷◌, ◌==◌, nat_eq, string_eq, leb, ltb, if◌then◌else◌, Result, ok, ◌>>=◌, ◌>>◌, require,
}
use macqueue.Base.Int.{ℤ, pos, negsuc, int_eq}
use macqueue.Base.Lists.{length}
use macqueue.Base.Text.{size, all_chars, is_digit}
use macqueue.Common.{object, list_where, text_where, has, keys, integer, name, member}
use macqueue.Json.{
  Json, null, bool, int, real, str, arr, obj, Items, nil, cons, Fields, end, field, lookup,
  get_item, count_fields,
}
use macqueue.Schema.Command.{get_or}
use macqueue.Schema.Steps.{op_of, check_step}
use Prim.Native.Char.{code}

abbrev pub is_hex : ℕ → Bool
is_hex c = is_digit c || leb b'a' c && leb c b'f' || leb b'A' c && leb c b'F'

-- `[a-fA-F0-9]{40}`
abbrev pub is_commit : String → Bool
is_commit s = size s == 40 && all_chars is_hex s

unfoldable pub check_sources : Fields → Result (Unit {0})
check_sources end = ok tt
check_sources (field variant commit rest) = do
  _ ← name (str variant)
  _ ← text_where is_commit "use full 40-character commit SHA" commit
  check_sources rest

-- `"id" in step and "op" in step`, for an object.
abbrev pub is_step : Json → Bool
is_step (obj fields) = has "id" fields && has "op" fields
is_step _ = false

-- The loop over the steps of a job of so many steps; `ids` are those of the earlier steps.
unfoldable pub check_steps : ℕ → List String → List Json → Result (Unit {0})
check_steps steps ids [] = ok tt
check_steps steps ids (step ∷ rest) = do
  require (is_step step) "step needs id and op"
  given ← get_item step "id"
  id ← name given
  require (not (member ids id)) "duplicate step id"
  named ← get_item step "op"
  op ← op_of named
  check_step steps op step
  check_steps steps (id ∷ ids) rest

-- The length of a number in decimal digits, on fuel: a number has no more digits than its value.
unfoldable pub decimal_size : ℕ → ℕ → ℕ
decimal_size zero n = 1
decimal_size (suc fuel) n = if ltb n 10 then 1 else suc (decimal_size fuel (n / 10))

-- The bytes of `json.dumps(value)`. Text is escaped to ASCII; the length of the decimal form of a
-- float, which Python's `repr` finds, is the parameter.
abbrev pub escaped_width : ℕ → ℕ
escaped_width c =
    if c == 0x22 || c == 0x5c || leb 8 c && leb c 10 || leb 12 c && leb c 13
    then 2
    else if leb 0x20 c && leb c 0x7e
    then 1
    else if leb c 0xffff
    then 6
    else 12

abbrev pub escaped_size : String → ℕ
escaped_size String.[] = 0
escaped_size (String.◌∷◌ c s) = escaped_width (code c) + escaped_size s

abbrev pub int_size : ℤ → ℕ
unfolding decimal_size
int_size (pos n) = decimal_size n n
int_size (negsuc n) = suc (decimal_size (suc n) (suc n))

abbrev pub max_job_bytes : ℕ
max_job_bytes = 32 * 1024 * 1024

abbrev pub is_version : Json → Bool
is_version (int n) = n == pos 1
is_version _ = false

-- The check of a label, where the job has one.
abbrev pub check_label : Option Json → Result (Unit {0})
check_label none = ok tt
check_label (some label) = do _ ← text_where (λ s. leb (size s) 200) "invalid label" label; ok tt

unfoldable pub check_header : Json → Result (Unit {0})
check_header job = do
  keys job ("version" ∷ "project" ∷ "sources" ∷ "steps" ∷ [])
      ("label" ∷ "timeout_seconds" ∷ "expires_in_seconds" ∷ [])
  version ← get_item job "version"
  require (is_version version) "unsupported job version"
  project ← get_item job "project"
  _ ← name project
  fields ← object "expected an object" job
  check_label (lookup "label" fields)
  _ ← integer (get_or job "timeout_seconds" (int (pos 14400))) (pos 1) (pos 86400) "job timeout"
  _ ←
      integer (get_or job "expires_in_seconds" (int (pos 86400))) (pos 1) (pos 604800)
        "queue expiry"
  ok tt

module _ (real_size : ℕ → ℕ) where
  unfoldable mutual
    pub dumps_size : Json → ℕ
    dumps_size null = 4
    dumps_size (bool true) = 4
    dumps_size (bool false) = 5
    dumps_size (int n) = int_size n
    dumps_size (real w) = real_size w
    dumps_size (str s) = 2 + escaped_size s
    dumps_size (arr nil) = 2
    dumps_size (arr (cons x xs)) = 2 + dumps_size x + items_size xs
    dumps_size (obj end) = 2
    dumps_size (obj (field k v fs)) = 6 + escaped_size k + dumps_size v + fields_size fs

    pub items_size : Items → ℕ
    items_size nil = 0
    items_size (cons x xs) = 2 + dumps_size x + items_size xs

    pub fields_size : Fields → ℕ
    fields_size end = 0
    fields_size (field k v fs) = 6 + escaped_size k + dumps_size v + fields_size fs

  unfoldable pub validate_job : Json → Result Json
  validate_job job = do
    check_header job
    given ← get_item job "sources"
    sources ← object "expected 1..4 sources" given
    require (leb 1 (count_fields sources) && leb (count_fields sources) 4) "expected 1..4 sources"
    check_sources sources
    listed ← get_item job "steps"
    steps ←
        list_where (λ xs. leb 1 (length xs) && leb (length xs) 100) "expected 1..100 steps" listed
    check_steps (length steps) [] steps
    require (leb (dumps_size job) max_job_bytes) "job exceeds 32 MiB"
    ok job
