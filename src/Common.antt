-- ===== src/Common.antt =====
-- macqueue/common.py: the checks on decoded JSON that the wire format is built from. Where Python
-- prints the offending keys or bounds in a message, the message here is the fixed part.
use macqueue.Base.{
  ◌≡◌, refl, ℕ, String, Bool, false, not, ◌&&◌, ◌||◌, List, [], ◌∷◌, ◌==◌, nat_eq, string_eq, leb,
  is_some, Result, ok, err, invalid, ◌>>=◌, ◌>>◌, require,
}
use macqueue.Base.Int.{ℤ, leb_ℤ}
use macqueue.Base.Lists.{any, all}
use macqueue.Base.Text.{size, starts_with, contains_text, all_chars, split, is_digit, is_letter}
use macqueue.Json.{Json, int, str, arr, obj, Fields, to_list, lookup, key_names}
use Prim.Native.Char.{code}

-- `isinstance(value, dict)`, `isinstance(value, list)` and `isinstance(value, str) and …`.
unfoldable pub object : String → Json → Result Fields
object message (obj fields) = ok fields
object message _ = err (invalid message)

unfoldable pub list_where : (List Json → Bool) → String → Json → Result (List Json)
list_where p message (arr items) = require (p (to_list items)) message >> ok (to_list items)
list_where p message _ = err (invalid message)

unfoldable pub text_where : (String → Bool) → String → Json → Result String
text_where p message (str s) = require (p s) message >> ok s
text_where p message _ = err (invalid message)

abbrev pub has : String → Fields → Bool
has key fields = is_some (lookup key fields)

abbrev pub member : List String → String → Bool
member names s = any (λ n. n == s) names

unfoldable pub keys : Json → List String → List String → Result (Unit {0})
keys value required optional = do
  fields ← object "expected an object" value
  require (all (λ k. has k fields) required) "missing keys"
  require (all (λ k. member required k || member optional k) (key_names fields)) "unknown keys"

-- `type(value) is int` is false of a bool.
unfoldable pub integer : Json → ℤ → ℤ → String → Result ℤ
integer (int n) low high name = require (leb_ℤ low n && leb_ℤ n high) name >> ok n
integer _ low high name = err (invalid name)

abbrev pub is_alphanumeric : ℕ → Bool
is_alphanumeric c = is_letter c || is_digit c

abbrev pub is_name_char : ℕ → Bool
is_name_char c = is_alphanumeric c || c == b'_' || c == b'-'

-- `[a-zA-Z0-9][a-zA-Z0-9_-]{0,63}`
abbrev pub is_name : String → Bool
is_name String.[] = false
is_name (String.◌∷◌ c s) = is_alphanumeric (code c) && all_chars is_name_char s && leb (size s) 63

unfoldable pub name : Json → Result String
name value = text_where is_name "invalid name" value

abbrev pub is_component : String → Bool
is_component p = not (member ("" ∷ "." ∷ ".." ∷ []) p)

abbrev pub is_below : String → Bool
is_below s = not (starts_with s "/") && all is_component (split b'/' s)

abbrev bad_texts : List String
bad_texts = "\\" ∷ "\0" ∷ "\n" ∷ "\r" ∷ "${" ∷ []

unfoldable pub relative : Json → Result String
relative value = do
  s ← text_where (λ t. leb 1 (size t) && leb (size t) 512) "invalid relative path" value
  require (is_below s) "path must be relative, without dot or empty components"
  require (not (any (contains_text s) bad_texts)) "invalid path characters"
  ok s

nul_size : size "\0" ≡ 1
nul_size = refl

parent_refused :
    relative (str "work/../artifacts")
    ≡ err (invalid "path must be relative, without dot or empty components")
unfolding relative text_where
parent_refused = refl
