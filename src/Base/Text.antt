-- ===== src/Base/Text.antt =====
-- What the program uses of Python's `str`: a sequence of code points. Texts with lone surrogates,
-- which `str.encode` refuses, are not represented.
use Prim.Native.Char.{Char, code}
use macqueue.Base.Tests.{◌==◌, nat_eq, leb, ltb, if◌then◌else◌}
use Prim.Native.Nat.{ℕ, suc, ◌+◌}
use Prim.Native.String.{String}
use mathlib.Core.Path.{◌≡◌, refl}
use mathlib.Core.Bool.{Bool, true, false, ◌&&◌, ◌||◌}
use mathlib.Core.List.{List, [], ◌∷◌}

-- `len(s)`
abbrev pub size : String → ℕ
size String.[] = 0
size (String.◌∷◌ c s) = suc (size s)

-- The bytes of one code point in UTF-8.
abbrev pub utf8_width : ℕ → ℕ
utf8_width c = if ltb c 0x80 then 1 else if ltb c 0x800 then 2 else if ltb c 0x10000 then 3 else 4

-- `len(s.encode())`
abbrev pub encoded_size : String → ℕ
encoded_size String.[] = 0
encoded_size (String.◌∷◌ c s) = utf8_width (code c) + encoded_size s

-- `s.startswith(prefix)`
abbrev pub starts_with : String → String → Bool
starts_with s String.[] = true
starts_with String.[] (String.◌∷◌ d t) = false
starts_with (String.◌∷◌ c s) (String.◌∷◌ d t) = code c == code d && starts_with s t

-- `t in s`
abbrev pub contains_text : String → String → Bool
contains_text String.[] t = starts_with String.[] t
contains_text (String.◌∷◌ c s) t = starts_with (String.◌∷◌ c s) t || contains_text s t

-- Every character passes the test.
abbrev pub all_chars : (ℕ → Bool) → String → Bool
all_chars p String.[] = true
all_chars p (String.◌∷◌ c s) = p (code c) && all_chars p s

-- `s[len(prefix):]`, for a text with that prefix.
abbrev pub drop_prefix : String → String → String
drop_prefix s String.[] = s
drop_prefix String.[] (String.◌∷◌ d t) = String.[]
drop_prefix (String.◌∷◌ c s) (String.◌∷◌ d t) = drop_prefix s t

-- `s + t`
abbrev pub append : String → String → String
append String.[] t = t
append (String.◌∷◌ c s) t = String.◌∷◌ c (append s t)

abbrev on_head : Char → List String → List String
on_head c [] = String.◌∷◌ c String.[] ∷ []
on_head c (w ∷ ws) = String.◌∷◌ c w ∷ ws

-- `s.split(separator)` for a separator of one character: one component more than separators.
abbrev pub split : ℕ → String → List String
split sep String.[] = String.[] ∷ []
split sep (String.◌∷◌ c s) =
    let rest = split sep s in if code c == sep then String.[] ∷ rest else on_head c rest

abbrev pub is_digit : ℕ → Bool
is_digit c = leb b'0' c && leb c b'9'

abbrev pub is_letter : ℕ → Bool
is_letter c = leb b'a' c && leb c b'z' || leb b'A' c && leb c b'Z'

abbrev pub is_ascii : String → Bool
is_ascii = all_chars (λ c. ltb c 0x80)

split_path : split b'/' "work/a//b" ≡ "work" ∷ "a" ∷ "" ∷ "b" ∷ []
split_path = refl
