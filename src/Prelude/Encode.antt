-- ===== src/Prelude/Encode.antt =====
-- `encodeURIComponent` and the replacement of a placeholder, on native strings.
pub mod Counts
use esi_ts.Prelude.{
  ℕ, zero, suc, ◌+◌, ◌*◌, ◌/◌, ◌%◌, Bool, true, false, ◌&&◌, ◌||◌, Option, none, some, leb, ltb,
  ◌==◌, if◌then◌else◌,
}
use Prim.Native.Char.{Char, code}
use Prim.Native.String.{String, [], ◌∷◌, ◌++◌}

-- How often a character occurs.
unfoldable pub count : ℕ → String → ℕ
count x [] = 0
count x (c ∷ s) = (if code c == x then 1 else 0) + count x s

-- `s.includes(c)` for one character.
unfoldable pub includes_char : ℕ → String → Bool
includes_char x [] = false
includes_char x (c ∷ s) = code c == x || includes_char x s

-- The character at a place, as a text.
unfoldable pub char_at : ℕ → String → String
char_at n [] = ""
char_at zero (c ∷ s) = c ∷ ""
char_at (suc n) (c ∷ s) = char_at n s

abbrev pub hex_digits : String
hex_digits = "0123456789ABCDEF"

-- An octet as `%XX`.
abbrev pub percent : ℕ → String
percent n = "%" ++ (char_at (n / 16) hex_digits ++ char_at (n % 16) hex_digits)

-- What is left unescaped: letters, digits, and `- _ . ! ~ * ' ( )`.
abbrev pub is_unreserved : ℕ → Bool
is_unreserved n =
    (leb b'a' n && leb n b'z')
    || (leb b'A' n && leb n b'Z')
    || (leb b'0' n && leb n b'9')
    || n == b'-'
    || n == b'_'
    || n == b'.'
    || n == b'!'
    || n == b'~'
    || n == b'*'
    || n == 39
    || n == b'('
    || n == b')'

-- The octets of a character in UTF-8, escaped.
unfoldable pub escape : ℕ → String
escape n =
    if ltb n 128
    then percent n
    else if ltb n 2048
    then percent (192 + n / 64) ++ percent (128 + n % 64)
    else if ltb n 65536
    then percent (224 + n / 4096) ++ (percent (128 + (n / 64) % 64) ++ percent (128 + n % 64))
    else percent (240 + n / 262144)
      ++ (percent (128 + (n / 4096) % 64)
          ++ (percent (128 + (n / 64) % 64) ++ percent (128 + n % 64)))

abbrev pub encode_char : Char → String
encode_char c = if is_unreserved (code c) then c ∷ "" else escape (code c)

unfoldable pub encode_uri_component : String → String
encode_uri_component [] = ""
encode_uri_component (c ∷ s) = encode_char c ++ encode_uri_component s

-- What follows a prefix, if the text has it.
unfoldable pub strip_prefix : String → String → Option String
strip_prefix [] s = some s
strip_prefix (p ∷ ps) [] = none
strip_prefix (p ∷ ps) (c ∷ s) = elim (code p == code c) [ true ↦ strip_prefix ps s | false ↦ none ]

-- `s.replace(pattern, replacement)`: the first occurrence.
unfoldable pub replace_first : String → String → String → String
replace_first pattern replacement [] = elim (strip_prefix pattern "") [
  | none ↦ ""
  | some rest ↦ replacement ++ rest
]
replace_first pattern replacement (c ∷ s) = elim (strip_prefix pattern (c ∷ s)) [
  | none ↦ c ∷ replace_first pattern replacement s
  | some rest ↦ replacement ++ rest
]
