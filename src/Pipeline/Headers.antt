-- ===== src/Pipeline/Headers.antt =====
-- What the pipeline reads from headers and paths: src/core/requestPipeline/headers.ts,
-- src/core/util/headersUtil.ts, src/core/util/stringUtil.ts, and `lookupSpecTtl` of cachePolicy.ts,
-- whose table of lifetimes is generated. The parsed warning, which is only logged, is left out.
use esi_ts.Prelude.{
  ℕ, ◌*◌, Bool, true, false, not, ◌&&◌, ◌||◌, Option, none, some, leb, ◌==◌, if◌then◌else◌,
  or_default,
}
use Prim.Native.Char.{Char, code}
use Prim.Native.String.{String, [], ◌∷◌, ◌++◌}
use esi_ts.Prelude.Int.{ℤ}
use esi_ts.Prelude.Number.{digits, parse_int}
use esi_ts.Prelude.JsMap
use esi_ts.Prelude.JsMap.{JsMap}

-- `ParsedHeaders`. The names of the headers of a response are in lower case.
pub record ParsedHeaders : Type 0 where
  pub raw : JsMap String
  pub x_pages : Option ℤ
  pub etag : Option String
  pub cache_control : Option String
  pub expires : Option String
  pub last_modified : Option String
  pub cursor_before : Option String
  pub cursor_after : Option String
  pub has_cursor_pagination : Bool
  pub request_id : Option String
  pub date : Option String
  pub content_language : Option String

unfoldable pub parse_headers : JsMap String → ParsedHeaders
parse_headers raw = record {
  raw = raw;
  x_pages = parse_int (or_default (JsMap.get "x-pages" raw) "1");
  etag = JsMap.get "etag" raw;
  cache_control = JsMap.get "cache-control" raw;
  expires = JsMap.get "expires" raw;
  last_modified = JsMap.get "last-modified" raw;
  cursor_before = JsMap.get "x-cursor-before" raw;
  cursor_after = JsMap.get "x-cursor-after" raw;
  has_cursor_pagination = JsMap.has "x-cursor-before" raw || JsMap.has "x-cursor-after" raw;
  request_id = JsMap.get "x-esi-request-id" raw;
  date = JsMap.get "date" raw;
  content_language = JsMap.get "content-language" raw;
}

-- The text after a prefix.
unfoldable pub text_after : String → String → Option String
text_after [] s = some s
text_after (p ∷ ps) [] = none
text_after (p ∷ ps) (c ∷ s) = let rest = text_after ps s in if code p == code c then rest else none

abbrev digits_in : Option String → Option ℕ
digits_in none = none
digits_in (some s) = digits s

-- The first match of `/max-age=(\d+)/`.
unfoldable pub max_age : String → Option ℕ
max_age [] = none
max_age (c ∷ s) =
    let later = max_age s in
    elim (digits_in (text_after "max-age=" (c ∷ s))) [ none ↦ later | some n ↦ some n ]

abbrev in_milliseconds : Option ℕ → Option ℕ
in_milliseconds none = none
in_milliseconds (some s) = some (s * 1000)

abbrev control_ttl : Option String → Option ℕ
control_ttl none = none
control_ttl (some value) = in_milliseconds (max_age value)

abbrev first_of : Option String → Option String → Option String
first_of none other = other
first_of (some s) other = some s

unfoldable pub parse_cache_control_ttl : JsMap String → Option ℕ
parse_cache_control_ttl headers =
    control_ttl (first_of (JsMap.get "cache-control" headers) (JsMap.get "Cache-Control" headers))

-- The character of the second text at the place that a letter has in the first.
same_place : Char → String → String → String
same_place c (u ∷ us) (l ∷ ls) =
    let rest = same_place c us ls in if code u == code c then l ∷ [] else rest
same_place c _ _ = c ∷ []

abbrev is_upper : ℕ → Bool
is_upper n = leb b'A' n && leb n b'Z'

unfoldable pub camel_to_snake : String → String
unfolding same_place
camel_to_snake [] = ""
camel_to_snake (c ∷ s) =
    let rest = camel_to_snake s in
    if is_upper (code c)
    then "_" ++ same_place c "ABCDEFGHIJKLMNOPQRSTUVWXYZ" "abcdefghijklmnopqrstuvwxyz" ++ rest
    else c ∷ rest

-- `\w`.
abbrev is_word : ℕ → Bool
is_word n =
    (leb b'a' n && leb n b'z')
    || (leb b'A' n && leb n b'Z')
    || (leb b'0' n && leb n b'9')
    || n == b'_'

is_empty : String → Bool
is_empty [] = true
is_empty (c ∷ s) = false

-- The replacement of `/\{(\w+)\}/g`; the first argument is the name since an open brace.
unfoldable pub snake_placeholders : Option String → String → String
unfolding is_empty
snake_placeholders none [] = ""
snake_placeholders (some name) [] = "{" ++ name
snake_placeholders none (c ∷ s) =
    let inside = snake_placeholders (some "") s in
    let outside = snake_placeholders none s in if code c == b'{' then inside else c ∷ outside
snake_placeholders (some name) (c ∷ s) =
    let longer = snake_placeholders (some (name ++ (c ∷ []))) s in
    let inside = snake_placeholders (some "") s in
    let outside = snake_placeholders none s in
    if is_word (code c)
    then longer
    else if code c == b'}' && not (is_empty name)
    then "{" ++ camel_to_snake name ++ "}" ++ outside
    else "{" ++ name ++ (if code c == b'{' then inside else c ∷ outside)

-- Without one slash at the end.
unfoldable pub trim_slash : String → String
unfolding is_empty
trim_slash [] = ""
trim_slash (c ∷ s) =
    let rest = trim_slash s in if code c == b'/' && is_empty s then "" else c ∷ rest

unfoldable pub spec_key : String → String → String
spec_key method template_path = method ++ ":" ++ snake_placeholders none (trim_slash template_path)

-- `spec_seconds` is the generated table `esiCacheTtls`.
unfoldable pub lookup_spec_ttl : (String → Option ℕ) → String → String → Option ℕ
lookup_spec_ttl spec_seconds method template_path =
    in_milliseconds (spec_seconds (spec_key method template_path))
