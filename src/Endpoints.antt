-- ===== src/Endpoints.antt =====
-- The paths of endpoints: src/core/endpoints/buildEndpointPath.ts, with the checks of parameters in
-- src/core/util/validation.ts. The tables of the endpoints are arguments.
pub mod Segments
use esi_ts.Prelude.{
  ℕ, ◌+◌, Bool, true, false, not, ◌&&◌, ◌||◌, Option, none, some, List, [], ◌∷◌, leb, ltb, ◌==◌,
  if◌then◌else◌, str_eq,
}
use Prim.Native.Char.{code}
use Prim.Native.String.{String, [], ◌∷◌, ◌++◌}
use esi_ts.Prelude.Encode.{includes_char, encode_uri_component, replace_first}
use esi_ts.Errors.{Result, ok, err, fault, validation_error}

-- An argument of a method, as far as the checks tell: `undefined`, `null`, a number that is not
-- finite, or a value with what it prints as.
pub data Arg : Type 0 where
  undefined null_value : Arg
  non_finite printed : String → Arg

-- `EndpointDefinition`, the fields that a path and a body are built from.
pub record EndpointDefinition : Type 0 where
  pub path : String
  pub path_params : List String
  pub query_params : List (String × String)
  pub has_body : Bool
  pub body_builder : Option (List Arg → Arg)

-- `EndpointPathResult`.
pub record EndpointPathResult : Type 0 where
  pub path : String
  pub body : Arg

-- `UNSAFE_PATH_CHARS`, the single quote apart.
abbrev unsafe_path_chars : String
unsafe_path_chars = "/\\?#@!$&()*+,;=<>{}|^`"

abbrev is_unsafe : ℕ → Bool
is_unsafe n = n == 39 || includes_char n unsafe_path_chars

unfoldable pub has_unsafe : String → Bool
has_unsafe [] = false
has_unsafe (c ∷ s) = is_unsafe (code c) || has_unsafe s

abbrev pub is_dot_segment : String → Bool
is_dot_segment s = str_eq s "." || str_eq s ".."

abbrev pub string_of : Arg → String
string_of undefined = ""
string_of null_value = ""
string_of (non_finite s) = s
string_of (printed s) = s

abbrev pub is_finite : Arg → Bool
is_finite (non_finite s) = false
is_finite _ = true

abbrev pub invalid : {A : Type 0} → Result A
invalid = err (fault validation_error)

unfoldable pub validate_path_param : Arg → Result String
validate_path_param value =
    let s = string_of value in
    if str_eq s "" || has_unsafe s || is_dot_segment s || not (is_finite value)
    then invalid
    else ok s

-- The length of a text, which counts UTF-16 units.
abbrev utf16_length : String → ℕ
utf16_length [] = 0
utf16_length (c ∷ s) = (if ltb (code c) 65536 then 1 else 2) + utf16_length s

unfoldable pub validate_query_param : Arg → Result String
validate_query_param undefined = invalid
validate_query_param null_value = invalid
validate_query_param (non_finite s) = invalid
validate_query_param (printed s) = if ltb 2000 (utf16_length s) then invalid else ok s

-- `args[argIndex]`, and the arguments after it.
abbrev pub next_arg : List Arg → Arg
next_arg [] = undefined
next_arg (a ∷ args) = a

abbrev pub later_args : List Arg → List Arg
later_args [] = []
later_args (a ∷ args) = args

abbrev pub placeholder : String → String
placeholder param = "{" ++ (param ++ "}")

-- The loop over the path parameters: the path, and the arguments that are left.
unfoldable pub fill_path : List String → List Arg → String → Result (String × List Arg)
fill_path [] args path = ok (path, args)
fill_path (param ∷ params) args path = elim (validate_path_param (next_arg args)) [
  | err e ↦ err e
  | ok s ↦
      fill_path params (later_args args)
        (replace_first (placeholder param) (encode_uri_component s) path)
]

-- The query of the parameters that are given, each behind its separator.
abbrev pub and_then : String → String → String
and_then part [] = part
and_then part (c ∷ more) = part ++ ("&" ++ (c ∷ more))

abbrev pub add_part :
    String → Result String → Result (String × List Arg) → Result (String × List Arg)
add_part key (err e) more = err e
add_part key (ok s) (err e) = err e
add_part key (ok s) (ok (more, args)) =
    ok (and_then (key ++ ("=" ++ encode_uri_component s)) more, args)

abbrev pub is_undefined : Arg → Bool
is_undefined undefined = true
is_undefined _ = false

-- The loop over the query parameters, with the parts joined by `&`; none that is `undefined` is
-- written.
unfoldable pub query_parts : List (String × String) → List Arg → Result (String × List Arg)
query_parts [] args = ok ("", args)
query_parts ((name, key) ∷ params) args =
    let more = query_parts params (later_args args) in
    if is_undefined (next_arg args)
    then more
    else add_part key (validate_query_param (next_arg args)) more

-- `path += (path.includes('?') ? '&' : '?') + query`, where there is a query.
abbrev pub add_query : String → String → String
add_query path [] = path
add_query path (c ∷ query) = path ++ ((if includes_char b'?' path then "&" else "?") ++ (c ∷ query))

unfoldable pub body_of : EndpointDefinition → List Arg → Arg
body_of d args = elim d.body_builder [
  | some build ↦ build args
  | none ↦ if d.has_body then next_arg args else undefined
]

-- The datasource, if it is given and not empty.
unfoldable pub add_datasource : Option String → String → String
add_datasource none path = path
add_datasource (some source) path =
    if str_eq source "" then path else add_query path ("datasource=" ++ encode_uri_component source)

abbrev pub finish_path :
    EndpointDefinition
    → Option String
    → String
    → Result (String × List Arg)
    → Result EndpointPathResult
finish_path d datasource path (err e) = err e
finish_path d datasource path (ok (query, args)) =
    ok (record { path = add_datasource datasource (add_query path query); body = body_of d args })

abbrev pub with_query :
    EndpointDefinition → Option String → Result (String × List Arg) → Result EndpointPathResult
with_query d datasource (err e) = err e
with_query d datasource (ok (path, args)) =
    finish_path d datasource path (query_parts d.query_params args)

unfoldable pub build_endpoint_path :
    EndpointDefinition → List Arg → Option String → Result EndpointPathResult
build_endpoint_path d args datasource =
    with_query d datasource (fill_path d.path_params args d.path)
