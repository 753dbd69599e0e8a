-- ===== src/Endpoints/Segments.antt =====
-- No argument can change the route of a request: a path built by
-- src/core/endpoints/buildEndpointPath.ts has the segments of its template.
use esi_ts.Prelude.{
  ℕ, ◌+◌, ◌≤◌, ◌≡◌, ◌≢◌, refl, sym, ap, ◌∙◌, inl, inr, Bool, true, false, ◌||◌, not, Option, none,
  some, List, [], ◌∷◌, arith, if◌then◌else◌, Bool-cases, All, str_eq,
}
use Prim.Native.String.{String, [], ◌∷◌, ◌++◌}
use esi_ts.Prelude.Encode.{count, includes_char, encode_uri_component, replace_first}
use esi_ts.Prelude.Encode.Counts.{
  IsEscaped, count-append, count_none, count-encode, count-replace, includes-count, encode-same,
}
use esi_ts.Prelude.Text.{str_ne}
use esi_ts.Errors.{Failure, Result, ok, err}
use esi_ts.Endpoints.{
  Arg, EndpointDefinition, EndpointPathResult, validate_path_param, next_arg, later_args,
  placeholder, fill_path, and_then, add_part, is_undefined, query_parts, add_query, add_datasource,
  build_endpoint_path, finish_path, with_query, invalid, string_of, has_unsafe, is_finite,
}

-- A name of a parameter, as the tables have them: it has no delimiter of a URL.
unfoldable pub IsPlain : String → Type 0
IsPlain s = (count b'/' s ≡ 0) × (count b'#' s ≡ 0) × (count b'?' s ≡ 0)

abbrev pub IsPlainKey : String × String → Type 0
IsPlainKey (name, key) = IsPlain key

-- A delimiter that encoding escapes, and that no text of the code around it has.
record IsDelimiter (x : ℕ) : Type 0 where
  escaped : IsEscaped x
  no_open : count x "{" ≡ 0
  no_close : count x "}" ≡ 0
  no_equals : count x "=" ≡ 0
  no_and : count x "&" ≡ 0
  no_source : count x "datasource=" ≡ 0
  of_plain : (s : String) → IsPlain s → count x s ≡ 0

slash : IsDelimiter b'/'
unfolding count IsPlain
slash = record {
  escaped = record { reserved = refl; no_percent = refl; no_digit = refl };
  no_open = refl;
  no_close = refl;
  no_equals = refl;
  no_and = refl;
  no_source = refl;
  of_plain = λ s h. h.0;
}

hash : IsDelimiter b'#'
unfolding count IsPlain
hash = record {
  escaped = record { reserved = refl; no_percent = refl; no_digit = refl };
  no_open = refl;
  no_close = refl;
  no_equals = refl;
  no_and = refl;
  no_source = refl;
  of_plain = λ s h. h.1;
}

question : IsDelimiter b'?'
unfolding count IsPlain
question = record {
  escaped = record { reserved = refl; no_percent = refl; no_digit = refl };
  no_open = refl;
  no_close = refl;
  no_equals = refl;
  no_and = refl;
  no_source = refl;
  of_plain = λ s h. h.2;
}

err≢ok : {A : Type 0} {a : A} {e : Failure} → err e ≡ ok a → ⊥
err≢ok h = cc

ok_inj : {A : Type 0} {a b : A} → ok a ≡ ok b → a ≡ b
ok_inj h = cc

module _ (x : ℕ) (d : IsDelimiter x) where
  count-placeholder : (p : String) → IsPlain p → count x (placeholder p) ≡ 0
  count-placeholder p h =
      count_none x "{" _ d.no_open (count_none x p "}" (d.of_plain p h) d.no_close)

  filled :
      (p path : String) (v : Result String) (go : String → Result (String × List Arg))
      → (r : String × List Arg) → IsPlain p
      → ((path' : String) → go path' ≡ ok r → count x r.0 ≡ count x path')
      → elim v [
        | err e ↦ err e
        | ok s ↦ go (replace_first (placeholder p) (encode_uri_component s) path)
      ]
        ≡ ok r
      → count x r.0 ≡ count x path
  filled p path (err f) go r h rest e = absurd (err≢ok e)
  filled p path (ok s) go r h rest e =
      rest _ e
      ∙ count-replace x (placeholder p) (encode_uri_component s) path (count-placeholder p h)
          (count-encode x s d.escaped)

  count-fill :
      (params : List String) (args : List Arg) (path : String) (r : String × List Arg)
      → All IsPlain params
      → fill_path params args path ≡ ok r
      → count x r.0 ≡ count x path
  unfolding fill_path
  count-fill [] args path r h e = ap (λ q. count x q.0) (sym (ok_inj e))
  count-fill (p ∷ ps) args path r (h, hs) e =
      filled p path (validate_path_param (next_arg args)) (fill_path ps (later_args args)) r h
        (λ path' q. count-fill ps (later_args args) path' r hs q) e

  joined :
      (part more : String) → count x part ≡ 0 → count x more ≡ 0 → count x (and_then part more) ≡ 0
  joined part [] h k = h
  joined part (c ∷ more) h k = count_none x part _ h (count_none x "&" (c ∷ more) d.no_and k)

  added :
      (key : String) (v : Result String) (more : Result (String × List Arg))
      → (r : String × List Arg) → IsPlain key
      → ((m : String × List Arg) → more ≡ ok m → count x m.0 ≡ 0)
      → add_part key v more ≡ ok r
      → count x r.0 ≡ 0
  added key (err f) more r h rest e = absurd (err≢ok e)
  added key (ok s) (err f) r h rest e = absurd (err≢ok e)
  added key (ok s) (ok m) r h rest e =
      ap (λ q. count x q.0) (sym (ok_inj e))
      ∙ joined _ m.0
          (count_none x key _ (d.of_plain key h)
            (count_none x "=" _ d.no_equals (count-encode x s d.escaped)))
          (rest m refl)

  parts :
      (skip : Bool) (key : String) (v : Result String) (more : Result (String × List Arg))
      → (r : String × List Arg) → IsPlain key
      → ((m : String × List Arg) → more ≡ ok m → count x m.0 ≡ 0)
      → (if skip then more else add_part key v more) ≡ ok r
      → count x r.0 ≡ 0
  parts true key v more r h rest e = rest r e
  parts false key v more r h rest e = added key v more r h rest e

  count-parts :
      (params : List (String × String)) (args : List Arg) (r : String × List Arg)
      → All IsPlainKey params
      → query_parts params args ≡ ok r
      → count x r.0 ≡ 0
  unfolding query_parts count
  count-parts [] args r h e = ap (λ q. count x q.0) (sym (ok_inj e))
  count-parts ((name, key) ∷ params) args r (h, hs) e =
      parts (is_undefined (next_arg args)) key _ (query_parts params (later_args args)) r h
        (λ m q. count-parts params (later_args args) m hs q) e

  count-source : (s : String) → count x ("datasource=" ++ encode_uri_component s) ≡ 0
  count-source s = count_none x "datasource=" _ d.no_source (count-encode x s d.escaped)

marked :
    (x : ℕ) (path mark q : String)
    → count x q ≡ 0
    → count x (path ++ (mark ++ q)) ≡ count x path + count x mark
marked x path mark q h =
    let a = count-append x path (mark ++ q) in
    let b = count-append x mark q in omega (arith, a, b, h)

-- A query adds none of the delimiters that it does not have.
kept :
    (x : ℕ) (path q : String)
    → count x "&" ≡ 0
    → count x "?" ≡ 0
    → count x q ≡ 0
    → count x (add_query path q) ≡ count x path
kept x path [] a b h = refl
kept x path (c ∷ q) a b h = elim (Bool-cases (includes_char b'?' path)) [
  | inl e ↦ rw e (let m = marked x path "&" (c ∷ q) h in omega (arith, m, a))
  | inr e ↦ rw e (let m = marked x path "?" (c ∷ q) h in omega (arith, m, b))
]

-- A query adds a question mark only where there is none.
one_question :
    (path q : String) → count b'?' path ≤ 1 → count b'?' q ≡ 0 → count b'?' (add_query path q) ≤ 1
unfolding count
one_question path [] le h = le
one_question path (c ∷ q) le h = elim (Bool-cases (includes_char b'?' path)) [
  | inl e ↦ rw e (let m = marked b'?' path "&" (c ∷ q) h in omega (arith, m, le))
  | inr e ↦ rw e (
      let m = marked b'?' path "?" (c ∷ q) h in
      let z = includes-count b'?' path e in omega (arith, m, z))
]

kept-datasource :
    (x : ℕ) (d : IsDelimiter x) (source : Option String) (path : String)
    → count x "?" ≡ 0
    → count x (add_datasource source path) ≡ count x path
unfolding add_datasource
kept-datasource x d none path h = refl
kept-datasource x d (some s) path h = elim (Bool-cases (str_eq s "")) [
  | inl e ↦ rw e refl
  | inr e ↦ rw e (kept x path _ d.no_and h (count-source x d s))
]

one_question-datasource :
    (source : Option String) (path : String)
    → count b'?' path ≤ 1
    → count b'?' (add_datasource source path) ≤ 1
unfolding add_datasource
one_question-datasource none path le = le
one_question-datasource (some s) path le = elim (Bool-cases (str_eq s "")) [
  | inl e ↦ rw e le
  | inr e ↦ rw e (one_question path _ le (count-source b'?' question s))
]

-- What `build_endpoint_path` has done when it returns.
record IsBuilt (d : EndpointDefinition) (source : Option String) (r : EndpointPathResult)
    : Type 0 where
  filled_path : String
  query : String
  same_path : r.path ≡ add_datasource source (add_query filled_path query)
  filled_count : (x : ℕ) → IsDelimiter x → count x filled_path ≡ count x d.path
  query_count : (x : ℕ) → IsDelimiter x → count x query ≡ 0

module _ (d : EndpointDefinition) (source : Option String) (r : EndpointPathResult)
    (plain : All IsPlain d.path_params) (keys : All IsPlainKey d.query_params) where
  finished :
      (path : String) (rest : List Arg) (q : Result (String × List Arg))
      → query_parts d.query_params rest ≡ q
      → ((x : ℕ) → IsDelimiter x → count x path ≡ count x d.path)
      → finish_path d source path q ≡ ok r
      → IsBuilt d source r
  finished path rest (err f) e h k = absurd (err≢ok k)
  finished path rest (ok q) e h k = record {
    filled_path = path;
    query = q.0;
    same_path = ap (λ s. s.path) (sym (ok_inj k));
    filled_count = h;
    query_count = λ x dx. count-parts x dx d.query_params rest q keys e;
  }

  built :
      (args : List Arg) (f : Result (String × List Arg))
      → fill_path d.path_params args d.path ≡ f
      → with_query d source f ≡ ok r
      → IsBuilt d source r
  built args (err e) p h = absurd (err≢ok h)
  built args (ok f) p h =
      finished f.0 f.1 (query_parts d.query_params f.1) refl
        (λ x dx. count-fill x dx d.path_params args d.path f plain p) h

  kept-built :
      (x : ℕ)
      → IsDelimiter x
      → count x "?" ≡ 0
      → IsBuilt d source r
      → count x r.path ≡ count x d.path
  kept-built x dx h b =
      ap (count x) b.same_path
      ∙ kept-datasource x dx source (add_query b.filled_path b.query) h
      ∙ kept x b.filled_path b.query dx.no_and h (b.query_count x dx)
      ∙ b.filled_count x dx

  one_question-built : IsBuilt d source r → count b'?' d.path ≤ 1 → count b'?' r.path ≤ 1
  one_question-built b le =
      let f = b.filled_count b'?' question in
      let a =
        one_question-datasource source (add_query b.filled_path b.query) (
          one_question b.filled_path b.query (omega (arith, f, le))
            (b.query_count b'?' question)) in
      let p = ap (count b'?') b.same_path in omega (arith, a, p)

unlike_encoded :
    (u s t : String) → count b'%' t ≡ 0 → u ≡ s → str_eq u t ≡ false → encode_uri_component s ≢ t
unlike_encoded u s t z same e p =
    str_ne u t e (same ∙ sym (encode-same s (ap (count b'%') p ∙ z)) ∙ p)

accepted :
    (bad : Bool) (t s : String) → (if bad then invalid else ok t) ≡ ok s → (bad ≡ false) × (t ≡ s)
accepted true t s h = absurd (err≢ok h)
accepted false t s h = (refl, ok_inj h)

none_of :
    (a b c d e : Bool) → (a || b || (c || d) || e) ≡ false → (a ≡ false) × (c ≡ false) × (d ≡ false)
none_of a b c d e h = (ground arith, ground arith, ground arith)

-- An argument that is accepted for a path is a segment of its own: its encoding is neither empty nor
-- a dot segment, which the resolution of the URL would collapse, and it has no slash, no hash and no
-- question mark.
pub validated-segment :
    (value : Arg) (s : String)
    → validate_path_param value ≡ ok s
    → (encode_uri_component s ≢ "")
      × (encode_uri_component s ≢ ".")
      × (encode_uri_component s ≢ "..")
      × IsPlain (encode_uri_component s)
unfolding validate_path_param count IsPlain
validated-segment value s h =
    let (ok_test, same) = accepted _ (string_of value) s h in
    let parts =
      none_of (str_eq (string_of value) "") (has_unsafe (string_of value))
        (str_eq (string_of value) ".") (str_eq (string_of value) "..") (not (is_finite value))
        ok_test in
    (
      unlike_encoded _ s "" refl same parts.0,
      unlike_encoded _ s "." refl same parts.1,
      unlike_encoded _ s ".." refl same parts.2,
      (
        count-encode b'/' s slash.escaped,
        count-encode b'#' s hash.escaped,
        count-encode b'?' s question.escaped,
      ),
    )

-- Whatever the arguments and the datasource, a path that is built has as many slashes as its
-- template and as many hashes, and at most one question mark if the template has at most one: no
-- argument adds a segment, a fragment or a second query. The names of the parameters and the keys
-- of the query have none of the three characters.
pub path_not_injected :
    (d : EndpointDefinition) (args : List Arg) (source : Option String) (r : EndpointPathResult)
    → All IsPlain d.path_params
    → All IsPlainKey d.query_params
    → count b'?' d.path ≤ 1
    → build_endpoint_path d args source ≡ ok r
    → (count b'/' r.path ≡ count b'/' d.path)
      × (count b'#' r.path ≡ count b'#' d.path)
      × (count b'?' r.path ≤ 1)
unfolding build_endpoint_path count
path_not_injected d args source r plain keys le e =
    let b = built d source r plain keys args (fill_path d.path_params args d.path) refl e in
    (
      kept-built d source r plain keys b'/' slash refl b,
      kept-built d source r plain keys b'#' hash refl b,
      one_question-built d source r plain keys b le,
    )
