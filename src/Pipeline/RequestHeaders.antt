-- ===== src/Pipeline/RequestHeaders.antt =====
-- The headers of a request: `buildRequestHeaders` of src/core/requestPipeline/headers.ts.
use esi_ts.Prelude.{
  ℕ, Bool, true, false, ◌&&◌, ◌||◌, Option, none, some, [], ◌∷◌, leb, ◌==◌, if◌then◌else◌,
  or_default,
}
use Prim.Native.Char.{code}
use Prim.Native.String.{String, [], ◌∷◌}
use esi_ts.Prelude.JsMap
use esi_ts.Prelude.JsMap.{JsMap}
use esi_ts.CacheKey.{◌<>◌, default_date, truthy, build_conditional_cache_key}
use esi_ts.Errors.{fault, no_auth_token, Result, ok, err}
use esi_ts.Cache.{CacheEntry}
use esi_ts.Pipeline.{Body, Given, Client, Call}
use esi_ts.Pipeline.CachePolicy.{is_get, cache_get}

-- USER_AGENT of src/core/constants.ts.
abbrev pub library_agent : String
library_agent = "esi.ts/12.4.0"

abbrev is_header_char : ℕ → Bool
is_header_char n = n == 9 || (leb b' ' n && leb n b'~')

-- The rest of `/^[\t\x20-\x7e]+$/` after its first character.
all_header_chars : String → Bool
all_header_chars [] = true
all_header_chars (c ∷ s) = is_header_char (code c) && all_header_chars s

is_header_value : String → Bool
unfolding all_header_chars
is_header_value [] = false
is_header_value (c ∷ s) = all_header_chars (c ∷ s)

-- `if (value) headers[name] = value`.
abbrev pub with_header : String → Option String → JsMap String → JsMap String
with_header name none headers = headers
with_header name (some value) headers = JsMap.set name value headers

-- What reads the caller: the configured user agent, else a client id that is a legal value.
caller_agent : Option String → String → Option String
unfolding is_header_value
caller_agent none client_id = if is_header_value client_id then some client_id else none
caller_agent (some agent) client_id = some agent

abbrev agent_line : Option String → String
agent_line none = library_agent
agent_line (some agent) = agent <> " " <> library_agent

abbrev pub content_type : Call → Option String
content_type call = if call.has_body then some "application/json" else none

unfoldable pub authorized : Bool → Option String → JsMap String → Result (JsMap String)
authorized false header headers = ok headers
authorized true none headers = err (fault no_auth_token)
authorized true (some header) headers = ok (JsMap.set "Authorization" header headers)

module _ {D : Type 0} where
  -- The headers that depend on the settings of the client alone.
  unfoldable pub client_headers : Client D → Call → JsMap String
  unfolding caller_agent
  client_headers c call =
      let agent = truthy c.user_agent in
      with_header "Accept-Language" (truthy c.keys.language) (
        with_header "X-Tenant" (truthy c.keys.tenant) (
          with_header "X-User-Agent" (caller_agent agent c.client_id) (
            ("Accept", or_default call.accept "application/json")
            ∷ ("Accept-Encoding", "gzip, deflate, br")
            ∷ ("User-Agent", agent_line agent)
            ∷ ("X-Compatibility-Date", or_default c.keys.compatibility_date default_date)
            ∷ [])))

  abbrev pub entry_etag : Option (CacheEntry (Body D)) → Option String
  entry_etag none = none
  entry_etag (some entry) = truthy (some entry.etag)

module _ {D : Type 0} (g : Given) where
  -- `build_request_headers` with `headers` built so far: the ETag of the claimed identity's entry.
  unfoldable pub conditional : Client D → ℕ → String → Call → JsMap String → Client D × JsMap String
  conditional c now url call headers =
      if call.use_etag && is_get call.method
      then (let key =
            build_conditional_cache_key g.caller_identity g.hashed_identity url c.keys
              call.requires_auth in
          (
            (cache_get c now key).0,
            with_header "If-None-Match" (entry_etag (cache_get c now key).1) headers,
          ))
      else (c, headers)

  unfoldable pub with_condition :
      Client D → ℕ → String → Call → Result (JsMap String) → Client D × Result (JsMap String)
  with_condition c now url call (err e) = (c, err e)
  with_condition c now url call (ok headers) =
      let (c', conditioned) = conditional c now url call headers in
      (c', ok (with_header "Content-Type" (content_type call) conditioned))

  unfoldable pub build_request_headers :
      Client D → ℕ → String → Call → Client D × Result (JsMap String)
  build_request_headers c now url call =
      with_condition c now url call
        (authorized call.requires_auth (truthy c.keys.authorization) (client_headers c call))
