-- ===== src/Tests/Endpoints.antt =====
-- The theorems on the paths of endpoints and on refreshing every character at concrete inputs.
use esi_ts.Prelude.{ℕ, ◌≤◌, ◌≡◌, ◌≢◌, refl, false, none, some, List, [], ◌∷◌, arith}
use esi_ts.Prelude.Encode.{
  count, includes_char, char_at, escape, encode_uri_component, strip_prefix, replace_first,
}
use esi_ts.Prelude.Int.{pos}
use esi_ts.Errors.{err, fault, validation_error}
use esi_ts.Tokens.Refresh.{refresh_one}
use esi_ts.Endpoints.{
  Arg, undefined, printed, EndpointDefinition, EndpointPathResult, validate_path_param,
  validate_query_param, has_unsafe, fill_path, query_parts, body_of, add_datasource,
  build_endpoint_path,
}
use esi_ts.Endpoints.Segments.{IsPlain, validated-segment, path_not_injected}
use esi_ts.Tokens.{StoredToken, create, got, is_stale}
use esi_ts.Tokens.RefreshAll.{
  was_refreshed, refresh_record, settled_result, Turn, pool, refresh_all,
}
use esi_ts.Tokens.RefreshAll.Reports.{refresh_each, refresh_all_reports}
use esi_ts.Concurrency.{run_with_concurrency, resolve_limit, spawn, settle, run, at, replace}

abbrev assets : EndpointDefinition
assets = record {
  path = "characters/{characterId}/assets/";
  path_params = "characterId" ∷ [];
  query_params = ("page", "page") ∷ ("kind", "type") ∷ [];
  has_body = false;
  body_builder = none;
}

-- A page is not given, and the kind tries to end the query.
abbrev hostile : List Arg
hostile = printed "90" ∷ undefined ∷ printed "a/b?c#d" ∷ []

abbrev built : EndpointPathResult
built = record {
  path = "characters/90/assets/?type=a%2Fb%3Fc%23d&datasource=tranquility%2F";
  body = undefined;
}

path_not_injected_example :
    (count b'/' built.path ≡ 3) × (count b'#' built.path ≡ 0) × (count b'?' built.path ≤ 1)
unfolding count build_endpoint_path fill_path query_parts body_of add_datasource validate_path_param
    validate_query_param has_unsafe IsPlain includes_char char_at escape encode_uri_component
    strip_prefix replace_first
path_not_injected_example =
    path_not_injected assets hostile (some "tranquility/") built ((refl, refl, refl), tt)
      ((refl, refl, refl), ((refl, refl, refl), tt)) (omega arith) refl

validated-segment_example :
    (encode_uri_component "..." ≢ "")
    × (encode_uri_component "..." ≢ ".")
    × (encode_uri_component "..." ≢ "..")
    × IsPlain (encode_uri_component "...")
unfolding validate_path_param has_unsafe includes_char
validated-segment_example = validated-segment (printed "...") "..." refl

abbrev bob : StoredToken
bob = record {
  character_id = 8;
  character_name = "Bob";
  access_token = "a";
  refresh_token = "r";
  expires_at = 900000;
  scopes = [];
  owner_hash = none;
  updated_at = 0;
  revoked_at = none;
}

abbrev cy : StoredToken
cy = record bob { character_id = 9; revoked_at = some 5 }

abbrev turn : ℕ → Turn
turn i = record {
  manager = create (record { refresh_skew_ms = none; auto_refresh = none }) (λ id. none);
  now = 850000;
  is_aborted = false;
  refresh = got (record bob { expires_at = 2000000 });
}

-- The second refresh settles before the first one.
refresh_all_reports_example :
    refresh_all turn (some 1000) (some (pos 2)) (bob ∷ cy ∷ []) (1 ∷ 0 ∷ [])
    ≡ refresh_each turn (some 1000) 0 (bob ∷ cy ∷ [])
unfolding pool run_with_concurrency resolve_limit spawn settle run at replace
refresh_all_reports_example =
    refresh_all_reports turn (some 1000) (some (pos 2)) (bob ∷ cy ∷ []) (1 ∷ 0 ∷ []) refl

unsafe_texts :
    (validate_path_param (printed "a\\b") ≡ err (fault validation_error))
    × (validate_path_param (printed "it's") ≡ err (fault validation_error))
    × (validate_path_param (printed "..") ≡ err (fault validation_error))
    × (validate_path_param undefined ≡ err (fault validation_error))
unfolding validate_path_param has_unsafe includes_char
unsafe_texts = (refl, refl, refl, refl)

euro : encode_uri_component "€ 1" ≡ "%E2%82%AC%201"
unfolding encode_uri_component escape char_at
euro = refl

report_of_refresh :
    refresh_each turn (some 1000) 0 (bob ∷ [])
    ≡ record {
      character_id = 8;
      status = was_refreshed;
      expires_at = some 2000000;
      error = none;
      retryable = none;
      reason = none;
    }
      ∷ []
unfolding refresh_each refresh_record refresh_one is_stale settled_result create
report_of_refresh = refl
