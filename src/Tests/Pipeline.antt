-- ===== src/Tests/Pipeline.antt =====
-- The theorems on the request pipeline at concrete inputs.
use esi_ts.Prelude.{
  List, ℕ, ◌+◌, ◌*◌, String, ◌≡◌, refl, true, false, none, some, [], ◌∷◌, arith, str_eq,
  if◌then◌else◌,
}
use esi_ts.Prelude.Text.{includes, before}
use esi_ts.Prelude.JsMap
use esi_ts.Prelude.JsMap.{JsMap}
use esi_ts.CacheKey.{◌<>◌, build_cache_key, scope, variant_of, trusted_identity}
use esi_ts.Errors.{esi, ok, err}
use esi_ts.Cache.{CacheEntry}
use esi_ts.Cache.Etag as Etag
use esi_ts.Cache.Etag.{EtagCacheManager}
use esi_ts.Cache.WriteLog.{empty_log}
use esi_ts.Cache.WriteLog.Overtaken.{empty_log-IsValid}
use esi_ts.Dedup.{RequestDeduplicator}
use esi_ts.CircuitBreaker as Breaker
use esi_ts.CircuitBreaker.{CircuitBreaker}
use esi_ts.RateLimiter.{RateLimiter, create_fallback_bucket}
use esi_ts.Pagination.{truncating}
use esi_ts.Pipeline.{Body, single, Given, Client, Call}
use esi_ts.Pipeline.Headers.{
  ParsedHeaders, parse_headers, lookup_spec_ttl, spec_key, snake_placeholders, trim_slash,
  camel_to_snake,
}
use esi_ts.Pipeline.CachePolicy.{
  found, spec_response, current_write_generation, invalidate_after_write, cache_response,
  try_spec_aware_cache_hit, stale_retention_ms, spec_ttl_for,
}
use esi_ts.Pipeline.CachePolicy.Writes.{nothing, wrote, with_response, stored_unless_overtaken}
use esi_ts.Pipeline.CachePolicy.Served.{stored_as, served_while_fresh}
use esi_ts.Pipeline.Status.{revalidated, revalidated_headers, handle_early_status}
use esi_ts.Pipeline.Status.Revalidated.{renewed, not_modified_renews}
use esi_ts.Pipeline.Middleware.{MiddlewareManager, RequestContext, has_interceptors}
use esi_ts.Pipeline.Fetch.{Flight, answered, limited}
use esi_ts.Pipeline.Fetch.Probe.{AllSettled, no_probe_left}
use esi_ts.Pipeline.Fetch.Steady.{Steady}
use esi_ts.Pipeline.Request.{Trip, execute_request}
use esi_ts.Pipeline.Request.Ends.{IsAnswered, request_ends}
use esi_ts.Pipeline.Request.Errors.{AllTyped, request_errors_typed}
use esi_ts.Pipeline.Handle.{route}
use esi_ts.Dedup.{Event, called, settled}
use esi_ts.Pipeline.Handle.Later.{is_older, next_request, after_events}
use esi_ts.Pipeline.Handle.Fresh.{is_new, write_then_read}

-- The history of a market may be kept for 300 seconds.
abbrev given : Given
given = record {
  caller_identity = λ header. "character:" <> header;
  hashed_identity = λ header. "sha256:" <> header;
  spec_seconds = λ key. if str_eq key "GET:markets/{region_id}/history" then some 300 else none;
  limiter_request = λ endpoint headers. record { endpoint = endpoint; user = none };
  limiter_headers = λ headers. record {
    group = none;
    remaining = none;
    limit = none;
    used = none;
    retry_after = none;
    error_limit_remain = none;
    error_limit_reset = none;
  };
}

abbrev entry : CacheEntry (Body ℕ)
entry = record { etag = "a"; body = some (single 7); headers = []; timestamp = 100; ttl = some 500 }

abbrev cache : EtagCacheManager (Body ℕ)
cache = record {
  cache = ("https://esi.evetech.net/markets/1/history", entry) ∷ [];
  max_entries = 2;
  default_ttl = 100;
  cleanup_interval = 60000;
  hits = 0;
  misses = 0;
  cleanup_timer = none;
}

abbrev requests : RequestDeduplicator
requests = record { inflight = ("markets/1/history", 0) ∷ []; started = 1 }

-- A breaker whose circuit is half-open, with its one probe under way.
abbrev breaker : CircuitBreaker
breaker = record {
  circuits =
      (
        "markets/1/history",
        record {
          state = Breaker.half_open;
          failures = 5;
          last_failure_time = 10;
          half_open_attempts = 1;
        },
      )
      ∷ [];
  failure_threshold = 5;
  reset_timeout_ms = 30;
  half_open_max_attempts = 1;
  stale_threshold_ms = 1000;
  key_strategy = Breaker.resolved;
  cleanup_timer = none;
}

abbrev client : Client ℕ
client = record {
  keys = record {
    link = "https://esi.evetech.net";
    tenant = none;
    language = none;
    compatibility_date = none;
    authorization = some "Bearer one";
    accepted = [];
  };
  user_agent = none;
  client_id = "price-checker";
  cache = some cache;
  writes = empty_log;
  deduplicator = some requests;
  circuit_breaker = some breaker;
  rate_limiter = none;
  timeout_ms = 30000;
}

abbrev history : Call
history = record {
  endpoint = "markets/1/history";
  method = "GET";
  has_body = false;
  requires_auth = false;
  use_etag = true;
  template_path = some "markets/{regionId}/history/";
  accept = none;
  empty_when_no_content = false;
}

abbrev parsed : ParsedHeaders
parsed = parse_headers (("etag", "b") ∷ ("cache-control", "public, max-age=60") ∷ [])

abbrev url : String
url = "https://esi.evetech.net/markets/1/history"

-- Another market is written to meanwhile.
abbrev after_write : Client ℕ
after_write = invalidate_after_write client "POST" "fleets/3?x=1"

stored_unless_overtaken_example :
    (late : EtagCacheManager (Body ℕ)) × (after_write.cache ≡ some late)
    × (cache_response given after_write 200 url history parsed
          (some (single 8))
          (some (current_write_generation client))
          none
        ≡ with_response given history parsed (some (single 8)) 200 url "b" none after_write late)
unfolding includes before parse_headers JsMap.get build_cache_key scope variant_of
    invalidate_after_write trusted_identity
stored_unless_overtaken_example =
    stored_unless_overtaken given history parsed (some (single 8)) 200 url "b" none client
      after_write cache ("fleets/3" ∷ []) refl refl refl empty_log-IsValid refl
      (wrote "POST" "fleets/3?x=1" refl nothing)

-- 100 ms after it was stored.
-- Another call that reads the same entry, without an ETag of its own.
abbrev plain_history : Call
plain_history = record history { use_etag = false }

served_while_fresh_example :
    (try_spec_aware_cache_hit given
      (with_response given history parsed (some (single 8)) 200 url "b" none client cache)
      300
      url
      plain_history).1
    ≡ some (
        spec_response
          (stored_as 200 "b" (some (single 8)) parsed.raw (300000 + stale_retention_ms)))
unfolding spec_ttl_for lookup_spec_ttl spec_key snake_placeholders trim_slash camel_to_snake
served_while_fresh_example =
    served_while_fresh given history plain_history parsed (some (single 8)) 200 300 300000 url url
      "b" none client cache refl refl refl

not_modified_renews_example :
    (let a = handle_early_status given client 200 304 url parsed history none in
      (a.1 ≡ ok (some (revalidated entry parsed)))
      × (JsMap.get "etag" (revalidated_headers entry parsed) ≡ some "a")
      × (found 650 url a.0.cache ≡ some (renewed 200 100 entry parsed)))
unfolding Etag.get JsMap.get build_cache_key scope variant_of trusted_identity Etag.is_expired
    JsMap.has parse_headers
not_modified_renews_example =
    not_modified_renews given client 200 650 url parsed history none cache entry refl refl refl

abbrev other_calls : List Event
other_calls = called "markets/1/history" ∷ settled "status" ∷ []

-- The route of a retried read after a write to its path.
write_then_read_example :
    (let after = invalidate_after_write client "POST" "markets/1/history" in
      ((try_spec_aware_cache_hit given after 200 url history).1 ≡ none)
      × (is_new (route given history after 200 true).1 ≡ true)
      × (is_older
            (next_request client.deduplicator)
            (route given history
              (record client { deduplicator = after_events after.deduplicator other_calls })
              900
              true).1
          ≡ false))
unfolding JsMap.has includes before invalidate_after_write
write_then_read_example =
    write_then_read given history client client 200 900 "POST" "markets/1/history" true other_calls
      (record { entries = (refl, tt); requests = (refl, tt) }) refl refl

abbrev test_limiter : RateLimiter
test_limiter = record {
  min_delay_ms = 50;
  threshold_num = 1;
  threshold_den = 5;
  per_user = false;
  endpoint_overrides = [];
  esi_rate_limit_groups = [];
  last_request_time = 0;
  is_test_mode = true;
  global_error_limit = record { remain = none; reset = none; exhausted_until = none };
  default_buckets = [];
  user_buckets = [];
  fallback_bucket = create_fallback_bucket;
  last_cleanup = 0;
}

abbrev quiet : MiddlewareManager ℕ
quiet = record { request_interceptors = []; response_interceptors = []; withheld = [] }

-- A flight during which the entry leaves the cache, and to which the server answers 304.
abbrev flight : Flight ℕ
flight = record {
  built_at = 200;
  middleware = quiet;
  lower = λ s. s;
  at_middleware = λ c. c;
  checked_at = 200;
  during_check = λ n lim. lim;
  check_clock = λ n. 200;
  at_check = λ c. c;
  at_fetch = λ c. record c { cache = some (record cache { cache = [] }) };
  reply = answered (record {
    status = 304;
    is_opaque_redirect = false;
    headers = ("etag", "b") ∷ [];
    json = none;
    text = 0;
  });
  request_timeout = none;
  replied_at = 260;
}

abbrev asked : RequestContext
asked = record {
  url = url;
  endpoint = "markets/1/history";
  method = "GET";
  headers = [];
  has_body = false;
}

no_probe_left_example :
    AllSettled "markets/1/history"
      (limited given flight history client "markets/1/history" asked none).0.circuit_breaker
no_probe_left_example = no_probe_left given flight history client "markets/1/history" asked none

-- A client whose requests get through.
abbrev ready : Client ℕ
ready = record client { circuit_breaker = none; rate_limiter = some test_limiter }

-- The second trip starts when the answer to the first has come.
abbrev trips : ℕ → Trip ℕ
trips n = record {
  flight = record flight { built_at = 200 + 60 * n; replied_at = 260 + 60 * n };
  at_body = λ c. c;
  read_at = 260;
  mode = truncating;
  pages = λ page. err (esi 404);
  at_pages = λ c. c;
  paged_at = 300;
  finished_at = 300;
}

flight-Steady : Steady (trips 0).flight
unfolding has_interceptors
flight-Steady = record {
  plain = refl;
  middleware = λ c. record { link = refl; authorization = refl };
  check = λ c. record { link = refl; authorization = refl };
  fetch = λ c. record { link = refl; authorization = refl };
}

request_ends_example : IsAnswered (execute_request given trips history 2 0 ready)
request_ends_example = request_ends given trips history 0 ready flight-Steady (omega arith)

request_errors_typed_example : AllTyped (execute_request given trips history 2 0 ready)
request_errors_typed_example = request_errors_typed given trips history 2 0 ready refl
