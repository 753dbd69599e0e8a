-- ===== src/Tests/Breaker.antt =====
-- The theorems on src/core/circuitBreaker/CircuitBreaker.ts at concrete inputs.
use esi_ts.Prelude.{◌≡◌, refl, none, some, List, [], ◌∷◌, arith}
use esi_ts.Prelude.JsMap
use esi_ts.Prelude.Text.{before}
use esi_ts.CircuitBreaker.{
  opened, CircuitRecord, CircuitBreaker, CircuitBreakerConfig, create, resolved, get_key,
  check_circuit, record_failure, get_state, cleanup, is_counted, get_or_create,
}
use esi_ts.CircuitBreaker.Events.{Event, checked, failed, run, fail_all}
use esi_ts.CircuitBreaker.Invariant.{IsValid, create-IsValid, breaker_run-IsValid}
use esi_ts.CircuitBreaker.Probes.{admitted, opened-admitted}
use esi_ts.CircuitBreaker.Trip.{trips}
use esi_ts.CircuitBreaker.Cleanup.{cleanup_invisible}

abbrev small_config : CircuitBreakerConfig
small_config = record {
  failure_threshold = some 2;
  reset_timeout_ms = some 100;
  half_open_max_attempts = some 1;
  stale_threshold_ms = some 1000;
  key_strategy = none;
  cleanup_interval_ms = none;
}

abbrev open_record : CircuitRecord
open_record = record {
  state = opened;
  failures = 2;
  last_failure_time = 50;
  half_open_attempts = 0;
}

abbrev open_breaker : CircuitBreaker
open_breaker = record {
  circuits = ("markets", open_record) ∷ [];
  failure_threshold = 2;
  reset_timeout_ms = 100;
  half_open_max_attempts = 1;
  stale_threshold_ms = 1000;
  key_strategy = resolved;
  cleanup_timer = none;
}

small_create-IsValid : IsValid (create small_config)
unfolding create
small_create-IsValid = create-IsValid small_config (omega arith)

abbrev busy : List Event
busy = failed 10 "markets" 500 ∷ failed 20 "markets?page=2" 503 ∷ checked 130 "markets" ∷ []

opened-admitted_example : admitted open_breaker "markets?page=1" (200 ∷ 201 ∷ 202 ∷ []) ≡ 1
unfolding get_key JsMap.get before
opened-admitted_example =
    opened-admitted open_breaker "markets?page=1" open_record 200 (201 ∷ 202 ∷ []) refl refl
      (omega arith)

trips_example :
    (check_circuit
      (record_failure (fail_all (create small_config) "markets" ((10, 500) ∷ [])) 50 "markets" 503)
      120
      "markets").1
    ≡ some (record { key = "markets"; failures = 2; remaining_ms = 30 })
unfolding create get_key is_counted get_or_create JsMap.get before
trips_example =
    trips (create small_config) "markets" ((10, 500) ∷ []) 50 503 120 small_create-IsValid
      (refl, tt) refl

cleanup_invisible_example :
    get_state (run (cleanup open_breaker 2000).0 busy) 140 "markets"
    ≡ get_state (run open_breaker busy) 140 "markets"
unfolding JsMap.has
cleanup_invisible_example = cleanup_invisible open_breaker 2000 busy 140 "markets" (refl, tt)

breaker_run-IsValid_example : IsValid (run (create small_config) busy)
breaker_run-IsValid_example = breaker_run-IsValid (create small_config) busy small_create-IsValid
