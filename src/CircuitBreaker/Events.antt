-- ===== src/CircuitBreaker/Events.antt =====
-- Sequences of calls of a circuit breaker, in the order in which the requests of all endpoints
-- make them.
use esi_ts.Prelude.{ℕ, String, Option, List, [], ◌∷◌}
use esi_ts.CircuitBreaker.{
  CircuitBreaker, check_circuit, record_success, record_failure, cleanup, reset,
}

pub data Event : Type 0 where
  checked : ℕ → String → Event
  succeeded : String → Event
  failed : ℕ → String → ℕ → Event
  cleaned : ℕ → Event
  cleared : Option String → Event

unfoldable pub apply : CircuitBreaker → Event → CircuitBreaker
apply b (checked now e) = (check_circuit b now e).0
apply b (succeeded e) = record_success b e
apply b (failed now e status) = record_failure b now e status
apply b (cleaned now) = (cleanup b now).0
apply b (cleared e) = reset b e

unfoldable pub run : CircuitBreaker → List Event → CircuitBreaker
run b [] = b
run b (ev ∷ evs) = run (apply b ev) evs

-- Failures of one endpoint, each with its time and status.
unfoldable pub fail_all : CircuitBreaker → String → List (ℕ × ℕ) → CircuitBreaker
fail_all b e [] = b
fail_all b e ((now, status) ∷ fs) = fail_all (record_failure b now e status) e fs
