-- ===== src/CircuitBreaker.antt =====
-- The circuit breaker of src/core/circuitBreaker/CircuitBreaker.ts: a state machine for each
-- endpoint. Times are natural numbers of milliseconds, read from the clock by the caller of an
-- operation and passed as `now`. `now - last >= timeout` of the source, where the difference may
-- be negative, is `timeout + last ≤ now`.
pub mod Events
pub mod Invariant
pub mod Probes
pub mod Trip
pub mod View
pub mod Cleanup
pub mod Isolation
pub mod Stats
pub mod Settled
use esi_ts.Prelude.{
  ℕ, zero, suc, ◌+◌, ◌-◌, ◌*◌, ◌/◌, ◌%◌, ◌≤◌, ◌<◌, min, max, String, ◌≡◌, refl, sym, ap, ◌∙◌, ◌≢◌,
  ◌↔◌, ◌⊎◌, inl, inr, Bool, true, false, not, ◌&&◌, ◌||◌, Option, none, some, List, [], ◌∷◌, ◌++◌,
  map, arith, str_eq, eq_iff, ltb, leb, ◌==◌, if◌then◌else◌, ltb→lt, lt→ltb, leb→le, le→leb, ==_iff,
  leb-false, leb_of_lt, or_default, Bool-cases, Option-cases, length, take, drop, any,
  length-append, All, All-append,
}
use esi_ts.Prelude.Text.{before}
use esi_ts.Prelude.JsMap
use esi_ts.Prelude.JsMap.{JsMap}

-- 'closed' | 'open' | 'half-open'; `open` is no name here.
pub data CircuitState : Type 0 where
  closed opened half_open : CircuitState

pub data KeyStrategy : Type 0 where
  resolved template : KeyStrategy

pub record CircuitBreakerConfig : Type 0 where
  pub failure_threshold : Option ℕ
  pub reset_timeout_ms : Option ℕ
  pub half_open_max_attempts : Option ℕ
  pub stale_threshold_ms : Option ℕ
  pub key_strategy : Option KeyStrategy
  pub cleanup_interval_ms : Option ℕ

pub record CircuitRecord : Type 0 where
  pub state : CircuitState
  pub failures : ℕ
  pub last_failure_time : ℕ
  pub half_open_attempts : ℕ

-- `cleanup_timer` is the interval of the running timer.
pub record CircuitBreaker : Type 0 where
  pub circuits : JsMap CircuitRecord
  pub failure_threshold : ℕ
  pub reset_timeout_ms : ℕ
  pub half_open_max_attempts : ℕ
  pub stale_threshold_ms : ℕ
  pub key_strategy : KeyStrategy
  pub cleanup_timer : Option ℕ

pub record CircuitOpenError : Type 0 where
  pub key : String
  pub failures : ℕ
  pub remaining_ms : ℕ

start_timer : Option ℕ → Option ℕ
start_timer none = none
start_timer (some ms) = if ltb 0 ms then some ms else none

-- The constructor.
unfoldable pub create : CircuitBreakerConfig → CircuitBreaker
unfolding start_timer
create config = record {
  circuits = [];
  failure_threshold = or_default config.failure_threshold 5;
  reset_timeout_ms = or_default config.reset_timeout_ms 30000;
  half_open_max_attempts = or_default config.half_open_max_attempts 1;
  stale_threshold_ms = or_default config.stale_threshold_ms 3600000;
  key_strategy = or_default config.key_strategy resolved;
  cleanup_timer = start_timer config.cleanup_interval_ms;
}

unfoldable pub get_key : String → String
get_key endpoint = before b'?' endpoint

abbrev pub fresh_record : CircuitRecord
fresh_record = record {
  state = closed;
  failures = 0;
  last_failure_time = 0;
  half_open_attempts = 0;
}

abbrev pub record_or_fresh : Option CircuitRecord → CircuitRecord
record_or_fresh none = fresh_record
record_or_fresh (some r) = r

-- `getOrCreate` puts a fresh record into the map; the model returns the record, and each caller
-- stores the record that it ends with, which has the same effect on the map.
unfoldable pub get_or_create : CircuitBreaker → String → CircuitRecord
get_or_create b key = record_or_fresh (JsMap.get key b.circuits)

abbrev pub store : CircuitBreaker → String → CircuitRecord → CircuitBreaker
store b key r = record b { circuits = JsMap.set key r b.circuits }

abbrev open_error : String → CircuitRecord → ℕ → CircuitOpenError
open_error key r ms = record { key = key; failures = r.failures; remaining_ms = ms }

-- The body of `checkCircuit` on the record of a key: the record that it leaves, and the error that
-- it throws.
pub check_record :
    CircuitBreaker
    → ℕ
    → String
    → CircuitState
    → CircuitRecord
    → CircuitRecord × Option CircuitOpenError
check_record b now key closed r = (r, none)
check_record b now key opened r =
    if leb (b.reset_timeout_ms + r.last_failure_time) now
    then (record r { state = half_open; half_open_attempts = 1 }, none)
    else (r, some (open_error key r (b.reset_timeout_ms + r.last_failure_time - now)))
check_record b now key half_open r =
    if leb b.half_open_max_attempts r.half_open_attempts
    then (r, some (open_error key r b.reset_timeout_ms))
    else (record r { half_open_attempts = r.half_open_attempts + 1 }, none)

unfoldable pub check_circuit :
    CircuitBreaker → ℕ → String → CircuitBreaker × Option CircuitOpenError
unfolding check_record get_or_create
check_circuit b now endpoint =
    let key = get_key endpoint in
    let r = get_or_create b key in
    let (r', e) = check_record b now key r.state r in (store b key r', e)

pub close_record : CircuitState → CircuitRecord → CircuitRecord
close_record opened r = r
close_record _ r = record r { state = closed; failures = 0; half_open_attempts = 0 }

unfoldable pub record_success : CircuitBreaker → String → CircuitBreaker
unfolding close_record
record_success b endpoint = elim (JsMap.get (get_key endpoint) b.circuits) [
  | none ↦ b
  | some r ↦ store b (get_key endpoint) (close_record r.state r)
]

-- Whether a status counts as a failure: 0 is a network error or a timeout.
unfoldable pub is_counted : ℕ → Bool
is_counted status = status == 0 || leb 500 status || status == 420 || status == 429

pub fail_record : CircuitBreaker → ℕ → CircuitState → CircuitRecord → CircuitRecord
fail_record b now half_open r = record r {
  state = opened;
  failures = r.failures + 1;
  last_failure_time = now;
}
fail_record b now s r = record r {
  state = if leb b.failure_threshold (r.failures + 1) then opened else s;
  failures = r.failures + 1;
  last_failure_time = now;
}

unfoldable pub record_failure : CircuitBreaker → ℕ → String → ℕ → CircuitBreaker
unfolding fail_record get_or_create is_counted
record_failure b now endpoint status =
    if is_counted status
    then (let r = get_or_create b (get_key endpoint) in
        store b (get_key endpoint) (fail_record b now r.state r))
    else b

pub state_of : CircuitBreaker → ℕ → CircuitState → CircuitRecord → CircuitState
state_of b now opened r =
    if leb (b.reset_timeout_ms + r.last_failure_time) now then half_open else opened
state_of b now s r = s

unfoldable pub get_state : CircuitBreaker → ℕ → String → CircuitState
unfolding state_of
get_state b now endpoint = elim (JsMap.get (get_key endpoint) b.circuits) [
  | none ↦ closed
  | some r ↦ state_of b now r.state r
]

pub record CircuitStats : Type 0 where
  pub total_circuits : ℕ
  pub open_circuits : ℕ
  pub circuits : JsMap (CircuitState × ℕ)

is_opened : CircuitState → Bool
is_opened opened = true
is_opened _ = false

-- One round of the loop of `getStats`.
abbrev note_circuit : String → ℕ → CircuitState → CircuitStats → CircuitStats
note_circuit key failures state s = record s {
  circuits = JsMap.set key (state, failures) s.circuits;
  open_circuits = s.open_circuits + (if is_opened state then 1 else 0);
}

stats_loop : CircuitBreaker → ℕ → JsMap CircuitRecord → CircuitStats → CircuitStats
stats_loop b now [] s = s
stats_loop b now ((key, r) ∷ m) s =
    stats_loop b now m (note_circuit key r.failures (get_state b now key) s)

unfoldable pub get_stats : CircuitBreaker → ℕ → CircuitStats
unfolding stats_loop is_opened
get_stats b now =
    stats_loop b now b.circuits
      (record { total_circuits = JsMap.size b.circuits; open_circuits = 0; circuits = [] })

-- `reset(endpoint?)`: an empty endpoint is falsy, and clears the map like an absent one.
unfoldable pub reset : CircuitBreaker → Option String → CircuitBreaker
reset b none = record b { circuits = [] }
reset b (some endpoint) =
    if str_eq endpoint ""
    then record b { circuits = [] }
    else record b { circuits = JsMap.delete (get_key endpoint) b.circuits }

is_closed : CircuitState → Bool
is_closed closed = true
is_closed _ = false

unfoldable pub is_stale : CircuitBreaker → ℕ → CircuitRecord → Bool
unfolding is_closed
is_stale b now r =
    is_closed r.state
    && r.failures == 0
    && ltb 0 r.last_failure_time
    && ltb (b.stale_threshold_ms + r.last_failure_time) now

-- The breaker after `cleanup`, and the number of circuits that it removed.
unfoldable pub cleanup : CircuitBreaker → ℕ → CircuitBreaker × ℕ
unfolding is_stale
cleanup b now =
    let kept = JsMap.keep (λ key r. not (is_stale b now r)) b.circuits in
    (record b { circuits = kept }, JsMap.size b.circuits - JsMap.size kept)

unfoldable pub destroy : CircuitBreaker → CircuitBreaker
destroy b = record b { circuits = []; cleanup_timer = none }
