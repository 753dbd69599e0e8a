-- ===== src/CircuitBreaker/Invariant.antt =====
-- The invariant of a circuit breaker: a circuit is closed exactly while its failures are below the
-- threshold, and a half-open one has let through at least one probe and no more than allowed.
use esi_ts.Prelude.{
  ℕ, ◌+◌, ◌≤◌, ◌<◌, max, String, ◌≡◌, refl, inl, inr, Option, none, some, List, [], ◌∷◌, arith,
  str_eq, leb, or_default, Bool-cases, Option-cases,
}
use esi_ts.Prelude.JsMap
use esi_ts.Prelude.JsMap.{JsMap, Distinct}
use esi_ts.Prelude.JsMap.Every.{Every, IfSome, Every-get, Every-set, Every-delete, Every-keep}
use esi_ts.CircuitBreaker.{
  CircuitState, closed, opened, half_open, CircuitRecord, CircuitBreaker, CircuitBreakerConfig,
  create, get_key, check_circuit, check_record, record_success, close_record, record_failure,
  fail_record, cleanup, reset, is_counted, get_or_create, store, record_or_fresh,
}
use esi_ts.CircuitBreaker.Events.{Event, checked, succeeded, failed, cleaned, cleared, apply, run}

abbrev pub Sound : ℕ → ℕ → CircuitState → CircuitRecord → Type 0
Sound t p closed r = r.failures < t
Sound t p opened r = t ≤ r.failures
Sound t p half_open r =
    (t ≤ r.failures) × (1 ≤ r.half_open_attempts) × (r.half_open_attempts ≤ max 1 p)

abbrev pub IsSound : CircuitBreaker → CircuitRecord → Type 0
IsSound b r = Sound b.failure_threshold b.half_open_max_attempts r.state r

pub record IsValid (b : CircuitBreaker) : Type 0 where
  pub positive : 0 < b.failure_threshold
  pub distinct : Distinct b.circuits
  pub sound : Every (IsSound b) b.circuits

found-IsSound :
    (b : CircuitBreaker) (o : Option CircuitRecord)
    → 0 < b.failure_threshold
    → IfSome (IsSound b) o
    → IsSound b (record_or_fresh o)
found-IsSound b none p h = p
found-IsSound b (some r) p h = h

-- The record that an operation works on is sound, the fresh one too.
pub get_or_create-IsSound :
    (b : CircuitBreaker) (key : String) → IsValid b → IsSound b (get_or_create b key)
unfolding get_or_create
get_or_create-IsSound b key v =
    found-IsSound b (JsMap.get key b.circuits) v.positive
      (Every-get (IsSound b) key b.circuits v.sound)

-- Storing a sound record keeps the invariant.
pub store-IsValid :
    (b : CircuitBreaker) (key : String) (r : CircuitRecord)
    → IsValid b
    → IsSound b r
    → IsValid (store b key r)
store-IsValid b key r v h = record {
  positive = v.positive;
  distinct = JsMap.Distinct-set key r b.circuits v.distinct;
  sound = Every-set (IsSound b) key r b.circuits h v.sound;
}

module _ (b : CircuitBreaker) where
  check_record-IsSound :
      (now : ℕ) (key : String) (s : CircuitState) (r : CircuitRecord)
      → r.state ≡ s
      → Sound b.failure_threshold b.half_open_max_attempts s r
      → IsSound b (check_record b now key s r).0
  unfolding check_record
  check_record-IsSound now key closed r e h = rw e h
  check_record-IsSound now key opened r e h =
      elim (Bool-cases (leb (b.reset_timeout_ms + r.last_failure_time) now)) [
        | inl due ↦ rw due (h, omega arith, omega arith)
        | inr early ↦ rw early (rw e h)
      ]
  check_record-IsSound now key half_open r e h =
      elim (Bool-cases (leb b.half_open_max_attempts r.half_open_attempts)) [
        | inl full ↦ rw full (rw e h)
        | inr room ↦ rw room (rw e (h.0, omega arith, ground arith))
      ]

  close_record-IsSound :
      (s : CircuitState) (r : CircuitRecord)
      → 0 < b.failure_threshold
      → r.state ≡ s
      → Sound b.failure_threshold b.half_open_max_attempts s r
      → IsSound b (close_record s r)
  unfolding close_record
  close_record-IsSound closed r p e h = p
  close_record-IsSound opened r p e h = rw e h
  close_record-IsSound half_open r p e h = p

  fail_record-IsSound :
      (now : ℕ) (s : CircuitState) (r : CircuitRecord)
      → r.state ≡ s
      → Sound b.failure_threshold b.half_open_max_attempts s r
      → IsSound b (fail_record b now s r)
  unfolding fail_record
  fail_record-IsSound now closed r e h =
      elim (Bool-cases (leb b.failure_threshold (r.failures + 1))) [
        | inl trips ↦ rw trips (ground arith)
        | inr stays ↦ rw stays (ground arith)
      ]
  fail_record-IsSound now opened r e h =
      elim (Bool-cases (leb b.failure_threshold (r.failures + 1))) [
        | inl trips ↦ rw trips (ground arith)
        | inr stays ↦ rw stays (ground arith)
      ]
  fail_record-IsSound now half_open r e h = omega arith

  pub check_circuit-IsValid : (now : ℕ) (e : String) → IsValid b → IsValid (check_circuit b now e).0
  unfolding check_circuit
  check_circuit-IsValid now e v =
      let r = get_or_create b (get_key e) in
      store-IsValid b (get_key e) _ v (
        check_record-IsSound now (get_key e) r.state r refl (get_or_create-IsSound b (get_key e) v))

  pub record_success-IsValid : (e : String) → IsValid b → IsValid (record_success b e)
  unfolding record_success
  record_success-IsValid e v = elim (Option-cases (JsMap.get (get_key e) b.circuits)) [
    | inl missing ↦ rw (missing, record_success) v
    | inr (r, found) ↦
        rw (found, record_success)
          (store-IsValid b (get_key e) (close_record r.state r) v (
            close_record-IsSound r.state r v.positive refl
              (rw found at (Every-get (IsSound b) (get_key e) b.circuits v.sound))))
  ]

  pub record_failure-IsValid :
      (now : ℕ) (e : String) (status : ℕ) → IsValid b → IsValid (record_failure b now e status)
  unfolding record_failure
  record_failure-IsValid now e status v = elim (Bool-cases (is_counted status)) [
    | inl counted ↦ rw counted (
        let r = get_or_create b (get_key e) in
        store-IsValid b (get_key e) _ v
          (fail_record-IsSound now r.state r refl (get_or_create-IsSound b (get_key e) v)))
    | inr ignored ↦ rw ignored v
  ]

  pub cleanup-IsValid : (now : ℕ) → IsValid b → IsValid (cleanup b now).0
  unfolding cleanup
  cleanup-IsValid now v = record {
    positive = v.positive;
    distinct = JsMap.Distinct-keep _ b.circuits v.distinct;
    sound = Every-keep (IsSound b) _ b.circuits v.sound;
  }

  cleared-IsValid : IsValid b → IsValid (record b { circuits = [] })
  cleared-IsValid v = record { positive = v.positive; distinct = tt; sound = tt }

  pub reset-IsValid : (e : Option String) → IsValid b → IsValid (reset b e)
  unfolding reset
  reset-IsValid none v = cleared-IsValid v
  reset-IsValid (some e) v = elim (Bool-cases (str_eq e "")) [
    | inl blank ↦ rw blank (cleared-IsValid v)
    | inr named ↦ rw named (record {
      positive = v.positive;
      distinct = JsMap.Distinct-delete (get_key e) b.circuits v.distinct;
      sound = Every-delete (IsSound b) (get_key e) b.circuits v.sound;
    })
  ]

apply-IsValid : (b : CircuitBreaker) (ev : Event) → IsValid b → IsValid (apply b ev)
unfolding apply
apply-IsValid b (checked now e) v = check_circuit-IsValid b now e v
apply-IsValid b (succeeded e) v = record_success-IsValid b e v
apply-IsValid b (failed now e status) v = record_failure-IsValid b now e status v
apply-IsValid b (cleaned now) v = cleanup-IsValid b now v
apply-IsValid b (cleared e) v = reset-IsValid b e v

-- Whatever the order of checks, results, clean-ups and resets, a valid breaker stays valid: every
-- circuit is closed exactly while its failures are below the threshold, and every half-open one
-- has let through at least one probe and at most the larger of 1 and the configured number.
pub breaker_run-IsValid : (b : CircuitBreaker) (evs : List Event) → IsValid b → IsValid (run b evs)
unfolding run
breaker_run-IsValid b [] v = v
breaker_run-IsValid b (ev ∷ evs) v = breaker_run-IsValid (apply b ev) evs (apply-IsValid b ev v)

-- A new breaker with a positive threshold is valid.
pub create-IsValid :
    (config : CircuitBreakerConfig)
    → 0 < or_default config.failure_threshold 5
    → IsValid (create config)
unfolding create
create-IsValid config h = record { positive = h; distinct = tt; sound = tt }
