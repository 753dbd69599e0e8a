-- ===== src/CircuitBreaker/Trip.antt =====
-- When failures open a circuit, and what an open circuit answers.
use esi_ts.Prelude.{
  ℕ, ◌+◌, ◌-◌, String, ◌≡◌, refl, ◌∙◌, true, not, ◌&&◌, Option, none, some, List, [], ◌∷◌, arith,
  leb, if◌then◌else◌, length, All,
}
use esi_ts.Prelude.JsMap.{get-set_self}
use esi_ts.CircuitBreaker.{
  CircuitState, closed, opened, half_open, CircuitRecord, CircuitBreaker, CircuitOpenError, get_key,
  check_circuit, check_record, record_failure, fail_record, is_counted, get_or_create, store,
}
use esi_ts.CircuitBreaker.Events.{fail_all}
use esi_ts.CircuitBreaker.Invariant.{Sound, IsValid, get_or_create-IsSound, record_failure-IsValid}

-- Every failure of the list has a status that counts.
abbrev pub AllCounted : List (ℕ × ℕ) → Type 0
AllCounted fs = All (λ f. is_counted f.1 ≡ true) fs

module _ (b : CircuitBreaker) (e : String) where
  abbrev current : CircuitRecord
  current = get_or_create b (get_key e)

  get_or_create-store : (r : CircuitRecord) → get_or_create (store b (get_key e) r) (get_key e) ≡ r
  unfolding get_or_create
  get_or_create-store r = rw (get-set_self (get_key e) r b.circuits)

  counted_failure :
      (now status : ℕ)
      → is_counted status ≡ true
      → record_failure b now e status
        ≡ store b (get_key e) (fail_record b now current.state current)
  unfolding record_failure
  counted_failure now status h = rw h

  failures-fail_record :
      (now : ℕ) (s : CircuitState) (r : CircuitRecord)
      → (fail_record b now s r).failures ≡ r.failures + 1
  unfolding fail_record
  failures-fail_record now closed r = refl
  failures-fail_record now _ r = refl

-- What stays of the configuration, and how the count grows, over a list of counted failures.
record Grown (b c : CircuitBreaker) (e : String) (n : ℕ) : Type 0 where
  threshold : c.failure_threshold ≡ b.failure_threshold
  timeout : c.reset_timeout_ms ≡ b.reset_timeout_ms
  failures : (get_or_create c (get_key e)).failures ≡ (get_or_create b (get_key e)).failures + n

counted-Grown :
    (b : CircuitBreaker) (e : String) (now status : ℕ)
    → is_counted status ≡ true
    → Grown b (record_failure b now e status) e 1
counted-Grown b e now status h =
    let r = get_or_create b (get_key e) in
    rw (counted_failure b e now status h) (record {
      threshold = refl;
      timeout = refl;
      failures =
          rw (get_or_create-store b e (fail_record b now r.state r))
            (failures-fail_record b e now r.state r);
    })

Grown-trans :
    {b c d : CircuitBreaker} (e : String) (m n : ℕ)
    → Grown b c e m
    → Grown c d e n
    → Grown b d e (m + n)
Grown-trans e m n g h = record {
  threshold = h.threshold ∙ g.threshold;
  timeout = h.timeout ∙ g.timeout;
  failures = omega (arith, g.failures, h.failures);
}

fail_all-Grown :
    (b : CircuitBreaker) (e : String) (fs : List (ℕ × ℕ))
    → AllCounted fs
    → Grown b (fail_all b e fs) e (length fs)
unfolding fail_all
fail_all-Grown b e [] h = record { threshold = refl; timeout = refl; failures = omega arith }
fail_all-Grown b e ((now, status) ∷ fs) (c, h) =
    let g =
      Grown-trans e 1 (length fs) (counted-Grown b e now status c)
        (fail_all-Grown (record_failure b now e status) e fs h) in
    record { threshold = g.threshold; timeout = g.timeout; failures = omega (arith, g.failures) }

fail_all-IsValid :
    (b : CircuitBreaker) (e : String) (fs : List (ℕ × ℕ)) → IsValid b → IsValid (fail_all b e fs)
unfolding fail_all
fail_all-IsValid b e [] v = v
fail_all-IsValid b e ((now, status) ∷ fs) v =
    fail_all-IsValid (record_failure b now e status) e fs (record_failure-IsValid b now e status v)

-- The answer to a check at `t` when the last of `n` failures was at `now`.
abbrev pub verdict : String → ℕ → ℕ → ℕ → ℕ → ℕ → Option CircuitOpenError
verdict key threshold timeout n now t =
    if leb threshold n && not (leb (timeout + now) t)
    then some (record { key = key; failures = n; remaining_ms = timeout + now - t })
    else none

check_after_failure :
    (b : CircuitBreaker) (e : String) (now t : ℕ) (s : CircuitState) (r : CircuitRecord)
    → Sound b.failure_threshold b.half_open_max_attempts s r
    → r.state ≡ s
    → (let r' = fail_record b now s r in (check_record b t (get_key e) r'.state r').1)
      ≡ verdict (get_key e) b.failure_threshold b.reset_timeout_ms (r.failures + 1) now t
unfolding fail_record check_record
check_after_failure b e now t closed r h p = ground arith
check_after_failure b e now t opened r h p = ground arith
check_after_failure b e now t half_open r h p = ground arith

-- `failures` of an endpoint so far.
abbrev pub failures_of : CircuitBreaker → String → ℕ
failures_of b e = (get_or_create b (get_key e)).failures

trip_once :
    (b : CircuitBreaker) (e : String) (now status t : ℕ)
    → IsValid b
    → is_counted status ≡ true
    → (check_circuit (record_failure b now e status) t e).1
      ≡ verdict (get_key e) b.failure_threshold b.reset_timeout_ms (failures_of b e + 1) now t
unfolding check_circuit
trip_once b e now status t v h =
    let r = get_or_create b (get_key e) in
    rw (counted_failure b e now status h) (
      rw (get_or_create-store b e (fail_record b now r.state r))
        (check_after_failure b e now t r.state r (get_or_create-IsSound b (get_key e) v) refl))

-- From a valid breaker, after counted failures of an endpoint, the last of them at `now`, a check
-- at time `t` is rejected exactly if the failures reach the threshold and `t` is before the end of
-- the reset timeout; the error then carries the key, the number of failures, and the time that is
-- left until the circuit may be probed.
pub trips :
    (b : CircuitBreaker) (e : String) (fs : List (ℕ × ℕ)) (now status t : ℕ)
    → IsValid b
    → AllCounted fs
    → is_counted status ≡ true
    → (check_circuit (record_failure (fail_all b e fs) now e status) t e).1
      ≡ verdict
          (get_key e)
          b.failure_threshold
          b.reset_timeout_ms
          (failures_of b e + length fs + 1)
          now
          t
trips b e fs now status t v all h =
    let g = fail_all-Grown b e fs all in
    trip_once (fail_all b e fs) e now status t (fail_all-IsValid b e fs v) h ∙ λ i.
    verdict (get_key e) (g.threshold i) (g.timeout i) (g.failures i + 1) now t
