-- ===== src/CircuitBreaker/Settled.antt =====
-- A recorded result settles a circuit: afterwards it is not half-open.
use esi_ts.Prelude.{ℕ, String, ◌≡◌, refl, ◌≢◌, true, inl, inr, arith, Option-cases}
use esi_ts.Prelude.JsMap
use esi_ts.Prelude.JsMap.{get-set_self}
use esi_ts.CircuitBreaker.{
  CircuitState, closed, opened, half_open, CircuitRecord, CircuitBreaker, get_key, get_or_create,
  store, close_record, record_success, is_counted, fail_record, record_failure,
}

-- The circuit of an endpoint waits for no probe.
abbrev pub IsSettled : CircuitBreaker → String → Type 0
IsSettled b endpoint = (get_or_create b (get_key endpoint)).state ≢ half_open

close_record-settled :
    (s : CircuitState) (r : CircuitRecord) → r.state ≡ s → (close_record s r).state ≢ half_open
unfolding close_record
close_record-settled opened r e = λ h. cc
close_record-settled closed r e = λ h. cc
close_record-settled half_open r e = λ h. cc

fail_record-settled :
    (b : CircuitBreaker) (now : ℕ) (s : CircuitState) (r : CircuitRecord)
    → (fail_record b now s r).state ≢ half_open
unfolding fail_record
fail_record-settled b now half_open r = λ h. cc
fail_record-settled b now opened r = λ h. ground arith
fail_record-settled b now closed r = λ h. ground arith

stored-IsSettled :
    (b : CircuitBreaker) (endpoint : String) (r : CircuitRecord)
    → r.state ≢ half_open
    → IsSettled (store b (get_key endpoint) r) endpoint
unfolding get_or_create
stored-IsSettled b endpoint r h = rw (get-set_self (get_key endpoint) r b.circuits) h

pub record_success-IsSettled : (b : CircuitBreaker) (e : String) → IsSettled (record_success b e) e
unfolding record_success get_or_create
record_success-IsSettled b e = elim (Option-cases (JsMap.get (get_key e) b.circuits)) [
  | inl missing ↦ rw (missing, record_success, get_or_create) (λ h. cc)
  | inr (r, there) ↦
      rw (there, record_success)
        (stored-IsSettled b e (close_record r.state r) (close_record-settled r.state r refl))
]

pub record_failure-IsSettled :
    (b : CircuitBreaker) (now : ℕ) (e : String) (status : ℕ)
    → is_counted status ≡ true
    → IsSettled (record_failure b now e status) e
unfolding record_failure
record_failure-IsSettled b now e status h = rw h (
    let r = get_or_create b (get_key e) in
    stored-IsSettled b e (fail_record b now r.state r) (fail_record-settled b now r.state r))
