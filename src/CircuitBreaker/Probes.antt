-- ===== src/CircuitBreaker/Probes.antt =====
-- How many probes a half-open circuit lets through.
use esi_ts.Prelude.{
  ℕ, ◌+◌, ◌-◌, ◌≤◌, min, max, String, ◌≡◌, refl, inl, inr, Option, none, some, List, [], ◌∷◌, arith,
  leb, if◌then◌else◌, leb→le, le→leb, leb-false, Bool-cases, length,
}
use esi_ts.Prelude.JsMap
use esi_ts.Prelude.JsMap.{JsMap, get-set_self}
use esi_ts.CircuitBreaker.{
  opened, half_open, CircuitRecord, CircuitBreaker, CircuitOpenError, get_key, check_circuit,
  check_record, get_or_create, store,
}

is_none : Option CircuitOpenError → ℕ
is_none none = 1
is_none (some e) = 0

-- How many of the checks of one endpoint at these times are let through.
pub admitted : CircuitBreaker → String → List ℕ → ℕ
admitted b e [] = 0
admitted b e (now ∷ times) =
    is_none (check_circuit b now e).1 + admitted (check_circuit b now e).0 e times

abbrev AtRecord : CircuitBreaker → String → CircuitRecord → Type 0
AtRecord b e r = JsMap.get (get_key e) b.circuits ≡ some r

check_half_open :
    (b : CircuitBreaker) (e : String) (r : CircuitRecord) (now : ℕ)
    → AtRecord b e r
    → r.state ≡ half_open
    → check_circuit b now e ≡ (
        if leb b.half_open_max_attempts r.half_open_attempts
        then (
          store b (get_key e) r,
          some (record {
            key = get_key e;
            failures = r.failures;
            remaining_ms = b.reset_timeout_ms;
          }),
        )
        else (
          store b (get_key e) (record r { half_open_attempts = r.half_open_attempts + 1 }),
          none,
        ))
unfolding check_circuit
check_half_open b e r now at s = rw (at, get_or_create) (rw (s, check_record) (ground arith))

module _ (b : CircuitBreaker) (e : String) (r : CircuitRecord) where
  AtRecord-store : (r' : CircuitRecord) → AtRecord (store b (get_key e) r') e r'
  AtRecord-store r' = get-set_self (get_key e) r' b.circuits

  check_due :
      (now : ℕ)
      → AtRecord b e r
      → r.state ≡ opened
      → b.reset_timeout_ms + r.last_failure_time ≤ now
      → check_circuit b now e
        ≡ (store b (get_key e) (record r { state = half_open; half_open_attempts = 1 }), none)
  unfolding check_circuit
  check_due now at s due =
      rw (at, get_or_create)
        (rw (s, check_record) (rw (le→leb (b.reset_timeout_ms + r.last_failure_time) now due)))

half_open-admitted :
    (b : CircuitBreaker) (e : String) (r : CircuitRecord) (times : List ℕ)
    → AtRecord b e r
    → r.state ≡ half_open
    → admitted b e times ≡ min (length times) (b.half_open_max_attempts - r.half_open_attempts)
unfolding admitted is_none
half_open-admitted b e r [] at s = omega arith
half_open-admitted b e r (now ∷ times) at s =
    elim (Bool-cases (leb b.half_open_max_attempts r.half_open_attempts)) [
      | inl full ↦ rw (check_half_open b e r now at s) (
          rw full (
            omega (
              arith,
              leb→le _ _ full,
              half_open-admitted (store b (get_key e) r) e r times (AtRecord-store b e r r) s,
            )))
      | inr room ↦
          let r' : CircuitRecord = record r { half_open_attempts = r.half_open_attempts + 1 } in
          let ih : admitted (store b (get_key e) r') e times
              ≡ min (length times) (b.half_open_max_attempts - (r.half_open_attempts + 1)) =
            half_open-admitted (store b (get_key e) r') e r' times (AtRecord-store b e r r') s in
          rw (check_half_open b e r now at s) (rw room (omega (arith, ih, leb-false _ _ room)))
    ]

-- An open circuit whose reset timeout has passed lets through the first check and then as many as
-- the larger of 1 and the configured number allows, and no more however many follow, as long as no
-- probe has reported its result.
pub opened-admitted :
    (b : CircuitBreaker) (e : String) (r : CircuitRecord) (now : ℕ) (times : List ℕ)
    → JsMap.get (get_key e) b.circuits ≡ some r
    → r.state ≡ opened
    → b.reset_timeout_ms + r.last_failure_time ≤ now
    → admitted b e (now ∷ times) ≡ min (length (now ∷ times)) (max 1 b.half_open_max_attempts)
unfolding admitted is_none
opened-admitted b e r now times at s due =
    let r' : CircuitRecord = record r { state = half_open; half_open_attempts = 1 } in
    let rest : admitted (store b (get_key e) r') e times
        ≡ min (length times) (b.half_open_max_attempts - 1) =
      half_open-admitted (store b (get_key e) r') e r' times (AtRecord-store b e r r') refl in
    rw (check_due b e r now at s due) (omega (arith, rest))
