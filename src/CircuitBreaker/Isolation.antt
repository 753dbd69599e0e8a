-- ===== src/CircuitBreaker/Isolation.antt =====
-- The circuits of different endpoints do not touch one another.
use esi_ts.Prelude.{
  ℕ, ◌+◌, String, ◌≡◌, refl, sym, ap, ◌∙◌, ◌≢◌, inl, inr, List, [], ◌∷◌, arith, eq_iff, leb,
  if◌then◌else◌, Bool-cases, Option-cases, All,
}
use esi_ts.Prelude.JsMap
use esi_ts.CircuitBreaker.{
  CircuitState, opened, half_open, CircuitRecord, CircuitBreaker, get_key, check_circuit,
  record_success, record_failure, is_counted, get_state, store, state_of, close_record,
}
use esi_ts.CircuitBreaker.Events.{Event, checked, succeeded, failed, cleaned, cleared, apply, run}

-- The event is a call for an endpoint whose key is `key`.
abbrev pub Concerns : String → Event → Type 0
Concerns key (checked now e) = get_key e ≡ key
Concerns key (succeeded e) = get_key e ≡ key
Concerns key (failed now e status) = get_key e ≡ key
Concerns key (cleaned now) = ⊥
Concerns key (cleared o) = ⊥

-- The circuits of two breakers agree at a key, and so do their timeouts.
record Agrees (b c : CircuitBreaker) (key : String) : Type 0 where
  timeout : c.reset_timeout_ms ≡ b.reset_timeout_ms
  lookup : JsMap.get key c.circuits ≡ JsMap.get key b.circuits

store-Agrees :
    (b : CircuitBreaker) (j key : String) (r : CircuitRecord) → j ≢ key → Agrees b (store b j r) key
store-Agrees b j key r ne = record {
  timeout = refl;
  lookup = ground (arith, JsMap.get-set j key r b.circuits, eq_iff j key);
}

Agrees-refl : (b : CircuitBreaker) (key : String) → Agrees b b key
Agrees-refl b key = record { timeout = refl; lookup = refl }

apply-Agrees :
    (b : CircuitBreaker) (ev : Event) (j key : String)
    → Concerns j ev
    → j ≢ key
    → Agrees b (apply b ev) key
unfolding apply check_circuit record_success record_failure
apply-Agrees b (checked now e) j key c ne = store-Agrees b (get_key e) key _ (λ p. ne (sym c ∙ p))
apply-Agrees b (succeeded e) j key c ne = elim (Option-cases (JsMap.get (get_key e) b.circuits)) [
  | inl missing ↦ rw (missing, record_success) (Agrees-refl b key)
  | inr (r, there) ↦
      rw (there, record_success)
        (store-Agrees b (get_key e) key (close_record r.state r) (λ p. ne (sym c ∙ p)))
]
apply-Agrees b (failed now e status) j key c ne = elim (Bool-cases (is_counted status)) [
  | inl counted ↦ rw counted (store-Agrees b (get_key e) key _ (λ p. ne (sym c ∙ p)))
  | inr ignored ↦ rw ignored (Agrees-refl b key)
]
apply-Agrees b (cleaned now) j key c ne = absurd c
apply-Agrees b (cleared o) j key c ne = absurd c

run-Agrees :
    (b : CircuitBreaker) (evs : List Event) (j key : String)
    → All (Concerns j) evs
    → j ≢ key
    → Agrees b (run b evs) key
unfolding run
run-Agrees b [] j key c ne = Agrees-refl b key
run-Agrees b (ev ∷ evs) j key (c, cs) ne =
    let first = apply-Agrees b ev j key c ne in
    let rest = run-Agrees (apply b ev) evs j key cs ne in
    record { timeout = rest.timeout ∙ first.timeout; lookup = rest.lookup ∙ first.lookup }

state_of-Agrees :
    (b c : CircuitBreaker) (t : ℕ) (s : CircuitState) (r : CircuitRecord)
    → c.reset_timeout_ms ≡ b.reset_timeout_ms
    → state_of c t s r ≡ state_of b t s r
unfolding state_of
state_of-Agrees b c t opened r e =
    ap (λ n. if leb (n + r.last_failure_time) t then half_open else opened) e
state_of-Agrees b c t _ r e = refl

get_state-Agrees :
    (b c : CircuitBreaker) (t : ℕ) (e : String)
    → Agrees b c (get_key e)
    → get_state c t e ≡ get_state b t e
unfolding get_state
get_state-Agrees b c t e a = elim (Option-cases (JsMap.get (get_key e) b.circuits)) [
  | inl missing ↦ rw (a.lookup ∙ missing, missing, get_state)
  | inr (r, there) ↦
      rw (a.lookup ∙ there, there, get_state) (state_of-Agrees b c t r.state r a.timeout)
]

-- Checks, successes and failures of endpoints with one key do not change the state of an endpoint
-- with another key.
pub isolation :
    (b : CircuitBreaker) (evs : List Event) (e : String) (t : ℕ) (key : String)
    → All (Concerns key) evs
    → key ≢ get_key e
    → get_state (run b evs) t e ≡ get_state b t e
isolation b evs e t key c ne =
    get_state-Agrees b (run b evs) t e (run-Agrees b evs key (get_key e) c ne)
