-- ===== src/Retry.antt =====
-- The retry strategy of src/core/RetryStrategy.ts and src/core/util/retry.ts. The operation is the
-- function from the number of a call to what that call returned or threw; refreshing the token is
-- what it would return if it were called, which happens at most once.
pub mod Bounds
pub mod Outcome
pub mod Mutations
use esi_ts.Prelude.{
  ℕ, zero, suc, ◌+◌, ◌-◌, ◌*◌, ◌/◌, ◌%◌, ◌^◌, ◌≤◌, ◌<◌, min, max, String, ◌≡◌, refl, sym, ap, ◌∙◌,
  ◌≢◌, ◌↔◌, ◌⊎◌, inl, inr, Bool, true, false, not, ◌&&◌, ◌||◌, Option, none, some, List, [], ◌∷◌,
  ◌++◌, map, arith, str_eq, eq_iff, ltb, leb, ◌==◌, if◌then◌else◌, ltb→lt, lt→ltb, leb→le, le→leb,
  ==_iff, leb-false, ltb-false, ltb_of_le, eq_of_ne, leb_of_lt, or_default, Bool-cases,
  Option-cases, length, take, drop, any, length-append, All, All-append, All-imp,
}
use esi_ts.Errors.{
  Failure, esi, timeout, circuit_open, network, fault, other, token_refresh_failed, is_esi_error,
  status_code, is_retryable, Result, ok, err,
}

pub record RetryConfig : Type 0 where
  pub max_retries : Option ℕ
  pub base_delay_ms : Option ℕ
  pub max_delay_ms : Option ℕ
  pub retry_mutations : Option Bool

pub record RetryStrategy : Type 0 where
  pub max_retries : ℕ
  pub base_delay_ms : ℕ
  pub max_delay_ms : ℕ
  pub retry_mutations : Bool

-- The constructor.
unfoldable pub create : RetryConfig → RetryStrategy
create config = record {
  max_retries = or_default config.max_retries 0;
  base_delay_ms = or_default config.base_delay_ms 1000;
  max_delay_ms = or_default config.max_delay_ms 30000;
  retry_mutations = or_default config.retry_mutations false;
}

-- `RetryContext`. `refresh_token` is none without a refresher; else the failure that refreshing
-- throws, if it throws.
pub record RetryContext : Type 0 where
  pub method : String
  pub requires_auth : Bool
  pub refresh_token : Option (Option Failure)

-- `Math.random()` is a multiple of 2^-53 below 1. A delay is given in units of 2^-55 ms, in which
-- it is a whole number.
abbrev pub random_scale : ℕ
random_scale = 2 ^ 53

abbrev pub delay_units : ℕ
delay_units = 4 * random_scale

unfoldable pub retry_delay : ℕ → ℕ → ℕ → ℕ → ℕ
retry_delay attempt base max_ms random =
    let exponential = if base == 0 then 0 else base * 2 ^ attempt in
    min (exponential * (3 * random_scale + 2 * random)) (max_ms * delay_units)

abbrev has_refresh : Option (Option Failure) → Bool
has_refresh none = false
has_refresh (some r) = true

-- What the `catch` of the loop does with an error.
pub data Decision : Type 0 where
  rethrow refresh retry : Decision

is_circuit_open : Failure → Bool
is_circuit_open (circuit_open e) = true
is_circuit_open _ = false

unfoldable pub can_refresh : RetryContext → Failure → Bool
can_refresh ctx e =
    is_esi_error e && status_code e == 401 && ctx.requires_auth && has_refresh ctx.refresh_token

unfoldable pub can_retry_method : RetryStrategy → RetryContext → Bool
can_retry_method s ctx = str_eq ctx.method "GET" || s.retry_mutations

unfoldable pub decide : RetryStrategy → RetryContext → ℕ → Bool → Failure → Decision
unfolding is_circuit_open can_refresh can_retry_method
decide s ctx attempt refreshed e =
    if is_circuit_open e
    then rethrow
    else if not refreshed && can_refresh ctx e
    then refresh
    else if is_esi_error e && is_retryable e && can_retry_method s ctx && ltb attempt s.max_retries
    then retry
    else rethrow

-- The variables of the loop: `attempt`, `refreshAttempted`, `lastError`, and what happened so far:
-- the calls of the operation, the refreshes, and the delays that were slept, newest first.
pub record LoopState : Type 0 where
  pub attempt : ℕ
  pub refreshed : Bool
  pub last_error : Option Failure
  pub calls : ℕ
  pub refreshes : ℕ
  pub delays : List ℕ

pub record Run (A : Type 0) : Type 0 where
  pub outcome : Result A
  pub calls : ℕ
  pub refreshes : ℕ
  pub delays : List ℕ

abbrev pub finish : {A : Type 0} → Result A → LoopState → Run A
finish r st = record { outcome = r; calls = st.calls; refreshes = st.refreshes; delays = st.delays }

-- `throw lastError`, which is `undefined` if no call failed.
abbrev last_failure : Option Failure → Failure
last_failure none = other "undefined"
last_failure (some e) = e

-- What a failed refresh is reported as.
unfoldable pub refresh_error : Failure → Failure
refresh_error e = if is_esi_error e then e else fault token_refresh_failed

abbrev pub after_refresh : LoopState → LoopState
after_refresh st = record st { refreshed = true; refreshes = st.refreshes + 1 }

module _ (s : RetryStrategy) (ctx : RetryContext) (random : ℕ → ℕ) where
  abbrev pub after_retry : Failure → LoopState → LoopState
  after_retry e st = record st {
    attempt = st.attempt + 1;
    last_error = some e;
    delays = retry_delay st.attempt s.base_delay_ms s.max_delay_ms (random st.attempt) ∷ st.delays;
  }

module _ {A : Type 0} (s : RetryStrategy) (ctx : RetryContext) (random : ℕ → ℕ)
    (op : ℕ → Result A) where
  -- The rest of the round after a failed call: throw, refresh the token and go on with `loop` at
  -- the same attempt, or sleep and go on with the next attempt.
  unfoldable pub on_failure :
      (LoopState → Option (Run A)) → Failure → LoopState → Decision → Option (Run A)
  on_failure loop e st rethrow = some (finish (err e) st)
  on_failure loop e st retry = loop (after_retry s ctx random e st)
  on_failure loop e st refresh = elim ctx.refresh_token [
    | none ↦ some (finish (err e) st)
    | some failed ↦ elim failed [
      | none ↦ loop (after_refresh st)
      | some f ↦ some (finish (err (refresh_error f)) (after_refresh st))
    ]
  ]

  abbrev pub called : LoopState → LoopState
  called st = record st { calls = st.calls + 1 }

  -- The `for` loop on fuel; `none` means that the fuel ran out.
  unfoldable pub loop : ℕ → LoopState → Option (Run A)
  unfolding on_failure
  loop zero st = none
  loop (suc fuel) st =
      if leb st.attempt s.max_retries
      then elim (op st.calls) [
        | ok a ↦ some (finish (ok a) (called st))
        | err e ↦
            on_failure (λ st'. loop fuel st') e (called st) (decide s ctx st.attempt st.refreshed e)
      ]
      else some (finish (err (last_failure st.last_error)) st)

  abbrev pub start : LoopState
  start = record {
    attempt = 0;
    refreshed = false;
    last_error = none;
    calls = 0;
    refreshes = 0;
    delays = [];
  }

  unfoldable pub execute : Option (Run A)
  unfolding loop
  execute = loop (s.max_retries + 2) start
