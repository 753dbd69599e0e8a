-- ===== src/Errors.antt =====
-- What the program throws: the classes of src/core/util/error.ts, with the fields that the code
-- branches on, and any value that is no `EsiError`.
use mathlib.Core.Bool.{Bool, true, false, ◌||◌}
use esi_ts.Prelude.{ℕ, String, ◌==◌, ◌≡◌, refl, ◌⊎◌, inl, inr, List, [], ◌∷◌}
use esi_ts.CircuitBreaker.{CircuitOpenError}

pub data FaultCode : Type 0 where
  validation_error no_auth_token configuration_error json_parse_error : FaultCode
  pagination_incomplete token_refresh_failed esijs_error : FaultCode

-- `esi` is an `EsiError` of no subclass, with its status; `other` is anything else, with its text.
pub data Failure : Type 0 where
  esi : ℕ → Failure
  timeout : ℕ → Failure
  circuit_open : CircuitOpenError → Failure
  network : Failure
  fault : FaultCode → Failure
  other : String → Failure

-- `error instanceof EsiError`.
abbrev pub is_esi_error : Failure → Bool
is_esi_error (other text) = false
is_esi_error _ = true

-- `error.statusCode`, of an `EsiError`.
abbrev pub status_code : Failure → ℕ
status_code (esi status) = status
status_code _ = 0

abbrev pub retryable_status : ℕ → Bool
retryable_status s = s == 0 || s == 420 || s == 429 || s == 502 || s == 503 || s == 504

-- The getter `retryable` of the class of the error.
abbrev pub is_retryable : Failure → Bool
is_retryable (esi status) = retryable_status status
is_retryable (timeout ms) = true
is_retryable network = true
is_retryable _ = false

pub data Result (A : Type 0) : Type 0 where
  ok : A → Result A
  err : Failure → Result A

pub Result-cases :
    {A : Type 0} (r : Result A) → ((a : A) × (r ≡ ok a)) ⊎ ((e : Failure) × (r ≡ err e))
Result-cases (ok a) = inl (a, refl)
Result-cases (err e) = inr (e, refl)

-- A fetched list of items: it failed, is empty, or has a first item.
pub page_cases :
    {A : Type 0} (r : Result (List A))
    → ((e : Failure) × (r ≡ err e)) ⊎ ((r ≡ ok []) ⊎ ((x : A) × (xs : List A) × (r ≡ ok (x ∷ xs))))
page_cases (err e) = inl (e, refl)
page_cases (ok []) = inr (inl refl)
page_cases (ok (x ∷ xs)) = inr (inr (x, xs, refl))
