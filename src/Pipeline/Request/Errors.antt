-- ===== src/Pipeline/Request/Errors.antt =====
-- What a failed request is reported with.
use esi_ts.Prelude.{
  ℕ, zero, suc, ◌+◌, String, ◌≡◌, refl, true, inl, inr, Option, none, some, [], Bool-cases,
}
use esi_ts.Errors.{Failure, is_esi_error, Result, ok, err}
use esi_ts.Pipeline.{Given, Client, Call, HandlerResponse}
use esi_ts.Pipeline.Status.{wrap_error}
use esi_ts.Pipeline.Middleware.{
  MiddlewareManager, has_interceptors, run_all, apply_response_interceptors,
}
use esi_ts.Pipeline.Request.{
  Trip, Stage, done, again, Answer, intercept, attempt, rethrown, settle_stage, execute_request,
}

wrap_error-esi : (e : Failure) → is_esi_error (wrap_error e) ≡ true
unfolding wrap_error
wrap_error-esi e = elim (Bool-cases (is_esi_error e)) [ inl h ↦ rw h h | inr h ↦ rw h refl ]

-- An answer, if there is one, is no error but an `EsiError`.
pub AllTyped : {D : Type 0} → Option (Answer D) → Type 0
AllTyped none = Unit
AllTyped (some (c, err e)) = is_esi_error e ≡ true
AllTyped (some (c, ok r)) = Unit

module _ {D : Type 0} where
  IsOk : Result (HandlerResponse D) → Type 0
  IsOk (err e) = ⊥
  IsOk (ok r) = Unit

  intercept-IsOk :
      (m : MiddlewareManager D) (url : String) (call : Call) (ms : ℕ) (r : HandlerResponse D)
      → m.response_interceptors ≡ []
      → IsOk (intercept m url call ms r)
  unfolding intercept apply_response_interceptors run_all IsOk
  intercept-IsOk m url call ms r h = elim (Bool-cases (has_interceptors m)) [
    | inl e ↦ rw (e, h) tt
    | inr e ↦ rw e tt
  ]

  IsOk-AllTyped : (c : Client D) (r : Result (HandlerResponse D)) → IsOk r → AllTyped (some (c, r))
  unfolding IsOk AllTyped
  IsOk-AllTyped c (err e) h = elim h [ ]
  IsOk-AllTyped c (ok r) h = tt

module _ {D : Type 0} (g : Given) (trips : ℕ → Trip D) (call : Call) where
  rethrown-AllTyped : (o : Option (Answer D)) → AllTyped (rethrown g trips call o)
  unfolding AllTyped
  rethrown-AllTyped none = tt
  rethrown-AllTyped (some (c, err e)) = wrap_error-esi e
  rethrown-AllTyped (some (c, ok r)) = tt

  settle_stage-AllTyped :
      (repeat : Client D → Option (Answer D)) (n : ℕ) (a : Client D × Result (Stage D))
      → (trips n).flight.middleware.response_interceptors ≡ []
      → AllTyped (settle_stage g trips call repeat n a)
  unfolding settle_stage AllTyped
  settle_stage-AllTyped repeat n (c, err e) h = wrap_error-esi e
  settle_stage-AllTyped repeat n (c, ok (done r)) h =
      IsOk-AllTyped c _ (intercept-IsOk (trips n).flight.middleware _ call _ r h)
  settle_stage-AllTyped repeat n (c, ok again) h = rethrown-AllTyped (repeat c)

  -- Without response interceptors, whatever a request fails with is an `EsiError`.
  pub request_errors_typed :
      (fuel n : ℕ) (c : Client D)
      → (trips n).flight.middleware.response_interceptors ≡ []
      → AllTyped (execute_request g trips call fuel n c)
  unfolding execute_request AllTyped
  request_errors_typed zero n c h = tt
  request_errors_typed (suc fuel) n c h =
      settle_stage-AllTyped (λ c'. execute_request g trips call fuel (n + 1) c') n
        (attempt g (trips n) call c) h
