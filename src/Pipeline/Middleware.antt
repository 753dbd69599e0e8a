-- ===== src/Pipeline/Middleware.antt =====
-- The interceptors of src/core/middleware/Middleware.ts and their use in
-- src/core/requestPipeline/middlewareBridge.ts. An interceptor is a function of the caller that may
-- throw; the registration is an index, by which the returned function removes it again.
use esi_ts.Prelude.{
  ℕ, String, Bool, not, ◌||◌, List, [], ◌∷◌, ◌++◌, str_eq, ltb, ◌==◌, if◌then◌else◌, length, any,
}
use esi_ts.Prelude.JsMap
use esi_ts.Prelude.JsMap.{JsMap}
use esi_ts.Errors.{Result, ok, err}
use esi_ts.Pipeline.{Body}

pub record RequestContext : Type 0 where
  pub url : String
  pub endpoint : String
  pub method : String
  pub headers : JsMap String
  pub has_body : Bool

pub record ResponseContext (D : Type 0) : Type 0 where
  pub url : String
  pub endpoint : String
  pub method : String
  pub status : ℕ
  pub headers : JsMap String
  pub body : Body D
  pub duration_ms : ℕ
  pub from_cache : Bool

pub record MiddlewareManager (D : Type 0) : Type 0 where
  pub request_interceptors : List (RequestContext → Result RequestContext)
  pub response_interceptors : List (ResponseContext D → Result (ResponseContext D))
  pub withheld : List String

unfoldable pub run_all : {C : Type 0} → List (C → Result C) → C → Result C
run_all [] ctx = ok ctx
run_all (f ∷ fs) ctx = elim (f ctx) [ err e ↦ err e | ok next ↦ run_all fs next ]

-- `lower` is `toLowerCase`.
module _ {D : Type 0} (lower : String → String) where
  unfoldable pub withhold_request_headers : MiddlewareManager D → List String → MiddlewareManager D
  withhold_request_headers m [] = m
  withhold_request_headers m (name ∷ names) =
      withhold_request_headers (record m { withheld = m.withheld ++ lower name ∷ [] }) names

  is_withheld : MiddlewareManager D → String → Bool
  is_withheld m name = any (λ w. str_eq w (lower name)) m.withheld

  abbrev without_withheld : MiddlewareManager D → RequestContext → RequestContext
  without_withheld m ctx = record ctx {
    headers = JsMap.keep (λ name value. not (is_withheld m name)) ctx.headers;
  }

  unfoldable pub apply_request_interceptors :
      MiddlewareManager D → RequestContext → Result RequestContext
  unfolding is_withheld
  apply_request_interceptors m ctx = elim (run_all m.request_interceptors ctx) [
    | err e ↦ err e
    | ok last ↦ ok (if length m.withheld == 0 then last else without_withheld m last)
  ]

module _ {D : Type 0} where
  unfoldable pub has_interceptors : MiddlewareManager D → Bool
  has_interceptors m =
      ltb 0 (length m.request_interceptors) || ltb 0 (length m.response_interceptors)

  unfoldable pub clear : MiddlewareManager D → MiddlewareManager D
  clear m = record m { request_interceptors = []; response_interceptors = [] }

  unfoldable pub add_request_interceptor :
      MiddlewareManager D → (RequestContext → Result RequestContext) → MiddlewareManager D
  add_request_interceptor m f = record m { request_interceptors = m.request_interceptors ++ f ∷ [] }

  unfoldable pub add_response_interceptor :
      MiddlewareManager D → (ResponseContext D → Result (ResponseContext D)) → MiddlewareManager D
  add_response_interceptor m f = record m {
    response_interceptors = m.response_interceptors ++ f ∷ [];
  }

  unfoldable pub apply_response_interceptors :
      MiddlewareManager D → ResponseContext D → Result (ResponseContext D)
  apply_response_interceptors m ctx = run_all m.response_interceptors ctx
