-- ===== src/Pipeline/Fetch/Steady.antt =====
-- What a fetch sends, and under which key its response is looked up, when no interceptor is
-- registered and the token and the link of the client stay as they are meanwhile.
use esi_ts.Prelude.{
  ℕ, String, ◌≡◌, refl, sym, ap, ◌∙◌, Bool, true, false, ◌&&◌, ◌||◌, Option, none, some, inl, inr,
  str_eq, if◌then◌else◌, Bool-cases, ◌==◌,
}
use esi_ts.Prelude.JsMap
use esi_ts.Prelude.JsMap.{JsMap, map_laws}
use esi_ts.Cache.Etag.{EtagCacheManager}
use esi_ts.Pipeline.Status.{is_ok}
use esi_ts.CacheKey.{
  ◌<>◌, KeyClient, truthy, header_of, has_hash, mark_token_accepted, build_cache_key,
  build_conditional_cache_key, trusted_identity, is_accepted, scope,
}
use esi_ts.Errors.{Failure, Result, ok, err}
use esi_ts.CircuitBreaker.{CircuitBreaker, CircuitOpenError}
use esi_ts.RateLimiter.{RateLimiter}
use esi_ts.RateLimiter.Check.{CheckOutcome, allowed, refused}
use esi_ts.Pipeline.{Body, Given, Client, Call, Response}
use esi_ts.Pipeline.CachePolicy.{is_get, url_of, cache_key, touched}
use esi_ts.Pipeline.RequestHeaders.{
  authorized, client_headers, with_header, conditional, with_condition, build_request_headers,
}
use esi_ts.Pipeline.Middleware.{RequestContext, has_interceptors}
use esi_ts.Pipeline.Fetch.{
  Reply, answered, rejected, Flight, RawFetchResult, record_status, is_redirect, counts_against,
  raw_result, keys_accepting, accept_token, report_response, on_answer, after_fetch, after_check,
  limited, after_breaker, guarded, after_middleware, after_headers, apply_request_middleware,
  execute_single_fetch,
}

-- The same link and the same token.
pub record Same (k l : KeyClient) : Type 0 where
  pub link : k.link ≡ l.link
  pub authorization : k.authorization ≡ l.authorization

Same-trans : {k l m : KeyClient} → Same k l → Same l m → Same k m
Same-trans s t = record {
  link = s.link ∙ t.link;
  authorization = s.authorization ∙ t.authorization;
}

Same-refl : (k : KeyClient) → Same k k
Same-refl k = record { link = refl; authorization = refl }

-- No interceptors, and what other requests change keeps the link and the token.
pub record Steady {D : Type 0} (f : Flight D) : Type 0 where
  pub plain : has_interceptors f.middleware ≡ false
  pub middleware : (c : Client D) → Same (f.at_middleware c).keys c.keys
  pub check : (c : Client D) → Same (f.at_check c).keys c.keys
  pub fetch : (c : Client D) → Same (f.at_fetch c).keys c.keys

module _ (g : Given) where
  marked-Same :
      (keys : KeyClient) (header : String)
      → Same (mark_token_accepted g.caller_identity g.hashed_identity keys header) keys
  unfolding mark_token_accepted
  marked-Same keys header = elim (Bool-cases (has_hash keys.accepted (g.hashed_identity header))) [
    | inl e ↦ rw e (Same-refl keys)
    | inr e ↦ rw e (record { link = refl; authorization = refl })
  ]

  accepting-Same : (keys : KeyClient) (o : Option String) → Same (keys_accepting g keys o) keys
  accepting-Same keys none = Same-refl keys
  accepting-Same keys (some header) = marked-Same keys header

module _ {D : Type 0} where
  if-Same :
      (b : Bool) (x y : Client D) (k : KeyClient)
      → Same x.keys k
      → Same y.keys k
      → Same (if b then x else y).keys k
  if-Same true x y k h e = h
  if-Same false x y k h e = e

  touched-Same :
      (c : Client D) (now : ℕ) (key : String) (o : Option (EtagCacheManager (Body D)))
      → Same (touched c now key o).keys c.keys
  touched-Same c now key none = Same-refl c.keys
  touched-Same c now key (some cache) = Same-refl c.keys

  status-Same :
      (c : Client D) (now : ℕ) (key : String) (status : ℕ)
      → Same (record_status c now key status).keys c.keys
  unfolding record_status
  status-Same c now key status =
      if-Same (counts_against status) _ _ c.keys (Same-refl c.keys) (Same-refl c.keys)

-- The token that a request carries, where it needs one.
abbrev carried : Call → Option String → Option String
carried call header = if call.requires_auth then header else none

-- A text that is read as absent where it is empty is not empty.
truthy-twice : (o : Option String) (h : String) → truthy o ≡ some h → truthy (some h) ≡ some h
truthy-twice none h e = cc
truthy-twice (some s) h e = by_test (str_eq s "") refl e
  where
    by_test :
        (b : Bool)
        → str_eq s "" ≡ b
        → (if b then none else some s) ≡ some h
        → truthy (some h) ≡ some h
    by_test true q e = cc
    by_test false q e = ap truthy (sym e) ∙ ap (λ (b : Bool). if b then none else some s) q ∙ e

header-own :
    (c : KeyClient) (h : Option String)
    → h ≡ truthy c.authorization
    → header_of c h ≡ header_of c none
unfolding header_of
header-own c none e = refl
header-own c (some x) e = truthy-twice c.authorization x (sym e) ∙ e

identity-own :
    (g : Given) (c : KeyClient) (b : Bool) (h : Option String)
    → (if b then h else none) ≡ (if b then truthy c.authorization else none)
    → trusted_identity g.caller_identity g.hashed_identity c b h
      ≡ trusted_identity g.caller_identity g.hashed_identity c b none
unfolding trusted_identity
identity-own g c false h e = refl
identity-own g c true h e =
    ap
      (λ o. elim o [
        | none ↦ none
        | some x ↦ some (
            if is_accepted g.caller_identity g.hashed_identity c x
            then g.caller_identity x
            else g.hashed_identity x)
      ])
      (header-own c h e)

-- What a fetch promises of its response: it is looked up under the key of the client's own token.
unfoldable pub OwnKey : {D : Type 0} → Given → Call → Client D × Result (RawFetchResult D) → Type 0
OwnKey g call (c, err e) = Unit
OwnKey g call (c, ok raw) =
    cache_key g c raw.url call.requires_auth raw.authorization
    ≡ cache_key g c (url_of c call.endpoint) call.requires_auth none

module _ {D : Type 0} (g : Given) (f : Flight D) (call : Call) where
  accepted-Same :
      (c : Client D) (req : RequestContext) (r : Response D)
      → Same (accept_token g c call req r).keys c.keys
  unfolding accept_token
  accepted-Same c req r =
      if-Same (call.requires_auth && (is_ok r || r.status == 304)) _ c c.keys
        (accepting-Same g c.keys (truthy (JsMap.get "Authorization" req.headers)))
        (Same-refl c.keys)

  reported-Same :
      (c : Client D) (now : ℕ) (req : RequestContext) (r : Response D)
      → Same (report_response g (accept_token g c call req r) now call req r).keys c.keys
  unfolding report_response
  reported-Same c now req r = accepted-Same c req r

  -- A request of the client: to its link, and with its token.
  record Sent (k : KeyClient) (req : RequestContext) : Type 0 where
    url : req.url ≡ k.link <> "/" <> call.endpoint
    token :
        carried call (JsMap.get "Authorization" req.headers) ≡ carried call (truthy k.authorization)

  key-own :
      (c : Client D) (k : KeyClient) (req : RequestContext)
      → Same c.keys k
      → Sent k req
      → cache_key g c req.url call.requires_auth (JsMap.get "Authorization" req.headers)
        ≡ cache_key g c (url_of c call.endpoint) call.requires_auth none
  unfolding build_cache_key
  key-own c k req s t =
      let h = JsMap.get "Authorization" req.headers in
      let own : carried call h ≡ carried call (truthy c.keys.authorization) =
        t.token ∙ ap (λ a. carried call (truthy a)) (sym s.authorization) in
      let url : req.url ≡ url_of c call.endpoint =
        t.url ∙ ap (λ l. l <> "/" <> call.endpoint) (sym s.link) in
      (λ i. scope c.keys (url i) (identity-own g c.keys call.requires_auth h own i))

  if-OwnKey :
      (b : Bool) (c : Client D) (e : Failure) (raw : RawFetchResult D)
      → OwnKey g call (c, ok raw)
      → OwnKey g call (c, if b then err e else ok raw)
  unfolding OwnKey
  if-OwnKey true c e raw h = tt
  if-OwnKey false c e raw h = h

  own-OwnKey :
      (c : Client D) (k : KeyClient) (req : RequestContext) (r : Response D)
      → Same c.keys k
      → Sent k req
      → OwnKey g call (c, ok (raw_result req r))
  unfolding OwnKey
  own-OwnKey c k req r s t = key-own c k req s t

  answer-OwnKey :
      (c : Client D) (now : ℕ) (key : String) (k : KeyClient) (req : RequestContext)
      (r : Response D)
      → Same c.keys k
      → Sent k req
      → OwnKey g call (on_answer g c now key call req r)
  unfolding on_answer
  answer-OwnKey c now key k req r s t =
      let reported : Client D = report_response g (accept_token g c call req r) now call req r in
      if-OwnKey (is_redirect r) (record_status reported now key r.status) _ _ (
        own-OwnKey _ k req r
          (Same-trans (status-Same reported now key r.status)
            (Same-trans (reported-Same c now req r) s))
          t)

  fetch-OwnKey :
      (c : Client D) (key : String) (k : KeyClient) (req : RequestContext) (reply : Reply D)
      → Same c.keys k
      → Sent k req
      → OwnKey g call (after_fetch g f call c key req reply)
  unfolding after_fetch
  fetch-OwnKey c key k req (answered r) s t = answer-OwnKey c f.replied_at key k req r s t
  fetch-OwnKey c key k req (rejected is_abort e) s t = unfold OwnKey in tt

  check-OwnKey :
      Steady f
      → (c : Client D) (key : String) (k : KeyClient) (req : RequestContext) (o : CheckOutcome)
      → Same c.keys k
      → Sent k req
      → OwnKey g call (after_check g f call c key req o)
  unfolding after_check
  check-OwnKey v c key k req (allowed check) s t =
      fetch-OwnKey _ key k req f.reply (Same-trans (v.fetch _) (Same-trans (v.check c) s)) t
  check-OwnKey v c key k req (refused ms check) s t = unfold OwnKey in tt

  limited-OwnKey :
      Steady f
      → (c : Client D) (key : String) (k : KeyClient) (req : RequestContext)
        (o : Option RateLimiter)
      → Same c.keys k
      → Sent k req
      → OwnKey g call (limited g f call c key req o)
  unfolding limited
  limited-OwnKey v c key k req none s t = unfold OwnKey in tt
  limited-OwnKey v c key k req (some lim) s t = check-OwnKey v c key k req _ s t

  breaker-OwnKey :
      Steady f
      → (c : Client D) (key : String) (k : KeyClient) (req : RequestContext)
        (a : CircuitBreaker × Option CircuitOpenError)
      → Same c.keys k
      → Sent k req
      → OwnKey g call (after_breaker g f call c key req a)
  unfolding after_breaker
  breaker-OwnKey v c key k req (b, some e) s t = unfold OwnKey in tt
  breaker-OwnKey v c key k req (b, none) s t =
      limited-OwnKey v (record c { circuit_breaker = some b }) key k req c.rate_limiter s t

  guarded-OwnKey :
      Steady f
      → (c : Client D) (k : KeyClient) (req : RequestContext) (o : Option CircuitBreaker)
      → Same c.keys k
      → Sent k req
      → OwnKey g call (guarded g f call c req o)
  unfolding guarded
  guarded-OwnKey v c k req none s t = limited-OwnKey v c call.endpoint k req c.rate_limiter s t
  guarded-OwnKey v c k req (some b) s t = breaker-OwnKey v c _ k req _ s t

  -- Headers that carry the client's token.
  abbrev Carries : KeyClient → JsMap String → Type 0
  Carries k headers =
      carried call (JsMap.get "Authorization" headers) ≡ carried call (truthy k.authorization)

  headers-OwnKey :
      Steady f
      → (c : Client D) (k : KeyClient) (headers : JsMap String) → Same c.keys k
      → Carries k headers
      → OwnKey g call (after_headers g f call (c, ok headers))
  unfolding after_headers after_middleware apply_request_middleware
  headers-OwnKey v c k headers s t = rw v.plain (
      guarded-OwnKey v (f.at_middleware c) k _ (f.at_middleware c).circuit_breaker
        (Same-trans (v.middleware c) s)
        (record { url = ap (λ l. l <> "/" <> call.endpoint) s.link; token = t }))

  with_header-Carries :
      (name : String) (o : Option String) (k : KeyClient) (headers : JsMap String)
      → str_eq name "Authorization" ≡ false
      → Carries k headers
      → Carries k (with_header name o headers)
  with_header-Carries name none k headers d h = h
  with_header-Carries name (some v) k headers d h =
      ap (carried call) (
        JsMap.get-set name "Authorization" v headers
        ∙ ap (λ (b : Bool). if b then some v else JsMap.get "Authorization" headers) d)
      ∙ h

  abbrev own_key : Client D → String
  own_key c =
      build_conditional_cache_key g.caller_identity g.hashed_identity (url_of c call.endpoint)
        c.keys call.requires_auth

  conditional-OwnKey :
      Steady f
      → (c : Client D) (headers : JsMap String) → Carries c.keys headers
      → OwnKey g call (
          after_headers g f call
            (with_condition g c f.built_at (url_of c call.endpoint) call (ok headers)))
  unfolding with_condition conditional
  conditional-OwnKey v c headers h = elim (Bool-cases (call.use_etag && is_get call.method)) [
    | inl e ↦ rw e (
        headers-OwnKey v (touched c f.built_at (own_key c) c.cache) c.keys _
          (touched-Same c f.built_at (own_key c) c.cache)
          (with_header-Carries "Content-Type" _ c.keys _ refl
            (with_header-Carries "If-None-Match" _ c.keys headers refl h)))
    | inr e ↦ rw e (
        headers-OwnKey v c c.keys _ (Same-refl c.keys)
          (with_header-Carries "Content-Type" _ c.keys headers refl h))
  ]

  authorized-OwnKey :
      Steady f
      → (c : Client D) (b : Bool) (o : Option String) (headers : JsMap String)
      → call.requires_auth ≡ b
      → truthy c.keys.authorization ≡ o
      → OwnKey g call (
          after_headers g f call
            (with_condition g c f.built_at (url_of c call.endpoint) call (authorized b o headers)))
  unfolding authorized with_condition after_headers
  authorized-OwnKey v c false o headers q e = conditional-OwnKey v c headers (
      ap (λ (b : Bool). if b then JsMap.get "Authorization" headers else none) q
      ∙ sym (ap (λ (b : Bool). if b then truthy c.keys.authorization else none) q))
  authorized-OwnKey v c true none headers q e = unfold OwnKey in tt
  authorized-OwnKey v c true (some h) headers q e =
      conditional-OwnKey v c (JsMap.set "Authorization" h headers)
        (ap (carried call) (JsMap.get-set_self "Authorization" h headers ∙ sym e))

  -- A response is looked up under the key of the client's own token and link.
  pub single_fetch-OwnKey :
      Steady f → (c : Client D) → OwnKey g call (execute_single_fetch g f call c)
  unfolding execute_single_fetch build_request_headers
  single_fetch-OwnKey v c =
      authorized-OwnKey v c call.requires_auth (truthy c.keys.authorization) (client_headers c call)
        refl refl
