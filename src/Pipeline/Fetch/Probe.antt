-- ===== src/Pipeline/Fetch/Probe.antt =====
-- A fetch that the breaker admitted gives its probe back, however it ends.
use esi_ts.Prelude.{ℕ, String, ◌≡◌, refl, true, Option, none, some, inl, inr, arith, Bool-cases}
use esi_ts.CircuitBreaker.{CircuitBreaker, is_counted}
use esi_ts.CircuitBreaker.Settled.{IsSettled, record_success-IsSettled, record_failure-IsSettled}
use esi_ts.RateLimiter.{RateLimiter}
use esi_ts.RateLimiter.Check.{CheckOutcome, allowed, refused}
use esi_ts.Pipeline.{Given, Client, Call}
use esi_ts.Pipeline.Middleware.{RequestContext}
use esi_ts.Pipeline.Fetch.{
  Reply, answered, rejected, Flight, failed_in, passed_in, counts_against, record_status,
  accept_token, report_response, on_answer, after_fetch, after_check, limited,
}

-- The breaker, if there is one, waits for no probe of this key.
abbrev pub AllSettled : String → Option CircuitBreaker → Type 0
AllSettled key none = Unit
AllSettled key (some b) = IsSettled b key

failed_in-settled :
    (now : ℕ) (key : String) (status : ℕ) (o : Option CircuitBreaker)
    → is_counted status ≡ true
    → AllSettled key (failed_in now key status o)
failed_in-settled now key status none h = tt
failed_in-settled now key status (some b) h = record_failure-IsSettled b now key status h

passed_in-settled : (key : String) (o : Option CircuitBreaker) → AllSettled key (passed_in key o)
passed_in-settled key none = tt
passed_in-settled key (some b) = record_success-IsSettled b key

counted : (status : ℕ) → counts_against status ≡ true → is_counted status ≡ true
unfolding is_counted
counted status h = ground arith

module _ {D : Type 0} (g : Given) (f : Flight D) (call : Call) where
  status-settled :
      (c : Client D) (now : ℕ) (key : String) (status : ℕ)
      → AllSettled key (record_status c now key status).circuit_breaker
  unfolding record_status
  status-settled c now key status = elim (Bool-cases (counts_against status)) [
    | inl e ↦ rw e (failed_in-settled now key status c.circuit_breaker (counted status e))
    | inr e ↦ rw e (passed_in-settled key c.circuit_breaker)
  ]

  fetch-settled :
      (c : Client D) (key : String) (req : RequestContext) (reply : Reply D)
      → AllSettled key (after_fetch g f call c key req reply).0.circuit_breaker
  unfolding after_fetch on_answer is_counted
  fetch-settled c key req (answered r) =
      status-settled (report_response g (accept_token g c call req r) f.replied_at call req r)
        f.replied_at key r.status
  fetch-settled c key req (rejected is_abort e) =
      failed_in-settled f.replied_at key 0 c.circuit_breaker refl

  check-settled :
      (c : Client D) (key : String) (req : RequestContext) (o : CheckOutcome)
      → AllSettled key (after_check g f call c key req o).0.circuit_breaker
  unfolding after_check is_counted
  check-settled c key req (allowed check) = fetch-settled _ key req f.reply
  check-settled c key req (refused ms check) =
      failed_in-settled (f.check_clock check.waits) key 0 (f.at_check c).circuit_breaker refl

  -- Every fetch that the breaker admitted records a result, so that no probe is lost: whether there
  -- is no limiter, the limiter refuses, the transport fails, or a response of any status comes, the
  -- circuit of the fetch is afterwards not half-open, whatever other requests did meanwhile.
  pub no_probe_left :
      (c : Client D) (key : String) (req : RequestContext) (lim : Option RateLimiter)
      → AllSettled key (limited g f call c key req lim).0.circuit_breaker
  unfolding limited is_counted
  no_probe_left c key req none = failed_in-settled f.checked_at key 0 c.circuit_breaker refl
  no_probe_left c key req (some lim) = check-settled c key req _
