-- ===== src/Retry/Bounds.antt =====
-- The retry loop ends, and how often it calls, refreshes and sleeps.
use esi_ts.Prelude.{
  ℕ, zero, suc, ◌+◌, ◌-◌, ◌*◌, ◌≤◌, ◌<◌, ◌≡◌, refl, ap, inl, inr, Bool, true, false, Option, some,
  arith, le→leb, Option-cases, length, All,
}
use esi_ts.Errors.{Failure, Result, ok, err, Result-cases}
use esi_ts.Retry.{
  RetryStrategy, RetryContext, retry_delay, delay_units, Decision, rethrow, refresh, retry, decide,
  LoopState, Run, finish, refresh_error, after_refresh, after_retry, on_failure, called, loop,
  start, execute,
}

-- The rounds that are left: one for each attempt, and one more while the token was not refreshed.
abbrev refreshes_left : Bool → ℕ
refreshes_left true = 0
refreshes_left false = 1

abbrev rounds_left : RetryStrategy → LoopState → ℕ
rounds_left s st = s.max_retries + 1 - st.attempt + refreshes_left st.refreshed

-- How far a run may go from a state of the loop.
record Bounded {A : Type 0} (s : RetryStrategy) (st : LoopState) (run : Run A) : Type 0 where
  calls : run.calls ≤ st.calls + rounds_left s st
  refreshes : run.refreshes ≤ st.refreshes + refreshes_left st.refreshed
  sleeps : length run.delays ≤ length st.delays + (s.max_retries - st.attempt)
  capped : All (λ d. d ≤ s.max_delay_ms * delay_units) run.delays

abbrev Capped : RetryStrategy → LoopState → Type 0
Capped s st = All (λ d. d ≤ s.max_delay_ms * delay_units) st.delays

retry_delay-le :
    (attempt base most random : ℕ) → retry_delay attempt base most random ≤ most * delay_units
unfolding retry_delay
retry_delay-le attempt base most random = omega arith

decide-refresh :
    (s : RetryStrategy) (ctx : RetryContext) (attempt : ℕ) (refreshed : Bool) (e : Failure)
    → decide s ctx attempt refreshed e ≡ refresh
    → refreshed ≡ false
unfolding decide
decide-refresh s ctx attempt refreshed e h = ground arith

decide-retry :
    (s : RetryStrategy) (ctx : RetryContext) (attempt : ℕ) (refreshed : Bool) (e : Failure)
    → decide s ctx attempt refreshed e ≡ retry
    → attempt < s.max_retries
unfolding decide
decide-retry s ctx attempt refreshed e h = ground arith

module _ {A : Type 0} (s : RetryStrategy) (ctx : RetryContext) (random : ℕ → ℕ)
    (op : ℕ → Result A) where
  -- A run from a state, within its bounds.
  abbrev Ends : Option (Run A) → LoopState → Type 0
  Ends o st = (run : Run A) × (o ≡ some run) × Bounded s st run

  stop-Ends :
      (r : Result A) (st st' : LoopState)
      → Capped s st'
      → st'.calls ≤ st.calls + rounds_left s st
      → st'.refreshes ≤ st.refreshes + refreshes_left st.refreshed
      → st'.delays ≡ st.delays
      → Ends (some (finish r st')) st
  stop-Ends r st st' caps calls refreshes delays = (
    finish r st',
    refl,
    record {
      calls = calls;
      refreshes = refreshes;
      sleeps = omega (arith, ap length delays);
      capped = caps;
    },
  )

  on_failure-Ends :
      (go : LoopState → Option (Run A)) (e : Failure) (st : LoopState) (d : Decision)
      → decide s ctx st.attempt st.refreshed e ≡ d
      → Capped s st
      → st.attempt ≤ s.max_retries
      → ((st' : LoopState)
          → Capped s st'
          → rounds_left s st' < rounds_left s st
          → st'.attempt ≤ s.max_retries
          → Ends (go st') st')
      → Ends (on_failure s ctx random op go e (called s ctx random op st) d) st
  unfolding on_failure
  on_failure-Ends go e st rethrow h caps le rec =
      stop-Ends (err e) st (called s ctx random op st) caps (omega arith) (omega arith) refl
  on_failure-Ends go e st retry h caps le rec =
      let st' = after_retry s ctx random e (called s ctx random op st) in
      let less : st.attempt < s.max_retries = decide-retry s ctx st.attempt st.refreshed e h in
      let (run, eq, b) =
        rec st' (retry_delay-le st.attempt s.base_delay_ms s.max_delay_ms (random st.attempt), caps)
          (omega arith) (omega arith) in
      (
        run,
        eq,
        record {
          calls = omega (arith, b.calls);
          refreshes = b.refreshes;
          sleeps = omega (arith, b.sleeps);
          capped = b.capped;
        },
      )
  on_failure-Ends go e st refresh h caps le rec =
      let new : refreshes_left st.refreshed ≡ 1 =
        ap refreshes_left (decide-refresh s ctx st.attempt st.refreshed e h) in
      let here = called s ctx random op st in
      elim (Option-cases ctx.refresh_token) [
        | inl absent ↦
            rw (absent, on_failure)
              (stop-Ends (err e) st here caps (omega arith) (omega arith) refl)
        | inr (outcome, there) ↦ elim (Option-cases outcome) [
          | inl worked ↦
              rw (there, on_failure)
                (rw worked (
                  let (run, eq, b) = rec (after_refresh here) caps (omega (arith, new)) le in
                  (
                    run,
                    eq,
                    record {
                      calls = omega (arith, new, b.calls);
                      refreshes = omega (arith, new, b.refreshes);
                      sleeps = b.sleeps;
                      capped = b.capped;
                    },
                  )))
          | inr (f, failed) ↦
              rw (there, on_failure)
                (rw failed (
                  stop-Ends (err (refresh_error f)) st (after_refresh here) caps (omega arith)
                    (omega (arith, new)) refl))
        ]
      ]

  loop-Ends :
      (fuel : ℕ) (st : LoopState)
      → rounds_left s st ≤ fuel
      → st.attempt ≤ s.max_retries
      → Capped s st
      → Ends (loop s ctx random op fuel st) st
  unfolding loop
  loop-Ends zero st h le caps = absurd (omega arith)
  loop-Ends (suc fuel) st h le caps = rw (le→leb _ _ le) (elim (Result-cases (op st.calls)) [
    | inl (a, good) ↦
        rw (good, loop)
          (stop-Ends (ok a) st (called s ctx random op st) caps (omega arith) (omega arith) refl)
    | inr (e, bad) ↦
        rw (bad, loop)
          (on_failure-Ends (λ st'. loop s ctx random op fuel st') e st _ refl caps le
            (λ st' caps' less le'. loop-Ends fuel st' (omega arith) le' caps'))
  ])

-- Executing an operation always ends, whatever its calls return: after at most two calls more than
-- `maxRetries`, one refresh of the token and `maxRetries` delays, none of them longer than
-- `maxDelayMs`.
pub execute_ends :
    {A : Type 0} (s : RetryStrategy) (ctx : RetryContext) (random : ℕ → ℕ) (op : ℕ → Result A)
    → (run : Run A) × (execute s ctx random op ≡ some run)
      × (run.calls ≤ s.max_retries + 2)
      × (run.refreshes ≤ 1)
      × (length run.delays ≤ s.max_retries)
      × All (λ d. d ≤ s.max_delay_ms * delay_units) run.delays
unfolding execute
execute_ends s ctx random op =
    let (run, eq, b) =
      loop-Ends s ctx random op (s.max_retries + 2) (start s ctx random op) (omega arith)
        (omega arith) tt in
    (run, eq, omega (arith, b.calls), omega (arith, b.refreshes), omega (arith, b.sleeps), b.capped)
