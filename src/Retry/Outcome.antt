-- ===== src/Retry/Outcome.antt =====
-- What executing an operation with retries returns.
use esi_ts.Prelude.{
  ℕ, zero, suc, ◌+◌, ◌≤◌, ◌<◌, ◌≡◌, refl, ◌≢◌, inl, inr, Bool, true, false, Option, none, some,
  arith, leb, le→leb, eq_or_lt, Bool-cases, Option-cases, length,
}
use mathlib.Core.Path.{subst}
use esi_ts.Errors.{
  Failure, esi, timeout, circuit_open, network, fault, other, is_retryable, Result, ok, err,
  Result-cases,
}
use esi_ts.Retry.{
  RetryStrategy, RetryContext, Decision, rethrow, refresh, retry, decide, LoopState, Run, finish,
  after_refresh, after_retry, on_failure, called, loop, start, execute, can_retry_method,
}

-- A retryable error with attempts left is retried: none of them is a 401.
decide-retryable :
    (s : RetryStrategy) (ctx : RetryContext) (attempt : ℕ) (refreshed : Bool) (e : Failure)
    → is_retryable e ≡ true
    → can_retry_method s ctx ≡ true
    → attempt < s.max_retries
    → decide s ctx attempt refreshed e ≡ retry
unfolding decide
decide-retryable s ctx attempt refreshed (esi status) r m h = ground arith
decide-retryable s ctx attempt refreshed (timeout ms) r m h = ground arith
decide-retryable s ctx attempt refreshed network r m h = ground arith
decide-retryable s ctx attempt refreshed (circuit_open x) r m h = cc
decide-retryable s ctx attempt refreshed (fault code) r m h = cc
decide-retryable s ctx attempt refreshed (other text) r m h = cc

pub decide-not_retry :
    (s : RetryStrategy) (ctx : RetryContext) (attempt : ℕ) (refreshed : Bool) (e : Failure)
    → can_retry_method s ctx ≡ false
    → decide s ctx attempt refreshed e ≢ retry
unfolding decide
decide-not_retry s ctx attempt refreshed e m = ground arith

module _ {A : Type 0} (s : RetryStrategy) (ctx : RetryContext) (random : ℕ → ℕ)
    (op : ℕ → Result A) where
  -- The call with this number fails with a retryable error.
  abbrev pub FailsRetryably : ℕ → Type 0
  FailsRetryably i = (e : Failure) × (op i ≡ err e) × (is_retryable e ≡ true)

  reaches_success :
      (n fuel : ℕ) (st : LoopState) (a : A)
      → can_retry_method s ctx ≡ true
      → st.attempt ≡ st.calls
      → st.calls + n ≤ s.max_retries
      → n < fuel
      → ((i : ℕ) → i < n → FailsRetryably (st.calls + i))
      → op (st.calls + n) ≡ ok a
      → (run : Run A) × (loop s ctx random op fuel st ≡ some run)
        × (run.outcome ≡ ok a)
        × (run.calls ≡ st.calls + n + 1)
        × (run.refreshes ≡ st.refreshes)
        × (length run.delays ≡ length st.delays + n)
  unfolding loop on_failure
  reaches_success n zero st a m eq le lt fails good = absurd (omega arith)
  reaches_success zero (suc fuel) st a m eq le lt fails good =
      let here : op st.calls ≡ ok a = subst (λ k. op k ≡ ok a) (omega arith) good in
      rw (le→leb st.attempt s.max_retries (omega arith)) (
        rw (here, loop)
          (finish (ok a) (called s ctx random op st), refl, refl, omega arith, refl, omega arith))
  reaches_success (suc n) (suc fuel) st a m eq le lt fails good =
      let (e, bad, r) = fails 0 (omega arith) in
      let here : op st.calls ≡ err e = subst (λ k. op k ≡ err e) (omega arith) bad in
      let st' = after_retry s ctx random e (called s ctx random op st) in
      let (run, runs, outcome, calls, refreshes, delays) =
        reaches_success n fuel st' a m (omega (arith, eq)) (omega arith) (omega arith)
          (λ i h. subst FailsRetryably (omega arith) (fails (suc i) (omega arith)))
          (subst (λ k. op k ≡ ok a) (omega arith) good) in
      rw (le→leb st.attempt s.max_retries (omega arith)) (
        rw (here, loop)
          (rw (decide-retryable s ctx st.attempt st.refreshed e r m (omega arith))
            (run, runs, outcome, omega (arith, calls), refreshes, omega (arith, delays))))

-- If the first `n` calls fail with retryable errors, `n` is at most `maxRetries`, the next call
-- returns a value, and the method may be retried, then that value is returned, after exactly one
-- call more than `n`, `n` delays and no refresh of the token.
pub execute-retries :
    {A : Type 0} (s : RetryStrategy) (ctx : RetryContext) (random : ℕ → ℕ) (op : ℕ → Result A)
    (n : ℕ) (a : A)
    → can_retry_method s ctx ≡ true
    → n ≤ s.max_retries
    → ((i : ℕ) → i < n → FailsRetryably s ctx random op i)
    → op n ≡ ok a
    → (run : Run A) × (execute s ctx random op ≡ some run)
      × (run.outcome ≡ ok a)
      × (run.calls ≡ n + 1)
      × (run.refreshes ≡ 0)
      × (length run.delays ≡ n)
unfolding execute
execute-retries s ctx random op n a m le fails good =
    let (run, runs, outcome, calls, refreshes, delays) =
      reaches_success s ctx random op n (s.max_retries + 2) (start s ctx random op) a m refl
        (omega arith) (omega arith)
        (λ i h. subst (FailsRetryably s ctx random op) (omega arith) (fails i h))
        (subst (λ k. op k ≡ ok a) (omega arith) good) in
    (run, runs, outcome, omega (arith, calls), refreshes, omega (arith, delays))

module _ {A : Type 0} (op : ℕ → Result A) where
  -- Of a run: every call before the last one failed, and a value that it returns is that of the
  -- last call.
  record Honest (run : Run A) : Type 0 where
    last : (a : A) → run.outcome ≡ ok a → (n : ℕ) × (run.calls ≡ suc n) × (op n ≡ ok a)
    before : (i : ℕ) → suc i < run.calls → (e : Failure) × (op i ≡ err e)

  abbrev FailedSoFar : ℕ → Type 0
  FailedSoFar n = (i : ℕ) → i < n → (e : Failure) × (op i ≡ err e)

  err-Honest : (e : Failure) (st : LoopState) → FailedSoFar st.calls → Honest (finish (err e) st)
  err-Honest e st h = record { last = λ a p. cc; before = λ i lt. h i (omega arith) }

  failed_next : (n : ℕ) (e : Failure) → FailedSoFar n → op n ≡ err e → FailedSoFar (n + 1)
  failed_next n e h bad i lt = elim (eq_or_lt i n (omega arith)) [
    | inl same ↦ (e, rw same bad)
    | inr less ↦ h i less
  ]

  -- Whatever runs results from the loop is honest.
  abbrev HonestIfSome : Option (Run A) → Type 0
  HonestIfSome none = Unit
  HonestIfSome (some run) = Honest run

  HonestIfSome-some :
      (o : Option (Run A)) (run : Run A) → o ≡ some run → HonestIfSome o → Honest run
  HonestIfSome-some o run e h = rw e at h

module _ {A : Type 0} (s : RetryStrategy) (ctx : RetryContext) (random : ℕ → ℕ)
    (op : ℕ → Result A) where
  on_failure-Honest :
      (go : LoopState → Option (Run A)) (e : Failure) (st : LoopState) (d : Decision)
      → FailedSoFar op st.calls
      → ((st' : LoopState) → FailedSoFar op st'.calls → HonestIfSome op (go st'))
      → HonestIfSome op (on_failure s ctx random op go e st d)
  unfolding on_failure
  on_failure-Honest go e st rethrow h rec = err-Honest op e st h
  on_failure-Honest go e st retry h rec = rec (after_retry s ctx random e st) h
  on_failure-Honest go e st refresh h rec = elim (Option-cases ctx.refresh_token) [
    | inl absent ↦ rw (absent, on_failure) (err-Honest op e st h)
    | inr (outcome, there) ↦ elim (Option-cases outcome) [
      | inl worked ↦ rw (there, on_failure) (rw worked (rec (after_refresh st) h))
      | inr (f, failed) ↦ rw (there, on_failure) (rw failed (err-Honest op _ (after_refresh st) h))
    ]
  ]

  loop-Honest :
      (fuel : ℕ) (st : LoopState)
      → FailedSoFar op st.calls
      → HonestIfSome op (loop s ctx random op fuel st)
  unfolding loop
  loop-Honest zero st h = tt
  loop-Honest (suc fuel) st h = elim (Bool-cases (leb st.attempt s.max_retries)) [
    | inl more ↦ rw more (elim (Result-cases (op st.calls)) [
      | inl (a, good) ↦
          rw (good, loop)
            (record {
              last = λ b p. (st.calls, omega arith, rw good p);
              before = λ i lt. h i (omega arith);
            })
      | inr (e, bad) ↦
          rw (bad, loop)
            (on_failure-Honest (λ st'. loop s ctx random op fuel st') e (called s ctx random op st)
              _ (failed_next op st.calls e h bad) (λ st' h'. loop-Honest fuel st' h'))
    ])
    | inr over ↦ rw over (err-Honest op _ st h)
  ]

-- A value that is returned is the result of the last call of the operation, and every call before
-- it failed: no success is thrown away and no failure is returned as a value.
pub execute_honest :
    {A : Type 0} (s : RetryStrategy) (ctx : RetryContext) (random : ℕ → ℕ) (op : ℕ → Result A)
    (run : Run A) (a : A)
    → execute s ctx random op ≡ some run
    → run.outcome ≡ ok a
    → (n : ℕ) × (run.calls ≡ suc n)
      × (op n ≡ ok a)
      × ((i : ℕ) → i < n → (e : Failure) × (op i ≡ err e))
unfolding execute
execute_honest s ctx random op run a e p =
    let h = HonestIfSome-some op _ run e (
      loop-Honest s ctx random op (s.max_retries + 2) (start s ctx random op)
        (λ i lt. elim lt [ ])) in
    let (n, calls, good) = h.last a p in (n, calls, good, λ i lt. h.before i (omega (arith, calls)))
