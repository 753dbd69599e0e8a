-- ===== src/Retry/Mutations.antt =====
-- A request that may not be retried is sent again only after a refresh of the token.
use esi_ts.Prelude.{
  ℕ, zero, suc, ◌+◌, ◌≤◌, ◌≡◌, refl, sym, ap, ◌∙◌, ◌≢◌, inl, inr, false, Option, none, some, [],
  arith, str_eq, leb, Bool-cases, Option-cases, some_inj,
}
use mathlib.Core.Path.{subst}
use esi_ts.Errors.{Failure, Result, ok, err, Result-cases}
use esi_ts.Prelude.JsMap.Every.{IfSome}
use esi_ts.Retry.{
  RetryStrategy, RetryContext, Decision, rethrow, refresh, retry, LoopState, Run, finish,
  after_refresh, on_failure, called, loop, start, execute, can_retry_method, refresh_error,
}
use esi_ts.Retry.Outcome.{decide-not_retry}
use esi_ts.Retry.Bounds.{execute_ends}

-- No delay was slept, and every call but the first one followed a refresh.
record OnlyRefreshed {A : Type 0} (run : Run A) : Type 0 where
  no_delay : run.delays ≡ []
  calls : run.calls ≤ run.refreshes + 1

record OnlySoFar (st : LoopState) : Type 0 where
  no_delay : st.delays ≡ []
  calls : st.calls ≤ st.refreshes

module _ {A : Type 0} (s : RetryStrategy) (ctx : RetryContext) (random : ℕ → ℕ) (op : ℕ → Result A)
    (fixed : can_retry_method s ctx ≡ false) where
  finish-Only :
      (r : Result A) (st : LoopState)
      → OnlySoFar st
      → OnlyRefreshed (finish r (called s ctx random op st))
  finish-Only r st h = record { no_delay = h.no_delay; calls = omega (arith, h.calls) }

  failed-Only :
      (e f : Failure) (st : LoopState)
      → OnlySoFar st
      → OnlyRefreshed (finish {A = A} (err f) (after_refresh (called s ctx random op st)))
  failed-Only e f st h = record { no_delay = h.no_delay; calls = omega (arith, h.calls) }

  on_failure-Only :
      (go : LoopState → Option (Run A)) (e : Failure) (st : LoopState) (d : Decision)
      → d ≢ retry
      → OnlySoFar st
      → ((st' : LoopState) → OnlySoFar st' → IfSome OnlyRefreshed (go st'))
      → IfSome OnlyRefreshed (on_failure s ctx random op go e (called s ctx random op st) d)
  unfolding on_failure
  on_failure-Only go e st rethrow ne h rec = finish-Only (err e) st h
  on_failure-Only go e st retry ne h rec = absurd (ne refl)
  on_failure-Only go e st refresh ne h rec = elim (Option-cases ctx.refresh_token) [
    | inl absent ↦
        subst (λ o. IfSome OnlyRefreshed (on_refresh o)) (sym absent) (finish-Only (err e) st h)
    | inr (outcome, there) ↦ elim (Option-cases outcome) [
      | inl worked ↦
          subst (λ o. IfSome OnlyRefreshed (on_refresh o)) (sym (there ∙ ap some worked))
            (rec (after_refresh (called s ctx random op st))
              (record { no_delay = h.no_delay; calls = omega (arith, h.calls) }))
      | inr (f, failed) ↦
          subst (λ o. IfSome OnlyRefreshed (on_refresh o)) (sym (there ∙ ap some failed))
            (failed-Only e (refresh_error f) st h)
    ]
  ]
    where
      on_refresh : Option (Option Failure) → Option (Run A)
      on_refresh o = elim o [
        | none ↦ some (finish (err e) (called s ctx random op st))
        | some failed ↦ elim failed [
          | none ↦ go (after_refresh (called s ctx random op st))
          | some f ↦
              some (finish (err (refresh_error f)) (after_refresh (called s ctx random op st)))
        ]
      ]

  loop-Only :
      (fuel : ℕ) (st : LoopState)
      → OnlySoFar st
      → IfSome OnlyRefreshed (loop s ctx random op fuel st)
  unfolding loop
  loop-Only zero st h = tt
  loop-Only (suc fuel) st h = elim (Bool-cases (leb st.attempt s.max_retries)) [
    | inl more ↦ rw more (elim (Result-cases (op st.calls)) [
      | inl (a, good) ↦ rw (good, loop) (finish-Only (ok a) st h)
      | inr (e, bad) ↦
          rw (bad, loop)
            (on_failure-Only (λ st'. loop s ctx random op fuel st') e st _
              (decide-not_retry s ctx st.attempt st.refreshed e fixed) h
              (λ st' h'. loop-Only fuel st' h'))
    ])
    | inr over ↦ rw over (record { no_delay = h.no_delay; calls = omega (arith, h.calls) })
  ]

IfSome-some :
    {A : Type 0} (P : Run A → Type 0) (o : Option (Run A)) (run : Run A)
    → o ≡ some run
    → IfSome P o
    → P run
IfSome-some P o run e h = rw e at h

execute-Only :
    {A : Type 0} (s : RetryStrategy) (ctx : RetryContext) (random : ℕ → ℕ) (op : ℕ → Result A)
    (run : Run A)
    → str_eq ctx.method "GET" ≡ false
    → s.retry_mutations ≡ false
    → execute s ctx random op ≡ some run
    → OnlyRefreshed run
unfolding execute can_retry_method
execute-Only s ctx random op run m n e = IfSome-some OnlyRefreshed _ run e (
    loop-Only s ctx random op (ground arith) (s.max_retries + 2) (start s ctx random op)
      (record { no_delay = refl; calls = omega arith }))

-- The one run of `execute_ends` is this one.
execute-refreshes :
    {A : Type 0} (s : RetryStrategy) (ctx : RetryContext) (random : ℕ → ℕ) (op : ℕ → Result A)
    (run : Run A)
    → execute s ctx random op ≡ some run
    → run.refreshes ≤ 1
execute-refreshes s ctx random op run e =
    let (other, same, calls, refreshes, sleeps, capped) = execute_ends s ctx random op in
    let p = ap (λ r. r.refreshes) (some_inj (sym e ∙ same)) in omega (arith, p, refreshes)

-- A request with a method other than GET, under a strategy that does not retry mutations, is
-- repeated only for a refresh of the token: when it ends, no delay was slept, it was sent at most
-- once more than the token was refreshed, and the token was refreshed at most once, so that it was
-- sent at most twice.
pub execute-mutation :
    {A : Type 0} (s : RetryStrategy) (ctx : RetryContext) (random : ℕ → ℕ) (op : ℕ → Result A)
    (run : Run A)
    → str_eq ctx.method "GET" ≡ false
    → s.retry_mutations ≡ false
    → execute s ctx random op ≡ some run
    → (run.delays ≡ []) × (run.calls ≤ run.refreshes + 1) × (run.refreshes ≤ 1) × (run.calls ≤ 2)
execute-mutation s ctx random op run m n e =
    let h = execute-Only s ctx random op run m n e in
    let one = execute-refreshes s ctx random op run e in
    (h.no_delay, h.calls, one, omega (arith, h.calls, one))
