-- ===== src/Tests/Requests.antt =====
-- The theorems on the retries, the deduplicator and the batches at concrete inputs.
use esi_ts.Prelude.{
  ℕ, zero, suc, ◌+◌, ◌*◌, ◌^◌, ◌≤◌, ◌<◌, String, ◌≡◌, refl, true, false, none, some, List, [], ◌∷◌,
  map, arith, length, All,
}
use esi_ts.Prelude.JsMap
use esi_ts.Prelude.Text.{includes}
use esi_ts.Errors.{Failure, esi, Result, ok, err}
use esi_ts.Retry.{
  RetryStrategy, RetryContext, Run, execute, delay_units, can_retry_method, loop, on_failure,
  decide, can_refresh, retry_delay,
}
use esi_ts.Retry.Bounds.{execute_ends}
use esi_ts.Retry.Outcome.{FailsRetryably, execute_honest}
use esi_ts.Retry.Mutations.{execute-mutation}
use esi_ts.Dedup.{RequestDeduplicator, dedupe, detach_by_path, settle, called, settled, run}
use esi_ts.Dedup.Detached.{never_joins_older}
use esi_ts.Dedup.Shared.{coalesces, late_settle_drops_newer}
use esi_ts.Batch.{chunks_of, batch_post, start}
use esi_ts.Batch as B
use esi_ts.Batch.Chunks.{batch_post-map}
use esi_ts.Batch.Accounts.{has_outcome, batch_fetch_accounts}
use esi_ts.Batch.Fetch.{AllPending, batch_fetch_resolves}

abbrev patient : RetryStrategy
patient = record {
  max_retries = 2;
  base_delay_ms = 1000;
  max_delay_ms = 30000;
  retry_mutations = false;
}

abbrev reading : RetryContext
reading = record { method = "GET"; requires_auth = false; refresh_token = none }

abbrev writing : RetryContext
writing = record { method = "POST"; requires_auth = true; refresh_token = none }

-- Fails once with 503.
abbrev flaky : ℕ → Result ℕ
flaky zero = err (esi 503)
flaky (suc n) = ok 7

abbrev half : ℕ → ℕ
half n = 2 ^ 52

-- What executing the flaky operation gives.
abbrev second_run : Run ℕ
second_run = record { outcome = ok 7; calls = 2; refreshes = 0; delays = (1000 * delay_units) ∷ [] }

execute_ends_example :
    (run : Run ℕ) × (execute patient reading half flaky ≡ some run)
    × (run.calls ≤ 4)
    × (run.refreshes ≤ 1)
    × (length run.delays ≤ 2)
    × All (λ d. d ≤ 30000 * delay_units) run.delays
execute_ends_example = execute_ends patient reading half flaky

fails_first : (i : ℕ) → i < 1 → FailsRetryably patient reading half flaky i
fails_first zero h = (esi 503, refl, refl)
fails_first (suc i) h = absurd (omega arith)

execute_honest_example :
    (n : ℕ) × (2 ≡ suc n) × (flaky n ≡ ok 7) × ((i : ℕ) → i < n → (e : Failure) × (flaky i ≡ err e))
unfolding execute loop on_failure decide can_retry_method can_refresh retry_delay
execute_honest_example = execute_honest patient reading half flaky second_run 7 refl refl

-- A write that fails is not sent again.
abbrev only_run : Run ℕ
only_run = record { outcome = err (esi 503); calls = 1; refreshes = 0; delays = [] }

execute-mutation_example :
    (only_run.delays ≡ [])
    × (only_run.calls ≤ only_run.refreshes + 1)
    × (only_run.refreshes ≤ 1)
    × (only_run.calls ≤ 2)
unfolding execute loop on_failure decide can_retry_method can_refresh
execute-mutation_example = execute-mutation patient writing half flaky only_run refl refl refl

abbrev shared : RequestDeduplicator
shared = record { inflight = ("GET:/markets", 4) ∷ []; started = 5 }

never_joins_older_example :
    5
    ≤ (dedupe
        (run (detach_by_path shared "/markets").0 (called "GET:/fleets" ∷ []))
        "GET:/markets").1
unfolding JsMap.has includes
never_joins_older_example =
    never_joins_older shared "/markets" "GET:/markets" (called "GET:/fleets" ∷ []) (refl, tt) refl

coalesces_example :
    dedupe
      (run (dedupe shared "GET:/fleets").0 (settled "GET:/markets" ∷ called "GET:/fleets" ∷ []))
      "GET:/fleets"
    ≡ (
      run (dedupe shared "GET:/fleets").0 (settled "GET:/markets" ∷ called "GET:/fleets" ∷ []),
      (dedupe shared "GET:/fleets").1,
    )
unfolding JsMap.has
coalesces_example =
    coalesces shared "GET:/fleets" (settled "GET:/markets" ∷ called "GET:/fleets" ∷ []) (refl, tt)
      (refl, (tt, tt))

late_settle_drops_newer_example :
    let newer = dedupe (detach_by_path shared "/markets").0 "GET:/markets" in
    (newer.1 ≡ 5) × ((dedupe (settle newer.0 "GET:/markets") "GET:/markets").1 ≡ 6)
unfolding JsMap.has includes
late_settle_drops_newer_example =
    late_settle_drops_newer shared "/markets" "GET:/markets" (refl, tt) refl

-- An endpoint that answers each id with its successor.
abbrev poster : List ℕ → Result (List ℕ)
poster ids = ok (map suc ids)

batch_post-map_example : batch_post (5 ∷ 6 ∷ 7 ∷ []) poster 2 ≡ some (ok (6 ∷ 7 ∷ 8 ∷ []))
batch_post-map_example = batch_post-map (5 ∷ 6 ∷ 7 ∷ []) poster suc 2 (omega arith) (λ chunk. refl)

abbrev keys : List String
keys = "a" ∷ "b" ∷ "c" ∷ []

-- The second of two pending promises settles first, with an error.
abbrev settlements : List (ℕ × Result ℕ)
settlements = (1, err (esi 404)) ∷ (0, ok 1) ∷ (0, ok 2) ∷ []

batch_fetch_resolves_example : (B.run 2 3 settlements (start 2 keys)).is_resolved ≡ true
unfolding B.fill B.settle start AllPending
batch_fetch_resolves_example =
    batch_fetch_resolves 2 keys settlements (omega arith, (omega arith, (omega arith, tt))) refl

batch_fetch_accounts_example : has_outcome 2 "b" (B.run 2 3 settlements (start 2 keys)) ≡ true
unfolding B.run B.settle B.fill start
batch_fetch_accounts_example = batch_fetch_accounts 2 keys settlements "b" refl refl
