-- ===== src/Tokens/RefreshAll.antt =====
-- Refreshing every character: `refreshAll` and `refreshOne` of src/auth/EsiTokenManager.ts, over
-- the pool of src/core/util/concurrency.ts. What the manager, the clock and the signal are when the
-- turn of a record comes, and what its refresh resolves to, is given for each place.
pub mod Reports
use esi_ts.Prelude.{
  ℕ, zero, suc, ◌+◌, ◌≡◌, refl, Bool, true, false, Option, none, some, List, [], ◌∷◌, length,
}
use esi_ts.Prelude.Int.{ℤ}
use esi_ts.Concurrency.{Pool, run_with_concurrency}
use esi_ts.Tokens.{
  StoredToken, TokenError, not_found, token_revoked, undecodable, sso_error, Fetched, got, threw,
  TokenManager,
}
use esi_ts.Tokens.Refresh.{
  OnePlan, skip_aborted, skip_revoked, skip_not_stale, refresh_it, refresh_one,
}

pub data RefreshStatus : Type 0 where
  was_refreshed skipped failed revoked : RefreshStatus

pub data SkipReason : Type 0 where
  not_stale aborted : SkipReason

-- `RefreshResult`; of the error, what it is.
pub record RefreshResult : Type 0 where
  pub character_id : ℕ
  pub status : RefreshStatus
  pub expires_at : Option ℕ
  pub error : Option TokenError
  pub retryable : Option Bool
  pub reason : Option SkipReason

abbrev skip_result : ℕ → SkipReason → RefreshResult
skip_result id why = record {
  character_id = id;
  status = skipped;
  expires_at = none;
  error = none;
  retryable = none;
  reason = some why;
}

abbrev error_result : ℕ → RefreshStatus → TokenError → Bool → RefreshResult
error_result id status e retryable = record {
  character_id = id;
  status = status;
  expires_at = none;
  error = some e;
  retryable = some retryable;
  reason = none;
}

-- `error instanceof SsoError && error.isRetryable()`.
abbrev can_retry : TokenError → Bool
can_retry (sso_error retryable) = retryable
can_retry _ = false

-- What `startRefresh` resolves to, as a result.
unfoldable pub settled_result : ℕ → Fetched StoredToken → RefreshResult
settled_result id (got t) = record {
  character_id = id;
  status = was_refreshed;
  expires_at = some t.expires_at;
  error = none;
  retryable = none;
  reason = none;
}
settled_result id (threw token_revoked) = error_result id revoked token_revoked false
settled_result id (threw e) = error_result id failed e (can_retry e)

-- What the turn of a record finds: the manager, the clock, the signal, and the refresh, if one is
-- started.
pub record Turn : Type 0 where
  pub manager : TokenManager
  pub now : ℕ
  pub is_aborted : Bool
  pub refresh : Fetched StoredToken

-- `refreshOne`.
unfoldable pub refresh_record : Turn → Option ℕ → StoredToken → RefreshResult
refresh_record turn within_ms t =
    elim (refresh_one turn.manager turn.now turn.is_aborted within_ms t) [
      | skip_aborted ↦ skip_result t.character_id aborted
      | skip_revoked ↦ error_result t.character_id revoked token_revoked false
      | skip_not_stale ↦ skip_result t.character_id not_stale
      | refresh_it ↦ settled_result t.character_id turn.refresh
    ]

-- `SettledResult`.
pub data Settled : Type 0 where
  fulfilled : RefreshResult → Settled
  rejected : TokenError → Settled

abbrev pub result_of : StoredToken → Settled → RefreshResult
result_of t (fulfilled r) = r
result_of t (rejected e) = error_result t.character_id failed e false

unfoldable pub token_at : ℕ → List StoredToken → Option StoredToken
token_at i [] = none
token_at zero (t ∷ ts) = some t
token_at (suc i) (t ∷ ts) = token_at i ts

abbrev pub push_result : StoredToken → Option Settled → List RefreshResult → List RefreshResult
push_result t none rest = rest
push_result t (some s) rest = result_of t s ∷ rest

-- The array of results under `map`, from a place on.
unfoldable pub collect : ℕ → List StoredToken → (ℕ → Option Settled) → List RefreshResult
collect i [] results = []
collect i (t ∷ ts) results = push_result t (results i) (collect (i + 1) ts results)

-- The pool takes no place beyond the list.
abbrev pub run_worker : Turn → Option ℕ → Option StoredToken → Settled
run_worker turn within_ms none = rejected not_found
run_worker turn within_ms (some t) = fulfilled (refresh_record turn within_ms t)

module _ (turns : ℕ → Turn) (within_ms : Option ℕ) where
  unfoldable pub worker : List StoredToken → ℕ → Settled
  worker tokens i = run_worker (turns i) within_ms (token_at i tokens)

  unfoldable pub pool : Option ℤ → List StoredToken → List ℕ → Pool Settled
  pool concurrency tokens places =
      run_with_concurrency (length tokens) (worker tokens) concurrency places

  -- `refreshAll`, where the workers settle in the given order.
  unfoldable pub refresh_all : Option ℤ → List StoredToken → List ℕ → List RefreshResult
  refresh_all concurrency tokens places = collect 0 tokens (pool concurrency tokens places).results
