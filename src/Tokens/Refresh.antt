-- ===== src/Tokens/Refresh.antt =====
-- The refresh of a token and the writes that may overtake it: `startRefresh`, `doRefresh`,
-- `refreshStored`, `supersededBy`, `storeResponse`, `removeCharacter`, `getToken` and `refreshOne`
-- of src/auth/EsiTokenManager.ts. A refresh waits for the store, for the lease and for the login
-- server; the manager that it finds after a wait is an argument.
pub mod Overtaken
pub mod Runs
pub mod Slots
pub mod Kept
pub mod Joined
pub mod Lost
use esi_ts.Prelude.{
  ℕ, zero, suc, ◌+◌, ◌≤◌, ◌<◌, String, ◌≡◌, refl, Bool, true, false, not, ◌&&◌, ◌||◌, Option, none,
  some, List, [], ◌∷◌, arith, str_eq, ltb, leb, ◌==◌, if◌then◌else◌,
}
use esi_ts.Tokens.{
  StoredToken, SsoTokenResponse, DecodedAccessToken, TokenError, not_found, token_revoked,
  undecodable, sso_error, Fetched, got, threw, TokenManager, put, has_revocation, is_stale,
  require_live, found_or_missing, require_stored, then_live, bump_generation, build_stored_token,
}

-- `startRefresh`: the manager afterwards and the run whose result the caller gets.
abbrev pub join_or_start : TokenManager → ℕ → Option ℕ → TokenManager × ℕ
join_or_start m id (some run) = (m, run)
join_or_start m id none =
    (record m { in_flight = put id (some m.runs) m.in_flight; runs = m.runs + 1 }, m.runs)

unfoldable pub start_refresh : TokenManager → ℕ → TokenManager × ℕ
start_refresh m id = join_or_start m id (m.in_flight id)

abbrev pub is_run : ℕ → Option ℕ → Bool
is_run run none = false
is_run run (some other) = run == other

-- The `finally` of a run: it clears its own slot only.
unfoldable pub finish_run : TokenManager → ℕ → ℕ → TokenManager
finish_run m id run =
    if is_run run (m.in_flight id) then record m { in_flight = put id none m.in_flight } else m

-- A refresh that waits for the login server: the record that it sends, and the generation.
pub record Pending : Type 0 where
  pub stored : StoredToken
  pub generation : ℕ

-- How `doRefresh` goes on: with a record that needs no call, or with a call.
pub data Plan : Type 0 where
  use_stored : StoredToken → Plan
  ask_sso : Pending → Plan

abbrev pub pending_of : TokenManager → ℕ → StoredToken → Pending
pending_of m id t = record { stored = t; generation = m.generations id }

abbrev plan_unlocked : TokenManager → ℕ → Fetched StoredToken → Fetched Plan
plan_unlocked m id (threw e) = threw e
plan_unlocked m id (got t) = got (ask_sso (pending_of m id t))

abbrev plan_locked : TokenManager → ℕ → StoredToken → Fetched StoredToken → Fetched Plan
plan_locked m id seen (threw e) = threw e
plan_locked m id seen (got t) =
    if str_eq t.refresh_token seen.refresh_token
    then got (ask_sso (pending_of m id t))
    else got (use_stored t)

-- `doRefresh` without a lease: the record is read from one manager, and the generation is taken
-- from the one after that wait.
unfoldable pub do_refresh : TokenManager → TokenManager → ℕ → Fetched Plan
do_refresh read m id = plan_unlocked m id (then_live (require_stored read id))

abbrev plan_seen : TokenManager → TokenManager → ℕ → Fetched StoredToken → Fetched Plan
plan_seen read m id (threw e) = threw e
plan_seen read m id (got seen) = plan_locked m id seen (then_live (require_stored read id))

abbrev seen_or_read : TokenManager → ℕ → Option StoredToken → Fetched StoredToken
seen_or_read m id (some seen) = got seen
seen_or_read m id none = then_live (require_stored m id)

-- `doRefresh` with a lease: the manager before the wait for it, the one that the record is read
-- from under it, and the one after that.
unfoldable pub do_refresh_locked :
    TokenManager → TokenManager → TokenManager → ℕ → Option StoredToken → Fetched Plan
do_refresh_locked before read m id seen = plan_seen read m id (seen_or_read before id seen)

-- `supersededBy`: what a refresh resolves to that no longer owns the record.
unfoldable pub superseded_by : TokenManager → ℕ → ℕ → Option (Fetched StoredToken)
superseded_by m id generation =
    if m.generations id == generation then none else some (require_stored m id)

-- What the login server answers.
pub data SsoAnswer : Type 0 where
  refreshed : SsoTokenResponse → Option DecodedAccessToken → SsoAnswer
  revoked : SsoAnswer
  failed : TokenError → SsoAnswer

abbrev pub write_token : TokenManager → ℕ → StoredToken → TokenManager
write_token m id t = record m { storage = put id (some t) m.storage }

abbrev pub revoke_record : ℕ → StoredToken → StoredToken
revoke_record now t = record t { revoked_at = some now; updated_at = now }

abbrev pub keep_built : TokenManager → ℕ → Fetched StoredToken → TokenManager × Fetched StoredToken
keep_built m id (threw e) = (m, threw e)
keep_built m id (got t) = (write_token m id t, got t)

-- The end of `refreshStored` for a refresh that owns its record.
unfoldable pub settle_owner :
    TokenManager → ℕ → ℕ → StoredToken → SsoAnswer → TokenManager × Fetched StoredToken
settle_owner m now id stored (refreshed response decoded) =
    keep_built m id (build_stored_token now response decoded (some stored))
settle_owner m now id stored revoked =
    (write_token m id (revoke_record now stored), threw token_revoked)
settle_owner m now id stored (failed e) = (m, threw e)

abbrev pub by_owner :
    TokenManager
    → ℕ
    → ℕ
    → StoredToken
    → SsoAnswer
    → Option (Fetched StoredToken)
    → TokenManager × Fetched StoredToken
by_owner m now id stored answer none = settle_owner m now id stored answer
by_owner m now id stored answer (some current) = (m, current)

-- `refreshStored` after the answer; a failure that is no revocation is reported as it is. The
-- generation is compared on the manager `check`, and the record is written to `m`.
unfoldable pub settle_refresh :
    TokenManager → TokenManager → ℕ → ℕ → Pending → SsoAnswer → TokenManager × Fetched StoredToken
settle_refresh check m now id p (failed e) = (m, threw e)
settle_refresh check m now id p answer =
    by_owner m now id p.stored answer (superseded_by check id p.generation)

-- The end of `storeResponse` and of `removeCharacter`, after the wait for the store: a refresh that
-- took its generation before does not own the record any more, and nobody joins it.
unfoldable pub retire_refresh : TokenManager → ℕ → TokenManager
retire_refresh m id =
    let m' = bump_generation m id in record m' { in_flight = put id none m'.in_flight }

abbrev pub delete_token : TokenManager → ℕ → TokenManager
delete_token m id = record m { storage = put id none m.storage }

abbrev pub stored_or_not :
    (TokenManager → TokenManager)
    → TokenManager
    → Fetched StoredToken
    → TokenManager × Fetched StoredToken
stored_or_not writing m (threw e) = (m, threw e)
stored_or_not writing m (got t) =
    (retire_refresh (writing (write_token m t.character_id t)) t.character_id, got t)

-- `storeResponse`, for a token that was verified where that is on, from the write of the record on.
-- `writing` is what others change after the write, while it is waited for.
unfoldable pub store_response :
    (TokenManager → TokenManager)
    → TokenManager
    → ℕ
    → SsoTokenResponse
    → Option DecodedAccessToken
    → TokenManager × Fetched StoredToken
store_response writing m now response decoded =
    stored_or_not writing m (build_stored_token now response decoded none)

abbrev pub remove_record :
    (TokenManager → TokenManager)
    → (TokenManager → TokenManager)
    → TokenManager
    → ℕ
    → Option StoredToken
    → TokenManager
remove_record revoking deleting m id none = m
remove_record revoking deleting m id (some t) =
    retire_refresh (deleting (delete_token (revoking m) id)) id

-- `removeCharacter`, with what others change while the revocation at the login server, if it is asked
-- for, and, after the deletion, the store are waited for. A revocation that fails, after which
-- nothing is deleted, is left out.
unfoldable pub remove_character :
    (TokenManager → TokenManager) → (TokenManager → TokenManager) → TokenManager → ℕ → TokenManager
remove_character revoking deleting m id = remove_record revoking deleting m id (m.storage id)

-- How `getToken` gets its token.
pub data TokenSource : Type 0 where
  as_stored : String → TokenSource
  by_refresh : StoredToken → TokenSource

abbrev pub source_of : TokenManager → ℕ → Fetched StoredToken → Fetched TokenSource
source_of m now (threw e) = threw e
source_of m now (got t) =
    if m.auto_refresh && is_stale m.refresh_skew_ms now 0 t
    then got (by_refresh t)
    else got (as_stored t.access_token)

unfoldable pub get_token : TokenManager → ℕ → ℕ → Fetched TokenSource
get_token m now id = source_of m now (then_live (require_stored m id))

-- What `refreshOne` does with a record: why it is skipped, or that it is refreshed.
pub data OnePlan : Type 0 where
  skip_aborted skip_revoked skip_not_stale refresh_it : OnePlan

unfoldable pub refresh_one : TokenManager → ℕ → Bool → Option ℕ → StoredToken → OnePlan
refresh_one m now aborted within_ms t =
    if aborted then skip_aborted else if has_revocation t then skip_revoked else elim within_ms [
      | none ↦ refresh_it
      | some ms ↦ if is_stale m.refresh_skew_ms now ms t then refresh_it else skip_not_stale
    ]
