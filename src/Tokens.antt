-- ===== src/Tokens.antt =====
-- The token manager of src/auth/EsiTokenManager.ts: one valid token for each character. The store
-- of the records is a port of the program and is read and written as a map of character ids. Hooks
-- and log lines are left out.
pub mod Refresh
pub mod RefreshAll
use esi_ts.Prelude.{
  ℕ, ◌+◌, ◌*◌, String, ◌≡◌, refl, Bool, true, false, not, ◌&&◌, ◌||◌, Option, none, some, List, [],
  ◌∷◌, str_eq, any, ltb, leb, ◌==◌, if◌then◌else◌, or_default,
}

-- `StoredToken` of src/auth/types.ts.
pub record StoredToken : Type 0 where
  pub character_id : ℕ
  pub character_name : String
  pub access_token : String
  pub refresh_token : String
  pub expires_at : ℕ
  pub scopes : List String
  pub owner_hash : Option String
  pub updated_at : ℕ
  pub revoked_at : Option ℕ

-- `SsoTokenResponse` of src/auth/EveSsoClient.ts.
pub record SsoTokenResponse : Type 0 where
  pub access_token : String
  pub refresh_token : String
  pub expires_in : ℕ

-- `DecodedAccessToken` of src/auth/jwt.ts.
pub record DecodedAccessToken : Type 0 where
  pub character_id : ℕ
  pub character_name : String
  pub scopes : List String
  pub expires_at : Option ℕ
  pub owner_hash : Option String

-- What the manager throws: CharacterNotFoundError, TokenRevokedError, another SSO error and
-- whether it can be retried, and a token that does not decode.
pub data TokenError : Type 0 where
  not_found token_revoked undecodable : TokenError
  sso_error : Bool → TokenError

pub data Fetched (A : Type 0) : Type 0 where
  got : A → Fetched A
  threw : TokenError → Fetched A

-- The records, the refreshes in flight with the number of their run, the write generations, and
-- the number of runs so far.
pub record TokenManager : Type 0 where
  pub storage : ℕ → Option StoredToken
  pub in_flight : ℕ → Option ℕ
  pub generations : ℕ → ℕ
  pub refresh_skew_ms : ℕ
  pub auto_refresh : Bool
  pub runs : ℕ

pub record TokenManagerConfig : Type 0 where
  pub refresh_skew_ms : Option ℕ
  pub auto_refresh : Option Bool

-- The constructor, over a store with these records.
unfoldable pub create : TokenManagerConfig → (ℕ → Option StoredToken) → TokenManager
create config storage = record {
  storage = storage;
  in_flight = λ id. none;
  generations = λ id. 0;
  refresh_skew_ms = or_default config.refresh_skew_ms 60000;
  auto_refresh = or_default config.auto_refresh true;
  runs = 0;
}

abbrev pub put : {A : Type 0} → ℕ → A → (ℕ → A) → ℕ → A
put id value f j = if id == j then value else f j

abbrev pub has_revocation : StoredToken → Bool
has_revocation t = elim t.revoked_at [ none ↦ false | some at ↦ true ]

-- `isStale`, with the skew of the manager.
unfoldable pub is_stale : ℕ → ℕ → ℕ → StoredToken → Bool
is_stale skew now within_ms t = leb t.expires_at (now + within_ms + skew)

unfoldable pub require_live : StoredToken → Fetched StoredToken
require_live t = if has_revocation t then threw token_revoked else got t

abbrev pub found_or_missing : Option StoredToken → Fetched StoredToken
found_or_missing none = threw not_found
found_or_missing (some t) = got t

unfoldable pub require_stored : TokenManager → ℕ → Fetched StoredToken
require_stored m id = found_or_missing (m.storage id)

abbrev pub then_live : Fetched StoredToken → Fetched StoredToken
then_live (threw e) = threw e
then_live (got t) = require_live t

unfoldable pub bump_generation : TokenManager → ℕ → TokenManager
bump_generation m id = record m { generations = put id (m.generations id + 1) m.generations }

-- `decoded.characterName || previous?.characterName || ''`.
abbrev first_name : String → String → String
first_name name other = if str_eq name "" then other else name

abbrev first_scopes : List String → List String → List String
first_scopes [] other = other
first_scopes (s ∷ ss) other = s ∷ ss

abbrev pub expiry : ℕ → ℕ → Option ℕ → ℕ
expiry now expires_in claimed =
    if ltb 0 expires_in then now + expires_in * 1000 else or_default claimed now

abbrev or_else : Option String → Option String → Option String
or_else none other = other
or_else (some s) other = some s

-- `buildStoredToken`; the decoded token is none where decoding throws.
unfoldable pub build_stored_token :
    ℕ → SsoTokenResponse → Option DecodedAccessToken → Option StoredToken → Fetched StoredToken
build_stored_token now response none none = threw undecodable
build_stored_token now response none (some previous) = got (record {
  character_id = previous.character_id;
  character_name = previous.character_name;
  access_token = response.access_token;
  refresh_token = response.refresh_token;
  expires_at = expiry now response.expires_in none;
  scopes = previous.scopes;
  owner_hash = previous.owner_hash;
  updated_at = now;
  revoked_at = none;
})
build_stored_token now response (some d) none = got (record {
  character_id = d.character_id;
  character_name = d.character_name;
  access_token = response.access_token;
  refresh_token = response.refresh_token;
  expires_at = expiry now response.expires_in d.expires_at;
  scopes = d.scopes;
  owner_hash = d.owner_hash;
  updated_at = now;
  revoked_at = none;
})
build_stored_token now response (some d) (some previous) = got (record {
  character_id = d.character_id;
  character_name = first_name d.character_name previous.character_name;
  access_token = response.access_token;
  refresh_token = response.refresh_token;
  expires_at = expiry now response.expires_in d.expires_at;
  scopes = first_scopes d.scopes previous.scopes;
  owner_hash = or_else d.owner_hash previous.owner_hash;
  updated_at = now;
  revoked_at = none;
})
