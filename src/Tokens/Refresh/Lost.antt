-- ===== src/Tokens/Refresh/Lost.antt =====
-- A record that is replaced while a refresh compares too early: `storeResponse` of
-- src/auth/EsiTokenManager.ts raises the generation only after it has waited for the store.
use esi_ts.Prelude.{
  ℕ, ◌≡◌, Bool, refl, sym, ap, true, Option, none, some, ◌==◌, ==_iff, if◌then◌else◌,
}
use mathlib.Core.Path.{subst}
use esi_ts.Tokens.{
  StoredToken, SsoTokenResponse, DecodedAccessToken, TokenManager, put, bump_generation,
  build_stored_token, require_stored, expiry,
}
use esi_ts.Tokens.Refresh.{
  pending_of, superseded_by, refreshed, by_owner, settle_owner, settle_refresh, write_token,
  store_response, retire_refresh,
}

same_number : (n : ℕ) → (n == n) ≡ true
same_number n = (==_iff n n).1 refl

put_self : {A : Type 0} (id : ℕ) (v : A) (f : ℕ → A) → put id v f id ≡ v
put_self id v f = ap (λ (b : Bool). if b then v else f id) (same_number id)

abbrev new_record : ℕ → SsoTokenResponse → DecodedAccessToken → StoredToken
new_record now response d = record {
  character_id = d.character_id;
  character_name = d.character_name;
  access_token = response.access_token;
  refresh_token = response.refresh_token;
  expires_at = expiry now response.expires_in d.expires_at;
  scopes = d.scopes;
  owner_hash = d.owner_hash;
  updated_at = now;
  revoked_at = none;
}

-- The login server answers a refresh of this record while a replacement waits for the store.
abbrev pub during_write :
    TokenManager
    → ℕ
    → StoredToken
    → ℕ
    → SsoTokenResponse
    → Option DecodedAccessToken
    → TokenManager
    → TokenManager
during_write m id t now response decoded n =
    (settle_refresh n n now id (pending_of m id t) (refreshed response decoded)).0

written :
    (n : TokenManager) (now id : ℕ) (t : StoredToken) (response : SsoTokenResponse)
    (decoded : Option DecodedAccessToken)
    → (kept : StoredToken) × ((settle_owner n now id t (refreshed response decoded)).0.storage id
        ≡ some kept)
      × (kept.access_token ≡ response.access_token)
      × (kept.refresh_token ≡ response.refresh_token)
unfolding settle_owner build_stored_token
written n now id t response none = (_, put_self id _ n.storage, refl, refl)
written n now id t response (some d) = (_, put_self id _ n.storage, refl, refl)

-- If a refresh took its generation before a replacement of the record of its character began, and
-- compares it while that replacement waits for the store, after its write, then the refresh counts
-- as the owner: in the end, the record that is there has the tokens of the refresh, and the new
-- record is lost.
pub replacement_lost :
    (m : TokenManager) (t : StoredToken) (now now' : ℕ) (response response' : SsoTokenResponse)
    (d : DecodedAccessToken) (decoded' : Option DecodedAccessToken)
    → (let id = d.character_id in
        let after =
          (store_response
            (during_write m id t now' response' decoded')
            m
            now
            response
            (some d)).0 in
        (kept : StoredToken) × (after.storage id ≡ some kept)
        × (kept.access_token ≡ response'.access_token)
        × (kept.refresh_token ≡ response'.refresh_token))
unfolding store_response settle_refresh superseded_by settle_owner build_stored_token retire_refresh
    bump_generation
replacement_lost m t now now' response response' d decoded' =
    let id = d.character_id in
    let n = write_token m id (new_record now response d) in
    subst
      (λ (b : Bool).
        (kept : StoredToken) × ((by_owner n now' id t (refreshed response' decoded')
              (if b then none else some (require_stored n id))).0.storage
            id
          ≡ some kept)
        × (kept.access_token ≡ response'.access_token)
        × (kept.refresh_token ≡ response'.refresh_token))
      (sym (same_number (m.generations id))) (written n now' id t response' decoded')
