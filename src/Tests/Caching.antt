-- ===== src/Tests/Caching.antt =====
-- The theorems on the ETag cache, the write log and the cache keys at concrete inputs.
use esi_ts.Prelude.{
  ℕ, String, ◌≡◌, refl, true, none, some, List, [], ◌∷◌, arith, str_eq, if◌then◌else◌,
}
use esi_ts.Prelude.JsMap
use esi_ts.Prelude.Text.{includes}
use esi_ts.Cache.{CacheEntry}
use esi_ts.Cache.Etag.{EtagCacheManager, set, entry_of}
use esi_ts.Cache.Etag.Evict.{NoneOlder, set-evicts}
use esi_ts.Cache.Etag.Bound.{Event, looked, stored, invalidated, run, IsValid, cache_run-IsValid}
use esi_ts.Cache.WriteLog.{empty_log, invalidated_since, record_all}
use esi_ts.Cache.WriteLog.Overtaken.{empty_log-IsValid, invalidated_since_lem}
use esi_ts.CacheKey.{
  KeyClient, ◌<>◌, is_accepted, build_cache_key, scope, mark_all, trusted_identity, header_of,
  has_hash,
}
use esi_ts.CacheKey.Accepted.{forged_token_hashed}
use esi_ts.CacheKey.Separation.{identity_for, build_cache_key_separates}

abbrev entry : ℕ → CacheEntry ℕ
entry t = record { etag = "a"; body = t; headers = []; timestamp = t; ttl = some 100 }

-- A full cache of two entries.
abbrev full : EtagCacheManager ℕ
full = record {
  cache = ("/markets/1", entry 20) ∷ ("/wallets/2", entry 10) ∷ [];
  max_entries = 2;
  default_ttl = 100;
  cleanup_interval = 60000;
  hits = 0;
  misses = 0;
  cleanup_timer = none;
}

abbrev traffic : List (Event ℕ)
traffic =
    looked 30 "/markets/1"
    ∷ stored 40 "/fleets/3" "b" 7 [] none
    ∷ invalidated "/markets"
    ∷ looked 50 "/markets/1"
    ∷ []

set-evicts_example :
    (key : String) × (old : CacheEntry ℕ) × (JsMap.get key full.cache ≡ some old)
    × NoneOlder old.timestamp full.cache
    × ((j : String)
        → JsMap.get j (set full 30 "/fleets/3" "b" 7 [] none).cache ≡ (
            if str_eq "/fleets/3" j
            then some (entry_of full 30 "b" 7 [] none)
            else if str_eq key j
            then none
            else JsMap.get j full.cache))
unfolding JsMap.has
set-evicts_example =
    set-evicts full 30 "/fleets/3" "b" 7 [] none (refl, (refl, tt)) refl refl (omega arith)
      (omega arith)

full-IsValid : IsValid full
unfolding JsMap.has
full-IsValid = record { distinct = (refl, (refl, tt)); named = refl; bounded = omega arith }

cache_run-IsValid_example : IsValid (run full traffic)
cache_run-IsValid_example = cache_run-IsValid full traffic (tt, (refl, (tt, (tt, tt)))) full-IsValid

invalidated_since_lem_example :
    invalidated_since (record_all empty_log ("/fleets/3" ∷ "/markets" ∷ [])) 0 "GET:/markets/1"
    ≡ true
unfolding includes
invalidated_since_lem_example =
    invalidated_since_lem empty_log ("/fleets/3" ∷ "/markets" ∷ []) "GET:/markets/1"
      empty_log-IsValid

-- An identity is the name after the scheme of the header, and a hash puts a mark before it.
abbrev caller : String → String
caller header = "character:" <> header

abbrev hashed : String → String
hashed header = "sha256:" <> header

abbrev visitor : KeyClient
visitor = record {
  link = "https://esi.evetech.net";
  tenant = none;
  language = some "en";
  compatibility_date = none;
  authorization = some "Bearer one";
  accepted = [];
}

forged_token_hashed_example :
    build_cache_key caller hashed "/wallet"
      (mark_all caller hashed visitor ("Bearer one" ∷ []))
      true
      (some "Bearer two")
    ≡ scope
        (mark_all caller hashed visitor ("Bearer one" ∷ []))
        "/wallet"
        (some "sha256:Bearer two")
forged_token_hashed_example =
    forged_token_hashed caller hashed visitor ("Bearer one" ∷ []) "/wallet" "Bearer two" refl
      (refl, tt) refl

-- Two tokens of one character.
abbrev one_character : String → String
one_character header = "character:7"

abbrev returning : KeyClient
returning = record visitor { accepted = "sha256:Bearer one" ∷ "sha256:Bearer two" ∷ [] }

build_cache_key_separates_example :
    identity_for one_character hashed returning "Bearer one"
    ≡ identity_for one_character hashed returning "Bearer two"
unfolding build_cache_key trusted_identity header_of is_accepted has_hash
build_cache_key_separates_example =
    build_cache_key_separates one_character hashed returning "/wallet" "Bearer one" "Bearer two"
      refl refl refl
