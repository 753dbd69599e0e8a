-- ===== src/Tests/Stores.antt =====
-- The theorems on the token manager and the cache over a shared store at concrete inputs.
use esi_ts.Prelude.{arith, ℕ, ◌≤◌, ◌≡◌, refl, true, false, Option, none, some, List, [], ◌∷◌}
use esi_ts.Prelude.Text.{includes}
use esi_ts.Prelude.JsMap
use esi_ts.Prelude.JsMap.{JsMap, get-delete}
use esi_ts.Tokens.{
  StoredToken, SsoTokenResponse, DecodedAccessToken, TokenManager, create, bump_generation,
}
use esi_ts.Tokens.Refresh.{refreshed, settle_refresh, pending_of, start_refresh, retire_refresh}
use esi_ts.Tokens.Refresh.Overtaken as Overtaken
use esi_ts.Tokens.Refresh.Overtaken.{
  stores, Replacement, replace, Overtakes, apply_all, overtaken_result, overtaken_refresh_discarded,
}
use esi_ts.Tokens.Refresh.Lost.{during_write, replacement_lost}
use esi_ts.Tokens.Refresh.{store_response}
use esi_ts.Tokens.Refresh.Runs as Runs
use esi_ts.Tokens.Refresh.Runs.{steps, idle}
use esi_ts.Tokens.Refresh.Joined.{joins_running}
use esi_ts.Cache.{CacheEntry}
use esi_ts.Cache.WriteLog.{empty_log}
use esi_ts.Cache.Shared as Shared
use esi_ts.Cache.Shared.{
  CacheStore, IsStore, CacheStoreCache, max_tracked_keys, delete_by_path, apply_remote,
}
use esi_ts.Cache.Shared.Bounded.{tracked_bounded}
use esi_ts.Cache.Shared.Dropped.{tracked_keys_dropped}

abbrev ann : StoredToken
ann = record {
  character_id = 7;
  character_name = "Ann";
  access_token = "one";
  refresh_token = "r1";
  expires_at = 900000;
  scopes = [];
  owner_hash = none;
  updated_at = 0;
  revoked_at = none;
}

abbrev records : ℕ → Option StoredToken
records id = some ann

abbrev manager : TokenManager
manager = create (record { refresh_skew_ms = none; auto_refresh = none }) records

abbrev response : SsoTokenResponse
response = record { access_token = "two"; refresh_token = "r2"; expires_in = 1200 }

abbrev decoded : DecodedAccessToken
decoded = record {
  character_id = 7;
  character_name = "Ann";
  scopes = [];
  expires_at = none;
  owner_hash = none;
}

-- The character is added again while its refresh waits; another refresh starts during the write.
abbrev addition : Replacement
addition = stores (Overtaken.starts 7 ∷ []) 100 response (some decoded)

abbrev replaced : TokenManager
replaced = apply_all (replace (apply_all manager []) addition) []

overtaken_refresh_discarded_example :
    settle_refresh replaced replaced 200 7
      (pending_of manager 7 ann)
      (refreshed response (some decoded))
    ≡ (replaced, overtaken_result replaced 7 (refreshed response (some decoded)))
unfolding Overtakes
overtaken_refresh_discarded_example =
    overtaken_refresh_discarded manager 7 ann [] [] addition replaced 200
      (refreshed response (some decoded)) refl

abbrev late_answer : SsoTokenResponse
late_answer = record { access_token = "late"; refresh_token = "r9"; expires_in = 1200 }

abbrev twice : TokenManager
twice =
    (store_response (during_write manager 7 ann 150 late_answer none) manager 100 response
      (some decoded)).0

replacement_lost_example :
    (kept : StoredToken) × (twice.storage 7 ≡ some kept)
    × (kept.access_token ≡ "late")
    × (kept.refresh_token ≡ "r9")
replacement_lost_example = replacement_lost manager ann 100 150 response late_answer decoded none

-- A first run, whose character is then removed.
abbrev opening : List Runs.Step
opening = Runs.starts 7 ∷ Runs.deletes 7 ∷ Runs.retires 7 ∷ []

-- A second run was started; the first one ends late, and a third caller comes.
abbrev late_end : List Runs.Step
late_end = Runs.ends 0 ∷ Runs.starts 7 ∷ []

joins_running_example :
    (let s = steps (idle records) opening in
      (s.ended 1 ≡ false)
      × ((start_refresh (steps (Runs.step s (Runs.starts 7)) late_end).manager 7).1 ≡ 1))
unfolding create Runs.step steps start_refresh retire_refresh bump_generation Runs.Leaves
joins_running_example = joins_running records opening late_end 7 ((λ e. omega (arith, e)), (tt, tt))

-- A store that is a map.
abbrev map_store : CacheStore (JsMap (CacheEntry ℕ)) ℕ
map_store = record {
  get = λ s k. (s, JsMap.get k s);
  set = λ s k etag body headers ttl.
      JsMap.set k (record { etag = etag; body = body; headers = headers; timestamp = 0; ttl = ttl })
        s;
  delete = λ s k. (JsMap.delete k s, JsMap.has k s);
  clear = λ s. [];
}

map_store-IsStore : IsStore map_store
map_store-IsStore = record { get-delete = λ s k j. get-delete k j s }

abbrev adapter : CacheStoreCache (JsMap (CacheEntry ℕ))
adapter = Shared.set map_store (Shared.create [] empty_log) 10 "/markets/1" "a" 7 [] none

tracked_bounded_example :
    (JsMap.size (Shared.set map_store adapter 20 "/fleets/3" "b" 8 [] none).keys ≤ max_tracked_keys)
    × (JsMap.has "/fleets/3" (Shared.set map_store adapter 20 "/fleets/3" "b" 8 [] none).keys
        ≡ true)
tracked_bounded_example = tracked_bounded map_store adapter 20 "/fleets/3" "b" 8 [] none

tracked_keys_dropped_example :
    ((Shared.get map_store (delete_by_path map_store adapter "/markets").0 "/markets/1").1 ≡ none)
    × ((Shared.get map_store
          (apply_remote map_store adapter (Shared.path "/markets"))
          "/markets/1").1
        ≡ none)
unfolding includes JsMap.has Shared.set Shared.track Shared.trim_keys JsMap.set JsMap.delete
    Shared.create
tracked_keys_dropped_example =
    tracked_keys_dropped map_store map_store-IsStore adapter "/markets" "/markets/1" refl refl
