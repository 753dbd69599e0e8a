-- ===== src/Cache.antt =====
-- The response cache of src/core/cache: its entries (ICache.ts), the in-memory cache with ETags
-- (ETagCacheManager.ts) and the log of writes (writeLog.ts).
pub mod Etag
pub mod WriteLog
pub mod Shared
use Prim.Native.String.{String}
use esi_ts.Prelude.{ℕ, Option}
use esi_ts.Prelude.JsMap.{JsMap}

-- `CacheEntry`; `data` of type `unknown` is a parameter.
pub record CacheEntry (D : Type 0) : Type 0 where
  pub etag : String
  pub body : D
  pub headers : JsMap String
  pub timestamp : ℕ
  pub ttl : Option ℕ
