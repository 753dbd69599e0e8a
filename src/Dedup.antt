-- ===== src/Dedup.antt =====
-- The deduplicator of src/core/RequestDeduplicator.ts. A promise is the number of the request that
-- it stands for, in the order in which the requests were started. The deletion in `finally` is an
-- event of its own, `settled`, which comes when the request settles.
pub mod Detached
pub mod Shared
use esi_ts.Prelude.{
  ℕ, zero, suc, ◌+◌, ◌-◌, ◌*◌, ◌/◌, ◌%◌, ◌^◌, ◌≤◌, ◌<◌, min, max, String, ◌≡◌, refl, sym, ap, ◌∙◌,
  ◌≢◌, ◌↔◌, ◌⊎◌, inl, inr, Bool, true, false, not, ◌&&◌, ◌||◌, Option, none, some, List, [], ◌∷◌,
  ◌++◌, map, arith, str_eq, eq_iff, ltb, leb, ◌==◌, if◌then◌else◌, ltb→lt, lt→ltb, leb→le, le→leb,
  ==_iff, leb-false, ltb-false, ltb_of_le, eq_of_ne, leb_of_lt, eq_or_lt, or_default, Bool-cases,
  Option-cases, length, take, drop, any, length-append, All, All-append, All-imp,
}
use esi_ts.Prelude.Text.{includes, str_eq_refl}
use esi_ts.Prelude.JsMap
use esi_ts.Prelude.JsMap.{JsMap, Distinct, map_laws}

pub record RequestDeduplicator : Type 0 where
  pub inflight : JsMap ℕ
  pub started : ℕ

abbrev pub no_requests : RequestDeduplicator
no_requests = record { inflight = []; started = 0 }

-- `dedupe`: the deduplicator afterwards, and the request whose answer the caller gets.
unfoldable pub dedupe : RequestDeduplicator → String → RequestDeduplicator × ℕ
dedupe d key = elim (JsMap.get key d.inflight) [
  | some request ↦ (d, request)
  | none ↦
      (record { inflight = JsMap.set key d.started d.inflight; started = d.started + 1 }, d.started)
]

-- `this.inflight.delete(key)` when a request that was started under this key settles.
unfoldable pub settle : RequestDeduplicator → String → RequestDeduplicator
settle d key = record d { inflight = JsMap.delete key d.inflight }

unfoldable pub detach_by_path : RequestDeduplicator → String → RequestDeduplicator × ℕ
detach_by_path d segment =
    let kept = JsMap.keep (λ key request. not (includes key segment)) d.inflight in
    (record d { inflight = kept }, JsMap.size d.inflight - JsMap.size kept)

unfoldable pub pending : RequestDeduplicator → ℕ
pending d = JsMap.size d.inflight

unfoldable pub clear : RequestDeduplicator → RequestDeduplicator
clear d = record d { inflight = [] }

pub data Event : Type 0 where
  called settled detached : String → Event
  cleared : Event

unfoldable pub apply : RequestDeduplicator → Event → RequestDeduplicator
apply d (called key) = (dedupe d key).0
apply d (settled key) = settle d key
apply d (detached path) = (detach_by_path d path).0
apply d cleared = clear d

unfoldable pub run : RequestDeduplicator → List Event → RequestDeduplicator
run d [] = d
run d (ev ∷ evs) = run (apply d ev) evs
