-- ===== src/Dedup/Shared.antt =====
-- Which calls share a request.
use esi_ts.Prelude.{
  ℕ, ◌+◌, String, ◌≡◌, ap, ◌∙◌, inl, inr, true, false, not, none, some, List, [], ◌∷◌, arith,
  str_eq, eq_iff, Option-cases, All,
}
use esi_ts.Prelude.Text.{includes, str_eq_refl}
use esi_ts.Prelude.JsMap
use esi_ts.Prelude.JsMap.{JsMap, Distinct, map_laws}
use esi_ts.Dedup.{
  RequestDeduplicator, dedupe, settle, detach_by_path, Event, called, settled, detached, cleared,
  apply, run,
}

-- No request under this key settles with the event, and the key is neither detached nor cleared.
abbrev pub Spares : String → Event → Type 0
Spares key (called j) = Unit
Spares key (settled j) = str_eq j key ≡ false
Spares key (detached path) = includes key path ≡ false
Spares key cleared = ⊥

record InFlight (d : RequestDeduplicator) (key : String) (request : ℕ) : Type 0 where
  distinct : Distinct d.inflight
  there : JsMap.get key d.inflight ≡ some request

dedupe-InFlight :
    (d : RequestDeduplicator) (j key : String) (request : ℕ)
    → InFlight d key request
    → InFlight (dedupe d j).0 key request
unfolding dedupe
dedupe-InFlight d j key request f = elim (Option-cases (JsMap.get j d.inflight)) [
  | inr (other, at) ↦ rw (at, dedupe) f
  | inl missing ↦
      rw (missing, dedupe)
        (record {
          distinct = JsMap.Distinct-set j d.started d.inflight f.distinct;
          there = ground (
            arith,
            JsMap.get-set j key d.started d.inflight,
            eq_iff j key,
            f.there,
            λ (p : j ≡ key). ap (λ k. JsMap.get k d.inflight) p,
          );
        })
]

apply-InFlight :
    (d : RequestDeduplicator) (ev : Event) (key : String) (request : ℕ)
    → Spares key ev
    → InFlight d key request
    → InFlight (apply d ev) key request
unfolding apply settle detach_by_path
apply-InFlight d (called j) key request sp f = dedupe-InFlight d j key request f
apply-InFlight d (settled j) key request sp f = record {
  distinct = JsMap.Distinct-delete j d.inflight f.distinct;
  there = JsMap.get-delete j key d.inflight ∙ (rw sp f.there);
}
apply-InFlight d (detached path) key request sp f = record {
  distinct = JsMap.Distinct-keep _ d.inflight f.distinct;
  there =
      JsMap.get-keep (λ k r. not (includes k path)) key d.inflight f.distinct
      ∙ (rw f.there (rw sp));
}
apply-InFlight d cleared key request sp f = absurd sp

run-InFlight :
    (d : RequestDeduplicator) (evs : List Event) (key : String) (request : ℕ)
    → All (Spares key) evs
    → InFlight d key request
    → InFlight (run d evs) key request
unfolding run
run-InFlight d [] key request sp f = f
run-InFlight d (ev ∷ evs) key request (sp, sps) f =
    run-InFlight (apply d ev) evs key request sps (apply-InFlight d ev key request sp f)

first-InFlight :
    (d : RequestDeduplicator) (key : String)
    → Distinct d.inflight
    → InFlight (dedupe d key).0 key (dedupe d key).1
unfolding dedupe
first-InFlight d key u = elim (Option-cases (JsMap.get key d.inflight)) [
  | inr (request, there) ↦ rw (there, dedupe) (record { distinct = u; there = there })
  | inl missing ↦
      rw (missing, dedupe)
        (record {
          distinct = JsMap.Distinct-set key d.started d.inflight u;
          there = JsMap.get-set_self key d.started d.inflight;
        })
]

joins :
    (d : RequestDeduplicator) (key : String) (request : ℕ)
    → JsMap.get key d.inflight ≡ some request
    → dedupe d key ≡ (d, request)
unfolding dedupe
joins d key request e = rw (e, dedupe)

starts :
    (d : RequestDeduplicator) (key : String)
    → JsMap.get key d.inflight ≡ none
    → dedupe d key ≡ (
      record { inflight = JsMap.set key d.started d.inflight; started = d.started + 1 },
      d.started,
    )
unfolding dedupe
starts d key e = rw (e, dedupe)

-- As long as no request under the key of a call settles, neither the call's own nor an older one that
-- a write has detached, and that key is neither detached nor cleared, every later call with the key
-- gets the answer of that same request, and starts no other, whatever happens under other keys.
pub coalesces :
    (d : RequestDeduplicator) (key : String) (evs : List Event)
    → Distinct d.inflight
    → All (Spares key) evs
    → dedupe (run (dedupe d key).0 evs) key ≡ (run (dedupe d key).0 evs, (dedupe d key).1)
coalesces d key evs u sp =
    let f = run-InFlight (dedupe d key).0 evs key (dedupe d key).1 sp (first-InFlight d key u) in
    joins (run (dedupe d key).0 evs) key (dedupe d key).1 f.there

-- When a request that a write has detached settles, it drops the entry of the newer request that
-- was started under the same key: although that one is still in flight, the next call does not
-- join it but starts a third.
pub late_settle_drops_newer :
    (d : RequestDeduplicator) (path key : String)
    → Distinct d.inflight
    → includes key path ≡ true
    → let newer = dedupe (detach_by_path d path).0 key in
      (newer.1 ≡ d.started) × ((dedupe (settle newer.0 key) key).1 ≡ d.started + 1)
unfolding detach_by_path settle
late_settle_drops_newer d path key u hit =
    let detached_now = (detach_by_path d path).0 in
    let first = starts detached_now key none_left in
    let newer : RequestDeduplicator = record {
      inflight = JsMap.set key d.started detached_now.inflight;
      started = d.started + 1;
    } in
    (
      ap (λ x. x.1) first,
      ap (λ x. (dedupe (settle x.0 key) key).1) first
          ∙ ap (λ x. x.1) (starts (settle newer key) key (deleted_entry newer)),
    )
  where
    none_left : JsMap.get key (detach_by_path d path).0.inflight ≡ none
    none_left = ground (arith, JsMap.get-keep (λ k r. not (includes k path)) key d.inflight u)

    deleted_entry : (c : RequestDeduplicator) → JsMap.get key (settle c key).inflight ≡ none
    deleted_entry c = simp (JsMap.get-delete, str_eq_refl)
