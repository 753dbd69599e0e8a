-- ===== src/Dedup/Detached.antt =====
-- What a call after a write may be handed.
use esi_ts.Prelude.{
  ℕ, ◌≤◌, String, ◌≡◌, inl, inr, true, not, some, List, [], ◌∷◌, arith, Option-cases,
}
use esi_ts.Prelude.Text.{includes}
use esi_ts.Prelude.JsMap
use esi_ts.Prelude.JsMap.{JsMap, Distinct, map_laws}
use esi_ts.Dedup.{
  RequestDeduplicator, dedupe, settle, detach_by_path, clear, Event, called, settled, detached,
  cleared, apply, run,
}

-- Every request in flight under a key that contains the path is number `n` or a later one.
record Since (d : RequestDeduplicator) (n : ℕ) (path : String) : Type 0 where
  distinct : Distinct d.inflight
  ahead : n ≤ d.started
  recent :
      (key : String) (request : ℕ)
      → JsMap.get key d.inflight ≡ some request
      → includes key path ≡ true
      → n ≤ request

detach-Since :
    (d : RequestDeduplicator) (path : String)
    → Distinct d.inflight
    → Since (detach_by_path d path).0 d.started path
unfolding detach_by_path
detach-Since d path u = record {
  distinct = JsMap.Distinct-keep _ d.inflight u;
  ahead = omega arith;
  recent = λ key request found hit. absurd (gone key request found hit);
}
  where
    gone :
        (key : String) (request : ℕ)
        → JsMap.get key (JsMap.keep (λ k r. not (includes k path)) d.inflight) ≡ some request
        → includes key path ≡ true
        → ⊥
    gone key request found hit =
        ground (arith, JsMap.get-keep (λ k r. not (includes k path)) key d.inflight u)

dedupe-Since :
    (d : RequestDeduplicator) (key path : String) (n : ℕ)
    → Since d n path
    → Since (dedupe d key).0 n path
unfolding dedupe
dedupe-Since d key path n s = elim (Option-cases (JsMap.get key d.inflight)) [
  | inr (request, there) ↦ rw (there, dedupe) s
  | inl missing ↦
      rw (missing, dedupe)
        (record {
          distinct = JsMap.Distinct-set key d.started d.inflight s.distinct;
          ahead = omega (arith, s.ahead);
          recent = λ j request found hit.
              ground (arith, JsMap.get-set key j d.started d.inflight, s.recent j request, s.ahead);
        })
]

settle-Since :
    (d : RequestDeduplicator) (key path : String) (n : ℕ)
    → Since d n path
    → Since (settle d key) n path
unfolding settle
settle-Since d key path n s = record {
  distinct = JsMap.Distinct-delete key d.inflight s.distinct;
  ahead = s.ahead;
  recent =
      λ j request found hit. ground (arith, JsMap.get-delete key j d.inflight, s.recent j request);
}

keep-Since :
    (d : RequestDeduplicator) (segment path : String) (n : ℕ)
    → Since d n path
    → Since (detach_by_path d segment).0 n path
unfolding detach_by_path
keep-Since d segment path n s = record {
  distinct = JsMap.Distinct-keep _ d.inflight s.distinct;
  ahead = s.ahead;
  recent = λ j request found hit. ground (
    arith,
    JsMap.get-keep (λ key r. not (includes key segment)) j d.inflight s.distinct,
    s.recent j request,
  );
}

apply-Since :
    (d : RequestDeduplicator) (ev : Event) (path : String) (n : ℕ)
    → Since d n path
    → Since (apply d ev) n path
unfolding apply clear JsMap.get
apply-Since d (called key) path n s = dedupe-Since d key path n s
apply-Since d (settled key) path n s = settle-Since d key path n s
apply-Since d (detached segment) path n s = keep-Since d segment path n s
apply-Since d cleared path n s = record {
  distinct = tt;
  ahead = s.ahead;
  recent = λ j request found hit. cc;
}

run-Since :
    (d : RequestDeduplicator) (evs : List Event) (path : String) (n : ℕ)
    → Since d n path
    → Since (run d evs) n path
unfolding run
run-Since d [] path n s = s
run-Since d (ev ∷ evs) path n s = run-Since (apply d ev) evs path n (apply-Since d ev path n s)

joined-recent :
    (d : RequestDeduplicator) (key path : String) (n : ℕ)
    → Since d n path
    → includes key path ≡ true
    → n ≤ (dedupe d key).1
unfolding dedupe
joined-recent d key path n s hit = elim (Option-cases (JsMap.get key d.inflight)) [
  | inr (request, there) ↦ rw (there, dedupe) (s.recent key request there hit)
  | inl missing ↦ rw (missing, dedupe) s.ahead
]

-- After a write has detached its path, whatever happens in between, a call whose key contains the
-- path is never handed the answer of a request that was started before the write.
pub never_joins_older :
    (d : RequestDeduplicator) (path key : String) (evs : List Event)
    → Distinct d.inflight
    → includes key path ≡ true
    → d.started ≤ (dedupe (run (detach_by_path d path).0 evs) key).1
never_joins_older d path key evs u hit =
    joined-recent (run (detach_by_path d path).0 evs) key path d.started
      (run-Since _ evs path d.started (detach-Since d path u)) hit
