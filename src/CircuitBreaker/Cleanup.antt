-- ===== src/CircuitBreaker/Cleanup.antt =====
-- Cleaning up stale circuits changes nothing that later operations show.
use esi_ts.Prelude.{
  ℕ, String, ◌≡◌, refl, sym, ap, ◌∙◌, inl, inr, true, not, Option, none, some, List, [], ◌∷◌, arith,
  str_eq, if◌then◌else◌, Bool-cases, Option-cases,
}
use mathlib.Core.Path.{subst}
use esi_ts.Prelude.JsMap
use esi_ts.Prelude.JsMap.{JsMap, Distinct}
use esi_ts.CircuitBreaker.{
  closed, CircuitRecord, CircuitBreaker, get_key, check_circuit, check_record, record_success,
  close_record, record_failure, fail_record, is_counted, get_or_create, record_or_fresh,
  fresh_record, state_of, get_state, reset, is_stale, cleanup,
}
use esi_ts.CircuitBreaker.Events.{Event, checked, succeeded, failed, cleaned, cleared, apply, run}
use esi_ts.CircuitBreaker.View.{
  view, seen, SameMap, with_circuits, check_record-view, fail_record-view, state_of-view,
  close_record-view, Changes, Changes-SameMap, set-Changes, delete-Changes, same-Changes,
}

-- Both maps after one event, from maps that are seen to be the same.
record Stepped (b : CircuitBreaker) (ev : Event) (m n : JsMap CircuitRecord) : Type 0 where
  left_map : JsMap CircuitRecord
  right_map : JsMap CircuitRecord
  left_step : apply (with_circuits b m) ev ≡ with_circuits b left_map
  right_step : apply (with_circuits b n) ev ≡ with_circuits b right_map
  same_after : SameMap left_map right_map

found : JsMap CircuitRecord → String → CircuitRecord
found m key = record_or_fresh (JsMap.get key m)

checked-Stepped :
    (b : CircuitBreaker) (now : ℕ) (e : String) (m n : JsMap CircuitRecord)
    → SameMap m n
    → Stepped b (checked now e) m n
unfolding apply check_circuit check_record get_or_create found
checked-Stepped b now e m n s =
    let key = get_key e in
    let r = found m key in
    let q = found n key in
    record {
      left_map = JsMap.set key (check_record b now key r.state r).0 m;
      right_map = JsMap.set key (check_record b now key q.state q).0 n;
      left_step = refl;
      right_step = refl;
      same_after =
          Changes-SameMap key _ _ s (set-Changes m key _ s.left) (set-Changes n key _ s.right)
            (check_record-view b now key r q (unfold seen in s.same key));
    }

failed-Stepped :
    (b : CircuitBreaker) (now : ℕ) (e : String) (status : ℕ) (m n : JsMap CircuitRecord)
    → SameMap m n
    → Stepped b (failed now e status) m n
unfolding apply record_failure fail_record get_or_create found
failed-Stepped b now e status m n s = elim (Bool-cases (is_counted status)) [
  | inl counted ↦
      let key = get_key e in
      let r = found m key in
      let q = found n key in
      record {
        left_map = JsMap.set key (fail_record b now r.state r) m;
        right_map = JsMap.set key (fail_record b now q.state q) n;
        left_step = rw counted;
        right_step = rw counted;
        same_after =
            Changes-SameMap key _ _ s (set-Changes m key _ s.left) (set-Changes n key _ s.right)
              (fail_record-view b now key r q (unfold seen in s.same key));
      }
  | inr ignored ↦ record {
    left_map = m;
    right_map = n;
    left_step = rw ignored;
    right_step = rw ignored;
    same_after = s;
  }
]

success_map : String → JsMap CircuitRecord → JsMap CircuitRecord
success_map key m = elim (JsMap.get key m) [
  | none ↦ m
  | some r ↦ JsMap.set key (close_record r.state r) m
]

apply-success_map :
    (b : CircuitBreaker) (e : String) (m : JsMap CircuitRecord)
    → apply (with_circuits b m) (succeeded e) ≡ with_circuits b (success_map (get_key e) m)
unfolding apply record_success success_map
apply-success_map b e m = elim (Option-cases (JsMap.get (get_key e) m)) [
  | inl missing ↦ rw (missing, record_success, success_map)
  | inr (r, there) ↦ rw (there, record_success, success_map)
]

success_map-Changes :
    (key : String) (m : JsMap CircuitRecord)
    → Distinct m
    → Changes m (success_map key m) key (let r = found m key in view (close_record r.state r))
unfolding success_map found
success_map-Changes key m d = elim (Option-cases (JsMap.get key m)) [
  | inl missing ↦
      rw (missing, success_map)
        (subst (λ x. Changes m m key x) (ap seen missing ∙ fresh_view) (same-Changes m key d))
  | inr (r, there) ↦ rw (there, success_map) (set-Changes m key (close_record r.state r) d)
]
  where
    fresh_view : seen none ≡ view (close_record closed fresh_record)
    fresh_view = unfold seen close_record view in refl

succeeded-Stepped :
    (b : CircuitBreaker) (e : String) (m n : JsMap CircuitRecord)
    → SameMap m n
    → Stepped b (succeeded e) m n
unfolding found
succeeded-Stepped b e m n s =
    let key = get_key e in
    record {
      left_map = success_map key m;
      right_map = success_map key n;
      left_step = apply-success_map b e m;
      right_step = apply-success_map b e n;
      same_after =
          Changes-SameMap key _ _ s (success_map-Changes key m s.left)
            (success_map-Changes key n s.right)
            (close_record-view (found m key) (found n key) (unfold seen in s.same key));
    }

kept : CircuitBreaker → ℕ → JsMap CircuitRecord → JsMap CircuitRecord
kept b now m = JsMap.keep (λ key r. not (is_stale b now r)) m

-- A stale circuit is seen as a missing one.
stale-view :
    (b : CircuitBreaker) (now : ℕ) (r : CircuitRecord)
    → is_stale b now r ≡ true
    → view r ≡ view fresh_record
unfolding is_stale view
stale-view b now r h = ground arith

seen-kept :
    (b : CircuitBreaker) (now : ℕ) (key : String) (m : JsMap CircuitRecord)
    → Distinct m
    → seen (JsMap.get key (kept b now m)) ≡ seen (JsMap.get key m)
unfolding kept
seen-kept b now key m d =
    ap seen (JsMap.get-keep (λ k r. not (is_stale b now r)) key m d) ∙ by_lookup (JsMap.get key m)
  where
    by_lookup :
        (o : Option CircuitRecord)
        → seen (elim o [ none ↦ none | some r ↦ if not (is_stale b now r) then some r else none ])
          ≡ seen o
    by_lookup none = refl
    by_lookup (some r) = elim (Bool-cases (is_stale b now r)) [
      | inl old ↦ rw old (unfold seen in sym (stale-view b now r old))
      | inr live ↦ rw live
    ]

kept-SameMap :
    (b c : CircuitBreaker) (now : ℕ) (m n : JsMap CircuitRecord)
    → SameMap m n
    → SameMap (kept b now m) (kept c now n)
kept-SameMap b c now m n s = record {
  left = unfold kept in JsMap.Distinct-keep _ m s.left;
  right = unfold kept in JsMap.Distinct-keep _ n s.right;
  same = λ key. seen-kept b now key m s.left ∙ s.same key ∙ sym (seen-kept c now key n s.right);
}

SameMap-refl : (m : JsMap CircuitRecord) → Distinct m → SameMap m m
SameMap-refl m d = record { left = d; right = d; same = λ key. refl }

cleaned-Stepped :
    (b : CircuitBreaker) (now : ℕ) (m n : JsMap CircuitRecord)
    → SameMap m n
    → Stepped b (cleaned now) m n
unfolding apply cleanup kept is_stale
cleaned-Stepped b now m n s = record {
  left_map = kept b now m;
  right_map = kept b now n;
  left_step = refl;
  right_step = refl;
  same_after = kept-SameMap b b now m n s;
}

cleared-Stepped :
    (b : CircuitBreaker) (o : Option String) (m n : JsMap CircuitRecord)
    → SameMap m n
    → Stepped b (cleared o) m n
unfolding apply reset
cleared-Stepped b none m n s = record {
  left_map = [];
  right_map = [];
  left_step = refl;
  right_step = refl;
  same_after = SameMap-refl [] tt;
}
cleared-Stepped b (some e) m n s = elim (Bool-cases (str_eq e "")) [
  | inl blank ↦ record {
    left_map = [];
    right_map = [];
    left_step = rw blank;
    right_step = rw blank;
    same_after = SameMap-refl [] tt;
  }
  | inr named ↦
      let key = get_key e in
      record {
        left_map = JsMap.delete key m;
        right_map = JsMap.delete key n;
        left_step = rw named;
        right_step = rw named;
        same_after =
            Changes-SameMap key _ _ s (delete-Changes m key s.left) (delete-Changes n key s.right)
              refl;
      }
]

apply-Stepped :
    (b : CircuitBreaker) (ev : Event) (m n : JsMap CircuitRecord) → SameMap m n → Stepped b ev m n
apply-Stepped b (checked now e) m n s = checked-Stepped b now e m n s
apply-Stepped b (succeeded e) m n s = succeeded-Stepped b e m n s
apply-Stepped b (failed now e status) m n s = failed-Stepped b now e status m n s
apply-Stepped b (cleaned now) m n s = cleaned-Stepped b now m n s
apply-Stepped b (cleared o) m n s = cleared-Stepped b o m n s

get_state-seen :
    (b : CircuitBreaker) (t : ℕ) (e : String) (m : JsMap CircuitRecord)
    → get_state (with_circuits b m) t e ≡ (let r = found m (get_key e) in state_of b t r.state r)
unfolding get_state state_of found
get_state-seen b t e m = elim (Option-cases (JsMap.get (get_key e) m)) [
  | inl missing ↦ rw (missing, get_state)
  | inr (r, there) ↦ rw (there, get_state)
]

run-SameMap :
    (b : CircuitBreaker) (evs : List Event) (m n : JsMap CircuitRecord) (t : ℕ) (e : String)
    → SameMap m n
    → get_state (run (with_circuits b m) evs) t e ≡ get_state (run (with_circuits b n) evs) t e
unfolding run
run-SameMap b [] m n t e s =
    get_state-seen b t e m
    ∙ state_of-view b t (get_key e) (found m (get_key e)) (found n (get_key e))
        (unfold seen found in s.same (get_key e))
    ∙ sym (get_state-seen b t e n)
run-SameMap b (ev ∷ evs) m n t e s =
    let st = apply-Stepped b ev m n s in
    ap (λ c. get_state (run c evs) t e) st.left_step
    ∙ run-SameMap b evs st.left_map st.right_map t e st.same_after
    ∙ sym (ap (λ c. get_state (run c evs) t e) st.right_step)

-- Removing the stale circuits changes no state that `getState` reports: after any further checks,
-- results, clean-ups and resets, every endpoint is in the state that it would be in had the
-- clean-up not run.
pub cleanup_invisible :
    (b : CircuitBreaker) (now : ℕ) (evs : List Event) (t : ℕ) (e : String)
    → Distinct b.circuits
    → get_state (run (cleanup b now).0 evs) t e ≡ get_state (run b evs) t e
unfolding cleanup is_stale kept
cleanup_invisible b now evs t e d =
    run-SameMap b evs (kept b now b.circuits) b.circuits t e (record {
      left = JsMap.Distinct-keep _ b.circuits d;
      right = d;
      same = λ key. seen-kept b now key b.circuits d;
    })
