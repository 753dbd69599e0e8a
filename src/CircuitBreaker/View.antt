-- ===== src/CircuitBreaker/View.antt =====
-- What of the circuits later operations can show, and when two maps of circuits are the same to
-- every later operation.
use esi_ts.Prelude.{
  ℕ, String, ◌≡◌, refl, sym, ap, ◌∙◌, inl, inr, Option, arith, str_eq, eq_iff, if◌then◌else◌,
  Bool-cases,
}
use esi_ts.Prelude.JsMap
use esi_ts.Prelude.JsMap.{JsMap, Distinct}
use esi_ts.CircuitBreaker.{
  CircuitState, closed, opened, half_open, CircuitRecord, CircuitBreaker, check_record,
  close_record, fail_record, record_or_fresh, fresh_record, state_of,
}

-- What of a record later operations can show: the time of the last failure only while the circuit
-- is not closed, the attempts only while it is half-open.
view_at : CircuitState → CircuitRecord → CircuitRecord
view_at closed r = record r { last_failure_time = 0; half_open_attempts = 0 }
view_at opened r = record r { half_open_attempts = 0 }
view_at half_open r = r

unfoldable pub view : CircuitRecord → CircuitRecord
unfolding view_at
view r = view_at r.state r

-- A missing circuit reads as a fresh one.
unfoldable pub seen : Option CircuitRecord → CircuitRecord
unfolding view
seen o = view (record_or_fresh o)

view_idem : (r : CircuitRecord) → view (view r) ≡ view r
unfolding view
view_idem r = ground arith

-- Two maps of circuits that no later operation tells apart.
pub record SameMap (m n : JsMap CircuitRecord) : Type 0 where
  pub left : Distinct m
  pub right : Distinct n
  pub same : (key : String) → seen (JsMap.get key m) ≡ seen (JsMap.get key n)

-- The breaker `b` with other circuits.
abbrev pub with_circuits : CircuitBreaker → JsMap CircuitRecord → CircuitBreaker
with_circuits b m = record b { circuits = m }

-- The operations on a record depend on its view alone.
module _ (b : CircuitBreaker) (now : ℕ) (key : String) where
  pub check_record-view :
      (r s : CircuitRecord)
      → view r ≡ view s
      → view (check_record b now key r.state r).0 ≡ view (check_record b now key s.state s).0
  unfolding view check_record
  check_record-view r s h = ground arith

  pub fail_record-view :
      (r s : CircuitRecord)
      → view r ≡ view s
      → view (fail_record b now r.state r) ≡ view (fail_record b now s.state s)
  unfolding view fail_record
  fail_record-view r s h = ground arith

  pub state_of-view :
      (r s : CircuitRecord) → view r ≡ view s → state_of b now r.state r ≡ state_of b now s.state s
  unfolding view state_of
  state_of-view r s h = ground arith

pub close_record-view :
    (r s : CircuitRecord)
    → view r ≡ view s
    → view (close_record r.state r) ≡ view (close_record s.state s)
unfolding view close_record
close_record-view r s h = ground arith

-- A change at one key: what is seen there afterwards, and at all other keys what was seen before.
pub record Changes (m m' : JsMap CircuitRecord) (key : String) (x : CircuitRecord) : Type 0 where
  pub distinct : Distinct m'
  pub seen_after :
      (j : String) → seen (JsMap.get j m') ≡ (if str_eq key j then x else seen (JsMap.get j m))

pub Changes-SameMap :
    {m n m' n' : JsMap CircuitRecord} (key : String) (x y : CircuitRecord)
    → SameMap m n
    → Changes m m' key x
    → Changes n n' key y
    → x ≡ y
    → SameMap m' n'
Changes-SameMap key x y s c d e = record {
  left = c.distinct;
  right = d.distinct;
  same =
      λ j. c.seen_after j ∙ (λ i. if str_eq key j then e i else s.same j i) ∙ sym (d.seen_after j);
}

pub set-Changes :
    (m : JsMap CircuitRecord) (key : String) (r : CircuitRecord)
    → Distinct m
    → Changes m (JsMap.set key r m) key (view r)
set-Changes m key r d = record {
  distinct = JsMap.Distinct-set key r m d;
  seen_after = λ j.
      rw (JsMap.get-set key j r m)
        (elim (Bool-cases (str_eq key j)) [ inl e ↦ rw e (unfold seen in refl) | inr e ↦ rw e ]);
}

pub delete-Changes :
    (m : JsMap CircuitRecord) (key : String)
    → Distinct m
    → Changes m (JsMap.delete key m) key (view fresh_record)
delete-Changes m key d = record {
  distinct = JsMap.Distinct-delete key m d;
  seen_after = λ j.
      rw (JsMap.get-delete key j m)
        (elim (Bool-cases (str_eq key j)) [ inl e ↦ rw e (unfold seen in refl) | inr e ↦ rw e ]);
}

-- Leaving a map alone is a change to what was seen.
pub same-Changes :
    (m : JsMap CircuitRecord) (key : String) → Distinct m → Changes m m key (seen (JsMap.get key m))
same-Changes m key d = record {
  distinct = d;
  seen_after = λ j. elim (Bool-cases (str_eq key j)) [
    | inl e ↦ rw e (ap (λ k. seen (JsMap.get k m)) (sym ((eq_iff key j).0 e)))
    | inr e ↦ rw e
  ];
}
