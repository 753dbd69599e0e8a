-- ===== src/Batch/Valid.antt =====
-- The invariant of a run of `batchFetch`, kept by every promise that settles.
use esi_ts.Prelude.{
  ℕ, suc, ◌+◌, ◌≤◌, ◌<◌, String, ◌≡◌, refl, sym, ap, ◌∙◌, ◌≢◌, inl, inr, true, false, List, [], ◌∷◌,
  ◌++◌, arith, ltb, ◌==◌, if◌then◌else◌, ltb→lt, ==_iff, ltb-false, eq_of_ne, Bool-cases, length,
  take, drop, length-append,
}
use esi_ts.Prelude.Lists.{length-take, length-drop}
use esi_ts.Errors.{Result, ok, err}
use esi_ts.Batch.{BatchRun, fill, start, store, finish, settle, run}

module _ {V : Type 0} (concurrency : ℕ) where
  -- What the loop of `next` leaves of a run.
  pub record Filled (keys : List String) (old new : BatchRun V) : Type 0 where
    pub running : length new.flight ≤ concurrency
    pub moved : length new.flight + length new.rest ≡ length old.flight + length keys
    pub full : (1 ≤ length new.rest → concurrency ≤ length new.flight)
    pub completed : new.completed ≡ old.completed
    pub resolved : new.is_resolved ≡ old.is_resolved

  pub fill-Filled :
      (keys : List String) (st : BatchRun V)
      → length st.flight ≤ concurrency
      → Filled keys st (fill concurrency keys st)
  unfolding fill
  fill-Filled [] st h = record {
    running = h;
    moved = omega arith;
    full = λ k. absurd (omega arith);
    completed = refl;
    resolved = refl;
  }
  fill-Filled (key ∷ keys) st h = elim (Bool-cases (ltb (length st.flight) concurrency)) [
    | inl room ↦
        rw (room, fill)
          (let f =
              fill-Filled keys (record st { flight = st.flight ++ (key ∷ []) })
                (omega (arith, ltb→lt _ _ room, length-append st.flight (key ∷ []))) in
            record {
              running = f.running;
              moved = omega (arith, f.moved, length-append st.flight (key ∷ []));
              full = f.full;
              completed = f.completed;
              resolved = f.resolved;
            })
    | inr no_room ↦
        rw (no_room, fill)
          (record {
            running = h;
            moved = refl;
            full = λ k. ltb-false _ _ no_room;
            completed = refl;
            resolved = refl;
          })
  ]

  -- The invariant of a run over `total` keys.
  pub record IsValid (total : ℕ) (st : BatchRun V) : Type 0 where
    pub running : length st.flight ≤ concurrency
    pub counted : st.completed + length st.flight + length st.rest ≡ total
    pub full : 1 ≤ length st.rest → concurrency ≤ length st.flight
    pub finished : st.completed ≡ total → st.is_resolved ≡ true
    pub unfinished : st.completed < total → st.is_resolved ≡ false

  Filled-IsValid :
      (total : ℕ) (old new : BatchRun V)
      → Filled old.rest old new
      → old.completed + length old.flight + length old.rest ≡ total
      → (old.completed ≡ total → old.is_resolved ≡ true)
      → (old.completed < total → old.is_resolved ≡ false)
      → IsValid total new
  Filled-IsValid total old new f counted finished unfinished = record {
    running = f.running;
    counted = omega (arith, f.moved, f.completed);
    full = f.full;
    finished = λ h. f.resolved ∙ finished (omega (arith, f.completed));
    unfinished = λ h. f.resolved ∙ unfinished (omega (arith, f.completed));
  }

  pub start-IsValid : (keys : List String) → IsValid (length keys) (start concurrency keys)
  unfolding start
  start-IsValid keys =
      let st : BatchRun V = record {
        rest = keys;
        flight = [];
        completed = 0;
        results = [];
        errors = [];
        is_resolved = length keys == 0;
      } in
      Filled-IsValid (length keys) st (fill concurrency keys st) (fill-Filled keys st (omega arith))
        (omega arith) (λ h. (==_iff (length keys) 0).1 (omega arith))
        (λ h. eq_of_ne (length keys) 0 (λ e. absurd (omega arith)))

  finish-IsValid :
      (total : ℕ) (st : BatchRun V)
      → length st.flight ≤ concurrency
      → st.completed + length st.flight + length st.rest ≡ total
      → st.is_resolved ≡ false
      → IsValid total (finish concurrency total st)
  finish-IsValid total st running counted pending = elim (Bool-cases (st.completed == total)) [
    | inl all ↦
        rw (all, if◌then◌else◌)
          (let over : st.completed ≡ total = (==_iff _ _).0 all in
            record {
              running = running;
              counted = counted;
              full = λ h. absurd (omega arith);
              finished = λ h. refl;
              unfinished = λ h. absurd (omega arith);
            })
    | inr more ↦
        rw (more, if◌then◌else◌)
          (Filled-IsValid total st (fill concurrency st.rest st) (fill-Filled st.rest st running)
            counted (λ h. absurd (bool_clash (sym ((==_iff st.completed total).1 h) ∙ more)))
            (λ h. pending))
  ]
    where
      bool_clash : true ≢ false
      bool_clash p = cc

  -- A run whose promise for `key` has settled.
  abbrev pub settled : ℕ → List String → BatchRun V → BatchRun V
  settled n later st = record st {
    flight = take n st.flight ++ later;
    completed = st.completed + 1;
  }

  pub length-settled :
      (n : ℕ) (key : String) (later : List String) (st : BatchRun V)
      → drop n st.flight ≡ key ∷ later
      → length (settled n later st).flight + 1 ≡ length st.flight
  length-settled n key later st e =
      let size : length (drop n st.flight) ≡ suc (length later) = ap length e in
      omega (
        arith,
        length-append (take n st.flight) later,
        length-take n st.flight,
        length-drop n st.flight,
        size,
      )

  settle-finish :
      (total n : ℕ) (r : Result V) (key : String) (later : List String) (st : BatchRun V)
      → drop n st.flight ≡ key ∷ later
      → IsValid total st
      → IsValid total (finish concurrency total (store concurrency key r (settled n later st)))
  settle-finish total n (ok v) key later st e h =
      finish-IsValid total (store concurrency key (ok v) (settled n later st))
        (omega (arith, length-settled n key later st e, h.running))
        (omega (arith, length-settled n key later st e, h.counted))
        (h.unfinished (omega (arith, length-settled n key later st e, h.counted)))
  settle-finish total n (err x) key later st e h =
      finish-IsValid total (store concurrency key (err x) (settled n later st))
        (omega (arith, length-settled n key later st e, h.running))
        (omega (arith, length-settled n key later st e, h.counted))
        (h.unfinished (omega (arith, length-settled n key later st e, h.counted)))

  pub settle-IsValid :
      (total n : ℕ) (r : Result V) (st : BatchRun V)
      → IsValid total st
      → IsValid total (settle concurrency total n r st)
  unfolding settle
  settle-IsValid total n r st h = by_place (drop n st.flight) refl
    where
      by_place :
          (l : List String)
          → drop n st.flight ≡ l
          → IsValid total (elim l [
            | [] ↦ st
            | key ∷ later ↦ finish concurrency total (store concurrency key r (settled n later st))
          ])
      by_place [] e = h
      by_place (key ∷ later) e = settle-finish total n r key later st e h

  pub run-IsValid :
      (total : ℕ) (events : List (ℕ × Result V)) (st : BatchRun V)
      → IsValid total st
      → IsValid total (run concurrency total events st)
  unfolding run
  run-IsValid total [] st h = h
  run-IsValid total ((n, r) ∷ events) st h =
      run-IsValid total events _ (settle-IsValid total n r st h)
