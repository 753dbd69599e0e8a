-- ===== src/Batch/Fetch.antt =====
-- What `batchFetch` promises in every order in which the promises settle.
use esi_ts.Prelude.{
  ℕ, ◌+◌, ◌≤◌, ◌<◌, String, ◌≡◌, refl, sym, ap, ◌∙◌, ◌≢◌, inl, inr, true, false, List, [], ◌∷◌,
  arith, ltb, ◌==◌, if◌then◌else◌, ltb→lt, ltb-false, Bool-cases, length, drop,
}
use esi_ts.Prelude.Lists.{length-drop}
use esi_ts.Errors.{Result, ok, err}
use esi_ts.Batch.{BatchRun, start, store, finish, settle, run}
use esi_ts.Batch.Valid.{
  fill-Filled, IsValid, start-IsValid, settled, length-settled, settle-IsValid, run-IsValid,
}

module _ {V : Type 0} (concurrency : ℕ) where
  -- Every event is for a promise that is pending when it comes.
  unfoldable pub AllPending : ℕ → List (ℕ × Result V) → BatchRun V → Type 0
  AllPending total [] st = Unit
  AllPending total ((n, r) ∷ events) st =
      (n < length st.flight) × AllPending total events (settle concurrency total n r st)

  completed-finish :
      (total : ℕ) (st : BatchRun V)
      → length st.flight ≤ concurrency
      → (finish concurrency total st).completed ≡ st.completed
  completed-finish total st h = elim (Bool-cases (st.completed == total)) [
    | inl all ↦ rw (all, if◌then◌else◌) refl
    | inr more ↦ rw (more, if◌then◌else◌) ((fill-Filled concurrency st.rest st h).completed)
  ]

  completed-store :
      (total n : ℕ) (r : Result V) (key : String) (later : List String) (st : BatchRun V)
      → length (settled concurrency n later st).flight ≤ concurrency
      → (finish concurrency total
          (store concurrency key r (settled concurrency n later st))).completed
        ≡ st.completed + 1
  completed-store total n (ok v) key later st h =
      completed-finish total (store concurrency key (ok v) (settled concurrency n later st)) h
  completed-store total n (err e) key later st h =
      completed-finish total (store concurrency key (err e) (settled concurrency n later st)) h

  completed-settle :
      (total n : ℕ) (r : Result V) (st : BatchRun V)
      → IsValid concurrency total st
      → n < length st.flight
      → (settle concurrency total n r st).completed ≡ st.completed + 1
  unfolding settle
  completed-settle total n r st valid h = by_place (drop n st.flight) refl
    where
      by_place :
          (l : List String)
          → drop n st.flight ≡ l
          → (elim l as (λ x. BatchRun V) [
            | [] ↦ st
            | key ∷ later ↦
                finish concurrency total (store concurrency key r (settled concurrency n later st))
          ]).completed
            ≡ st.completed + 1
      by_place [] e =
          let size : length (drop n st.flight) ≡ 0 = ap length e in
          absurd (omega (arith, length-drop n st.flight, size))
      by_place (key ∷ later) e =
          completed-store total n r key later st
            (omega (arith, length-settled concurrency n key later st e, valid.running))

  completed-run :
      (total : ℕ) (events : List (ℕ × Result V)) (st : BatchRun V)
      → IsValid concurrency total st
      → AllPending total events st
      → (run concurrency total events st).completed ≡ st.completed + length events
  unfolding run AllPending
  completed-run total [] st valid h = omega arith
  completed-run total ((n, r) ∷ events) st valid (p, h) =
      let rest = completed-run total events _ (settle-IsValid concurrency total n r st valid) h in
      omega (arith, rest, completed-settle total n r st valid p)

  some_pending :
      (total : ℕ) (st : BatchRun V)
      → IsValid concurrency total st
      → 1 ≤ concurrency
      → st.is_resolved ≡ false
      → 1 ≤ length st.flight
  some_pending total st h pos unresolved = elim (Bool-cases (ltb 0 (length st.flight))) [
    | inl nonempty ↦ omega (arith, ltb→lt _ _ nonempty)
    | inr empty ↦ elim (Bool-cases (ltb 0 (length st.rest))) [
      | inl more ↦ omega (arith, h.full (omega (arith, ltb→lt _ _ more)))
      | inr over ↦
          let all : st.completed ≡ total =
            omega (arith, h.counted, ltb-false _ _ empty, ltb-false _ _ over) in
          absurd (clash (sym (h.finished all) ∙ unresolved))
    ]
  ]
    where
      clash : true ≢ false
      clash p = cc

  -- In whatever order the promises settle, as long as the result is not resolved at least one of
  -- them is pending, if `concurrency` is at least 1, and no more than `concurrency`.
  pub batch_fetch_progress :
      (keys : List String) (events : List (ℕ × Result V))
      → 1 ≤ concurrency
      → (run concurrency (length keys) events (start concurrency keys)).is_resolved ≡ false
      → (1 ≤ length (run concurrency (length keys) events (start concurrency keys)).flight)
        × (length (run concurrency (length keys) events (start concurrency keys)).flight
            ≤ concurrency)
  batch_fetch_progress keys events allowed unresolved =
      let h = run-IsValid concurrency (length keys) events _ (start-IsValid concurrency keys) in
      (some_pending (length keys) _ h allowed unresolved, h.running)

  -- Once every key's promise has settled, in whatever order and with whatever outcomes, the batch
  -- is resolved.
  pub batch_fetch_resolves :
      (keys : List String) (events : List (ℕ × Result V))
      → AllPending (length keys) events (start concurrency keys)
      → length events ≡ length keys
      → (run concurrency (length keys) events (start concurrency keys)).is_resolved ≡ true
  unfolding start
  batch_fetch_resolves keys events pending all =
      let none_done : (start {V = V} concurrency keys).completed ≡ 0 =
        (fill-Filled concurrency keys _ (omega arith)).completed in
      (run-IsValid concurrency (length keys) events _ (start-IsValid concurrency keys)).finished (
        omega (
          arith,
          completed-run (length keys) events _ (start-IsValid concurrency keys) pending,
          none_done,
        ))
