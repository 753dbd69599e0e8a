-- ===== src/Concurrency/Results.antt =====
-- What the pool of `runWithConcurrency` returns, in whatever order its workers settle.
use esi_ts.Prelude.{
  ℕ, zero, suc, ◌+◌, ◌≤◌, ◌<◌, min, ◌≡◌, refl, sym, ap, ◌∙◌, ◌≢◌, ◌⊎◌, inl, inr, true, false,
  Option, none, some, List, [], ◌∷◌, ◌++◌, arith, ltb, ◌==◌, if◌then◌else◌, ltb→lt, lt→ltb, ==_iff,
  ltb-false, eq_or_lt, Bool-cases, Option-cases, length, length-append,
}
use mathlib.Core.Path.{subst}
use esi_ts.Prelude.Int.{ℤ, pos, negsuc}
use esi_ts.Concurrency.{
  resolve_limit, Pool, write, at, replace, spawn, advance, settle, run, run_with_concurrency,
  with_worker, empty_pool,
}
use esi_ts.Concurrency.Places.{
  is_in, is_in-append, length-replace-some, length-replace-none, or_right, or_left, is_in-replace,
  is_in-replace_new,
}

module _ {S : Type 0} (item_count : ℕ) (outcome : ℕ → S) where
  -- The index is in flight, or its outcome is written.
  abbrev Taken : Pool S → ℕ → Type 0
  Taken st j = (is_in j st.flight ≡ true) ⊎ (st.results j ≡ some (outcome j))

  -- The invariant of a pool whose `limit` workers have all been started.
  record IsValid (limit : ℕ) (st : Pool S) : Type 0 where
    counted : st.completed + length st.flight ≡ st.next_index
    below : st.next_index ≤ item_count
    busy : length st.flight ≤ limit
    full : st.next_index < item_count → length st.flight ≡ limit
    taken : (j : ℕ) → j < st.next_index → Taken st j

  next-Taken :
      (st : Pool S) (j : ℕ)
      → j < st.next_index + 1
      → ((k : ℕ) → k < st.next_index → Taken st k)
      → is_in j (st.flight ++ (st.next_index ∷ [])) ≡ true ⊎ (st.results j ≡ some (outcome j))
  next-Taken st j h taken = elim (eq_or_lt j st.next_index (omega arith)) [
    | inl e ↦ inl (
        is_in-append j st.flight st.next_index
        ∙ or_right (is_in j st.flight) (st.next_index == j) ((==_iff st.next_index j).1 (sym e)))
    | inr below ↦ elim (taken j below) [
      | inl there ↦ inl (
          is_in-append j st.flight st.next_index
          ∙ or_left (is_in j st.flight) (st.next_index == j) there)
      | inr written ↦ inr written
    ]
  ]

  -- With as many workers as were started so far.
  spawn-IsValid :
      (workers started : ℕ) (st : Pool S)
      → workers + started ≤ item_count
      → st.next_index ≡ started
      → IsValid started st
      → IsValid (workers + started) (spawn item_count outcome workers st)
  unfolding spawn
  spawn-IsValid zero started st room e v =
      let same : started ≡ 0 + started = omega arith in subst (λ n. IsValid n st) same v
  spawn-IsValid (suc workers) started st room e v =
      let some_left : st.next_index < item_count = omega (arith, room, e) in
      let same : workers + (started + 1) ≡ suc workers + started = omega arith in
      rw (lt→ltb st.next_index item_count some_left, spawn)
        (subst
          (λ n. IsValid n (spawn item_count outcome workers (with_worker item_count outcome st)))
          same
          (spawn-IsValid workers (started + 1) (with_worker item_count outcome st) (omega arith)
            (omega arith)
            (record {
              counted = omega (arith, v.counted, length-append st.flight (st.next_index ∷ []));
              below = omega arith;
              busy = omega (arith, v.busy, length-append st.flight (st.next_index ∷ []));
              full = λ h.
                  omega (arith, v.full some_left, length-append st.flight (st.next_index ∷ []));
              taken = λ j h. next-Taken st j h v.taken;
            })))

  write-kept :
      (i j : ℕ) (results : ℕ → Option S)
      → (i ≡ j) ⊎ (results j ≡ some (outcome j))
      → write i (outcome i) results j ≡ some (outcome j)
  unfolding write
  write-kept i j results h = elim (Bool-cases (i == j)) [
    | inl same ↦ rw (same, if◌then◌else◌) (ap (λ k. some (outcome k)) ((==_iff i j).0 same))
    | inr other ↦
        rw (other, if◌then◌else◌)
          (elim h [ inl e ↦ absurd (clash (sym ((==_iff i j).1 e) ∙ other)) | inr kept ↦ kept ])
  ]
    where
      clash : true ≢ false
      clash p = cc

  -- What was taken stays taken when another index takes the place of the one that settles.
  replace-Taken :
      (place i j : ℕ) (o : Option ℕ) (st : Pool S)
      → at place st.flight ≡ some i
      → Taken st j
      → is_in j (replace place o st.flight) ≡ true
        ⊎ (write i (outcome i) st.results j ≡ some (outcome j))
  replace-Taken place i j o st here (inr written) = inr (write-kept i j st.results (inr written))
  replace-Taken place i j o st here (inl there) =
      elim (is_in-replace place i j o st.flight here there) [
        | inl e ↦ inr (write-kept i j st.results (inl e))
        | inr still ↦ inl still
      ]

  advance-IsValid :
      (limit place i : ℕ) (st : Pool S)
      → at place st.flight ≡ some i
      → IsValid limit st
      → IsValid limit (advance item_count outcome place i st)
  advance-IsValid limit place i st here v = elim (Bool-cases (ltb st.next_index item_count)) [
    | inl more ↦
        let size = length-replace-some place i st.next_index st.flight here in
        rw (more, if◌then◌else◌)
          (record {
            counted = omega (arith, size, v.counted);
            below = omega (arith, ltb→lt _ _ more);
            busy = omega (arith, size, v.busy);
            full = λ h. size ∙ v.full (ltb→lt _ _ more);
            taken = λ j h. elim (eq_or_lt j st.next_index (omega arith)) [
              | inl e ↦ inl (
                  subst (λ k. is_in j (replace place (some k) st.flight) ≡ true) e
                    (is_in-replace_new place i j st.flight here))
              | inr below ↦ replace-Taken place i j (some st.next_index) st here (v.taken j below)
            ];
          })
    | inr over ↦
        let size = length-replace-none place i st.flight here in
        rw (over, if◌then◌else◌)
          (record {
            counted = omega (arith, size, v.counted);
            below = v.below;
            busy = omega (arith, size, v.busy);
            full = λ h. absurd (omega (arith, ltb-false _ _ over));
            taken = λ j h. replace-Taken place i j none st here (v.taken j h);
          })
  ]

  settle-IsValid :
      (limit place : ℕ) (st : Pool S)
      → IsValid limit st
      → IsValid limit (settle item_count outcome place st)
  unfolding settle
  settle-IsValid limit place st v = elim (Option-cases (at place st.flight)) [
    | inl nothing ↦ rw (nothing, settle) v
    | inr (i, here) ↦ rw (here, settle) (advance-IsValid limit place i st here v)
  ]

  run-IsValid :
      (limit : ℕ) (places : List ℕ) (st : Pool S)
      → IsValid limit st
      → IsValid limit (run item_count outcome places st)
  unfolding run
  run-IsValid limit [] st v = v
  run-IsValid limit (place ∷ places) st v =
      run-IsValid limit places _ (settle-IsValid limit place st v)

  all_written :
      (limit : ℕ) (st : Pool S)
      → 1 ≤ limit ⊎ (item_count ≡ 0)
      → IsValid limit st
      → st.flight ≡ []
      → (st.completed ≡ item_count) × ((i : ℕ) → i < item_count → st.results i ≡ some (outcome i))
  all_written limit st some_worker v idle =
      let none_left : length st.flight ≡ 0 = ap length idle in
      let last : st.next_index ≡ item_count = elim (Bool-cases (ltb st.next_index item_count)) [
        | inl more ↦
            absurd (stuck (omega (arith, v.full (ltb→lt _ _ more), none_left)) (ltb→lt _ _ more))
        | inr over ↦ omega (arith, ltb-false _ _ over, v.below)
      ] in
      (
        omega (arith, v.counted, none_left, last),
        λ i h. elim (v.taken i (omega (arith, last))) [
          | inl there ↦ absurd (nothing_in st.flight i idle there)
          | inr written ↦ written
        ],
      )
    where
      stuck : limit ≡ 0 → st.next_index < item_count → ⊥
      stuck e h = elim some_worker [
        | inl p ↦ absurd (omega (arith, e, p))
        | inr p ↦ absurd (omega (arith, p, h))
      ]

      nothing_in : (is : List ℕ) (i : ℕ) → is ≡ [] → is_in i is ≡ true → ⊥
      nothing_in [] i e h = cc
      nothing_in (x ∷ is) i e h = cc

  pool_limit :
      (concurrency : Option ℤ) → 1 ≤ min (resolve_limit concurrency) item_count ⊎ (item_count ≡ 0)
  unfolding resolve_limit
  pool_limit concurrency = elim (eq_or_lt 0 item_count (omega arith)) [
    | inl e ↦ inr (sym e)
    | inr some_items ↦ inl (omega (arith, resolve_limit-pos concurrency))
  ]
    where
      resolve_limit-pos : (o : Option ℤ) → 1 ≤ resolve_limit o
      resolve_limit-pos none = omega arith
      resolve_limit-pos (some (pos n)) = omega arith
      resolve_limit-pos (some (negsuc n)) = omega arith

  pool-IsValid :
      (concurrency : Option ℤ) (places : List ℕ)
      → IsValid
          (min (resolve_limit concurrency) item_count)
          (run_with_concurrency item_count outcome concurrency places)
  unfolding run_with_concurrency
  pool-IsValid concurrency places =
      let limit : ℕ = min (resolve_limit concurrency) item_count in
      let same : limit + 0 ≡ limit = omega arith in
      run-IsValid limit places (spawn item_count outcome limit (empty_pool item_count outcome)) (
        subst (λ n. IsValid n (spawn item_count outcome limit (empty_pool item_count outcome))) same
          (spawn-IsValid limit 0 (empty_pool item_count outcome) (omega arith) refl (record {
            counted = omega arith;
            below = omega arith;
            busy = omega arith;
            full = λ h. refl;
            taken = λ j h. absurd (omega arith);
          })))

  -- When no worker is left in flight, in whatever order they settled, every item has been worked on
  -- and the result at its index is its own outcome: the results are in input order, with no gap.
  pub pool_results :
      (concurrency : Option ℤ) (places : List ℕ)
      → (run_with_concurrency item_count outcome concurrency places).flight ≡ []
      → ((run_with_concurrency item_count outcome concurrency places).completed ≡ item_count)
        × ((i : ℕ)
            → i < item_count
            → (run_with_concurrency item_count outcome concurrency places).results i
              ≡ some (outcome i))
  pool_results concurrency places idle =
      all_written (min (resolve_limit concurrency) item_count) _ (pool_limit concurrency)
        (pool-IsValid concurrency places) idle

  -- As long as an item is not done, some worker is in flight, and never more of them than the
  -- requested number allows, in whatever order they settle and whatever number is requested.
  pub pool_progress :
      (concurrency : Option ℤ) (places : List ℕ)
      → (run_with_concurrency item_count outcome concurrency places).completed < item_count
      → (1 ≤ length (run_with_concurrency item_count outcome concurrency places).flight)
        × (length (run_with_concurrency item_count outcome concurrency places).flight
            ≤ resolve_limit concurrency)
  pool_progress concurrency places unfinished =
      let v = pool-IsValid concurrency places in
      let st = run_with_concurrency item_count outcome concurrency places in
      (
        elim (Bool-cases (ltb st.next_index item_count)) [
          | inl more ↦ elim (pool_limit concurrency) [
            | inl p ↦ omega (arith, v.full (ltb→lt _ _ more), p)
            | inr empty ↦ absurd (omega (arith, empty))
          ]
          | inr over ↦ omega (arith, v.counted, ltb-false _ _ over)
        ],
        omega (arith, v.busy),
      )
