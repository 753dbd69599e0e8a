-- ===== src/Batch/Accounts.antt =====
-- Where `batchFetch` keeps each key, from its start to its end.
use esi_ts.Prelude.{
  ℕ, String, ◌≡◌, refl, sym, ap, ◌∙◌, ◌≢◌, inl, inr, Bool, true, false, ◌||◌, List, [], ◌∷◌, ◌++◌,
  arith, str_eq, ltb, ◌==◌, if◌then◌else◌, ltb→lt, ltb-false, Bool-cases, length, take, drop, any,
}
use esi_ts.Prelude.Lists.{take-append-drop}
use esi_ts.Prelude.JsMap
use esi_ts.Errors.{Result, ok, err}
use esi_ts.Batch.{BatchRun, fill, start, store, finish, settle, run}
use esi_ts.Batch.Valid.{IsValid, start-IsValid, settled, run-IsValid}

-- The key is one of these.
abbrev pub is_key : String → List String → Bool
is_key k keys = any (λ key. str_eq key k) keys

is_key-append :
    (k : String) (xs ys : List String) → is_key k (xs ++ ys) ≡ (is_key k xs || is_key k ys)
is_key-append k [] ys = refl
is_key-append k (x ∷ xs) ys = ground (arith, is_key-append k xs ys)

-- The places of a key when it moves from the pending ones to the results or to the errors.
to_results :
    (r t l b h x f f' s : Bool)
    → f ≡ (t || (b || l))
    → f' ≡ (t || l)
    → s ≡ (if b then true else h)
    → r || (f || (h || x)) ≡ true
    → r || (f' || (s || x)) ≡ true
to_results r t l b h x f f' s e e' e'' p = ground (arith, e, e', e'', p)

to_errors :
    (r t l b h x f f' s : Bool)
    → f ≡ (t || (b || l))
    → f' ≡ (t || l)
    → s ≡ (if b then true else x)
    → r || (f || (h || x)) ≡ true
    → r || (f' || (h || s)) ≡ true
to_errors r t l b h x f f' s e e' e'' p = ground (arith, e, e', e'', p)

module _ {V : Type 0} (concurrency : ℕ) where
  -- The key has an entry among the results or the errors.
  abbrev pub has_outcome : String → BatchRun V → Bool
  has_outcome k st = JsMap.has k st.results || JsMap.has k st.errors

  -- The key is still to be started, is pending, or has its outcome.
  abbrev found : String → List String → BatchRun V → Bool
  found k rest st = is_key k rest || (is_key k st.flight || has_outcome k st)

  fill-found :
      (k : String) (keys : List String) (st : BatchRun V)
      → found k keys st ≡ true
      → found k (fill concurrency keys st).rest (fill concurrency keys st) ≡ true
  unfolding fill
  fill-found k [] st h = h
  fill-found k (key ∷ keys) st h = elim (Bool-cases (ltb (length st.flight) concurrency)) [
    | inl room ↦
        rw (room, fill)
          (fill-found k keys (record st { flight = st.flight ++ (key ∷ []) })
            (moved (str_eq key k) (is_key k keys) (is_key k st.flight) (has_outcome k st) _
              (is_key-append k st.flight (key ∷ [])) h))
    | inr no_room ↦ rw (no_room, fill) h
  ]
    where
      moved :
          (b r f o f' : Bool)
          → f' ≡ (f || (b || false))
          → (b || r) || (f || o) ≡ true
          → r || (f' || o) ≡ true
      moved b r f o f' e h' = ground (arith, e, h')

  finish-found :
      (k : String) (total : ℕ) (st : BatchRun V)
      → found k st.rest st ≡ true
      → found k (finish concurrency total st).rest (finish concurrency total st) ≡ true
  finish-found k total st h = elim (Bool-cases (st.completed == total)) [
    | inl all ↦ rw (all, if◌then◌else◌) h
    | inr more ↦ rw (more, if◌then◌else◌) (fill-found k st.rest st h)
  ]

  pending_keys :
      (k key : String) (n : ℕ) (later : List String) (st : BatchRun V)
      → drop n st.flight ≡ key ∷ later
      → is_key k st.flight ≡ (is_key k (take n st.flight) || (str_eq key k || is_key k later))
  pending_keys k key n later st e =
      ap (is_key k) (sym (take-append-drop n st.flight))
      ∙ is_key-append k (take n st.flight) (drop n st.flight)
      ∙ ap (λ l. is_key k (take n st.flight) || is_key k l) e

  -- The key that settles gets its outcome; every other stays where it is.
  store-found :
      (k key : String) (r : Result V) (n : ℕ) (later : List String) (st : BatchRun V)
      → drop n st.flight ≡ key ∷ later
      → found k st.rest st ≡ true
      → (let st' = store concurrency key r (settled concurrency n later st) in
          found k st'.rest st' ≡ true)
  store-found k key (ok v) n later st e h =
      to_results (is_key k st.rest) (is_key k (take n st.flight)) (is_key k later) (str_eq key k)
        (JsMap.has k st.results) (JsMap.has k st.errors) (is_key k st.flight) _ _
        (pending_keys k key n later st e) (is_key-append k (take n st.flight) later)
        (JsMap.has-set key k v st.results) h
  store-found k key (err x) n later st e h =
      to_errors (is_key k st.rest) (is_key k (take n st.flight)) (is_key k later) (str_eq key k)
        (JsMap.has k st.results) (JsMap.has k st.errors) (is_key k st.flight) _ _
        (pending_keys k key n later st e) (is_key-append k (take n st.flight) later)
        (JsMap.has-set key k x st.errors) h

  settle-found :
      (k : String) (total n : ℕ) (r : Result V) (st : BatchRun V)
      → found k st.rest st ≡ true
      → found k (settle concurrency total n r st).rest (settle concurrency total n r st) ≡ true
  unfolding settle
  settle-found k total n r st h = by_place (drop n st.flight) refl
    where
      by_place :
          (l : List String)
          → drop n st.flight ≡ l
          → (let st' : BatchRun V = elim l as (λ x. BatchRun V) [
            | [] ↦ st
            | key ∷ later ↦
                finish concurrency total (store concurrency key r (settled concurrency n later st))
          ] in
              found k st'.rest st' ≡ true)
      by_place [] e = h
      by_place (key ∷ later) e =
          finish-found k total (store concurrency key r (settled concurrency n later st))
            (store-found k key r n later st e h)

  run-found :
      (k : String) (total : ℕ) (events : List (ℕ × Result V)) (st : BatchRun V)
      → found k st.rest st ≡ true
      → found k (run concurrency total events st).rest (run concurrency total events st) ≡ true
  unfolding run
  run-found k total [] st h = h
  run-found k total ((n, r) ∷ events) st h =
      run-found k total events (settle concurrency total n r st) (settle-found k total n r st h)

  asked-found :
      (k : String) (keys : List String) (st : BatchRun V)
      → is_key k keys ≡ true
      → found k (fill concurrency keys st).rest (fill concurrency keys st) ≡ true
  asked-found k keys st h = fill-found k keys st (here (is_key k keys) _ h)
    where
      here : (a b : Bool) → a ≡ true → a || b ≡ true
      here a b e = ground (arith, e)

  all_done :
      (k : String) (total : ℕ) (st : BatchRun V)
      → IsValid concurrency total st
      → st.is_resolved ≡ true
      → found k st.rest st ≡ true
      → has_outcome k st ≡ true
  all_done k total st v resolved h = elim (Bool-cases (ltb st.completed total)) [
    | inl early ↦ absurd (clash (sym resolved ∙ v.unfinished (ltb→lt _ _ early)))
    | inr over ↦
        nowhere_else st.rest st.flight (omega (arith, v.counted, ltb-false _ _ over))
          (omega (arith, v.counted, ltb-false _ _ over)) h
  ]
    where
      clash : true ≢ false
      clash p = cc

      nowhere_else :
          (xs ys : List String)
          → length xs ≡ 0
          → length ys ≡ 0
          → is_key k xs || (is_key k ys || has_outcome k st) ≡ true
          → has_outcome k st ≡ true
      nowhere_else [] [] a b p = p
      nowhere_else (x ∷ xs) ys a b p = absurd (omega arith)
      nowhere_else [] (y ∷ ys) a b p = absurd (omega arith)

  -- When the batch is resolved, every key that was asked for has its entry in the results or in the
  -- errors, in whatever order and with whatever outcomes the promises settled.
  pub batch_fetch_accounts :
      (keys : List String) (events : List (ℕ × Result V)) (k : String)
      → is_key k keys ≡ true
      → (run concurrency (length keys) events (start concurrency keys)).is_resolved ≡ true
      → has_outcome k (run concurrency (length keys) events (start concurrency keys)) ≡ true
  unfolding start
  batch_fetch_accounts keys events k asked resolved =
      all_done k (length keys) _
        (run-IsValid concurrency (length keys) events _ (start-IsValid concurrency keys)) resolved
        (run-found k (length keys) events _ (asked-found k keys _ asked))
