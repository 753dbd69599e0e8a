-- ===== src/Concurrency.antt =====
-- The pool of src/core/util/concurrency.ts. The worker's promises settle in any order: an event is
-- the place of the one that settles among those in flight. The progress callback, whose exceptions
-- are discarded, is left out.
pub mod Places
pub mod Results
use esi_ts.Prelude.{
  ℕ, zero, suc, ◌+◌, ◌-◌, ◌*◌, ◌/◌, ◌%◌, ◌^◌, ◌≤◌, ◌<◌, min, max, String, ◌≡◌, refl, sym, ap, ◌∙◌,
  ◌≢◌, ◌↔◌, ◌⊎◌, inl, inr, Bool, true, false, not, ◌&&◌, ◌||◌, Option, none, some, List, [], ◌∷◌,
  ◌++◌, map, arith, str_eq, eq_iff, ltb, leb, ◌==◌, if◌then◌else◌, ltb→lt, lt→ltb, leb→le, le→leb,
  ==_iff, leb-false, ltb-false, ltb_of_le, eq_of_ne, leb_of_lt, eq_or_lt, or_default, some_inj,
  Bool-cases, Option-cases, length, take, drop, any, length-append, All, All-append, All-imp,
}
use esi_ts.Prelude.Int.{ℤ, pos, negsuc}

abbrev default_concurrency : ℕ
default_concurrency = 5

-- `resolveLimit`, of the rounded-down number; none is no number, or none that is finite.
unfoldable pub resolve_limit : Option ℤ → ℕ
resolve_limit none = default_concurrency
resolve_limit (some (pos n)) = max 1 n
resolve_limit (some (negsuc n)) = 1

-- The variables of `runWithConcurrency`: `results` is the array by its index, and `flight` holds
-- the index of each call of `runOne` that awaits its worker.
pub record Pool (S : Type 0) : Type 0 where
  pub results : ℕ → Option S
  pub next_index : ℕ
  pub completed : ℕ
  pub flight : List ℕ

unfoldable pub write : {S : Type 0} → ℕ → S → (ℕ → Option S) → ℕ → Option S
write i v results j = if i == j then some v else results j

-- The index at a place, and what is left when another takes its place, or none.
unfoldable pub at : ℕ → List ℕ → Option ℕ
at place [] = none
at zero (i ∷ is) = some i
at (suc place) (i ∷ is) = at place is

unfoldable pub replace : ℕ → Option ℕ → List ℕ → List ℕ
replace place o [] = []
replace zero none (i ∷ is) = is
replace zero (some j) (i ∷ is) = j ∷ is
replace (suc place) o (i ∷ is) = i ∷ replace place o is

module _ {S : Type 0} (item_count : ℕ) (outcome : ℕ → S) where
  -- The index that a worker takes next, if any is left.
  abbrev pub take_index : Pool S → Option ℕ
  take_index st = if ltb st.next_index item_count then some st.next_index else none

  abbrev pub with_worker : Pool S → Pool S
  with_worker st = record st {
    next_index = st.next_index + 1;
    flight = st.flight ++ (st.next_index ∷ []);
  }

  -- A new call of `runOne`, up to its first `await`.
  unfoldable pub spawn : ℕ → Pool S → Pool S
  spawn zero st = st
  spawn (suc workers) st = elim (ltb st.next_index item_count) [
    | true ↦ spawn workers (with_worker st)
    | false ↦ spawn workers st
  ]

  -- The worker for index `i` settles, and its `runOne` goes on to the next index, if any.
  abbrev pub advance : ℕ → ℕ → Pool S → Pool S
  advance place i st = record {
    results = write i (outcome i) st.results;
    next_index = if ltb st.next_index item_count then st.next_index + 1 else st.next_index;
    completed = st.completed + 1;
    flight = replace place (take_index st) st.flight;
  }

  unfoldable pub settle : ℕ → Pool S → Pool S
  settle place st = elim (at place st.flight) [ none ↦ st | some i ↦ advance place i st ]

  unfoldable pub run : List ℕ → Pool S → Pool S
  run [] st = st
  run (place ∷ places) st = run places (settle place st)

  abbrev pub empty_pool : Pool S
  empty_pool = record { results = λ i. none; next_index = 0; completed = 0; flight = [] }

  -- `runWithConcurrency`; the promise of all workers resolves when none is in flight.
  unfoldable pub run_with_concurrency : Option ℤ → List ℕ → Pool S
  run_with_concurrency concurrency places =
      run places (spawn (min (resolve_limit concurrency) item_count) empty_pool)
