-- ===== src/Pagination/Waves.antt =====
-- `fetchAllPages` of src/core/pagination/AsyncPaginationIterator.ts, which requests the pages in
-- waves. A page is its fetched and validated items. Which
-- failure rejects a wave where several pages fail is the scheduler's choice, a parameter.
pub mod Agree
use esi_ts.Prelude.{
  ℕ, zero, suc, ◌+◌, ◌-◌, ◌*◌, ◌/◌, ◌%◌, ◌^◌, ◌≤◌, ◌<◌, min, max, String, ◌≡◌, refl, sym, ap, ◌∙◌,
  ◌≢◌, ◌↔◌, ◌⊎◌, inl, inr, Bool, true, false, not, ◌&&◌, ◌||◌, Option, none, some, List, [], ◌∷◌,
  ◌++◌, map, arith, str_eq, eq_iff, ltb, leb, ◌==◌, if◌then◌else◌, ltb→lt, lt→ltb, leb→le, le→leb,
  ==_iff, leb-false, ltb-false, ltb_of_le, eq_of_ne, leb_of_lt, eq_or_lt, or_default, some_inj,
  Bool-cases, Option-cases, length, take, drop, any, length-append, All, All-append, All-imp,
}
use esi_ts.Prelude.Int.{ℤ, pos, negsuc}
use esi_ts.Errors.{Failure, Result, ok, err}
use esi_ts.Pagination.{
  max_pages, IncompletePagesMode, throwing, truncating, PaginationStopReason, page_cap, empty_page,
  PaginationError, Outcome, resolved, incomplete, failed, Walk, bounded_page_count,
}

-- `PageCount`: `reported` is what page 1's X-Pages said, none for NaN.
pub record PageCount : Type 0 where
  pub reported : Option ℤ
  pub total_pages : ℕ

-- What `parseInt` reads is never infinite. A negative count walks no page, so it is never reported.
abbrev pub reported_or_walked : PageCount → ℕ
reported_or_walked count = elim count.reported [
  | none ↦ count.total_pages
  | some n ↦ elim n [ pos m ↦ m | negsuc m ↦ count.total_pages ]
]

-- `count.reported > pages`.
abbrev pub reports_above : ℕ → Option ℤ → Bool
reports_above pages none = false
reports_above pages (some (pos n)) = ltb pages n
reports_above pages (some (negsuc n)) = false

-- `Array.from({ length: totalPages - 1 }, (_, i) => i + 2)`, from a page on.
unfoldable pub pages_from : ℕ → ℕ → List ℕ
pages_from zero page = []
pages_from (suc left) page = page ∷ pages_from left (page + 1)

-- The variables `result` and `emptySeen`, and the warnings so far.
pub record Collecting (A : Type 0) : Type 0 where
  pub result : List A
  pub empty_seen : Bool
  pub warnings : List PaginationStopReason

pub data Step (A : Type 0) : Type 0 where
  go : Collecting A → Step A
  stopped : PaginationError A → Collecting A → Step A

abbrev pub is_blank : {A : Type 0} → List A → Bool
is_blank [] = true
is_blank (x ∷ xs) = false

-- The items of pages that are all fetched, in page order.
unfoldable pub gather : {A : Type 0} → (ℕ → Result (List A)) → List ℕ → Option (List (ℕ × List A))
gather fetch [] = some []
gather fetch (page ∷ pages) = elim (fetch page) [
  | err e ↦ none
  | ok page_data ↦ elim (gather fetch pages) [
    | none ↦ none
    | some rest ↦ some ((page, page_data) ∷ rest)
  ]
]

module _ {A : Type 0} (mode : IncompletePagesMode) (count : PageCount) where
  -- The details that `stopShort` reports.
  abbrev pub short_walk : PaginationStopReason → ℕ → List A → PaginationError A
  short_walk reason fetched partial = record {
    reason = reason;
    reported_pages = some (reported_or_walked count);
    fetched_pages = fetched;
    partial = partial;
  }

  -- `stopShort`: throws, or warns and goes on.
  stop_short : IncompletePagesMode → PaginationStopReason → ℕ → Collecting A → Step A
  stop_short throwing reason fetched st = stopped (short_walk reason fetched st.result) st
  stop_short truncating reason fetched st =
      go (record st { warnings = st.warnings ++ (reason ∷ []) })

  abbrev pub push : List A → Step A → Step A
  push page_data (go st) = go (record st { result = st.result ++ page_data })
  push page_data (stopped e st) = stopped e st

  -- The body of the loop over the pages of a wave.
  unfoldable pub take_page : ℕ → List A → Collecting A → Step A
  unfolding stop_short
  take_page page page_data st = push page_data (
      if is_blank page_data && not st.empty_seen
      then stop_short mode empty_page page (record st { empty_seen = true })
      else go st)

  unfoldable pub take_pages : List (ℕ × List A) → Collecting A → Step A
  take_pages [] st = go st
  take_pages ((page, page_data) ∷ pages) st = elim (take_page page page_data st) [
    | stopped e st' ↦ stopped e st'
    | go st' ↦ take_pages pages st'
  ]

  abbrev pub close : ℕ → Step A → Walk A
  close requests (go st) = record {
    outcome = resolved st.result;
    warnings = st.warnings;
    requests = requests;
  }
  close requests (stopped e st) = record {
    outcome = incomplete e;
    warnings = st.warnings;
    requests = requests;
  }

  -- After the loop over the waves.
  unfoldable pub at_end : Step A → Step A
  unfolding stop_short
  at_end (stopped e st) = stopped e st
  at_end (go st) =
      if reports_above count.total_pages count.reported
      then stop_short mode page_cap count.total_pages st
      else go st

  unfoldable pub finish : ℕ → Step A → Walk A
  finish requests s = close requests (at_end s)

  module _ (fetch : ℕ → Result (List A)) (rejection : List ℕ → Failure) (concurrency : ℕ) where
    -- The loop over the waves on fuel, with the pages that remain and the requests so far.
    unfoldable pub waves : ℕ → List ℕ → ℕ → Collecting A → Option (Walk A)
    waves zero remaining requests st = none
    waves (suc fuel) [] requests st = some (finish requests (go st))
    waves (suc fuel) (page ∷ pages) requests st =
        let batch : List ℕ = take concurrency (page ∷ pages) in
        elim (gather fetch batch) [
          | none ↦ some (record {
            outcome = failed (rejection batch);
            warnings = st.warnings;
            requests = requests + length batch;
          })
          | some fetched ↦ elim (take_pages fetched st) [
            | stopped e st' ↦ some (finish (requests + length batch) (stopped e st'))
            | go st' ↦ waves fuel (drop concurrency (page ∷ pages)) (requests + length batch) st'
          ]
        ]

abbrev pub counted : Option ℤ → PageCount
counted reported = record { reported = reported; total_pages = bounded_page_count reported }

abbrev pub collecting : {A : Type 0} → List A → Collecting A
collecting first_page = record { result = first_page; empty_seen = false; warnings = [] }

abbrev pub is_throwing : IncompletePagesMode → Bool
is_throwing throwing = true
is_throwing truncating = false

-- `fetchAllPages` once page 1 is fetched, with `pageCount`, which may reject before any wave.
unfoldable pub fetch_all_pages :
    {A : Type 0}
    → IncompletePagesMode
    → (ℕ → Result (List A))
    → (List ℕ → Failure)
    → ℕ
    → Option ℤ
    → List A
    → Option (Walk A)
fetch_all_pages mode fetch rejection concurrency reported first_page =
    let count = counted reported in
    let remaining = pages_from (count.total_pages - 1) 2 in
    if reports_above max_pages reported && is_throwing mode
    then some (record {
      outcome = incomplete (short_walk mode count page_cap 1 first_page);
      warnings = [];
      requests = 0;
    })
    else waves mode count fetch rejection concurrency (length remaining + 1) remaining 0
        (collecting first_page)
