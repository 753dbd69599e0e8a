-- ===== src/Pagination.antt =====
-- What the pagination paths of src/core/pagination share: the page limit (pageLimit.ts), the
-- handling of a walk that cannot prove that it holds the whole collection (incompleteWalk.ts), and
-- the error that such a walk rejects with (EsiPaginationError of util/error.ts).
pub mod Offset
pub mod Cursor
pub mod Waves
use esi_ts.Prelude.{
  ℕ, zero, suc, ◌+◌, ◌-◌, ◌*◌, ◌/◌, ◌%◌, ◌^◌, ◌≤◌, ◌<◌, min, max, String, ◌≡◌, refl, sym, ap, ◌∙◌,
  ◌≢◌, ◌↔◌, ◌⊎◌, inl, inr, Bool, true, false, not, ◌&&◌, ◌||◌, Option, none, some, List, [], ◌∷◌,
  ◌++◌, map, arith, str_eq, eq_iff, ltb, leb, ◌==◌, if◌then◌else◌, ltb→lt, lt→ltb, leb→le, le→leb,
  ==_iff, leb-false, ltb-false, ltb_of_le, eq_of_ne, leb_of_lt, eq_or_lt, or_default, Bool-cases,
  Option-cases, length, take, drop, any, length-append, All, All-append, All-imp,
}
use esi_ts.Prelude.Int.{ℤ, pos, negsuc}
use esi_ts.Errors.{Failure}

abbrev pub max_pages : ℕ
max_pages = 1000

-- `IncompletePagesMode`; 'throw' and 'truncate'.
pub data IncompletePagesMode : Type 0 where
  throwing truncating : IncompletePagesMode

pub data PaginationStopReason : Type 0 where
  page_cap empty_page cursor_cap fetch_failed : PaginationStopReason

-- `EsiPaginationError`; `reported_pages` is none on a cursor walk.
pub record PaginationError (A : Type 0) : Type 0 where
  pub reason : PaginationStopReason
  pub reported_pages : Option ℕ
  pub fetched_pages : ℕ
  pub partial : List A

-- How a walk ends: with its items, with a pagination error, or with another error as it was thrown.
pub data Outcome (A : Type 0) : Type 0 where
  resolved : List A → Outcome A
  incomplete : PaginationError A → Outcome A
  failed : Failure → Outcome A

-- A finished walk, with the warnings that were logged and the number of pages that were requested.
pub record Walk (A : Type 0) : Type 0 where
  pub outcome : Outcome A
  pub warnings : List PaginationStopReason
  pub requests : ℕ

-- `incompleteWalk`, where nothing follows it but the return of the partial result.
unfoldable pub incomplete_walk : {A : Type 0} → IncompletePagesMode → PaginationError A → ℕ → Walk A
incomplete_walk throwing e requests = record {
  outcome = incomplete e;
  warnings = [];
  requests = requests;
}
incomplete_walk truncating e requests = record {
  outcome = resolved e.partial;
  warnings = e.reason ∷ [];
  requests = requests;
}

-- `boundedPageCount`; none is NaN.
unfoldable pub bounded_page_count : Option ℤ → ℕ
bounded_page_count none = 1
bounded_page_count (some (negsuc n)) = 1
bounded_page_count (some (pos n)) = if ltb n 1 then 1 else min n max_pages

-- The number of pages to request lies between 1 and the limit, and is the reported one where that
-- lies there.
pub bounded_page_count_bounds :
    (reported : Option ℤ)
    → (1 ≤ bounded_page_count reported)
      × (bounded_page_count reported ≤ max_pages)
      × ((n : ℕ)
          → reported ≡ some (pos n)
          → 1 ≤ n
          → n ≤ max_pages
          → bounded_page_count reported ≡ n)
unfolding bounded_page_count
bounded_page_count_bounds none = (omega arith, omega arith, λ n e h k. cc)
bounded_page_count_bounds (some (negsuc m)) = (omega arith, omega arith, λ n e h k. cc)
bounded_page_count_bounds (some (pos m)) = (ground arith, ground arith, λ n e h k. ground arith)
