-- ===== src/Pagination/Offset.antt =====
-- The walk over pages 2 to N of an offset-paginated resource,
-- src/core/pagination/PaginationHandler.ts. A page is the outcome of its round of the loop: the
-- wait for the rate limiter and the fetch with its retries.
pub mod Complete
pub mod Bounded
use esi_ts.Prelude.{
  ℕ, zero, suc, ◌+◌, ◌-◌, ◌*◌, ◌/◌, ◌%◌, ◌^◌, ◌≤◌, ◌<◌, min, max, String, ◌≡◌, refl, sym, ap, ◌∙◌,
  ◌≢◌, ◌↔◌, ◌⊎◌, inl, inr, Bool, true, false, not, ◌&&◌, ◌||◌, Option, none, some, List, [], ◌∷◌,
  ◌++◌, map, arith, str_eq, eq_iff, ltb, leb, ◌==◌, if◌then◌else◌, ltb→lt, lt→ltb, leb→le, le→leb,
  ==_iff, leb-false, ltb-false, ltb_of_le, eq_of_ne, leb_of_lt, eq_or_lt, or_default, Bool-cases,
  Option-cases, length, take, drop, any, length-append, All, All-append, All-imp,
}
use esi_ts.Errors.{Failure, is_esi_error, Result, ok, err}
use esi_ts.Pagination.{
  max_pages, IncompletePagesMode, throwing, truncating, PaginationStopReason, page_cap, empty_page,
  fetch_failed, PaginationError, Outcome, resolved, incomplete, failed, Walk, incomplete_walk,
}

module _ {A : Type 0} (mode : IncompletePagesMode) (total : ℕ) (fetch : ℕ → Result (List A)) where
  abbrev details : PaginationStopReason → ℕ → List A → PaginationError A
  details reason fetched partial = record {
    reason = reason;
    reported_pages = some total;
    fetched_pages = fetched;
    partial = partial;
  }

  -- `pageFailure`.
  page_failure : ℕ → Failure → List A → Outcome A
  page_failure page e all_data =
      if is_esi_error e then failed e else incomplete (details fetch_failed (page - 1) all_data)

  -- After the loop.
  finish : ℕ → List A → Walk A
  finish last_page all_data =
      if ltb last_page total
      then incomplete_walk mode (details page_cap (max last_page 1) all_data) (last_page - 1)
      else record { outcome = resolved all_data; warnings = []; requests = last_page - 1 }

  -- The loop from `page` on, with the number of pages that are left.
  walk_pages : ℕ → ℕ → ℕ → List A → Walk A
  walk_pages last_page zero page all_data = finish last_page all_data
  walk_pages last_page (suc left) page all_data = elim (fetch page) [
    | err e ↦ record { outcome = page_failure page e all_data; warnings = []; requests = page - 1 }
    | ok page_data ↦ elim page_data [
      | [] ↦ incomplete_walk mode (details empty_page page all_data) (page - 1)
      | x ∷ xs ↦ walk_pages last_page left (page + 1) (all_data ++ (x ∷ xs))
    ]
  ]

  abbrev page_limit : Option ℕ → ℕ
  page_limit option = min (or_default option max_pages) max_pages

  abbrev is_throwing : IncompletePagesMode → Bool
  is_throwing throwing = true
  is_throwing truncating = false

  -- `fetchRemainingPages`, with the option `maxPages`.
  unfoldable pub fetch_remaining_pages : Option ℕ → List A → Walk A
  unfolding walk_pages finish page_failure
  fetch_remaining_pages option first_page =
      if ltb (page_limit option) total && is_throwing mode
      then record {
        outcome = incomplete (details page_cap 1 first_page);
        warnings = [];
        requests = 0;
      }
      else walk_pages (min total (page_limit option)) (min total (page_limit option) - 1) 2
          first_page
