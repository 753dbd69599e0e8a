-- ===== src/Pagination/Cursor.antt =====
-- The cursor walk of src/core/pagination/CursorPaginationHandler.ts. What the round of the loop
-- with a given number gets for a token (the wait for the rate limiter and the fetch with its
-- retries) is a function of both, since a failed round is repeated with the same token.
pub mod Ends
pub mod Complete
use esi_ts.Prelude.{
  ℕ, zero, suc, ◌+◌, ◌-◌, ◌*◌, ◌/◌, ◌%◌, ◌^◌, ◌≤◌, ◌<◌, min, max, String, ◌≡◌, refl, sym, ap, ◌∙◌,
  ◌≢◌, ◌↔◌, ◌⊎◌, inl, inr, Bool, true, false, not, ◌&&◌, ◌||◌, Option, none, some, List, [], ◌∷◌,
  ◌++◌, map, arith, str_eq, eq_iff, ltb, leb, ◌==◌, if◌then◌else◌, ltb→lt, lt→ltb, leb→le, le→leb,
  ==_iff, leb-false, ltb-false, ltb_of_le, eq_of_ne, leb_of_lt, eq_or_lt, or_default, some_inj,
  Bool-cases, Option-cases, length, take, drop, any, length-append, All, All-append, All-imp,
}
use esi_ts.Errors.{Failure, is_esi_error, Result, ok, err}
use esi_ts.Pagination.{
  max_pages, IncompletePagesMode, PaginationStopReason, cursor_cap, fetch_failed, PaginationError,
  Outcome, resolved, incomplete, failed, Walk, incomplete_walk,
}

-- A page with its `after` token, the only one of the two cursors that the walk follows.
pub record CursorPage (A : Type 0) : Type 0 where
  pub items : List A
  pub after : Option String

-- `while (afterToken && …)`: an empty token is falsy.
unfoldable pub live : Option String → Option String
live none = none
live (some token) = if str_eq token "" then none else some token

-- The variables of the loop, and the number of rounds so far.
pub record CursorState (A : Type 0) : Type 0 where
  pub all_data : List A
  pub after_token : Option String
  pub page_count : ℕ
  pub consecutive_failures : ℕ
  pub rounds : ℕ

module _ {A : Type 0} (mode : IncompletePagesMode) (cap_pages : ℕ)
    (fetch : ℕ → String → Result (CursorPage A)) where
  -- The function `incomplete`: what three failures in a row reject with.
  give_up : Failure → CursorState A → Walk A
  give_up e st = record {
    outcome =
        if is_esi_error e
        then failed e
        else incomplete (record {
          reason = fetch_failed;
          reported_pages = none;
          fetched_pages = st.page_count;
          partial = st.all_data;
        });
    warnings = [];
    requests = st.rounds;
  }

  -- After the loop.
  wind_up : Option String → CursorState A → Walk A
  wind_up none st = record { outcome = resolved st.all_data; warnings = []; requests = st.rounds }
  wind_up (some token) st =
      incomplete_walk mode
        (record {
          reason = cursor_cap;
          reported_pages = none;
          fetched_pages = st.page_count;
          partial = st.all_data;
        })
        st.rounds

  abbrev pub next_page : CursorPage A → CursorState A → CursorState A
  next_page page st = record {
    all_data = st.all_data ++ page.items;
    after_token = page.after;
    page_count = st.page_count + 1;
    consecutive_failures = 0;
    rounds = st.rounds + 1;
  }

  -- An empty page ends the loop with no token left.
  abbrev pub last_page : CursorState A → CursorState A
  last_page st = record {
    all_data = st.all_data;
    after_token = none;
    page_count = st.page_count + 1;
    consecutive_failures = 0;
    rounds = st.rounds + 1;
  }

  abbrev pub next_failure : CursorState A → CursorState A
  next_failure st = record st {
    consecutive_failures = st.consecutive_failures + 1;
    rounds = st.rounds + 1;
  }

  abbrev is_empty : List A → Bool
  is_empty [] = true
  is_empty (x ∷ xs) = false

  -- The `while` loop on fuel; none means that the fuel ran out.
  unfoldable pub crawl : ℕ → CursorState A → Option (Walk A)
  unfolding give_up wind_up
  crawl zero st = none
  crawl (suc fuel) st = elim (live st.after_token) [
    | none ↦ some (wind_up none st)
    | some token ↦ elim (ltb st.page_count cap_pages) [
      | false ↦ some (wind_up (some token) st)
      | true ↦ elim (fetch st.rounds token) [
        | ok page ↦ elim (is_empty page.items) [
          | true ↦ some (wind_up none (last_page st))
          | false ↦ crawl fuel (next_page page st)
        ]
        | err e ↦ elim (leb 3 (st.consecutive_failures + 1)) [
          | true ↦ some (give_up e (next_failure st))
          | false ↦ crawl fuel (next_failure st)
        ]
      ]
    ]
  ]

  abbrev pub crawl_start : List A → Option String → CursorState A
  crawl_start first_page after = record {
    all_data = first_page;
    after_token = after;
    page_count = 1;
    consecutive_failures = 0;
    rounds = 0;
  }

  -- `fetchAll`.
  unfoldable pub fetch_all : List A → Option String → Option (Walk A)
  unfolding crawl
  fetch_all first_page after = crawl (3 * cap_pages + 1) (crawl_start first_page after)
