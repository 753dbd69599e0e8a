-- ===== src/Pagination/Offset/Bounded.antt =====
-- How many pages an offset walk requests.
use esi_ts.Prelude.{
  ℕ, zero, suc, ◌+◌, ◌-◌, ◌≤◌, min, max, ◌≡◌, refl, inl, inr, ◌&&◌, Option, List, ◌∷◌, ◌++◌, arith,
  ltb, or_default, Bool-cases,
}
use esi_ts.Errors.{Result, page_cases}
use esi_ts.Pagination.{
  max_pages, IncompletePagesMode, throwing, truncating, page_cap, empty_page, PaginationError,
  incomplete_walk,
}
use esi_ts.Pagination.Offset.{details, finish, walk_pages, is_throwing, fetch_remaining_pages}

module _ {A : Type 0} (mode : IncompletePagesMode) (total : ℕ) (fetch : ℕ → Result (List A)) where
  incomplete_walk-requests :
      (e : PaginationError A) (n : ℕ) → (incomplete_walk mode e n).requests ≡ n
  unfolding incomplete_walk
  incomplete_walk-requests e n = by_mode mode
    where
      by_mode : (m : IncompletePagesMode) → (incomplete_walk m e n).requests ≡ n
      by_mode throwing = refl
      by_mode truncating = refl

  finish-requests :
      (last : ℕ) (acc : List A) → (finish mode total fetch last acc).requests ≤ last - 1
  unfolding finish
  finish-requests last acc = elim (Bool-cases (ltb last total)) [
    | inl short ↦ rw short (
        omega (
          arith,
          incomplete_walk-requests (details mode total fetch page_cap (max last 1) acc) (last - 1),
        ))
    | inr enough ↦ rw enough (omega arith)
  ]

  walk_pages-requests :
      (last left page : ℕ) (acc : List A)
      → page + left ≤ last + 1
      → (walk_pages mode total fetch last left page acc).requests ≤ last - 1
  unfolding walk_pages
  walk_pages-requests last zero page acc h = finish-requests last acc
  walk_pages-requests last (suc left) page acc h = elim (page_cases (fetch page)) [
    | inl (e, bad) ↦ rw (bad, walk_pages) (omega arith)
    | inr good ↦ elim good [
      | inl blank ↦
          rw (blank, walk_pages)
            (omega (
              arith,
              incomplete_walk-requests (details mode total fetch empty_page page acc) (page - 1),
            ))
      | inr (x, xs, got) ↦
          rw (got, walk_pages)
            (walk_pages-requests last left (page + 1) (acc ++ (x ∷ xs)) (omega arith))
    ]
  ]

-- Whatever the response reports, and whatever the pages hold, no more than 999 further pages are
-- requested.
pub requests_bounded :
    {A : Type 0} (mode : IncompletePagesMode) (total : ℕ) (fetch : ℕ → Result (List A))
    (option : Option ℕ) (first_page : List A)
    → (fetch_remaining_pages mode total fetch option first_page).requests ≤ max_pages - 1
unfolding fetch_remaining_pages
requests_bounded mode total fetch option first_page =
    elim (Bool-cases (
      ltb (min (or_default option max_pages) max_pages) total
      && is_throwing mode total fetch mode)) [
        | inl refused ↦ rw refused (omega arith)
        | inr walked ↦
            rw walked
              (requests_of (min total (min (or_default option max_pages) max_pages)) (omega arith))
      ]
  where
    requests_of :
        (n : ℕ)
        → n ≤ max_pages
        → (walk_pages mode total fetch n (n - 1) 2 first_page).requests ≤ max_pages - 1
    requests_of zero h = omega (arith, finish-requests mode total fetch 0 first_page)
    requests_of (suc n) h =
        omega (
          arith,
          walk_pages-requests mode total fetch (suc n) (suc n - 1) 2 first_page (omega arith),
        )
