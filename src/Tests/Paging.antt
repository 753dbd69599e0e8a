-- ===== src/Tests/Paging.antt =====
-- The theorems on the pagination walks at concrete inputs.
use esi_ts.Prelude.{
  ℕ, ◌≤◌, String, ◌≡◌, refl, ap, none, some, List, [], ◌∷◌, ◌++◌, arith, str_eq, ◌==◌,
  if◌then◌else◌,
}
use esi_ts.Errors.{network, Result, ok, err}
use esi_ts.Pagination.{throwing, truncating, Walk, resolved, max_pages}
use esi_ts.Pagination.Offset.{fetch_remaining_pages}
use esi_ts.Pagination.Offset.Complete.{joined, collect, no_silent_truncation, complete_walk}
use esi_ts.Pagination.Cursor.{CursorPage, fetch_all, crawl, live}
use esi_ts.Prelude.Int.{pos}
use esi_ts.Pagination.{bounded_page_count}
use esi_ts.Pagination.Waves.{gather, pages_from, fetch_all_pages}
use esi_ts.Pagination.Waves.Agree.{waves_agree}
use esi_ts.Pagination.Cursor.Ends.{fetch_all_ends}
use esi_ts.Pagination.Cursor.Complete.{Chain, fetch_all_collects}

-- Every page holds its own number.
abbrev numbered : ℕ → Result (List ℕ)
numbered page = ok (page ∷ [])

walk_of_three :
    fetch_remaining_pages truncating 3 numbered none (1 ∷ [])
    ≡ record { outcome = resolved (1 ∷ 2 ∷ 3 ∷ []); warnings = []; requests = 2 }
unfolding collect joined
walk_of_three =
    complete_walk truncating 3 numbered (1 ∷ []) (2 ∷ 3 ∷ []) (omega arith) (omega arith) refl

no_silent_truncation_example :
    (rest : List ℕ) × (collect numbered 2 2 ≡ some rest)
    × (1 ∷ 2 ∷ 3 ∷ [] ≡ (1 ∷ []) ++ rest)
    × (3 ≤ max_pages)
no_silent_truncation_example =
    no_silent_truncation truncating 3 numbered none (1 ∷ []) (1 ∷ 2 ∷ 3 ∷ [])
      (ap Walk.outcome walk_of_three) (ap Walk.warnings walk_of_three)

-- Two pages behind one token each; the first round fails.
abbrev crawled : ℕ → String → Result (CursorPage ℕ)
crawled n token =
    if n == 0
    then err network
    else if str_eq token "b"
    then ok (record { items = 4 ∷ []; after = none })
    else ok (record { items = 2 ∷ 3 ∷ []; after = some "b" })

fetch_all_ends_example :
    (w : Walk ℕ) × (fetch_all throwing 10 crawled (1 ∷ []) (some "a") ≡ some w) × (w.requests ≤ 27)
fetch_all_ends_example = fetch_all_ends throwing 10 crawled (1 ∷ []) (some "a")

abbrev crawled_walk : Walk ℕ
crawled_walk = record { outcome = resolved (1 ∷ 2 ∷ 3 ∷ 4 ∷ []); warnings = []; requests = 3 }

fetch_all_collects_example :
    (rest : List ℕ) × Chain crawled 0 (some "a") rest × (1 ∷ 2 ∷ 3 ∷ 4 ∷ [] ≡ (1 ∷ []) ++ rest)
unfolding fetch_all crawl live
fetch_all_collects_example =
    fetch_all_collects throwing 10 crawled (1 ∷ []) (some "a") crawled_walk (1 ∷ 2 ∷ 3 ∷ 4 ∷ [])
      refl refl refl

waves_agree_example :
    (v : Walk ℕ) × (w : Walk ℕ) × (fetch_all_pages throwing numbered
        (λ pages. network)
        1
        (some (pos 4))
        (1 ∷ [])
      ≡ some v)
    × (fetch_all_pages throwing numbered (λ pages. network) 3 (some (pos 4)) (1 ∷ []) ≡ some w)
    × (v.outcome ≡ w.outcome)
    × (v.warnings ≡ w.warnings)
unfolding gather pages_from bounded_page_count
waves_agree_example =
    waves_agree throwing numbered (λ pages. network) 1 3 (some (pos 4)) (1 ∷ [])
      ((2, 2 ∷ []) ∷ (3, 3 ∷ []) ∷ (4, 4 ∷ []) ∷ []) (omega arith) (omega arith) refl
