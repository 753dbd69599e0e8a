-- ===== src/Pagination/Cursor/Ends.antt =====
-- The cursor walk ends, whatever the server answers.
use esi_ts.Prelude.{
  ℕ, zero, suc, ◌+◌, ◌-◌, ◌*◌, ◌≤◌, ◌<◌, String, ◌≡◌, refl, inl, inr, Option, none, some, List,
  arith, ltb, leb, ltb→lt, leb-false, Bool-cases, Option-cases,
}
use esi_ts.Errors.{Failure, Result, Result-cases}
use esi_ts.Pagination.{IncompletePagesMode, Walk, incomplete_walk, throwing, truncating}
use esi_ts.Pagination.Cursor.{
  CursorPage, live, CursorState, give_up, wind_up, next_page, last_page, next_failure, is_empty,
  crawl, crawl_start, fetch_all,
}

module _ {A : Type 0} (mode : IncompletePagesMode) (cap_pages : ℕ)
    (fetch : ℕ → String → Result (CursorPage A)) where
  -- The rounds that are left: up to three for each page that may still be fetched.
  abbrev rounds_left : CursorState A → ℕ
  rounds_left st = 3 * (cap_pages - st.page_count) - st.consecutive_failures

  abbrev EndsBy : ℕ → Option (Walk A) → Type 0
  EndsBy n o = (w : Walk A) × (o ≡ some w) × (w.requests ≤ n)

  wind_up-requests :
      (o : Option String) (st : CursorState A)
      → (wind_up mode cap_pages fetch o st).requests ≡ st.rounds
  unfolding wind_up incomplete_walk
  wind_up-requests none st = refl
  wind_up-requests (some token) st = by_mode mode
    where
      by_mode :
          (m : IncompletePagesMode)
          → (wind_up m cap_pages fetch (some token) st).requests ≡ st.rounds
      by_mode throwing = refl
      by_mode truncating = refl

  stop-EndsBy :
      (o : Option String) (st : CursorState A) (n : ℕ)
      → st.rounds ≤ n
      → EndsBy n (some (wind_up mode cap_pages fetch o st))
  stop-EndsBy o st n h =
      (wind_up mode cap_pages fetch o st, refl, omega (arith, wind_up-requests o st))

  give_up-EndsBy :
      (e : Failure) (st : CursorState A) (n : ℕ)
      → st.rounds ≤ n
      → EndsBy n (some (give_up mode cap_pages fetch e st))
  unfolding give_up
  give_up-EndsBy e st n h = (give_up mode cap_pages fetch e st, refl, h)

  EndsBy-le : (m n : ℕ) (o : Option (Walk A)) → m ≤ n → EndsBy m o → EndsBy n o
  EndsBy-le m n o h (w, e, k) = (w, e, omega arith)

  crawl-EndsBy :
      (fuel : ℕ) (st : CursorState A)
      → rounds_left st < fuel
      → st.consecutive_failures ≤ 2
      → EndsBy (st.rounds + rounds_left st) (crawl mode cap_pages fetch fuel st)
  unfolding crawl
  crawl-EndsBy zero st h f = absurd (omega arith)
  crawl-EndsBy (suc fuel) st h f = elim (Option-cases (live st.after_token)) [
    | inl over ↦ rw (over, crawl) (stop-EndsBy none st _ (omega arith))
    | inr (token, more) ↦
        rw (more, crawl)
          (elim (Bool-cases (ltb st.page_count cap_pages)) [
            | inr capped ↦ rw (capped, crawl) (stop-EndsBy (some token) st _ (omega arith))
            | inl below ↦
                rw (below, crawl)
                  (elim (Result-cases (fetch st.rounds token)) [
                    | inl (page, got) ↦
                        rw (got, crawl)
                          (elim (Bool-cases (is_empty mode cap_pages fetch page.items)) [
                            | inl blank ↦
                                rw (blank, crawl)
                                  (stop-EndsBy none (last_page mode cap_pages fetch st) _
                                    (omega (arith, ltb→lt _ _ below)))
                            | inr full ↦
                                rw (full, crawl)
                                  (EndsBy-le _ _ _ (omega (arith, ltb→lt _ _ below)) (
                                    crawl-EndsBy fuel (next_page mode cap_pages fetch page st)
                                      (omega (arith, ltb→lt _ _ below)) (omega arith)))
                          ])
                    | inr (e, bad) ↦
                        rw (bad, crawl)
                          (elim (Bool-cases (leb 3 (st.consecutive_failures + 1))) [
                            | inl third ↦
                                rw (third, crawl)
                                  (give_up-EndsBy e (next_failure mode cap_pages fetch st) _
                                    (omega (arith, ltb→lt _ _ below)))
                            | inr again ↦
                                rw (again, crawl)
                                  (EndsBy-le _ _ _ (omega (arith, ltb→lt _ _ below)) (
                                    crawl-EndsBy fuel (next_failure mode cap_pages fetch st)
                                      (omega (arith, ltb→lt _ _ below))
                                      (omega (arith, leb-false _ _ again))))
                          ])
                  ])
          ])
  ]

-- The cursor walk always ends, whatever pages, tokens and errors the server answers with: after at
-- most three rounds for each page that the limit allows after the first.
pub fetch_all_ends :
    {A : Type 0} (mode : IncompletePagesMode) (cap_pages : ℕ)
    (fetch : ℕ → String → Result (CursorPage A)) (first_page : List A) (after : Option String)
    → (w : Walk A) × (fetch_all mode cap_pages fetch first_page after ≡ some w)
      × (w.requests ≤ 3 * (cap_pages - 1))
unfolding fetch_all
fetch_all_ends mode cap_pages fetch first_page after =
    let st = crawl_start mode cap_pages fetch first_page after in
    let (w, e, h) =
      crawl-EndsBy mode cap_pages fetch (3 * cap_pages + 1) st (omega arith) (omega arith) in
    (w, e, omega (arith, h))
