-- ===== src/Pagination/Waves/Agree.antt =====
-- The waves of `fetchAllPages` collect what a walk one page at a time would.
use esi_ts.Prelude.{
  ℕ, zero, suc, ◌+◌, ◌-◌, ◌≤◌, ◌<◌, ◌≡◌, refl, sym, ap, ◌∙◌, ◌≢◌, inl, inr, ◌&&◌, Option, none,
  some, List, [], ◌∷◌, ◌++◌, arith, some_inj, Bool-cases, Option-cases, length, take, drop,
}
use mathlib.Core.Path.{subst}
use esi_ts.Prelude.Int.{ℤ}
use esi_ts.Prelude.Lists.{take-append-drop, length-drop}
use esi_ts.Errors.{Failure, Result, ok, Result-cases}
use esi_ts.Pagination.{IncompletePagesMode, max_pages, Walk, bounded_page_count}
use esi_ts.Pagination.Waves.{
  PageCount, Collecting, Step, go, stopped, take_page, take_pages, close, at_end, finish, gather,
  waves, counted, collecting, fetch_all_pages, is_throwing, reports_above, pages_from,
}

module _ {A : Type 0} (mode : IncompletePagesMode) (count : PageCount) where
  -- The walk ends as after these steps, apart from the number of requests.
  pub record EndsAs (w : Walk A) (s : Step A) : Type 0 where
    pub outcome : w.outcome ≡ (finish mode count 0 s).outcome
    pub warnings : w.warnings ≡ (finish mode count 0 s).warnings

  close-outcome :
      (n : ℕ) (s : Step A) → (close mode count n s).outcome ≡ (close mode count 0 s).outcome
  close-outcome n (go st) = refl
  close-outcome n (stopped e st) = refl

  close-warnings :
      (n : ℕ) (s : Step A) → (close mode count n s).warnings ≡ (close mode count 0 s).warnings
  close-warnings n (go st) = refl
  close-warnings n (stopped e st) = refl

  finish-EndsAs : (n : ℕ) (s : Step A) → EndsAs (finish mode count n s) s
  unfolding finish
  finish-EndsAs n s =
      let end = at_end mode count s in
      record { outcome = close-outcome n end; warnings = close-warnings n end }

  step_assoc :
      (s : Step A) (f g h : Collecting A → Step A)
      → ((st : Collecting A)
          → f st ≡ elim (g st) [ stopped e st' ↦ stopped e st' | go st' ↦ h st' ])
      → (elim s as (λ x. Step A) [ stopped e st' ↦ stopped e st' | go st' ↦ f st' ])
        ≡ elim (elim s as (λ x. Step A) [ stopped e st' ↦ stopped e st' | go st' ↦ g st' ]) [
          | stopped e st' ↦ stopped e st'
          | go st' ↦ h st'
        ]
  step_assoc (stopped e st) f g h p = refl
  step_assoc (go st) f g h p = p st

  take_pages-append :
      (xs ys : List (ℕ × List A)) (st : Collecting A)
      → take_pages mode count (xs ++ ys) st ≡ elim (take_pages mode count xs st) [
        | stopped e st' ↦ stopped e st'
        | go st' ↦ take_pages mode count ys st'
      ]
  unfolding take_pages
  take_pages-append [] ys st = refl
  take_pages-append ((page, page_data) ∷ xs) ys st =
      step_assoc (take_page mode count page page_data st) (take_pages mode count (xs ++ ys))
        (take_pages mode count xs) (take_pages mode count ys) (take_pages-append xs ys)

  module _ (fetch : ℕ → Result (List A)) (rejection : List ℕ → Failure) (concurrency : ℕ) where
    abbrev Gathers : List ℕ → List (ℕ × List A) → Type 0
    Gathers pages ps = gather fetch pages ≡ some ps

    gather-cons :
        (page : ℕ) (pages : List ℕ) (ps : List (ℕ × List A))
        → Gathers (page ∷ pages) ps
        → (items : List A) × (rest : List (ℕ × List A)) × (fetch page ≡ ok items)
          × Gathers pages rest
          × (ps ≡ (page, items) ∷ rest)
    unfolding gather
    gather-cons page pages ps h = elim (Result-cases (fetch page)) [
      | inr (e, bad) ↦ absurd (none_some ps (rw (bad, gather) at h))
      | inl (items, got) ↦ elim (Option-cases (gather fetch pages)) [
        | inl fails ↦ absurd (none_some ps (rw (got, fails, gather) at h))
        | inr (rest, all) ↦ (items, rest, got, all, sym (some_inj (rw (got, all, gather) at h)))
      ]
    ]
      where
        none_some : (l : List (ℕ × List A)) → none ≢ some l
        none_some l p = cc

    gather-take :
        (n : ℕ) (pages : List ℕ) (ps : List (ℕ × List A))
        → Gathers pages ps
        → Gathers (take n pages) (take n ps)
    unfolding gather
    gather-take zero pages ps h = refl
    gather-take (suc n) [] ps h = subst (λ l. some [] ≡ some (take (suc n) l)) (some_inj h) refl
    gather-take (suc n) (page ∷ pages) ps h =
        let (items, rest, got, all, e) = gather-cons page pages ps h in
        subst (λ l. Gathers (take (suc n) (page ∷ pages)) (take (suc n) l)) (sym e)
          (rw (got, gather-take n pages rest all, gather) refl)

    gather-drop :
        (n : ℕ) (pages : List ℕ) (ps : List (ℕ × List A))
        → Gathers pages ps
        → Gathers (drop n pages) (drop n ps)
    unfolding gather
    gather-drop zero pages ps h = h
    gather-drop (suc n) [] ps h = subst (λ l. some [] ≡ some (drop (suc n) l)) (some_inj h) refl
    gather-drop (suc n) (page ∷ pages) ps h =
        let (items, rest, got, all, e) = gather-cons page pages ps h in
        subst (λ l. Gathers (drop n pages) (drop (suc n) l)) (sym e) (gather-drop n pages rest all)

    pub EndsBy : Option (Walk A) → Step A → Type 0
    EndsBy o s = (w : Walk A) × (o ≡ some w) × EndsAs w s

    wave-EndsBy :
        (s : Step A) (fuel m : ℕ) (later : List ℕ) (qs : List (ℕ × List A))
        → ((st : Collecting A)
            → EndsBy
                (waves mode count fetch rejection concurrency fuel later m st)
                (take_pages mode count qs st))
        → EndsBy
            (elim s [
              | stopped e st ↦ some (finish mode count m (stopped e st))
              | go st ↦ waves mode count fetch rejection concurrency fuel later m st
            ])
            (elim s as (λ x. Step A) [
              | stopped e st ↦ stopped e st
              | go st ↦ take_pages mode count qs st
            ])
    unfolding EndsBy
    wave-EndsBy (stopped e st) fuel m later qs ends =
        (finish mode count m (stopped e st), refl, finish-EndsAs m (stopped e st))
    wave-EndsBy (go st) fuel m later qs ends = ends st

    pub waves-EndsBy :
        (fuel : ℕ) (pages : List ℕ) (ps : List (ℕ × List A)) (n : ℕ) (st : Collecting A)
        → 1 ≤ concurrency
        → length pages < fuel
        → Gathers pages ps
        → EndsBy
            (waves mode count fetch rejection concurrency fuel pages n st)
            (take_pages mode count ps st)
    unfolding waves EndsBy take_pages gather
    waves-EndsBy zero pages ps n st some_at_once h all = absurd (omega arith)
    waves-EndsBy (suc fuel) [] ps n st some_at_once h all =
        subst (λ l. EndsBy (some (finish mode count n (go st))) (take_pages mode count l st))
          (some_inj all) (finish mode count n (go st), refl, finish-EndsAs n (go st))
    waves-EndsBy (suc fuel) (page ∷ pages) ps n st some_at_once h all =
        let batch = take concurrency (page ∷ pages) in
        let later = drop concurrency (page ∷ pages) in
        let now = take concurrency ps in
        let qs = drop concurrency ps in
        let split : take_pages mode count ps st ≡ elim (take_pages mode count now st) [
          | stopped e st' ↦ stopped e st'
          | go st' ↦ take_pages mode count qs st'
        ] =
          ap (λ l. take_pages mode count l st) (sym (take-append-drop concurrency ps))
          ∙ take_pages-append now qs st in
        rw (gather-take concurrency (page ∷ pages) ps all, waves)
          (subst (EndsBy _) (sym split) (
            wave-EndsBy (take_pages mode count now st) fuel (n + length batch) later qs (λ st'.
              waves-EndsBy fuel later qs (n + length batch) st' some_at_once
                (omega (arith, length-drop concurrency (page ∷ pages)))
                (gather-drop concurrency (page ∷ pages) ps all))))

-- If every page that is asked for can be fetched, `fetchAllPages` ends with the same items or the
-- same error and the same warnings for every number of pages that a wave requests at once, as long
-- as it is at least 1, whatever the response reports and in both modes for an incomplete walk.
pub waves_agree :
    {A : Type 0} (mode : IncompletePagesMode) (fetch : ℕ → Result (List A))
    (rejection : List ℕ → Failure) (c d : ℕ) (reported : Option ℤ) (first_page : List A)
    (fetched : List (ℕ × List A))
    → 1 ≤ c
    → 1 ≤ d
    → gather fetch (pages_from (bounded_page_count reported - 1) 2) ≡ some fetched
    → (v : Walk A) × (w : Walk A) × (fetch_all_pages mode fetch rejection c reported first_page
        ≡ some v)
      × (fetch_all_pages mode fetch rejection d reported first_page ≡ some w)
      × (v.outcome ≡ w.outcome)
      × (v.warnings ≡ w.warnings)
unfolding fetch_all_pages EndsBy
waves_agree mode fetch rejection c d reported first_page fetched c_pos d_pos all =
    let count = counted reported in
    let pages = pages_from (count.total_pages - 1) 2 in
    let (v, e, x) =
      waves-EndsBy mode count fetch rejection c (length pages + 1) pages fetched 0
        (collecting first_page) c_pos (omega arith) all in
    let (w, f, y) =
      waves-EndsBy mode count fetch rejection d (length pages + 1) pages fetched 0
        (collecting first_page) d_pos (omega arith) all in
    elim (Bool-cases (reports_above max_pages reported && is_throwing mode)) [
      | inl refused ↦ rw refused (_, _, refl, refl, refl, refl)
      | inr walked ↦ rw walked (v, w, e, f, x.outcome ∙ sym y.outcome, x.warnings ∙ sym y.warnings)
    ]
