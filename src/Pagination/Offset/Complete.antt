-- ===== src/Pagination/Offset/Complete.antt =====
-- When an offset walk holds the whole collection, and that it never pretends to.
use esi_ts.Prelude.{
  ℕ, zero, suc, ◌+◌, ◌-◌, ◌≤◌, min, ◌≡◌, refl, sym, ap, ◌∙◌, ◌≢◌, inl, inr, Bool, false, ◌&&◌,
  Option, none, some, List, [], ◌∷◌, ◌++◌, arith, ltb, ltb-false, ltb_of_le, or_default, some_inj,
  Bool-cases,
}
use mathlib.Core.Path.{subst}
use mathlib.Core.List.{append-nil, append_assoc}
use esi_ts.Errors.{Failure, Result, ok, err, page_cases}
use esi_ts.Pagination.{
  max_pages, IncompletePagesMode, throwing, truncating, PaginationError, resolved, incomplete, Walk,
  incomplete_walk,
}
use esi_ts.Pagination.Offset.{page_failure, finish, walk_pages, is_throwing, fetch_remaining_pages}

-- A page followed by the items of later pages; none if the page failed or has no items.
unfoldable pub joined : {A : Type 0} → Result (List A) → Option (List A) → Option (List A)
joined (ok (x ∷ xs)) (some rest) = some ((x ∷ xs) ++ rest)
joined _ _ = none

-- The items of `left` pages from `page` on, if each of them is fetched and has items.
unfoldable pub collect : {A : Type 0} → (ℕ → Result (List A)) → ℕ → ℕ → Option (List A)
collect fetch zero page = some []
collect fetch (suc left) page = joined (fetch page) (collect fetch left (page + 1))

joined-some :
    {A : Type 0} (r : Result (List A)) (o : Option (List A)) (all : List A)
    → joined r o ≡ some all
    → (x : A) × (xs : List A) × (rest : List A) × (r ≡ ok (x ∷ xs))
      × (o ≡ some rest)
      × (all ≡ (x ∷ xs) ++ rest)
unfolding joined
joined-some (ok (x ∷ xs)) (some rest) all h = (x, xs, rest, refl, refl, cc)
joined-some (ok []) o all h = cc
joined-some (ok (x ∷ xs)) none all h = cc
joined-some (err e) o all h = cc

module _ {A : Type 0} (mode : IncompletePagesMode) (total : ℕ) (fetch : ℕ → Result (List A)) where
  walk_pages-collect :
      (last left page : ℕ) (acc rest : List A)
      → collect fetch left page ≡ some rest
      → walk_pages mode total fetch last left page acc ≡ finish mode total fetch last (acc ++ rest)
  unfolding walk_pages collect
  walk_pages-collect last zero page acc rest h =
      ap (finish mode total fetch last) (sym (append-nil acc) ∙ ap (λ l. acc ++ l) (some_inj h))
  walk_pages-collect last (suc left) page acc rest h =
      let (x, xs, tail, got, later, all) =
        joined-some (fetch page) (collect fetch left (page + 1)) rest h in
      rw (got, walk_pages)
        (walk_pages-collect last left (page + 1) (acc ++ (x ∷ xs)) tail later
          ∙ ap (finish mode total fetch last)
              (append_assoc acc (x ∷ xs) tail ∙ ap (λ l. acc ++ l) (sym all)))

  collect-next :
      (page left : ℕ) (x : A) (xs rest : List A)
      → fetch page ≡ ok (x ∷ xs)
      → collect fetch left (page + 1) ≡ some rest
      → collect fetch (suc left) page ≡ some ((x ∷ xs) ++ rest)
  unfolding collect joined
  collect-next page left x xs rest got later = rw (got, joined) (rw later)

  -- What a walk that resolves without a warning has collected.
  record Whole (last left page : ℕ) (acc items : List A) : Type 0 where
    rest : List A
    collected : collect fetch left page ≡ some rest
    all : items ≡ acc ++ rest
    reached : total ≤ last

  abbrev Resolves : Walk A → List A → Type 0
  Resolves w items = (w.outcome ≡ resolved items) × (w.warnings ≡ [])

  incomplete_walk-warns :
      (e : PaginationError A) (n : ℕ) (items : List A) → ¬ Resolves (incomplete_walk mode e n) items
  unfolding incomplete_walk
  incomplete_walk-warns e n items h = by_mode mode h
    where
      by_mode : (m : IncompletePagesMode) → Resolves (incomplete_walk m e n) items → ⊥
      by_mode throwing (a, b) = cc
      by_mode truncating (a, b) = cc

  finish-Whole :
      (last page : ℕ) (acc items : List A)
      → Resolves (finish mode total fetch last acc) items
      → Whole last 0 page acc items
  unfolding finish collect
  finish-Whole last page acc items h = elim (Bool-cases (ltb last total)) [
    | inl short ↦ absurd (incomplete_walk-warns _ _ items (rw short at h))
    | inr enough ↦
        let (a, b) = rw enough at h in
        record {
          rest = [];
          collected = refl;
          all = resolved-injective a ∙ sym (append-nil acc);
          reached = ltb-false _ _ enough;
        }
  ]
    where
      resolved-injective : {xs ys : List A} → resolved xs ≡ resolved ys → ys ≡ xs
      resolved-injective p = cc

  page_failure-fails :
      (page : ℕ) (e : Failure) (acc items : List A)
      → page_failure mode total fetch page e acc ≢ resolved items
  unfolding page_failure
  page_failure-fails page e acc items = ground arith

  walk_pages-Whole :
      (last left page : ℕ) (acc items : List A)
      → Resolves (walk_pages mode total fetch last left page acc) items
      → Whole last left page acc items
  unfolding walk_pages
  walk_pages-Whole last zero page acc items h = finish-Whole last page acc items h
  walk_pages-Whole last (suc left) page acc items h = elim (page_cases (fetch page)) [
    | inl (e, bad) ↦
        let (a, b) = rw (bad, walk_pages) at h in absurd (page_failure-fails page e acc items a)
    | inr good ↦ elim good [
      | inl blank ↦ absurd (incomplete_walk-warns _ _ items (rw (blank, walk_pages) at h))
      | inr (x, xs, got) ↦
          let w =
            walk_pages-Whole last left (page + 1) (acc ++ (x ∷ xs)) items
              (rw (got, walk_pages) at h) in
          record {
            rest = (x ∷ xs) ++ w.rest;
            collected = collect-next page left x xs w.rest got w.collected;
            all = w.all ∙ append_assoc acc (x ∷ xs) w.rest;
            reached = w.reached;
          }
    ]
  ]

not_over : (a b : ℕ) (c : Bool) → a ≤ b → ltb b a && c ≡ false
not_over a b c h = ground arith

finish-all :
    {A : Type 0} (mode : IncompletePagesMode) (total : ℕ) (fetch : ℕ → Result (List A))
    (all : List A)
    → finish mode total fetch total all
      ≡ record { outcome = resolved all; warnings = []; requests = total - 1 }
unfolding finish
finish-all mode total fetch all = rw (ltb_of_le total total (omega arith))

-- In the mode `throw` as in `truncate`: if a walk resolves without a warning, the reported number
-- of pages is within the limit, every one of them was fetched and had items, and the result is the
-- items of all pages in order.
pub no_silent_truncation :
    {A : Type 0} (mode : IncompletePagesMode) (total : ℕ) (fetch : ℕ → Result (List A))
    (option : Option ℕ) (first_page items : List A)
    → (fetch_remaining_pages mode total fetch option first_page).outcome ≡ resolved items
    → (fetch_remaining_pages mode total fetch option first_page).warnings ≡ []
    → (rest : List A) × (collect fetch (total - 1) 2 ≡ some rest)
      × (items ≡ first_page ++ rest)
      × (total ≤ max_pages)
unfolding fetch_remaining_pages
no_silent_truncation {A} mode total fetch option first_page items h k =
    elim (Bool-cases (
      ltb (min (or_default option max_pages) max_pages) total
      && is_throwing mode total fetch mode)) [
        | inl refused ↦ absurd (refused_early (rw refused at h))
        | inr walked ↦
            let w =
              walk_pages-Whole mode total fetch _ _ 2 first_page items
                (rw walked at h, rw walked at k) in
            let limit : ℕ = min (or_default option max_pages) max_pages in
            let same : min total limit ≡ total = omega (arith, w.reached) in
            (
              w.rest,
              subst (λ n. collect fetch (n - 1) 2 ≡ some w.rest) same w.collected,
              w.all,
              omega (arith, w.reached),
            )
      ]
  where
    refused_early : {e : PaginationError A} → incomplete e ≡ resolved items → ⊥
    refused_early p = cc

-- If the reported number of pages is within the limit and every page has items, the walk resolves
-- with the items of all pages in order, without a warning, after requesting each page once.
pub complete_walk :
    {A : Type 0} (mode : IncompletePagesMode) (total : ℕ) (fetch : ℕ → Result (List A))
    (first_page rest : List A)
    → 1 ≤ total
    → total ≤ max_pages
    → collect fetch (total - 1) 2 ≡ some rest
    → fetch_remaining_pages mode total fetch none first_page
      ≡ record { outcome = resolved (first_page ++ rest); warnings = []; requests = total - 1 }
unfolding fetch_remaining_pages
complete_walk mode total fetch first_page rest pos h c =
    let same : min total (min max_pages max_pages) ≡ total = omega arith in
    rw (not_over total max_pages (is_throwing mode total fetch mode) h) (
      walk_pages-collect mode total fetch _ _ 2 first_page rest
        (subst (λ n. collect fetch (n - 1) 2 ≡ some rest) (sym same) c)
      ∙ ap (λ n. finish mode total fetch n (first_page ++ rest)) same
      ∙ finish-all mode total fetch (first_page ++ rest))
