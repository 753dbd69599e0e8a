-- ===== src/Pagination/Cursor/Complete.antt =====
-- What a cursor walk that resolves has collected.
use esi_ts.Prelude.{
  ℕ, zero, suc, ◌+◌, String, ◌≡◌, refl, sym, ap, ◌∙◌, ◌≢◌, inl, inr, true, Option, none, some, List,
  [], ◌∷◌, ◌++◌, arith, ltb, leb, some_inj, Bool-cases, Option-cases,
}
use mathlib.Core.Path.{subst}
use mathlib.Core.List.{append-nil, append_assoc}
use esi_ts.Errors.{Failure, Result, ok, err, Result-cases}
use esi_ts.Pagination.{IncompletePagesMode, Walk, incomplete_walk, throwing, truncating, resolved}
use esi_ts.Pagination.Cursor.{
  CursorPage, live, CursorState, give_up, wind_up, next_page, last_page, next_failure, is_empty,
  crawl, crawl_start, fetch_all,
}

-- The chain of pages from a token on, fetched from a round on, with their items in order. It ends
-- with a page that has no token, or with an empty page; a failed round is repeated.
pub data Chain {A : Type 0} (fetch : ℕ → String → Result (CursorPage A))
    : ℕ → Option String → List A → Type 0 where
  no_token : {n : ℕ} {after : Option String} → live after ≡ none → Chain fetch n after []
  empty :
      {n : ℕ} {after : Option String} {token : String} {next : Option String}
      → live after ≡ some token
      → fetch n token ≡ ok (record { items = []; after = next })
      → Chain fetch n after []
  page :
      {n : ℕ} {after : Option String} {token : String} {p : CursorPage A} {rest : List A}
      → live after ≡ some token
      → fetch n token ≡ ok p
      → Chain fetch (n + 1) p.after rest
      → Chain fetch n after (p.items ++ rest)
  again :
      {n : ℕ} {after : Option String} {token : String} {e : Failure} {rest : List A}
      → live after ≡ some token
      → fetch n token ≡ err e
      → Chain fetch (n + 1) after rest
      → Chain fetch n after rest

module _ {A : Type 0} (mode : IncompletePagesMode) (cap_pages : ℕ)
    (fetch : ℕ → String → Result (CursorPage A)) where
  abbrev Resolves : Walk A → List A → Type 0
  Resolves w items = (w.outcome ≡ resolved items) × (w.warnings ≡ [])

  record Collected (st : CursorState A) (items : List A) : Type 0 where
    rest : List A
    chain : Chain fetch st.rounds st.after_token rest
    all : items ≡ st.all_data ++ rest

  wind_up-warns :
      (token : String) (st : CursorState A) (items : List A)
      → ¬ Resolves (wind_up mode cap_pages fetch (some token) st) items
  unfolding wind_up incomplete_walk
  wind_up-warns token st items h = by_mode mode h
    where
      by_mode :
          (m : IncompletePagesMode) → Resolves (wind_up m cap_pages fetch (some token) st) items → ⊥
      by_mode throwing (a, b) = cc
      by_mode truncating (a, b) = cc

  give_up-fails :
      (e : Failure) (st : CursorState A) (items : List A)
      → (give_up mode cap_pages fetch e st).outcome ≢ resolved items
  unfolding give_up
  give_up-fails e st items = ground arith

  resolved_items :
      (st : CursorState A) (items : List A)
      → Resolves (wind_up mode cap_pages fetch none st) items
      → items ≡ st.all_data ++ []
  unfolding wind_up
  resolved_items st items (a, b) = inner a ∙ sym (append-nil st.all_data)
    where
      inner : resolved st.all_data ≡ resolved items → items ≡ st.all_data
      inner p = cc

  is_empty-nil : (xs : List A) → is_empty mode cap_pages fetch xs ≡ true → xs ≡ []
  is_empty-nil [] h = refl
  is_empty-nil (x ∷ xs) h = cc

  empty_page-ok :
      (n : ℕ) (token : String) (p : CursorPage A)
      → fetch n token ≡ ok p
      → is_empty mode cap_pages fetch p.items ≡ true
      → fetch n token ≡ ok (record { items = []; after = p.after })
  empty_page-ok n token p got blank =
      got ∙ (λ i. ok (record { items = is_empty-nil p.items blank i; after = p.after }))

  page-Collected :
      (token : String) (p : CursorPage A) (st : CursorState A) (items : List A)
      → live st.after_token ≡ some token
      → fetch st.rounds token ≡ ok p
      → Collected (next_page mode cap_pages fetch p st) items
      → Collected st items
  page-Collected token p st items more got c = record {
    rest = p.items ++ c.rest;
    chain = Chain.page more got c.chain;
    all = c.all ∙ append_assoc st.all_data p.items c.rest;
  }

  again-Collected :
      (token : String) (e : Failure) (st : CursorState A) (items : List A)
      → live st.after_token ≡ some token
      → fetch st.rounds token ≡ err e
      → Collected (next_failure mode cap_pages fetch st) items
      → Collected st items
  again-Collected token e st items more bad c = record {
    rest = c.rest;
    chain = Chain.again more bad c.chain;
    all = c.all;
  }

  crawl-Collected :
      (fuel : ℕ) (st : CursorState A) (w : Walk A) (items : List A)
      → crawl mode cap_pages fetch fuel st ≡ some w
      → Resolves w items
      → Collected st items
  unfolding crawl
  crawl-Collected zero st w items h r = cc
  crawl-Collected (suc fuel) st w items h r = elim (Option-cases (live st.after_token)) [
    | inl over ↦ record {
      rest = [];
      chain = Chain.no_token over;
      all =
          resolved_items st items
            (subst (λ v. Resolves v items) (sym (some_inj (rw (over, crawl) at h))) r);
    }
    | inr (token, more) ↦ elim (Bool-cases (ltb st.page_count cap_pages)) [
      | inr capped ↦ absurd (
          wind_up-warns token st items
            (subst (λ v. Resolves v items) (sym (some_inj (rw (more, capped, crawl) at h))) r))
      | inl below ↦ elim (Result-cases (fetch st.rounds token)) [
        | inl (p, got) ↦ elim (Bool-cases (is_empty mode cap_pages fetch p.items)) [
          | inl blank ↦ record {
            rest = [];
            chain = Chain.empty more (empty_page-ok st.rounds token p got blank);
            all = resolved_items (last_page mode cap_pages fetch st) items (
                subst (λ v. Resolves v items)
                  (sym (some_inj (rw (more, below, got, blank, crawl) at h))) r);
          }
          | inr full ↦
              page-Collected token p st items more got
                (crawl-Collected fuel _ w items (rw (more, below, got, full, crawl) at h) r)
        ]
        | inr (e, bad) ↦ elim (Bool-cases (leb 3 (st.consecutive_failures + 1))) [
          | inl third ↦ absurd (
              give_up-fails e (next_failure mode cap_pages fetch st) items
                (ap Walk.outcome (some_inj (rw (more, below, bad, third, crawl) at h)) ∙ r.0))
          | inr early ↦
              again-Collected token e st items more bad
                (crawl-Collected fuel _ w items (rw (more, below, bad, early, crawl) at h) r)
        ]
      ]
    ]
  ]

-- A cursor walk that resolves without a warning has returned the items of the first page and of
-- every page along the chain of `after` tokens, in their order, up to a page without a token or an
-- empty page: no page is left out and none is counted twice, even where rounds failed in between.
pub fetch_all_collects :
    {A : Type 0} (mode : IncompletePagesMode) (cap_pages : ℕ)
    (fetch : ℕ → String → Result (CursorPage A)) (first_page : List A) (after : Option String)
    (w : Walk A) (items : List A)
    → fetch_all mode cap_pages fetch first_page after ≡ some w
    → w.outcome ≡ resolved items
    → w.warnings ≡ []
    → (rest : List A) × Chain fetch 0 after rest × (items ≡ first_page ++ rest)
unfolding fetch_all
fetch_all_collects mode cap_pages fetch first_page after w items h a b =
    let c =
      crawl-Collected mode cap_pages fetch _ (crawl_start mode cap_pages fetch first_page after) w
        items h (a, b) in
    (c.rest, c.chain, c.all)
