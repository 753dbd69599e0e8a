-- ===== src/Batch.antt =====
-- The batch helpers of src/core/BatchRequestHandler.ts. The promises of `batchFetch` settle in any
-- order, one event for each; log lines and the progress callback are left out.
pub mod Chunks
pub mod Valid
pub mod Fetch
pub mod Accounts
use esi_ts.Prelude.{
  ℕ, zero, suc, ◌+◌, ◌-◌, ◌*◌, ◌/◌, ◌%◌, ◌^◌, ◌≤◌, ◌<◌, min, max, String, ◌≡◌, refl, sym, ap, ◌∙◌,
  ◌≢◌, ◌↔◌, ◌⊎◌, inl, inr, Bool, true, false, not, ◌&&◌, ◌||◌, Option, none, some, List, [], ◌∷◌,
  ◌++◌, map, arith, str_eq, eq_iff, ltb, leb, ◌==◌, if◌then◌else◌, ltb→lt, lt→ltb, leb→le, le→leb,
  ==_iff, leb-false, ltb-false, ltb_of_le, eq_of_ne, leb_of_lt, eq_or_lt, or_default, some_inj,
  Bool-cases, Option-cases, length, take, drop, any, length-append, All, All-append, All-imp,
}
use esi_ts.Prelude.JsMap
use esi_ts.Prelude.JsMap.{JsMap}
use esi_ts.Errors.{Failure, Result, ok, err}

-- The loop of `batchPostFor` from index `i` on, on fuel; none means that the fuel ran out.
unfoldable pub chunks_from : ℕ → ℕ → List ℕ → ℕ → Option (List (List ℕ))
chunks_from zero chunk_size ids i = none
chunks_from (suc fuel) chunk_size ids i =
    let rest = chunks_from fuel chunk_size ids (i + chunk_size) in
    if ltb i (length ids)
    then elim rest [ none ↦ none | some chunks ↦ some (take chunk_size (drop i ids) ∷ chunks) ]
    else some []

unfoldable pub chunks_of : ℕ → List ℕ → Option (List (List ℕ))
chunks_of chunk_size ids = chunks_from (length ids + 1) chunk_size ids 0

-- The chunks are posted one after the other; the first failure rejects.
unfoldable pub post_all :
    {T : Type 0} → (List ℕ → Result (List T)) → List (List ℕ) → Result (List T)
post_all poster [] = ok []
post_all poster (chunk ∷ chunks) = elim (poster chunk) [
  | err e ↦ err e
  | ok posted ↦ elim (post_all poster chunks) [
    | err e ↦ err e
    | ok results ↦ ok (posted ++ results)
  ]
]

-- `batchPostFor`; none is a loop that does not end.
unfoldable pub batch_post :
    {T : Type 0} → List ℕ → (List ℕ → Result (List T)) → ℕ → Option (Result (List T))
batch_post ids poster chunk_size = elim (chunks_of chunk_size ids) [
  | none ↦ none
  | some chunks ↦ some (post_all poster chunks)
]

-- The variables of `batchFetchFor`: the keys from `index` on, the keys whose promise is pending,
-- of which there are `running`, the number of settled promises, the two maps, and whether the
-- result was resolved.
pub record BatchRun (V : Type 0) : Type 0 where
  pub rest : List String
  pub flight : List String
  pub completed : ℕ
  pub results : JsMap V
  pub errors : JsMap Failure
  pub is_resolved : Bool

module _ {V : Type 0} (concurrency : ℕ) where
  -- The loop of `next`, over the keys that are left.
  unfoldable pub fill : List String → BatchRun V → BatchRun V
  fill [] st = record st { rest = [] }
  fill (key ∷ keys) st = elim (ltb (length st.flight) concurrency) [
    | true ↦ fill keys (record st { flight = st.flight ++ (key ∷ []) })
    | false ↦ record st { rest = key ∷ keys }
  ]

  abbrev next : BatchRun V → BatchRun V
  next st = fill st.rest st

  -- `batchFetchFor`, up to the first promise that settles.
  unfoldable pub start : List String → BatchRun V
  start keys =
      let st : BatchRun V = record {
        rest = keys;
        flight = [];
        completed = 0;
        results = [];
        errors = [];
        is_resolved = length keys == 0;
      } in
      next st

  abbrev pub store : String → Result V → BatchRun V → BatchRun V
  store key (ok v) st = record st { results = JsMap.set key v st.results }
  store key (err e) st = record st { errors = JsMap.set key e st.errors }

  -- The `finally` callback.
  abbrev pub finish : ℕ → BatchRun V → BatchRun V
  finish total st = if st.completed == total then record st { is_resolved = true } else next st

  -- The promise at a place among the pending ones settles.
  unfoldable pub settle : ℕ → ℕ → Result V → BatchRun V → BatchRun V
  settle total n r st = elim (drop n st.flight) [
    | [] ↦ st
    | key ∷ later ↦ finish total (
        store key r
          (record st { flight = take n st.flight ++ later; completed = st.completed + 1 }))
  ]

  unfoldable pub run : ℕ → List (ℕ × Result V) → BatchRun V → BatchRun V
  run total [] st = st
  run total ((n, r) ∷ events) st = run total events (settle total n r st)
