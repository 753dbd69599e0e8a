-- ===== src/Tokens/RefreshAll/Reports.antt =====
-- `refreshAll` of src/auth/EsiTokenManager.ts reports on every character, as one after the other would.
use esi_ts.Prelude.{
  ℕ, zero, suc, ◌+◌, ◌<◌, ◌≡◌, refl, ap, ◌∙◌, Option, none, some, List, [], ◌∷◌, arith, length,
}
use esi_ts.Prelude.Int.{ℤ}
use mathlib.Core.Path.{subst}
use esi_ts.Concurrency.Results.{pool_results}
use esi_ts.Tokens.{StoredToken}
use esi_ts.Tokens.RefreshAll.{
  RefreshResult, Turn, refresh_record, Settled, fulfilled, token_at, push_result, collect, worker,
  run_worker, pool, refresh_all,
}

-- The records refreshed one after the other.
unfoldable pub refresh_each : (ℕ → Turn) → Option ℕ → ℕ → List StoredToken → List RefreshResult
refresh_each turns within_ms i [] = []
refresh_each turns within_ms i (t ∷ ts) =
    refresh_record (turns i) within_ms t ∷ refresh_each turns within_ms (i + 1) ts

token_at-lt :
    (i : ℕ) (ts : List StoredToken) (t : StoredToken) → token_at i ts ≡ some t → i < length ts
unfolding token_at
token_at-lt i [] t e = absurd (clash e)
  where
    clash : none ≡ some t → ⊥
    clash e = cc
token_at-lt zero (t' ∷ ts) t e = omega arith
token_at-lt (suc i) (t' ∷ ts) t e = let h = token_at-lt i ts t e in omega (arith, h)

module _ (turns : ℕ → Turn) (within_ms : Option ℕ) where
  abbrev Reported : (ℕ → Option Settled) → StoredToken → ℕ → Type 0
  Reported results t n = results n ≡ some (fulfilled (refresh_record (turns n) within_ms t))

  moved :
      (results : ℕ → Option Settled) (t : StoredToken) (m n : ℕ)
      → m ≡ n
      → Reported results t m
      → Reported results t n
  moved results t m n e h = subst (Reported results t) e h

  collect-each :
      (k : ℕ) (ts : List StoredToken) (results : ℕ → Option Settled)
      → ((j : ℕ) (t : StoredToken) → token_at j ts ≡ some t → Reported results t (k + j))
      → collect k ts results ≡ refresh_each turns within_ms k ts
  unfolding collect refresh_each token_at
  collect-each k [] results h = refl
  collect-each k (t ∷ ts) results h =
      let here = moved results t (k + 0) k (omega arith) (h 0 t refl) in
      let rest =
        collect-each (k + 1) ts results
          (λ j t' e. moved results t' (k + suc j) (k + 1 + j) (omega arith) (h (suc j) t' e)) in
      ap (λ o. push_result t o (collect (k + 1) ts results)) here
      ∙ ap (λ rs. refresh_record (turns k) within_ms t ∷ rs) rest

  -- Whatever the concurrency and the order in which the refreshes settle, when none is left in
  -- flight `refreshAll` has one result for each record, in the order of the records, and it is what
  -- refreshing the record at its place alone reports.
  pub refresh_all_reports :
      (concurrency : Option ℤ) (tokens : List StoredToken) (places : List ℕ)
      → (pool turns within_ms concurrency tokens places).flight ≡ []
      → refresh_all turns within_ms concurrency tokens places
        ≡ refresh_each turns within_ms 0 tokens
  unfolding refresh_all pool worker
  refresh_all_reports concurrency tokens places idle = collect-each 0 tokens _ (λ j t e.
      moved (pool turns within_ms concurrency tokens places).results t j (0 + j) (omega arith) (
        (pool_results (length tokens) (worker turns within_ms tokens) concurrency places idle).1 j
          (token_at-lt j tokens t e)
        ∙ ap (λ o. some (run_worker (turns j) within_ms o)) e))
