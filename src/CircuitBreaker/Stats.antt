-- ===== src/CircuitBreaker/Stats.antt =====
-- The statistics of a circuit breaker are those of its circuits.
use esi_ts.Prelude.{
  ℕ, ◌+◌, String, ◌≡◌, refl, ap, ◌∙◌, inl, inr, Option, none, some, [], ◌∷◌, arith, str_eq, eq_iff,
  if◌then◌else◌, Bool-cases,
}
use mathlib.Core.Path.{subst}
use esi_ts.Prelude.JsMap
use esi_ts.Prelude.JsMap.{JsMap, Distinct}
use esi_ts.CircuitBreaker.{
  CircuitState, CircuitRecord, CircuitBreaker, CircuitStats, get_state, get_stats, stats_loop,
  is_opened, note_circuit,
}

-- The entries whose circuit is open at `now`.
unfoldable pub open_entries : CircuitBreaker → ℕ → JsMap CircuitRecord → ℕ
unfolding is_opened
open_entries b now [] = 0
open_entries b now ((key, r) ∷ m) =
    (if is_opened (get_state b now key) then 1 else 0) + open_entries b now m

-- What the statistics hold at a key: the entry of a listed circuit, or what was noted before.
abbrev noted :
    CircuitBreaker
    → ℕ
    → String
    → Option (CircuitState × ℕ)
    → Option CircuitRecord
    → Option (CircuitState × ℕ)
noted b now k before none = before
noted b now k before (some r) = some (get_state b now k, r.failures)

module _ (b : CircuitBreaker) (now : ℕ) where
  stats_loop-open :
      (m : JsMap CircuitRecord) (s : CircuitStats)
      → (stats_loop b now m s).open_circuits ≡ s.open_circuits + open_entries b now m
  unfolding stats_loop open_entries
  stats_loop-open [] s = omega arith
  stats_loop-open ((key, r) ∷ m) s =
      omega (arith, stats_loop-open m (note_circuit key r.failures (get_state b now key) s))

  stats_loop-total :
      (m : JsMap CircuitRecord) (s : CircuitStats)
      → (stats_loop b now m s).total_circuits ≡ s.total_circuits
  unfolding stats_loop
  stats_loop-total [] s = refl
  stats_loop-total ((key, r) ∷ m) s =
      stats_loop-total m (note_circuit key r.failures (get_state b now key) s)

  stats_loop-circuits :
      (m : JsMap CircuitRecord) (s : CircuitStats) (k : String)
      → Distinct m
      → JsMap.get k (stats_loop b now m s).circuits
        ≡ noted b now k (JsMap.get k s.circuits) (JsMap.get k m)
  unfolding stats_loop JsMap.get
  stats_loop-circuits [] s k d = refl
  stats_loop-circuits ((key, r) ∷ m) s k (fresh, d) =
      stats_loop-circuits m (note_circuit key r.failures (get_state b now key) s) k d
      ∙ ap (λ o. noted b now k o (JsMap.get k m))
          (JsMap.get-set key k (get_state b now key, r.failures) s.circuits)
      ∙ elim (Bool-cases (str_eq key k)) [
        | inl e ↦
            let same = (eq_iff key k).0 e in
            rw (subst (λ j. JsMap.get j m ≡ none) same (JsMap.get-none_of_has key m fresh))
              (rw e (ap (λ j. some (get_state b now j, r.failures)) same))
        | inr e ↦ rw e
      ]

-- The statistics count the circuits and those that are open at `now`, and list exactly the
-- circuits of the breaker, each with its state at `now` and its number of failures.
pub get_stats_lem :
    (b : CircuitBreaker) (now : ℕ) (k : String)
    → Distinct b.circuits
    → ((get_stats b now).total_circuits ≡ JsMap.size b.circuits)
      × ((get_stats b now).open_circuits ≡ open_entries b now b.circuits)
      × (JsMap.get k (get_stats b now).circuits ≡ noted b now k none (JsMap.get k b.circuits))
unfolding get_stats
get_stats_lem b now k d =
    let s : CircuitStats = record {
      total_circuits = JsMap.size b.circuits;
      open_circuits = 0;
      circuits = [];
    } in
    (
      stats_loop-total b now b.circuits s,
      omega (arith, stats_loop-open b now b.circuits s),
      unfold JsMap.get in stats_loop-circuits b now b.circuits s k d,
    )
