-- ===== src/Tokens/Refresh/Kept.antt =====
-- What a step of src/auth/EsiTokenManager.ts leaves in the slot of a character.
use esi_ts.Prelude.{
  ℕ, ◌≡◌, refl, sym, ap, ◌∙◌, inl, inr, Bool, true, Option, none, some, List, [], ◌∷◌, arith, ltb,
  if◌then◌else◌, Bool-cases, ==_iff, eq_of_ne, some_inj, All,
}
use esi_ts.Tokens.{TokenManager, put, bump_generation}
use esi_ts.Tokens.Refresh.{start_refresh, join_or_start, finish_run, is_run, retire_refresh}
use esi_ts.Tokens.Refresh.Runs.{
  Track, Step, starts, ends, writes, deletes, retires, step, steps, Leaves,
}

none≢some : {n : ℕ} → none ≡ some n → ⊥
none≢some e = cc

put-other : {A : Type 0} (id j : ℕ) (v : A) (f : ℕ → A) → ¬ (id ≡ j) → put id v f j ≡ f j
put-other id j v f d = ap (λ (b : Bool). if b then v else f j) (eq_of_ne id j d)

put-filled :
    (id j run next : ℕ) (f : ℕ → Option ℕ)
    → f j ≡ none
    → f id ≡ some run
    → put j (some next) f id ≡ some run
put-filled id j run next f e h = put-other j id (some next) f (λ q. clash q) ∙ h
  where
    clash : j ≡ id → ⊥
    clash q = none≢some (sym e ∙ ap f q ∙ h)

join-slot :
    (m : TokenManager) (id j run : ℕ) (o : Option ℕ)
    → m.in_flight j ≡ o
    → m.in_flight id ≡ some run
    → (join_or_start m j o).0.in_flight id ≡ some run
join-slot m id j run none e h = put-filled id j run m.runs m.in_flight e h
join-slot m id j run (some other) e h = h

is_run-same : (other run : ℕ) → is_run other (some run) ≡ true → other ≡ run
is_run-same other run e = (==_iff other run).0 e

finish-slot :
    (m : TokenManager) (id j run other : ℕ)
    → ¬ (other ≡ run)
    → m.in_flight id ≡ some run
    → (finish_run m j other).in_flight id ≡ some run
unfolding finish_run
finish-slot m id j run other d h = elim (Bool-cases (is_run other (m.in_flight j))) [
  | inl e ↦ rw e (put-other j id none m.in_flight (λ q. d (mine e q)) ∙ h)
  | inr e ↦ rw e h
]
  where
    mine : is_run other (m.in_flight j) ≡ true → j ≡ id → other ≡ run
    mine e q = is_run-same other run (ap (is_run other) (sym (ap m.in_flight q ∙ h)) ∙ e)

end-slot :
    (s : Track) (id run other : ℕ)
    → ¬ (other ≡ run)
    → s.manager.in_flight id ≡ some run
    → (step s (ends other)).manager.in_flight id ≡ some run
unfolding step
end-slot s id run other d h = elim (Bool-cases (ltb other s.manager.runs)) [
  | inl e ↦ rw e (finish-slot s.manager id (s.owner other) run other d h)
  | inr e ↦ rw e h
]

retired-slot :
    (m : TokenManager) (id j run : ℕ)
    → ¬ (j ≡ id)
    → m.in_flight id ≡ some run
    → (retire_refresh m j).in_flight id ≡ some run
unfolding bump_generation retire_refresh
retired-slot m id j run d h = put-other j id none m.in_flight d ∙ h

step-slot :
    (s : Track) (id run : ℕ) (x : Step)
    → Leaves id run x
    → s.manager.in_flight id ≡ some run
    → (step s x).manager.in_flight id ≡ some run
unfolding step start_refresh Leaves
step-slot s id run (starts j) l h = join-slot s.manager id j run (s.manager.in_flight j) refl h
step-slot s id run (ends other) l h = end-slot s id run other l h
step-slot s id run (writes j t) l h = h
step-slot s id run (deletes j) l h = h
step-slot s id run (retires j) l h = retired-slot s.manager id j run l h

pub steps-slot :
    (s : Track) (id run : ℕ) (ys : List Step)
    → All (Leaves id run) ys
    → s.manager.in_flight id ≡ some run
    → (steps s ys).manager.in_flight id ≡ some run
unfolding steps
steps-slot s id run [] l h = h
steps-slot s id run (y ∷ ys) (l, ls) h =
    steps-slot (step s y) id run ys ls (step-slot s id run y l h)

pub opened-slot :
    (m : TokenManager) (id : ℕ) (o : Option ℕ)
    → m.in_flight id ≡ o
    → (join_or_start m id o).0.in_flight id ≡ some (join_or_start m id o).1
opened-slot m id none e = ground arith
opened-slot m id (some run) e = e

pub joined-same :
    (m : TokenManager) (id run : ℕ) (o : Option ℕ)
    → m.in_flight id ≡ o
    → o ≡ some run
    → (join_or_start m id o).1 ≡ run
joined-same m id run none e h = absurd (none≢some h)
joined-same m id run (some other) e h = some_inj h
