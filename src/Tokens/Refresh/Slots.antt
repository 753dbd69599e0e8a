-- ===== src/Tokens/Refresh/Slots.antt =====
-- The slots of `inFlight` in src/auth/EsiTokenManager.ts hold runs that have not ended.
use esi_ts.Prelude.{
  ℕ, ◌+◌, ◌≤◌, ◌<◌, ◌≡◌, refl, sym, ap, ◌∙◌, inl, inr, Bool, true, false, Option, none, some, List,
  [], ◌∷◌, arith, ltb, ◌==◌, if◌then◌else◌, Bool-cases, ==_iff, eq_of_ne, some_inj, ltb→lt,
}
use mathlib.Core.Path.{subst}
use esi_ts.Tokens.{StoredToken, TokenManager, put, bump_generation}
use esi_ts.Tokens.Refresh.{start_refresh, join_or_start, finish_run, is_run, retire_refresh}
use esi_ts.Tokens.Refresh.Runs.{
  Track, Step, starts, ends, writes, deletes, retires, started, step, steps,
}

-- A slot holds a run of its character that has started and not ended.
pub record IsSound (s : Track) (id run : ℕ) : Type 0 where
  pub begun : run < s.manager.runs
  pub own : s.owner run ≡ id
  pub running : s.ended run ≡ false

abbrev pub SlotSound : Track → ℕ → Option ℕ → Type 0
SlotSound s id none = Unit
SlotSound s id (some run) = IsSound s id run

pub record IsValid (s : Track) : Type 0 where
  pub slots : (id : ℕ) → SlotSound s id (s.manager.in_flight id)
  pub ahead : (run : ℕ) → s.manager.runs ≤ run → s.ended run ≡ false

if-slot :
    (s : Track) (id j : ℕ) (v o : Option ℕ)
    → (id ≡ j → SlotSound s j v)
    → (¬ (id ≡ j) → SlotSound s j o)
    → SlotSound s j (if id == j then v else o)
if-slot s id j v o h k = elim (Bool-cases (id == j)) [
  | inl e ↦ rw e (h ((==_iff id j).0 e))
  | inr e ↦ rw e (k (λ p. differs p e))
]
  where
    differs : id ≡ j → (id == j) ≡ false → ⊥
    differs p e = ground arith

-- A slot reads only the number of runs of the manager.
same-slot :
    (s : Track) (m : TokenManager)
    → m.runs ≡ s.manager.runs
    → (j : ℕ) (o : Option ℕ) → SlotSound s j o
    → SlotSound (record s { manager = m }) j o
same-slot s m same j none h = tt
same-slot s m same j (some run) h = record {
  begun = omega (arith, h.begun, same);
  own = h.own;
  running = h.running;
}

-- A step that starts a run with the next number, in the slot of its character.
opened-slots :
    (s : Track) (id : ℕ)
    → IsValid s
    → (j : ℕ)
    → SlotSound
        (started s id (
          record s.manager {
            in_flight = put id (some s.manager.runs) s.manager.in_flight;
            runs = s.manager.runs + 1;
          },
          s.manager.runs,
        ))
        j
        (put id (some s.manager.runs) s.manager.in_flight j)
opened-slots s id v j =
    if-slot _ id j (some s.manager.runs) (s.manager.in_flight j)
      (λ e. record {
        begun = omega arith;
        own = ground (arith, e);
        running = v.ahead _ (omega arith);
      })
      (λ d. older (s.manager.in_flight j) (v.slots j))
  where
    older :
        (o : Option ℕ)
        → SlotSound s j o
        → SlotSound
            (started s id (
              record s.manager {
                in_flight = put id (some s.manager.runs) s.manager.in_flight;
                runs = s.manager.runs + 1;
              },
              s.manager.runs,
            ))
            j
            o
    older none h = tt
    older (some run) h = record {
      begun = omega (arith, h.begun);
      own = ground (arith, h.begun, h.own);
      running = h.running;
    }

start-IsValid :
    (s : Track) (id : ℕ) (o : Option ℕ)
    → IsValid s
    → SlotSound s id o
    → IsValid (started s id (join_or_start s.manager id o))
start-IsValid s id none v h = record {
  slots = opened-slots s id v;
  ahead = λ run le. v.ahead run (omega (arith, le));
}
start-IsValid s id (some run) v h =
    subst (λ (b : Bool). IsValid (record s { owner = if b then put run id s.owner else s.owner }))
      (sym (eq_of_ne run s.manager.runs (λ e. omega (arith, e, h.begun)))) v

-- The slots without that of a character.
cleared-slots :
    (s : Track) (id : ℕ) → IsValid s → (j : ℕ) → SlotSound s j (put id none s.manager.in_flight j)
cleared-slots s id v j = if-slot s id j none (s.manager.in_flight j) (λ e. tt) (λ d. v.slots j)

-- What is left in a slot when a run ends is another run.
kept-slot :
    (s : Track) (run : ℕ) (m : TokenManager)
    → m.runs ≡ s.manager.runs
    → (j : ℕ) (o : Option ℕ) → (o ≡ some run → ⊥)
    → SlotSound s j o
    → SlotSound (record s { manager = m; ended = put run true s.ended }) j o
kept-slot s run m same j none d h = tt
kept-slot s run m same j (some other) d h = record {
  begun = omega (arith, h.begun, same);
  own = h.own;
  running = ground (arith, eq_of_ne run other (λ e. d (ap some (sym e))), h.running);
}

is_run-some : (run : ℕ) (o : Option ℕ) → is_run run o ≡ false → o ≡ some run → ⊥
is_run-some run none h e = cc
is_run-some run (some other) h e = ground (arith, some_inj e)

owned-slot :
    (s : Track) (run j : ℕ) (o : Option ℕ) → SlotSound s j o → o ≡ some run → s.owner run ≡ j
owned-slot s run j none h e = cc
owned-slot s run j (some other) h e = ap s.owner (sym (some_inj e)) ∙ h.own

-- A run that ends is none of those to come.
ended-ahead :
    (s : Track) (run : ℕ)
    → IsValid s
    → run < s.manager.runs
    → (r : ℕ) → s.manager.runs ≤ r
    → put run true s.ended r ≡ false
ended-ahead s run v begun r le = ground (arith, v.ahead r le)

abbrev ended_with : Track → ℕ → TokenManager → Track
ended_with s run m = record s { manager = m; ended = put run true s.ended }

finished-IsValid :
    (s : Track) (run : ℕ) (mine : Bool)
    → is_run run (s.manager.in_flight (s.owner run)) ≡ mine
    → IsValid s
    → run < s.manager.runs
    → IsValid (
        ended_with s run (
          if mine
          then record s.manager { in_flight = put (s.owner run) none s.manager.in_flight }
          else s.manager))
finished-IsValid s run true e v begun = record {
  slots = λ j.
      if-slot _ (s.owner run) j none (s.manager.in_flight j) (λ q. tt)
        (λ d.
          kept-slot s run _ refl j (s.manager.in_flight j)
            (λ q. d (owned-slot s run j (s.manager.in_flight j) (v.slots j) q)) (v.slots j));
  ahead = ended-ahead s run v begun;
}
finished-IsValid s run false e v begun = record {
  slots = λ j.
      kept-slot s run s.manager refl j (s.manager.in_flight j)
        (λ q. is_run-some run _ e (ap s.manager.in_flight (owned-slot s run j _ (v.slots j) q) ∙ q))
        (v.slots j);
  ahead = ended-ahead s run v begun;
}

end-IsValid :
    (s : Track) (run : ℕ) (begun : Bool)
    → ltb run s.manager.runs ≡ begun
    → IsValid s
    → IsValid (if begun then ended_with s run (finish_run s.manager (s.owner run) run) else s)
unfolding finish_run
end-IsValid s run false e v = v
end-IsValid s run true e v = finished-IsValid s run _ refl v (ltb→lt _ _ e)

retired-IsValid :
    (s : Track) (id : ℕ) → IsValid s → IsValid (record s { manager = retire_refresh s.manager id })
unfolding bump_generation retire_refresh
retired-IsValid s id v = record {
  slots = λ j.
      if-slot _ id j none (s.manager.in_flight j) (λ q. tt)
        (λ d. same-slot s _ refl j (s.manager.in_flight j) (v.slots j));
  ahead = v.ahead;
}

-- The store is not read by what is said of slots.
stored-IsValid :
    (s : Track) (storage : ℕ → Option StoredToken)
    → IsValid s
    → IsValid (record s { manager = record s.manager { storage = storage } })
stored-IsValid s storage v = record {
  slots = λ j. same-slot s _ refl j (s.manager.in_flight j) (v.slots j);
  ahead = v.ahead;
}

step-IsValid : (s : Track) (x : Step) → IsValid s → IsValid (step s x)
unfolding step start_refresh
step-IsValid s (starts id) v = start-IsValid s id (s.manager.in_flight id) v (v.slots id)
step-IsValid s (ends run) v = end-IsValid s run _ refl v
step-IsValid s (writes id t) v = stored-IsValid s _ v
step-IsValid s (deletes id) v = stored-IsValid s _ v
step-IsValid s (retires id) v = retired-IsValid s id v

pub steps-IsValid : (s : Track) (xs : List Step) → IsValid s → IsValid (steps s xs)
unfolding steps
steps-IsValid s [] v = v
steps-IsValid s (x ∷ xs) v = steps-IsValid (step s x) xs (step-IsValid s x v)

pub joined-running :
    (s : Track) (id : ℕ) (o : Option ℕ)
    → IsValid s
    → SlotSound s id o
    → s.ended (join_or_start s.manager id o).1 ≡ false
joined-running s id none v h = v.ahead s.manager.runs (omega arith)
joined-running s id (some run) v h = h.running
