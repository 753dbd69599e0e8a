-- ===== src/Tokens/Refresh/Joined.antt =====
-- Nobody joins a refresh that has ended: a run clears its own slot only, so a late one leaves the
-- slot of the run that replaced it.
use esi_ts.Prelude.{ℕ, ◌≡◌, refl, false, Option, some, List, All}
use esi_ts.Tokens.{StoredToken, create}
use esi_ts.Tokens.Refresh.{start_refresh}
use esi_ts.Tokens.Refresh.Runs.{Track, Step, starts, step, steps, idle, Leaves}
use esi_ts.Tokens.Refresh.Slots.{steps-IsValid, joined-running}
use esi_ts.Tokens.Refresh.Kept.{steps-slot, opened-slot, joined-same}

opened-start :
    (s : Track) (id : ℕ)
    → (step s (starts id)).manager.in_flight id ≡ some (start_refresh s.manager id).1
unfolding step start_refresh
opened-start s id = opened-slot s.manager id (s.manager.in_flight id) refl

-- Whatever refreshes were started and ended before, and whatever records were written, deleted,
-- replaced and removed meanwhile, a caller who asks for a refresh gets a run that has not ended.
-- Whatever follows, a later caller for the same character joins that run, until it ends or a
-- replacement or removal of the record of the character comes to its end after the wait for the
-- store: in particular, other runs of the character that end late, after they were replaced, do not
-- clear its slot.
pub joins_running :
    (storage : ℕ → Option StoredToken) (xs ys : List Step) (id : ℕ)
    → All (Leaves id (start_refresh (steps (idle storage) xs).manager id).1) ys
    → (let s = steps (idle storage) xs in
        let run = (start_refresh s.manager id).1 in
        (s.ended run ≡ false)
        × ((start_refresh (steps (step s (starts id)) ys).manager id).1 ≡ run))
unfolding start_refresh create
joins_running storage xs ys id ls =
    let s = steps (idle storage) xs in
    let v = steps-IsValid (idle storage) xs (record { slots = λ j. tt; ahead = λ r le. refl }) in
    let s' = steps (step s (starts id)) ys in
    (
      joined-running s id (s.manager.in_flight id) v (v.slots id),
      joined-same s'.manager id _ (s'.manager.in_flight id) refl
          (steps-slot (step s (starts id)) id _ ys ls (opened-start s id)),
    )
