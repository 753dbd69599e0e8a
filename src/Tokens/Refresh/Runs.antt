-- ===== src/Tokens/Refresh/Runs.antt =====
-- The runs of the refreshes of src/auth/EsiTokenManager.ts over time: a step starts a run, ends one,
-- writes or deletes a record, or is the end of a replacement or removal after the wait for the store.
use esi_ts.Prelude.{
  ℕ, ◌≡◌, Bool, true, false, Option, none, List, [], ◌∷◌, ltb, ◌==◌, if◌then◌else◌,
}
use esi_ts.Tokens.{StoredToken, TokenManager, put, create}
use esi_ts.Tokens.Refresh.{start_refresh, finish_run, write_token, delete_token, retire_refresh}

-- A manager with the character of each run, and the runs that have ended.
pub record Track : Type 0 where
  pub manager : TokenManager
  pub owner : ℕ → ℕ
  pub ended : ℕ → Bool

pub data Step : Type 0 where
  starts ends : ℕ → Step
  writes : ℕ → StoredToken → Step
  deletes retires : ℕ → Step

abbrev pub started : Track → ℕ → TokenManager × ℕ → Track
started s id (m, run) = record s {
  manager = m;
  owner = if run == s.manager.runs then put run id s.owner else s.owner;
}

-- A run ends after it has started, in the slot of its character.
unfoldable pub step : Track → Step → Track
step s (starts id) = started s id (start_refresh s.manager id)
step s (ends run) =
    if ltb run s.manager.runs
    then record s { manager = finish_run s.manager (s.owner run) run; ended = put run true s.ended }
    else s
step s (writes id t) = record s { manager = write_token s.manager id t }
step s (deletes id) = record s { manager = delete_token s.manager id }
step s (retires id) = record s { manager = retire_refresh s.manager id }

unfoldable pub steps : Track → List Step → Track
steps s [] = s
steps s (x ∷ xs) = steps (step s x) xs

-- A manager with nothing in flight.
abbrev pub idle : (ℕ → Option StoredToken) → Track
idle storage = record {
  manager = create (record { refresh_skew_ms = none; auto_refresh = none }) storage;
  owner = λ run. 0;
  ended = λ run. false;
}

-- A step that does not end the run, and is not the end of a replacement or removal of the record of
-- its character.
unfoldable pub Leaves : ℕ → ℕ → Step → Type 0
Leaves id run (starts j) = Unit
Leaves id run (ends other) = ¬ (other ≡ run)
Leaves id run (writes j t) = Unit
Leaves id run (deletes j) = Unit
Leaves id run (retires j) = ¬ (j ≡ id)
