-- ===== src/Tokens/Refresh/Overtaken.antt =====
-- A refresh whose record was replaced or removed while it waited leaves the store alone.
use esi_ts.Prelude.{
  ℕ, ◌+◌, ◌≤◌, ◌<◌, ◌≡◌, refl, ap, inl, inr, Bool, Option, none, some, List, [], ◌∷◌, arith,
  if◌then◌else◌, eq_of_ne, Bool-cases,
}
use esi_ts.Tokens.{
  StoredToken, SsoTokenResponse, DecodedAccessToken, Fetched, got, threw, TokenManager, put,
  require_stored, bump_generation, build_stored_token,
}
use esi_ts.Tokens.Refresh.{
  start_refresh, join_or_start, finish_run, is_run, Pending, pending_of, superseded_by, SsoAnswer,
  refreshed, revoked, failed, by_owner, settle_owner, keep_built, settle_refresh, write_token,
  delete_token, retire_refresh, remove_record, store_response, remove_character,
}

-- What happens to a manager while a refresh waits: a run starts or ends, a refresh settles, a record
-- is written or deleted, or a replacement or removal comes to its end after the wait for the store.
pub data Change : Type 0 where
  starts : ℕ → Change
  finishes : ℕ → ℕ → Change
  settles : ℕ → ℕ → Pending → SsoAnswer → Change
  writes : ℕ → StoredToken → Change
  deletes retires : ℕ → Change

unfoldable pub apply : TokenManager → Change → TokenManager
apply m (starts id) = (start_refresh m id).0
apply m (finishes id run) = finish_run m id run
apply m (settles now id p answer) = (settle_refresh m m now id p answer).0
apply m (writes id t) = write_token m id t
apply m (deletes id) = delete_token m id
apply m (retires id) = retire_refresh m id

unfoldable pub apply_all : TokenManager → List Change → TokenManager
apply_all m [] = m
apply_all m (c ∷ cs) = apply_all (apply m c) cs

-- A whole replacement or removal, with the changes during each of its waits.
pub data Replacement : Type 0 where
  stores : List Change → ℕ → SsoTokenResponse → Option DecodedAccessToken → Replacement
  removes : List Change → List Change → ℕ → Replacement

unfoldable pub replace : TokenManager → Replacement → TokenManager
replace m (stores writing now response decoded) =
    (store_response (λ n. apply_all n writing) m now response decoded).0
replace m (removes revoking deleting id) =
    remove_character (λ n. apply_all n revoking) (λ n. apply_all n deleting) m id

-- The record of this character is the one that is replaced, or removed.
unfoldable pub Overtakes : TokenManager → ℕ → Replacement → Type 0
Overtakes m id (stores writing now response none) = ⊥
Overtakes m id (stores writing now response (some d)) = d.character_id ≡ id
Overtakes m id (removes revoking deleting j) =
    (j ≡ id) × ((t : StoredToken) × (m.storage j ≡ some t))

put-le : (f : ℕ → ℕ) (i id : ℕ) → f id ≤ put i (f i + 1) f id
put-le f i id = ground arith

keep_built-generations :
    (m : TokenManager) (id : ℕ) (b : Fetched StoredToken)
    → (keep_built m id b).0.generations ≡ m.generations
keep_built-generations m id (threw e) = refl
keep_built-generations m id (got t) = refl

settle_owner-generations :
    (m : TokenManager) (now id : ℕ) (t : StoredToken) (a : SsoAnswer)
    → (settle_owner m now id t a).0.generations ≡ m.generations
unfolding settle_owner
settle_owner-generations m now id t (refreshed response decoded) = keep_built-generations m id _
settle_owner-generations m now id t revoked = refl
settle_owner-generations m now id t (failed e) = refl

by_owner-generations :
    (m : TokenManager) (now id : ℕ) (t : StoredToken) (a : SsoAnswer)
    (o : Option (Fetched StoredToken))
    → (by_owner m now id t a o).0.generations ≡ m.generations
by_owner-generations m now id t a none = settle_owner-generations m now id t a
by_owner-generations m now id t a (some current) = refl

settle_refresh-generations :
    (m : TokenManager) (now id : ℕ) (p : Pending) (a : SsoAnswer)
    → (settle_refresh m m now id p a).0.generations ≡ m.generations
unfolding settle_refresh
settle_refresh-generations m now id p (failed e) = refl
settle_refresh-generations m now id p (refreshed response decoded) =
    by_owner-generations m now id p.stored (refreshed response decoded) _
settle_refresh-generations m now id p revoked = by_owner-generations m now id p.stored revoked _

join-generations :
    (m : TokenManager) (id : ℕ) (o : Option ℕ)
    → (join_or_start m id o).0.generations ≡ m.generations
join-generations m id none = refl
join-generations m id (some run) = refl

finish_run-generations :
    (m : TokenManager) (id run : ℕ) → (finish_run m id run).generations ≡ m.generations
unfolding finish_run
finish_run-generations m id run = elim (Bool-cases (is_run run (m.in_flight id))) [
  | inl e ↦ rw e refl
  | inr e ↦ rw e refl
]

same-le : (f g : ℕ → ℕ) (id : ℕ) → g ≡ f → f id ≤ g id
same-le f g id e = omega (arith, ap (λ (h : ℕ → ℕ). h id) e)

-- No change lowers a generation.
apply-le : (m : TokenManager) (id : ℕ) (c : Change) → m.generations id ≤ (apply m c).generations id
unfolding apply start_refresh retire_refresh bump_generation
apply-le m id (starts j) = same-le _ _ id (join-generations m j (m.in_flight j))
apply-le m id (finishes j run) = same-le _ _ id (finish_run-generations m j run)
apply-le m id (settles now j p a) = same-le _ _ id (settle_refresh-generations m now j p a)
apply-le m id (writes j t) = omega arith
apply-le m id (deletes j) = omega arith
apply-le m id (retires j) = put-le m.generations j id

apply_all-le :
    (m : TokenManager) (id : ℕ) (cs : List Change)
    → m.generations id ≤ (apply_all m cs).generations id
unfolding apply_all
apply_all-le m id [] = omega arith
apply_all-le m id (c ∷ cs) = omega (arith, apply-le m id c, apply_all-le (apply m c) id cs)

-- The end of a replacement raises the generation above what it was before the waits.
retired-lt :
    (m n : TokenManager) (i id : ℕ)
    → i ≡ id
    → m.generations id ≤ n.generations id
    → m.generations id < (retire_refresh n i).generations id
unfolding retire_refresh bump_generation
retired-lt m n i id e le = ground (arith, e, le)

removed-lt :
    (m : TokenManager) (id j : ℕ) (revoking deleting : List Change) (t : StoredToken)
    (o : Option StoredToken)
    → j ≡ id
    → o ≡ some t
    → m.generations id
      < (remove_record (λ n. apply_all n revoking) (λ n. apply_all n deleting) m j o).generations id
removed-lt m id j revoking deleting t none e q = cc
removed-lt m id j revoking deleting t (some t') e q =
    let before = apply_all-le m id revoking in
    let after = apply_all-le (delete_token (apply_all m revoking) j) id deleting in
    retired-lt m _ j id e (omega (arith, before, after))

Overtakes-lt :
    (m : TokenManager) (id : ℕ) (r : Replacement)
    → Overtakes m id r
    → m.generations id < (replace m r).generations id
unfolding replace Overtakes store_response remove_character build_stored_token
Overtakes-lt m id (stores writing now response none) h = elim h [ ]
Overtakes-lt m id (stores writing now response (some d)) h =
    retired-lt m _ d.character_id id h (apply_all-le (write_token m d.character_id _) id writing)
Overtakes-lt m id (removes revoking deleting j) (e, (t, there)) =
    removed-lt m id j revoking deleting t (m.storage j) e there

-- What a refresh that lost its record resolves to.
abbrev pub overtaken_result : TokenManager → ℕ → SsoAnswer → Fetched StoredToken
overtaken_result check id (failed e) = threw e
overtaken_result check id _ = require_stored check id

settle-overtaken :
    (check m : TokenManager) (now id : ℕ) (p : Pending) (a : SsoAnswer)
    → p.generation < check.generations id
    → settle_refresh check m now id p a ≡ (m, overtaken_result check id a)
unfolding settle_refresh superseded_by
settle-overtaken check m now id p (failed e) h = refl
settle-overtaken check m now id p (refreshed response decoded) h =
    ap
      (λ (b : Bool).
        by_owner m now id p.stored (refreshed response decoded)
          (if b then none else some (require_stored check id)))
      (eq_of_ne (check.generations id) p.generation (λ e. omega (arith, e, h)))
settle-overtaken check m now id p revoked h =
    ap
      (λ (b : Bool).
        by_owner m now id p.stored revoked (if b then none else some (require_stored check id)))
      (eq_of_ne (check.generations id) p.generation (λ e. omega (arith, e, h)))

-- If a replacement or removal of a character's record begins after a refresh took its generation,
-- and comes to its end, after its waits, before that refresh compares the generation, then whatever
-- the login server answers and whatever else happens before, during and after, the refresh writes
-- nothing: it resolves to the record that is there when it compares, or fails because there is none,
-- or with the failure of the call.
pub overtaken_refresh_discarded :
    (m : TokenManager) (id : ℕ) (t : StoredToken) (before after : List Change) (r : Replacement)
    (later : TokenManager) (now : ℕ) (a : SsoAnswer)
    → Overtakes (apply_all m before) id r
    → (let check = apply_all (replace (apply_all m before) r) after in
        settle_refresh check later now id (pending_of m id t) a
        ≡ (later, overtaken_result check id a))
overtaken_refresh_discarded m id t before after r later now a h =
    let taken = apply_all-le m id before in
    let bumped = Overtakes-lt (apply_all m before) id r h in
    let kept = apply_all-le (replace (apply_all m before) r) id after in
    settle-overtaken _ later now id (pending_of m id t) a (omega (arith, taken, bumped, kept))
