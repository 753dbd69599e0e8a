-- ===== src/RateLimiter/ErrorBudget.antt =====
-- How an error budget that was reported as exhausted is kept through late reports.
use esi_ts.Prelude.{
  ℕ, ◌<◌, ◌*◌, min, String, ◌≡◌, refl, sym, ◌∙◌, ◌⊎◌, inl, inr, Bool, true, false, Option, none,
  some, List, [], ◌∷◌, if◌then◌else◌, ◌&&◌, arith, lt→ltb, or_default, All,
}
use mathlib.Core.Path.{subst}
use esi_ts.RateLimiter.{
  Number, positive, exhausted, GroupBucket, ErrorLimitState, RateLimiter, Request, ResponseHeaders,
  default_error_limit,
}
use esi_ts.RateLimiter.Buckets.{
  user_of, resolve_user_set, error_limit_of, put_error_limit, error_limit_in, put_bucket, place_of,
  bucket_of, get_bucket, Place, fallback, in_default, in_user,
}
use esi_ts.RateLimiter.Check.{is_low, seconds, error_limit_wait}
use esi_ts.Prelude.Int.{pos, negsuc}
use esi_ts.RateLimiter.Update.{
  update_bucket, is_late_report, take_report, is_before, update_error_limit, update_from_response,
  present,
}

module _ (now : ℕ) where
  global-resolve :
      (lim : RateLimiter) (user : Option String)
      → (resolve_user_set lim now user).global_error_limit ≡ lim.global_error_limit
  unfolding resolve_user_set
  global-resolve lim none = refl
  global-resolve lim (some user) = refl

  global-put :
      (lim : RateLimiter) (p : Place) (b : GroupBucket)
      → (put_bucket lim now p b).global_error_limit ≡ lim.global_error_limit
  unfolding put_bucket
  global-put lim fallback b = refl
  global-put lim (in_default g) b = refl
  global-put lim (in_user u g) b = refl

  global-get_bucket :
      (lim : RateLimiter) (req : Request) (o : Option String)
      → (get_bucket lim now req o).global_error_limit ≡ lim.global_error_limit
  unfolding get_bucket
  global-get_bucket lim req o =
      global-put (resolve_user_set lim now (user_of lim req)) _ _
      ∙ global-resolve lim (user_of lim req)

  -- Where a global limit is left as it was, or takes a report.
  abbrev Reported : ResponseHeaders → ErrorLimitState → ErrorLimitState → Type 0
  Reported h old new = (new ≡ old) ⊎ (new ≡ update_error_limit h now old)

  global-put_error_limit :
      (lim : RateLimiter) (h : ResponseHeaders) (user : Option String)
      → Reported h lim.global_error_limit
          (put_error_limit lim now user (
            update_error_limit h now
              (or_default (error_limit_in lim user) default_error_limit))).global_error_limit
  unfolding put_error_limit
  global-put_error_limit lim h none = inr refl
  global-put_error_limit lim h (some user) = inl refl

  Reported-if :
      (t : Bool) (lim lim' : RateLimiter) (h : ResponseHeaders)
      → Reported h lim.global_error_limit lim'.global_error_limit
      → Reported h lim.global_error_limit (if t then lim else lim').global_error_limit
  Reported-if true lim lim' h r = inl refl
  Reported-if false lim lim' h r = r

  global-update :
      (lim : RateLimiter) (h : ResponseHeaders) (status : ℕ) (req : Request)
      → Reported h lim.global_error_limit
          (update_from_response lim now h status req).global_error_limit
  unfolding update_from_response error_limit_of
  global-update lim h status req =
      let group = present h.group in
      let found = get_bucket lim now req group in
      let lim' =
        put_bucket found now (place_of found req group)
          (update_bucket h status now (bucket_of found req group)) in
      let lim'' = resolve_user_set lim' now (user_of lim' req) in
      let same : lim''.global_error_limit ≡ lim.global_error_limit =
        global-resolve lim' (user_of lim' req)
        ∙ global-put found (place_of found req group) _
        ∙ global-get_bucket lim req group in
      Reported-if lim.is_test_mode lim _ h (
        subst
          (λ l.
            Reported h l
              (put_error_limit lim'' now (user_of lim'' req)
                (update_error_limit h now (error_limit_of lim'' req))).global_error_limit)
          same (global-put_error_limit lim'' h (user_of lim'' req)))

-- A response as it is processed.
pub record Response : Type 0 where
  pub time : ℕ
  pub headers : ResponseHeaders
  pub status : ℕ
  pub request : Request

unfoldable pub take_all : RateLimiter → List Response → RateLimiter
take_all lim [] = lim
take_all lim (r ∷ rs) = take_all (update_from_response lim r.time r.headers r.status r.request) rs

-- What a late response may report: budget left, with any reset, or no budget, and then no reset or a
-- positive one.
abbrev pub BudgetLeft : Option Number → Option Number → Type 0
BudgetLeft none none = Unit
BudgetLeft none (some reset) = positive reset ≡ true
BudgetLeft (some remain) reset = positive remain ≡ true

abbrev pub IsLate : ℕ → Response → Type 0
IsLate end r = (r.time < end) × BudgetLeft r.headers.error_limit_remain r.headers.error_limit_reset

-- What `checkRateLimit` holds requests back for: a spent budget, with a reset to come.
abbrev pub holds_back : ErrorLimitState → Bool
holds_back limit = exhausted limit.remain && positive limit.reset

record Spent (end : ℕ) (limit : ErrorLimitState) : Type 0 where
  spent : exhausted limit.remain ≡ true
  to_come : positive limit.reset ≡ true
  until : limit.exhausted_until ≡ some end

Spent-if :
    (end : ℕ) (t : Bool) (a b : ErrorLimitState)
    → t ≡ true
    → Spent end a
    → Spent end (if t then a else b)
Spent-if end t a b h s = rw h s

is_before-some : (now end : ℕ) (o : Option ℕ) → now < end → o ≡ some end → is_before now o ≡ true
is_before-some now end o before e = rw e (lt→ltb now end before)

late_report :
    (end now : ℕ) (remain : Number) (limit : ErrorLimitState)
    → now < end
    → positive remain ≡ true
    → Spent end limit
    → is_late_report now limit (some remain) ≡ true
late_report end now remain limit before left s =
    rw (left, s.spent) (is_before-some now end limit.exhausted_until before s.until)

-- A response without a budget leaves the window, and a reset to come.
Spent-unreported :
    (end now : ℕ) (h : ResponseHeaders) (limit : ErrorLimitState) (reset : Option Number)
    → BudgetLeft none reset
    → Spent end limit
    → Spent end
        (take_report (record h { error_limit_remain = none; error_limit_reset = reset }) now limit)
Spent-unreported end now h limit none left s = record {
  spent = s.spent;
  to_come = s.to_come;
  until = s.until;
}
Spent-unreported end now h limit (some reset) left s = record {
  spent = s.spent;
  to_come = left;
  until = s.until;
}

Spent-by :
    (end now : ℕ) (h : ResponseHeaders) (limit : ErrorLimitState) (o reset : Option Number)
    → now < end
    → BudgetLeft o reset
    → Spent end limit
    → Spent end (
        if is_late_report now limit o
        then limit
        else take_report (record h { error_limit_remain = o; error_limit_reset = reset }) now limit)
Spent-by end now h limit none reset before left s = Spent-unreported end now h limit reset left s
Spent-by end now h limit (some remain) reset before left s =
    Spent-if end _ limit _ (late_report end now remain limit before left s) s

Spent-late :
    (end now : ℕ) (h : ResponseHeaders) (limit : ErrorLimitState)
    → now < end
    → BudgetLeft h.error_limit_remain h.error_limit_reset
    → Spent end limit
    → Spent end (update_error_limit h now limit)
unfolding update_error_limit
Spent-late end now h limit before left s =
    Spent-by end now h limit h.error_limit_remain h.error_limit_reset before left s

Spent-Reported :
    (end now : ℕ) (h : ResponseHeaders) (old new : ErrorLimitState)
    → now < end
    → BudgetLeft h.error_limit_remain h.error_limit_reset
    → Reported now h old new
    → Spent end old
    → Spent end new
Spent-Reported end now h old new before left (inl e) s = subst (Spent end) (sym e) s
Spent-Reported end now h old new before left (inr e) s =
    subst (Spent end) (sym e) (Spent-late end now h old before left s)

take_all-Spent :
    (end : ℕ) (rs : List Response) (lim : RateLimiter)
    → All (IsLate end) rs
    → Spent end lim.global_error_limit
    → Spent end (take_all lim rs).global_error_limit
unfolding take_all
take_all-Spent end [] lim late s = s
take_all-Spent end (r ∷ rs) lim ((before, left), late) s = take_all-Spent end rs _ late (
    Spent-Reported end r.time r.headers lim.global_error_limit _ before left
      (global-update r.time lim r.headers r.status r.request) s)

-- A spent budget with a reset to come makes a request wait for the reset.
made_to_wait :
    (remain reset : Number)
    → exhausted remain ≡ true
    → positive reset ≡ true
    → (ms : ℕ) × (0 < ms)
      × ((if is_low remain
            then (if positive reset then some (min (seconds reset * 1000) 5000) else none)
            else if exhausted remain && positive reset
            then some (seconds reset * 1000)
            else none)
          ≡ some ms)
made_to_wait none reset h k = cc
made_to_wait (some remain) none h k = cc
made_to_wait (some remain) (some (negsuc s)) h k = cc
made_to_wait (some (negsuc n)) (some (pos s)) h k = (s * 1000, ground arith, ground (arith, h, k))
made_to_wait (some (pos n)) (some (pos s)) h k = (s * 1000, ground arith, ground (arith, h, k))

-- Once the global error budget is spent until a time, with a reset to come, the global error limit
-- keeps making requests wait, for a time above 0, and keeps the end of its window, however many
-- responses are processed at readings of the clock before that end, in any order and of any
-- requests, if each reports budget left, with any reset, or no budget and then no reset or a
-- positive one.
pub exhausted_budget_holds :
    (lim : RateLimiter) (end : ℕ) (rs : List Response)
    → holds_back lim.global_error_limit ≡ true
    → lim.global_error_limit.exhausted_until ≡ some end
    → All (IsLate end) rs
    → (ms : ℕ) × (0 < ms)
      × (error_limit_wait (take_all lim rs).global_error_limit ≡ some ms)
      × ((take_all lim rs).global_error_limit.exhausted_until ≡ some end)
unfolding error_limit_wait
exhausted_budget_holds lim end rs held until late =
    let s =
      take_all-Spent end rs lim late
        (record { spent = ground (arith, held); to_come = ground (arith, held); until = until }) in
    let limit = (take_all lim rs).global_error_limit in
    let (ms, long, waits) = made_to_wait limit.remain limit.reset s.spent s.to_come in
    (ms, long, waits, s.until)
