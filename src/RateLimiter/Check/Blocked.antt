-- ===== src/RateLimiter/Check/Blocked.antt =====
-- What a call of `checkRateLimit` promises on a blocked bucket, and how often it waits.
use esi_ts.Prelude.{
  ℕ, zero, suc, ◌+◌, ◌≤◌, ◌≡◌, refl, sym, ◌∙◌, ◌≢◌, inl, inr, Bool, true, false, Option, none, some,
  arith, ltb, leb, if◌then◌else◌, leb→le, ltb-false, Bool-cases,
}
use mathlib.Core.Path.{subst}
use esi_ts.RateLimiter.{RateLimiter, Request}
use esi_ts.RateLimiter.Buckets.{error_limit_of, cleanup_stale_users}
use esi_ts.RateLimiter.Check.{
  error_limit_wait, bucket_wait, min_delay_wait, bucket_now, look, pause_if, wait_for_block,
  block_loop, block_phase, verdict, at_start, slow_down, check_rate_limit, Check, CheckOutcome,
  allowed, refused, after_block, touch_user,
}

module _ (during : ℕ → RateLimiter → RateLimiter) (clock : ℕ → ℕ) (req : Request) where
  abbrev NotBlocked : Check → Type 0
  NotBlocked c = (bucket_now during clock req c).blocked_until ≤ clock c.waits

  block_loop-NotBlocked :
      (left : ℕ) (c : Check)
      → (block_loop during clock req left true c).1 ≡ false
      → NotBlocked (block_loop during clock req left true c).0
  unfolding block_loop
  block_loop-NotBlocked zero c h = cc
  block_loop-NotBlocked (suc left) c h =
      elim (Bool-cases (
        leb (bucket_now during clock req (look during clock req c)).blocked_until
          (clock c.waits))) [
            | inl over ↦ rw (over, block_loop) (leb→le _ _ over)
            | inr blocked ↦
                rw (blocked, block_loop)
                  (block_loop-NotBlocked left _ (rw (blocked, block_loop) at h))
          ]

  first_round-NotBlocked :
      (left : ℕ) (c : Check)
      → (block_loop during clock req (suc left) false c).1 ≡ false
      → NotBlocked (block_loop during clock req (suc left) false c).0
  unfolding block_loop
  first_round-NotBlocked left c h =
      elim (Bool-cases (
        leb (bucket_now during clock req (look during clock req c)).blocked_until
          (clock c.waits))) [
            | inl over ↦ rw (over, block_loop) (leb→le _ _ over)
            | inr blocked ↦
                rw (blocked, block_loop)
                  (block_loop-NotBlocked left _ (rw (blocked, block_loop) at h))
          ]

  block_loop-waits :
      (left : ℕ) (still : Bool) (c : Check)
      → (block_loop during clock req left still c).0.waits ≤ c.waits + left
  unfolding block_loop
  block_loop-waits zero still c = omega arith
  block_loop-waits (suc left) still c =
      elim (Bool-cases (
        leb (bucket_now during clock req (look during clock req c)).blocked_until
          (clock c.waits))) [
            | inl over ↦ rw (over, block_loop) (omega arith)
            | inr blocked ↦
                rw (blocked, block_loop)
                  (omega (
                    arith,
                    block_loop-waits left true
                        (wait_for_block during clock req (look during clock req c)),
                  ))
          ]

  abbrev pub waits_of : CheckOutcome → ℕ
  waits_of (allowed c) = c.waits
  waits_of (refused ms c) = c.waits

  verdict-waits : (r : Check × Bool) → waits_of (verdict during clock req r) ≡ r.0.waits
  unfolding verdict
  verdict-waits (c, still) = ground arith

  block_phase-waits : (lim : RateLimiter) → waits_of (block_phase during clock req lim) ≤ 10
  unfolding block_phase
  block_phase-waits lim = omega (
    arith,
    verdict-waits (block_loop during clock req 10 false (at_start during clock req lim)),
    block_loop-waits 10 false (at_start during clock req lim),
  )

  allowed_inj : (b c : Check) → allowed b ≡ allowed c → b ≡ c
  allowed_inj b c p = cc

  not_allowed : (ms : ℕ) (b c : Check) → refused ms b ≢ allowed c
  not_allowed ms b c p = cc

  verdict-NotBlocked :
      (r : Check × Bool) (c : Check)
      → (r.1 ≡ false → NotBlocked r.0)
      → verdict during clock req r ≡ allowed c
      → NotBlocked c
  unfolding verdict
  verdict-NotBlocked (b, false) c k h = subst NotBlocked (allowed_inj b c h) (k refl)
  verdict-NotBlocked (b, true) c k h =
      elim (Bool-cases (ltb (clock b.waits) (bucket_now during clock req b).blocked_until)) [
        | inl blocked ↦ absurd (not_allowed _ b c (rw (blocked, verdict) at h))
        | inr over ↦
            subst NotBlocked (allowed_inj b c (rw (over, verdict) at h)) (ltb-false _ _ over)
      ]

  block_phase-NotBlocked :
      (lim : RateLimiter) (c : Check) → block_phase during clock req lim ≡ allowed c → NotBlocked c
  unfolding block_phase
  block_phase-NotBlocked lim c h =
      verdict-NotBlocked (block_loop during clock req 10 false (at_start during clock req lim)) c
        (first_round-NotBlocked 9 (at_start during clock req lim)) h

  after_block-allowed :
      (o : CheckOutcome) (c : Check)
      → after_block during clock req o ≡ allowed c
      → (b : Check) × (o ≡ allowed b) × (c ≡ slow_down during clock req b)
  unfolding after_block
  after_block-allowed (allowed b) c h = (b, refl, sym (allowed_inj _ c h))
  after_block-allowed (refused ms b) c h = absurd (not_allowed ms b c h)

  pause_if-waits : (o : Option ℕ) (c : Check) → (pause_if during clock req o c).waits ≤ c.waits + 1
  pause_if-waits none c = omega arith
  pause_if-waits (some ms) c = omega arith

  slow_down-waits : (c : Check) → (slow_down during clock req c).waits ≤ c.waits + 3
  unfolding slow_down
  slow_down-waits c =
      let touched = touch_user during clock req c in
      let wait = error_limit_wait (error_limit_of touched.limiter req) in
      let rested = pause_if during clock req wait touched in
      let seen = look during clock req rested in
      let wait' = bucket_wait seen.limiter (bucket_now during clock req seen) in
      let slowed = pause_if during clock req wait' seen in
      let wait'' = min_delay_wait slowed.limiter (clock slowed.waits) in
      omega (
        arith,
        pause_if-waits wait touched,
        pause_if-waits wait' seen,
        pause_if-waits wait'' slowed,
      )

  after_block-waits :
      (o : CheckOutcome) → waits_of (after_block during clock req o) ≤ waits_of o + 3
  unfolding after_block
  after_block-waits (allowed c) = slow_down-waits c
  after_block-waits (refused ms c) = omega arith

  if_false : (b : Bool) (x y : CheckOutcome) → b ≡ false → (if b then x else y) ≡ y
  if_false b x y h = rw h refl

  if-waits :
      (b : Bool) (x y : CheckOutcome)
      → waits_of x ≤ 13
      → waits_of y ≤ 13
      → waits_of (if b then x else y) ≤ 13
  if-waits true x y h k = h
  if-waits false x y h k = k

  -- Whatever other requests and responses do to the limiter during the waits, a check that lets a
  -- request go on, outside test mode, found the request's bucket not blocked at the moment when the
  -- rounds for the block ended, and then only ran the waits that slow a request down.
  pub no_request_while_blocked :
      (lim : RateLimiter) (c : Check)
      → lim.is_test_mode ≡ false
      → check_rate_limit during clock req lim ≡ allowed c
      → (b : Check) × ((bucket_now during clock req b).blocked_until ≤ clock b.waits)
        × (c ≡ slow_down during clock req b)
  unfolding check_rate_limit
  no_request_while_blocked lim c live h =
      let (b, e, k) =
        after_block-allowed (block_phase during clock req (cleanup_stale_users lim (clock 0))) c
          (sym (if_false lim.is_test_mode _ _ live) ∙ h) in
      (b, block_phase-NotBlocked _ b e, k)

  -- A check waits at most thirteen times, whatever responses arrive in the meantime: ten times for
  -- a block and once each for the error limit, the bucket and the delay between requests.
  pub check_waits_bounded :
      (lim : RateLimiter) → waits_of (check_rate_limit during clock req lim) ≤ 13
  unfolding check_rate_limit
  check_waits_bounded lim = if-waits lim.is_test_mode _ _ (omega arith) (
      omega (
        arith,
        block_phase-waits (cleanup_stale_users lim (clock 0)),
        after_block-waits (block_phase during clock req (cleanup_stale_users lim (clock 0))),
      ))
