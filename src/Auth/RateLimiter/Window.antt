-- ===== src/Auth/RateLimiter/Window.antt =====
-- internal/auth/ratelimit.go: what one window lets through, and that every window ends.
use cb_back.Prelude.{ℕ, suc, ◌<◌, ◌≡◌, Bool, true, Text, ltb, arith, Bool-cases, inl, inr, ◌↔◌}
use cb_back.Prelude.Int.{ℤ}
use cb_back.Prelude.Results.{Result, done}
use cb_back.Auth.Redis.{Error}
use cb_back.Auth.RateLimiter.{Counters, Limit, rate_key, verdict, increment_and_expire, allow}

-- The verdict by the count before the attempt.
verdict_lem :
    {m : ℕ} (limit : Limit) (n : ℕ) (ttl : ℤ)
    → n ≡ suc m
    → ◌≡◌ {A = Result Error (Bool × ℕ)} (done (verdict limit n ttl)) (done (true, 0))
      ↔ (m < limit.requests)
verdict_lem limit n ttl h = elim (Bool-cases (ltb limit.requests n)) [
  | inl p ↦ ground (arith, h, p)
  | inr p ↦ ground (arith, h, p)
]

module _ (c : Counters) where
  open c use {
    State, is_up, count, expires, incr_result, incr_count, incr_expires, p_expire_count,
    p_expire_expires, del_count,
  }

  -- A counter that counts has an expiry.
  abbrev pub EndsSometime : Text → State → Type 0
  EndsSometime k s = 0 < count s k → expires s k ≡ true

  pub increment_lem :
      (k : Text) (window : ℕ) (s : State)
      → (increment_and_expire c k window s).0.0 ≡ suc (count s k)
  unfolding increment_and_expire
  increment_lem k window s = incr_result k s

  pub increment_count :
      (k : Text) (window : ℕ) (s : State)
      → 0 < window
      → count (increment_and_expire c k window s).1 k ≡ suc (count s k)
  unfolding increment_and_expire
  increment_count k window s w =
      ground (arith, incr_result k s, incr_count k s, p_expire_count k window (c.incr k s).1 w)

  increment-EndsSometime :
      (k : Text) (window : ℕ) (s : State)
      → 0 < window
      → EndsSometime k s
      → EndsSometime k (increment_and_expire c k window s).1
  unfolding increment_and_expire
  increment-EndsSometime k window s w h p = ground (
    arith,
    h,
    p,
    incr_result k s,
    incr_count k s,
    incr_expires k s,
    p_expire_expires k window (c.incr k s).1 w,
  )

  -- Where the window is not empty, an attempt that Redis takes is within the quota exactly if fewer than the quota were counted
  -- before; it is counted either way, and a counter that had an expiry or did not exist has an
  -- expiry after it.
  allow_lem :
      (key : Text) (limit : Limit) (s : State)
      → 0 < limit.window
      → is_up s ≡ true
      → EndsSometime (rate_key key) s
      → (((allow c key limit s).0 ≡ done (true, 0)) ↔ (count s (rate_key key) < limit.requests))
        × (count (allow c key limit s).1 (rate_key key) ≡ suc (count s (rate_key key)))
        × EndsSometime (rate_key key) (allow c key limit s).1
  unfolding allow
  allow_lem key limit s w u h =
      let k = rate_key key in
      let r = increment_and_expire c k limit.window s in
      rw u (
        verdict_lem limit _ r.0.1 (increment_lem k limit.window s),
        increment_count k limit.window s w,
        increment-EndsSometime k limit.window s w h,
      )
