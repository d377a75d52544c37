-- ===== src/Auth/RateLimiter/Quota.antt =====
-- internal/auth/ratelimit.go: of the attempts of one window, the quota is admitted and no more.
use cb_back.Prelude.{
  ℕ, zero, suc, ◌+◌, ◌-◌, ◌<◌, ◌≡◌, Bool, true, false, Text, ltb, leb, if◌then◌else◌, arith,
  Bool-cases, inl, inr,
}
use cb_back.Prelude.Int.{ℤ}
use cb_back.Prelude.Results.{Result, done, failed}
use cb_back.Auth.Redis.{Error}
use cb_back.Auth.RateLimiter.{Counters, Limit, rate_key, verdict, increment_and_expire, allow}
use cb_back.Auth.RateLimiter.Window.{increment_lem, increment_count}

-- 1 for an attempt that is let through.
abbrev pub admitted : Result Error (Bool × ℕ) → ℕ
admitted (failed e) = 0
admitted (done (true, wait)) = 1
admitted (done (false, wait)) = 0

verdict-admitted :
    (limit : Limit) (n m : ℕ) (ttl : ℤ)
    → n ≡ suc m
    → admitted (done (verdict limit n ttl)) ≡ (if ltb m limit.requests then 1 else 0)
verdict-admitted limit n m ttl h = elim (Bool-cases (ltb limit.requests n)) [
  | inl p ↦ ground (arith, h, p)
  | inr p ↦ ground (arith, h, p)
]

module _ (c : Counters) (key : Text) (limit : Limit) where
  open c use {State, is_up, count}

  -- The number of attempts that are let through, of so many that come one after the other before
  -- the window ends.
  unfoldable pub run_attempts : ℕ → State → ℕ × State
  run_attempts zero s = (0, s)
  run_attempts (suc n) s =
      let first = allow c key limit s in
      let rest = run_attempts n first.1 in (admitted first.0 + rest.0, rest.1)

  -- Redis can be reached at each of the attempts.
  abbrev pub StaysUp : ℕ → State → Type 0
  StaysUp zero s = Unit {0}
  StaysUp (suc n) s = (is_up s ≡ true) × StaysUp n (allow c key limit s).1

  allow-admitted :
      (s : State)
      → 0 < limit.window
      → is_up s ≡ true
      → (admitted (allow c key limit s).0
          ≡ (if ltb (count s (rate_key key)) limit.requests then 1 else 0))
        × (count (allow c key limit s).1 (rate_key key) ≡ suc (count s (rate_key key)))
  unfolding allow
  allow-admitted s w u =
      let k = rate_key key in
      let r = increment_and_expire c k limit.window s in
      rw u (
        verdict-admitted limit r.0.0 (count s k) r.0.1 (increment_lem c k limit.window s),
        increment_count c k limit.window s w,
      )

  -- Where the window is not empty: of the attempts of one window that Redis takes, in a row and from any count on, as many are let
  -- through as are left of the quota, and all of them if they are fewer.
  pub attempts-admitted :
      (n : ℕ) (s : State)
      → 0 < limit.window
      → StaysUp n s
      → (run_attempts n s).0 ≡ (
          if leb n (limit.requests - count s (rate_key key))
          then n
          else limit.requests - count s (rate_key key))
  unfolding run_attempts
  attempts-admitted zero s w u = ground arith
  attempts-admitted (suc n) s w (u, us) =
      let (one, next) = allow-admitted s w u in
      ground (arith, one, next, attempts-admitted n (allow c key limit s).1 w us)
