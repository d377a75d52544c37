-- ===== src/Auth/RateLimiter.antt =====
-- internal/auth/ratelimit.go: RateLimiter, whose counters Redis holds under keys that expire.
pub mod Window
pub mod Quota
use cb_back.Prelude.{
  ℕ, zero, suc, ◌<◌, ◌≡◌, Bool, true, false, not, Option, none, some, Text, codes, ltb, ◌==◌, ◌++◌,
  if◌then◌else◌,
}
use cb_back.Prelude.Int.{ℤ, pos, negsuc}
use cb_back.Prelude.Results.{Result, done, failed}
use cb_back.Auth.Redis.{Error, unavailable}

-- INCR, PEXPIRE, PTTL and DEL on counters; a key that is not there counts 0 and has no expiry. A
-- state includes the time. Whether the server can be reached depends on the state.
pub record Counters : Type 1 where
  pub State : Type 0
  pub is_up : State → Bool
  pub count : State → Text → ℕ
  pub expires : State → Text → Bool
  pub incr : Text → State → ℕ × State
  pub p_expire : Text → ℕ → State → State
  pub p_ttl : Text → State → ℤ
  pub del : Text → State → State
  pub incr_result : (k : Text) (s : State) → (incr k s).0 ≡ suc (count s k)
  pub incr_count : (k : Text) (s : State) → count (incr k s).1 k ≡ suc (count s k)
  pub incr_expires : (k : Text) (s : State) → expires (incr k s).1 k ≡ expires s k
  pub p_expire_count : (k : Text) (n : ℕ) (s : State) → 0 < n → count (p_expire k n s) k ≡ count s k
  pub p_expire_expires :
      (k : Text) (n : ℕ) (s : State) → 0 < n → 0 < count s k → expires (p_expire k n s) k ≡ true
  pub del_count : (k : Text) (s : State) → count (del k s) k ≡ 0

-- The window is in milliseconds.
pub record Limit : Type 0 where
  pub requests : ℕ
  pub window : ℕ

abbrev pub login_per_account : Limit
login_per_account = record { requests = 5; window = 900000 }

abbrev pub login_per_ip : Limit
login_per_ip = record { requests = 20; window = 900000 }

abbrev pub register_per_ip : Limit
register_per_ip = record { requests = 5; window = 3600000 }

abbrev pub password_change_ip : Limit
password_change_ip = record { requests = 10; window = 3600000 }

abbrev pub rate_key : Text → Text
rate_key key = codes "rl:" ++ key

-- time.Duration(ttlMillis) or, where the key has no expiry, the whole window.
abbrev retry_after : ℤ → ℕ → ℕ
retry_after (pos ttl) window = ttl
retry_after (negsuc n) window = window

-- By the count and the time to live that the script replied.
abbrev pub verdict : Limit → ℕ → ℤ → Bool × ℕ
verdict limit n ttl =
    if ltb limit.requests n then (false, retry_after ttl limit.window) else (true, 0)

module _ (c : Counters) where
  open c use {State, is_up, incr, p_expire, p_ttl, del}

  -- The script, which Redis runs as one step.
  unfoldable pub increment_and_expire : Text → ℕ → State → (ℕ × ℤ) × State
  increment_and_expire k window s =
      let (n, s') = incr k s in
      let s'' = if n == 1 then p_expire k window s' else s' in ((n, p_ttl k s''), s'')

  -- Whether the attempt is within the quota, and how long to wait otherwise.
  unfoldable pub allow : Text → Limit → State → Result Error (Bool × ℕ) × State
  allow key limit s =
      if not (is_up s)
      then (failed unavailable, s)
      else let replied = increment_and_expire (rate_key key) limit.window s in
        (done (verdict limit replied.0.0 replied.0.1), replied.1)

  unfoldable pub reset : Text → State → Result Error (Unit {0}) × State
  reset key s = if is_up s then (done tt, del (rate_key key) s) else (failed unavailable, s)
