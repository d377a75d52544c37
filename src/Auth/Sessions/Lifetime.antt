-- ===== src/Auth/Sessions/Lifetime.antt =====
-- internal/auth/sessions.go: how long Redis keeps a session.
use cb_back.Prelude.{ℕ, ◌+◌, ◌-◌, ◌≤◌, ◌≡◌, ◌≢◌, arith, Bool-cases, inl, inr, ltb}
use cb_back.Prelude.Int.{pos}
use cb_back.Auth.Sessions.{Session, Store, ttl_for}

module _ (st : Store) where
  open st use {idle_ttl}

  -- A session that has not passed its absolute expiry is kept for a time that is within the idle
  -- lifetime and ends no later than the absolute expiry, and that is the shorter of the two.
  ttl_for_lem :
      (sess : Session) (now : ℕ)
      → now ≤ sess.expires_at
      → (m : ℕ) × (ttl_for st sess now ≡ pos m)
        × (m ≤ idle_ttl)
        × (now + m ≤ sess.expires_at)
        × (m ≢ idle_ttl → now + m ≡ sess.expires_at)
  ttl_for_lem sess now h = elim (Bool-cases (ltb (sess.expires_at - now) idle_ttl)) [
    | inl p ↦ (
      sess.expires_at - now,
      ground (arith, h, p),
      ground (arith, h, p),
      omega (arith, h),
      λ n. omega (arith, h),
    )
    | inr p ↦
        (idle_ttl, ground (arith, h, p), omega arith, ground (arith, h, p), λ n. ground (arith, n))
  ]
