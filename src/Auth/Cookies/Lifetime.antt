-- ===== src/Auth/Cookies/Lifetime.antt =====
-- internal/auth/middleware.go: a refreshed cookie ends with the session or before.
use cb_back.Prelude.{
  ℕ, ◌+◌, ◌-◌, ◌*◌, ◌/◌, ◌≤◌, ◌<◌, ◌≡◌, ◌≢◌, refl, subst, true, some, null, arith, Bool-cases,
  Option-cases, inl, inr,
}
use cb_back.Prelude.Int.{pos}
use cb_back.Auth.Middleware.{Request, Identity}
use cb_back.Auth.Cookies.{Settings, Cookie, expiry, set_cookie, refresh_cookie}

-- What a cookie may outlive: neither the idle window nor the session that it refers to.
record IsWithin (s : Settings) (now later : ℕ) (i : Identity) (c : Cookie) : Type 0 where
  value : c.value ≡ i.token
  idle : c.expires ≤ now + s.idle_ttl
  session : c.expires ≤ i.session.expires_at
  exact : c.expires ≢ now + s.idle_ttl → c.expires ≡ i.session.expires_at
  age : (m : ℕ) × (c.max_age ≡ pos m) × (later + m * 1000000000 ≤ c.expires)
  http_only : c.http_only ≡ true

set-IsWithin :
    (s : Settings) (now later : ℕ) (i : Identity)
    → 0 < i.session.expires_at
    → later ≤ expiry s now i.session.expires_at
    → IsWithin s now later i (set_cookie s now later i.token i.session.expires_at)
unfolding set_cookie
set-IsWithin s now later i h k = record {
  value = refl;
  idle = ground (arith, h);
  session = ground (arith, h);
  exact = λ n. ground (arith, n);
  age = (
    (expiry s now i.session.expires_at - later) / 1000000000,
    ground (arith, k),
    omega (arith, k),
  );
  http_only = refl;
}

-- A cookie that is issued anew bears the token of the request's identity, expires no later than the
-- idle window and the session, at the earlier of the two, is told an age that does not reach past
-- that, and is out of the reach of scripts.
refresh-IsWithin :
    (s : Settings) (now later : ℕ) (r : Request) (i : Identity) (c : Cookie)
    → 0 < i.session.expires_at
    → later ≤ expiry s now i.session.expires_at
    → refresh_cookie s now later r i ≡ some c
    → IsWithin s now later i c
unfolding refresh_cookie
refresh-IsWithin s now later r i c h k e = elim (Bool-cases (null r.authorization)) [
  | inr p ↦ ground (arith, e, p)
  | inl p ↦ elim (Option-cases r.cookie) [
    | inl q ↦ ground (arith, e, p, q)
    | inr (value, q) ↦
        let same : set_cookie s now later i.token i.session.expires_at ≡ c =
          ground (arith, e, p, q) in
        subst (IsWithin s now later i) same (set-IsWithin s now later i h k)
  ]
]
