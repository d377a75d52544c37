-- ===== src/Auth/Middleware/Guard.antt =====
-- internal/auth/middleware.go: who comes through Require.
use cb_back.Auth.Sessions.Absence.{calls_keep, after_calls, Spares, Call}
use cb_back.Prelude.{
  List, AllOf, ℕ, ◌≤◌, ◌≡◌, ◌≢◌, refl, sym, subst, false, null, none, arith, Bool-cases, inl, inr,
}
use cb_back.Prelude.Results.{Result, done, failed, Result-cases}
use cb_back.Prelude.Stateful.{Succeeds, Succeeds-bind, Succeeds-done, done-Succeeds}
use cb_back.Auth.Redis.{
  Error, session_not_found, ticket_not_found, user_not_found, user_disabled, email_taken,
  no_credentials, unavailable, bad_record,
}
use cb_back.Auth.Sessions.{Session, find, revoke, session_key}
use cb_back.Auth.Sessions.Revocation.{IsGone, find_lem, revoke-IsGone}
use cb_back.Auth.Middleware.{
  Request, Service, Identity, passed, token_from, identity_of, identify, answer, require,
}

module _ (v : Service) where
  open v use {sessions, by_id}
  open (sessions.redis) use {State, value}

  -- The request's own token, its live session, and that session's user as the database has it.
  pub record IsAuthentic (r : Request) (now : ℕ) (s : State) (i : Identity) : Type 0 where
    pub token : i.token ≡ token_from v r
    pub nonempty : null i.token ≡ false
    pub session : i.session.id ≡ sessions.hash_token i.token
    pub alive : now ≤ i.session.expires_at
    pub stored : value s (session_key (sessions.hash_token i.token)) ≢ none
    pub user : by_id i.session.user_id ≡ done i.user

  identity-IsAuthentic :
      (r : Request) (now : ℕ) (s s' : State) (sess : Session)
      → null (token_from v r) ≡ false
      → (sess.id ≡ sessions.hash_token (token_from v r))
        × (now ≤ sess.expires_at)
        × (value s (session_key (sessions.hash_token (token_from v r))) ≢ none)
      → Succeeds (λ i _. IsAuthentic r now s i) (identity_of v (token_from v r) sess s')
  unfolding identity_of
  identity-IsAuthentic r now s s' sess n h = elim (Result-cases (by_id sess.user_id)) [
    | inr (e, p) ↦ rw (p, identity_of) tt
    | inl (user, p) ↦
        rw (p, identity_of)
          record { token = refl; nonempty = n; session = h.0; alive = h.1; stored = h.2; user = p }
  ]

  pub identify-IsAuthentic :
      (r : Request) (now : ℕ) (s : State)
      → Succeeds (λ i _. IsAuthentic r now s i) (identify v r now s)
  unfolding identify
  identify-IsAuthentic r now s = elim (Bool-cases (null (token_from v r))) [
    | inl p ↦ rw (p, identify) tt
    | inr p ↦
        rw (p, identify)
          (Succeeds-bind
            (λ sess _.
              (sess.id ≡ sessions.hash_token (token_from v r))
              × (now ≤ sess.expires_at)
              × (value s (session_key (sessions.hash_token (token_from v r))) ≢ none))
            _ (find sessions (token_from v r) now) (identity_of v (token_from v r)) s
            (done-Succeeds _ (find sessions (token_from v r) now s)
              λ sess h. find_lem sessions (token_from v r) now s sess h)
            (λ sess s' h. identity-IsAuthentic r now s s' sess p h))
  ]

  answer_lem :
      (P : Identity → Type 0) (now : ℕ) (r : Result Error Identity × State) (i : Identity)
      → Succeeds (λ i _. P i) r
      → (answer v now r).0 ≡ passed i
      → P i
  unfolding answer
  answer_lem P now (done j, s) i p h = subst P (ground (arith, h)) p
  answer_lem P now (failed session_not_found, s) i p h = ground (arith, h)
  answer_lem P now (failed ticket_not_found, s) i p h = ground (arith, h)
  answer_lem P now (failed user_not_found, s) i p h = ground (arith, h)
  answer_lem P now (failed user_disabled, s) i p h = ground (arith, h)
  answer_lem P now (failed email_taken, s) i p h = ground (arith, h)
  answer_lem P now (failed no_credentials, s) i p h = ground (arith, h)
  answer_lem P now (failed unavailable, s) i p h = ground (arith, h)
  answer_lem P now (failed bad_record, s) i p h = ground (arith, h)

  -- A request that Require passes on bears a token, and its identity is that token, a session
  -- stored under the token's hash that is not past its absolute expiry, and the session's user as
  -- the database has it at that moment.
  pub require-IsAuthentic :
      (r : Request) (now : ℕ) (s : State) (i : Identity)
      → (require v r now s).0 ≡ passed i
      → IsAuthentic r now s i
  unfolding require
  require-IsAuthentic r now s i h =
      answer_lem (IsAuthentic r now s) now (identify v r now s) i (identify-IsAuthentic r now s) h

  -- After a revocation of a token that reports no error, and whatever other calls of the store come in
  -- between, Require passes on no request that bears the token, at any time; but none of these calls may be
  -- a Touch of the revoked session, as a request that had looked it up before may still make it, and none
  -- the creation of a session with a token of the same hash.
  pub require-revoke :
      (r : Request) (calls : List Call) (now : ℕ) (s : State) (i : Identity)
      → (revoke sessions (token_from v r) s).0 ≡ done tt
      → AllOf (Spares sessions (sessions.hash_token (token_from v r))) calls
      → (require v r now (after_calls sessions calls (revoke sessions (token_from v r) s).1)).0
        ≢ passed i
  require-revoke r calls now s i h d p =
      let t = token_from v r in
      let s' = after_calls sessions calls (revoke sessions t s).1 in
      let a = require-IsAuthentic r now s' i p in
      let same : i.token ≡ t = a.token in
      let gone : IsGone sessions (sessions.hash_token t) (revoke sessions t s).1 =
        Succeeds-done (λ _ u. IsGone sessions (sessions.hash_token t) u) (revoke sessions t s) tt
          (revoke-IsGone sessions t s) h in
      a.stored (
        subst (λ x. value s' (session_key (sessions.hash_token x)) ≡ none) (sym same)
          (calls_keep sessions (sessions.hash_token t) calls (revoke sessions t s).1 d gone))
