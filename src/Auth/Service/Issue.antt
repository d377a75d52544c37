-- ===== src/Auth/Service/Issue.antt =====
-- internal/auth/service.go and sessions.go: the session that a login or a registration issues.
use cb_back.Prelude.Int.{pos, ℤ}
use cb_back.Prelude.{
  arith, Option-cases, inr, inl, [], ◌∷◌, some, ◌+◌, ◌≡◌, refl, ◌∙◌, ap, subst, Bool, true, false,
  Text, codes, ◌++◌,
}
use cb_back.Prelude.Results.{Result, done, failed}
use cb_back.Prelude.Stateful.{resume, Succeeds, Succeeds-if, Succeeds-bind, Succeeds-done}
use cb_back.Auth.Redis.{
  expire, s_add, set, Error, session_not_found, ticket_not_found, user_not_found, user_disabled,
  email_taken, no_credentials, unavailable, bad_record,
}
use cb_back.Auth.RateLimiter.{login_per_ip}
use cb_back.Auth.Users.{User, AuthEvent, by_email_with_credential}
use cb_back.Auth.Sessions
use cb_back.Auth.Sessions.{storing, trim_sessions, truncate, Session, session_key, new_session}
use cb_back.Auth.Password.{PasswordError}
use cb_back.Auth.Service.{
  issued, Backend, World, Chance, Credentials, Issued, check, check_account, verified, authenticate,
  look_up, login, start_session, session_started, lifted, audited, reset_counter, rehash,
  password_stored,
}
use cb_back.Auth.Service.Errors.{Failure, normalize_email}
use cb_back.Auth.Service.Steps.{Keeps, check-Keeps, check-account-Keeps}

module _ (v : Backend) (x : Chance) (cred : Credentials) where
  open v use {sessions, db, argon, addresses}
  open (sessions.redis) use {State, value, get}

  -- The session was created from the state of the store at the beginning.
  abbrev pub IsIssue : State → Issued → World v → Type 0
  IsIssue s i w' =
      Sessions.create sessions x.token i.user.id cred.ip cred.user_agent x.now s
      ≡ (done (i.token, i.session), w'.1)

  started-IsIssue :
      (u : User) (w : World v) (r : Result Error (Text × Session) × State)
      → Sessions.create sessions x.token u.id cred.ip cred.user_agent x.now w.1 ≡ r
      → Succeeds (λ i w'. IsIssue w.1 i w') (session_started v u (lifted v r.0, (w.0, r.1, w.2)))
  started-IsIssue u w (failed e, s) h = tt
  started-IsIssue u w (done (token, sess), s) h = h

  start-session-IsIssue :
      (u : User) (w : World v) → Succeeds (λ i w'. IsIssue w.1 i w') (start_session v x cred u w)
  unfolding start_session
  start-session-IsIssue u (l, r, d) = started-IsIssue u (l, r, d) _ refl

  -- Whatever holds of the user with any token and session holds of what was issued, and the session was
  -- created from a state of the store that is the same.
  started-Issues :
      (P : Issued → Type 0) (u : User) (w : World v) (r : Result Error (Text × Session) × State)
      → Sessions.create sessions x.token u.id cred.ip cred.user_agent x.now w.1 ≡ r
      → ((token : Text) (sess : Session) → P (issued v u (token, sess)))
      → Succeeds
          (λ i w'. P i × IsIssue w.1 i w')
          (session_started v u (lifted v r.0, (w.0, r.1, w.2)))
  started-Issues P u w (failed e, s) h k = tt
  started-Issues P u w (done (token, sess), s) h k = (k token sess, h)

  pub start-session-Issues :
      (P : Issued → Type 0) (s : State) (u : User) (w : World v)
      → w.1 ≡ s
      → ((token : Text) (sess : Session) → P (issued v u (token, sess)))
      → Succeeds (λ i w'. P i × IsIssue s i w') (start_session v x cred u w)
  unfolding start_session
  start-session-Issues P s u (l, r, d) e k =
      subst (λ t. Succeeds (λ i w'. P i × IsIssue t i w') (start_session v x cred u (l, r, d))) e
        (started-Issues P u (l, r, d) _ refl k)

  -- The session is for the user: under the hash of the token that was drawn, from now until the absolute
  -- expiry, with the address and the agent of the request. Redis stored its encoding under the session's
  -- key and its id in the index of the user, and was then left as the trimming of that index leaves it.
  pub record IsIssued (s : State) (i : Issued) (s' : State) : Type 0 where
    pub drawn : x.token ≡ done i.token
    pub session : i.session ≡ record {
      id = sessions.hash_token i.token;
      user_id = i.user.id;
      created_at = x.now;
      expires_at = x.now + sessions.absolute_ttl;
      last_seen_at = x.now;
      ip = cred.ip;
      user_agent = truncate cred.user_agent 512;
    }
    pub payload : Text
    pub encoded : sessions.marshal i.session ≡ some payload
    pub ttl : ℤ
    pub after : State
    pub stored :
        sessions.redis.exec
          (set (codes "sess:" ++ i.session.id) payload ttl
            ∷ s_add (codes "user_sess:" ++ i.user.id) (i.session.id ∷ [])
            ∷ expire (codes "user_sess:" ++ i.user.id) (pos sessions.absolute_ttl)
            ∷ [])
          s
        ≡ (done tt, after)
    pub trimmed : s' ≡ trim_sessions sessions i.user.id after

  abbrev session_of : Text → User → Session
  session_of token u = new_session sessions token u.id cred.ip cred.user_agent x.now

  no_failure :
      {P : Type 0} (e : Error) (r : Text × Session)
      → ◌≡◌ {A = Result Error (Text × Session)} (failed e) (done r)
      → P
  no_failure e r h = ground (arith, h)

  stored-IsIssued :
      (s : State) (u : User) (token payload : Text) (r : Result Error (Unit {0}) × State) (t : Text)
      (sess : Session) (s' : State)
      → x.token ≡ done token
      → sessions.marshal (session_of token u) ≡ some payload
      → sessions.redis.exec (storing sessions (session_of token u) payload x.now) s ≡ r
      → resume {B = Text × Session}
          (λ a s. (done (token, session_of token u), trim_sessions sessions u.id s))
          r
        ≡ (done (t, sess), s')
      → IsIssued s (record { user = u; token = t; session = sess }) s'
  stored-IsIssued s u token payload (failed e, after) t sess s' d m p h =
      no_failure e (t, sess) (ap (λ y. y.0) h)
  stored-IsIssued s u token payload (done a, after) t sess s' d m p h =
      subst
        (λ (y : Result Error (Text × Session) × State).
          Succeeds
            (λ (q : Text × Session) s''.
              IsIssued s (record { user = u; token = q.0; session = q.1 }) s'')
            y)
        h
        (record {
          drawn = d;
          session = refl;
          payload = payload;
          encoded = m;
          ttl = _;
          after = after;
          stored = p;
          trimmed = refl;
        })

  pub issue-IsIssued :
      (drawn : Result Error Text) (s : State) (i : Issued) (s' : State)
      → x.token ≡ drawn
      → Sessions.create sessions drawn i.user.id cred.ip cred.user_agent x.now s
        ≡ (done (i.token, i.session), s')
      → IsIssued s i s'
  unfolding Sessions.create
  issue-IsIssued (failed e) s i s' d h = no_failure e (i.token, i.session) (ap (λ y. y.0) h)
  issue-IsIssued (done token) s i s' d h =
      elim (Option-cases (sessions.marshal (session_of token i.user))) [
        | inl p ↦
            no_failure bad_record (i.token, i.session)
              (ap (λ y. y.0) (rw (Sessions.create, p) at h))
        | inr (payload, p) ↦
            stored-IsIssued s i.user token payload _ i.token i.session s' d p refl
              (rw (Sessions.create, p) at h)
      ]

  -- Neither the audit trail, nor the counters, nor the hash of a password is in the store.
  audited-IsIssue :
      (s : State) (e : AuthEvent) (r : Result Failure Issued × World v)
      → Succeeds (λ i w'. IsIssue s i w') r
      → Succeeds (λ i w'. IsIssue s i w') (audited v e r)
  audited-IsIssue s e (failed f, w) h = tt
  audited-IsIssue s e (done i, (l, r, d)) h = h

  stored_keeps :
      (u : User) (r : Result PasswordError Text) (w : World v) → (password_stored v u r w).1 ≡ w.1
  stored_keeps u (failed e) w = refl
  stored_keeps u (done hash) (l, r, d) = refl

  rehash_keeps :
      (outdated : Bool) (u : User) (password : Text) (w : World v)
      → (rehash v x outdated u password w).1 ≡ w.1
  rehash_keeps false u password w = refl
  rehash_keeps true u password w = stored_keeps u _ w

  reset_keeps : (email : Text) (w : World v) → (reset_counter v email w).1 ≡ w.1
  reset_keeps email (l, r, d) = refl

  verified-IsIssue :
      (email : Text) (u : User) (answer : Result PasswordError (Bool × Bool)) (w : World v)
      → Succeeds (λ i w'. IsIssue w.1 i w') (verified v x cred email u answer w)
  unfolding verified
  verified-IsIssue email u (failed e) w = tt
  verified-IsIssue email u (done (false, outdated)) w = tt
  verified-IsIssue email u (done (true, outdated)) w =
      let w' = rehash v x outdated u cred.password w in
      let same : (reset_counter v email w').1 ≡ w.1 =
        reset_keeps email w' ∙ rehash_keeps outdated u cred.password w in
      audited-IsIssue w.1 _ _ (
        subst
          (λ s.
            Succeeds (λ i w''. IsIssue s i w'')
              (start_session v x cred u (reset_counter v email w')))
          same (start-session-IsIssue u (reset_counter v email w')))

  authenticate-IsIssue :
      (email : Text) (found : Result Error (User × Text)) (w : World v)
      → Succeeds (λ i w'. IsIssue w.1 i w') (authenticate v x cred email found w)
  unfolding authenticate
  authenticate-IsIssue email (failed session_not_found) w = tt
  authenticate-IsIssue email (failed ticket_not_found) w = tt
  authenticate-IsIssue email (failed user_not_found) w = tt
  authenticate-IsIssue email (failed user_disabled) w = tt
  authenticate-IsIssue email (failed email_taken) w = tt
  authenticate-IsIssue email (failed no_credentials) w = tt
  authenticate-IsIssue email (failed unavailable) w = tt
  authenticate-IsIssue email (failed bad_record) w = tt
  authenticate-IsIssue email (done (u, hash)) w =
      Succeeds-if (λ i w'. IsIssue w.1 i w') u.is_disabled _ _ (λ p. tt)
        (λ p. verified-IsIssue email u _ w)

  pub login-IsIssue : (w : World v) → Succeeds (λ i w'. IsIssue w.1 i w') (login v x cred w)
  unfolding login
  login-IsIssue w =
      let email = normalize_email addresses cred.email in
      let Q : Issued → World v → Type 0 = λ i w'. IsIssue w.1 i w' in
      Succeeds-bind (λ _ w'. Keeps v w w') Q (check v (codes "login:ip:" ++ cred.ip) login_per_ip) _
        w (check-Keeps v (codes "login:ip:" ++ cred.ip) login_per_ip w)
        λ a w' k.
          Succeeds-bind (λ _ w''. Keeps v w' w'') Q (check_account v cred email) _ w'
            (check-account-Keeps v cred email w')
            (λ b (l, r, d) k'.
              subst (λ s. Succeeds (λ i w''. IsIssue s i w'') (look_up v x cred email (l, r, d)))
                (k'.0 ∙ k.0)
                (authenticate-IsIssue email (by_email_with_credential db email d) (l, r, d)))

  pub login-IsIssued :
      (i : Issued) (w : World v)
      → (login v x cred w).0 ≡ done i
      → IsIssued w.1 i (login v x cred w).1.1
  login-IsIssued i w h =
      issue-IsIssued x.token w.1 i (login v x cred w).1.1 refl
        (Succeeds-done (λ i w'. IsIssue w.1 i w') (login v x cred w) i (login-IsIssue w) h)
