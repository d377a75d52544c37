-- ===== src/Auth/Service/Accepted.antt =====
-- internal/auth/service.go, sessions.go and middleware.go: the session of a login is good for requests.
use cb_back.Prelude.{ℕ, ◌+◌, ◌≤◌, ◌≡◌, sym, ◌∙◌, ap, subst, Bool, false, Option, Text, null}
use cb_back.Prelude.Results.{Result, done}
use cb_back.Prelude.Stateful.{Succeeds-done}
use cb_back.Auth.Redis.{Error}
use cb_back.Auth.Users.{User}
use cb_back.Auth.Sessions
use cb_back.Auth.Sessions.{Session, session_key, new_session}
use cb_back.Auth.Sessions.Newest.{IsLatest}
use cb_back.Auth.Sessions.Issue.{IsRecord, stored}
use cb_back.Auth.Middleware
use cb_back.Auth.Middleware.{passed, token_from, require}
use cb_back.Auth.Middleware.Accepted.{require-create}
use cb_back.Auth.Service.{Backend, World, Chance, Credentials, Issued, login}
use cb_back.Auth.Service.Issue.{IsIssue, login-IsIssue}

module _ (v : Backend) (x : Chance) (cred : Credentials) where
  open v use {sessions}
  open (sessions.redis) use {State, value, get}

  module _ (by_id : Text → Result Error User) (equal_fold : Text → Text → Bool) where
    -- The session check, over the same sessions.
    abbrev pub checker : Middleware.Service
    checker = record { sessions = sessions; by_id = by_id; equal_fold = equal_fold }

    -- What a login hands out is good for requests: when the drawn token is not empty, the login
    -- succeeds and its session is newer than the user's other ones, then until the absolute expiry, in
    -- any state in which Redis answers and still has what the login left under the session's key,
    -- Require passes on a request that bears the token of the login, with the user as the database has
    -- it, the session and the token.
    pub login_accepted :
        (t payload : Text) (w : World v) (i : Issued) (r : Middleware.Request) (later : ℕ)
        (s' : State) (o : Option Text) (u : User)
        → x.token ≡ done t
        → null t ≡ false
        → (login v x cred w).0 ≡ done i
        → IsRecord sessions (new_session sessions t i.user.id cred.ip cred.user_agent x.now) payload
        → IsLatest sessions i.user.id
            (sessions.hash_token t)
            x.now
            (stored sessions t i.user.id cred.ip cred.user_agent payload x.now w.1)
        → value s' (session_key (sessions.hash_token t))
          ≡ value (login v x cred w).1.1 (session_key (sessions.hash_token t))
        → get (session_key (sessions.hash_token t)) s' ≡ done o
        → by_id i.user.id ≡ done u
        → token_from checker r ≡ i.token
        → later ≤ x.now + sessions.absolute_ttl
        → (require checker r later s').0
          ≡ passed (record { user = u; session = i.session; token = i.token })
    login_accepted t payload w i r later s' o u d n h k l same up b bears a =
        let issue : IsIssue v x cred w.1 i (login v x cred w).1 =
          Succeeds-done (λ j w'. IsIssue v x cred w.1 j w') (login v x cred w) i
            (login-IsIssue v x cred w) h in
        let made : Sessions.create sessions (done t) i.user.id cred.ip cred.user_agent x.now w.1
            ≡ (done (i.token, i.session), (login v x cred w).1.1) =
          subst
            (λ y.
              Sessions.create sessions y i.user.id cred.ip cred.user_agent x.now w.1
              ≡ (done (i.token, i.session), (login v x cred w).1.1))
            d issue in
        let key = session_key (sessions.hash_token t) in
        require-create checker t i.user.id cred.ip cred.user_agent payload x.now w.1
          (i.token, i.session) r later s' o u k l
          (ap (λ (y : Result Error (Text × Session) × State). y.0) made)
          (same ∙ ap (λ (y : Result Error (Text × Session) × State). value y.1 key) (sym made)) up b
          n bears a
