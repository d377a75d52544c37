-- ===== src/Auth/Handlers/Delivery.antt =====
-- internal/auth/handlers.go: where a fresh token goes, and what a refused login is told.
use cb_back.Auth.Service.Issue.{IsIssued}
use cb_back.Prelude.{
  ℕ, ◌≡◌, refl, sym, ap, subst, ◌∙◌, true, false, none, some, text_eq, codes, ◌++◌, arith,
}
use cb_back.Prelude.Results.{Result, done, failed}
use cb_back.Auth.Redis.{Error}
use cb_back.Auth.Password.{PasswordError}
use cb_back.Auth.RateLimiter.{login_per_ip}
use cb_back.Auth.Users.{by_email_with_credential}
use cb_back.Auth.Cookies.{Settings, Cookie, set_cookie}
use cb_back.Auth.Service.{Backend, World, Chance, Credentials, Issued, check, check_account, login}
use cb_back.Auth.Service.Errors.{
  Failure, rate_limited, invalid_credentials, invalid_email, invalid_display_name, bad_password,
  internal, normalize_email,
}
use cb_back.Auth.Service.Login.{IsVerified, login-IsVerified, IsUnmatched, login-refused}
use cb_back.Auth.Handlers.{
  session, Reply, Call, mode_bearer, refusal, write_session, session_reply, logged_in, handle_login,
  auth_error,
}

module _ (v : Backend) (s : Settings) where
  open v use {db, addresses}

  -- The token of an issued session is in the body or in the cookie, never in both.
  pub record IsDelivered (call : Call) (i : Issued) (r : Reply) : Type 0 where
    pub in_body :
        text_eq call.mode mode_bearer ≡ true
        → (r.cookie ≡ none) × (r.body ≡ session i.user i.session.expires_at (some i.token))
    pub in_cookie :
        text_eq call.mode mode_bearer ≡ false
        → ((c : Cookie) × (r.cookie ≡ some c) × (c.value ≡ i.token) × (c.http_only ≡ true))
          × (r.body ≡ session i.user i.session.expires_at none)

  write-IsDelivered :
      (call : Call) (status : ℕ) (i : Issued) → IsDelivered call i (write_session v s call status i)
  unfolding write_session set_cookie
  write-IsDelivered call status i = record {
    in_body = λ h. rw h (refl, refl);
    in_cookie = λ h.
        let set = set_cookie s call.now call.later i.token i.session.expires_at in
        rw h ((set, refl, refl, refl), refl);
  }

  password_refused : (e : PasswordError) → (auth_error (bad_password e)).status ≡ 200 → ⊥
  unfolding auth_error
  password_refused e h = ground (arith, h)

  internal_refused : (e : Error) → (auth_error (internal e)).status ≡ 200 → ⊥
  unfolding auth_error
  internal_refused e h = ground (arith, h)

  refused_lem : (f : Failure) → (auth_error f).status ≡ 200 → ⊥
  unfolding auth_error
  refused_lem (rate_limited wait) h = ground (arith, h)
  refused_lem invalid_credentials h = ground (arith, h)
  refused_lem invalid_email h = ground (arith, h)
  refused_lem invalid_display_name h = ground (arith, h)
  refused_lem (bad_password e) h = password_refused e h
  refused_lem (internal e) h = internal_refused e h

  -- A session was issued for a verified user and stored, and its token is delivered.
  pub record IsAnswered (x : Chance) (call : Call) (cred : Credentials) (w : World v)
      (r : Reply × World v) : Type 0 where
    pub issued : Issued
    pub verified : IsVerified v x cred w.2 issued
    pub started : IsIssued v x cred w.1 issued r.1.1
    pub delivered : IsDelivered call issued r.0

  session-IsAnswered :
      (x : Chance) (call : Call) (cred : Credentials) (w : World v)
      (r : Result Failure Issued × World v)
      → ((i : Issued) → r.0 ≡ done i → IsVerified v x cred w.2 i × IsIssued v x cred w.1 i r.1.1)
      → (session_reply v s call 200 r).0.status ≡ 200
      → IsAnswered x call cred w (session_reply v s call 200 r)
  session-IsAnswered x call cred w (failed f, w') k h = absurd (refused_lem f h)
  session-IsAnswered x call cred w (done i, w') k h = record {
    issued = i;
    verified = (k i refl).0;
    started = (k i refl).1;
    delivered = write-IsDelivered call 200 i;
  }

  unmatched_reply :
      (call : Call) (r : Result Failure Issued × World v)
      → r.0 ≡ failed invalid_credentials
      → (session_reply v s call 200 r).0 ≡ refusal 401 (codes "invalid_credentials")
  unfolding auth_error
  unmatched_reply call (done i, w) h = ground (arith, h)
  unmatched_reply call (failed f, w) h =
      let same : f ≡ invalid_credentials = ground (arith, h) in ap auth_error same

  decoded_lem :
      (x : Chance) (call : Call) (cred : Credentials) (w : World v)
      → call.credentials ≡ some cred
      → session_reply v s call 200 (login v x cred w) ≡ handle_login v s x call w
  unfolding handle_login
  decoded_lem x call cred w e = ap (logged_in v s x call w) (sym e)

  -- A login that is answered with 200 was to a user who was verified, and has issued a session for this
  -- user, which is stored in Redis under the hash of its token and indexed; and the token is in the
  -- body alone where the client asked for it and in a cookie alone otherwise.
  pub handle-login-IsAnswered :
      (x : Chance) (call : Call) (cred : Credentials) (w : World v)
      → call.credentials ≡ some cred
      → (handle_login v s x call w).0.status ≡ 200
      → IsAnswered x call cred w (handle_login v s x call w)
  handle-login-IsAnswered x call cred w e =
      subst (λ (r : Reply × World v). r.0.status ≡ 200 → IsAnswered x call cred w r)
        (decoded_lem x call cred w e)
        (session-IsAnswered x call cred w (login v x cred w) (λ i. login-IsVerified v x cred i w))

  -- Once both limits let a login through, its reply is the same 401, with the same code and without a
  -- cookie, whether there is no such account, the account has no password or is disabled, or the password does not match or
  -- cannot be verified.
  pub handle-login-refused :
      (x : Chance) (call : Call) (cred : Credentials) (w : World v)
      → call.credentials ≡ some cred
      → (check v (codes "login:ip:" ++ cred.ip) login_per_ip w).0 ≡ done tt
      → (check_account v cred
          (normalize_email addresses cred.email)
          (check v (codes "login:ip:" ++ cred.ip) login_per_ip w).1).0
        ≡ done tt
      → IsUnmatched v x cred
          (by_email_with_credential db (normalize_email addresses cred.email) w.2)
      → (handle_login v s x call w).0 ≡ refusal 401 (codes "invalid_credentials")
  handle-login-refused x call cred w e h k u =
      ap (λ r. r.0) (sym (decoded_lem x call cred w e))
      ∙ unmatched_reply call (login v x cred w) (login-refused v x cred w h k u)
