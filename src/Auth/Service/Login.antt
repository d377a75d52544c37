-- ===== src/Auth/Service/Login.antt =====
-- internal/auth/service.go: which logins issue a session, and what the others are told.
use cb_back.Auth.Service.Issue.{login-IsIssued, IsIssued}
use cb_back.Prelude.{
  ◌≡◌, refl, sym, ap, subst, ◌∙◌, Bool, true, false, ◌⊎◌, inl, inr, Text, codes, ◌++◌, arith,
  Bool-cases, if_false,
}
use cb_back.Prelude.Results.{Result, done, failed}
use cb_back.Prelude.Stateful.{Succeeds, Succeeds-if, Succeeds-bind, Succeeds-done, resume_done}
use cb_back.Auth.Redis.{
  Error, session_not_found, ticket_not_found, user_not_found, user_disabled, email_taken,
  no_credentials, unavailable, bad_record,
}
use cb_back.Auth.RateLimiter.{login_per_ip}
use cb_back.Auth.Users.{User, by_email_with_credential}
use cb_back.Auth.Password.{PasswordError, verify_password}
use cb_back.Auth.Service.{
  Backend, World, Chance, Credentials, Issued, check, check_account, verified, authenticate,
  look_up, login,
}
use cb_back.Auth.Service.Errors.{Failure, invalid_credentials, normalize_email}
use cb_back.Auth.Service.Steps.{
  Keeps, check-Keeps, check-account-Keeps, audited-Succeeds, start-session-Succeeds,
}

module _ (v : Backend) (x : Chance) (cred : Credentials) where
  open v use {db, argon, addresses}

  -- The user of the address as the database has it, who is not disabled; and the password was
  -- verified against the hash that is stored for this user.
  pub record IsVerified (d : db.State) (i : Issued) : Type 0 where
    pub hash : Text
    pub is_outdated : Bool
    pub found :
        by_email_with_credential db (normalize_email addresses cred.email) d ≡ done (i.user, hash)
    pub enabled : i.user.is_disabled ≡ false
    pub matches : verify_password argon x.verify_slot hash cred.password ≡ done (true, is_outdated)

  verified-IsVerified :
      (d : db.State) (u : User) (hash : Text) (answer : Result PasswordError (Bool × Bool))
      (w : World v)
      → by_email_with_credential db (normalize_email addresses cred.email) d ≡ done (u, hash)
      → u.is_disabled ≡ false
      → verify_password argon x.verify_slot hash cred.password ≡ answer
      → Succeeds
          (λ i _. IsVerified d i)
          (verified v x cred (normalize_email addresses cred.email) u answer w)
  unfolding verified
  verified-IsVerified d u hash (failed e) w f n m = tt
  verified-IsVerified d u hash (done (false, outdated)) w f n m = tt
  verified-IsVerified d u hash (done (true, outdated)) w f n m =
      audited-Succeeds v (IsVerified d) _ _ (
        start-session-Succeeds v x cred (IsVerified d) u _ λ token sess. record {
          hash = hash;
          is_outdated = outdated;
          found = f;
          enabled = n;
          matches = m;
        })

  authenticate-IsVerified :
      (d : db.State) (found : Result Error (User × Text)) (w : World v)
      → by_email_with_credential db (normalize_email addresses cred.email) d ≡ found
      → Succeeds
          (λ i _. IsVerified d i)
          (authenticate v x cred (normalize_email addresses cred.email) found w)
  unfolding authenticate
  authenticate-IsVerified d (failed session_not_found) w f = tt
  authenticate-IsVerified d (failed ticket_not_found) w f = tt
  authenticate-IsVerified d (failed user_not_found) w f = tt
  authenticate-IsVerified d (failed user_disabled) w f = tt
  authenticate-IsVerified d (failed email_taken) w f = tt
  authenticate-IsVerified d (failed no_credentials) w f = tt
  authenticate-IsVerified d (failed unavailable) w f = tt
  authenticate-IsVerified d (failed bad_record) w f = tt
  authenticate-IsVerified d (done (u, hash)) w f =
      Succeeds-if (λ i _. IsVerified d i) u.is_disabled _ _ (λ p. tt)
        λ p. verified-IsVerified d u hash _ w f p refl

  look-up-IsVerified :
      (d : db.State) (w : World v)
      → w.2 ≡ d
      → Succeeds (λ i _. IsVerified d i) (look_up v x cred (normalize_email addresses cred.email) w)
  look-up-IsVerified d (l, r, d') e =
      authenticate-IsVerified d _ (l, r, d')
        (ap (by_email_with_credential db (normalize_email addresses cred.email)) (sym e))

  verified_lem : (i : Issued) (w : World v) → (login v x cred w).0 ≡ done i → IsVerified w.2 i
  unfolding login
  verified_lem i w h =
      let email = normalize_email addresses cred.email in
      Succeeds-done (λ i _. IsVerified w.2 i) (login v x cred w) i
        (Succeeds-bind (λ _ w'. Keeps v w w') (λ i _. IsVerified w.2 i)
          (check v (codes "login:ip:" ++ cred.ip) login_per_ip) _ w
          (check-Keeps v (codes "login:ip:" ++ cred.ip) login_per_ip w)
          (λ a w' k.
            Succeeds-bind (λ _ w''. Keeps v w' w'') (λ i _. IsVerified w.2 i)
              (check_account v cred email) _ w' (check-account-Keeps v cred email w')
              (λ b w'' k'. look-up-IsVerified w.2 w'' (k'.1 ∙ k.1))))
        h

  -- A login that succeeds is to the user whose address it is in the database, who is not disabled, and
  -- against whose stored hash the password was verified; and its session is for this user, under the hash
  -- of the token, from now until the absolute expiry, and was stored in Redis and indexed for the user.
  pub login-IsVerified :
      (i : Issued) (w : World v)
      → (login v x cred w).0 ≡ done i
      → IsVerified w.2 i × IsIssued v x cred w.1 i (login v x cred w).1.1
  login-IsVerified i w h = (verified_lem i w h, login-IsIssued v x cred i w h)

  -- There is no such account or it has no password, it is disabled, or the password is not verified.
  abbrev pub IsUnmatched : Result Error (User × Text) → Type 0
  IsUnmatched (failed user_not_found) = Unit {0}
  IsUnmatched (failed no_credentials) = Unit {0}
  IsUnmatched (failed other) = ⊥
  IsUnmatched (done (u, hash)) =
      (u.is_disabled ≡ true)
      ⊎ ((outdated : Bool) × (verify_password argon x.verify_slot hash cred.password
            ≡ done (false, outdated)))
      ⊎ ((e : PasswordError) × (verify_password argon x.verify_slot hash cred.password ≡ failed e))

  verified-refused :
      (email : Text) (u : User) (answer : Result PasswordError (Bool × Bool)) (w : World v)
      → ((outdated : Bool) × (answer ≡ done (false, outdated)))
        ⊎ ((e : PasswordError) × (answer ≡ failed e))
      → (verified v x cred email u answer w).0 ≡ failed invalid_credentials
  unfolding verified
  verified-refused email u (failed e) w h = refl
  verified-refused email u (done (false, outdated)) w h = refl
  verified-refused email u (done (true, outdated)) w (inl (o, h)) = ground (arith, h)
  verified-refused email u (done (true, outdated)) w (inr (e, h)) = ground (arith, h)

  authenticate-refused :
      (email : Text) (found : Result Error (User × Text)) (w : World v)
      → IsUnmatched found
      → (authenticate v x cred email found w).0 ≡ failed invalid_credentials
  unfolding authenticate
  authenticate-refused email (failed session_not_found) w h = absurd h
  authenticate-refused email (failed ticket_not_found) w h = absurd h
  authenticate-refused email (failed user_not_found) w h = refl
  authenticate-refused email (failed user_disabled) w h = absurd h
  authenticate-refused email (failed email_taken) w h = absurd h
  authenticate-refused email (failed no_credentials) w h = refl
  authenticate-refused email (failed unavailable) w h = absurd h
  authenticate-refused email (failed bad_record) w h = absurd h
  authenticate-refused email (done (u, hash)) w (inl h) = rw (h, authenticate) refl
  authenticate-refused email (done (u, hash)) w (inr h) = elim (Bool-cases u.is_disabled) [
    | inl p ↦ rw (p, authenticate) refl
    | inr p ↦
        if_false (λ (r : Result Failure Issued × World v). r.0 ≡ failed invalid_credentials)
          u.is_disabled _ _ p
          (verified-refused email u (verify_password argon x.verify_slot hash cred.password) w h)
  ]

  look-up-refused :
      (d : db.State) (w : World v)
      → w.2 ≡ d
      → IsUnmatched (by_email_with_credential db (normalize_email addresses cred.email) d)
      → (look_up v x cred (normalize_email addresses cred.email) w).0 ≡ failed invalid_credentials
  look-up-refused d (l, r, d') e h =
      authenticate-refused (normalize_email addresses cred.email) _ (l, r, d')
        (subst
          (λ t. IsUnmatched (by_email_with_credential db (normalize_email addresses cred.email) t))
          (sym e) h)

  -- Once both limits let a login through, it fails in the same way whether there is no such
  -- account, the account has no password or is disabled, or the password does not match or cannot
  -- be verified.
  pub login-refused :
      (w : World v)
      → (check v (codes "login:ip:" ++ cred.ip) login_per_ip w).0 ≡ done tt
      → (check_account v cred
          (normalize_email addresses cred.email)
          (check v (codes "login:ip:" ++ cred.ip) login_per_ip w).1).0
        ≡ done tt
      → IsUnmatched (by_email_with_credential db (normalize_email addresses cred.email) w.2)
      → (login v x cred w).0 ≡ failed invalid_credentials
  unfolding login
  login-refused w h k u =
      let email = normalize_email addresses cred.email in
      let first = check v (codes "login:ip:" ++ cred.ip) login_per_ip w in
      let second = check_account v cred email first.1 in
      let kept = Succeeds-done (λ _ w'. Keeps v w w') first tt (check-Keeps v _ _ w) h in
      let kept' =
        Succeeds-done (λ _ w'. Keeps v first.1 w') second tt
          (check-account-Keeps v cred email first.1) k in
      ap (λ r. r.0)
        (resume_done _ first tt h ∙ resume_done (λ _. look_up v x cred email) second tt k)
      ∙ look-up-refused w.2 second.1 (kept'.1 ∙ kept.1) u
