-- ===== src/Auth/Service/Register.antt =====
-- internal/auth/service.go: which registrations succeed.
use cb_back.Auth.Service.Issue.{start-session-Issues, issue-IsIssued, IsIssue, IsIssued}
use cb_back.Prelude.{refl, ◌≤◌, ◌≡◌, ap, subst, ◌∙◌, Text, codes, ◌++◌, arith, length}
use cb_back.Prelude.Results.{done}
use cb_back.Prelude.Stateful.{Succeeds, Succeeds-bind, Succeeds-done, done-Succeeds}
use cb_back.Auth.RateLimiter.{register_per_ip}
use cb_back.Auth.Users
use cb_back.Auth.Users.{User}
use cb_back.Auth.Password.{validate_password, hash_password}
use cb_back.Auth.Service.{
  Backend, World, Chance, Credentials, Issued, check, known, on_users, password_result,
  check_display_name, display_name_of, registered, register,
}
use cb_back.Auth.Service.Errors.{validate_email}
use cb_back.Auth.Service.Steps.{Keeps, check-Keeps, known-Succeeds, password_lem, lifted_lem}

module _ (v : Backend) (x : Chance) (cred : Credentials) where
  open v use {db, argon, addresses}

  -- The address, the name and the password are within the policy, and the user is the one that
  -- UserStore.Create made of them and of a hash of the password.
  pub record IsRegistered (d : db.State) (i : Issued) : Type 0 where
    pub email : Text
    pub hash : Text
    pub email_valid : validate_email addresses cred.email ≡ done email
    pub name_nonempty : 1 ≤ length (display_name_of v cred.display_name email)
    pub name_short : length (display_name_of v cred.display_name email) ≤ 100
    pub password_valid : validate_password argon cred.password ≡ done tt
    pub hashed : hash_password argon x.hash_slot x.salt cred.password ≡ done hash
    pub created :
        (Users.create db email (display_name_of v cred.display_name email) hash d).0 ≡ done i.user

  name_lem :
      (name : Text) → check_display_name v name ≡ done tt → (1 ≤ length name) × (length name ≤ 100)
  unfolding check_display_name
  name_lem name h = ground (arith, h)

  create-Succeeds :
      (email name hash : Text) (w : World v)
      → Succeeds
          (λ u w'. ((Users.create db email name hash w.2).0 ≡ done u) × (w'.1 ≡ w.1))
          (on_users v (Users.create db email name hash) w)
  create-Succeeds email name hash (l, r, d) =
      done-Succeeds (λ u w'. ((Users.create db email name hash d).0 ≡ done u) × (w'.1 ≡ r))
        (on_users v (Users.create db email name hash) (l, r, d)) λ u h. (lifted_lem v _ u h, refl)

  registered_lem :
      (w : World v)
      → Succeeds (λ i w'. IsRegistered w.2 i × IsIssue v x cred w.1 i w') (register v x cred w)
  unfolding register registered
  registered_lem w =
      let Q : Issued → World v → Type 0 = λ i w'. IsRegistered w.2 i × IsIssue v x cred w.1 i w' in
      (Succeeds-bind (λ _ w'. Keeps v w w') Q
        (check v (codes "register:ip:" ++ cred.ip) register_per_ip) _ w
        (check-Keeps v (codes "register:ip:" ++ cred.ip) register_per_ip w)
        (λ a w1 k.
          Succeeds-bind (λ email w'. (validate_email addresses cred.email ≡ done email) × (w' ≡ w1))
            Q (known v (validate_email addresses cred.email)) _ w1
            (known-Succeeds v (λ email. validate_email addresses cred.email ≡ done email) _ w1
              (λ email p. p))
            (λ email w2 e.
              let name = display_name_of v cred.display_name email in
              Succeeds-bind (λ _ w'. ((1 ≤ length name) × (length name ≤ 100)) × (w' ≡ w2)) Q
                (known v (check_display_name v name)) _ w2
                (known-Succeeds v (λ _. (1 ≤ length name) × (length name ≤ 100)) _ w2
                  (λ u p. name_lem name p))
                (λ u w3 n.
                  Succeeds-bind
                    (λ _ w'. (validate_password argon cred.password ≡ done tt) × (w' ≡ w3)) Q
                    (known v (password_result v (validate_password argon cred.password))) _ w3
                    (known-Succeeds v (λ _. validate_password argon cred.password ≡ done tt) _ w3
                      (λ u p. password_lem v _ tt p))
                    (λ u w4 f.
                      let hashed = hash_password argon x.hash_slot x.salt cred.password in
                      Succeeds-bind (λ hash w'. (hashed ≡ done hash) × (w' ≡ w4)) Q
                        (known v (password_result v hashed)) _ w4
                        (known-Succeeds v (λ hash. hashed ≡ done hash) _ w4
                          (λ hash p. password_lem v _ hash p))
                        (λ hash w5 g.
                          Succeeds-bind
                            (λ u w'.
                              ((Users.create db email name hash w5.2).0 ≡ done u) × (w'.1 ≡ w5.1))
                            Q (on_users v (Users.create db email name hash)) _ w5
                            (create-Succeeds email name hash w5)
                            (λ user w6 c.
                              start-session-Issues v x cred (λ i. IsRegistered w.2 i) w.1 user _
                                (c.1 ∙ ap (λ t. t.1) (g.1 ∙ f.1 ∙ n.1 ∙ e.1) ∙ k.0)
                                λ token sess. record {
                                  email = email;
                                  hash = hash;
                                  email_valid = e.0;
                                  name_nonempty = n.0.0;
                                  name_short = n.0.1;
                                  password_valid = f.0;
                                  hashed = g.0;
                                  created =
                                      subst (λ d. (Users.create db email name hash d).0 ≡ done user)
                                        (ap (λ t. t.2) (g.1 ∙ f.1 ∙ n.1 ∙ e.1) ∙ k.1) c.0;
                                })))))))

  -- A registration that succeeds is of a valid address, a name of 1 to 100 characters and a password
  -- within the policy, of which its user was created; and its session is for this user, under the hash of
  -- the token, from now until the absolute expiry, and was stored in Redis and indexed for the user.
  pub register-IsRegistered :
      (i : Issued) (w : World v)
      → (register v x cred w).0 ≡ done i
      → IsRegistered w.2 i × IsIssued v x cred w.1 i (register v x cred w).1.1
  register-IsRegistered i w h =
      let (r, s) =
        Succeeds-done (λ i w'. IsRegistered w.2 i × IsIssue v x cred w.1 i w') (register v x cred w)
          i (registered_lem w) h in
      (r, issue-IsIssued v x cred x.token w.1 i (register v x cred w).1.1 refl s)
