-- ===== src/Auth/Service/Change.antt =====
-- internal/auth/service.go: what a change of the password takes and does.
use cb_back.Prelude.{
  ℕ, ◌≡◌, refl, sym, ap, subst, ◌∙◌, Bool, true, false, Text, text_eq, codes, ◌++◌,
}
use cb_back.Prelude.Strings.{among}
use cb_back.Prelude.Results.{Result, done, failed}
use cb_back.Prelude.Stateful.{Succeeds, Succeeds-bind, Succeeds-mono, Succeeds-done, done-Succeeds}
use cb_back.Auth.RateLimiter.{password_change_ip}
use cb_back.Auth.Users.{AuthEvent, credential_by_user_id, update_password}
use cb_back.Auth.Password.{PasswordError, validate_password, hash_password, verify_password}
use cb_back.Auth.Sessions.{user_index, keep_id, revoke_all_for_user}
use cb_back.Auth.Sessions.Revocation.{IsGone}
use cb_back.Auth.Sessions.RevokeAll.{revoke_all-IsGone}
use cb_back.Auth.Service.{
  Backend, World, Chance, check, known, read_users, on_users, on_sessions, lifted, password_result,
  audited,
}
use cb_back.Auth.Service.Account.{confirm, replace_password, change_password}
use cb_back.Auth.Service.Errors.{Failure}
use cb_back.Auth.Service.Steps.{Keeps, check-Keeps, known-Succeeds, password_lem, lifted_lem}

module _ (v : Backend) (x : Chance) (user : Text) where
  open v use {db, argon, sessions}

  -- No id of the user's index as it stood has a session, but for the one of the kept token.
  abbrev pub IsEvicted : Text → sessions.redis.State → sessions.redis.State → Type 0
  IsEvicted keep r r' =
      (id : Text)
      → among (sessions.redis.set_at r (user_index user)) id ≡ true
      → text_eq id (keep_id sessions keep) ≡ false
      → IsGone sessions id r'

  revoke-IsEvicted :
      (B : Type 0) (keep : Text) (r : sessions.redis.State) (w : World v)
      → B
      → w.1 ≡ r
      → Succeeds
          (λ _ w'. B × IsEvicted keep r w'.1)
          (on_sessions v (revoke_all_for_user sessions user keep) w)
  revoke-IsEvicted B keep r (l, r0, d) b e =
      done-Succeeds (λ _ w'. B × IsEvicted keep r w'.1)
        (on_sessions v (revoke_all_for_user sessions user keep) (l, r0, d))
        λ n h. (
          b,
          λ id m k.
              revoke_all-IsGone sessions user keep id n r0 (lifted_lem v _ n h)
                (subst (λ t. among (sessions.redis.set_at t (user_index user)) id ≡ true) (sym e) m)
                k,
        )

  update-Keeps :
      (hash : Text) (w : World v)
      → Succeeds (λ _ w'. w'.1 ≡ w.1) (on_users v (update_password db user hash) w)
  update-Keeps hash (l, r, d) =
      done-Succeeds (λ _ w'. w'.1 ≡ r) (on_users v (update_password db user hash) (l, r, d))
        λ a h. refl

  -- The current password, the new one, and the sessions afterwards.
  pub record IsChanged (current next keep : Text) (w : World v) (r' : sessions.redis.State)
      : Type 0 where
    pub hash : Text
    pub is_outdated : Bool
    pub stored : credential_by_user_id db user w.2 ≡ done hash
    pub matches : verify_password argon x.verify_slot hash current ≡ done (true, is_outdated)
    pub next_valid : validate_password argon next ≡ done tt
    pub evicted : IsEvicted keep w.1 r'

  replace-Succeeds :
      (next keep : Text) (w : World v)
      → Succeeds
          (λ _ w'. (validate_password argon next ≡ done tt) × IsEvicted keep w.1 w'.1)
          (replace_password v x user next keep w)
  unfolding replace_password
  replace-Succeeds next keep w =
      let Q : ℕ → World v → Type 0 =
        λ _ w'. (validate_password argon next ≡ done tt) × IsEvicted keep w.1 w'.1 in
      let hashed = hash_password argon x.hash_slot x.salt next in
      Succeeds-bind (λ _ w'. (validate_password argon next ≡ done tt) × (w' ≡ w)) Q
        (known v (password_result v (validate_password argon next))) _ w
        (known-Succeeds v (λ _. validate_password argon next ≡ done tt) _ w
          (λ u p. password_lem v _ tt p))
        (λ u w1 n.
          Succeeds-bind (λ _ w'. Unit {0} × (w' ≡ w1)) Q (known v (password_result v hashed)) _ w1
            (known-Succeeds v (λ _. Unit {0}) _ w1 (λ u p. tt))
            (λ hash w2 g.
              Succeeds-bind (λ _ w'. w'.1 ≡ w2.1) Q (on_users v (update_password db user hash)) _ w2
                (update-Keeps hash w2)
                (λ t w3 k.
                  revoke-IsEvicted (validate_password argon next ≡ done tt) keep w.1 w3 n.0
                    (k ∙ ap (λ t. t.1) (g.1 ∙ n.1)))))

  -- A row of the audit trail leaves the sessions.
  audited-keeps :
      (P : sessions.redis.State → Type 0) (e : AuthEvent) (r : Result Failure ℕ × World v)
      → Succeeds (λ _ w'. P w'.1) r
      → Succeeds (λ _ w'. P w'.1) (audited v e r)
  audited-keeps P e (failed f, w) h = tt
  audited-keeps P e (done n, (l, r, d)) h = h

  confirm-Succeeds :
      (e : AuthEvent) (answer : Result PasswordError (Bool × Bool)) (w : World v)
      → Succeeds
          (λ _ w'. ((o : Bool) × (answer ≡ done (true, o))) × (w' ≡ w))
          (confirm v e answer w)
  confirm-Succeeds e (failed f) w = tt
  confirm-Succeeds e (done (false, o)) w = tt
  confirm-Succeeds e (done (true, o)) w = ((o, refl), refl)

  read-Succeeds :
      (w : World v)
      → Succeeds
          (λ hash w'. (credential_by_user_id db user w.2 ≡ done hash) × (w' ≡ w))
          (read_users v (λ d. lifted v (credential_by_user_id db user d)) w)
  read-Succeeds (l, r, d) =
      done-Succeeds (λ hash w'. (credential_by_user_id db user d ≡ done hash) × (w' ≡ (l, r, d)))
        (read_users v (λ d. lifted v (credential_by_user_id db user d)) (l, r, d))
        λ hash h. (lifted_lem v _ hash h, refl)

  -- A change of the password that succeeds had the current password verified against the stored
  -- hash and a new one within the policy, and leaves no session under any id that the user's index
  -- had, but for the kept one.
  pub change-password-IsChanged :
      (current next keep : Text) (e : AuthEvent) (n : ℕ) (w : World v)
      → (change_password v x user current next keep e w).0 ≡ done n
      → IsChanged current next keep w (change_password v x user current next keep e w).1.1
  unfolding change_password
  change-password-IsChanged current next keep e n w h =
      let Q : ℕ → World v → Type 0 = λ _ w'. IsChanged current next keep w w'.1 in
      Succeeds-done Q (change_password v x user current next keep e w) n
        (Succeeds-bind (λ _ w'. Keeps v w w') Q
          (check v (codes "password:ip:" ++ e.ip) password_change_ip) _ w
          (check-Keeps v (codes "password:ip:" ++ e.ip) password_change_ip w)
          (λ a w1 k.
            Succeeds-bind (λ hash w'. (credential_by_user_id db user w1.2 ≡ done hash) × (w' ≡ w1))
              Q (read_users v (λ d. lifted v (credential_by_user_id db user d))) _ w1
              (read-Succeeds w1)
              (λ hash w2 c.
                let answer = verify_password argon x.verify_slot hash current in
                Succeeds-bind (λ _ w'. ((o : Bool) × (answer ≡ done (true, o))) × (w' ≡ w2)) Q
                  (confirm v e answer) _ w2 (confirm-Succeeds e answer w2)
                  (λ b w3 m.
                    let same : w3 ≡ w1 = m.1 ∙ c.1 in
                    audited-keeps (IsChanged current next keep w) _
                      (replace_password v x user next keep w3)
                      (Succeeds-mono
                        (λ _ w'.
                          (validate_password argon next ≡ done tt) × IsEvicted keep w3.1 w'.1)
                        Q (replace_password v x user next keep w3) (replace-Succeeds next keep w3)
                        (λ n' w4 t. record {
                          hash = hash;
                          is_outdated = m.0.0;
                          stored = subst (λ d. credential_by_user_id db user d ≡ done hash) k.1 c.0;
                          matches = m.0.1;
                          next_valid = t.0;
                          evicted =
                              subst (λ r. IsEvicted keep r w4.1) (ap (λ t. t.1) same ∙ k.0) t.1;
                        }))))))
        h
