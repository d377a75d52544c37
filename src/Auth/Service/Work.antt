-- ===== src/Auth/Service/Work.antt =====
-- internal/auth/service.go and password.go: the derivations of keys by which the time of a login is
-- told, up to its verdict on the password.
use cb_back.Auth.Service.Steps.{check-account-Keeps, check-Keeps, Keeps}
use cb_back.Auth.Service.{check_account, check, Credentials, World, Chance, Backend}
use cb_back.Auth.RateLimiter.{login_per_ip}
use cb_back.Auth.Service.Errors.{normalize_email, Failure}
use cb_back.Prelude.Stateful.{resume_done, Succeeds-done, ◌>>=◌, Step}
use cb_back.Auth.Password.Encoding.{Params}
use cb_back.Prelude.{
  ◌∙◌, sym, ap, ◌++◌, codes, ℕ, ◌≡◌, refl, Bool, true, false, some, List, [], ◌∷◌, Text, length,
  AllOf, if◌then◌else◌, Bool-cases, inl, inr,
}
use cb_back.Prelude.Base64.RoundTrip.{IsByte}
use cb_back.Prelude.Results.{Result, done, failed}
use cb_back.Auth.Password.{PasswordError, Argon, argon2_params, decode_hash, hash_password}
use cb_back.Auth.Password.RoundTrip.{decode-hash-password}
use cb_back.Auth.Redis.{Error, user_not_found, no_credentials}
use cb_back.Auth.Users.{by_email_with_credential, User}

-- deriveKey, if a slot comes free.
abbrev pub derivation : Bool → Params → List Params
derivation true p = p ∷ []
derivation false p = []

-- DummyVerify.
unfoldable pub dummy_work : Bool → List Params
dummy_work slot = derivation slot argon2_params

abbrev pub decoded_work : Bool → Result PasswordError (Params × List ℕ × List ℕ) → List Params
decoded_work slot (failed e) = []
decoded_work slot (done (stored, salt, key)) = derivation slot stored

-- VerifyPassword.
unfoldable pub verify_work : Argon → Bool → Text → List Params
verify_work a slot encoded = decoded_work slot (decode_hash a.version encoded)

-- Login, with the account that was found; a slot comes free or not in each case.
unfoldable pub login_work : Argon → Bool → Result Error (User × Text) → List Params
login_work a slot (failed user_not_found) = dummy_work slot
login_work a slot (failed no_credentials) = dummy_work slot
login_work a slot (failed other) = []
login_work a slot (done (u, hash)) =
    if u.is_disabled then dummy_work slot else verify_work a slot hash

-- A login to an account whose hash HashPassword made derives the same keys, by number and parameters,
-- whatever the password given, as one to an account that is disabled, has no password or does not
-- exist: one with the current parameters, if a slot comes free.
login_work_same :
    (a : Argon) (slot : Bool) (u : User) (password hash : Text) (salt : List ℕ)
    → length salt ≡ 16
    → AllOf IsByte salt
    → hash_password a true (some salt) password ≡ done hash
    → (login_work a slot (done (u, hash)) ≡ login_work a slot (failed user_not_found))
      × (login_work a slot (done (u, hash)) ≡ login_work a slot (failed no_credentials))
unfolding login_work verify_work dummy_work
login_work_same a slot u password hash salt n b h =
    let decoded = decode-hash-password a password hash salt n b h in
    elim (Bool-cases u.is_disabled) [
      | inl p ↦ rw p (refl, refl)
      | inr p ↦ rw (p, decoded) (refl, refl)
    ]

-- The account does not exist, has no password or is disabled; or its hash is one that HashPassword made.
pub data IsUsual (a : Argon) : Result Error (User × Text) → Type 0 where
  unknown : IsUsual a (failed user_not_found)
  without_password : IsUsual a (failed no_credentials)
  disabled : (u : User) (hash : Text) → u.is_disabled ≡ true → IsUsual a (done (u, hash))
  hashed :
      (u : User) (hash password : Text) (salt : List ℕ)
      → length salt ≡ 16
      → AllOf IsByte salt
      → hash_password a true (some salt) password ≡ done hash
      → IsUsual a (done (u, hash))

usual_lem :
    (a : Argon) (slot : Bool) (found : Result Error (User × Text))
    → IsUsual a found
    → login_work a slot found ≡ login_work a slot (failed user_not_found)
unfolding login_work
usual_lem a slot found unknown = refl
usual_lem a slot found without_password = refl
usual_lem a slot found (disabled u hash p) = rw p refl
usual_lem a slot found (hashed u hash password salt n b h) =
    (login_work_same a slot u password hash salt n b h).0

module _ (v : Backend) (x : Chance) where
  open v use {db, argon, addresses}

  abbrev pub look_up_work : Text → Step (World v) Failure (List Params)
  look_up_work email (l, r, d) =
      (done (login_work argon x.verify_slot (by_email_with_credential db email d)), (l, r, d))

  -- `login`, with the keys that it derives for its verdict in place of the rest.
  unfoldable pub login_derives : Credentials → Step (World v) Failure (List Params)
  login_derives cred = do
    let email = normalize_email addresses cred.email
    _ ← check v (codes "login:ip:" ++ cred.ip) login_per_ip
    _ ← check_account v cred email
    look_up_work email

  -- The account of a login that the limits let through.
  pub record IsLet (cred : Credentials) (w : World v) : Type 0 where
    pub by_address : (check v (codes "login:ip:" ++ cred.ip) login_per_ip w).0 ≡ done tt
    pub by_account :
        (check_account v cred
          (normalize_email addresses cred.email)
          (check v (codes "login:ip:" ++ cred.ip) login_per_ip w).1).0
        ≡ done tt
    pub usual :
        IsUsual argon (by_email_with_credential db (normalize_email addresses cred.email) w.2)

  derives_lem :
      (cred : Credentials) (w : World v)
      → IsLet cred w
      → (login_derives cred w).0 ≡ done (login_work argon x.verify_slot (failed user_not_found))
  unfolding login_derives
  derives_lem cred w k =
      let email = normalize_email addresses cred.email in
      let first = check v (codes "login:ip:" ++ cred.ip) login_per_ip w in
      let second = check_account v cred email first.1 in
      let kept = Succeeds-done (λ _ w'. Keeps v w w') first tt (check-Keeps v _ _ w) k.by_address in
      let kept' =
        Succeeds-done (λ _ w'. Keeps v first.1 w') second tt
          (check-account-Keeps v cred email first.1) k.by_account in
      ap (λ (r : Result Failure (List Params) × World v). r.0)
        (resume_done _ first tt k.by_address
          ∙ resume_done (λ _. look_up_work email) second tt k.by_account)
      ∙ ap (λ d. done (login_work argon x.verify_slot (by_email_with_credential db email d)))
          (kept'.1 ∙ kept.1)
      ∙ ap done (usual_lem argon x.verify_slot _ k.usual)

  -- Two logins that the limits let through derive the same keys, by number and parameters, if the same
  -- slots come free, whatever the passwords given: whether their accounts do not exist, have no password,
  -- are disabled, or have a hash that HashPassword made.
  pub login_derives_same :
      (cred cred' : Credentials) (w w' : World v)
      → IsLet cred w
      → IsLet cred' w'
      → (login_derives cred w).0 ≡ (login_derives cred' w').0
  login_derives_same cred cred' w w' k k' = derives_lem cred w k ∙ sym (derives_lem cred' w' k')
