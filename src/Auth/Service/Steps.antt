-- ===== src/Auth/Service/Steps.antt =====
-- internal/auth/service.go: what the steps of a call leave as it was.
use cb_back.Prelude.{arith, ap, ◌≡◌, refl, Text}
use cb_back.Prelude.Results.{Result, done, failed}
use cb_back.Prelude.Stateful.{Succeeds, done-Succeeds}
use cb_back.Auth.Redis.{Error}
use cb_back.Auth.Password.{PasswordError}
use cb_back.Auth.RateLimiter.{Limit}
use cb_back.Auth.Sessions.{Session}
use cb_back.Auth.Users.{AuthEvent, User}
use cb_back.Auth.Service.{
  Backend, World, Chance, issued, session_started, start_session, Credentials, Issued, check,
  check_account, noted, audited, known, password_result, lifted,
}
use cb_back.Auth.Service.Errors.{Failure}

module _ (v : Backend) where
  open v use {db, sessions}

  -- The limiter's checks do not touch the sessions nor the users.
  abbrev pub Keeps : World v → World v → Type 0
  Keeps w w' = (w'.1 ≡ w.1) × (w'.2 ≡ w.2)

  pub check-Keeps :
      (key : Text) (limit : Limit) (w : World v)
      → Succeeds (λ _ w'. Keeps w w') (check v key limit w)
  unfolding check
  check-Keeps key limit (l, r, d) =
      done-Succeeds (λ _ w'. Keeps (l, r, d) w') (check v key limit (l, r, d)) λ a p. (refl, refl)

  noted-Succeeds :
      (P : Unit {0} → World v → Type 0) (cred : Credentials) (email : Text)
      (x : Result Failure (Unit {0}) × World v)
      → Succeeds P x
      → Succeeds P (noted v cred email x)
  noted-Succeeds P cred email (done a, w) h = h
  noted-Succeeds P cred email (failed e, w) h = tt

  pub check-account-Keeps :
      (cred : Credentials) (email : Text) (w : World v)
      → Succeeds (λ _ w'. Keeps w w') (check_account v cred email w)
  unfolding check_account
  check-account-Keeps cred email w =
      noted-Succeeds (λ _ w'. Keeps w w') cred email (check v _ _ w) (check-Keeps _ _ w)

  -- A row of the audit trail says nothing about what was returned.
  pub audited-Succeeds {ℓ} :
      {A : Type ℓ} (P : A → Type 0) (e : AuthEvent) (x : Result Failure A × World v)
      → Succeeds (λ a _. P a) x
      → Succeeds (λ a _. P a) (audited v e x)
  audited-Succeeds P e (failed f, w) h = tt
  audited-Succeeds P e (done a, w) h = h

  pub known-Succeeds {ℓ} :
      {A : Type ℓ} (P : A → Type 0) (x : Result Failure A) (w : World v)
      → ((a : A) → x ≡ done a → P a)
      → Succeeds (λ a w'. P a × (w' ≡ w)) (known v x w)
  known-Succeeds P x w k = done-Succeeds (λ a w'. P a × (w' ≡ w)) (known v x w) λ a p. (k a p, refl)

  session-started-Succeeds :
      (P : Issued → Type 0) (u : User) (t : Result Failure (Text × Session) × World v)
      → ((token : Text) (sess : Session) → P (issued v u (token, sess)))
      → Succeeds (λ i _. P i) (session_started v u t)
  session-started-Succeeds P u (failed f, w) k = tt
  session-started-Succeeds P u (done (token, sess), w) k = k token sess

  -- Whatever holds of the user with any token and session holds of what was issued.
  pub start-session-Succeeds :
      (x : Chance) (cred : Credentials) (P : Issued → Type 0) (u : User) (w : World v)
      → ((token : Text) (sess : Session) → P (issued v u (token, sess)))
      → Succeeds (λ i _. P i) (start_session v x cred u w)
  unfolding start_session
  start-session-Succeeds x cred P u w k = session-started-Succeeds P u _ k

  pub password_lem :
      {A : Type 0} (r : Result PasswordError A) (a : A) → password_result v r ≡ done a → r ≡ done a
  password_lem (failed e) a h = ground (arith, h)
  password_lem (done b) a h = let same : b ≡ a = ground (arith, h) in ap done same

  pub lifted_lem : {A : Type 0} (r : Result Error A) (a : A) → lifted v r ≡ done a → r ≡ done a
  lifted_lem (failed e) a h = ground (arith, h)
  lifted_lem (done b) a h = let same : b ≡ a = ground (arith, h) in ap done same
