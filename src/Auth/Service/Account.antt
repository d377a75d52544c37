-- ===== src/Auth/Service/Account.antt =====
-- internal/auth/service.go: Logout, LogoutAll and ChangePassword.
use cb_back.Prelude.{ℕ, Bool, true, false, [], ◌++◌, Text, codes}
use cb_back.Prelude.Results.{Result, done, failed}
use cb_back.Prelude.Stateful.{Step, ◌>>=◌}
use cb_back.Auth.RateLimiter.{password_change_ip}
use cb_back.Auth.Sessions.{revoke, revoke_all_for_user}
use cb_back.Auth.Users.{AuthEvent, credential_by_user_id, update_password}
use cb_back.Auth.Password.{PasswordError, validate_password, hash_password, verify_password}
use cb_back.Auth.Service.Errors.{Failure, invalid_credentials}
use cb_back.Auth.Service.{
  Backend, Chance, World, lifted, on_sessions, on_users, read_users, known, check, audit, audited,
  password_result,
}

module _ (v : Backend) where
  open v use {sessions, db, argon}

  unfoldable pub logout : Text → AuthEvent → Step (World v) Failure (Unit {0})
  logout token e w =
      audited v (record e { event = codes "logout" }) (on_sessions v (revoke sessions token) w)

  unfoldable pub logout_all : Text → AuthEvent → Step (World v) Failure ℕ
  logout_all user e w =
      audited v (record e { event = codes "logout_all" })
        (on_sessions v (revoke_all_for_user sessions user []) w)

  -- The current password matches; an error of the verification counts as a mismatch.
  abbrev pub confirm :
      AuthEvent → Result PasswordError (Bool × Bool) → Step (World v) Failure (Unit {0})
  confirm e (failed f) w =
      (failed invalid_credentials, audit v (record e { event = codes "password_change_failed" }) w)
  confirm e (done (false, outdated)) w =
      (failed invalid_credentials, audit v (record e { event = codes "password_change_failed" }) w)
  confirm e (done (true, outdated)) w = (done tt, w)

  -- The new password and the end of the other sessions, once the current one is confirmed.
  unfoldable pub replace_password : Chance → Text → Text → Text → Step (World v) Failure ℕ
  replace_password x user next keep = do
    _ ← known v (password_result v (validate_password argon next))
    hash ← known v (password_result v (hash_password argon x.hash_slot x.salt next))
    _ ← on_users v (update_password db user hash)
    on_sessions v (revoke_all_for_user sessions user keep)

  unfoldable pub change_password :
      Chance → Text → Text → Text → Text → AuthEvent → Step (World v) Failure ℕ
  change_password x user current next keep e = do
    _ ← check v (codes "password:ip:" ++ e.ip) password_change_ip
    hash ← read_users v (λ d. lifted v (credential_by_user_id db user d))
    _ ← confirm e (verify_password argon x.verify_slot hash current)
    λ w.
        audited v (record e { event = codes "password_changed" })
          (replace_password x user next keep w)
