-- ===== src/Auth/Handlers.antt =====
-- internal/auth/handlers.go: what the endpoints for accounts reply.
pub mod Delivery
use cb_back.Prelude.{
  ℕ, ◌+◌, ◌/◌, ◌≡◌, Bool, true, false, not, Option, none, some, List, [], ◌∷◌, Text, text_eq, codes,
  null, if◌then◌else◌,
}
use cb_back.Prelude.Results.{Result, done, failed}
use cb_back.Auth.Redis.{Error, email_taken}
use cb_back.Auth.Sessions.{issue_ws_ticket}
use cb_back.Auth.Users.{User, Contact, AuthEvent, contacts}
use cb_back.Auth.Password.{
  PasswordError, too_short, too_long, not_allowed, invalid_hash, incompatible_hash, no_salt,
  cancelled,
}
use cb_back.Auth.Middleware.{Identity}
use cb_back.Auth.Middleware
use cb_back.Auth.Cookies.{Settings, Cookie, set_cookie, refresh_cookie, clear_cookie}
use cb_back.Auth.Service.{Backend, World, Chance, Credentials, Issued, register, login, on_sessions}
use cb_back.Auth.Service.Account.{logout, logout_all, change_password}
use cb_back.Auth.Service.Errors.{
  Failure, rate_limited, invalid_credentials, invalid_email, invalid_display_name, bad_password,
  internal,
}

-- The body of a reply; an error has its code and the wait that it asks for in seconds.
pub data Body : Type 0 where
  error : Text → Option ℕ → Body
  session : User → ℕ → Option Text → Body
  user_list : List Contact → Body
  revoked : ℕ → Body
  ticket : Text → ℕ → Body
  no_content : Body

pub record Reply : Type 0 where
  pub status : ℕ
  pub body : Body
  pub cookie : Option Cookie

abbrev pub contacts_limit : ℕ
contacts_limit = 200

abbrev pub mode_bearer : Text
mode_bearer = codes "bearer"

-- The request, with its decoded body where there is one, and the readings of the clock for a cookie.
pub record Call : Type 0 where
  pub credentials : Option Credentials
  pub mode : Text
  pub passwords : Option (Text × Text)
  pub token : Text
  pub ip : Text
  pub user_agent : Text
  pub now : ℕ
  pub later : ℕ

abbrev pub refusal : ℕ → Text → Reply
refusal status code = record { status = status; body = error code none; cookie = none }

-- writeAuthError; a wait is in milliseconds and is rounded up to more than it.
unfoldable pub auth_error : Failure → Reply
auth_error (rate_limited wait) = record {
  status = 429;
  body = error (codes "rate_limited") (some (wait / 1000 + 1));
  cookie = none;
}
auth_error invalid_credentials = refusal 401 (codes "invalid_credentials")
auth_error (internal email_taken) = refusal 409 (codes "email_taken")
auth_error invalid_email = refusal 400 (codes "invalid_email")
auth_error invalid_display_name = refusal 400 (codes "invalid_display_name")
auth_error (bad_password too_short) = refusal 400 (codes "weak_password")
auth_error (bad_password too_long) = refusal 400 (codes "weak_password")
auth_error (bad_password not_allowed) = refusal 400 (codes "weak_password")
auth_error other = refusal 500 (codes "internal_error")

module _ (v : Backend) (s : Settings) where
  open v use {db, sessions}

  -- The token goes into the body where the client asked for it, else into the cookie.
  unfoldable pub write_session : Call → ℕ → Issued → Reply
  write_session call status i =
      if text_eq call.mode mode_bearer
      then record {
        status = status;
        body = session i.user i.session.expires_at (some i.token);
        cookie = none;
      }
      else record {
        status = status;
        body = session i.user i.session.expires_at none;
        cookie = some (set_cookie s call.now call.later i.token i.session.expires_at);
      }

  abbrev pub session_reply : Call → ℕ → Result Failure Issued × World v → Reply × World v
  session_reply call status (failed f, w) = (auth_error f, w)
  session_reply call status (done i, w) = (write_session call status i, w)

  unfoldable pub handle_register : Chance → Call → World v → Reply × World v
  handle_register x call w = elim call.credentials [
    | none ↦ (refusal 400 (codes "invalid_body"), w)
    | some cred ↦ session_reply call 201 (register v x cred w)
  ]

  abbrev pub logged_in : Chance → Call → World v → Option Credentials → Reply × World v
  logged_in x call w none = (refusal 400 (codes "invalid_body"), w)
  logged_in x call w (some cred) = session_reply call 200 (login v x cred w)

  unfoldable pub handle_login : Chance → Call → World v → Reply × World v
  handle_login x call w = logged_in x call w call.credentials

  abbrev pub cleared : Reply
  cleared = record { status = 204; body = no_content; cookie = some (clear_cookie s) }

  -- A reply to a call that the client cannot help.
  abbrev pub replied {ℓ} : {A : Type ℓ} → (A → Reply) → Result Failure A × World v → Reply × World v
  replied f (failed e, w) = (refusal 500 (codes "internal_error"), w)
  replied f (done a, w) = (f a, w)

  abbrev pub event_of : Call → Text → Text → AuthEvent
  event_of call user email = record {
    user_id = user;
    email = email;
    event = [];
    ip = call.ip;
    user_agent = call.user_agent;
  }

  -- Also a request without a session has its cookie cleared.
  unfoldable pub handle_logout : Call → World v → Reply × World v
  handle_logout call w =
      if null call.token
      then (cleared, w)
      else replied (λ _. cleared) (logout v call.token (event_of call [] []) w)

  unfoldable pub handle_logout_all : Call → Option Identity → World v → Reply × World v
  handle_logout_all call none w = (refusal 401 (codes "unauthenticated"), w)
  handle_logout_all call (some i) w =
      replied (λ n. record { status = 200; body = revoked n; cookie = some (clear_cookie s) })
        (logout_all v i.user.id (event_of call i.user.id i.user.email) w)

  unfoldable pub handle_me : Call → Middleware.Request → Option Identity → World v → Reply × World v
  handle_me call r none w = (refusal 401 (codes "unauthenticated"), w)
  handle_me call r (some i) w = (
    record {
      status = 200;
      body = session i.user i.session.expires_at none;
      cookie = refresh_cookie s call.now call.later r i;
    },
    w,
  )

  abbrev pub changed : Result Failure ℕ × World v → Reply × World v
  changed (failed f, w) = (auth_error f, w)
  changed (done n, w) = (record { status = 204; body = no_content; cookie = none }, w)

  -- The caller's own session is kept.
  unfoldable pub handle_change_password :
      Chance → Call → Option Identity → World v → Reply × World v
  handle_change_password x call none w = (refusal 401 (codes "unauthenticated"), w)
  handle_change_password x call (some i) w = elim call.passwords [
    | none ↦ (refusal 400 (codes "invalid_body"), w)
    | some (current, next) ↦ changed (
        change_password v x i.user.id current next i.token (event_of call i.user.id i.user.email) w)
  ]

  unfoldable pub handle_ws_ticket : Chance → Option Identity → World v → Reply × World v
  handle_ws_ticket x none w = (refusal 401 (codes "unauthenticated"), w)
  handle_ws_ticket x (some i) w =
      replied (λ t. record { status = 200; body = ticket t.0 (t.1 / 1000000000); cookie = none })
        (on_sessions v (issue_ws_ticket sessions x.token i.user.id) w)

  abbrev pub contacts_reply : Result Error (List Contact) → Reply
  contacts_reply (failed e) = refusal 500 (codes "internal_error")
  contacts_reply (done cs) = record { status = 200; body = user_list cs; cookie = none }

  unfoldable pub handle_contacts : Option Identity → db.State → Reply
  handle_contacts none d = refusal 401 (codes "unauthenticated")
  handle_contacts (some i) d = contacts_reply (contacts db i.user.id contacts_limit d)
