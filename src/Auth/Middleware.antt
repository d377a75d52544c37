-- ===== src/Auth/Middleware.antt =====
-- internal/auth/middleware.go: whose request it is. A header that is not there is empty.
pub mod Guard
pub mod Accepted
pub mod Socket
use cb_back.Prelude.{
  ℕ, ◌≡◌, Bool, true, false, not, Option, none, some, Text, [], codes, null, if◌then◌else◌,
}
use cb_back.Prelude.Strings.{trim_space, cut}
use cb_back.Prelude.Results.{Result, done, failed}
use cb_back.Prelude.Stateful.{Step, ◌>>=◌, pure, raise}
use cb_back.Auth.Redis.{Error, session_not_found, user_not_found, user_disabled}
use cb_back.Auth.Sessions.{Store, Session, find, touch, redeem_ws_ticket}
use cb_back.Auth.Users.{User}

-- The parts of the request that are read.
pub record Request : Type 0 where
  pub authorization : Text
  pub cookie : Option Text
  pub ticket : Text

pub record Identity : Type 0 where
  pub user : User
  pub session : Session
  pub token : Text

-- The sessions, the users by id as the database has them at the request, and strings.EqualFold.
pub record Service : Type 1 where
  pub sessions : Store
  pub by_id : Text → Result Error User
  pub equal_fold : Text → Text → Bool

-- What `require` does: passes the request on, or replies with a status and a code, and says whether
-- it clears the cookie.
pub data Answer : Type 0 where
  passed : Identity → Answer
  refused : ℕ → Text → Bool → Answer

abbrev cookie_token : Option Text → Text
cookie_token none = []
cookie_token (some value) = value

-- The reply to an error of `identify`.
abbrev pub refusal : Error → Answer
refusal session_not_found = refused 401 (codes "unauthenticated") true
refusal user_not_found = refused 401 (codes "unauthenticated") true
refusal user_disabled = refused 401 (codes "unauthenticated") true
refusal other = refused 500 (codes "internal_error") false

module _ (v : Service) where
  open v use {sessions, by_id, equal_fold}
  open (sessions.redis) use {State}

  unfoldable pub bearer_token : Text → Text
  bearer_token header = elim (cut 32 header) [
    | none ↦ []
    | some (scheme, value) ↦ if equal_fold scheme (codes "Bearer") then trim_space value else []
  ]

  unfoldable pub token_from : Request → Text
  token_from r =
      if not (null r.authorization) then bearer_token r.authorization else cookie_token r.cookie

  -- The user is read again on every request.
  unfoldable pub identity_of : Text → Session → Step State Error Identity
  identity_of token sess = elim (by_id sess.user_id) [
    | failed e ↦ raise e
    | done user ↦ pure (record { user = user; session = sess; token = token })
  ]

  unfoldable pub identify : Request → ℕ → Step State Error Identity
  identify r now =
      let token = token_from r in
      if null token then raise session_not_found else find sessions token now >>= identity_of token

  -- An error of `touch` is only logged.
  unfoldable pub answer : ℕ → Result Error Identity × State → Answer × State
  answer now (done i, s) = (passed i, (touch sessions i.session now s).1)
  answer now (failed e, s) = (refusal e, s)

  -- The calls of one request in a row. What other requests do to the sessions in between, and what is left
  -- of this one then, are further calls of the store (Auth/Sessions/Absence).
  unfoldable pub require : Request → ℕ → State → Answer × State
  require r now s = answer now (identify r now s)

  -- The user id and the name of the user a ticket stands for.
  unfoldable pub ticket_user : Text → Step State Error (Text × Text)
  ticket_user id = elim (by_id id) [
    | failed e ↦ raise e
    | done user ↦ pure (user.id, user.display_name)
  ]

  unfoldable pub authenticate_ws : Request → ℕ → Step State Error (Text × Text)
  authenticate_ws r now =
      if not (null r.ticket)
      then redeem_ws_ticket sessions r.ticket >>= ticket_user
      else identify r now >>= λ i. pure (i.user.id, i.user.display_name)
