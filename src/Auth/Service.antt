-- ===== src/Auth/Service.antt =====
-- internal/auth/service.go: Register and Login, over the limiter, the users and the sessions, and what
-- the other calls share.
pub mod Errors
pub mod Account
pub mod Steps
pub mod Work
pub mod Issue
pub mod Accepted
pub mod Login
pub mod Register
pub mod Change
use cb_back.Prelude.{
  ℕ, ◌≡◌, Bool, true, false, Option, none, some, List, [], ◌++◌, Text, codes, ltb, length, null,
  if◌then◌else◌,
}
use cb_back.Prelude.Strings.{trim_space, cut}
use cb_back.Prelude.Results.{Result, done, failed}
use cb_back.Prelude.Stateful.{Step, ◌>>=◌, pure, raise}
use cb_back.Auth.Redis.{Error, user_not_found, no_credentials}
use cb_back.Auth.RateLimiter.{
  Counters, Limit, allow, reset, login_per_account, login_per_ip, register_per_ip,
}
use cb_back.Auth.Sessions
use cb_back.Auth.Sessions.{Store, Session}
use cb_back.Auth.Users
use cb_back.Auth.Users.{
  Database, User, AuthEvent, by_email_with_credential, update_password, record_event,
}
use cb_back.Auth.Password.{Argon, PasswordError, validate_password, hash_password, verify_password}
use cb_back.Auth.Service.Errors.{
  Failure, rate_limited, invalid_credentials, invalid_display_name, bad_password, internal,
  Addresses, normalize_email, validate_email,
}

pub record Credentials : Type 0 where
  pub email : Text
  pub password : Text
  pub display_name : Text
  pub ip : Text
  pub user_agent : Text

pub record Backend : Type 1 where
  pub counters : Counters
  pub sessions : Store
  pub db : Database
  pub argon : Argon
  pub addresses : Addresses

-- What comes from outside during a call: whether a slot for hashing came free for a verification and
-- for a new hash, the fresh salt and the fresh token, and the time.
pub record Chance : Type 0 where
  pub verify_slot : Bool
  pub hash_slot : Bool
  pub salt : Option (List ℕ)
  pub token : Result Error Text
  pub now : ℕ

-- An issued session, with its user and its token.
pub record Issued : Type 0 where
  pub user : User
  pub token : Text
  pub session : Session

module _ (v : Backend) where
  open v use {counters, sessions, db, argon, addresses}

  abbrev pub World : Type 0
  World = counters.State × sessions.redis.State × db.State

  -- The errors of a store, as they are.
  abbrev pub lifted {ℓ} : {A : Type ℓ} → Result Error A → Result Failure A
  lifted (failed e) = failed (internal e)
  lifted (done a) = done a

  abbrev pub on_sessions {ℓ} :
      {A : Type ℓ} → Step sessions.redis.State Error A → Step World Failure A
  on_sessions m (l, r, d) = let x = m r in (lifted x.0, (l, x.1, d))

  abbrev pub on_users {ℓ} : {A : Type ℓ} → Step db.State Error A → Step World Failure A
  on_users m (l, r, d) = let x = m d in (lifted x.0, (l, r, x.1))

  abbrev pub read_users {ℓ} : {A : Type ℓ} → (db.State → Result Failure A) → Step World Failure A
  read_users m (l, r, d) = (m d, (l, r, d))

  abbrev pub known {ℓ} : {A : Type ℓ} → Result Failure A → Step World Failure A
  known x w = (x, w)

  -- A limiter that is out of reach refuses.
  abbrev pub checked : Result Error (Bool × ℕ) → Result Failure (Unit {0})
  checked (failed e) = failed (internal e)
  checked (done (false, wait)) = failed (rate_limited wait)
  checked (done (true, wait)) = done tt

  unfoldable pub check : Text → Limit → Step World Failure (Unit {0})
  check key limit (l, r, d) = let x = allow counters key limit l in (checked x.0, (x.1, r, d))

  -- A row of the audit trail; an error is only logged.
  abbrev pub audit : AuthEvent → World → World
  audit e (l, r, d) = (l, r, (record_event db e d).1)

  abbrev pub event_of : Credentials → Text → Text → Text → AuthEvent
  event_of cred user email event = record {
    user_id = user;
    email = email;
    event = event;
    ip = cred.ip;
    user_agent = cred.user_agent;
  }

  abbrev pub issued : User → Text × Session → Issued
  issued u (token, sess) = record { user = u; token = token; session = sess }

  abbrev pub session_started :
      User → Result Failure (Text × Session) × World → Result Failure Issued × World
  session_started u (failed f, w) = (failed f, w)
  session_started u (done t, w) = (done (issued u t), w)

  unfoldable pub start_session : Chance → Credentials → User → Step World Failure Issued
  start_session x cred u w =
      session_started u
        (on_sessions (Sessions.create sessions x.token u.id cred.ip cred.user_agent x.now) w)

  abbrev pub audited {ℓ} :
      {A : Type ℓ} → AuthEvent → Result Failure A × World → Result Failure A × World
  audited e (failed f, w) = (failed f, w)
  audited e (done a, w) = (done a, audit e w)

  -- A failed login, with its row.
  abbrev pub refuse : Credentials → Text → Text → Text → Step World Failure Issued
  refuse cred user email event w =
      (failed invalid_credentials, audit (event_of cred user email event) w)

  abbrev pub password_stored : User → Result PasswordError Text → World → World
  password_stored u (failed e) w = w
  password_stored u (done hash) (l, r, d) = (l, r, (update_password db u.id hash d).1)

  -- An outdated hash is replaced; what fails there is only logged.
  abbrev pub rehash : Chance → Bool → User → Text → World → World
  rehash x false u password w = w
  rehash x true u password w = password_stored u (hash_password argon x.hash_slot x.salt password) w

  abbrev pub reset_counter : Text → World → World
  reset_counter email (l, r, d) = ((reset counters (codes "login:account:" ++ email) l).1, r, d)

  -- By what the verification came to. A hash that cannot be verified is only logged.
  unfoldable pub verified :
      Chance
      → Credentials
      → Text
      → User
      → Result PasswordError (Bool × Bool)
      → Step World Failure Issued
  verified x cred email u (failed e) w = (failed invalid_credentials, w)
  verified x cred email u (done (false, outdated)) w =
      refuse cred u.id email (codes "login_failed_bad_password") w
  verified x cred email u (done (true, outdated)) w =
      audited (event_of cred u.id email (codes "login"))
        (start_session x cred u (reset_counter email (rehash x outdated u cred.password w)))

  -- The dummy verification of the source only evens out the time that the refusals take.
  unfoldable pub authenticate :
      Chance → Credentials → Text → Result Error (User × Text) → Step World Failure Issued
  authenticate x cred email (failed user_not_found) w =
      refuse cred [] email (codes "login_failed_unknown_user") w
  authenticate x cred email (failed no_credentials) w =
      refuse cred [] email (codes "login_failed_unknown_user") w
  authenticate x cred email (failed e) w = (failed (internal e), w)
  authenticate x cred email (done (u, hash)) w =
      if u.is_disabled
      then refuse cred u.id email (codes "login_failed_disabled") w
      else verified x cred email u (verify_password argon x.verify_slot hash cred.password) w

  -- The check of the account's counter leaves a row where it refuses.
  abbrev pub noted :
      Credentials → Text → Result Failure (Unit {0}) × World → Result Failure (Unit {0}) × World
  noted cred email (done a, w) = (done a, w)
  noted cred email (failed e, w) =
      (failed e, audit (event_of cred [] email (codes "login_rate_limited")) w)

  unfoldable pub check_account : Credentials → Text → Step World Failure (Unit {0})
  check_account cred email w =
      noted cred email (check (codes "login:account:" ++ email) login_per_account w)

  -- The lookup and the rest of a login.
  abbrev pub look_up : Chance → Credentials → Text → Step World Failure Issued
  look_up x cred email (l, r, d) =
      authenticate x cred email (by_email_with_credential db email d) (l, r, d)

  unfoldable pub login : Chance → Credentials → Step World Failure Issued
  login x cred = do
    let email = normalize_email addresses cred.email
    _ ← check (codes "login:ip:" ++ cred.ip) login_per_ip
    _ ← check_account cred email
    look_up x cred email

  abbrev pub front_of : Text → Option (Text × Text) → Text
  front_of email none = email
  front_of email (some (front, rest)) = front

  -- The name that was asked for, or the local part of the address.
  abbrev pub display_name_of : Text → Text → Text
  display_name_of name email =
      if null (trim_space name) then front_of email (cut 64 email) else trim_space name

  unfoldable pub check_display_name : Text → Result Failure (Unit {0})
  check_display_name name =
      if ltb (length name) 1
      then failed invalid_display_name
      else if ltb 100 (length name)
      then failed invalid_display_name
      else done tt

  abbrev pub password_result {ℓ} : {A : Type ℓ} → Result PasswordError A → Result Failure A
  password_result (failed e) = failed (bad_password e)
  password_result (done a) = done a

  -- The row of the registration comes before the session.
  unfoldable pub registered : Chance → Credentials → Text → User → Step World Failure Issued
  registered x cred email u w =
      start_session x cred u (audit (event_of cred u.id email (codes "register")) w)

  unfoldable pub register : Chance → Credentials → Step World Failure Issued
  register x cred = do
    _ ← check (codes "register:ip:" ++ cred.ip) register_per_ip
    email ← known (validate_email addresses cred.email)
    let name = display_name_of cred.display_name email
    _ ← known (check_display_name name)
    _ ← known (password_result (validate_password argon cred.password))
    hash ← known (password_result (hash_password argon x.hash_slot x.salt cred.password))
    u ← on_users (Users.create db email name hash)
    registered x cred email u
