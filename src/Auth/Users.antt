-- ===== src/Auth/Users.antt =====
-- internal/auth/store.go: UserStore, over the tables of users, credentials and events in Postgres.
pub mod Atomic
use cb_back.Prelude.{
  ℕ, ◌≡◌, Bool, true, false, ◌⊎◌, Option, none, some, List, [], ◌∷◌, Text, null, if◌then◌else◌,
  ◌==◌, map,
}
use cb_back.Prelude.Strings.{trim_space}
use cb_back.Prelude.Results.{Result, done, failed}
use cb_back.Prelude.Stateful.{Step}
use cb_back.Auth.Redis.{
  Error, user_not_found, user_disabled, email_taken, no_credentials, unavailable,
}
use cb_back.Auth.Sessions.{truncate}

pub record User : Type 0 where
  pub id : Text
  pub email : Text
  pub display_name : Text
  pub email_verified : Bool
  pub created_at : ℕ
  pub is_disabled : Bool

pub record Contact : Type 0 where
  pub id : Text
  pub display_name : Text

pub record AuthEvent : Type 0 where
  pub user_id : Text
  pub email : Text
  pub event : Text
  pub ip : Text
  pub user_agent : Text

-- pgx's ErrNoRows, the code of a violated unique index, and any other error.
pub data DbError : Type 0 where
  no_rows unique_violation other_error : DbError

-- The statements of UserStore as Postgres answers them. A transaction works on its own copy of the
-- state; a commit that reports an error may have taken effect or not. net.ParseIP is here, too.
pub record Database : Type 1 where
  pub State : Type 0
  pub begin : State → Result DbError State
  pub insert_user : Text → Text → State → Result DbError User × State
  pub insert_credential : Text → Text → State → Result DbError (Unit {0}) × State
  pub commit : State → State → Result DbError (Unit {0}) × State
  pub select_by_email : Text → State → Result DbError (User × Option Text)
  pub select_by_id : Text → State → Result DbError User
  pub select_contacts : Text → ℕ → State → Result DbError (List Contact)
  pub select_credential : Text → State → Result DbError Text
  pub update_credential : Text → Text → State → Result DbError ℕ × State
  pub insert_event :
      Option Text
      → Option Text
      → Text
      → Option Text
      → Text
      → State
      → Result DbError (Unit {0}) × State
  pub parse_ip : Text → Option Text
  pub begin_lem : (s t : State) → begin s ≡ done t → t ≡ s
  pub commit_done : (t s : State) → (commit t s).0 ≡ done tt → (commit t s).1 ≡ t
  pub commit_any : (t s : State) → ((commit t s).1 ≡ t) ⊎ ((commit t s).1 ≡ s)

module _ (db : Database) where
  open db use {
    State, begin, insert_user, insert_credential, commit, select_by_email, select_by_id,
    select_contacts, select_credential, update_credential, insert_event, parse_ip,
  }

  -- The error of an insertion.
  abbrev pub insertion_error : DbError → Error
  insertion_error unique_violation = email_taken
  insertion_error no_rows = unavailable
  insertion_error other_error = unavailable

  abbrev pub committed : User → Result DbError (Unit {0}) × State → Result Error User × State
  committed u (done a, s) = (done u, s)
  committed u (failed e, s) = (failed unavailable, s)

  -- The rest of the transaction, on its copy; leaving it without a commit drops the copy.
  unfoldable pub with_credential :
      User → State → Result DbError (Unit {0}) × State → Result Error User × State
  with_credential u s (failed e, t) = (failed unavailable, s)
  with_credential u s (done a, t) = committed u (commit t s)

  unfoldable pub with_user : Text → State → Result DbError User × State → Result Error User × State
  with_user hash s (failed e, t) = (failed (insertion_error e), s)
  with_user hash s (done u, t) = with_credential u s (insert_credential u.id hash t)

  unfoldable pub create : Text → Text → Text → Step State Error User
  create email display_name hash s = elim (begin s) [
    | failed e ↦ (failed unavailable, s)
    | done t ↦ with_user hash s (insert_user email display_name t)
  ]

  abbrev pub credential_found : Result DbError (User × Option Text) → Result Error (User × Text)
  credential_found (failed no_rows) = failed user_not_found
  credential_found (failed unique_violation) = failed unavailable
  credential_found (failed other_error) = failed unavailable
  credential_found (done (u, none)) = failed no_credentials
  credential_found (done (u, some hash)) = done (u, hash)

  abbrev pub by_email_with_credential : Text → State → Result Error (User × Text)
  by_email_with_credential email s = credential_found (select_by_email email s)

  abbrev pub enabled : Result DbError User → Result Error User
  enabled (failed no_rows) = failed user_not_found
  enabled (failed unique_violation) = failed unavailable
  enabled (failed other_error) = failed unavailable
  enabled (done u) = if u.is_disabled then failed user_disabled else done u

  abbrev pub by_id : Text → State → Result Error User
  by_id id s = enabled (select_by_id id s)

  abbrev pub listed : Result DbError (List Contact) → Result Error (List Contact)
  listed (failed e) = failed unavailable
  listed (done cs) = done cs

  abbrev pub contacts : Text → ℕ → State → Result Error (List Contact)
  contacts except limit s = listed (select_contacts except limit s)

  abbrev pub the_credential : Result DbError Text → Result Error Text
  the_credential (failed no_rows) = failed no_credentials
  the_credential (failed unique_violation) = failed unavailable
  the_credential (failed other_error) = failed unavailable
  the_credential (done hash) = done hash

  abbrev pub credential_by_user_id : Text → State → Result Error Text
  credential_by_user_id id s = the_credential (select_credential id s)

  abbrev pub updated : Result DbError ℕ → Result Error (Unit {0})
  updated (failed e) = failed unavailable
  updated (done affected) = if affected == 0 then failed no_credentials else done tt

  unfoldable pub update_password : Text → Text → Step State Error (Unit {0})
  update_password id hash s = let r = update_credential id hash s in (updated r.0, r.1)

  -- An empty user or address stands as NULL.
  abbrev pub nonempty : Text → Option Text
  nonempty s = if null s then none else some s

  abbrev pub inserted : Result DbError (Unit {0}) → Result Error (Unit {0})
  inserted (failed e) = failed unavailable
  inserted (done a) = done tt

  unfoldable pub record_event : AuthEvent → Step State Error (Unit {0})
  record_event e s =
      let r =
        insert_event (nonempty e.user_id) (nonempty e.email) e.event (parse_ip e.ip)
          (truncate e.user_agent 512) s in
      (inserted r.0, r.1)
