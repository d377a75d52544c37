-- ===== src/Tests/Login.antt =====
-- internal/auth/service.go and internal/auth/handlers.go: Ann's account, from its registration on.
use cb_back.Auth.Service.Issue.{IsIssued}
use cb_back.Auth.Service.Accepted.{login_accepted}
use cb_back.Auth.Sessions.Newest.{IsLatest}
use cb_back.Auth.Sessions.Issue.{stored}
use cb_back.Auth.Middleware.{bearer_token, token_from, passed, require, Request}
use cb_back.Auth.Redis.{written, written_all}
use cb_back.Auth.Service.Work.{login_derives_same, login_derives, IsLet, hashed, unknown}
use cb_back.Prelude.{
  ℕ, ◌≡◌, refl, arith, true, false, some, none, List, [], codes, text_eq, Text, AllOf, replicate,
}
use cb_back.Prelude.Results.{done}
use cb_back.Auth.Sessions.{trim_sessions, new_session}
use cb_back.Auth.Users.{record_event, create}
use cb_back.Auth.Users.Atomic.{IsAtomic, create-IsAtomic}
use cb_back.Auth.Password.{decode_parts, encode_hash, hash_password, verify_password}
use cb_back.Auth.Password.RoundTrip.{verify-hash}
use cb_back.Auth.Service.{
  start_session, verified, authenticate, check_account, check, Chance, Credentials, Issued, World,
  login,
}
use cb_back.Prelude.Base64.RoundTrip.{IsByte}
use cb_back.Prelude.Decimal.{scan_unsigned, scan_digits, skip_space, print_before, emit}
use cb_back.Prelude.Base64.{sextets, on_one_line, decode, bytes_of, sextets_of}
use cb_back.Auth.Service.Login.{IsVerified, login-IsVerified}
use cb_back.Auth.RateLimiter.{reset, increment_and_expire, allow}
use cb_back.Prelude.Strings.{among, cut, strip_prefix, split, trim_right, trim_left}
use cb_back.Auth.Password.Encoding.{scan_params, scan_signed, scan_version}
use cb_back.Auth.Cookies.{Settings}
use cb_back.Auth.Handlers.{refusal, write_session, handle_login, Call}
use cb_back.Auth.Handlers.Delivery.{handle-login-refused, IsAnswered, handle-login-IsAnswered}
use cb_back.Tests.Services.{replicate-IsByte, backend, accounts, argon, ann, store}

abbrev pub salt : List ℕ
salt = replicate 16 3

-- Of a password of 14 characters.
abbrev pub hash : Text
hash =
    codes
      "$argon2id$v=19$m=19456,t=2,p=1$AwMDAwMDAwMDAwMDAwMDAw$Dg4ODg4ODg4ODg4ODg4ODg4ODg4ODg4ODg4ODg4ODg4"

hash_lem : hash_password argon true (some salt) (codes "correct horse!") ≡ done hash
unfolding hash_password encode_hash print_before emit sextets_of
hash_lem = refl

create-IsAtomic_example :
    IsAtomic accounts
      (codes "a@b.c")
      (codes "Ann")
      hash
      none
      (create accounts (codes "a@b.c") (codes "Ann") hash none)
create-IsAtomic_example = create-IsAtomic accounts (codes "a@b.c") (codes "Ann") hash none

salt-IsByte : AllOf IsByte salt
salt-IsByte = replicate-IsByte 16 3 (omega arith)

verify-hash_example : verify_password argon true hash (codes "correct horse!") ≡ done (true, false)
verify-hash_example = verify-hash argon (codes "correct horse!") hash salt refl salt-IsByte hash_lem

abbrev pub chance : Chance
chance = record {
  verify_slot = true;
  hash_slot = true;
  salt = some salt;
  token = done (codes "new");
  now = 7;
}

abbrev pub credentials : Credentials
credentials = record {
  email = codes " A@b.c";
  password = codes "correct horse!";
  display_name = codes "Ann";
  ip = codes "::1";
  user_agent = [];
}

abbrev pub session_of_ann : Issued
session_of_ann = record {
  user = ann;
  token = codes "new";
  session = new_session store (codes "new") (codes "u1") (codes "::1") [] 7;
}

abbrev world : World backend
world = ((λ k. 0), (λ k. none), some (ann, hash))

login-IsVerified_example :
    IsVerified backend chance credentials world.2 session_of_ann
    × IsIssued backend chance credentials world.1 session_of_ann
        (login backend chance credentials world).1.1
unfolding login check allow increment_and_expire check_account text_eq authenticate trim_right
    trim_left verified verify_password decode_parts split scan_version strip_prefix scan_signed
    skip_space scan_params encode_hash hash_password reset start_session
    cb_back.Auth.Sessions.create trim_sessions record_event bytes_of decode on_one_line sextets
    scan_digits scan_unsigned
login-IsVerified_example = login-IsVerified backend chance credentials session_of_ann world refl

abbrev cookie_settings : Settings
cookie_settings = record {
  cookie_name = codes "sid";
  cookie_domain = [];
  cookie_secure = true;
  idle_ttl = 10;
}

abbrev call : Call
call = record {
  credentials = some credentials;
  mode = [];
  passwords = none;
  token = [];
  ip = codes "::1";
  user_agent = [];
  now = 8;
  later = 9;
}

handle-login-IsAnswered_example :
    IsAnswered backend cookie_settings chance call credentials world
      (handle_login backend cookie_settings chance call world)
unfolding handle_login write_session login check allow increment_and_expire check_account text_eq
    authenticate trim_right trim_left verified verify_password decode_parts split scan_version
    strip_prefix scan_signed skip_space scan_params encode_hash hash_password reset start_session
    cb_back.Auth.Sessions.create trim_sessions record_event bytes_of decode on_one_line sextets
    scan_digits scan_unsigned
handle-login-IsAnswered_example =
    handle-login-IsAnswered backend cookie_settings chance call credentials world refl refl

-- Nobody has registered yet.
abbrev pub empty_world : World backend
empty_world = ((λ k. 0), (λ k. none), none)

handle-login-refused_example :
    (handle_login backend cookie_settings chance call empty_world).0
    ≡ refusal 401 (codes "invalid_credentials")
unfolding check allow increment_and_expire check_account text_eq trim_right trim_left
handle-login-refused_example =
    handle-login-refused backend cookie_settings chance call credentials empty_world refl refl refl
      tt

-- A login of Ann with her password, and one while nobody has registered yet.
ann-IsLet : IsLet backend chance credentials world
unfolding check allow increment_and_expire check_account text_eq trim_right trim_left
ann-IsLet = record {
  by_address = refl;
  by_account = refl;
  usual = hashed ann hash (codes "correct horse!") salt refl salt-IsByte hash_lem;
}

nobody-IsLet : IsLet backend chance credentials empty_world
unfolding check allow increment_and_expire check_account text_eq trim_right trim_left
nobody-IsLet = record { by_address = refl; by_account = refl; usual = unknown }

login_derives_same_example :
    (login_derives backend chance credentials world).0
    ≡ (login_derives backend chance credentials empty_world).0
login_derives_same_example =
    login_derives_same backend chance credentials credentials world empty_world ann-IsLet
      nobody-IsLet

-- A login at the time 0, with nothing in Redis, and a request with its token at the time 60.
abbrev chance_first : Chance
chance_first = record chance { now = 0 }

abbrev credentials_anywhere : Credentials
credentials_anywhere = record credentials { ip = [] }

abbrev first_of_ann : Issued
first_of_ann = record {
  user = ann;
  token = codes "new";
  session = new_session store (codes "new") (codes "u1") [] [] 0;
}

abbrev request : Request
request = record { authorization = codes "Bearer new"; cookie = none; ticket = [] }

no_others :
    IsLatest store
      (codes "u1")
      (codes "new")
      0
      (stored store (codes "new") (codes "u1") [] [] (codes "{}") 0 (λ k. none))
unfolding among
no_others b raw sess m n p q = ground (arith, m)

login_accepted_example :
    (require
      (record { sessions = store; by_id = λ id. done ann; equal_fold = text_eq })
      request
      60
      (login backend chance_first credentials_anywhere world).1.1).0
    ≡ passed (record { user = ann; session = first_of_ann.session; token = codes "new" })
unfolding login check allow increment_and_expire check_account text_eq authenticate trim_right
    trim_left verified verify_password decode_parts split scan_version strip_prefix scan_signed
    skip_space scan_params encode_hash hash_password reset start_session
    cb_back.Auth.Sessions.create trim_sessions record_event bytes_of decode on_one_line sextets
    scan_digits scan_unsigned written_all written token_from bearer_token cut
login_accepted_example =
    login_accepted backend chance_first credentials_anywhere (λ id. done ann) text_eq (codes "new")
      (codes "{}") world first_of_ann request 60
      (login backend chance_first credentials_anywhere world).1.1 (some (codes "{}")) ann refl refl
      refl (refl, refl) no_others refl refl refl refl (omega arith)
