-- ===== src/Tests/Account.antt =====
-- internal/auth/service.go: Ann registers and changes her password.
use cb_back.Auth.Service.Issue.{IsIssued}
use cb_back.Prelude.{refl, some, [], ◌∷◌, codes, text_eq}
use cb_back.Auth.Users.{update_password, with_credential, with_user, create, AuthEvent}
use cb_back.Auth.Service.{check_display_name, registered, start_session, check, World, register}
use cb_back.Auth.Service.Account.{replace_password, change_password}
use cb_back.Tests.Services.{backend, backend_with, two_ids-IsOnce, signed_in, ann}
use cb_back.Auth.RateLimiter.{increment_and_expire, allow}
use cb_back.Auth.Service.Errors.{validate_email}
use cb_back.Auth.Service.Register.{register-IsRegistered, IsRegistered}
use cb_back.Auth.Service.Change.{change-password-IsChanged, IsChanged}
use cb_back.Auth.Password.{
  decode_parts, verify_password, hash_password, encode_hash, validate_password,
}
use cb_back.Prelude.Strings.{strip_prefix, split, trim_right, trim_left, among, cut}
use cb_back.Auth.Password.Encoding.{scan_params, scan_signed, scan_version}
use cb_back.Prelude.Decimal.{scan_unsigned, scan_digits, skip_space}
use cb_back.Prelude.Base64.{sextets, on_one_line, decode, bytes_of}
use cb_back.Auth.Sessions.{kept, others, revoke_listed, revoke_all_for_user, trim_sessions}
use cb_back.Tests.Login.{chance, credentials, session_of_ann, empty_world, hash}

register-IsRegistered_example :
    IsRegistered backend chance credentials empty_world.2 session_of_ann
    × IsIssued backend chance credentials empty_world.1 session_of_ann
        (register backend chance credentials empty_world).1.1
unfolding register registered check allow increment_and_expire validate_email among text_eq
    trim_right trim_left validate_password check_display_name encode_hash hash_password
    start_session cb_back.Auth.Sessions.create trim_sessions create with_user with_credential cut
register-IsRegistered_example =
    register-IsRegistered backend chance credentials session_of_ann empty_world refl

abbrev event : AuthEvent
event = record {
  user_id = codes "u1";
  email = codes "a@b.c";
  event = [];
  ip = codes "::1";
  user_agent = [];
}

-- Two sessions of Ann, of which tok is in use.
abbrev signed_in_world : World (backend_with (codes "tok" ∷ codes "old" ∷ []) two_ids-IsOnce)
signed_in_world = ((λ k. 0), signed_in, some (ann, hash))

change-password-IsChanged_example :
    IsChanged
      (backend_with (codes "tok" ∷ codes "old" ∷ []) two_ids-IsOnce)
      chance
      (codes "u1")
      (codes "correct horse!")
      (codes "another horse!!")
      (codes "tok")
      signed_in_world
      (change_password
        (backend_with (codes "tok" ∷ codes "old" ∷ []) two_ids-IsOnce)
        chance
        (codes "u1")
        (codes "correct horse!")
        (codes "another horse!!")
        (codes "tok")
        event
        signed_in_world).1.1
unfolding change_password replace_password check allow increment_and_expire among text_eq trim_right
    trim_left validate_password encode_hash hash_password verify_password decode_parts split
    scan_version strip_prefix scan_signed skip_space scan_params bytes_of decode on_one_line sextets
    scan_digits scan_unsigned update_password revoke_all_for_user revoke_listed others kept
change-password-IsChanged_example =
    change-password-IsChanged (backend_with (codes "tok" ∷ codes "old" ∷ []) two_ids-IsOnce) chance
      (codes "u1") (codes "correct horse!") (codes "another horse!!") (codes "tok") event 1
      signed_in_world refl
