-- ===== src/Tests/Session.antt =====
-- A request with a session behind the session check.
use cb_back.Auth.Sessions.Absence.{after_calls, touches, finds, Call}
use cb_back.Auth.Redis.{written, written_all}
use cb_back.Auth.Middleware.Accepted.{authenticate-issue}
use cb_back.Prelude.{List, some, ◌≡◌, ◌≢◌, refl, none, [], ◌∷◌, text_eq, codes}
use cb_back.Prelude.Strings.{among, cut, trim_left, trim_right}
use cb_back.Prelude.Results.{done}
use cb_back.Auth.Sessions.{
  issue_ws_ticket, Store, revoke_all_for_user, revoke_listed, others, kept, revoke, revoke_read,
  revoke_by_id,
}
use cb_back.Auth.Sessions.Revocation.{IsGone}
use cb_back.Auth.Sessions.RevokeAll.{revoke_all-IsGone}
use cb_back.Auth.Middleware.{
  authenticate_ws, Request, Service, Identity, passed, require, token_from, bearer_token,
}
use cb_back.Auth.Middleware.Guard.{require-revoke}
use cb_back.Tests.Services.{store, store_with, two_ids-IsOnce, some_session, signed_in, ann}

abbrev pub service : Service
service = record { sessions = store; by_id = λ id. done ann; equal_fold = text_eq }

abbrev request : Request
request = record { authorization = codes "Bearer tok"; cookie = none; ticket = [] }

abbrev pub identity : Identity
identity = record {
  user = ann;
  session = record some_session { id = codes "tok" };
  token = codes "tok";
}

-- Another request looks for the session, and one of another session touches that.
abbrev meanwhile : List Call
meanwhile = finds (codes "tok") 40 ∷ touches (record some_session { id = codes "old" }) 45 ∷ []

require-revoke_example :
    (require service request 50
      (after_calls store meanwhile (revoke store (codes "tok") signed_in).1)).0
    ≢ passed identity
unfolding revoke revoke_read revoke_by_id token_from bearer_token cut trim_left trim_right text_eq
require-revoke_example =
    require-revoke service request meanwhile 50 signed_in identity refl (tt, (refl, tt))

abbrev two_sessions : Store
two_sessions = store_with (codes "tok" ∷ codes "old" ∷ []) two_ids-IsOnce

revoke_all-IsGone_example :
    IsGone two_sessions
      (codes "old")
      (revoke_all_for_user two_sessions (codes "u1") (codes "tok") signed_in).1
unfolding revoke_all_for_user revoke_listed others kept among text_eq
revoke_all-IsGone_example =
    revoke_all-IsGone two_sessions (codes "u1") (codes "tok") (codes "old") 1 signed_in refl refl
      refl

-- The ticket that the service gave out for Ann, on her next request.
abbrev with_ticket : Request
with_ticket = record { authorization = []; cookie = none; ticket = codes "t" }

authenticate-issue_example :
    (authenticate_ws service with_ticket 60
      (issue_ws_ticket store (done (codes "t")) (codes "u1") (λ k. none)).1).0
    ≡ done (ann.id, ann.display_name)
unfolding issue_ws_ticket written_all written text_eq
authenticate-issue_example =
    authenticate-issue service (codes "t") (codes "u1") (λ k. none)
      (issue_ws_ticket store (done (codes "t")) (codes "u1") (λ k. none)).1 (codes "t", 5)
      (some (codes "u1")) ann with_ticket 60 refl refl refl refl refl refl
