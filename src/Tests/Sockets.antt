-- ===== src/Tests/Sockets.antt =====
-- Handshakes from a page of the allowlist: Ann's with her cookie, and one with a ticket of hers.
use cb_back.Prelude.Strings.{among}
use cb_back.Http.Origin.{allow}
use cb_back.Auth.Sessions.{redeem_ws_ticket, find_read, find}
use cb_back.Auth.Middleware.{ticket_user, identity_of, token_from, identify, authenticate_ws}
use cb_back.Prelude.{true, some, none, [], Text, Option, codes, text_eq, refl, if◌then◌else◌}
use cb_back.Gateway.{Request}
use cb_back.Gateway.Sockets.{open_signaling, open_inbox}
use cb_back.Gateway.Sockets.Guard.{
  IsAdmitted, IsHeard, open_signaling-IsAdmitted, open_inbox-IsHeard,
}
use cb_back.Inbox.Connection
use cb_back.Signaling.Client
use cb_back.Inbox.Connection.{Conn}
use cb_back.Signaling.Hub.{Client}
use cb_back.Tests.Services.{table, strings, ann, signed_in}
use cb_back.Tests.Session.{service}
use cb_back.Tests.Backend.{urls, policy}

abbrev joining : Request
joining = record {
  method = codes "GET";
  host = codes "api.b";
  path = codes "/ws";
  origin = codes "https://A.b";
  authorization = [];
  cookie = some (codes "tok");
  ticket = [];
}

abbrev joined : Client
joined = record { user_id = ann.id; display_name = ann.display_name; room_id = codes "r1" }

open_signaling-IsAdmitted_example :
    IsAdmitted urls policy service strings table 50 true true joining tt
      (codes "fff-ffff-ffff")
      signed_in
      (open_signaling urls policy service strings table 50 true true joining tt
        (codes "fff-ffff-ffff")
        signed_in).1
      joined
unfolding open_signaling authenticate_ws identify token_from find find_read text_eq identity_of
    Client.serve_http allow among
open_signaling-IsAdmitted_example =
    open_signaling-IsAdmitted urls policy service strings table 50 true true joining tt
      (codes "fff-ffff-ffff") signed_in joined refl

abbrev listening : Request
listening = record joining { cookie = none; ticket = codes "t" }

abbrev heard : Conn
heard = record { id = 3; user_id = ann.id }

abbrev ticketed : Text → Option Text
ticketed k = if text_eq k (codes "ws_ticket:t") then some (codes "u1") else none

open_inbox-IsHeard_example :
    IsHeard urls policy service listening 50 ticketed
      (open_inbox urls policy service listening 3 50 true true ticketed).1
      heard
unfolding open_inbox authenticate_ws redeem_ws_ticket text_eq ticket_user Connection.serve_http
    allow among
open_inbox-IsHeard_example =
    open_inbox-IsHeard urls policy service listening 3 50 true true ticketed heard refl
