-- ===== src/Tests/Backend.antt =====
-- A configuration, an origin policy, a session, a ticket, a rate limit, a room and an invitation.
use cb_back.Inbox.Server.Invariant.{new_inbox-IsSound}
use cb_back.Prelude.Outcome.{Returns}
use cb_back.Prelude.{
  arith, List, ℕ, ◌≡◌, ◌≢◌, refl, false, Option, none, some, [], ◌∷◌, Text, text_eq, codes,
  if◌then◌else◌, ◌≤◌,
}
use cb_back.Prelude.Int.{pos}
use cb_back.Prelude.Results.{done}
use cb_back.Auth.Sessions.{Session, find, find_read}
use cb_back.Auth.Sessions.Revocation.{find_lem}
use cb_back.Auth.RateLimiter.{login_per_account}
use cb_back.Config.Load.{Env}
use cb_back.Http.Origin
use cb_back.Rooms.Service.{Room}
use cb_back.Invites.Handler.{Services, Caller, handle, type_invite}
use cb_back.Invites.Sending.{IsAnswered, handle-Sends}
use cb_back.Inbox
use cb_back.Auth.RateLimiter.Quota.{attempts-admitted, run_attempts}
use cb_back.Tests.Services.{store, some_session, signed_in, counters, table, strings, lower}

abbrev getenv : Text → Text
getenv key =
    if text_eq key (codes "DATABASE_URL")
    then codes "db"
    else if text_eq key (codes "REDIS_URL")
    then codes " redis "
    else []

abbrev pub environment : Env
environment = record {
  getenv = getenv;
  read_level = λ s. some (pos 0);
  read_bool = λ s. none;
  read_duration = λ s. none;
}

abbrev found : Session
found = record some_session { id = codes "tok" }

find_lem_example :
    (found.id ≡ codes "tok") × (50 ≤ found.expires_at) × (signed_in (codes "sess:tok") ≢ none)
unfolding find find_read text_eq
find_lem_example = find_lem store (codes "tok") 50 signed_in found refl

abbrev ticketed : Text → Option Text
ticketed k = if text_eq k (codes "ws_ticket:t") then some (codes "u1") else none

abbrev four : Text → ℕ
four k = 4

-- Seven attempts, one of them made before.
attempts-admitted_example : (run_attempts counters (codes "a") login_per_account 7 (λ k. 1)).0 ≡ 4
attempts-admitted_example =
    attempts-admitted counters (codes "a") login_per_account 7 (λ k. 1) (omega arith)
      (refl, (refl, (refl, (refl, (refl, (refl, (refl, tt)))))))

abbrev pub urls : Origin.Env
urls = record {
  parse_url = λ s. some (codes "https", codes "a.b");
  to_lower = lower;
  equal_fold = text_eq;
}

abbrev pub policy : Origin.OriginPolicy
policy = record { permitted = codes "https://a.b" ∷ []; allow_any = false }

-- Each byte is 3, the letter f.
abbrev made : Room
made = record {
  id = codes "r1";
  slug = codes "fff-ffff-ffff";
  name = codes "Standup";
  created_by = codes "u1";
}

abbrev inbox : Inbox.Hub.Env
inbox = record {
  user_of = λ c. codes "u2";
  order = λ n xs. xs;
  contains-order = λ n xs c. refl;
  order-Distinct = λ n xs d. d;
  length-order = λ n xs. refl;
}

abbrev services : Services
services = record {
  counters = counters;
  table = table;
  strings = strings;
  inbox = inbox;
  by_id = λ id. done tt;
  marshal = λ event. some (codes "ring");
}

abbrev caller : Caller
caller = record { id = codes "u1"; display_name = codes "Ann" }

abbrev callee : Text
callee = codes "0A000000-0000-0000-0000-000000000000"

handle-Sends_example :
    Returns
      (IsAnswered services type_invite
        (some caller)
        (some callee)
        (codes "abc-defg-hij")
        Inbox.Hub.new_hub)
      (handle services type_invite
        (some caller)
        (some callee)
        (codes "abc-defg-hij")
        tt
        (four, Inbox.Hub.new_hub))
handle-Sends_example =
    handle-Sends services type_invite (some caller) (some callee) (codes "abc-defg-hij") tt
      (four, Inbox.Hub.new_hub) (new_inbox-IsSound inbox).well_formed

-- The second of three sessions is the oldest.
abbrev three : List (Text × ℕ)
three = (codes "a", 5) ∷ (codes "b", 3) ∷ (codes "c", 4) ∷ []
