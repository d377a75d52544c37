-- ===== src/Gateway.antt =====
-- cmd/server/main.go: the chain of handlers through which every request goes, with the patterns of
-- the packages' Routes functions.
pub mod Patterns
pub mod Guard
pub mod Sockets
use cb_back.Prelude.{
  ℕ, Bool, true, false, Option, none, some, List, [], ◌∷◌, ◌++◌, Text, codes, if◌then◌else◌,
}
use cb_back.Http.Origin
use cb_back.Http.Origin.{OriginPolicy, csrf}
use cb_back.Auth.Middleware
use cb_back.Auth.Middleware.{Service, Identity, Answer, passed, refused, require}
use cb_back.Prelude.Results.{Result, done, failed}
use cb_back.Rooms.Service.{Failure, Room, not_found}
use cb_back.Signaling.Client.{Resolved, room, room_missing, resolve_failed}
use cb_back.Gateway.Patterns.{fits}

-- The handlers, with the slug in the path.
pub data Endpoint : Type 0 where
  to_register to_login to_logout to_me to_logout_all to_password to_ws_ticket to_users : Endpoint
  to_create_room to_list_rooms to_turn : Endpoint
  to_room to_delete_room to_invite to_cancel to_decline : Text → Endpoint
  to_signaling to_inbox to_health to_readiness : Endpoint

pub record Route : Type 0 where
  pub pattern : Text
  pub is_guarded : Bool
  pub endpoint : Text → Endpoint

-- The parts of a request that are read; a header that is not there is empty.
pub record Request : Type 0 where
  pub method : Text
  pub host : Text
  pub path : Text
  pub origin : Text
  pub authorization : Text
  pub cookie : Option Text
  pub ticket : Text

abbrev pub origin_part : Request → Origin.Request
origin_part r = record {
  method = r.method;
  host = r.host;
  origin = r.origin;
  authorization = r.authorization;
}

abbrev pub session_part : Request → Middleware.Request
session_part r = record { authorization = r.authorization; cookie = r.cookie; ticket = r.ticket }

abbrev plain : Text → Endpoint → Route
plain pattern to = record { pattern = pattern; is_guarded = false; endpoint = λ slug. to }

-- Behind `require`.
abbrev guarded : Text → (Text → Endpoint) → Route
guarded pattern to = record { pattern = pattern; is_guarded = true; endpoint = to }

abbrev pub auth_routes : List Route
auth_routes =
    plain (codes "POST /api/auth/register") to_register
    ∷ plain (codes "POST /api/auth/login") to_login
    ∷ plain (codes "POST /api/auth/logout") to_logout
    ∷ guarded (codes "GET /api/auth/me") (λ slug. to_me)
    ∷ guarded (codes "POST /api/auth/logout-all") (λ slug. to_logout_all)
    ∷ guarded (codes "POST /api/auth/password") (λ slug. to_password)
    ∷ guarded (codes "POST /api/auth/ws-ticket") (λ slug. to_ws_ticket)
    ∷ guarded (codes "GET /api/users") (λ slug. to_users)
    ∷ []

abbrev pub room_routes : List Route
room_routes =
    guarded (codes "POST /api/rooms") (λ slug. to_create_room)
    ∷ guarded (codes "GET /api/rooms") (λ slug. to_list_rooms)
    ∷ guarded (codes "GET /api/rooms/{slug}") to_room
    ∷ guarded (codes "DELETE /api/rooms/{slug}") to_delete_room
    ∷ []

abbrev pub invite_routes : List Route
invite_routes =
    guarded (codes "POST /api/rooms/{slug}/invites") to_invite
    ∷ guarded (codes "POST /api/rooms/{slug}/invites/cancel") to_cancel
    ∷ guarded (codes "POST /api/rooms/{slug}/invites/decline") to_decline
    ∷ []

abbrev pub turn_routes : List Route
turn_routes = guarded (codes "GET /api/turn-credentials") (λ slug. to_turn) ∷ []

-- The websockets look at the session themselves.
abbrev pub own_routes : List Route
own_routes =
    plain (codes "GET /ws") to_signaling
    ∷ plain (codes "GET /ws/inbox") to_inbox
    ∷ plain (codes "GET /healthz") to_health
    ∷ plain (codes "GET /readyz") to_readiness
    ∷ []

abbrev pub routes : List Route
routes = auth_routes ++ room_routes ++ invite_routes ++ turn_routes ++ own_routes

-- No request fits two of the patterns.
unfoldable pub find_route : List Route → Text → Text → Option (Bool × Endpoint)
find_route [] method path = none
find_route (r ∷ rs) method path =
    let rest = find_route rs method path in
    elim (fits r.pattern method path) [
      | none ↦ rest
      | some slug ↦ some (r.is_guarded, r.endpoint slug)
    ]

-- How the signaling handler looks a room up.
abbrev pub resolve_room : Result Failure Room → Resolved
resolve_room (done found) = room found.id
resolve_room (failed not_found) = room_missing
resolve_room (failed other) = resolve_failed

-- What becomes of a request: `stopped` has the status, the code and whether the cookie is cleared.
pub data Served : Type 0 where
  forbidden unrouted : Served
  stopped : ℕ → Text → Bool → Served
  reached : Endpoint → Option Identity → Served

module _ (o : Origin.Env) (policy : OriginPolicy) (v : Service) where
  open v use {sessions}
  open (sessions.redis) use {State}

  abbrev pub after_require : Endpoint → Answer × State → Served × State
  after_require to (passed i, s) = (reached to (some i), s)
  after_require to (refused status code clears, s) = (stopped status code clears, s)

  abbrev pub dispatch : Request → ℕ → Option (Bool × Endpoint) → State → Served × State
  dispatch r now none s = (unrouted, s)
  dispatch r now (some (false, to)) s = (reached to none, s)
  dispatch r now (some (true, to)) s = after_require to (require v (session_part r) now s)

  unfoldable pub serve_request : Request → ℕ → State → Served × State
  serve_request r now s =
      if csrf o policy (origin_part r)
      then dispatch r now (find_route routes r.method r.path) s
      else (forbidden, s)
