-- ===== src/Gateway/Sockets.antt =====
-- The endpoints /ws and /ws/inbox (cmd/server/main.go), which look at the session themselves: the
-- handshakes of internal/signaling/client.go and internal/inbox/conn.go behind AuthenticateWS, and the
-- lookup of the room.
pub mod Guard
use cb_back.Prelude.{ℕ, Bool, ◌&&◌, Option, none, some, Text}
use cb_back.Prelude.Results.{Result, done, failed}
use cb_back.Auth.Redis.{Error}
use cb_back.Auth.Middleware
use cb_back.Auth.Middleware.{authenticate_ws}
use cb_back.Http.Origin
use cb_back.Http.Origin.{OriginPolicy, allow}
use cb_back.Inbox.Connection
use cb_back.Rooms.Service
use cb_back.Rooms.Service.{Table, by_slug}
use cb_back.Signaling.Client
use cb_back.Signaling.Client.{Resolved}
use cb_back.Gateway.{Request, origin_part, session_part, resolve_room}

module _ (o : Origin.Env) (policy : OriginPolicy) (v : Middleware.Service) where
  open v use {sessions}
  open (sessions.redis) use {State}

  -- Upgrade, which asks CheckOrigin; `upgrades` is the rest of it.
  abbrev pub upgraded : Request → Bool → Bool
  upgraded r upgrades = allow o policy (origin_part r) && upgrades

  module _ (n : Service.Env) (rooms : Table) (now : ℕ) (upgrades added : Bool) (r : Request) where
    abbrev pub resolver : rooms.State → Text → Resolved
    resolver t slug = resolve_room (by_slug n rooms slug t)

    abbrev pub shaken :
        rooms.State → Text → Result Error (Text × Text) × State → Client.Handshake × State
    shaken t slug (failed e, s) =
        (Client.serve_http none slug (resolver t) (upgraded r upgrades) added, s)
    shaken t slug (done who, s) =
        (Client.serve_http (some who) slug (resolver t) (upgraded r upgrades) added, s)

    -- GET /ws; `slug` is the room parameter of the URL.
    unfoldable pub open_signaling : rooms.State → Text → State → Client.Handshake × State
    open_signaling t slug s = shaken t slug (authenticate_ws v (session_part r) now s)

  abbrev pub inbox_shaken :
      Request → ℕ → Bool → Bool → Result Error (Text × Text) × State → Connection.Handshake × State
  inbox_shaken r next upgrades added (failed e, s) =
      (Connection.serve_http none next (upgraded r upgrades) added, s)
  inbox_shaken r next upgrades added (done (user, name), s) =
      (Connection.serve_http (some user) next (upgraded r upgrades) added, s)

  -- GET /ws/inbox; `next` is the next number of a connection.
  unfoldable pub open_inbox : Request → ℕ → ℕ → Bool → Bool → State → Connection.Handshake × State
  open_inbox r next now upgrades added s =
      inbox_shaken r next upgrades added (authenticate_ws v (session_part r) now s)
