-- ===== src/Signaling/Client.antt =====
-- internal/signaling/client.go: the upgrade of a request, and the two pumps of a connection. What
-- arrives on the socket is a list of events; what a pump does is the list of its actions.
pub mod Pumps
pub mod WritePump
pub mod Keepalive
use cb_back.Prelude.{
  ℕ, Bool, true, false, not, ◌≡◌, Option, none, some, List, [], ◌∷◌, Text, codes, text_eq,
  if◌then◌else◌, null,
}
use cb_back.Signaling.Protocol.{Inbound, Outbound, parse_inbound}
use cb_back.Signaling.RateLimit.{
  TokenBucket, new_token_bucket, allow, message_burst, messages_per_second,
}
use cb_back.Signaling.Hub.{Env, Message, Client, room_of}

-- The close codes of the websocket protocol that the pumps send.
pub data CloseCode : Type 0 where
  normal_closure going_away unsupported_data policy_violation : CloseCode

-- What `ReadMessage` returns, and the time at which it does.
pub data ReadEvent : Type 0 where
  read_failed : ReadEvent
  frame_read : (is_text : Bool) → Text → ℕ → ReadEvent

pub data Action : Type 0 where
  publishes : Message → Action
  writes_close : CloseCode → Text → Action
  drops closes : Action

-- The deferred calls of `readPump`.
abbrev pub read_deferred : List Action
read_deferred = drops ∷ closes ∷ []

module _ (e : Env) (unmarshal : Text → Option Inbound) (c : ℕ) where
  -- The sender is stamped here, from the authenticated connection.
  abbrev pub stamped : Inbound → Outbound
  stamped inbound = record {
    type = inbound.type;
    from = (e.client c).user_id;
    payload = inbound.payload;
    peers = [];
  }

  -- One frame that is within the budget: the message to publish, if any.
  unfoldable pub relay : Text → Option Message
  relay frame = elim (parse_inbound unmarshal frame) [
    | none ↦ none
    | some inbound ↦ elim (e.marshal (stamped inbound)) [
      | none ↦ none
      | some out ↦ some (record { room = room_of e c; sender = c; to = inbound.to; frame = out })
    ]
  ]

  abbrev pub published : Option Message → List Action → List Action
  published none rest = rest
  published (some m) rest = publishes m ∷ rest

  -- The loop of `readPump`; after the last event it waits for the next.
  unfoldable pub read_loop : TokenBucket → List ReadEvent → List Action
  read_loop budget [] = []
  read_loop budget (read_failed ∷ events) = read_deferred
  read_loop budget (frame_read is_text frame now ∷ events) =
      let rest = read_loop (allow budget now).0 events in
      if not is_text
      then writes_close unsupported_data (codes "text frames only") ∷ read_deferred
      else if not (allow budget now).1
      then writes_close policy_violation (codes "message rate exceeded") ∷ read_deferred
      else published (relay frame) rest

  -- `deadline_set` says that `SetReadDeadline` returned no error.
  unfoldable pub read_pump : (deadline_set : Bool) → ℕ → List ReadEvent → List Action
  read_pump deadline_set now events =
      if not deadline_set
      then read_deferred
      else read_loop (new_token_bucket message_burst messages_per_second now) events

-- What the write pump's `select` yields, and whether the write that follows succeeds.
pub data WriteEvent : Type 0 where
  frame_taken : Text → (written : Bool) → WriteEvent
  channel_closed : WriteEvent
  ticked : (written : Bool) → WriteEvent

pub data Written : Type 0 where
  text_frame : Text → Written
  ping close_frame socket_closed : Written

unfoldable pub write_pump : List WriteEvent → List Written
write_pump [] = []
write_pump (frame_taken frame written ∷ events) =
    let rest = write_pump events in if written then text_frame frame ∷ rest else socket_closed ∷ []
write_pump (channel_closed ∷ events) = close_frame ∷ socket_closed ∷ []
write_pump (ticked written ∷ events) =
    let rest = write_pump events in if written then ping ∷ rest else socket_closed ∷ []

-- The outcome of `resolveRoom`.
pub data Resolved : Type 0 where
  room : Text → Resolved
  room_missing resolve_failed : Resolved

-- What `ServeHTTP` does with a request: an error response, an upgrade that failed, a refusal after the
-- upgrade because the hub has stopped, or a client with its pumps.
pub data Handshake : Type 0 where
  fails : ℕ → Text → Handshake
  upgrade_failed : Handshake
  refused : CloseCode → Text → Handshake
  serves : Client → Handshake

-- `identity` is what `AuthenticateWS` returns, and `slug` the `room` parameter of the URL.
unfoldable pub serve_http :
    (identity : Option (Text × Text)) (slug : Text) (resolve_room : Text → Resolved)
    (upgraded added : Bool)
    → Handshake
serve_http none slug resolve_room upgraded added = fails 401 (codes "unauthenticated")
serve_http (some (user_id, display_name)) slug resolve_room upgraded added =
    if null slug then fails 400 (codes "room_required") else elim (resolve_room slug) [
      | room_missing ↦ fails 404 (codes "room_not_found")
      | resolve_failed ↦ fails 500 (codes "internal_error")
      | room room_id ↦
          if not upgraded
          then upgrade_failed
          else if not added
          then refused going_away (codes "server shutting down")
          else serves (record { user_id = user_id; display_name = display_name; room_id = room_id })
    ]
