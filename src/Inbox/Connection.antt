-- ===== src/Inbox/Connection.antt =====
-- internal/inbox/conn.go: the upgrade of a request, and the two pumps of a connection. What arrives on
-- the socket is a list of events; what a pump does is the list of its actions.
use cb_back.Prelude.{ℕ, Bool, not, Option, none, some, List, [], ◌∷◌, Text, codes, if◌then◌else◌}

pub record Conn : Type 0 where
  pub id : ℕ
  pub user_id : Text

pub data CloseCode : Type 0 where
  normal_closure going_away : CloseCode

-- What `ServeHTTP` does with a request: an error response, an upgrade that failed, a refusal after the
-- upgrade because the hub has been shut down, or a connection with its pumps.
pub data Handshake : Type 0 where
  fails : ℕ → Text → Handshake
  upgrade_failed : Handshake
  refused : CloseCode → Text → Handshake
  serves : Conn → Handshake

-- `identity` is the user that `AuthenticateWS` returns, `next` the next number of a connection.
unfoldable pub serve_http : (identity : Option Text) (next : ℕ) (upgraded added : Bool) → Handshake
serve_http none next upgraded added = fails 401 (codes "unauthenticated")
serve_http (some user) next upgraded added =
    if not upgraded
    then upgrade_failed
    else if not added
    then refused going_away (codes "server shutting down")
    else serves (record { id = next; user_id = user })

-- What `ReadMessage` returns: a frame, which is discarded, or an error.
pub data ReadEvent : Type 0 where
  read_failed frame_read : ReadEvent

pub data Action : Type 0 where
  removes closes : Action

-- The deferred calls of `readPump`.
abbrev pub read_deferred : List Action
read_deferred = removes ∷ closes ∷ []

-- After the last event the loop waits for the next.
unfoldable pub read_loop : List ReadEvent → List Action
read_loop [] = []
read_loop (read_failed ∷ events) = read_deferred
read_loop (frame_read ∷ events) = read_loop events

-- `deadline_set` says that `SetReadDeadline` returned no error.
unfoldable pub read_pump : (deadline_set : Bool) → List ReadEvent → List Action
read_pump deadline_set events = if not deadline_set then read_deferred else read_loop events

-- What the write pump's `select` yields, and whether the write that follows succeeds.
pub data WriteEvent : Type 0 where
  frame_taken : Text → (written : Bool) → WriteEvent
  channel_closed : WriteEvent
  ticked : (written : Bool) → WriteEvent

pub data Written : Type 0 where
  text_frame : Text → Written
  ping socket_closed : Written
  close_frame : CloseCode → Text → Written

unfoldable pub write_pump : List WriteEvent → List Written
write_pump [] = []
write_pump (frame_taken frame written ∷ events) =
    let rest = write_pump events in if written then text_frame frame ∷ rest else socket_closed ∷ []
write_pump (channel_closed ∷ events) = close_frame normal_closure (codes "") ∷ socket_closed ∷ []
write_pump (ticked written ∷ events) =
    let rest = write_pump events in if written then ping ∷ rest else socket_closed ∷ []
