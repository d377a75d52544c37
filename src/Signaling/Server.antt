-- ===== src/Signaling/Server.antt =====
-- The hub's goroutine (`Run` of internal/signaling/hub.go) together with the requests that the other
-- goroutines hand to it through its channels, one after the other: `add` from `ServeHTTP`, which makes
-- the client, `drop` and `publish` from the read pump, and the write pump's receive.
pub mod Invariant
pub mod Relay
use cb_back.Prelude.{ℕ, ◌+◌, Bool, true, false, List, [], ◌∷◌, Text, if◌then◌else◌}
use cb_back.Prelude.Outcome.{Outcome, ok, ◌>>=◌}
use cb_back.Signaling.Hub.{Env, Hub, Message, new_hub, set_chan, join, leave, deliver, close_all}
use cb_back.Prelude.Groups.{total}
use cb_back.Prelude.Channel.{received}

-- `client_ids` is the counter of client.go; `is_done` says that the channel `done` is closed.
pub record Server : Type 0 where
  pub hub : Hub
  pub client_ids : ℕ
  pub is_done : Bool

abbrev pub new_server : Server
new_server = record { hub = new_hub; client_ids = 0; is_done = false }

pub data Request : Type 0 where
  connect cancel : Request
  drop receive : ℕ → Request
  publish : Message → Request

-- More than the members of any room, one newcomer included.
abbrev pub enough : Hub → ℕ
enough h = total h.rooms + 2

abbrev pub set_hub : Server → Outcome Hub → Outcome Server
set_hub s result = result >>= λ h. ok (record s { hub = h })

-- <-ctx.Done(): the deferred `closeAll`, and then `done` is closed.
unfoldable pub shut_down : Server → Outcome Server
shut_down s = if s.is_done then ok s else set_hub (record s { is_done = true }) (close_all s.hub)

module _ (e : Env) where
  -- h.add, of the client that `ServeHTTP` has just made; h.drop; h.publish.
  unfoldable pub add : Server → Outcome Server
  add s =
      let s' = record s { client_ids = s.client_ids + 1 } in
      if s.is_done then ok s' else set_hub s' (join e (enough s.hub) (s.client_ids + 1) s.hub)

  unfoldable pub drop_client : ℕ → Server → Outcome Server
  drop_client c s =
      if s.is_done then ok s else set_hub s (leave e (enough s.hub) c s.hub >>= λ r. ok r.1)

  unfoldable pub publish_message : Message → Server → Outcome Server
  publish_message m s = if s.is_done then ok s else set_hub s (deliver e (enough s.hub) m s.hub)

  unfoldable pub serve : Request → Server → Outcome Server
  serve connect s = add s
  serve cancel s = shut_down s
  serve (drop c) s = drop_client c s
  serve (receive c) s = ok (record s { hub = set_chan c (received (s.hub.send c)) s.hub })
  serve (publish m) s = publish_message m s

  unfoldable pub run : List Request → Server → Outcome Server
  run [] s = ok s
  run (request ∷ requests) s = serve request s >>= λ s'. run requests s'
