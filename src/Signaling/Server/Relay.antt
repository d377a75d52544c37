-- ===== src/Signaling/Server/Relay.antt =====
-- A frame on its way through internal/signaling: from the read pump of its sender (client.go) through
-- the hub's goroutine (hub.go) to the write pump of a member of the room.
use cb_back.Prelude.{ℕ, ◌≡◌, List, ◌∷◌, ◌++◌, Text, AllOf}
use cb_back.Signaling.Hub.{Env, Message}
use cb_back.Signaling.Hub.Drop.{IsNotice}
use cb_back.Signaling.Server.{Server}

module _ (e : Env) where
  abbrev Arrived : Server → ℕ → Message → Server → Type 0
  Arrived s b m s' =
      (rest : List Text) × ((s'.hub.send b).buffer ≡ (s.hub.send b).buffer ++ m.frame ∷ rest)
      × AllOf (IsNotice e m.room b) rest
