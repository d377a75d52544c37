-- ===== src/Tests/Relay.antt =====
-- The room relay at a room of two clients, one of them with a full buffer.
use cb_back.Signaling.Protocol.{type_chat, Inbound}
use cb_back.Prelude.{
  Option, ◌≡◌, refl, true, false, some, List, [], ◌∷◌, ◌++◌, Text, codes, arith, contains, lookup,
  AllOf, replicate, if◌then◌else◌, ◌==◌, text_eq, text_eq_iff,
}
use cb_back.Prelude.Int.{pos}
use cb_back.Prelude.Outcome.{ok, Returns}
use cb_back.Prelude.Channel.{Chan, new_chan}
use cb_back.Prelude.Groups.{IsGrouping, total}
use cb_back.Signaling.Hub.{Env, Hub, Message, members_of, room_of, leave, join, deliver, skips}
use cb_back.Signaling.Hub.Cascade.{IsWellFormed}
use cb_back.Signaling.Hub.Drop.{IsNotice}
use cb_back.Signaling.Hub.Join.{IsFresh}
use cb_back.Signaling.Hub.Promises.{leave_removes, deliver_drops, deliver_isolated, join_welcomes}
use cb_back.Signaling.Server.{Server, connect, cancel, drop, receive, publish, new_server, run}
use cb_back.Signaling.Server.Invariant.{IsSound, run-IsSound}

-- Everybody is in the room "r", and a frame on the wire is its type and its sender.
abbrev env : Env
env = record {
  client = λ c. record { user_id = codes "u"; display_name = codes "U"; room_id = codes "r" };
  marshal = λ out. some (out.type ++ out.from);
  order = λ n xs. xs;
  contains-order = λ n xs c. refl;
  order-Distinct = λ n xs d. d;
}

abbrev hello : Message
hello = record { room = codes "r"; sender = 1; to = []; frame = codes "hello" }

run-IsSound_example :
    (s : Server) × (run env
        (connect ∷ connect ∷ publish hello ∷ receive 2 ∷ drop 1 ∷ drop 1 ∷ cancel ∷ connect ∷ [])
        new_server
      ≡ ok s)
    × IsSound env s
run-IsSound_example =
    run-IsSound env
      (connect ∷ connect ∷ publish hello ∷ receive 2 ∷ drop 1 ∷ drop 1 ∷ cancel ∷ connect ∷ [])

-- The clients 1 and 2 are in the room.
abbrev pair : Hub
pair = record {
  rooms = (codes "r", 1 ∷ 2 ∷ []) ∷ [];
  send = λ c. new_chan;
  count = pos 2;
  ranges = 0;
}

pair-IsGrouping : IsGrouping (room_of env) pair.rooms
unfolding lookup contains
pair-IsGrouping = record {
  keys = (refl, tt);
  nonempty = λ k. ground arith;
  distinct = λ k. ground (arith, text_eq (codes "r") k);
  at_home = λ k c m. ground (arith, text_eq_iff (codes "r") k);
}

pair-IsWellFormed : IsWellFormed env pair
unfolding total
pair-IsWellFormed = record {
  grouping = pair-IsGrouping;
  opened = λ r c m. refl;
  counted = refl;
  bounded = λ c. omega arith;
}

leave_removes_example :
    Returns
      (λ r.
        IsWellFormed env r.1
        × (contains (members_of (codes "r") r.1) 1 ≡ false)
        × (r.0 ≡ contains (members_of (codes "r") pair) 1))
      (leave env 5 1 pair)
unfolding lookup text_eq
leave_removes_example = leave_removes env 5 pair pair-IsWellFormed 1 (omega arith)

-- Nobody is in the room "s".
abbrev astray : Message
astray = record { room = codes "s"; sender = 1; to = []; frame = codes "hello" }

deliver_isolated_example :
    Returns
      (λ h'. (h'.send 2 ≡ new_chan) × (lookup (codes "r") h'.rooms ≡ lookup (codes "r") pair.rooms))
      (deliver env 5 astray pair)
unfolding lookup text_eq
deliver_isolated_example =
    deliver_isolated env 5 pair pair-IsWellFormed astray (omega arith) 2 (codes "r")
      (λ q. ground arith) (λ q. ground arith)

three-IsFresh : IsFresh 3 pair
unfolding lookup text_eq contains
three-IsFresh = record { outside = λ r. ground arith; channel = refl }

join_welcomes_example :
    Returns
      (λ h'.
        IsWellFormed env h'
        × ((rest : List Text) × ((h'.send 3).buffer ≡ codes "welcomeu" ∷ rest)
            × AllOf (IsNotice env (codes "r") 3) rest))
      (join env 5 3 pair)
unfolding lookup text_eq
join_welcomes_example =
    join_welcomes env 5 pair pair-IsWellFormed 3 three-IsFresh (omega arith) (codes "welcomeu") refl

-- The client 2 has not received anything for a while.
abbrev full_chan : Chan
full_chan = record { buffer = replicate 64 (codes "x"); is_closed = false }

abbrev stalled : Hub
stalled = record pair { send = λ c. if c == 2 then full_chan else new_chan }

stalled-IsWellFormed : IsWellFormed env stalled
unfolding total
stalled-IsWellFormed = record {
  grouping = pair-IsGrouping;
  opened = λ r c m. ground arith;
  counted = refl;
  bounded = λ c. ground arith;
}

deliver_drops_example :
    Returns
      (λ h'. (contains (members_of (codes "r") h') 2 ≡ false) × ((h'.send 2).is_closed ≡ true))
      (deliver env 5 hello stalled)
unfolding lookup contains skips text_eq
deliver_drops_example =
    deliver_drops env 5 stalled stalled-IsWellFormed hello (omega arith) 2 refl refl refl

abbrev serving : Server
serving = record { hub = pair; client_ids = 2; is_done = false }

-- Each frame is the payload of a chat message.
abbrev as_chat : Text → Option Inbound
as_chat frame = some (record { type = type_chat; to = []; payload = frame })

abbrev said : Message
said = record hello { frame = type_chat ++ codes "u" }
