-- ===== src/Signaling/Hub.antt =====
-- internal/signaling/hub.go: the rooms, and what the owning goroutine does for each request.
-- A client is a reference; the structs behind the references do not change once they are made.
pub mod Offer
pub mod Cascade
pub mod Evict
pub mod Serve
pub mod Drop
pub mod Leave
pub mod Join
pub mod Close
pub mod Promises
use cb_back.Prelude.{
  ℕ, zero, suc, ◌+◌, ◌≡◌, Bool, true, false, not, ◌&&◌, ◌||◌, Option, none, some, List, [], ◌∷◌,
  ◌++◌, map, Text, text_eq, ltb, ◌==◌, if◌then◌else◌, length, null, contains, remove, Distinct,
  Dict, lookup, insert, delete,
}
use cb_back.Prelude.Groups.{group, add_member, without_member}
use cb_back.Prelude.Channel.{Chan, new_chan, has_space_below, enqueue, closed}
use cb_back.Prelude.Int.{ℤ, pos, negsuc, ◌+ℤ◌}
use cb_back.Prelude.Outcome.{Outcome, ok, panic, stuck, ◌>>=◌}
use cb_back.Signaling.Protocol.{Peer, Outbound, type_welcome, type_peer_joined, type_peer_left}

-- The fields of client.go's Client that never change.
pub record Client : Type 0 where
  pub user_id : Text
  pub display_name : Text
  pub room_id : Text

-- What the hub goes by: the struct behind each reference, `json.Marshal`, and the order in which Go
-- ranges over a map, which may be another one each time and which has each entry once.
pub record Env : Type 0 where
  pub client : ℕ → Client
  pub marshal : Outbound → Option Text
  pub order : ℕ → List ℕ → List ℕ
  pub contains-order : (n : ℕ) (xs : List ℕ) (c : ℕ) → contains (order n xs) c ≡ contains xs c
  pub order-Distinct : (n : ℕ) (xs : List ℕ) → Distinct xs → Distinct (order n xs)

abbrev pub send_buffer_size : ℕ
send_buffer_size = 64

-- `send` is the channel of each client; `ranges` counts the maps ranged over so far.
pub record Hub : Type 0 where
  pub rooms : Dict (List ℕ)
  pub send : ℕ → Chan
  pub count : ℤ
  pub ranges : ℕ

-- One frame to deliver; an empty `to` is the whole room.
pub record Message : Type 0 where
  pub room : Text
  pub sender : ℕ
  pub to : Text
  pub frame : Text

abbrev pub new_hub : Hub
new_hub = record { rooms = []; send = λ _. new_chan; count = pos 0; ranges = 0 }

-- h.rooms[room], where a missing room has no members.
abbrev pub members_of : Text → Hub → List ℕ
members_of room h = group room h.rooms

abbrev pub set_chan : ℕ → Chan → Hub → Hub
set_chan c ch h = record h { send = λ d. if c == d then ch else h.send d }

abbrev pub has_space : Chan → Bool
has_space = has_space_below send_buffer_size

-- A send on a closed channel panics, also under `select`.
unfoldable pub push : ℕ → Text → Hub → Outcome (Bool × Hub)
push c frame h =
    if (h.send c).is_closed
    then panic
    else if has_space (h.send c)
    then ok (true, set_chan c (enqueue frame (h.send c)) h)
    else ok (false, h)

-- close(c.send): closing twice panics.
unfoldable pub close_send : ℕ → Hub → Outcome Hub
close_send c h = if (h.send c).is_closed then panic else ok (set_chan c (closed (h.send c)) h)

-- The loop of `announce` and `deliver`: a frame to all but those that are skipped. The result names
-- those that could not take it.
unfoldable pub offer_all : (ℕ → Bool) → Text → List ℕ → Hub → Outcome (List ℕ × Hub)
offer_all skip frame [] h = ok ([], h)
offer_all skip frame (c ∷ cs) h = do
  (pushed, h') ← (if skip c then ok (true, h) else push c frame h)
  (stalled, h'') ← offer_all skip frame cs h'
  ok ((if pushed then stalled else c ∷ stalled), h'')

-- The loop of `dropStalled`, over the `leave` that it calls.
unfoldable pub drop_stalled : (ℕ → Hub → Outcome (Bool × Hub)) → List ℕ → Hub → Outcome Hub
drop_stalled leave [] h = ok h
drop_stalled leave (c ∷ cs) h = do (_, h') ← leave c h; drop_stalled leave cs h'

-- One more map ranged over.
abbrev pub ranged : Hub → Hub
ranged h = record h { ranges = h.ranges + 1 }

module _ (e : Env) where
  open e use {client, marshal, order}

  abbrev pub room_of : ℕ → Text
  room_of c = (client c).room_id

  abbrev pub peer_of : ℕ → Peer
  peer_of c = record { id = (client c).user_id; display_name = (client c).display_name }

  abbrev pub welcome : ℕ → List ℕ → Outbound
  welcome c others = record {
    type = type_welcome;
    from = (client c).user_id;
    payload = [];
    peers = map peer_of others;
  }

  abbrev pub peer_joined : ℕ → Outbound
  peer_joined c = record {
    type = type_peer_joined;
    from = (client c).user_id;
    payload = [];
    peers = peer_of c ∷ [];
  }

  abbrev pub peer_left : ℕ → Outbound
  peer_left c = record {
    type = type_peer_left;
    from = (client c).user_id;
    payload = [];
    peers = peer_of c ∷ [];
  }

  unfoldable pub announce : (ℕ → Hub → Outcome (Bool × Hub)) → Text → Text → ℕ → Hub → Outcome Hub
  announce leave room frame except h = do
    (stalled, h') ←
        offer_all (λ c. c == except) frame (order h.ranges (members_of room h)) (ranged h)
    drop_stalled leave stalled h'

  abbrev pub without_client : ℕ → List ℕ → Hub → Hub
  without_client c members h = record h {
    rooms = without_member (room_of c) c members h.rooms;
    count = h.count +ℤ negsuc 0;
  }

  -- `leave` of a client that is among the members of its room, over the `leave` of the recursion.
  unfoldable pub evict : (ℕ → Hub → Outcome (Bool × Hub)) → ℕ → List ℕ → Hub → Outcome (Bool × Hub)
  evict leave c members h = do
    h' ← close_send c h
    let left = without_client c members h'
    elim (marshal (peer_left c)) [
      | none ↦ ok (true, left)
      | some frame ↦ announce leave (room_of c) frame c left >>= λ h''. ok (true, h'')
    ]

  -- The fuel bounds the depth of the evictions that set off further evictions.
  unfoldable pub leave : ℕ → ℕ → Hub → Outcome (Bool × Hub)
  leave zero c h = stuck
  leave (suc fuel) c h = elim (lookup (room_of c) h.rooms) [
    | none ↦ ok (false, h)
    | some members ↦ if contains members c then evict (leave fuel) c members h else ok (false, h)
  ]

  abbrev pub with_client : ℕ → Hub → Hub
  with_client c h = record h {
    rooms = insert (room_of c) (add_member c (members_of (room_of c) h)) h.rooms;
    count = h.count +ℤ pos 1;
    ranges = h.ranges + 1;
  }

  -- The rest of `join`, once the welcome was pushed or could not be.
  unfoldable pub greet : (ℕ → Hub → Outcome (Bool × Hub)) → ℕ → Bool → Hub → Outcome Hub
  greet leave c true h = elim (marshal (peer_joined c)) [
    | none ↦ ok h
    | some joined ↦ announce leave (room_of c) joined c h
  ]
  greet leave c false h = do (_, h') ← leave c h; ok h'

  unfoldable pub join : ℕ → ℕ → Hub → Outcome Hub
  join fuel c h =
      let entered = with_client c h in
      elim (marshal (welcome c (order h.ranges (members_of (room_of c) h)))) [
        | none ↦ ok entered
        | some frame ↦ do (pushed, h') ← push c frame entered; greet (leave fuel) c pushed h'
      ]

  -- Who gets no copy of a message: its sender and, of an addressed one, all but the addressee.
  unfoldable pub skips : Message → ℕ → Bool
  skips m c = c == m.sender || (not (text_eq m.to []) && not (text_eq (client c).user_id m.to))

  unfoldable pub deliver : ℕ → Message → Hub → Outcome Hub
  deliver fuel m h = do
    (stalled, h') ← offer_all (skips m) m.frame (order h.ranges (members_of m.room h)) (ranged h)
    drop_stalled (leave fuel) stalled h'

-- The loops of `closeAll`.
unfoldable pub close_members : List ℕ → Hub → Outcome Hub
close_members [] h = ok h
close_members (c ∷ cs) h = do h' ← close_send c h; close_members cs h'

unfoldable pub close_rooms : Dict (List ℕ) → Hub → Outcome Hub
close_rooms [] h = ok h
close_rooms ((room, members) ∷ rest) h = do h' ← close_members members h; close_rooms rest h'

unfoldable pub close_all : Hub → Outcome Hub
close_all h = do h' ← close_rooms h.rooms h; ok (record h' { rooms = []; count = pos 0 })
