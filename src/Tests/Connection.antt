-- ===== src/Tests/Connection.antt =====
-- The budget of messages and the pumps of one connection.
use cb_back.Prelude.Channel.{closed, Chan}
use cb_back.Signaling.Client.Keepalive.{in_time_lem, last_tick, in_time}
use cb_back.Prelude.{
  ◌+◌, ◌-◌, ◌*◌, ◌≤◌, ◌≡◌, refl, true, false, some, Option, List, [], ◌∷◌, ◌++◌, Text, codes, arith,
  AllOf, length,
}
use cb_back.Signaling.Protocol.{Inbound, type_chat}
use cb_back.Signaling.Hub.{Env}
use cb_back.Signaling.RateLimit.{
  TokenBucket, billion, new_token_bucket, message_burst, messages_per_second,
}
use cb_back.Signaling.RateLimit.Bounds.{admitted, connection_admits, Paced-admitted}
use cb_back.Signaling.Client.{
  ReadEvent, frame_read, read_pump, WriteEvent, frame_taken, ticked, Written, close_frame,
  socket_closed, write_pump,
}
use cb_back.Signaling.Client.Pumps.{IsStamped, messages, times, read_pump-IsStamped, read_pump_rate}
use cb_back.Signaling.Client.WritePump.{
  receive_count, selected, ticks, receives, Turn, taken, sent, all_written, write_pump_order,
  write_pump_drains,
}

abbrev env : Env
env = record {
  client = λ c. record { user_id = codes "u"; display_name = codes "U"; room_id = codes "r" };
  marshal = λ out. some (out.type ++ out.from);
  order = λ n xs. xs;
  contains-order = λ n xs c. refl;
  order-Distinct = λ n xs d. d;
}

-- Each frame is the payload of a chat message.
abbrev as_chat : Text → Option Inbound
as_chat frame = some (record { type = type_chat; to = []; payload = frame })

connection_admits_example :
    admitted (new_token_bucket message_burst messages_per_second 5) (6 ∷ 7 ∷ []) * billion
    ≤ message_burst * billion + (8 - 5) * messages_per_second
connection_admits_example = connection_admits 5 8 (6 ∷ 7 ∷ []) (omega arith) (omega arith)

abbrev empty_bucket : TokenBucket
empty_bucket = record { tokens = 0; capacity = 120 * billion; rate = 60; last = 0 }

Paced-admitted_example : admitted empty_bucket (20_000_000 ∷ 40_000_000 ∷ []) ≡ 2
Paced-admitted_example =
    Paced-admitted 20_000_000 (20_000_000 ∷ 40_000_000 ∷ []) empty_bucket (omega arith)
      (omega arith) (omega arith)

abbrev chatting : List ReadEvent
chatting = frame_read true (codes "hi") 7 ∷ frame_read false (codes "??") 8 ∷ []

read_pump-IsStamped_example :
    AllOf (IsStamped env as_chat 1) (messages (read_pump env as_chat 1 true 5 chatting))
read_pump-IsStamped_example = read_pump-IsStamped env as_chat 1 true 5 chatting

read_pump_rate_example :
    length (messages (read_pump env as_chat 1 true 5 chatting)) * billion
    ≤ message_burst * billion + (9 - 5) * messages_per_second
unfolding times
read_pump_rate_example = read_pump_rate env as_chat 1 true 5 9 chatting (omega arith) (omega arith)

abbrev written : List WriteEvent
written = frame_taken (codes "a") true ∷ ticked true ∷ frame_taken (codes "b") true ∷ []

write_pump_order_example : (lost : List Text) × (taken written ≡ sent (write_pump written) ++ lost)
write_pump_order_example = write_pump_order written

abbrev queued : Chan
queued = record { buffer = codes "a" ∷ codes "b" ∷ []; is_closed = false }

abbrev turns : List Turn
turns = receives true ∷ ticks true ∷ receives true ∷ receives true ∷ []

write_pump_drains_example :
    (before : List Written) × (write_pump (selected (closed queued).buffer turns)
      ≡ before ++ close_frame ∷ socket_closed ∷ [])
    × (sent before ≡ codes "a" ∷ codes "b" ∷ [])
unfolding all_written receive_count
write_pump_drains_example = write_pump_drains queued turns refl (omega arith)

-- Two pings, a second late at 55 and 109 seconds, answered after one second and after five.
in_time_lem_example : in_time 0 (56_000_000_000 ∷ 114_000_000_000 ∷ []) 168_000_000_000 ≡ true
unfolding last_tick
in_time_lem_example =
    in_time_lem 1_000_000_000 5_000_000_000 0 1_000_000_000 168_000_000_000
      (56_000_000_000 ∷ 114_000_000_000 ∷ []) (omega arith) (omega arith)
      (omega arith, omega arith, (omega arith, omega arith, tt)) (omega arith)
