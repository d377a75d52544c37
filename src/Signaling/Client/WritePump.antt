-- ===== src/Signaling/Client/WritePump.antt =====
-- What the write pump puts on the socket.
use cb_back.Prelude.Channel.{closed, Chan}
use cb_back.Prelude.{
  arith, length, ◌&&◌, ◌<◌, ◌+◌, ℕ, ◌≡◌, refl, ap, Bool, true, false, List, [], ◌∷◌, ◌++◌, Text,
}
use cb_back.Signaling.Client.{
  WriteEvent, frame_taken, channel_closed, ticked, Written, text_frame, ping, close_frame,
  socket_closed, write_pump,
}

-- The frames taken from the channel.
unfoldable pub taken : List WriteEvent → List Text
taken [] = []
taken (frame_taken frame written ∷ events) = frame ∷ taken events
taken (channel_closed ∷ events) = taken events
taken (ticked written ∷ events) = taken events

-- The frames on the socket.
unfoldable pub sent : List Written → List Text
sent [] = []
sent (text_frame frame ∷ actions) = frame ∷ sent actions
sent (_ ∷ actions) = sent actions

-- The frames on the socket are the first of those taken from the channel, in their order.
pub write_pump_order :
    (events : List WriteEvent)
    → (lost : List Text) × (taken events ≡ sent (write_pump events) ++ lost)
unfolding taken sent write_pump
write_pump_order [] = ([], refl)
write_pump_order (frame_taken frame true ∷ events) =
    let (lost, q) = write_pump_order events in (lost, ap (λ x. frame ∷ x) q)
write_pump_order (frame_taken frame false ∷ events) = (frame ∷ taken events, refl)
write_pump_order (channel_closed ∷ events) = (taken events, refl)
write_pump_order (ticked true ∷ events) = write_pump_order events
write_pump_order (ticked false ∷ events) = (taken events, refl)

-- Which case the `select` takes when both could be, and whether the write that follows succeeds.
pub data Turn : Type 0 where
  receives ticks : (written : Bool) → Turn

-- The events of the turns once the hub has closed the channel, with what is queued on it: a receive takes the
-- first frame that is queued, and reports the closing when there is none.
unfoldable pub selected : List Text → List Turn → List WriteEvent
selected queue [] = []
selected queue (ticks written ∷ turns) = ticked written ∷ selected queue turns
selected [] (receives written ∷ turns) = channel_closed ∷ selected [] turns
selected (frame ∷ queue) (receives written ∷ turns) =
    frame_taken frame written ∷ selected queue turns

-- No write fails.
unfoldable pub all_written : List Turn → Bool
all_written [] = true
all_written (receives written ∷ turns) = written && all_written turns
all_written (ticks written ∷ turns) = written && all_written turns

unfoldable pub receive_count : List Turn → ℕ
receive_count [] = 0
receive_count (receives written ∷ turns) = 1 + receive_count turns
receive_count (ticks written ∷ turns) = receive_count turns

drains_lem :
    (queue : List Text) (turns : List Turn)
    → all_written turns ≡ true
    → length queue < receive_count turns
    → (before : List Written) × (write_pump (selected queue turns)
        ≡ before ++ close_frame ∷ socket_closed ∷ [])
      × (sent before ≡ queue)
unfolding sent write_pump all_written receive_count selected
drains_lem queue [] h n = ground (arith, n)
drains_lem queue (ticks true ∷ turns) h n =
    let (before, q, s) = drains_lem queue turns h n in (ping ∷ before, ap (λ x. ping ∷ x) q, s)
drains_lem queue (ticks false ∷ turns) h n = cc
drains_lem queue (receives false ∷ turns) h n = cc
drains_lem [] (receives true ∷ turns) h n = ([], refl, refl)
drains_lem (frame ∷ queue) (receives true ∷ turns) h n =
    let (before, q, s) = drains_lem queue turns h (omega (arith, n)) in
    (text_frame frame ∷ before, ap (λ x. text_frame frame ∷ x) q, ap (λ x. frame ∷ x) s)

-- Once the hub has closed a channel, whatever cases the pump's `select` then takes: if no write fails and it
-- receives more often than there were frames queued, then it has sent all that was queued, in order and
-- nothing else but pings, and ends with a close frame and the closing of the socket.
pub write_pump_drains :
    (ch : Chan) (turns : List Turn)
    → all_written turns ≡ true
    → length ch.buffer < receive_count turns
    → (before : List Written) × (write_pump (selected (closed ch).buffer turns)
        ≡ before ++ close_frame ∷ socket_closed ∷ [])
      × (sent before ≡ ch.buffer)
write_pump_drains ch turns h n = drains_lem ch.buffer turns h n
