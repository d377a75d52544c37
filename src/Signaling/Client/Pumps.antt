-- ===== src/Signaling/Client/Pumps.antt =====
-- What a connection can make the relay do.
use cb_back.Prelude.{
  ℕ, ◌+◌, ◌-◌, ◌*◌, ◌≤◌, ◌≡◌, inl, inr, refl, Bool, true, false, Option, none, some, List, [], ◌∷◌,
  ◌++◌, Text, arith, AllOf, Bool-cases, Option-cases, length, ap, codes,
}
use cb_back.Signaling.Protocol.{Inbound, is_relayed, parse_inbound}
use cb_back.Signaling.RateLimit.{
  TokenBucket, billion, new_token_bucket, allow, message_burst, messages_per_second,
}
use cb_back.Signaling.RateLimit.Bounds.{admitted, connection_admits}
use cb_back.Signaling.Hub.{Env, Message, room_of}
use cb_back.Signaling.Client.{
  policy_violation, unsupported_data, Action, publishes, writes_close, drops, ReadEvent,
  read_failed, frame_read, read_deferred, stamped, relay, published, read_loop, read_pump,
}

-- The messages among the actions.
unfoldable pub messages : List Action → List Message
messages [] = []
messages (publishes m ∷ actions) = m ∷ messages actions
messages (_ ∷ actions) = messages actions

-- How often the client is taken out of the hub.
unfoldable pub drop_count : List Action → ℕ
drop_count [] = 0
drop_count (drops ∷ actions) = 1 + drop_count actions
drop_count (_ ∷ actions) = drop_count actions

-- The times at which frames were read.
unfoldable pub times : List ReadEvent → List ℕ
times [] = []
times (read_failed ∷ events) = times events
times (frame_read is_text frame now ∷ events) = now ∷ times events

module _ (e : Env) (unmarshal : Text → Option Inbound) (c : ℕ) where
  -- The message is of a kind that clients may send, and names its true sender and room.
  abbrev pub IsStamped : Message → Type 0
  IsStamped m =
      (inbound : Inbound) × (is_relayed inbound.type ≡ true)
      × (e.marshal (record {
        type = inbound.type;
        from = (e.client c).user_id;
        payload = inbound.payload;
        peers = [];
      })
          ≡ some m.frame)
      × (m.to ≡ inbound.to)
      × (m.room ≡ room_of e c)
      × (m.sender ≡ c)

  parsed_relayed :
      (frame : Text) (inbound : Inbound)
      → parse_inbound unmarshal frame ≡ some inbound
      → is_relayed inbound.type ≡ true
  unfolding parse_inbound
  parsed_relayed frame inbound h = elim (Option-cases (unmarshal frame)) [
    | inl p ↦ cc (rw (p, parse_inbound) at h)
    | inr (x, p) ↦ ground (arith, p, h)
  ]

  pub relay-IsStamped :
      (frame : Text) (m : Message) → relay e unmarshal c frame ≡ some m → IsStamped m
  unfolding relay
  relay-IsStamped frame m h = elim (Option-cases (parse_inbound unmarshal frame)) [
    | inl p ↦ cc (rw (p, relay) at h)
    | inr (inbound, p) ↦ elim (Option-cases (e.marshal (stamped e unmarshal c inbound))) [
      | inl q ↦ cc (rw (relay, p, q) at h)
      | inr (out, q) ↦
          let h' : some (record { room = room_of e c; sender = c; to = inbound.to; frame = out })
              ≡ some m =
            rw (relay, p, q) at h in
          (
            inbound,
            parsed_relayed frame inbound p,
            ground (arith, q, h'),
            ground (arith, h'),
            ground (arith, h'),
            ground (arith, h'),
          )
    ]
  ]

  published-messages :
      (frame : Text) (actions : List Action)
      → AllOf IsStamped (messages actions)
      → AllOf IsStamped (messages (published e unmarshal c (relay e unmarshal c frame) actions))
  unfolding messages
  published-messages frame actions all = elim (Option-cases (relay e unmarshal c frame)) [
    | inl p ↦ rw p all
    | inr (m, p) ↦ rw p (relay-IsStamped frame m p, all)
  ]

  read_loop-IsStamped :
      (budget : TokenBucket) (events : List ReadEvent)
      → AllOf IsStamped (messages (read_loop e unmarshal c budget events))
  unfolding read_loop messages
  read_loop-IsStamped budget [] = tt
  read_loop-IsStamped budget (read_failed ∷ events) = tt
  read_loop-IsStamped budget (frame_read is_text frame now ∷ events) =
      let rest = read_loop-IsStamped (allow budget now).0 events in
      elim (Bool-cases is_text) [
        | inl t ↦ elim (Bool-cases (allow budget now).1) [
          | inl a ↦ rw (t, a) (published-messages frame _ rest)
          | inr a ↦ rw (t, a) tt
        ]
        | inr t ↦ rw t tt
      ]

  -- Whatever arrives on the socket, each message that the read pump publishes is of a relayed kind, goes
  -- to the connection's own room and to the addressee of the frame, and is the encoding of the frame's kind
  -- and payload with the authenticated user of the connection as the sender.
  pub read_pump-IsStamped :
      (deadline_set : Bool) (now : ℕ) (events : List ReadEvent)
      → AllOf IsStamped (messages (read_pump e unmarshal c deadline_set now events))
  unfolding read_pump messages
  read_pump-IsStamped true now events = read_loop-IsStamped _ events
  read_pump-IsStamped false now events = tt

  length-published :
      (frame : Text) (actions : List Action)
      → length (messages (published e unmarshal c (relay e unmarshal c frame) actions))
        ≤ 1 + length (messages actions)
  unfolding messages
  length-published frame actions = elim (Option-cases (relay e unmarshal c frame)) [
    | inl p ↦ rw p (omega arith)
    | inr (m, p) ↦ rw p (omega arith)
  ]

  length-read_loop :
      (budget : TokenBucket) (events : List ReadEvent)
      → length (messages (read_loop e unmarshal c budget events)) ≤ admitted budget (times events)
  unfolding read_loop messages admitted times
  length-read_loop budget [] = omega arith
  length-read_loop budget (read_failed ∷ events) = omega arith
  length-read_loop budget (frame_read is_text frame now ∷ events) =
      let rest = length-read_loop (allow budget now).0 events in
      elim (Bool-cases is_text) [
        | inl t ↦ elim (Bool-cases (allow budget now).1) [
          | inl a ↦
              rw (t, a)
                (omega (
                  arith,
                  rest,
                  length-published frame (read_loop e unmarshal c (allow budget now).0 events),
                ))
          | inr a ↦ rw (t, a) (omega arith)
        ]
        | inr t ↦ rw t (omega arith)
      ]

  -- By any time, a connection has published at most the burst of messages and the rate times its age.
  pub read_pump_rate :
      (deadline_set : Bool) (start end : ℕ) (events : List ReadEvent)
      → start ≤ end
      → AllOf (λ now. now ≤ end) (times events)
      → length (messages (read_pump e unmarshal c deadline_set start events)) * billion
        ≤ message_burst * billion + (end - start) * messages_per_second
  unfolding read_pump messages
  read_pump_rate true start end events h all = omega (
    arith,
    connection_admits start end (times events) h all,
    length-read_loop (new_token_bucket message_burst messages_per_second start) events,
  )
  read_pump_rate false start end events h all = omega arith

-- The pump has ended: the client was dropped from the hub and its socket closed, once, at the very end.
abbrev pub EndsOnce : List Action → Type 0
EndsOnce actions =
    (before : List Action) × (actions ≡ before ++ read_deferred) × (drop_count before ≡ 0)

published-EndsOnce :
    (e : Env) (unmarshal : Text → Option Inbound) (c : ℕ) (o : Option Message)
    (actions : List Action)
    → EndsOnce actions
    → EndsOnce (published e unmarshal c o actions)
unfolding drop_count
published-EndsOnce e unmarshal c none actions h = h
published-EndsOnce e unmarshal c (some m) actions (before, q, z) =
    (publishes m ∷ before, ap (λ x. publishes m ∷ x) q, z)

read_loop-EndsOnce :
    (e : Env) (unmarshal : Text → Option Inbound) (c : ℕ) (budget : TokenBucket)
    (events : List ReadEvent)
    → EndsOnce (read_loop e unmarshal c budget (events ++ read_failed ∷ []))
unfolding read_loop drop_count
read_loop-EndsOnce e unmarshal c budget [] = ([], refl, refl)
read_loop-EndsOnce e unmarshal c budget (read_failed ∷ events) = ([], refl, refl)
read_loop-EndsOnce e unmarshal c budget (frame_read is_text frame now ∷ events) =
    let rest = read_loop-EndsOnce e unmarshal c (allow budget now).0 events in
    elim (Bool-cases is_text) [
      | inl t ↦ elim (Bool-cases (allow budget now).1) [
        | inl a ↦ rw (t, a) (published-EndsOnce e unmarshal c (relay e unmarshal c frame) _ rest)
        | inr a ↦
            rw (t, a)
              (writes_close policy_violation (codes "message rate exceeded") ∷ [], refl, refl)
      ]
      | inr t ↦ rw t (writes_close unsupported_data (codes "text frames only") ∷ [], refl, refl)
    ]

-- Once a read has failed, whatever was read before, the pump has dropped its client from the hub
-- exactly once, and closed the socket after that.
pub read_pump-EndsOnce :
    (e : Env) (unmarshal : Text → Option Inbound) (c : ℕ) (deadline_set : Bool) (now : ℕ)
    (events : List ReadEvent)
    → EndsOnce (read_pump e unmarshal c deadline_set now (events ++ read_failed ∷ []))
unfolding read_pump drop_count
read_pump-EndsOnce e unmarshal c true now events = read_loop-EndsOnce e unmarshal c _ events
read_pump-EndsOnce e unmarshal c false now events = ([], refl, refl)
