-- ===== src/Signaling/Hub/Promises.antt =====
-- What the hub promises of each request, for the clients of the room and for those of other rooms.
use cb_back.Prelude.{
  ℕ, suc, ◌+◌, ◌<◌, ◌≡◌, ◌≢◌, Bool, true, false, ◌⊎◌, inl, inr, some, List, ◌∷◌, ◌++◌, Text, arith,
  refl, [], length, map, contains, lookup, AllOf, AllOf-mono, Bool-cases, if◌then◌else◌,
}
use cb_back.Prelude.Int.{pos}
use cb_back.Prelude.Channel.{closed}
use cb_back.Prelude.Outcome.{Returns, Returns-mono, ok}
use cb_back.Signaling.Hub.{
  Env, Hub, Message, room_of, members_of, has_space, leave, join, deliver, skips, close_all,
  peer_joined,
}
use cb_back.Signaling.Protocol.{type_welcome}
use cb_back.Signaling.Hub.Cascade.{IsWellFormed}
use cb_back.Signaling.Hub.Drop.{IsNotice, Left, Served}
use cb_back.Signaling.Hub.Leave.{leave-LeavesBelow, leave_outside, deliver-Served}
use cb_back.Signaling.Hub.Join.{IsFresh, Joined, join-Joined}
use cb_back.Signaling.Hub.Close.{Stopped, close_all-Stopped}

module _ (e : Env) (fuel : ℕ) (h : Hub) (v : IsWellFormed e h) where
  module _ (c : ℕ) (small : length (members_of (room_of e c) h) < fuel) where
    left : Returns (Left e (room_of e c) c h) (leave e fuel c h)
    left = leave-LeavesBelow e fuel (room_of e c) c h refl v small

    -- From a well-formed hub, with more fuel than the client's room has members, `leave` ends without a
    -- panic in a well-formed hub: the client is out of its room, and the result tells whether it was in.
    pub leave_removes :
        Returns
          (λ r.
            IsWellFormed e r.1
            × (contains (members_of (room_of e c) r.1) c ≡ false)
            × (r.0 ≡ contains (members_of (room_of e c) h) c))
          (leave e fuel c h)
    leave_removes =
        Returns-mono (Left e (room_of e c) c h) _ (leave e fuel c h) left
          λ r l. (l.well_formed, l.out, l.reported)

    -- Under the same conditions, a second `leave` of the same client finds nothing to do.
    pub leave_twice :
        (fuel' : ℕ) → Returns (λ r. leave e (suc fuel') c r.1 ≡ ok (false, r.1)) (leave e fuel c h)
    leave_twice fuel' =
        Returns-mono (Left e (room_of e c) c h) _ (leave e fuel c h) left
          λ r l. leave_outside e fuel' c r.1 l.out

    -- Under the same conditions, a client that was in the room and is out of it afterwards, be it the
    -- one that leaves or one that was evicted for not keeping up, has its channel closed; and every
    -- client has on its channel what it had, followed by nothing but notices of departures.
    pub leave_closes :
        (d : ℕ)
        → contains (members_of (room_of e c) h) d ≡ true
        → Returns
            (λ r.
              ((contains (members_of (room_of e c) r.1) d ≡ true) ⊎ ((r.1.send d).is_closed ≡ true))
              × ((sent : List Text) × ((r.1.send d).buffer ≡ (h.send d).buffer ++ sent)
                  × AllOf (IsNotice e (room_of e c) d) sent))
            (leave e fuel c h)
    leave_closes d m =
        Returns-mono (Left e (room_of e c) c h) _ (leave e fuel c h) left
          λ r l. (in_or_closed r l, l.cascade.extends d)
      where
        in_or_closed :
            (r : Bool × Hub)
            → Left e (room_of e c) c h r
            → (contains (members_of (room_of e c) r.1) d ≡ true) ⊎ ((r.1.send d).is_closed ≡ true)
        in_or_closed r l = elim (Bool-cases (contains (members_of (room_of e c) r.1) d)) [
          | inl still ↦ inl still
          | inr gone ↦ inr (l.cascade.evicted d m gone)
        ]

  module _ (m : Message) (small : length (members_of m.room h) < fuel) where
    served : Returns (Served e m.room (skips e m) m.frame h) (deliver e fuel m h)
    served = deliver-Served e fuel m h v small

    -- Under the same conditions, a member that the message is meant for and whose buffer is full is
    -- taken out of the room, and its channel is closed.
    pub deliver_drops :
        (c : ℕ)
        → contains (members_of m.room h) c ≡ true
        → skips e m c ≡ false
        → has_space (h.send c) ≡ false
        → Returns
            (λ h'. (contains (members_of m.room h') c ≡ false) × ((h'.send c).is_closed ≡ true))
            (deliver e fuel m h)
    deliver_drops c among meant full =
        Returns-mono (Served e m.room (skips e m) m.frame h) _ (deliver e fuel m h) served λ h' s.
          let out : contains (members_of m.room h') c ≡ false = s.dropped c among meant full in
          (out, s.cascade.evicted c among out)

    -- Under the same conditions, a client that is skipped, as the sender and whoever an addressed
    -- message is not meant for, gets nothing but notices of departures.
    pub deliver_spares :
        (c : ℕ)
        → skips e m c ≡ true
        → Returns
            (λ h'.
              (sent : List Text) × ((h'.send c).buffer ≡ (h.send c).buffer ++ sent)
              × AllOf (IsNotice e m.room c) sent)
            (deliver e fuel m h)
    deliver_spares c skipped =
        Returns-mono (Served e m.room (skips e m) m.frame h) _ (deliver e fuel m h) served λ h' s.
          let (sent, q, all) = s.cascade.extends c in (sent, q, AllOf-mono _ _ sent notice all)
      where
        notice :
            (t : Text)
            → IsNotice e m.room c t ⊎ ((t ≡ m.frame) × (skips e m c ≡ false))
            → IsNotice e m.room c t
        notice t (inl n) = n
        notice t (inr (_, meant)) = cc

    -- Under the same conditions, a message stays in its room: a client of another room keeps its
    -- channel as it is, and another room keeps its members.
    pub deliver_isolated :
        (c : ℕ) (q : Text)
        → room_of e c ≢ m.room
        → q ≢ m.room
        → Returns
            (λ h'. (h'.send c ≡ h.send c) × (lookup q h'.rooms ≡ lookup q h.rooms))
            (deliver e fuel m h)
    deliver_isolated c q elsewhere other =
        Returns-mono (Served e m.room (skips e m) m.frame h) _ (deliver e fuel m h) served
          λ h' s. (s.cascade.outsiders c stranger, s.cascade.other_rooms q other)
      where
        stranger : contains (members_of m.room h) c ≡ false
        stranger = ground (arith, v.at_home m.room c, Bool-cases (contains (members_of m.room h) c))

  module _ (c : ℕ) (fresh : IsFresh c h) (small : length (members_of (room_of e c) h) + 1 < fuel)
      (w : Text)
      (encoded : e.marshal (record {
        type = type_welcome;
        from = (e.client c).user_id;
        payload = [];
        peers =
            map
              (λ d. record { id = (e.client d).user_id; display_name = (e.client d).display_name })
              (e.order h.ranges (members_of (room_of e c) h));
      })
        ≡ some w) where
    joined : Returns (Joined e c h fresh v) (join e fuel c h)
    joined = join-Joined e c h fresh v fuel small

    -- From a well-formed hub, a new client that joins with more fuel than its room then has members
    -- finds the welcome first on its channel, with the kind, its own user as the sender, and the user id and name
    -- of each of those who were there before, and behind
    -- it nothing but notices of departures. The hub stays well formed.
    pub join_welcomes :
        Returns
          (λ h'.
            IsWellFormed e h'
            × ((rest : List Text) × ((h'.send c).buffer ≡ w ∷ rest)
                × AllOf (IsNotice e (room_of e c) c) rest))
          (join e fuel c h)
    join_welcomes =
        Returns-mono (Joined e c h fresh v) _ (join e fuel c h) joined
          λ h' j. (j.well_formed, j.welcomed w encoded)

    -- Under the same conditions, every earlier member of the room whose buffer has space is told, once,
    -- who has joined; what may follow are notices of departures.
    pub join_announces :
        (frame : Text) (d : ℕ)
        → e.marshal (peer_joined e c) ≡ some frame
        → contains (members_of (room_of e c) h) d ≡ true
        → has_space (h.send d) ≡ true
        → Returns
            (λ h'.
              (rest : List Text) × ((h'.send d).buffer ≡ (h.send d).buffer ++ frame ∷ rest)
              × AllOf (IsNotice e (room_of e c) d) rest)
            (join e fuel c h)
    join_announces frame d announced among space =
        Returns-mono (Joined e c h fresh v) _ (join e fuel c h) joined
          λ h' j. j.announced w frame encoded announced d among space

-- From a well-formed hub, `closeAll` ends without a panic: no rooms are left and nobody is counted, the
-- channel of each client is closed if it was a member of its room, and is otherwise as it was.
pub close_all_closes :
    (e : Env) (h : Hub)
    → IsWellFormed e h
    → Returns
        (λ h'.
          (h'.rooms ≡ [])
          × (h'.count ≡ pos 0)
          × ((c : ℕ)
              → h'.send c ≡ (
                  if contains (members_of (room_of e c) h) c then closed (h.send c) else h.send c)))
        (close_all h)
close_all_closes e h v =
    Returns-mono (Stopped e h) _ (close_all h) (close_all-Stopped e h v)
      λ h' s. (s.empty, s.count, s.sends)
