-- ===== src/Signaling/Hub/Evict.antt =====
-- The removal of one client from its room, and the announcement to the others.
use cb_back.Prelude.{
  ℕ, ◌≡◌, true, false, not, ◌&&◌, some, List, [], append-nil, Text, arith, contains, lookup, ◌==◌,
  text_eq_iff, text_eq, Bool-cases, ◌∙◌, length, ◌+◌,
}
use cb_back.Prelude.Int.{pos-decrement}
use cb_back.Prelude.Channel.{closed}
use cb_back.Prelude.Groups.Remove
use cb_back.Signaling.Hub.{Env, Hub, room_of, members_of, set_chan, without_client}
use cb_back.Signaling.Hub.Cascade.{IsWellFormed, Cascade}

module _ (e : Env) (c : ℕ) (members : List ℕ) (h : Hub) where
  -- The hub once the client is out of the map and its channel is closed.
  abbrev pub removed : Hub
  removed = without_client e c members (set_chan c (closed (h.send c)) h)

  module _ (here : lookup (room_of e c) h.rooms ≡ some members) (among : contains members c ≡ true)
      (v : IsWellFormed e h) where
    -- The client is out, and nobody else.
    pub contains-removed :
        (q : Text) (d : ℕ)
        → contains (members_of q removed) d ≡ (contains (members_of q h) d && not (c == d))
    contains-removed = Remove.contains-removed (room_of e) c members h.rooms here among v.grouping

    pub length-removed :
        length (members_of (room_of e c) removed) + 1 ≡ length (members_of (room_of e c) h)
    length-removed = Remove.length-removed (room_of e) c members h.rooms here among v.grouping

    pub removed-IsWellFormed : IsWellFormed e removed
    removed-IsWellFormed = record {
      grouping = Remove.removed-IsGrouping (room_of e) c members h.rooms here among v.grouping;
      opened = λ q d m. ground (arith, contains-removed q d, v.opened q d);
      counted = rw v.counted (
          pos-decrement _ _
            (Remove.total-removed (room_of e) c members h.rooms here among v.grouping));
      bounded = λ d. ground (arith, v.bounded d, v.bounded c);
    }

    among_here : contains (members_of (room_of e c) h) c ≡ true
    among_here = rw here among

    lookup-removed :
        (q : Text) → text_eq (room_of e c) q ≡ false → lookup q removed.rooms ≡ lookup q h.rooms
    lookup-removed q n =
        Remove.lookup-removed (room_of e) c members h.rooms here among v.grouping q ∙ rw n

    pub removed-Cascade : (P : ℕ → Text → Type 0) → Cascade e P (room_of e c) h removed
    removed-Cascade P = record {
      other_rooms = λ q n.
          lookup-removed q
            (ground (arith, n, text_eq_iff (room_of e c) q, Bool-cases (text_eq (room_of e c) q)));
      outsiders = λ d n. ground (arith, among_here);
      shrinks = λ d m. ground (arith, contains-removed (room_of e c) d);
      smaller = omega (arith, length-removed);
      extends = λ d. ([], ground (arith, append-nil (h.send d).buffer), tt);
      evicted = λ d m n. ground (arith, contains-removed (room_of e c) d);
    }
