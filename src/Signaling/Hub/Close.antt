-- ===== src/Signaling/Hub/Close.antt =====
-- `closeAll`: every member's channel is closed, once.
use cb_back.Prelude.{
  ℕ, ◌≡◌, refl, ◌∙◌, Bool, true, false, List, [], ◌∷◌, arith, contains, Distinct, lookup, Dict,
  if◌then◌else◌,
}
use cb_back.Prelude.Int.{pos}
use cb_back.Prelude.Outcome.{Returns, Returns-bind, Returns-mono}
use cb_back.Prelude.Channel.{closed}
use cb_back.Prelude.Groups.Close.{
  is_in, Closable, first-Distinct, first_open, later_Closable, later-Closes,
}
use cb_back.Signaling.Hub.{Env, Hub, room_of, set_chan, close_members, close_rooms, close_all}
use cb_back.Signaling.Hub.Cascade.{IsWellFormed}
use cb_back.Signaling.Hub.Leave.{close_send-ok}

-- The channels of the list are closed, and nothing else is changed.
pub record Closed (gone : ℕ → Bool) (h h' : Hub) : Type 0 where
  pub rooms : h'.rooms ≡ h.rooms
  pub sends : (c : ℕ) → h'.send c ≡ (if gone c then closed (h.send c) else h.send c)

close_members-Closed :
    (members : List ℕ) (h : Hub)
    → Distinct members
    → ((c : ℕ) → contains members c ≡ true → (h.send c).is_closed ≡ false)
    → Returns (Closed (contains members) h) (close_members members h)
unfolding close_members contains
close_members-Closed [] h d opened = record { rooms = refl; sends = λ c. refl }
close_members-Closed (x ∷ xs) h d opened = rw (close_send-ok x h (ground (arith, opened x))) (
    let h' : Hub = set_chan x (closed (h.send x)) h in
    Returns-mono (Closed (contains xs) h') (Closed (contains (x ∷ xs)) h) (close_members xs h')
      (close_members-Closed xs h' d.1 (λ c m. ground (arith, opened c, d.0)))
      λ k s. record { rooms = s.rooms; sends = λ c. ground (arith, s.sends c, d.0) })

module _ (e : Env) where
  -- Is the client a member of its room?
  abbrev pub is_member : Dict (List ℕ) → ℕ → Bool
  is_member = is_in (room_of e)

  close_rooms-Closed :
      (rooms : Dict (List ℕ)) (h : Hub)
      → Closable (room_of e) rooms h.send
      → Returns (Closed (is_member rooms) h) (close_rooms rooms h)
  unfolding close_rooms lookup contains
  close_rooms-Closed [] h w = record { rooms = refl; sends = λ c. refl }
  close_rooms-Closed ((r, members) ∷ rooms) h w =
      Returns-bind (Closed (contains members) h) (Closed (is_member ((r, members) ∷ rooms)) h)
        (close_members members h) _
        (close_members-Closed members h (first-Distinct (room_of e) r members rooms h.send w)
          (first_open (room_of e) r members rooms h.send w))
        λ h' s.
          Returns-mono (Closed (is_member rooms) h') (Closed (is_member ((r, members) ∷ rooms)) h)
            (close_rooms rooms h')
            (close_rooms-Closed rooms h'
              (later_Closable (room_of e) r members rooms h.send w h'.send s.sends))
            (λ h'' t. record {
              rooms = t.rooms ∙ s.rooms;
              sends =
                  later-Closes (room_of e) r members rooms h.send w h'.send h''.send s.sends
                    t.sends;
            })

  -- What `closeAll` promises.
  pub record Stopped (h h' : Hub) : Type 0 where
    pub empty : h'.rooms ≡ []
    pub count : h'.count ≡ pos 0
    pub sends : (c : ℕ) → h'.send c ≡ (if is_member h.rooms c then closed (h.send c) else h.send c)

  pub close_all-Stopped : (h : Hub) → IsWellFormed e h → Returns (Stopped h) (close_all h)
  unfolding close_all
  close_all-Stopped h v =
      Returns-bind (Closed (is_member h.rooms) h) (Stopped h) (close_rooms h.rooms h) _
        (close_rooms-Closed h.rooms h
          (record { keys = v.keys; distinct = v.distinct; at_home = v.at_home; opened = v.opened }))
        λ h' s. record { empty = refl; count = refl; sends = s.sends }
