-- ===== src/Signaling/Hub/Leave.antt =====
-- `leave` and `deliver`: the evictions that an eviction sets off end at every fuel above the number of
-- members of the room.
use cb_back.Prelude.{
  ℕ, zero, suc, ◌<◌, ◌≡◌, Text, refl, ap, ◌∙◌, sym, Bool, true, false, ◌⊎◌, inl, inr, some, List,
  Text, arith, length, contains, lookup, ◌==◌, Bool-cases, Option-cases,
}
use cb_back.Prelude.Outcome.{Outcome, ok, Returns, Returns-bind}
use cb_back.Prelude.Channel.{closed}
use cb_back.Prelude.Groups.{group_found}
use cb_back.Signaling.Hub.{
  Env, Hub, Message, room_of, members_of, close_send, set_chan, announce, evict, leave, deliver,
  skips, peer_left,
}
use cb_back.Signaling.Hub.Cascade.{IsWellFormed, Cascade, Cascade-refl, Cascade-trans, Cascade-mono}
use cb_back.Signaling.Hub.Evict.{
  removed, removed-IsWellFormed, removed-Cascade, contains-removed, length-removed,
}
use cb_back.Signaling.Hub.Drop.{IsNotice, Left, Served, LeavesBelow, serve-Served}

pub close_send-ok :
    (c : ℕ) (h : Hub)
    → (h.send c).is_closed ≡ false
    → close_send c h ≡ ok (set_chan c (closed (h.send c)) h)
unfolding close_send
close_send-ok c h opened = ground (arith, opened)

module _ (e : Env) where
  pub announce-Served :
      (n : ℕ) (f : ℕ → Hub → Outcome (Bool × Hub)) (lv : LeavesBelow e n f) (room frame : Text)
      (except : ℕ) (h : Hub)
      → IsWellFormed e h
      → length (members_of room h) < n
      → Returns (Served e room (λ c. c == except) frame h) (announce e f room frame except h)
  unfolding announce
  announce-Served n f lv room frame except h v small =
      serve-Served e n f lv room (λ c. c == except) frame h v small

  -- The announcement of a departure is a notice.
  notices :
      (c : ℕ) (frame : Text)
      → e.marshal (peer_left e c) ≡ some frame
      → (d : ℕ) (t : Text) → IsNotice e (room_of e c) d t ⊎ ((t ≡ frame) × ((d == c) ≡ false))
      → IsNotice e (room_of e c) d t
  notices c frame encoded d t (inl n) = n
  notices c frame encoded d t (inr (q, k)) = (c, refl, ground arith, encoded ∙ ap some (sym q))

  evict-Left :
      (n : ℕ) (f : ℕ → Hub → Outcome (Bool × Hub)) (lv : LeavesBelow e n f) (c : ℕ)
      (members : List ℕ) (h : Hub)
      → lookup (room_of e c) h.rooms ≡ some members
      → contains members c ≡ true
      → IsWellFormed e h
      → length (members_of (room_of e c) h) < suc n
      → Returns (Left e (room_of e c) c h) (evict e f c members h)
  unfolding evict
  evict-Left n f lv c members h here among v small =
      let left : Hub = removed e c members h in
      let gone : Cascade e (IsNotice e (room_of e c)) (room_of e c) h left =
        removed-Cascade e c members h here among v (IsNotice e (room_of e c)) in
      rw (close_send-ok c h (v.opened (room_of e c) c (rw here among)))
        (elim (Option-cases (e.marshal (peer_left e c))) [
          | inl unencoded ↦ rw unencoded (record {
            well_formed = removed-IsWellFormed e c members h here among v;
            cascade = gone;
            out = ground (arith, contains-removed e c members h here among v (room_of e c) c);
            reported = rw here (sym among);
          })
          | inr (frame, encoded) ↦ rw encoded (
              Returns-bind (Served e (room_of e c) (λ d. d == c) frame left)
                (Left e (room_of e c) c h) (announce e f (room_of e c) frame c left) _
                (announce-Served n f lv (room_of e c) frame c left
                  (removed-IsWellFormed e c members h here among v)
                  (omega (arith, length-removed e c members h here among v)))
                λ h' d. record {
                  well_formed = d.well_formed;
                  cascade =
                      Cascade-trans e (IsNotice e (room_of e c)) (room_of e c) h left h' gone (
                        Cascade-mono e _ (IsNotice e (room_of e c)) (room_of e c) left h'
                          (notices c frame encoded) d.cascade);
                  out = ground (
                    arith,
                    contains-removed e c members h here among v (room_of e c) c,
                    d.cascade.shrinks c,
                    Bool-cases (contains (members_of (room_of e c) h') c),
                  );
                  reported = rw here (sym among);
                })
        ])

  -- A client that is no member leaves nothing behind: `leave` may be called twice.
  pub leave_outside :
      (fuel c : ℕ) (h : Hub)
      → contains (members_of (room_of e c) h) c ≡ false
      → leave e (suc fuel) c h ≡ ok (false, h)
  unfolding leave
  leave_outside fuel c h out = ground (arith, Option-cases (lookup (room_of e c) h.rooms))

  leave_inside :
      (fuel c : ℕ) (members : List ℕ) (h : Hub)
      → lookup (room_of e c) h.rooms ≡ some members
      → contains members c ≡ true
      → leave e (suc fuel) c h ≡ evict e (leave e fuel) c members h
  unfolding leave
  leave_inside fuel c members h here among = rw (here, leave, among)

  -- At every fuel, `leave` keeps its promise in rooms of less members than that.
  pub leave-LeavesBelow : (fuel : ℕ) → LeavesBelow e fuel (leave e fuel)
  leave-LeavesBelow zero room c h home v small = absurd (omega arith)
  leave-LeavesBelow (suc fuel) room c h home v small =
      elim (Bool-cases (contains (members_of room h) c)) [
        | inl m ↦
            let (members, here, among) = group_found (room_of e c) c h.rooms (rw home m) in
            rw (leave_inside fuel c members h here among, ← home)
              (evict-Left fuel (leave e fuel) (leave-LeavesBelow fuel) c members h here among v
                (rw home small))
        | inr out ↦ rw (leave_outside fuel c h (rw home out)) (record {
          well_formed = v;
          cascade = Cascade-refl e (IsNotice e room) room h;
          out = out;
          reported = sym out;
        })
      ]

  -- `deliver` ends, without a panic, at every fuel above the number of members of the room.
  pub deliver-Served :
      (fuel : ℕ) (m : Message) (h : Hub)
      → IsWellFormed e h
      → length (members_of m.room h) < fuel
      → Returns (Served e m.room (skips e m) m.frame h) (deliver e fuel m h)
  unfolding deliver
  deliver-Served fuel m h v small =
      serve-Served e fuel (leave e fuel) (leave-LeavesBelow fuel) m.room (skips e m) m.frame h v
        small
