-- ===== src/Inbox/Hub/Remove.antt =====
-- `removeLocked`, and what holds of the hub between two steps.
use cb_back.Prelude.{
  ℕ, ◌+◌, ◌≤◌, ◌≡◌, refl, sym, true, false, not, ◌&&◌, inl, inr, some, List, Text, arith, ◌==◌,
  if◌then◌else◌, Bool-cases, Option-cases, length, contains, lookup, subst,
}
use cb_back.Prelude.Int.{pos, pos-decrement}
use cb_back.Prelude.Outcome.{ok, Returns}
use cb_back.Prelude.Channel.{closed}
use cb_back.Prelude.Groups.{IsGrouping, total, group_found}
use cb_back.Prelude.Groups.Remove
use cb_back.Inbox.Hub.{
  Env, Hub, connections, set_chan, send_buffer_size, close_send, without_connection, remove_locked,
}

module _ (e : Env) where
  -- No user without connections, each connection with its own user and open, and a true count.
  pub record IsWellFormed (h : Hub) : Type 0 where
    pub grouping : IsGrouping e.user_of h.users
    pub open grouping use *
    pub opened :
        (u : Text) (c : ℕ) → contains (connections u h) c ≡ true → (h.send c).is_closed ≡ false
    pub counted : h.count ≡ pos (total h.users)
    pub bounded : (c : ℕ) → length (h.send c).buffer ≤ send_buffer_size

  -- One connection is unregistered and its channel closed; nothing else changes.
  pub record Removed (c : ℕ) (h h' : Hub) : Type 0 where
    pub well_formed : IsWellFormed h'
    pub members :
        (u : Text) (d : ℕ)
        → contains (connections u h') d ≡ (contains (connections u h) d && not (c == d))
    pub sends :
        (d : ℕ)
        → h'.send d ≡ (
            if contains (connections (e.user_of c) h) c && c == d
            then closed (h.send d)
            else h.send d)
    pub fewer :
        contains (connections (e.user_of c) h) c ≡ true
        → length (connections (e.user_of c) h') + 1 ≡ length (connections (e.user_of c) h)
    pub same_closed : h'.is_closed ≡ h.is_closed

  -- A connection that is not registered may be removed, as often as one likes.
  pub remove_locked-outside :
      (c : ℕ) (h : Hub)
      → contains (connections (e.user_of c) h) c ≡ false
      → remove_locked e c h ≡ ok h
  unfolding remove_locked
  remove_locked-outside c h out = ground (arith, Option-cases (lookup (e.user_of c) h.users))

  remove_locked-inside :
      (c : ℕ) (members : List ℕ) (h : Hub)
      → lookup (e.user_of c) h.users ≡ some members
      → contains members c ≡ true
      → (h.send c).is_closed ≡ false
      → remove_locked e c h ≡ ok (without_connection e c members (set_chan c (closed (h.send c)) h))
  unfolding remove_locked close_send
  remove_locked-inside c members h here among opened = rw (here, remove_locked, among, opened)

  not_elsewhere :
      (h : Hub) (v : IsWellFormed h) (c : ℕ)
      → contains (connections (e.user_of c) h) c ≡ false
      → (u : Text) → contains (connections u h) c ≡ false
  not_elsewhere h v c out u = elim (Bool-cases (contains (connections u h) c)) [
    | inl m ↦ cc (subst (λ k. contains (connections k h) c ≡ true) (sym (v.at_home u c m)) m, out)
    | inr n ↦ n
  ]

  pub remove_locked-Removed :
      (c : ℕ) (h : Hub) → IsWellFormed h → Returns (Removed c h) (remove_locked e c h)
  remove_locked-Removed c h v = elim (Bool-cases (contains (connections (e.user_of c) h) c)) [
    | inl m ↦
        let (members, here, among) = group_found (e.user_of c) c h.users m in
        rw (remove_locked-inside c members h here among (v.opened (e.user_of c) c m)) (record {
          well_formed = record {
            grouping = Remove.removed-IsGrouping e.user_of c members h.users here among v.grouping;
            opened = λ u d k. ground (
              arith,
              Remove.contains-removed e.user_of c members h.users here among v.grouping u d,
              v.opened u d,
            );
            counted = rw v.counted (
                pos-decrement _ _
                  (Remove.total-removed e.user_of c members h.users here among v.grouping));
            bounded = λ d. ground (arith, v.bounded d, v.bounded c);
          };
          members = Remove.contains-removed e.user_of c members h.users here among v.grouping;
          sends = λ d. ground (arith, m);
          fewer = λ _. Remove.length-removed e.user_of c members h.users here among v.grouping;
          same_closed = refl;
        })
    | inr out ↦ rw (remove_locked-outside c h out) (record {
      well_formed = v;
      members = λ u d. ground (arith, not_elsewhere h v c out u);
      sends = λ d. ground (arith, out);
      fewer = λ m. cc (m, out);
      same_closed = refl;
    })
  ]
