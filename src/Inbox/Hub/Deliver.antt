-- ===== src/Inbox/Hub/Deliver.antt =====
-- `Deliver`: a frame to every connection of a user.
use cb_back.Prelude.{
  ℕ, ◌+◌, ◌≡◌, refl, ◌∙◌, true, false, not, ◌&&◌, inl, inr, List, [], ◌∷◌, Text, arith, ◌==◌,
  if◌then◌else◌, Bool-cases, length, length-append, contains, Distinct, subst,
}
use cb_back.Prelude.Outcome.{ok, Returns, Returns-bind, Returns-mono}
use cb_back.Prelude.Channel.{enqueue, closed}
use cb_back.Inbox.Hub.{
  Env, Hub, connections, set_chan, has_space, push, remove_locked, deliver_all, deliver,
}
use cb_back.Inbox.Hub.Remove.{IsWellFormed, Removed, remove_locked-Removed}

push-ok :
    (c : ℕ) (frame : Text) (h : Hub)
    → (h.send c).is_closed ≡ false
    → has_space (h.send c) ≡ true
    → push c frame h ≡ ok (true, set_chan c (enqueue frame (h.send c)) h)
unfolding push
push-ok c frame h opened space = ground (arith, opened, space)

push_full :
    (c : ℕ) (frame : Text) (h : Hub)
    → (h.send c).is_closed ≡ false
    → has_space (h.send c) ≡ false
    → push c frame h ≡ ok (false, h)
unfolding push
push_full c frame h opened full = rw (opened, full)

module _ (e : Env) where
  enqueued-IsWellFormed :
      (c : ℕ) (frame : Text) (h : Hub)
      → has_space (h.send c) ≡ true
      → IsWellFormed e h
      → IsWellFormed e (set_chan c (enqueue frame (h.send c)) h)
  enqueued-IsWellFormed c frame h space v = record {
    grouping = v.grouping;
    opened = λ u d m. ground (arith, v.opened u d m);
    counted = v.counted;
    bounded = λ d. ground (arith, v.bounded d, length-append (h.send c).buffer (frame ∷ []), space);
  }

  module _ (user frame : Text) where
    -- Each connection of the list has the frame, or had no space for it and is unregistered and
    -- closed; every other is as it was.
    pub record Delivered (cs : List ℕ) (h : Hub) (r : ℕ × Hub) : Type 0 where
      pub well_formed : IsWellFormed e r.1
      pub sends :
          (c : ℕ)
          → r.1.send c ≡ (
              if contains cs c
              then (if has_space (h.send c) then enqueue frame (h.send c) else closed (h.send c))
              else h.send c)
      pub members :
          (u : Text) (c : ℕ)
          → contains (connections u r.1) c
            ≡ (contains (connections u h) c && not (contains cs c && not (has_space (h.send c))))
      pub accepted : length (connections user r.1) + length cs ≡ length (connections user h) + r.0
      pub same_closed : r.1.is_closed ≡ h.is_closed

    deliver_all-sent :
        (x : ℕ) (xs : List ℕ) (h : Hub)
        → contains xs x ≡ false
        → has_space (h.send x) ≡ true
        → (r : ℕ × Hub) → Delivered xs (set_chan x (enqueue frame (h.send x)) h) r
        → Delivered (x ∷ xs) h (r.0 + 1, r.1)
    unfolding contains
    deliver_all-sent x xs h fresh space r d = record {
      well_formed = d.well_formed;
      sends = λ c. ground (arith, d.sends c);
      members = λ u c. ground (arith, d.members u c);
      accepted = omega (arith, d.accepted);
      same_closed = d.same_closed;
    }

    deliver_all-dropped :
        (x : ℕ) (xs : List ℕ) (h h' : Hub)
        → contains xs x ≡ false
        → has_space (h.send x) ≡ false
        → contains (connections user h) x ≡ true
        → e.user_of x ≡ user
        → Removed e x h h'
        → (r : ℕ × Hub) → Delivered xs h' r
        → Delivered (x ∷ xs) h (r.0, r.1)
    unfolding contains
    deliver_all-dropped x xs h h' fresh full m home k r d = record {
      well_formed = d.well_formed;
      sends = λ c. ground (arith, d.sends c, sends' c);
      members = λ u c. ground (arith, d.members u c, k.members u c, sends' c);
      accepted = omega (arith, d.accepted, fewer');
      same_closed = d.same_closed ∙ k.same_closed;
    }
      where
        sends' : (c : ℕ) → h'.send c ≡ (if x == c then closed (h.send c) else h.send c)
        sends' c = k.sends c ∙ rw (home, m)

        fewer' : length (connections user h') + 1 ≡ length (connections user h)
        fewer' =
            subst (λ u. length (connections u h') + 1 ≡ length (connections u h)) home
              (k.fewer (rw home m))

    deliver_all-Delivered :
        (cs : List ℕ) (h : Hub)
        → IsWellFormed e h
        → Distinct cs
        → ((c : ℕ) → contains cs c ≡ true → contains (connections user h) c ≡ true)
        → Returns (Delivered cs h) (deliver_all e frame cs h)
    unfolding deliver_all contains
    deliver_all-Delivered [] h v d all = record {
      well_formed = v;
      sends = λ c. refl;
      members = λ u c. ground arith;
      accepted = omega arith;
      same_closed = refl;
    }
    deliver_all-Delivered (x ∷ xs) h v d all =
        let m : contains (connections user h) x ≡ true = all x (ground arith) in
        elim (Bool-cases (has_space (h.send x))) [
          | inl space ↦
              let h' : Hub = set_chan x (enqueue frame (h.send x)) h in
              rw (push-ok x frame h (v.opened user x m) space) (
                Returns-bind (Delivered xs h') (Delivered (x ∷ xs) h) (deliver_all e frame xs h') _
                  (deliver_all-Delivered xs h' (enqueued-IsWellFormed x frame h space v) d.1
                    (λ c k. all c (ground arith)))
                  (deliver_all-sent x xs h d.0 space))
          | inr full ↦ rw (push_full x frame h (v.opened user x m) full) (
              Returns-bind (Removed e x h) (Delivered (x ∷ xs) h) (remove_locked e x h) _
                (remove_locked-Removed e x h v)
                λ h' k.
                  Returns-bind (Delivered xs h') (Delivered (x ∷ xs) h) (deliver_all e frame xs h')
                    _
                    (deliver_all-Delivered xs h' k.well_formed d.1
                      (λ c q. ground (arith, k.members user c, all c, d.0)))
                    (deliver_all-dropped x xs h h' d.0 full m (v.at_home user x m) k))
        ]

    -- What `Deliver` promises, whatever the order in which it ranges over the connections.
    pub record Reached (h : Hub) (r : ℕ × Hub) : Type 0 where
      pub well_formed : IsWellFormed e r.1
      pub sends :
          (c : ℕ)
          → r.1.send c ≡ (
              if contains (connections user h) c
              then (if has_space (h.send c) then enqueue frame (h.send c) else closed (h.send c))
              else h.send c)
      pub members :
          (u : Text) (c : ℕ)
          → contains (connections u r.1) c ≡ (
              contains (connections u h) c
              && not (contains (connections user h) c && not (has_space (h.send c))))
      pub reported : r.0 ≡ length (connections user r.1)
      pub same_closed : r.1.is_closed ≡ h.is_closed

    -- `Deliver` does not panic. Each connection of the user has taken the frame once, or was full and
    -- is unregistered and closed; nobody else is affected; and the result is the number of connections
    -- that took it, which are those that the user still has.
    pub deliver-Reached :
        (h : Hub) → IsWellFormed e h → Returns (Reached h) (deliver e user frame h)
    unfolding deliver
    deliver-Reached h v =
        let xs : List ℕ = e.order h.ranges (connections user h) in
        let h' : Hub = record h { ranges = h.ranges + 1 } in
        let same : (c : ℕ) → contains xs c ≡ contains (connections user h) c =
          e.contains-order h.ranges (connections user h) in
        Returns-mono (Delivered xs h') (Reached h) (deliver_all e frame xs h')
          (deliver_all-Delivered xs h'
            (record {
              grouping = v.grouping;
              opened = v.opened;
              counted = v.counted;
              bounded = v.bounded;
            })
            (e.order-Distinct h.ranges (connections user h) (v.distinct user))
            (λ c m. ground (arith, same c)))
          λ r d. record {
            well_formed = d.well_formed;
            sends = λ c. ground (arith, d.sends c, same c);
            members = λ u c. ground (arith, d.members u c, same c);
            reported = omega (arith, d.accepted, e.length-order h.ranges (connections user h));
            same_closed = d.same_closed;
          }
