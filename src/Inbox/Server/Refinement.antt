-- ===== src/Inbox/Server/Refinement.antt =====
-- The inbox hub is the mailboxes, whatever the order in which Go ranges over its maps.
use cb_back.Prelude.{
  ℕ, ◌+◌, ◌≡◌, refl, sym, ◌∙◌, ap, Bool, ◌&&◌, List, [], ◌∷◌, Text, arith, contains, lookup,
  Bool-cases, inl, inr, text_eq, text_eq_iff, text_eq_refl, ==_iff,
}
use cb_back.Prelude.Outcome.{ok, Returns, Returns-bind, Returns-ok}
use cb_back.Inbox.Hub.{Env, Hub, connections, remove, deliver, shutdown}
use cb_back.Inbox.Hub.Remove.{IsWellFormed, Removed}
use cb_back.Inbox.Hub.Methods.{add-Added, remove-Removed}
use cb_back.Inbox.Hub.Deliver.{Reached, deliver-Reached}
use cb_back.Inbox.Hub.Shutdown.{Stopped, shutdown-Stopped}
use cb_back.Inbox.Server.{
  Inbox, Call, connects, stops, disconnects, receives, delivers, new_inbox, with_hub, connect, call,
  run_calls,
}
use cb_back.Inbox.Server.Invariant.{
  IsSound, call-IsSound, new_inbox-IsSound, send-add, closed_add, outside_empty,
}
use cb_back.Inbox.Server.Mailboxes.{
  Mailboxes, no_mailboxes, close_where, put_where, deliver_to, answer, answer_all,
}

module _ (e : Env) where
  abbrev pub is_registered : Hub → ℕ → Bool
  is_registered h c = contains (connections (e.user_of c) h) c

  -- The mailboxes that an inbox has.
  abbrev pub mailboxes_of : Inbox → Mailboxes
  mailboxes_of i = record {
    registered = is_registered i.hub;
    mailbox = i.hub.send;
    is_stopped = i.hub.is_closed;
    issued = i.conn_ids;
  }

  -- The same, part by part.
  record Shows (i : Inbox) (m : Mailboxes) : Type 0 where
    pub registered : (c : ℕ) → is_registered i.hub c ≡ m.registered c
    pub mailbox : (c : ℕ) → i.hub.send c ≡ m.mailbox c
    pub is_stopped : i.hub.is_closed ≡ m.is_stopped
    pub issued : i.conn_ids ≡ m.issued

  Shows-mailboxes : (i : Inbox) (m : Mailboxes) → Shows i m → mailboxes_of i ≡ m
  Shows-mailboxes i m s = λ j. record {
    registered = λ c. s.registered c j;
    mailbox = λ c. s.mailbox c j;
    is_stopped = s.is_stopped j;
    issued = s.issued j;
  }

  -- Who is among a user's connections.
  contains_registered :
      (h : Hub) (v : IsWellFormed e h) (user : Text) (c : ℕ)
      → contains (connections user h) c ≡ (is_registered h c && text_eq (e.user_of c) user)
  contains_registered h v user c = elim (Bool-cases (text_eq (e.user_of c) user)) [
    | inl p ↦
        let same : e.user_of c ≡ user = ground (arith, p, text_eq_iff (e.user_of c) user) in
        let there : contains (connections user h) c ≡ is_registered h c =
          ap (λ u. contains (connections u h) c) (sym same) in
        ground (arith, p, there)
    | inr p ↦ elim (Bool-cases (contains (connections user h) c)) [
      | inl m ↦ ground (arith, p, text_eq_iff (e.user_of c) user, v.at_home user c m)
      | inr m ↦ ground (arith, p, m)
    ]
  ]

  connect-Shows :
      (i : Inbox)
      → IsSound e i
      → Returns (λ i'. Shows i' (answer e.user_of connects (mailboxes_of i))) (connect e i)
  unfolding connect answer
  connect-Shows i v =
      let n : ℕ = i.conn_ids + 1 in
      let a = add-Added e n i.hub (v.unknown n (omega arith)) v.well_formed in
      record {
        registered = λ c. ground (
          arith,
          a.members (e.user_of c) c,
          a.accepted,
          ==_iff n c,
          text_eq_refl (e.user_of c),
          ap (λ d. text_eq (e.user_of d) (e.user_of c)),
          Bool-cases i.hub.is_closed,
        );
        mailbox = λ c. send-add e n c i.hub;
        is_stopped = closed_add e n i.hub;
        issued = refl;
      }

  disconnect-Shows :
      (d : ℕ) (i : Inbox)
      → IsSound e i
      → Returns
          (λ i'. Shows i' (answer e.user_of (disconnects d) (mailboxes_of i)))
          (with_hub i (remove e d i.hub))
  unfolding answer close_where
  disconnect-Shows d i v =
      Returns-bind (Removed e d i.hub) _ (remove e d i.hub) _
        (remove-Removed e d i.hub v.well_formed)
        λ h r. record {
          registered = λ c. r.members (e.user_of c) c;
          mailbox = λ c. ground (arith, r.sends c, ==_iff d c, ap (λ k. is_registered i.hub k));
          is_stopped = r.same_closed;
          issued = refl;
        }

  deliver-Shows :
      (user frame : Text) (i : Inbox)
      → IsSound e i
      → Returns
          (λ i'. Shows i' (answer e.user_of (delivers user frame) (mailboxes_of i)))
          (call e (delivers user frame) i)
  unfolding call answer deliver_to close_where put_where
  deliver-Shows user frame i v =
      Returns-bind (λ h. (n : ℕ) × Reached e user frame i.hub (n, h)) _ _ _
        (Returns-bind (Reached e user frame i.hub) _ (deliver e user frame i.hub) (λ r. ok r.1)
          (deliver-Reached e user frame i.hub v.well_formed) (λ r d. (r.0, d)))
        λ h d. record {
          registered = λ c.
              ground (
                arith,
                d.1.members (e.user_of c) c,
                contains_registered i.hub v.well_formed user c,
              );
          mailbox =
              λ c. ground (arith, d.1.sends c, contains_registered i.hub v.well_formed user c);
          is_stopped = d.1.same_closed;
          issued = refl;
        }

  stop-Shows :
      (i : Inbox)
      → IsSound e i
      → Returns
          (λ i'. Shows i' (answer e.user_of stops (mailboxes_of i)))
          (with_hub i (shutdown i.hub))
  unfolding answer close_where
  stop-Shows i v =
      Returns-bind (Stopped e i.hub) _ (shutdown i.hub) _ (shutdown-Stopped e i.hub v.well_formed)
        λ h s. record {
          registered = λ c. ground (arith, outside_empty e h s.empty (e.user_of c) c);
          mailbox = λ c. ground (arith, s.sends c);
          is_stopped = s.is_closed;
          issued = refl;
        }

  call-Shows :
      (c : Call) (i : Inbox)
      → IsSound e i
      → Returns (λ i'. Shows i' (answer e.user_of c (mailboxes_of i))) (call e c i)
  unfolding call answer
  call-Shows connects i v = connect-Shows i v
  call-Shows stops i v = stop-Shows i v
  call-Shows (disconnects c) i v = disconnect-Shows c i v
  call-Shows (receives c) i v = record {
    registered = λ d. refl;
    mailbox = λ d. refl;
    is_stopped = refl;
    issued = refl;
  }
  call-Shows (delivers user frame) i v = deliver-Shows user frame i v

  -- One call on the hub is one on its mailboxes.
  call-answer :
      (c : Call) (i : Inbox)
      → IsSound e i
      → (i' : Inbox) × (call e c i ≡ ok i')
        × IsSound e i'
        × (mailboxes_of i' ≡ answer e.user_of c (mailboxes_of i))
  call-answer c i v =
      let (i', same, w) = Returns-ok (IsSound e) (call e c i) (call-IsSound e c i v) in
      let s = rw same at (call-Shows c i v) in
      (i', same, w, Shows-mailboxes i' (answer e.user_of c (mailboxes_of i)) s)

  run_calls-answer :
      (cs : List Call) (i : Inbox)
      → IsSound e i
      → (i' : Inbox) × (run_calls e cs i ≡ ok i')
        × (mailboxes_of i' ≡ answer_all e.user_of cs (mailboxes_of i))
  unfolding run_calls answer_all
  run_calls-answer [] i v = (i, refl, refl)
  run_calls-answer (c ∷ cs) i v =
      let (i', same, w, shown) = call-answer c i v in
      let (i'', rest, shown') = run_calls-answer cs i' w in
      (i'', (rw same rest), shown' ∙ ap (answer_all e.user_of cs) shown)

  new_mailboxes : mailboxes_of new_inbox ≡ no_mailboxes
  unfolding lookup contains
  new_mailboxes = refl

  -- Whatever calls reach the inbox hub from its start and in whatever order, none panics, and what
  -- the hub then has of each connection, its registration and its channel, is what the mailboxes
  -- have after the same calls, whichever orders Go ranges over its maps in.
  pub run_calls-Refines :
      (cs : List Call)
      → (i : Inbox) × (run_calls e cs new_inbox ≡ ok i)
        × (mailboxes_of i ≡ answer_all e.user_of cs no_mailboxes)
  run_calls-Refines cs =
      let (i, same, shown) = run_calls-answer cs new_inbox (new_inbox-IsSound e) in
      (i, same, shown ∙ ap (answer_all e.user_of cs) new_mailboxes)
