-- ===== src/Inbox/Server/Invariant.antt =====
-- Whatever calls reach the inbox hub, in whatever order, it does not panic.
use cb_back.Prelude.{
  ℕ, ◌+◌, ◌≤◌, ◌<◌, ◌≡◌, refl, sym, ◌∙◌, ==_iff, true, false, List, [], ◌∷◌, Text, arith, length,
  contains, lookup, Bool-cases,
}
use cb_back.Prelude.Int.{pos}
use cb_back.Prelude.Outcome.{Outcome, ok, Returns, Returns-bind, Returns-ok}
use cb_back.Prelude.Channel.{received}
use cb_back.Prelude.Groups.{empty-IsGrouping, total}
use cb_back.Inbox.Hub.{
  Env, Hub, connections, send_buffer_size, set_chan, add, remove, deliver, shutdown,
}
use cb_back.Inbox.Hub.Remove.{IsWellFormed, Removed}
use cb_back.Inbox.Hub.Methods.{IsFresh, add-Added, remove-Removed}
use cb_back.Inbox.Hub.Deliver.{Reached, deliver-Reached}
use cb_back.Inbox.Hub.Shutdown.{Stopped, shutdown-Stopped}
use cb_back.Inbox.Server.{
  Inbox, Call, connects, stops, disconnects, receives, delivers, new_inbox, with_hub, connect, call,
  run_calls,
}

module _ (e : Env) where
  -- Of what holds between two calls: the hub is well formed, connections not yet made are unknown to
  -- it, and once it was shut down nobody is registered.
  pub record IsSound (i : Inbox) : Type 0 where
    pub well_formed : IsWellFormed e i.hub
    pub unknown : (c : ℕ) → i.conn_ids < c → IsFresh c i.hub
    pub stopped :
        i.hub.is_closed ≡ true → (u : Text) (c : ℕ) → contains (connections u i.hub) c ≡ false

  pub outside_empty :
      (h : Hub) → h.users ≡ [] → (u : Text) (c : ℕ) → contains (connections u h) c ≡ false
  unfolding lookup contains
  outside_empty h none_left u c = rw none_left

  empty-IsWellFormed :
      (h : Hub)
      → h.users ≡ []
      → h.count ≡ pos 0
      → ((c : ℕ) → length (h.send c).buffer ≤ send_buffer_size)
      → IsWellFormed e h
  unfolding total
  empty-IsWellFormed h none_left zero_count small = record {
    grouping = rw none_left (empty-IsGrouping e.user_of);
    opened = λ u c m. ground (arith, m, outside_empty h none_left u c);
    counted = rw (none_left, zero_count);
    bounded = small;
  }

  pub new_inbox-IsSound : IsSound new_inbox
  new_inbox-IsSound = record {
    well_formed = empty-IsWellFormed new_inbox.hub refl refl (λ c. omega arith);
    unknown = λ c m. record { outside = λ u. outside_empty new_inbox.hub refl u c; channel = refl };
    stopped = λ d. outside_empty new_inbox.hub refl;
  }

  with_hub-IsSound :
      (Q : Hub → Type 0) (i : Inbox) (m : Outcome Hub)
      → Returns Q m
      → ((h : Hub) → Q h → IsSound (record i { hub = h }))
      → Returns IsSound (with_hub i m)
  with_hub-IsSound Q i m = Returns-bind Q IsSound m (λ h. ok (record i { hub = h }))

  pub send-add : (c d : ℕ) (h : Hub) → (add e c h).0.send d ≡ h.send d
  unfolding add
  send-add c d h = ground (arith, Bool-cases h.is_closed)

  pub closed_add : (c : ℕ) (h : Hub) → (add e c h).0.is_closed ≡ h.is_closed
  unfolding add
  closed_add c h = ground (arith, Bool-cases h.is_closed)

  connect-IsSound : (i : Inbox) → IsSound i → Returns IsSound (connect e i)
  unfolding connect
  connect-IsSound i v =
      let n : ℕ = i.conn_ids + 1 in
      let a = add-Added e n i.hub (v.unknown n (omega arith)) v.well_formed in
      record {
        well_formed = a.well_formed;
        unknown = λ c m.
            let f = v.unknown c (omega arith) in
            record {
              outside = λ u. ground (arith, a.members u c, f.outside u, m);
              channel = ground (arith, send-add n c i.hub, f.channel);
            };
        stopped = λ d u c.
            let was_closed : i.hub.is_closed ≡ true = sym (closed_add n i.hub) ∙ d in
            ground (arith, was_closed, v.stopped was_closed u c, a.members u c, a.accepted);
      }

  disconnect-IsSound :
      (c : ℕ) (i : Inbox) → IsSound i → Returns IsSound (with_hub i (remove e c i.hub))
  disconnect-IsSound c i v =
      with_hub-IsSound (Removed e c i.hub) i _ (remove-Removed e c i.hub v.well_formed) λ h r.
        record {
          well_formed = r.well_formed;
          unknown = λ d m.
              let f = v.unknown d m in
              record {
                outside = λ u. ground (arith, r.members u d, f.outside u);
                channel = ground (arith, r.sends d, f.channel, f.outside (e.user_of c), ==_iff c d);
              };
          stopped = λ k u d. ground (arith, r.members u d, v.stopped (sym r.same_closed ∙ k) u d);
        }

  deliver-IsSound :
      (user frame : Text) (i : Inbox) → IsSound i → Returns IsSound (call e (delivers user frame) i)
  unfolding call
  deliver-IsSound user frame i v =
      with_hub-IsSound (λ h. (n : ℕ) × Reached e user frame i.hub (n, h)) i _
        (Returns-bind (Reached e user frame i.hub) _ (deliver e user frame i.hub) (λ r. ok r.1)
          (deliver-Reached e user frame i.hub v.well_formed) (λ r d. (r.0, d)))
        λ h d. record {
          well_formed = d.1.well_formed;
          unknown = λ c m.
              let f = v.unknown c m in
              record {
                outside = λ u. ground (arith, d.1.members u c, f.outside u);
                channel = ground (arith, d.1.sends c, f.channel, f.outside user);
              };
          stopped =
              λ k u c. ground (arith, d.1.members u c, v.stopped (sym d.1.same_closed ∙ k) u c);
        }

  stop-IsSound : (i : Inbox) → IsSound i → Returns IsSound (with_hub i (shutdown i.hub))
  stop-IsSound i v =
      with_hub-IsSound (Stopped e i.hub) i _ (shutdown-Stopped e i.hub v.well_formed) λ h s.
        record {
          well_formed =
              empty-IsWellFormed h s.empty s.count
                (λ c. ground (arith, s.sends c, v.well_formed.bounded c));
          unknown = λ c m.
              let f = v.unknown c m in
              record {
                outside = λ u. outside_empty h s.empty u c;
                channel = ground (arith, s.sends c, f.outside (e.user_of c), f.channel);
              };
          stopped = λ k. outside_empty h s.empty;
        }

  receive-IsSound :
      (c : ℕ) (i : Inbox)
      → IsSound i
      → IsSound (record i { hub = set_chan c (received (i.hub.send c)) i.hub })
  unfolding received
  receive-IsSound c i v = record {
    well_formed = record {
      grouping = v.well_formed.grouping;
      opened = λ u d m. ground (arith, v.well_formed.opened u d m);
      counted = v.well_formed.counted;
      bounded = λ d. ground (arith, v.well_formed.bounded d);
    };
    unknown = λ d m. record {
      outside = (v.unknown d m).outside;
      channel = ground (arith, (v.unknown d m).channel);
    };
    stopped = v.stopped;
  }

  pub call-IsSound : (c : Call) (i : Inbox) → IsSound i → Returns IsSound (call e c i)
  unfolding call
  call-IsSound connects i v = connect-IsSound i v
  call-IsSound stops i v = stop-IsSound i v
  call-IsSound (disconnects c) i v = disconnect-IsSound c i v
  call-IsSound (receives c) i v = receive-IsSound c i v
  call-IsSound (delivers user frame) i v = deliver-IsSound user frame i v

  calls-IsSound : (cs : List Call) (i : Inbox) → IsSound i → Returns IsSound (run_calls e cs i)
  unfolding run_calls
  calls-IsSound [] i v = v
  calls-IsSound (c ∷ cs) i v =
      Returns-bind IsSound IsSound (call e c i) _ (call-IsSound c i v) (calls-IsSound cs)

  -- From the start, whatever calls reach the inbox hub and in whatever order, also after a shutdown:
  -- none panics, so no channel is sent on once it is closed nor closed twice, and afterwards the hub
  -- is well formed and has nobody registered if it was shut down.
  pub run_calls-IsSound :
      (cs : List Call) → (i : Inbox) × (run_calls e cs new_inbox ≡ ok i) × IsSound i
  run_calls-IsSound cs =
      Returns-ok IsSound (run_calls e cs new_inbox) (calls-IsSound cs new_inbox new_inbox-IsSound)
