-- ===== src/Signaling/Server/Invariant.antt =====
-- Whatever is asked of it, in whatever order, the relay neither panics nor hangs.
use cb_back.Prelude.{
  ℕ, ◌+◌, ◌≤◌, ◌<◌, ◌≡◌, ◌≢◌, refl, ◌∙◌, Bool, true, false, inl, inr, List, [], ◌∷◌, Text, arith,
  length, contains, lookup, text_eq, text_eq_iff, Bool-cases, subst,
}
use cb_back.Prelude.Int.{pos}
use cb_back.Prelude.Channel.{received}
use cb_back.Prelude.Outcome.{Outcome, ok, Returns, Returns-bind, Returns-if, Returns-ok}
use cb_back.Signaling.Hub.{
  Env, Hub, Message, room_of, members_of, skips, send_buffer_size, set_chan, join, leave, deliver,
  close_all,
}
use cb_back.Signaling.Hub.Cascade.{IsWellFormed, Cascade}
use cb_back.Prelude.Groups.{empty-IsGrouping, length-le-total, total}
use cb_back.Signaling.Hub.Drop.{IsNotice, Left, Served}
use cb_back.Signaling.Hub.Leave.{leave-LeavesBelow, deliver-Served}
use cb_back.Signaling.Hub.Join.{IsFresh, Joined, join-Joined}
use cb_back.Signaling.Hub.Close.{Stopped, close_all-Stopped}
use cb_back.Signaling.Server.{
  Server, Request, connect, cancel, drop, receive, publish, new_server, enough, set_hub, add,
  drop_client, publish_message, shut_down, serve, run,
}

module _ (e : Env) where
  -- Of what holds between two requests: the hub is well formed, references not yet given out are
  -- unknown to it, and once it has stopped it has no rooms.
  pub record IsSound (s : Server) : Type 0 where
    pub well_formed : IsWellFormed e s.hub
    pub unknown : (c : ℕ) → s.client_ids < c → IsFresh c s.hub
    pub stopped : s.is_done ≡ true → s.hub.rooms ≡ []

  -- A hub with no rooms is well formed.
  empty-IsWellFormed :
      (h : Hub)
      → h.rooms ≡ []
      → h.count ≡ pos 0
      → ((c : ℕ) → length (h.send c).buffer ≤ send_buffer_size)
      → IsWellFormed e h
  unfolding lookup contains total
  empty-IsWellFormed h none_left zero_count small = record {
    grouping = rw none_left (empty-IsGrouping (room_of e));
    opened = λ r c. rw none_left (λ m. cc);
    counted = rw (none_left, zero_count);
    bounded = small;
  }

  outside_empty :
      (h : Hub) (c : ℕ) → h.rooms ≡ [] → (r : Text) → contains (members_of r h) c ≡ false
  unfolding lookup contains
  outside_empty h c none_left r = rw none_left

  new_server-IsSound : IsSound new_server
  new_server-IsSound = record {
    well_formed = empty-IsWellFormed new_server.hub refl refl (λ c. omega arith);
    unknown = λ c m. record { outside = outside_empty new_server.hub c refl; channel = refl };
    stopped = λ d. refl;
  }

  -- Outside of every room, if only the room `r` has changed and the client is not in it.
  outside_after :
      (r : Text) (h h' : Hub) (c : ℕ)
      → ((q : Text) → q ≢ r → lookup q h'.rooms ≡ lookup q h.rooms)
      → ((q : Text) → contains (members_of q h) c ≡ false)
      → contains (members_of r h') c ≡ false
      → (q : Text) → contains (members_of q h') c ≡ false
  outside_after r h h' c other outside here q = elim (Bool-cases (text_eq r q)) [
    | inl p ↦ subst (λ k. contains (members_of k h') c ≡ false) ((text_eq_iff r q).0 p) here
    | inr p ↦ rw (other q (λ k. ground (arith, text_eq_iff r q, p))) (outside q)
  ]

  Cascade-IsFresh :
      (P : ℕ → Text → Type 0) (r : Text) (h h' : Hub) (c : ℕ)
      → Cascade e P r h h'
      → IsFresh c h
      → IsFresh c h'
  Cascade-IsFresh P r h h' c k f = record {
    outside =
        outside_after r h h' c k.other_rooms f.outside
          (ground (arith, k.shrinks c, f.outside r, Bool-cases (contains (members_of r h') c)));
    channel = k.outsiders c (f.outside r) ∙ f.channel;
  }

  Joined-IsFresh :
      (n : ℕ) (h h' : Hub) (fresh : IsFresh n h) (v : IsWellFormed e h) (c : ℕ)
      → n ≢ c
      → Joined e n h fresh v h'
      → IsFresh c h
      → IsFresh c h'
  Joined-IsFresh n h h' fresh v c different j f = record {
    outside = outside_after (room_of e n) h h' c j.other_rooms f.outside (
        ground (
          arith,
          j.entrants c,
          f.outside (room_of e n),
          Bool-cases (contains (members_of (room_of e n) h') c),
        ));
    channel = j.outsiders c (f.outside (room_of e n)) different ∙ f.channel;
  }

  set_hub-IsSound :
      (Q : Hub → Type 0) (s : Server) (m : Outcome Hub)
      → Returns Q m
      → ((h : Hub) → Q h → IsSound (record s { hub = h }))
      → Returns IsSound (set_hub s m)
  set_hub-IsSound Q s m = Returns-bind Q IsSound m (λ h. ok (record s { hub = h }))

  add-IsSound : (s : Server) → IsSound s → Returns IsSound (add e s)
  unfolding add
  add-IsSound s v =
      let n : ℕ = s.client_ids + 1 in
      let fresh : IsFresh n s.hub = v.unknown n (omega arith) in
      let s' : Server = record s { client_ids = n } in
      Returns-if IsSound s.is_done _ _
        (λ p. record {
          well_formed = v.well_formed;
          unknown = λ c m. v.unknown c (omega arith);
          stopped = v.stopped;
        })
        λ p.
          set_hub-IsSound (Joined e n s.hub fresh v.well_formed) s' (join e (enough s.hub) n s.hub)
            (join-Joined e n s.hub fresh v.well_formed (enough s.hub)
              (omega (arith, length-le-total (room_of e n) s.hub.rooms)))
            λ h j. record {
              well_formed = j.well_formed;
              unknown = λ c m.
                  Joined-IsFresh n s.hub h fresh v.well_formed c (omega arith) j
                    (v.unknown c (omega arith));
              stopped = λ d. cc;
            }

  drop_client-IsSound : (c : ℕ) (s : Server) → IsSound s → Returns IsSound (drop_client e c s)
  unfolding drop_client
  drop_client-IsSound c s v =
      let r : Text = room_of e c in
      Returns-if IsSound s.is_done _ _ (λ p. v)
        λ p.
          set_hub-IsSound (λ h. (b : Bool) × Left e r c s.hub (b, h)) s _
            (Returns-bind (Left e r c s.hub) _ (leave e (enough s.hub) c s.hub) (λ x. ok x.1)
              (leave-LeavesBelow e (enough s.hub) r c s.hub refl v.well_formed
                (omega (arith, length-le-total r s.hub.rooms)))
              (λ x l. (x.0, l)))
            λ h l. record {
              well_formed = l.1.well_formed;
              unknown =
                  λ k m. Cascade-IsFresh (IsNotice e r) r s.hub h k l.1.cascade (v.unknown k m);
              stopped = λ d. cc;
            }

  publish_message-IsSound :
      (m : Message) (s : Server) → IsSound s → Returns IsSound (publish_message e m s)
  unfolding publish_message
  publish_message-IsSound m s v =
      Returns-if IsSound s.is_done _ _ (λ p. v)
        λ p.
          set_hub-IsSound (Served e m.room (skips e m) m.frame s.hub) s
            (deliver e (enough s.hub) m s.hub)
            (deliver-Served e (enough s.hub) m s.hub v.well_formed
              (omega (arith, length-le-total m.room s.hub.rooms)))
            λ h d. record {
              well_formed = d.well_formed;
              unknown = λ k q. Cascade-IsFresh _ m.room s.hub h k d.cascade (v.unknown k q);
              stopped = λ d. cc;
            }

  shut_down-IsSound : (s : Server) → IsSound s → Returns IsSound (shut_down s)
  unfolding shut_down
  shut_down-IsSound s v =
      Returns-if IsSound s.is_done _ _ (λ p. v)
        λ p.
          set_hub-IsSound (Stopped e s.hub) (record s { is_done = true }) (close_all s.hub)
            (close_all-Stopped e s.hub v.well_formed)
            λ h d. record {
              well_formed =
                  empty-IsWellFormed h d.empty d.count
                    (λ c. ground (arith, d.sends c, v.well_formed.bounded c));
              unknown = λ c m. record {
                outside = outside_empty h c d.empty;
                channel = ground (
                  arith,
                  d.sends c,
                  (v.unknown c m).outside (room_of e c),
                  (v.unknown c m).channel,
                );
              };
              stopped = λ q. d.empty;
            }

  receive-IsSound :
      (c : ℕ) (s : Server)
      → IsSound s
      → IsSound (record s { hub = set_chan c (received (s.hub.send c)) s.hub })
  unfolding received
  receive-IsSound c s v = record {
    well_formed = record {
      grouping = v.well_formed.grouping;
      opened = λ r d m. ground (arith, v.well_formed.opened r d m);
      counted = v.well_formed.counted;
      bounded = λ d. ground (arith, v.well_formed.bounded d);
    };
    unknown = λ d m. record {
      outside = (v.unknown d m).outside;
      channel = ground (arith, (v.unknown d m).channel);
    };
    stopped = v.stopped;
  }

  serve-IsSound : (request : Request) (s : Server) → IsSound s → Returns IsSound (serve e request s)
  unfolding serve
  serve-IsSound connect s v = add-IsSound s v
  serve-IsSound cancel s v = shut_down-IsSound s v
  serve-IsSound (drop c) s v = drop_client-IsSound c s v
  serve-IsSound (receive c) s v = receive-IsSound c s v
  serve-IsSound (publish m) s v = publish_message-IsSound m s v

  run_from-IsSound :
      (requests : List Request) (s : Server) → IsSound s → Returns IsSound (run e requests s)
  unfolding run
  run_from-IsSound [] s v = v
  run_from-IsSound (request ∷ requests) s v =
      Returns-bind IsSound IsSound (serve e request s) _ (serve-IsSound request s v)
        (run_from-IsSound requests)

  -- From the start, whatever requests come and in whatever order: the relay answers each of them, never
  -- sends on a closed channel nor closes one twice, and is sound afterwards.
  pub run-IsSound :
      (requests : List Request) → (s : Server) × (run e requests new_server ≡ ok s) × IsSound s
  run-IsSound requests =
      Returns-ok IsSound (run e requests new_server)
        (run_from-IsSound requests new_server new_server-IsSound)
