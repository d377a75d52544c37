-- ===== src/Signaling/Hub/Join.antt =====
-- `join`: a client that has never been registered enters its room.
use cb_back.Prelude.{
  ℕ, ◌+◌, ◌<◌, ◌≡◌, ◌≢◌, refl, ap, ◌∙◌, true, false, ◌&&◌, ◌||◌, ◌⊎◌, inl, inr, none, some, List,
  [], ◌∷◌, ◌++◌, Text, arith, length, contains, lookup, ◌==◌, text_eq, text_eq_iff, text_eq_refl,
  Bool-cases, Option-cases, AllOf, AllOf-mono, subst,
}
use cb_back.Prelude.Int.{pos-add}
use cb_back.Prelude.Outcome.{ok, Returns, Returns-mono}
use cb_back.Prelude.Channel.{new_chan, enqueue}
use cb_back.Prelude.Groups.Add
use cb_back.Signaling.Hub.{
  Env, Hub, room_of, members_of, set_chan, has_space, push, announce, greet, leave, join,
  with_client, welcome, peer_joined,
}
use cb_back.Signaling.Hub.Offer.{push-ok}
use cb_back.Signaling.Hub.Cascade.{IsWellFormed}
use cb_back.Prelude.Groups.{total}
use cb_back.Signaling.Hub.Drop.{IsNotice, Served}
use cb_back.Signaling.Hub.Leave.{leave-LeavesBelow, announce-Served}

-- A client of which the hub has not heard: nobody's member, and nothing on its channel.
pub record IsFresh (c : ℕ) (h : Hub) : Type 0 where
  pub outside : (r : Text) → contains (members_of r h) c ≡ false
  pub channel : h.send c ≡ new_chan

module _ (e : Env) (c : ℕ) (h : Hub) (fresh : IsFresh c h) (v : IsWellFormed e h) where
  abbrev room : Text
  room = room_of e c

  contains-entered :
      (q : Text) (d : ℕ)
      → contains (members_of q (with_client e c h)) d
        ≡ (contains (members_of q h) d || (text_eq room q && (c == d)))
  contains-entered = Add.contains-entered (room_of e) c h.rooms (fresh.outside room) v.grouping

  lookup-entered :
      (q : Text) → text_eq room q ≡ false → lookup q (with_client e c h).rooms ≡ lookup q h.rooms
  lookup-entered q n =
      Add.lookup-entered (room_of e) c h.rooms (fresh.outside room) v.grouping q ∙ rw n

  pub entered-IsWellFormed : IsWellFormed e (with_client e c h)
  entered-IsWellFormed = record {
    grouping = Add.entered-IsGrouping (room_of e) c h.rooms (fresh.outside room) v.grouping;
    opened = λ q d m. ground (arith, contains-entered q d, v.opened q d, fresh.channel);
    counted =
        rw (v.counted, Add.total-entered (room_of e) c h.rooms (fresh.outside room) v.grouping)
          (pos-add (total h.rooms) 1);
    bounded = v.bounded;
  }

  -- The hub once the welcome is queued.
  abbrev pub greeted : Text → Hub
  greeted frame = set_chan c (enqueue frame ((with_client e c h).send c)) (with_client e c h)

  greeted-IsWellFormed : (frame : Text) → IsWellFormed e (greeted frame)
  greeted-IsWellFormed frame =
      let w : IsWellFormed e (with_client e c h) = entered-IsWellFormed in
      record {
        grouping = w.grouping;
        opened = λ q d m. ground (arith, w.opened q d m, fresh.channel);
        counted = w.counted;
        bounded = λ d. ground (arith, v.bounded d, fresh.channel);
      }

  -- What `join` promises of a fresh client.
  pub record Joined (h' : Hub) : Type 0 where
    pub well_formed : IsWellFormed e h'
    pub welcomed :
        (w : Text)
        → e.marshal (welcome e c (e.order h.ranges (members_of room h))) ≡ some w
        → (rest : List Text) × ((h'.send c).buffer ≡ w ∷ rest) × AllOf (IsNotice e room c) rest
    pub announced :
        (w j : Text)
        → e.marshal (welcome e c (e.order h.ranges (members_of room h))) ≡ some w
        → e.marshal (peer_joined e c) ≡ some j
        → (d : ℕ) → contains (members_of room h) d ≡ true
        → has_space (h.send d) ≡ true
        → (rest : List Text) × ((h'.send d).buffer ≡ (h.send d).buffer ++ j ∷ rest)
          × AllOf (IsNotice e room d) rest
    pub other_rooms : (q : Text) → q ≢ room → lookup q h'.rooms ≡ lookup q h.rooms
    pub entrants :
        (d : ℕ)
        → contains (members_of room h') d ≡ true
        → (contains (members_of room h) d || (c == d)) ≡ true
    pub outsiders : (d : ℕ) → contains (members_of room h) d ≡ false → c ≢ d → h'.send d ≡ h.send d

  not_yet : (d : ℕ) → contains (members_of room h) d ≡ true → c ≢ d
  not_yet d m q = cc (ap (contains (members_of room h)) q, fresh.outside room)

  elsewhere : (q : Text) → q ≢ room → lookup q (with_client e c h).rooms ≡ lookup q h.rooms
  elsewhere q n =
      lookup-entered q (ground (arith, n, text_eq_iff room q, Bool-cases (text_eq room q)))

  -- No welcome could be encoded.
  mute :
      e.marshal (welcome e c (e.order h.ranges (members_of room h))) ≡ none
      → Joined (with_client e c h)
  mute unencoded = record {
    well_formed = entered-IsWellFormed;
    welcomed = λ w q. cc;
    announced = λ w j q. cc;
    other_rooms = λ q n. elsewhere q n;
    entrants = λ d m. ground (arith, contains-entered room d, text_eq_refl room);
    outsiders = λ d n k. refl;
  }

  -- The welcome is queued, and the others could not be told.
  unannounced :
      (w : Text)
      → e.marshal (welcome e c (e.order h.ranges (members_of room h))) ≡ some w
      → e.marshal (peer_joined e c) ≡ none
      → Joined (greeted w)
  unannounced w q unencoded = record {
    well_formed = greeted-IsWellFormed w;
    welcomed = λ w' q'. ([], ground (arith, fresh.channel), tt);
    announced = λ w' j q' k. cc;
    other_rooms = λ q n. elsewhere q n;
    entrants = λ d m. ground (arith, contains-entered room d, text_eq_refl room);
    outsiders = λ d n k. ground arith;
  }

  prefix_of :
      (b b' : List Text) (w : Text) (P Q : Text → Type 0)
      → b ≡ w ∷ []
      → ((t : Text) → P t → Q t)
      → (sent : List Text) × (b' ≡ b ++ sent) × AllOf P sent
      → (rest : List Text) × (b' ≡ w ∷ rest) × AllOf Q rest
  prefix_of b b' w P Q p k (sent, q, all) =
      (sent, q ∙ ap (λ x. x ++ sent) p, AllOf-mono P Q sent k all)

  told :
      (w j : Text)
      → e.marshal (welcome e c (e.order h.ranges (members_of room h))) ≡ some w
      → e.marshal (peer_joined e c) ≡ some j
      → (h' : Hub) → Served e room (λ d. d == c) j (greeted w) h'
      → Joined h'
  told w j q k h' s = record {
    well_formed = s.well_formed;
    welcomed = λ w' q'.
        prefix_of ((greeted w).send c).buffer (h'.send c).buffer w' _ (IsNotice e room c)
          (ground (arith, fresh.channel)) (λ t. not_to_self t) (s.cascade.extends c);
    announced = λ w' j' q' k' d m space.
        subst
          (λ t.
            (rest : List Text) × ((h'.send d).buffer ≡ (h.send d).buffer ++ t ∷ rest)
            × AllOf (IsNotice e room d) rest)
          (cc) (received d m space);
    other_rooms = λ r n. s.cascade.other_rooms r n ∙ elsewhere r n;
    entrants =
        λ d m. ground (arith, contains-entered room d, text_eq_refl room, s.cascade.shrinks d m);
    outsiders = λ d n different.
        s.cascade.outsiders d (ground (arith, contains-entered room d)) ∙ ground arith;
  }
    where
      not_to_self :
          (t : Text) → IsNotice e room c t ⊎ ((t ≡ j) × ((c == c) ≡ false)) → IsNotice e room c t
      not_to_self t (inl n) = n
      not_to_self t (inr (_, x)) = absurd (ground arith)

      received :
          (d : ℕ)
          → contains (members_of room h) d ≡ true
          → has_space (h.send d) ≡ true
          → (rest : List Text) × ((h'.send d).buffer ≡ (h.send d).buffer ++ j ∷ rest)
            × AllOf (IsNotice e room d) rest
      received d m space =
          let different : c ≢ d = not_yet d m in
          let untouched : (greeted w).send d ≡ h.send d = ground arith in
          subst
            (λ ch.
              (rest : List Text) × ((h'.send d).buffer ≡ ch.buffer ++ j ∷ rest)
              × AllOf (IsNotice e room d) rest)
            untouched
            (s.received d (ground (arith, contains-entered room d, text_eq_refl room))
              (ground arith) (ap has_space untouched ∙ space))

  push_welcome : (w : Text) → push c w (with_client e c h) ≡ ok (true, greeted w)
  push_welcome w =
      push-ok c w (with_client e c h) (ap (λ ch. ch.is_closed) fresh.channel)
        (ap has_space fresh.channel)

  length-entered : length (members_of room (with_client e c h)) ≡ length (members_of room h) + 1
  length-entered = Add.length-entered (room_of e) c h.rooms (fresh.outside room) v.grouping

  greet-Joined :
      (fuel : ℕ) (w : Text)
      → length (members_of room h) + 1 < fuel
      → e.marshal (welcome e c (e.order h.ranges (members_of room h))) ≡ some w
      → Returns Joined (greet e (leave e fuel) c true (greeted w))
  unfolding greet
  greet-Joined fuel w small q = elim (Option-cases (e.marshal (peer_joined e c))) [
    | inl unencoded ↦ rw (greet, unencoded) (unannounced w q unencoded)
    | inr (j, k) ↦
        rw (greet, k)
          (Returns-mono (Served e room (λ d. d == c) j (greeted w)) Joined
            (announce e (leave e fuel) room j c (greeted w))
            (announce-Served e fuel (leave e fuel) (leave-LeavesBelow e fuel) room j c (greeted w)
              (greeted-IsWellFormed w) (omega (arith, length-entered)))
            (told w j q k))
  ]

  -- `join` ends, without a panic, at every fuel above the new number of members of the room.
  pub join-Joined :
      (fuel : ℕ) → length (members_of room h) + 1 < fuel → Returns Joined (join e fuel c h)
  unfolding join
  join-Joined fuel small =
      elim (Option-cases (e.marshal (welcome e c (e.order h.ranges (members_of room h))))) [
        | inl unencoded ↦ rw (join, unencoded) (mute unencoded)
        | inr (w, q) ↦ rw (join, q, push_welcome w) (greet-Joined fuel w small q)
      ]
