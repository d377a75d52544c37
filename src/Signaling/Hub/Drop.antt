-- ===== src/Signaling/Hub/Drop.antt =====
-- `dropStalled`, and the offer of a frame that it follows, over a `leave` that keeps its promise. All of it
-- ends, without a panic, in a well-formed hub.
use cb_back.Prelude.{
  ℕ, ◌<◌, ◌≡◌, ◌≢◌, refl, ap, ◌∙◌, Bool, true, false, ◌⊎◌, inl, inr, some, List, [], ◌∷◌, ◌++◌,
  append_assoc, Text, arith, length, contains, AllOf, Bool-cases,
}
use cb_back.Prelude.Outcome.{Outcome, ◌>>=◌, Returns, Returns-bind, Returns-mono}
use cb_back.Signaling.Hub.{
  Env, Hub, room_of, members_of, has_space, ranged, offer_all, drop_stalled, peer_left,
}
use cb_back.Signaling.Hub.Offer.{Offered, offer_all-Offered}
use cb_back.Signaling.Hub.Cascade.{IsWellFormed, Cascade, Cascade-refl, Cascade-trans, Cascade-mono}
use cb_back.Signaling.Hub.Serve.{offered-IsWellFormed, offered-Cascade}

module _ (e : Env) where
  -- The frame tells that some client of the room has left.
  abbrev pub IsNotice : Text → ℕ → Text → Type 0
  IsNotice r c frame =
      (d : ℕ) × (room_of e d ≡ r) × (c ≢ d) × (e.marshal (peer_left e d) ≡ some frame)

  -- What `leave` promises of a client of the room.
  pub record Left (room : Text) (c : ℕ) (h : Hub) (r : Bool × Hub) : Type 0 where
    pub well_formed : IsWellFormed e r.1
    pub cascade : Cascade e (IsNotice room) room h r.1
    pub out : contains (members_of room r.1) c ≡ false
    pub reported : r.0 ≡ contains (members_of room h) c

  -- What `dropStalled` promises of clients of one room.
  pub record Dropped (room : Text) (cs : List ℕ) (h h' : Hub) : Type 0 where
    pub well_formed : IsWellFormed e h'
    pub cascade : Cascade e (IsNotice room) room h h'
    pub out : (c : ℕ) → contains cs c ≡ true → contains (members_of room h') c ≡ false

  -- What the two loops of `announce` and `deliver` promise.
  pub record Served (room : Text) (skip : ℕ → Bool) (frame : Text) (h h' : Hub) : Type 0 where
    pub well_formed : IsWellFormed e h'
    pub cascade : Cascade e (λ c f. IsNotice room c f ⊎ ((f ≡ frame) × (skip c ≡ false))) room h h'
    pub received :
        (c : ℕ)
        → contains (members_of room h) c ≡ true
        → skip c ≡ false
        → has_space (h.send c) ≡ true
        → (rest : List Text) × ((h'.send c).buffer ≡ (h.send c).buffer ++ frame ∷ rest)
          × AllOf (IsNotice room c) rest
    pub dropped :
        (c : ℕ)
        → contains (members_of room h) c ≡ true
        → skip c ≡ false
        → has_space (h.send c) ≡ false
        → contains (members_of room h') c ≡ false

  -- A `leave` that keeps its promise in rooms of less than `n` members.
  abbrev pub LeavesBelow : ℕ → (ℕ → Hub → Outcome (Bool × Hub)) → Type 0
  LeavesBelow n f =
      (room : Text) (c : ℕ) (h : Hub)
      → room_of e c ≡ room
      → IsWellFormed e h
      → length (members_of room h) < n
      → Returns (Left room c h) (f c h)

  module _ (n : ℕ) (f : ℕ → Hub → Outcome (Bool × Hub)) (lv : LeavesBelow n f) (room : Text) where
    pub drop_stalled-Dropped :
        (cs : List ℕ) (h : Hub)
        → IsWellFormed e h
        → length (members_of room h) < n
        → ((c : ℕ) → contains cs c ≡ true → room_of e c ≡ room)
        → Returns (Dropped room cs h) (drop_stalled f cs h)
    unfolding drop_stalled contains
    drop_stalled-Dropped [] h v small home = record {
      well_formed = v;
      cascade = Cascade-refl e (IsNotice room) room h;
      out = λ c m. cc;
    }
    drop_stalled-Dropped (c ∷ cs) h v small home =
        Returns-bind (Left room c h) (Dropped room (c ∷ cs) h) (f c h) _
          (lv room c h (ground (arith, home c)) v small)
          λ r l.
            Returns-mono (Dropped room cs r.1) (Dropped room (c ∷ cs) h) (drop_stalled f cs r.1)
              (drop_stalled-Dropped cs r.1 l.well_formed (omega (arith, l.cascade.smaller))
                (λ d m. ground (arith, home d)))
              λ h' d. record {
                well_formed = d.well_formed;
                cascade = Cascade-trans e (IsNotice room) room h r.1 h' l.cascade d.cascade;
                out = λ k m. ground (
                  arith,
                  d.out k,
                  l.out,
                  d.cascade.shrinks k,
                  Bool-cases (contains (members_of room h') k),
                );
              }

    module _ (skip : ℕ → Bool) (frame : Text) (h : Hub) (v : IsWellFormed e h) where
      abbrev Allowed : ℕ → Text → Type 0
      Allowed c t = IsNotice room c t ⊎ ((t ≡ frame) × (skip c ≡ false))

      abbrev xs : List ℕ
      xs = e.order h.ranges (members_of room h)

      same_members : (c : ℕ) → contains xs c ≡ contains (members_of room h) c
      same_members c = e.contains-order h.ranges (members_of room h) c

      received_first :
          (s : List ℕ × Hub)
          → Offered skip frame xs (ranged h) s
          → (h' : Hub) → Dropped room s.0 s.1 h'
          → (c : ℕ) → contains (members_of room h) c ≡ true
          → skip c ≡ false
          → has_space (h.send c) ≡ true
          → (rest : List Text) × ((h'.send c).buffer ≡ (h.send c).buffer ++ frame ∷ rest)
            × AllOf (IsNotice room c) rest
      received_first s o h' d c m k space =
          let (rest, q, all) = d.cascade.extends c in
          (
            rest,
            q
                ∙ ap (λ b. b ++ rest) (ground (arith, o.sent c, same_members c))
                ∙ append_assoc (h.send c).buffer (frame ∷ []) rest,
            all,
          )

      pub served :
          (s : List ℕ × Hub)
          → Offered skip frame xs (ranged h) s
          → (h' : Hub) → Dropped room s.0 s.1 h'
          → Served room skip frame h h'
      served s o h' d = record {
        well_formed = d.well_formed;
        cascade =
            Cascade-trans e Allowed room h s.1 h'
              (offered-Cascade e Allowed skip frame room h v (λ c k. inr (refl, k)) xs same_members
                s o)
              (Cascade-mono e (IsNotice room) Allowed room s.1 h' (λ c t p. inl p) d.cascade);
        received = received_first s o h' d;
        dropped = λ c m k full. d.out c (ground (arith, o.stalled c, same_members c));
      }

      -- The two loops together.
      pub serve-Served :
          length (members_of room h) < n
          → Returns
              (Served room skip frame h)
              (offer_all skip frame xs (ranged h) >>= λ s. drop_stalled f s.0 s.1)
      serve-Served small =
          Returns-bind (Offered skip frame xs (ranged h)) (Served room skip frame h)
            (offer_all skip frame xs (ranged h)) _
            (offer_all-Offered skip frame xs (ranged h)
              (e.order-Distinct h.ranges (members_of room h) (v.distinct room))
              (λ c m. v.opened room c (ground (arith, same_members c))))
            λ s o.
              Returns-mono (Dropped room s.0 s.1) (Served room skip frame h)
                (drop_stalled f s.0 s.1)
                (drop_stalled-Dropped s.0 s.1
                  (offered-IsWellFormed e Allowed skip frame room h v (λ c k. inr (refl, k)) xs
                    same_members s o)
                  (rw o.rooms small)
                  (λ c m. v.at_home room c (ground (arith, o.stalled c, same_members c))))
                (served s o)
