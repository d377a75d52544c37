-- ===== src/Signaling/Hub/Offer.antt =====
-- The loop of `announce` and `deliver` over the members of a room.
use cb_back.Prelude.{
  ℕ, ◌≡◌, refl, Bool, true, false, not, ◌&&◌, inl, inr, List, [], ◌∷◌, Text, arith, if◌then◌else◌,
  contains, Distinct, Bool-cases,
}
use cb_back.Prelude.Outcome.{ok, Returns, Returns-bind}
use cb_back.Signaling.Hub.{Hub, Chan, set_chan, has_space, enqueue, push, offer_all}

-- What one push of a frame does to the channel of a client.
abbrev pub offered : Bool → Text → Chan → Chan
offered wanted frame ch = if wanted && has_space ch then enqueue frame ch else ch

pub push-ok :
    (c : ℕ) (frame : Text) (h : Hub)
    → (h.send c).is_closed ≡ false
    → has_space (h.send c) ≡ true
    → push c frame h ≡ ok (true, set_chan c (enqueue frame (h.send c)) h)
unfolding push
push-ok c frame h opened space = ground (arith, opened, space)

pub push_full :
    (c : ℕ) (frame : Text) (h : Hub)
    → (h.send c).is_closed ≡ false
    → has_space (h.send c) ≡ false
    → push c frame h ≡ ok (false, h)
unfolding push
push_full c frame h opened full = rw (opened, full)

module _ (skip : ℕ → Bool) (frame : Text) where
  -- Each client of the list that is not skipped has got the frame, or is reported as stalled.
  pub record Offered (xs : List ℕ) (h : Hub) (r : List ℕ × Hub) : Type 0 where
    pub rooms : r.1.rooms ≡ h.rooms
    pub count : r.1.count ≡ h.count
    pub sent : (c : ℕ) → r.1.send c ≡ offered (contains xs c && not (skip c)) frame (h.send c)
    pub stalled :
        (c : ℕ) → contains r.0 c ≡ (contains xs c && (not (skip c) && not (has_space (h.send c))))

  offer_all-skip :
      (x : ℕ) (xs : List ℕ) (h : Hub)
      → skip x ≡ true
      → (r : List ℕ × Hub) → Offered xs h r
      → Offered (x ∷ xs) h r
  unfolding contains
  offer_all-skip x xs h s r o = record {
    rooms = o.rooms;
    count = o.count;
    sent = λ c. ground (arith, o.sent c);
    stalled = λ c. ground (arith, o.stalled c);
  }

  offer_all-sent :
      (x : ℕ) (xs : List ℕ) (h : Hub)
      → skip x ≡ false
      → has_space (h.send x) ≡ true
      → contains xs x ≡ false
      → (r : List ℕ × Hub) → Offered xs (set_chan x (enqueue frame (h.send x)) h) r
      → Offered (x ∷ xs) h r
  unfolding contains
  offer_all-sent x xs h s space fresh r o = record {
    rooms = o.rooms;
    count = o.count;
    sent = λ c. ground (arith, o.sent c);
    stalled = λ c. ground (arith, o.stalled c);
  }

  offer_all-stalled :
      (x : ℕ) (xs : List ℕ) (h : Hub)
      → skip x ≡ false
      → has_space (h.send x) ≡ false
      → (r : List ℕ × Hub) → Offered xs h r
      → Offered (x ∷ xs) h (x ∷ r.0, r.1)
  unfolding contains
  offer_all-stalled x xs h s full r o = record {
    rooms = o.rooms;
    count = o.count;
    sent = λ c. ground (arith, o.sent c);
    stalled = λ c. ground (arith, o.stalled c);
  }

  -- Every channel of the list is open.
  abbrev pub AllOpen : List ℕ → Hub → Type 0
  AllOpen xs h = (c : ℕ) → contains xs c ≡ true → (h.send c).is_closed ≡ false

  open_head : (x : ℕ) (xs : List ℕ) (h : Hub) → AllOpen (x ∷ xs) h → (h.send x).is_closed ≡ false
  unfolding contains
  open_head x xs h all = ground (arith, all x)

  open_tail : (x : ℕ) (xs : List ℕ) (h : Hub) → AllOpen (x ∷ xs) h → AllOpen xs h
  unfolding contains
  open_tail x xs h all c m = ground (arith, all c)

  open_sent :
      (x : ℕ) (xs : List ℕ) (h : Hub)
      → AllOpen (x ∷ xs) h
      → AllOpen xs (set_chan x (enqueue frame (h.send x)) h)
  unfolding contains
  open_sent x xs h all c m = ground (arith, all c)

  -- Over open channels the loop ends without a panic, and reports exactly whom it could not serve.
  pub offer_all-Offered :
      (xs : List ℕ) (h : Hub)
      → Distinct xs
      → AllOpen xs h
      → Returns (Offered xs h) (offer_all skip frame xs h)
  unfolding contains offer_all
  offer_all-Offered [] h d all = record {
    rooms = refl;
    count = refl;
    sent = λ c. refl;
    stalled = λ c. refl;
  }
  offer_all-Offered (x ∷ xs) h d all = elim (Bool-cases (skip x)) [
    | inl s ↦ rw s (
        Returns-bind (Offered xs h) (Offered (x ∷ xs) h) (offer_all skip frame xs h) _
          (offer_all-Offered xs h d.1 (open_tail x xs h all)) (offer_all-skip x xs h s))
    | inr s ↦ elim (Bool-cases (has_space (h.send x))) [
      | inl space ↦
          rw (s, push-ok x frame h (open_head x xs h all) space)
            (let h' : Hub = set_chan x (enqueue frame (h.send x)) h in
              Returns-bind (Offered xs h') (Offered (x ∷ xs) h) (offer_all skip frame xs h') _
                (offer_all-Offered xs h' d.1 (open_sent x xs h all))
                (offer_all-sent x xs h s space d.0))
      | inr full ↦
          rw (s, push_full x frame h (open_head x xs h all) full)
            (Returns-bind (Offered xs h) (Offered (x ∷ xs) h) (offer_all skip frame xs h) _
              (offer_all-Offered xs h d.1 (open_tail x xs h all)) (offer_all-stalled x xs h s full))
    ]
  ]
