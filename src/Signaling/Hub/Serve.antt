-- ===== src/Signaling/Hub/Serve.antt =====
-- What the offer of one frame to a room leaves behind, before anybody is dropped for it.
use cb_back.Prelude.{
  ℕ, ◌≡◌, refl, sym, Bool, true, false, not, ◌&&◌, inl, inr, List, [], ◌∷◌, ◌++◌, append-nil, Text,
  arith, length-append, contains, lookup, AllOf, Bool-cases,
}
use cb_back.Prelude.Channel.{Chan}
use cb_back.Signaling.Hub.{Env, Hub, members_of, has_space, ranged}
use cb_back.Signaling.Hub.Offer.{Offered, offered}
use cb_back.Signaling.Hub.Cascade.{IsWellFormed, Cascade}

-- One frame more, or none.
offered-extends :
    (P : Text → Type 0) (b : Bool) (frame : Text) (ch : Chan)
    → (b ≡ true → P frame)
    → (sent : List Text) × ((offered b frame ch).buffer ≡ ch.buffer ++ sent) × AllOf P sent
offered-extends P true frame ch k = elim (Bool-cases (has_space ch)) [
  | inl space ↦ (frame ∷ [], rw space, (k refl, tt))
  | inr full ↦ ([], rw full (sym (append-nil ch.buffer)), tt)
]
offered-extends P false frame ch k = ([], sym (append-nil ch.buffer), tt)

module _ (e : Env) (P : ℕ → Text → Type 0) (skip : ℕ → Bool) (frame : Text) (r : Text) (h : Hub)
    (v : IsWellFormed e h) (wanted : (c : ℕ) → skip c ≡ false → P c frame) (xs : List ℕ)
    (all : (c : ℕ) → contains xs c ≡ contains (members_of r h) c) (s : List ℕ × Hub)
    (o : Offered skip frame xs (ranged h) s) where
  lookup-offered : (q : Text) → lookup q s.1.rooms ≡ lookup q h.rooms
  lookup-offered q = rw o.rooms

  closed-offered : (c : ℕ) → (s.1.send c).is_closed ≡ (h.send c).is_closed
  closed-offered c = ground (arith, o.sent c)

  pub offered-IsWellFormed : IsWellFormed e s.1
  offered-IsWellFormed = record {
    grouping = rw o.rooms v.grouping;
    opened = λ q c m. ground (arith, o.sent c, v.opened q c, o.rooms);
    counted = rw (o.count, o.rooms) v.counted;
    bounded =
        λ c. ground (arith, o.sent c, v.bounded c, length-append (h.send c).buffer (frame ∷ []));
  }

  pub offered-Cascade : Cascade e P r h s.1
  offered-Cascade = record {
    other_rooms = λ q n. lookup-offered q;
    outsiders = λ c n. ground (arith, o.sent c, all c);
    shrinks = λ c. rw o.rooms (λ m. m);
    smaller = rw o.rooms (omega arith);
    extends = λ c. rw (o.sent c) (
        offered-extends (P c) (contains xs c && not (skip c)) frame (h.send c)
          (λ q. wanted c (ground arith)));
    evicted = λ c m n. cc (o.rooms);
  }
