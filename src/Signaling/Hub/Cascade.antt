-- ===== src/Signaling/Hub/Cascade.antt =====
-- What holds of the hub between two requests, and what an eviction in a room, with those that it sets
-- off, may change.
use cb_back.Prelude.{
  ℕ, ◌≤◌, ◌≡◌, ◌≢◌, refl, ap, ◌∙◌, sym, Bool, true, false, List, [], ◌++◌, append-nil, append_assoc,
  Text, arith, length, contains, lookup, Bool-cases, AllOf, AllOf-append, AllOf-mono,
}
use cb_back.Prelude.Int.{pos}
use cb_back.Prelude.Groups.{IsGrouping, total}
use cb_back.Signaling.Hub.{Env, Hub, room_of, members_of, send_buffer_size}

module _ (e : Env) where
  -- Between two requests: no empty room, each member in its own room and with an open channel, and a
  -- true count.
  pub record IsWellFormed (h : Hub) : Type 0 where
    pub grouping : IsGrouping (room_of e) h.rooms
    pub open grouping use *
    pub opened :
        (r : Text) (c : ℕ) → contains (members_of r h) c ≡ true → (h.send c).is_closed ≡ false
    pub counted : h.count ≡ pos (total h.rooms)
    pub bounded : (c : ℕ) → length (h.send c).buffer ≤ send_buffer_size

  -- What a delivery in the room `r`, with the evictions that it sets off, may do to the hub. `P` says
  -- which frames it may queue, and for whom.
  pub record Cascade (P : ℕ → Text → Type 0) (r : Text) (h h' : Hub) : Type 0 where
    pub other_rooms : (q : Text) → q ≢ r → lookup q h'.rooms ≡ lookup q h.rooms
    pub outsiders : (c : ℕ) → contains (members_of r h) c ≡ false → h'.send c ≡ h.send c
    pub shrinks : (c : ℕ) → contains (members_of r h') c ≡ true → contains (members_of r h) c ≡ true
    pub smaller : length (members_of r h') ≤ length (members_of r h)
    pub extends :
        (c : ℕ)
        → (sent : List Text) × ((h'.send c).buffer ≡ (h.send c).buffer ++ sent) × AllOf (P c) sent
    pub evicted :
        (c : ℕ)
        → contains (members_of r h) c ≡ true
        → contains (members_of r h') c ≡ false
        → (h'.send c).is_closed ≡ true

  pub Cascade-refl : (P : ℕ → Text → Type 0) (r : Text) (h : Hub) → Cascade P r h h
  Cascade-refl P r h = record {
    other_rooms = λ q n. refl;
    outsiders = λ c n. refl;
    shrinks = λ c m. m;
    smaller = omega arith;
    extends = λ c. ([], sym (append-nil _), tt);
    evicted = λ c m n. cc;
  }

  extends_trans :
      (P : Text → Type 0) (a b c : List Text)
      → (s : List Text) × (b ≡ a ++ s) × AllOf P s
      → (s : List Text) × (c ≡ b ++ s) × AllOf P s
      → (s : List Text) × (c ≡ a ++ s) × AllOf P s
  extends_trans P a b c (s, p, u) (t, q, w) =
      (s ++ t, q ∙ ap (λ x. x ++ t) p ∙ append_assoc a s t, AllOf-append P s t u w)

  out_of_smaller :
      (P : ℕ → Text → Type 0) (r : Text) (h h' : Hub) (p : Cascade P r h h') (c : ℕ)
      → contains (members_of r h) c ≡ false
      → (b : Bool) → contains (members_of r h') c ≡ b
      → contains (members_of r h') c ≡ false
  out_of_smaller P r h h' p c n true m = cc (p.shrinks c m)
  out_of_smaller P r h h' p c n false m = m

  pub Cascade-trans :
      (P : ℕ → Text → Type 0) (r : Text) (h h' h'' : Hub)
      → Cascade P r h h'
      → Cascade P r h' h''
      → Cascade P r h h''
  Cascade-trans P r h h' h'' p q = record {
    other_rooms = λ k n. q.other_rooms k n ∙ p.other_rooms k n;
    outsiders = λ c n.
        q.outsiders c (out_of_smaller P r h h' p c n (contains (members_of r h') c) refl)
        ∙ p.outsiders c n;
    shrinks = λ c m. p.shrinks c (q.shrinks c m);
    smaller = omega (arith, p.smaller, q.smaller);
    extends = λ c. extends_trans (P c) _ _ _ (p.extends c) (q.extends c);
    evicted = λ c m n. ground (
      arith,
      p.evicted c m,
      q.evicted c,
      q.outsiders c,
      Bool-cases (contains (members_of r h') c),
    );
  }

  pub Cascade-mono :
      (P Q : ℕ → Text → Type 0) (r : Text) (h h' : Hub)
      → ((c : ℕ) (frame : Text) → P c frame → Q c frame)
      → Cascade P r h h'
      → Cascade Q r h h'
  Cascade-mono P Q r h h' k p = record {
    other_rooms = p.other_rooms;
    outsiders = p.outsiders;
    shrinks = p.shrinks;
    smaller = p.smaller;
    extends = λ c. let (s, q, all) = p.extends c in (s, q, AllOf-mono (P c) (Q c) s (k c) all);
    evicted = p.evicted;
  }
