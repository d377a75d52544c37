-- ===== src/Prelude/Groups/Close.antt =====
-- Closing the channels of all members: each once, also where the groups are ranged over one by one.
use cb_back.Prelude.{
  ℕ, ◌≡◌, refl, ap, ◌∙◌, sym, Bool, true, false, ◌||◌, inl, inr, some, List, ◌∷◌, Text, arith,
  contains, Distinct, lookup, text_eq, text_eq_iff, text_eq_refl, HasDistinctKeys, Dict, Bool-cases,
  subst, if◌then◌else◌,
}
use cb_back.Prelude.Channel.{Chan, closed}
use cb_back.Prelude.Groups.{or_empty}

-- The channels of the members are closed, and no other channel is changed.
abbrev pub Closes : (ℕ → Bool) → (ℕ → Chan) → (ℕ → Chan) → Type 0
Closes gone send send' = (c : ℕ) → send' c ≡ (if gone c then closed (send c) else send c)

module _ (home : ℕ → Text) where
  -- Is the reference a member of its group?
  abbrev pub is_in : Dict (List ℕ) → ℕ → Bool
  is_in groups c = contains (or_empty (lookup (home c) groups)) c

  -- Each member once, in its own group and open.
  pub record Closable (groups : Dict (List ℕ)) (send : ℕ → Chan) : Type 0 where
    pub keys : HasDistinctKeys groups
    pub distinct : (r : Text) → Distinct (or_empty (lookup r groups))
    pub at_home : (r : Text) (c : ℕ) → contains (or_empty (lookup r groups)) c ≡ true → home c ≡ r
    pub opened :
        (r : Text) (c : ℕ)
        → contains (or_empty (lookup r groups)) c ≡ true
        → (send c).is_closed ≡ false

  module _ (r : Text) (members : List ℕ) (groups : Dict (List ℕ)) (send : ℕ → Chan)
      (w : Closable ((r, members) ∷ groups) send) where
    lookup_first : lookup r ((r, members) ∷ groups) ≡ some members
    unfolding lookup
    lookup_first = rw (text_eq_refl r)

    lookup_later :
        (q : Text)
        → lookup q ((r, members) ∷ groups) ≡ (if text_eq r q then some members else lookup q groups)
    unfolding lookup
    lookup_later q = refl

    pub first-Distinct : Distinct members
    first-Distinct = rw lookup_first at (w.distinct r)

    first_home : (c : ℕ) → contains members c ≡ true → home c ≡ r
    first_home c m = w.at_home r c (rw lookup_first m)

    pub first_open : (c : ℕ) → contains members c ≡ true → (send c).is_closed ≡ false
    first_open c m = w.opened r c (rw lookup_first m)

    later_lookup :
        (q : Text) (c : ℕ)
        → contains (or_empty (lookup q groups)) c ≡ true
        → contains (or_empty (lookup q ((r, members) ∷ groups))) c ≡ true
    unfolding contains
    later_lookup q c m =
        ground
          (arith, lookup_later q, text_eq_iff r q, w.keys.0, ap (λ (k : Text). lookup k groups))

    -- No client stands in two groups.
    not_in_first :
        (q : Text) (c : ℕ)
        → contains (or_empty (lookup q groups)) c ≡ true
        → contains members c ≡ false
    unfolding contains
    not_in_first q c m = elim (Bool-cases (contains members c)) [
      | inr out ↦ out
      | inl among ↦
          let here : q ≡ r = sym (w.at_home q c (later_lookup q c m)) ∙ first_home c among in
          let m' : contains (or_empty (lookup r groups)) c ≡ true =
            subst (λ k. contains (or_empty (lookup k groups)) c ≡ true) here m in
          cc (rw w.keys.0 at m')
    ]

    later-Distinct : (q : Text) → Distinct (or_empty (lookup q groups))
    later-Distinct q = elim (Bool-cases (text_eq r q)) [
      | inl p ↦ rw (← (text_eq_iff r q).0 p, w.keys.0) tt
      | inr p ↦ rw (lookup_later q, p) at (w.distinct q)
    ]

    pub later_Closable :
        (send' : ℕ → Chan) → Closes (contains members) send send' → Closable groups send'
    later_Closable send' s = record {
      keys = w.keys.1;
      distinct = later-Distinct;
      at_home = λ q c m. w.at_home q c (later_lookup q c m);
      opened = λ q c m. ground (arith, s c, not_in_first q c m, w.opened q c (later_lookup q c m));
    }

    is_in_later : (c : ℕ) → is_in ((r, members) ∷ groups) c ≡ (contains members c || is_in groups c)
    unfolding contains
    is_in_later c = elim (Bool-cases (text_eq r (home c))) [
      | inl p ↦
          rw (lookup_later (home c), p, ← (text_eq_iff r (home c)).0 p, w.keys.0) (ground arith)
      | inr p ↦
          rw (lookup_later (home c), p)
            (ground (
              arith,
              first_home c,
              text_eq_refl r,
              ap (text_eq r),
              Bool-cases (contains members c),
            ))
    ]

    pub later-Closes :
        (send' send'' : ℕ → Chan)
        → Closes (contains members) send send'
        → Closes (is_in groups) send' send''
        → Closes (is_in ((r, members) ∷ groups)) send send''
    later-Closes send' send'' s t = λ c. t c ∙ ground (arith, s c, is_in_later c)
