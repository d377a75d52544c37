-- ===== src/Prelude/Groups/Remove.antt =====
-- One member taken out of its group.
use cb_back.Prelude.{
  ℕ, ◌+◌, ◌≡◌, ◌≢◌, refl, true, not, ◌&&◌, inl, inr, Option, none, some, List, [], ◌∷◌, Text, arith,
  ◌==◌, if◌then◌else◌, Bool-cases, length, null, contains, remove, Distinct, contains-remove,
  remove-Distinct, length-remove, text_eq, text_eq_iff, text_eq_refl, Dict, lookup, lookup-insert,
  lookup-delete, HasDistinctKeys, insert-HasDistinctKeys, delete-HasDistinctKeys,
}
use cb_back.Prelude.Groups.{
  or_empty, group, without_member, total, total-delete, total-insert, IsGrouping,
}

-- What is left of a group.
abbrev rest_of : List ℕ → Option (List ℕ)
rest_of members = if null members then none else some members

or_empty-rest_of : (members : List ℕ) → or_empty (rest_of members) ≡ members
or_empty-rest_of [] = refl
or_empty-rest_of (x ∷ xs) = refl

rest_of-nonempty : (members : List ℕ) → rest_of members ≢ some []
rest_of-nonempty [] h = cc
rest_of-nonempty (x ∷ xs) h = cc

null-length : (xs : List ℕ) → null xs ≡ true → length xs ≡ 0
null-length [] h = refl
null-length (x ∷ xs) h = cc

module _ (home : ℕ → Text) (c : ℕ) (members : List ℕ) (groups : Dict (List ℕ))
    (here : lookup (home c) groups ≡ some members) (among : contains members c ≡ true)
    (v : IsGrouping home groups) where
  abbrev removed : Dict (List ℕ)
  removed = without_member (home c) c members groups

  pub lookup-removed :
      (k : Text)
      → lookup k removed
        ≡ (if text_eq (home c) k then rest_of (remove c members) else lookup k groups)
  lookup-removed k = elim (Bool-cases (null (remove c members))) [
    | inl p ↦ rw (p, lookup-delete (home c) k groups)
    | inr p ↦ rw (p, lookup-insert (home c) k (remove c members) groups)
  ]

  group-removed :
      (k : Text)
      → group k removed ≡ (if text_eq (home c) k then remove c members else group k groups)
  group-removed k = ground (arith, lookup-removed k, or_empty-rest_of (remove c members))

  group_here : group (home c) groups ≡ members
  group_here = rw here

  members-Distinct : Distinct members
  members-Distinct = rw group_here at (v.distinct (home c))

  keys-removed : HasDistinctKeys removed
  keys-removed = elim (Bool-cases (null (remove c members))) [
    | inl p ↦ rw p (delete-HasDistinctKeys _ groups v.keys)
    | inr p ↦ rw p (insert-HasDistinctKeys _ _ groups v.keys)
  ]

  removed-Distinct : (k : Text) → Distinct (group k removed)
  removed-Distinct k = elim (Bool-cases (text_eq (home c) k)) [
    | inl p ↦ rw (group-removed k, p) (remove-Distinct c members members-Distinct)
    | inr p ↦ rw (group-removed k, p) (v.distinct k)
  ]

  -- The member is out, and nobody else.
  pub contains-removed :
      (k : Text) (d : ℕ)
      → contains (group k removed) d ≡ (contains (group k groups) d && not (c == d))
  contains-removed k d = elim (Bool-cases (text_eq (home c) k)) [
    | inl p ↦
        rw (group-removed k, p, ← (text_eq_iff _ k).0 p, group_here)
          (contains-remove c d members members-Distinct)
    | inr p ↦
        rw (group-removed k, p)
          (ground (
            arith,
            v.at_home k c,
            text_eq_iff (home c) k,
            Bool-cases (contains (group k groups) d),
          ))
  ]

  pub total-removed : total removed + 1 ≡ total groups
  total-removed = elim (Bool-cases (null (remove c members))) [
    | inl p ↦ rw p (
        ground (
          arith,
          total-delete (home c) groups v.keys,
          length-remove c members among,
          here,
          null-length (remove c members) p,
        ))
    | inr p ↦ rw p (
        ground (
          arith,
          total-insert (home c) (remove c members) groups v.keys,
          length-remove c members among,
          here,
        ))
  ]

  pub removed-IsGrouping : IsGrouping home removed
  removed-IsGrouping = record {
    keys = keys-removed;
    nonempty =
        λ k. ground (arith, lookup-removed k, rest_of-nonempty (remove c members), v.nonempty k);
    distinct = removed-Distinct;
    at_home = λ k d m. v.at_home k d (ground (arith, contains-removed k d));
  }

  pub length-removed : length (group (home c) removed) + 1 ≡ length (group (home c) groups)
  length-removed =
      rw (group-removed (home c), text_eq_refl (home c), group_here) (length-remove c members among)
