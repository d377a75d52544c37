-- ===== src/Prelude/Groups.antt =====
-- References kept in groups under text keys: Go's map from a key to a set of pointers, from which a
-- group goes with its last member. `home` gives the key under which a reference belongs.
pub mod Remove
pub mod Add
pub mod Close
use cb_back.Prelude.{
  ℕ, ◌+◌, ◌≤◌, ◌≡◌, ◌≢◌, refl, Bool, true, false, not, ◌&&◌, ◌||◌, inl, inr, Option, none, some,
  List, [], ◌∷◌, ◌++◌, Text, arith, ◌==◌, if◌then◌else◌, Bool-cases, Option-cases, length,
  length-append, null, contains, remove, Distinct, contains-remove, remove-Distinct, length-remove,
  text_eq, text_eq_iff, text_eq_refl, Dict, lookup, insert, delete, lookup-insert, lookup-delete,
  HasDistinctKeys, insert-HasDistinctKeys, delete-HasDistinctKeys,
}

abbrev pub or_empty : Option (List ℕ) → List ℕ
or_empty none = []
or_empty (some members) = members

-- The members under a key; a missing key has none.
abbrev pub group : Text → Dict (List ℕ) → List ℕ
group k groups = or_empty (lookup k groups)

-- members[c] = struct{}{}
abbrev pub add_member : ℕ → List ℕ → List ℕ
add_member c members = if contains members c then members else members ++ c ∷ []

-- delete(members, c), and the group with its last member.
abbrev pub without_member : Text → ℕ → List ℕ → Dict (List ℕ) → Dict (List ℕ)
without_member k c members groups =
    if null (remove c members) then delete k groups else insert k (remove c members) groups

-- The number of members of all groups together.
unfoldable pub total : Dict (List ℕ) → ℕ
total [] = 0
total ((k, members) ∷ groups) = length members + total groups

pub total-delete :
    (k : Text) (groups : Dict (List ℕ))
    → HasDistinctKeys groups
    → total (delete k groups) + length (group k groups) ≡ total groups
unfolding total delete lookup
total-delete k [] d = refl
total-delete k ((j, members) ∷ groups) d =
    ground (arith, total-delete k groups d.1, text_eq_iff j k)

pub total-insert :
    (k : Text) (members : List ℕ) (groups : Dict (List ℕ))
    → HasDistinctKeys groups
    → total (insert k members groups) + length (group k groups) ≡ length members + total groups
unfolding total insert
total-insert k members groups d = omega (arith, total-delete k groups d)

pub length-le-total : (k : Text) (groups : Dict (List ℕ)) → length (group k groups) ≤ total groups
unfolding total lookup
length-le-total k [] = omega arith
length-le-total k ((j, members) ∷ groups) = ground (arith, length-le-total k groups)

-- Each member once and in its own group, and no group without members.
pub record IsGrouping (home : ℕ → Text) (groups : Dict (List ℕ)) : Type 0 where
  pub keys : HasDistinctKeys groups
  pub nonempty : (k : Text) → lookup k groups ≢ some []
  pub distinct : (k : Text) → Distinct (group k groups)
  pub at_home : (k : Text) (c : ℕ) → contains (group k groups) c ≡ true → home c ≡ k

pub empty-IsGrouping : (home : ℕ → Text) → IsGrouping home []
unfolding lookup contains
empty-IsGrouping home = record {
  keys = tt;
  nonempty = λ k q. cc;
  distinct = λ k. tt;
  at_home = λ k c m. cc;
}

pub group_found :
    (k : Text) (c : ℕ) (groups : Dict (List ℕ))
    → contains (group k groups) c ≡ true
    → (members : List ℕ) × (lookup k groups ≡ some members) × (contains members c ≡ true)
unfolding contains
group_found k c groups m = elim (Option-cases (lookup k groups)) [
  | inl missing ↦ cc (rw missing at m)
  | inr (members, here) ↦ (members, here, (rw here at m))
]
