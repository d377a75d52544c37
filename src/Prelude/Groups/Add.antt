-- ===== src/Prelude/Groups/Add.antt =====
-- One member put into its group.
use cb_back.Prelude.{
  ℕ, ◌+◌, ◌≡◌, ◌≢◌, refl, false, ◌&&◌, ◌||◌, inl, inr, some, List, [], ◌∷◌, ◌++◌, Text, arith, ◌==◌,
  if◌then◌else◌, Bool-cases, length, length-append, contains, Distinct, text_eq, text_eq_iff,
  text_eq_refl, Dict, lookup, insert, lookup-insert, insert-HasDistinctKeys,
}
use cb_back.Prelude.Groups.{group, add_member, total, total-insert, IsGrouping}

contains-append_one :
    (xs : List ℕ) (c d : ℕ) → contains (xs ++ c ∷ []) d ≡ (contains xs d || (c == d))
unfolding contains
contains-append_one [] c d = ground arith
contains-append_one (x ∷ xs) c d = ground (arith, contains-append_one xs c d)

append_one-Distinct :
    (xs : List ℕ) (c : ℕ) → contains xs c ≡ false → Distinct xs → Distinct (xs ++ c ∷ [])
unfolding contains
append_one-Distinct [] c n d = (refl, tt)
append_one-Distinct (x ∷ xs) c n d =
    (ground (arith, contains-append_one xs c x), append_one-Distinct xs c (ground arith) d.1)

append_one-nonempty : (xs : List ℕ) (c : ℕ) → (xs ++ c ∷ []) ≢ []
append_one-nonempty [] c h = cc
append_one-nonempty (x ∷ xs) c h = cc

module _ (home : ℕ → Text) (c : ℕ) (groups : Dict (List ℕ))
    (outside : contains (group (home c) groups) c ≡ false) (v : IsGrouping home groups) where
  abbrev entered : Dict (List ℕ)
  entered = insert (home c) (add_member c (group (home c) groups)) groups

  added : add_member c (group (home c) groups) ≡ group (home c) groups ++ c ∷ []
  added = rw outside

  pub lookup-entered :
      (k : Text)
      → lookup k entered
        ≡ (if text_eq (home c) k then some (group (home c) groups ++ c ∷ []) else lookup k groups)
  lookup-entered k = rw added (lookup-insert (home c) k (group (home c) groups ++ c ∷ []) groups)

  -- The newcomer is in, and nobody else.
  pub contains-entered :
      (k : Text) (d : ℕ)
      → contains (group k entered) d
        ≡ (contains (group k groups) d || (text_eq (home c) k && (c == d)))
  contains-entered k d = elim (Bool-cases (text_eq (home c) k)) [
    | inl p ↦
        rw (lookup-entered k, p, ← (text_eq_iff (home c) k).0 p)
          (contains-append_one (group (home c) groups) c d)
    | inr p ↦ rw (lookup-entered k, p) (ground arith)
  ]

  entered-Distinct : (k : Text) → Distinct (group k entered)
  entered-Distinct k = elim (Bool-cases (text_eq (home c) k)) [
    | inl p ↦
        rw (lookup-entered k, p)
          (append_one-Distinct (group (home c) groups) c outside (v.distinct (home c)))
    | inr p ↦ rw (lookup-entered k, p) (v.distinct k)
  ]

  pub total-entered : total entered ≡ total groups + 1
  total-entered = rw added (
      omega (
        arith,
        total-insert (home c) (group (home c) groups ++ c ∷ []) groups v.keys,
        length-append (group (home c) groups) (c ∷ []),
      ))

  pub length-entered : length (group (home c) entered) ≡ length (group (home c) groups) + 1
  length-entered =
      rw (lookup-entered (home c), text_eq_refl (home c))
        (length-append (group (home c) groups) (c ∷ []))

  pub entered-IsGrouping : IsGrouping home entered
  entered-IsGrouping = record {
    keys = insert-HasDistinctKeys _ _ groups v.keys;
    nonempty = λ k.
        ground
          (arith, lookup-entered k, append_one-nonempty (group (home c) groups) c, v.nonempty k);
    distinct = entered-Distinct;
    at_home = λ k d m. ground (arith, contains-entered k d, v.at_home k d, text_eq_iff (home c) k);
  }
