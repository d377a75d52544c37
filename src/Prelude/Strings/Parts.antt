-- ===== src/Prelude/Strings/Parts.antt =====
-- Splitting and cutting at a separator that the first piece lacks.
use cb_back.Prelude.{ℕ, ◌≡◌, refl, false, some, [], ◌∷◌, ◌++◌, Text, ◌==◌, arith, AllOf}
use cb_back.Prelude.Strings.{split, cut}

module _ (sep : ℕ) where
  abbrev pub Lacks : Text → Type 0
  Lacks = AllOf (λ c. c == sep ≡ false)

  pub split_piece : (p : Text) → Lacks p → split sep p ≡ p ∷ []
  unfolding split
  split_piece [] h = refl
  split_piece (c ∷ p) (h, k) = rw (h, split_piece p k) refl

  pub split-append : (p rest : Text) → Lacks p → split sep (p ++ sep ∷ rest) ≡ p ∷ split sep rest
  unfolding split
  split-append [] rest h = ground arith
  split-append (c ∷ p) rest (h, k) = rw (h, split-append p rest k) refl

  pub cut-append : (p rest : Text) → Lacks p → cut sep (p ++ sep ∷ rest) ≡ some (p, rest)
  unfolding cut
  cut-append [] rest h = ground arith
  cut-append (c ∷ p) rest (h, k) = rw (h, cut-append p rest k) refl
