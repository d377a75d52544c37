-- ===== src/Migrations/Order.antt =====
-- internal/database/migrate.go: the files come in ascending order.
use cb_back.Prelude.{
  ◌≡◌, refl, true, false, inl, inr, List, [], ◌∷◌, Text, arith, AllOf, AllOf-mono, Bool-cases,
}
use cb_back.Prelude.Strings.{among}
use cb_back.Migrations.{text_leb, insert_sorted, sort}

text_leb_total : (a b : Text) → text_leb a b ≡ false → text_leb b a ≡ true
unfolding text_leb
text_leb_total [] b h = ground (arith, h)
text_leb_total (x ∷ a) [] h = refl
text_leb_total (x ∷ a) (y ∷ b) h = ground (arith, h, text_leb_total a b)

text_leb_trans : (a b c : Text) → text_leb a b ≡ true → text_leb b c ≡ true → text_leb a c ≡ true
unfolding text_leb
text_leb_trans [] b c h k = refl
text_leb_trans (x ∷ a) [] c h k = ground (arith, h)
text_leb_trans (x ∷ a) (y ∷ b) [] h k = ground (arith, k)
text_leb_trans (x ∷ a) (y ∷ b) (z ∷ c) h k = ground (arith, h, k, text_leb_trans a b c)

abbrev pub IsBelow : Text → List Text → Type 0
IsBelow a = AllOf (λ b. text_leb a b ≡ true)

-- No name comes after one that follows it.
abbrev pub IsSorted : List Text → Type 0
IsSorted [] = Unit {0}
IsSorted (a ∷ as') = IsBelow a as' × IsSorted as'

insert-IsBelow :
    (a b : Text) (bs : List Text)
    → text_leb a b ≡ true
    → IsBelow a bs
    → IsBelow a (insert_sorted b bs)
unfolding insert_sorted
insert-IsBelow a b [] h k = (h, tt)
insert-IsBelow a b (c ∷ bs) h k = elim (Bool-cases (text_leb b c)) [
  | inl p ↦ rw p (h, k)
  | inr p ↦ rw p (k.0, insert-IsBelow a b bs h k.1)
]

insert-IsSorted : (a : Text) (bs : List Text) → IsSorted bs → IsSorted (insert_sorted a bs)
unfolding insert_sorted
insert-IsSorted a [] h = (tt, tt)
insert-IsSorted a (b ∷ bs) h = elim (Bool-cases (text_leb a b)) [
  | inl p ↦ rw p (
    (
      p,
      AllOf-mono (λ c. text_leb b c ≡ true) (λ c. text_leb a c ≡ true) bs
          (λ c k. text_leb_trans a b c p k) h.0,
    ),
    h,
  )
  | inr p ↦ rw p (insert-IsBelow b a bs (text_leb_total a b p) h.0, insert-IsSorted a bs h.1)
]

pub sort-IsSorted : (as' : List Text) → IsSorted (sort as')
unfolding sort
sort-IsSorted [] = tt
sort-IsSorted (a ∷ as') = insert-IsSorted a (sort as') (sort-IsSorted as')

pub among-insert :
    (a : Text) (bs : List Text) (c : Text) → among (insert_sorted a bs) c ≡ among (a ∷ bs) c
unfolding insert_sorted among
among-insert a [] c = refl
among-insert a (b ∷ bs) c = ground (arith, among-insert a bs c)

-- Sorting neither adds nor loses a name.
pub among-sort : (as' : List Text) (c : Text) → among (sort as') c ≡ among as' c
unfolding sort among
among-sort [] c = refl
among-sort (a ∷ as') c = ground (arith, among-sort as' c, among-insert a (sort as') c)
