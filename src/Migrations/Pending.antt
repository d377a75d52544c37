-- ===== src/Migrations/Pending.antt =====
-- internal/database/migrate.go: what is pending once some of the files are recorded.
use cb_back.Prelude.{
  ◌≡◌, refl, sym, ap, subst, ◌∙◌, false, ◌||◌, inl, inr, List, [], ◌∷◌, ◌++◌, append-nil,
  append_assoc, Text, text_eq_iff, text_eq_refl, arith, Bool-cases,
}
use cb_back.Prelude.Strings.{among, IsOnce}
use cb_back.Migrations.{text_leb, insert_sorted, sort, pending}
use cb_back.Migrations.Order.{among-insert, among-sort}

insert-IsOnce :
    (a : Text) (bs : List Text) → among bs a ≡ false → IsOnce bs → IsOnce (insert_sorted a bs)
unfolding insert_sorted among
insert-IsOnce a [] h k = (refl, tt)
insert-IsOnce a (b ∷ bs) h k = elim (Bool-cases (text_leb a b)) [
  | inl p ↦ rw p (h, k)
  | inr p ↦ rw p (
    ground (arith, h, k.0, among-insert a bs b, text_eq_iff a b, text_eq_refl a),
    insert-IsOnce a bs (ground (arith, h)) k.1,
  )
]

pub sort-IsOnce : (as' : List Text) → IsOnce as' → IsOnce (sort as')
unfolding sort
sort-IsOnce [] h = tt
sort-IsOnce (a ∷ as') h = insert-IsOnce a (sort as') (among-sort as' a ∙ h.0) (sort-IsOnce as' h.1)

among-append : (xs ys : List Text) (c : Text) → among (xs ++ ys) c ≡ (among xs c || among ys c)
unfolding among
among-append [] ys c = refl
among-append (x ∷ xs) ys c = ground (arith, among-append xs ys c)

-- Another name that is recorded does not matter.
pending_other :
    (vs : List Text) (name : Text) (files : List Text)
    → among files name ≡ false
    → pending (vs ++ name ∷ []) files ≡ pending vs files
unfolding pending among
pending_other vs name [] h = refl
pending_other vs name (f ∷ files) h = ground (
  arith,
  h,
  pending_other vs name files,
  among-append vs (name ∷ []) f,
  text_eq_iff f name,
  text_eq_iff name f,
)

-- What is pending once the first of the pending files are recorded are the others.
pub pending_rest :
    (files vs front rest : List Text)
    → IsOnce files
    → front ++ rest ≡ pending vs files
    → pending (vs ++ front) files ≡ rest
unfolding pending among
pending_rest files vs [] rest d h = ap (λ ws. pending ws files) (append-nil vs) ∙ sym h
pending_rest [] vs (x ∷ front) rest d h = ground (arith, h)
pending_rest (f ∷ files) vs (x ∷ front) rest d h = elim (Bool-cases (among vs f)) [
  | inl p ↦
      let below : x ∷ front ++ rest ≡ pending vs files = h ∙ rw p refl in
      ground
        (arith, p, among-append vs (x ∷ front) f, pending_rest files vs (x ∷ front) rest d.1 below)
  | inr p ↦
      let step : x ∷ front ++ rest ≡ f ∷ pending vs files = h ∙ rw p refl in
      let same : x ≡ f = ground (arith, step) in
      let below : front ++ rest ≡ pending vs files = ground (arith, step) in
      let later : pending (vs ++ f ∷ front) files ≡ rest =
        ap (λ ws. pending ws files) (sym (append_assoc vs (f ∷ []) front))
        ∙ pending_rest files (vs ++ f ∷ []) front rest d.1
            (below ∙ sym (pending_other vs f files d.0)) in
      subst (λ y. pending (vs ++ y ∷ front) (f ∷ files) ≡ rest) (sym same)
        (ground (arith, p, among-append vs (f ∷ front) f, text_eq_refl f, later))
]

-- The order of the rows does not matter.
pub pending_same :
    (ws vs files : List Text)
    → ((name : Text) → among ws name ≡ among vs name)
    → pending ws files ≡ pending vs files
unfolding pending
pending_same ws vs [] h = refl
pending_same ws vs (name ∷ files) h = ground (arith, h name, pending_same ws vs files h)
