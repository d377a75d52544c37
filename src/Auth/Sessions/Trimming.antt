-- ===== src/Auth/Sessions/Trimming.antt =====
-- internal/auth/sessions.go: trimming deletes the sessions that were created first.
use cb_back.Prelude.{
  ℕ, zero, suc, ◌+◌, ◌≤◌, ◌≡◌, refl, sym, ap, ◌∙◌, subst, true, false, ◌⊎◌, inl, inr, none, some,
  List, [], ◌∷◌, Text, text_eq, text_eq_iff, text_eq_refl, arith, ltb, leb, if◌then◌else◌, length,
  Bool-cases, lookup, HasDistinctKeys,
}
use cb_back.Prelude.Strings.{among}
use cb_back.Prelude.Results.{done}
use cb_back.Prelude.Stateful.{Succeeds, Succeeds-bind, Succeeds-done, done-Succeeds}
use cb_back.Auth.Redis.{del}
use cb_back.Auth.Sessions.{Store, session_key, oldest, drop_entry, evict_oldest}

-- The creation time is no later than any of the list.
abbrev pub IsFirst : ℕ → List (Text × ℕ) → Type 0
IsFirst m es = (b : Text) (n : ℕ) → lookup b es ≡ some n → m ≤ n

-- The older one of two, which `oldest` goes on with.
abbrev older : Text × ℕ → Text × ℕ → Text × ℕ
older o e = if ltb e.1 o.1 then e else o

oldest-IsFirst :
    (o : Text × ℕ) (es : List (Text × ℕ)) → ((oldest o es).1 ≤ o.1) × IsFirst (oldest o es).1 es
unfolding oldest lookup
oldest-IsFirst o [] = (omega arith, λ b n h. ground (arith, h))
oldest-IsFirst o ((k, m) ∷ es) =
    let (small, first) = oldest-IsFirst (older o (k, m)) es in
    let below : ((older o (k, m)).1 ≤ o.1) × ((older o (k, m)).1 ≤ m) =
      (ground (arith, Bool-cases (ltb m o.1)), ground (arith, Bool-cases (ltb m o.1))) in
    (
      omega (arith, small, below.0),
      λ b n h. elim (Bool-cases (text_eq k b)) [
        | inl p ↦ let same : m ≡ n = ground (arith, h, p) in omega (arith, small, below.1, same)
        | inr p ↦ first b n (ground (arith, h, p))
      ],
    )

older-cases : (o e : Text × ℕ) → (older o e ≡ e) ⊎ (older o e ≡ o)
older-cases o e = elim (Bool-cases (ltb e.1 o.1)) [
  | inl p ↦ inl (rw p refl)
  | inr p ↦ inr (rw p refl)
]

found_later :
    (x k : Text) (m n : ℕ) (es : List (Text × ℕ))
    → HasDistinctKeys ((k, m) ∷ es)
    → lookup x es ≡ some n
    → lookup x ((k, m) ∷ es) ≡ some n
unfolding lookup
found_later x k m n es d h = elim (Bool-cases (text_eq k x)) [
  | inl q ↦
      let missing : lookup x es ≡ none =
        subst (λ t. lookup t es ≡ none) ((text_eq_iff k x).0 q) d.0 in
      ground (arith, h, missing)
  | inr q ↦ ground (arith, h, q)
]

found_first :
    (x : Text × ℕ) (k : Text) (m : ℕ) (es : List (Text × ℕ))
    → x ≡ (k, m)
    → lookup x.0 ((k, m) ∷ es) ≡ some x.1
unfolding lookup
found_first x k m es h =
    subst (λ (y : Text × ℕ). lookup y.0 ((k, m) ∷ es) ≡ some y.1) (sym h)
      (ground (arith, text_eq_refl k))

-- The oldest entry is the one at which the search starts, or one of the list.
oldest-lookup :
    (o : Text × ℕ) (es : List (Text × ℕ))
    → HasDistinctKeys es
    → (oldest o es ≡ o) ⊎ (lookup (oldest o es).0 es ≡ some (oldest o es).1)
unfolding oldest
oldest-lookup o [] d = inl refl
oldest-lookup o ((k, m) ∷ es) d = elim (oldest-lookup (older o (k, m)) es d.1) [
  | inr p ↦ inr (found_later (oldest (older o (k, m)) es).0 k m _ es d p)
  | inl p ↦ elim (older-cases o (k, m)) [
    | inl q ↦ inr (found_first (oldest (older o (k, m)) es) k m es (p ∙ q))
    | inr q ↦ inl (p ∙ q)
  ]
]

pub oldest_there :
    (k : Text) (t : ℕ) (es : List (Text × ℕ))
    → HasDistinctKeys ((k, t) ∷ es)
    → lookup (oldest (k, t) es).0 ((k, t) ∷ es) ≡ some (oldest (k, t) es).1
oldest_there k t es d = elim (oldest-lookup (k, t) es d.1) [
  | inl p ↦ found_first (oldest (k, t) es) k t es p
  | inr p ↦ found_later (oldest (k, t) es).0 k t _ es d p
]

-- No entry of the list is older.
pub oldest_least :
    (k : Text) (t : ℕ) (es : List (Text × ℕ)) → IsFirst (oldest (k, t) es).1 ((k, t) ∷ es)
unfolding lookup
oldest_least k t es b n h = elim (Bool-cases (text_eq k b)) [
  | inl p ↦
      let same : t ≡ n = ground (arith, h, p) in omega (arith, (oldest-IsFirst (k, t) es).0, same)
  | inr p ↦ (oldest-IsFirst (k, t) es).1 b n (ground (arith, h, p))
]

pub lookup-drop :
    (o b : Text) (live : List (Text × ℕ))
    → HasDistinctKeys live
    → lookup b (drop_entry o live) ≡ (if text_eq o b then none else lookup b live)
unfolding lookup drop_entry
lookup-drop o b [] d = ground arith
lookup-drop o b ((k, m) ∷ live) d = ground (
  arith,
  d.0,
  lookup-drop o b live d.1,
  text_eq_iff k o,
  text_eq_iff k b,
  text_eq_iff o b,
  ap (λ (t : Text). lookup t live),
)

pub drop-HasDistinctKeys :
    (o : Text) (live : List (Text × ℕ)) → HasDistinctKeys live → HasDistinctKeys (drop_entry o live)
unfolding drop_entry
drop-HasDistinctKeys o [] d = tt
drop-HasDistinctKeys o ((k, m) ∷ live) d = elim (Bool-cases (text_eq k o)) [
  | inl p ↦ rw p d.1
  | inr p ↦ rw p (ground (arith, d.0, lookup-drop o k live d.1), drop-HasDistinctKeys o live d.1)
]

pub length-drop :
    (o : Text) (m : ℕ) (live : List (Text × ℕ))
    → lookup o live ≡ some m
    → length (drop_entry o live) + 1 ≡ length live
unfolding lookup drop_entry
length-drop o m [] h = ground (arith, h)
length-drop o m ((k, n) ∷ live) h = ground (arith, h, length-drop o m live)

-- As many sessions are deleted as are in excess, and none that stays is older than a deleted one.
pub record IsFair (excess : ℕ) (live : List (Text × ℕ)) (ids : List Text) : Type 0 where
  pub count : length ids ≡ (if leb excess (length live) then excess else length live)
  pub fair :
      (a b : Text) (m n : ℕ)
      → lookup a live ≡ some m
      → lookup b live ≡ some n
      → among ids a ≡ true
      → among ids b ≡ false
      → m ≤ n

-- One more, the oldest.
more-IsFair :
    (excess : ℕ) (e : Text × ℕ) (es : List (Text × ℕ)) (ids : List Text)
    → HasDistinctKeys (e ∷ es)
    → IsFair excess (drop_entry (oldest e es).0 (e ∷ es)) ids
    → IsFair (suc excess) (e ∷ es) ((oldest e es).0 ∷ ids)
unfolding lookup among
more-IsFair excess (k, t) es ids d f =
    let o = oldest (k, t) es in
    let live : List (Text × ℕ) = (k, t) ∷ es in
    let there : lookup o.0 live ≡ some o.1 = oldest_there k t es d in
    record {
      count = ground (arith, f.count, length-drop o.0 o.1 live there);
      fair = λ a b m n p q g h.
          let b_stays : text_eq o.0 b ≡ false = ground (arith, h) in
          let b_later : among ids b ≡ false = ground (arith, h) in
          let b_left : lookup b (drop_entry o.0 live) ≡ some n =
            lookup-drop o.0 b live d ∙ rw b_stays q in
          elim (Bool-cases (text_eq o.0 a)) [
            | inl u ↦
                let here : lookup a live ≡ some o.1 =
                  subst (λ x. lookup x live ≡ some o.1) ((text_eq_iff o.0 a).0 u) there in
                let same : o.1 ≡ m = ground (arith, here, p) in
                omega (arith, oldest_least k t es b n q, same)
            | inr u ↦
                f.fair a b m n (lookup-drop o.0 a live d ∙ rw u p) b_left (ground (arith, g, u))
                  b_later
          ];
    }

nothing-IsFair :
    (excess : ℕ) (live : List (Text × ℕ))
    → (if leb excess (length live) then excess else length live) ≡ 0
    → IsFair excess live []
unfolding among
nothing-IsFair excess live h = record { count = sym h; fair = λ a b m n p q g k. ground (arith, g) }

evict-Succeeds :
    (st : Store) (excess : ℕ) (live : List (Text × ℕ)) (s : st.redis.State)
    → HasDistinctKeys live
    → Succeeds (λ ids _. IsFair excess live ids) (evict_oldest st excess live s)
unfolding evict_oldest
evict-Succeeds st zero live s d = nothing-IsFair zero live (ground arith)
evict-Succeeds st (suc excess) [] s d = nothing-IsFair (suc excess) [] (ground arith)
evict-Succeeds st (suc excess) (e ∷ es) s d =
    let o = (oldest e es).0 in
    let Q : List Text → st.redis.State → Type 0 = λ ids _. IsFair (suc excess) (e ∷ es) ids in
    Succeeds-bind (λ _ _. Unit {0}) Q (st.redis.exec (del (session_key o ∷ []) ∷ [])) _ s
      (done-Succeeds (λ _ _. Unit {0}) _ (λ a h. tt))
      λ a s' _.
        Succeeds-bind (λ ids _. IsFair excess (drop_entry o (e ∷ es)) ids) Q
          (evict_oldest st excess (drop_entry o (e ∷ es))) _ s'
          (evict-Succeeds st excess (drop_entry o (e ∷ es)) s' (drop-HasDistinctKeys o (e ∷ es) d))
          (λ ids s'' f. more-IsFair excess e es ids d f)

-- Of sessions with distinct ids, an eviction that reports no error deletes as many as are in excess,
-- or all, and keeps none that was created before one that it deletes.
pub evict-IsFair :
    (st : Store) (excess : ℕ) (live : List (Text × ℕ)) (ids : List Text) (s : st.redis.State)
    → HasDistinctKeys live
    → (evict_oldest st excess live s).0 ≡ done ids
    → IsFair excess live ids
evict-IsFair st excess live ids s d h =
    Succeeds-done (λ ids _. IsFair excess live ids) (evict_oldest st excess live s) ids
      (evict-Succeeds st excess live s d) h
