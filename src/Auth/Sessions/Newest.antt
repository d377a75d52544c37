-- ===== src/Auth/Sessions/Newest.antt =====
-- internal/auth/sessions.go: trimming keeps the session that was created last.
use cb_back.Auth.Sessions.Survey.{survey-Surveyed, Surveyed, IsSurvey}
use cb_back.Prelude.{
  ◌-◌, leb, leb→le, null, if◌then◌else◌, ℕ, zero, suc, ◌+◌, ◌<◌, ◌≡◌, refl, sym, ap, ◌∙◌, subst,
  true, false, ◌⊎◌, inl, inr, Option, none, some, List, [], ◌∷◌, ◌++◌, Text, text_eq, text_eq_iff,
  text_eq_refl, arith, length, Bool-cases, lookup, HasDistinctKeys,
}
use cb_back.Prelude.Strings.{among, IsOnce}
use cb_back.Prelude.Results.{Result, done, failed, Result-cases}
use cb_back.Prelude.Stateful.{resume_keeps}
use cb_back.Auth.Redis.{Error, del, Command, s_rem, written, written_all}
use cb_back.Auth.Sessions.{
  max_sessions, Session, Store, session_key, user_index, oldest, drop_entry, evict_oldest, survey,
  trim_sessions,
}
use cb_back.Auth.Sessions.Trimming.{
  oldest_there, oldest_least, lookup-drop, drop-HasDistinctKeys, length-drop,
}

-- Every other session of the list was created before.
record IsNewest (id : Text) (now : ℕ) (live : List (Text × ℕ)) : Type 0 where
  at_now : (n : ℕ) → lookup id live ≡ some n → n ≡ now
  before : (b : Text) (n : ℕ) → text_eq b id ≡ false → lookup b live ≡ some n → n < now

drop-IsNewest :
    (o id : Text) (now : ℕ) (live : List (Text × ℕ))
    → HasDistinctKeys live
    → IsNewest id now live
    → IsNewest id now (drop_entry o live)
drop-IsNewest o id now live d v = record {
  at_now = λ n h. v.at_now n (ground (arith, h, lookup-drop o id live d));
  before = λ b n p h. v.before b n p (ground (arith, h, lookup-drop o b live d));
}

-- Of two entries one is another session's.
other_there :
    (id : Text) (e f : Text × ℕ) (es : List (Text × ℕ))
    → HasDistinctKeys (e ∷ f ∷ es)
    → (b : Text) × ((n : ℕ) × (text_eq b id ≡ false) × (lookup b (e ∷ f ∷ es) ≡ some n))
unfolding lookup
other_there id (k, m) (j, n) es d = elim (Bool-cases (text_eq k id)) [
  | inr p ↦ (k, (m, p, ground (arith, text_eq_refl k)))
  | inl p ↦
      let apart : text_eq j k ≡ false = ground (arith, d.0) in
      let same : k ≡ id = (text_eq_iff k id).0 p in
      (
        j,
        (
          n,
          subst (λ t. text_eq j t ≡ false) same apart,
          ground (arith, apart, text_eq_refl j, text_eq_iff j k, text_eq_iff k j),
        ),
      )
]

oldest_other :
    (id : Text) (now : ℕ) (e f : Text × ℕ) (es : List (Text × ℕ))
    → HasDistinctKeys (e ∷ f ∷ es)
    → IsNewest id now (e ∷ f ∷ es)
    → text_eq (oldest e (f ∷ es)).0 id ≡ false
oldest_other id now (k, t) f es d v = elim (Bool-cases (text_eq (oldest (k, t) (f ∷ es)).0 id)) [
  | inr p ↦ p
  | inl p ↦
      let o = oldest (k, t) (f ∷ es) in
      let (b, (n, q, h)) = other_there id (k, t) f es d in
      let there : lookup id ((k, t) ∷ f ∷ es) ≡ some o.1 =
        subst (λ x. lookup x ((k, t) ∷ f ∷ es) ≡ some o.1) ((text_eq_iff o.0 id).0 p)
          (oldest_there k t (f ∷ es) d) in
      absurd (omega (arith, v.at_now o.1 there, v.before b n q h, oldest_least k t (f ∷ es) b n h))
]

excess_lem : (n : ℕ) → (n - max_sessions ≡ 0) ⊎ (n - max_sessions < n)
excess_lem n = elim (Bool-cases (leb n max_sessions)) [
  | inl p ↦ inl (omega (arith, leb→le n max_sessions p))
  | inr p ↦ inr (ground (arith, p))
]

module _ (st : Store) where
  open st use {redis, unmarshal}
  open redis use {
    State, value, set_at, get, exec, get_lem, exec_any, s_members, s_members_lem, set_at-IsOnce,
  }

  -- A pipeline that does not touch a key leaves its string, also where it fails.
  exec_spares :
      (cs : List Command) (k : Text) (s : State)
      → ((old : Option Text) → written_all cs k old ≡ old)
      → value (exec cs s).1 k ≡ value s k
  exec_spares cs k s h = elim (exec_any cs s k) [ inl p ↦ p ∙ h (value s k) | inr p ↦ p ]

  delete_spares :
      (o id : Text) (s : State)
      → text_eq o id ≡ false
      → value (exec (del (session_key o ∷ []) ∷ []) s).1 (session_key id) ≡ value s (session_key id)
  unfolding written_all written among text_eq
  delete_spares o id s h = exec_spares _ (session_key id) s (λ old. ground (arith, h))

  evict_keeps :
      (id : Text) (now excess : ℕ) (live : List (Text × ℕ)) (s : State)
      → HasDistinctKeys live
      → IsNewest id now live
      → (excess ≡ 0) ⊎ (excess < length live)
      → value (evict_oldest st excess live s).1 (session_key id) ≡ value s (session_key id)
  unfolding evict_oldest
  evict_keeps id now zero live s d v h = refl
  evict_keeps id now (suc excess) [] s d v h = refl
  evict_keeps id now (suc excess) (e ∷ []) s d v h = ground (arith, h)
  evict_keeps id now (suc excess) (e ∷ f ∷ es) s d v h =
      let o = (oldest e (f ∷ es)).0 in
      let live : List (Text × ℕ) = e ∷ f ∷ es in
      let rest : List (Text × ℕ) = drop_entry o live in
      let P : State → Type 0 = λ s'. value s' (session_key id) ≡ value s (session_key id) in
      let fewer : length rest + 1 ≡ length live =
        length-drop o _ live (oldest_there e.0 e.1 (f ∷ es) d) in
      resume_keeps P _ (exec (del (session_key o ∷ []) ∷ []) s)
        (delete_spares o id s (oldest_other id now e f es d v))
        λ a s' p.
          resume_keeps P _ (evict_oldest st excess rest s')
            (evict_keeps id now excess rest s' (drop-HasDistinctKeys o live d)
                (drop-IsNewest o id now live d v) (ground (arith, h, fewer))
              ∙ p)
            (λ ids s'' q. q)

  rem_keeps :
      (user id : Text) (ids : List Text) (s : State)
      → value (exec (s_rem (user_index user) ids ∷ []) s).1 (session_key id)
        ≡ value s (session_key id)
  unfolding written_all written
  rem_keeps user id ids s = exec_spares _ (session_key id) s (λ old. refl)

  -- Every other session of the user's index was created before.
  abbrev pub IsLatest : Text → Text → ℕ → State → Type 0
  IsLatest user id now s =
      (b raw : Text) (sess : Session)
      → among (set_at s (user_index user)) b ≡ true
      → text_eq b id ≡ false
      → value s (session_key b) ≡ some raw
      → unmarshal raw ≡ some sess
      → sess.created_at < now

  survey-IsNewest :
      (user id raw : Text) (sess : Session) (now : ℕ) (s : State) (ids : List Text)
      (live : List (Text × ℕ))
      → ids ≡ set_at s (user_index user)
      → value s (session_key id) ≡ some raw
      → unmarshal raw ≡ some sess
      → sess.created_at ≡ now
      → IsLatest user id now s
      → IsSurvey st s ids live
      → IsNewest id now live
  survey-IsNewest user id raw sess now s ids live h p q t k v = record {
    at_now = λ n m.
        let (raw', (sess', p', q', t')) = v.stored id n m in
        let same_raw : raw' ≡ raw = ground (arith, p, p') in
        let same_sess : sess' ≡ sess = ground (arith, q, q', ap unmarshal same_raw) in
        t' ∙ ap (λ (x : Session). x.created_at) same_sess ∙ t;
    before = λ b n m l.
        let (raw', (sess', p', q', t')) = v.stored b n l in
        subst (λ x. x < now) (sym t')
          (k b raw' sess' (subst (λ xs. among xs b ≡ true) h (v.listed b n l)) m p' q');
  }

  module _ (user id : Text) where
    dropped_keeps :
        (stale : List Text) (r : Result Error (List Text) × State) (v : Option Text)
        → value r.1 (session_key id) ≡ v
        → value
            (let (dropped, s') = r in
              elim dropped [
                | failed e ↦ s'
                | done ids' ↦
                    if null (stale ++ ids')
                    then s'
                    else (exec (s_rem (user_index user) (stale ++ ids') ∷ []) s').1
              ])
            (session_key id)
          ≡ v
    dropped_keeps stale (failed e, s) v h = h
    dropped_keeps stale (done ids, s) v h = elim (Bool-cases (null (stale ++ ids))) [
      | inl p ↦ rw p h
      | inr p ↦ rw p (rem_keeps user id (stale ++ ids) s ∙ h)
    ]

    found_keeps :
        (now : ℕ) (s : State) (ids : List Text) (found : Option (List (Text × ℕ) × List Text))
        → IsOnce ids
        → ((live : List (Text × ℕ)) → IsSurvey st s ids live → IsNewest id now live)
        → Surveyed st s ids found
        → value
            (elim found [
              | none ↦ s
              | some (live, stale) ↦
                  let (dropped, s') = evict_oldest st (length live - max_sessions) live s in
                  elim dropped [
                    | failed e ↦ s'
                    | done ids' ↦
                        if null (stale ++ ids')
                        then s'
                        else (exec (s_rem (user_index user) (stale ++ ids') ∷ []) s').1
                  ]
            ])
            (session_key id)
          ≡ value s (session_key id)
    found_keeps now s ids none o k v = refl
    found_keeps now s ids (some (live, stale)) o k v =
        dropped_keeps stale (evict_oldest st (length live - max_sessions) live s) _ (
          evict_keeps id now (length live - max_sessions) live s (v.distinct o) (k live v)
            (excess_lem (length live)))

    -- Trimming leaves the newest session of the user.
    pub trim_keeps :
        (raw : Text) (sess : Session) (s : State)
        → value s (session_key id) ≡ some raw
        → unmarshal raw ≡ some sess
        → IsLatest user id sess.created_at s
        → value (trim_sessions st user s) (session_key id) ≡ value s (session_key id)
    unfolding trim_sessions
    trim_keeps raw sess s p q k = elim (Result-cases (s_members (user_index user) s)) [
      | inr (e, h) ↦ rw (h, trim_sessions) refl
      | inl (ids, h) ↦
          let same : ids ≡ set_at s (user_index user) = s_members_lem (user_index user) s ids h in
          elim (Bool-cases (leb (length ids) max_sessions)) [
            | inl l ↦ rw (h, l, trim_sessions) refl
            | inr l ↦
                rw (h, l, trim_sessions)
                  (found_keeps sess.created_at s ids (survey st ids s)
                    (subst IsOnce (sym same) (set_at-IsOnce s (user_index user)))
                    (λ live.
                      survey-IsNewest user id raw sess sess.created_at s ids live same p q refl k)
                    (survey-Surveyed st ids s))
          ]
    ]
