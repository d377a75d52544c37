-- ===== src/Auth/Sessions/Survey.antt =====
-- internal/auth/sessions.go: what trimSessions reads of the sessions in a user's index.
use cb_back.Prelude.{
  ℕ, ◌≡◌, sym, ◌∙◌, subst, true, inl, inr, Option, none, some, List, [], ◌∷◌, Text, text_eq,
  text_eq_iff, arith, Bool-cases, Option-cases, lookup, HasDistinctKeys,
}
use cb_back.Prelude.Strings.{among, IsOnce}
use cb_back.Prelude.Results.{Result-cases}
use cb_back.Auth.Sessions.{Session, Store, session_key, survey}

module _ (st : Store) where
  open st use {redis, unmarshal}
  open redis use {State, value, get, get_lem}

  -- The id of an entry is one of those surveyed, and its time is that of the session that is stored.
  pub record IsSurvey (s : State) (ids : List Text) (live : List (Text × ℕ)) : Type 0 where
    pub listed : (b : Text) (n : ℕ) → lookup b live ≡ some n → among ids b ≡ true
    pub stored :
        (b : Text) (n : ℕ)
        → lookup b live ≡ some n
        → (raw : Text) × ((sess : Session) × (value s (session_key b) ≡ some raw)
            × (unmarshal raw ≡ some sess)
            × (n ≡ sess.created_at))
    pub distinct : IsOnce ids → HasDistinctKeys live

  abbrev pub Surveyed : State → List Text → Option (List (Text × ℕ) × List Text) → Type 0
  Surveyed s ids none = Unit {0}
  Surveyed s ids (some (live, stale)) = IsSurvey s ids live

  stale-Surveyed :
      (id : Text) (ids : List Text) (s : State) (rest : Option (List (Text × ℕ) × List Text))
      → Surveyed s ids rest
      → Surveyed s
          (id ∷ ids)
          (elim rest [ none ↦ none | some (live, stale) ↦ some (live, id ∷ stale) ])
  unfolding among
  stale-Surveyed id ids s none v = tt
  stale-Surveyed id ids s (some (live, stale)) v = record {
    listed = λ b n h. ground (arith, v.listed b n h);
    stored = v.stored;
    distinct = λ once. v.distinct once.1;
  }

  live-Surveyed :
      (id raw : Text) (sess : Session) (ids : List Text) (s : State)
      (rest : Option (List (Text × ℕ) × List Text))
      → value s (session_key id) ≡ some raw
      → unmarshal raw ≡ some sess
      → Surveyed s ids rest
      → Surveyed s (id ∷ ids) (elim rest [
        | none ↦ none
        | some (live, stale) ↦ some ((id, sess.created_at) ∷ live, stale)
      ])
  unfolding among lookup
  live-Surveyed id raw sess ids s none p q v = tt
  live-Surveyed id raw sess ids s (some (live, stale)) p q v = record {
    listed = λ b n h. elim (Bool-cases (text_eq id b)) [
      | inl m ↦ ground (arith, m)
      | inr m ↦ ground (arith, m, v.listed b n (ground (arith, m, h)))
    ];
    stored = λ b n h. elim (Bool-cases (text_eq id b)) [
      | inl m ↦
          let same : id ≡ b = (text_eq_iff id b).0 m in
          (
            raw,
            (sess, subst (λ t. value s (session_key t) ≡ some raw) same p, q, ground (arith, m, h)),
          )
      | inr m ↦ v.stored b n (ground (arith, m, h))
    ];
    distinct = λ once. (
      elim (Option-cases (lookup id live)) [
        | inl m ↦ m
        | inr (n, m) ↦ ground (arith, once.0, v.listed id n m)
      ],
      v.distinct once.1,
    );
  }

  pub survey-Surveyed : (ids : List Text) (s : State) → Surveyed s ids (survey st ids s)
  unfolding survey among lookup
  survey-Surveyed [] s = record {
    listed = λ b n h. ground (arith, h);
    stored = λ b n h. ground (arith, h);
    distinct = λ once. tt;
  }
  survey-Surveyed (id ∷ ids) s = elim (Result-cases (get (session_key id) s)) [
    | inr (e, p) ↦ rw (p, survey) tt
    | inl (found, p) ↦ elim (Option-cases found) [
      | inl q ↦
          rw (p, q, survey) (stale-Surveyed id ids s (survey st ids s) (survey-Surveyed ids s))
      | inr (raw, q) ↦ elim (Option-cases (unmarshal raw)) [
        | inl r ↦
            rw (p, q, r, survey) (stale-Surveyed id ids s (survey st ids s) (survey-Surveyed ids s))
        | inr (sess, r) ↦
            rw (p, q, r, survey)
              (live-Surveyed id raw sess ids s (survey st ids s)
                (sym (get_lem (session_key id) s found p) ∙ q) r (survey-Surveyed ids s))
      ]
    ]
  ]
