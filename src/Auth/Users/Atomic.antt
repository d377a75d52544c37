-- ===== src/Auth/Users/Atomic.antt =====
-- internal/auth/store.go: an account and its credential come into being together.
use cb_back.Prelude.{◌≡◌, refl, sym, ap, subst, ◌∙◌, ◌⊎◌, inl, inr, Text}
use cb_back.Prelude.Results.{Result, done, failed, Result-cases}
use cb_back.Auth.Redis.{Error}
use cb_back.Auth.Users.{Database, DbError, User, create, with_user, with_credential, committed}

module _ (db : Database) (email display_name hash : Text) (s : db.State) where
  open db use {
    State, insert_user, insert_credential, commit, begin, begin_lem, commit_done, commit_any,
  }

  -- The state that has the account and its credential: both inserts succeeded, one after the other.
  pub record IsComplete (u : User) (s' : State) : Type 0 where
    pub user_state : State
    pub user_inserted : insert_user email display_name s ≡ (done u, user_state)
    pub credential_inserted : insert_credential u.id hash user_state ≡ (done tt, s')

  -- Nothing has changed, or the account is there with its credential; and so it is on success.
  abbrev pub IsAtomic : Result Error User × State → Type 0
  IsAtomic (done u, s') = IsComplete u s'
  IsAtomic (failed e, s') = (s' ≡ s) ⊎ ((u : User) × IsComplete u s')

  committed-IsAtomic :
      (u : User) (t : State) (r : Result DbError (Unit {0}) × State)
      → IsComplete u t
      → commit t s ≡ r
      → IsAtomic (committed db u r)
  committed-IsAtomic u t (done a, s') c h =
      let reported : (commit t s).0 ≡ done a = ap (λ r. r.0) h in
      let same : t ≡ s' = sym (commit_done t s reported) ∙ ap (λ r. r.1) h in
      subst (IsComplete u) same c
  committed-IsAtomic u t (failed e, s') c h = elim (commit_any t s) [
    | inl p ↦ let same : t ≡ s' = sym p ∙ ap (λ r. r.1) h in inr (u, subst (IsComplete u) same c)
    | inr p ↦ inl (sym (ap (λ r. r.1) h) ∙ p)
  ]

  credential-IsAtomic :
      (u : User) (t : State) (r : Result DbError (Unit {0}) × State)
      → insert_user email display_name s ≡ (done u, t)
      → insert_credential u.id hash t ≡ r
      → IsAtomic (with_credential db u s r)
  unfolding with_credential
  credential-IsAtomic u t (failed e, t') i h = inl refl
  credential-IsAtomic u t (done a, t') i h =
      committed-IsAtomic u t' (commit t' s)
        record { user_state = t; user_inserted = i; credential_inserted = h } refl

  user-IsAtomic :
      (r : Result DbError User × State)
      → insert_user email display_name s ≡ r
      → IsAtomic (with_user db hash s r)
  unfolding with_user
  user-IsAtomic (failed e, t) h = inl refl
  user-IsAtomic (done u, t) h = credential-IsAtomic u t _ h refl

  -- However the statements of Create and its commit come out, the state is either as it was or has
  -- the account together with its credential, and it has them if Create reports success.
  pub create-IsAtomic : IsAtomic (create db email display_name hash s)
  unfolding create
  create-IsAtomic = elim (Result-cases (begin s)) [
    | inr (e, p) ↦ rw (p, create) (inl refl)
    | inl (t, p) ↦
        rw (p, create)
          (user-IsAtomic (insert_user email display_name t)
            (ap (insert_user email display_name) (sym (begin_lem s t p))))
  ]
