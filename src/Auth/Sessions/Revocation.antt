-- ===== src/Auth/Sessions/Revocation.antt =====
-- internal/auth/sessions.go: a revoked session is not found again.
use cb_back.Prelude.{
  ℕ, ◌≤◌, ◌≢◌, ◌≡◌, refl, sym, subst, ◌∙◌, Option, none, some, List, [], ◌∷◌, Text, text_eq_refl,
  ltb, arith, Bool-cases, Option-cases, inl, inr, null,
}
use cb_back.Prelude.Strings.{among}
use cb_back.Prelude.Results.{done}
use cb_back.Prelude.Stateful.{Succeeds, Succeeds-done, Succeeds-bind, done-Succeeds}
use cb_back.Auth.Redis.{Command, del, written, written_all}
use cb_back.Auth.Sessions.{
  Session, Store, read, revoke_read, find_read, session_key, revoke_by_id, expired, find, revoke,
}

module _ (st : Store) where
  open st use {redis, hash_token, unmarshal}
  open redis use {State, value, get, exec, get_lem, exec_lem}

  -- No session is stored under the id.
  abbrev pub IsGone : Text → State → Type 0
  IsGone id s = value s (session_key id) ≡ none

  exec-IsGone :
      (cs : List Command) (id : Text) (s : State)
      → written_all cs (session_key id) (value s (session_key id)) ≡ none
      → Succeeds (λ _ s'. IsGone id s') (exec cs s)
  exec-IsGone cs id s h = done-Succeeds _ _ λ a p. exec_lem cs s (session_key id) p ∙ h

  delete-IsGone :
      (id : Text) (cs : List Command) (s : State)
      → ((k : Text) → written_all cs k none ≡ none)
      → Succeeds (λ _ s'. IsGone id s') (exec (del (session_key id ∷ []) ∷ cs) s)
  unfolding written_all written among
  delete-IsGone id cs s h =
      exec-IsGone _ id s (rw (text_eq_refl (session_key id)) (h (session_key id)))

  revoke-by-id-IsGone :
      (user id : Text) (s : State) → Succeeds (λ _ s'. IsGone id s') (revoke_by_id st user id s)
  unfolding revoke_by_id written_all written
  revoke-by-id-IsGone user id s = elim (Bool-cases (null user)) [
    | inl p ↦ rw (p, revoke_by_id) (delete-IsGone id [] s (λ k. refl))
    | inr p ↦ rw (p, revoke_by_id) (delete-IsGone id _ s (λ k. refl))
  ]

  -- A read leaves the state, and what it reads is what is stored.
  read-Succeeds :
      (k : Text) (s : State) → Succeeds (λ v s'. (s' ≡ s) × (v ≡ value s' k)) (read st (get k) s)
  read-Succeeds k s =
      done-Succeeds (λ v s'. (s' ≡ s) × (v ≡ value s' k)) (read st (get k) s)
        λ v h. (refl, get_lem k s v h)

  revoke-read-IsGone :
      (id : Text) (raw : Option Text) (s : State)
      → raw ≡ value s (session_key id)
      → Succeeds (λ _ s'. IsGone id s') (revoke_read st id raw s)
  unfolding revoke_read written_all
  revoke-read-IsGone id none s h = sym h
  revoke-read-IsGone id (some payload) s h = elim (Option-cases (unmarshal payload)) [
    | inl p ↦ rw (p, revoke_read) (delete-IsGone id [] s (λ k. refl))
    | inr (sess, p) ↦ rw (p, revoke_read) (revoke-by-id-IsGone sess.user_id id s)
  ]

  pub revoke-IsGone :
      (token : Text) (s : State)
      → Succeeds (λ _ s'. IsGone (hash_token token) s') (revoke st token s)
  unfolding revoke
  revoke-IsGone token s =
      Succeeds-bind _ _ (read st (get _)) (revoke_read st (hash_token token)) s (read-Succeeds _ s)
        (λ raw s' h. revoke-read-IsGone (hash_token token) raw s' h.1)

  expired-Succeeds :
      (P : Session → State → Type 0) (user id : Text) (s : State)
      → Succeeds P (expired st user id s)
  expired-Succeeds P user id s =
      Succeeds-bind (λ _ _. Unit {0}) P (revoke_by_id st user id) _ s
        (done-Succeeds (λ _ _. Unit {0}) (revoke_by_id st user id s) λ a h. tt) (λ a s' h. tt)

  find-read-Succeeds :
      (id : Text) (now : ℕ) (raw : Option Text) (s : State)
      → raw ≡ value s (session_key id)
      → Succeeds
          (λ sess s'. (sess.id ≡ id) × (now ≤ sess.expires_at) × (value s (session_key id) ≢ none))
          (find_read st id now raw s)
  unfolding find_read
  find-read-Succeeds id now none s h = tt
  find-read-Succeeds id now (some payload) s h = elim (Option-cases (unmarshal payload)) [
    | inl p ↦ rw (p, find_read) tt
    | inr (sess, p) ↦ elim (Bool-cases (ltb sess.expires_at now)) [
      | inl q ↦ rw (p, q, find_read) (expired-Succeeds _ sess.user_id id s)
      | inr q ↦ rw (p, q, find_read) (refl, ground (arith, q), λ e. ground (arith, h, e))
    ]
  ]

  find-Succeeds :
      (token : Text) (now : ℕ) (s : State)
      → Succeeds
          (λ sess _.
            (sess.id ≡ hash_token token)
            × (now ≤ sess.expires_at)
            × (value s (session_key (hash_token token)) ≢ none))
          (find st token now s)
  unfolding find
  find-Succeeds token now s =
      Succeeds-bind _ _ (read st (get _)) (find_read st (hash_token token) now) s
        (read-Succeeds _ s)
        (λ raw s' h.
          subst
            (λ t.
              Succeeds
                (λ sess _.
                  (sess.id ≡ hash_token token)
                  × (now ≤ sess.expires_at)
                  × (value t (session_key (hash_token token)) ≢ none))
                (find_read st (hash_token token) now raw s'))
            h.0 (find-read-Succeeds (hash_token token) now raw s' h.1))

  -- A token is resolved only to the session under its own hash, only while that session is not past
  -- its absolute expiry, and only if a session is stored under that hash.
  pub find_lem :
      (token : Text) (now : ℕ) (s : State) (sess : Session)
      → (find st token now s).0 ≡ done sess
      → (sess.id ≡ hash_token token)
        × (now ≤ sess.expires_at)
        × (value s (session_key (hash_token token)) ≢ none)
  find_lem token now s sess h =
      Succeeds-done _ (find st token now s) sess (find-Succeeds token now s) h

  -- After a revocation that reports no error, the token is not resolved to a session, at any time.
  pub find-revoke :
      (token : Text) (now : ℕ) (s : State) (sess : Session)
      → (revoke st token s).0 ≡ done tt
      → (find st token now (revoke st token s).1).0 ≢ done sess
  find-revoke token now s sess h f =
      (find_lem token now (revoke st token s).1 sess f).2
        (Succeeds-done _ (revoke st token s) tt (revoke-IsGone token s) h)
