-- ===== src/Auth/Sessions/RevokeAll.antt =====
-- internal/auth/sessions.go: what RevokeAllForUser leaves of the sessions of a user.
use cb_back.Prelude.{
  ℕ, ◌≡◌, sym, subst, ◌∙◌, true, false, none, List, [], ◌∷◌, map, Text, text_eq, text_eq_refl,
  text_eq_iff, arith, Bool-cases, inl, inr,
}
use cb_back.Prelude.Strings.{among}
use cb_back.Prelude.Results.{done}
use cb_back.Prelude.Stateful.{Succeeds, Succeeds-bind, Succeeds-done, done-Succeeds}
use cb_back.Auth.Redis.{written, written_all}
use cb_back.Auth.Sessions.{
  Store, session_key, user_index, others, kept, keep_id, revoke_all_for_user, read, revocation,
  revoke_listed,
}
use cb_back.Auth.Sessions.Revocation.{IsGone}

others_lem :
    (keep id : Text) (ids : List Text)
    → among ids id ≡ true
    → text_eq id keep ≡ false
    → among (map session_key (others keep ids)) (session_key id) ≡ true
unfolding among others text_eq
others_lem keep id [] h n = ground (arith, h)
others_lem keep id (j ∷ ids) h n = elim (Bool-cases (text_eq j id)) [
  | inl p ↦
      let same : j ≡ id = (text_eq_iff j id).0 p in
      subst (λ x. among (map session_key (others keep (x ∷ ids))) (session_key id) ≡ true)
        (sym same) (ground (arith, n, text_eq_refl id))
  | inr p ↦ ground (arith, h, p, others_lem keep id ids)
]

module _ (st : Store) where
  open st use {redis, absolute_ttl}
  open redis use {State, value, set_at, s_members, exec, exec_lem, s_members_lem}

  -- The deletion comes first, and nothing after it writes a string.
  written_lem :
      (user : Text) (keys remaining : List Text) (k : Text) (s : State)
      → among keys k ≡ true
      → written_all (revocation st user keys remaining) k (value s k) ≡ none
  unfolding written_all written among
  written_lem user [] remaining k s h = ground (arith, h)
  written_lem user (j ∷ keys) [] k s h = ground (arith, h)
  written_lem user (j ∷ keys) (r ∷ remaining) k s h = ground (arith, h)

  -- Of the ids of the user's index as it stood, none but the kept one has a session.
  abbrev IsCleared : Text → Text → State → State → Type 0
  IsCleared user keep s s' =
      (id : Text)
      → among (set_at s (user_index user)) id ≡ true
      → text_eq id keep ≡ false
      → IsGone st id s'

  listed-IsCleared :
      (user keep : Text) (ids : List Text) (s s' : State)
      → ids ≡ set_at s (user_index user)
      → Succeeds (λ _ s''. IsCleared user keep s s'') (revoke_listed st user keep ids s')
  unfolding revoke_listed
  listed-IsCleared user keep ids s s' h =
      let cs = revocation st user (map session_key (others keep ids)) (kept keep ids) in
      Succeeds-bind (λ _ s''. IsCleared user keep s s'') _ (exec cs) _ s'
        (done-Succeeds (λ _ s''. IsCleared user keep s s'') (exec cs s')
          λ a p id m n.
            exec_lem cs s' (session_key id) p
            ∙ written_lem user (map session_key (others keep ids)) (kept keep ids) (session_key id)
                s' (others_lem keep id ids (subst (λ x. among x id ≡ true) (sym h) m) n))
        (λ a s'' c. c)

  -- A revocation of all sessions of a user that reports no error leaves no session under any id of
  -- the user's index, but for the one of the excepted token.
  pub revoke_all-IsGone :
      (user except id : Text) (n : ℕ) (s : State)
      → (revoke_all_for_user st user except s).0 ≡ done n
      → among (set_at s (user_index user)) id ≡ true
      → text_eq id (keep_id st except) ≡ false
      → IsGone st id (revoke_all_for_user st user except s).1
  unfolding revoke_all_for_user
  revoke_all-IsGone user except id n s h m d =
      let listed = revoke_listed st user (keep_id st except) in
      Succeeds-done (λ _ s''. IsCleared user (keep_id st except) s s'')
        (revoke_all_for_user st user except s) n
        (Succeeds-bind (λ ids s'. ids ≡ set_at s (user_index user)) _
          (read st (s_members (user_index user))) listed s
          (done-Succeeds (λ ids s'. ids ≡ set_at s (user_index user))
            (read st (s_members (user_index user)) s)
            λ ids p. s_members_lem (user_index user) s ids p)
          (λ ids s' p. listed-IsCleared user (keep_id st except) ids s s' p))
        h id m d
