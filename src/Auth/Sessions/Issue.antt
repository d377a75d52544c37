-- ===== src/Auth/Sessions/Issue.antt =====
-- internal/auth/sessions.go: a session that Create has issued is found by its token.
use cb_back.Prelude.Int.{pos}
use cb_back.Prelude.{
  ap, ◌∷◌, false, ℕ, ◌≤◌, ◌≡◌, refl, sym, ◌∙◌, subst, some, Option, [], Text, text_eq_refl, arith,
  ltb,
}
use cb_back.Prelude.Results.{done}
use cb_back.Prelude.Stateful.{resume_done, Succeeds-done, Succeeds-bind, done-Succeeds}
use cb_back.Auth.Redis.{set, written, written_all}
use cb_back.Auth.Sessions.{
  redeem_read, redeem_ws_ticket, issue_ws_ticket, ticket_key, Session, Store, session_key,
  new_session, storing, create, find, find_read,
}
use cb_back.Auth.Sessions.Newest.{IsLatest, trim_keeps}

module _ (st : Store) where
  open st use {redis, hash_token, marshal, unmarshal, ticket_ttl}
  open redis use {State, value, get, exec, exec_lem, get_lem, get_del, get_del_lem}

  -- The record as it is stored; the id is not a part of it.
  abbrev pub IsRecord : Session → Text → Type 0
  IsRecord sess payload =
      (marshal sess ≡ some payload) × (unmarshal payload ≡ some (record sess { id = [] }))

  written_storing :
      (sess : Session) (payload : Text) (now : ℕ) (old : Option Text)
      → written_all (storing st sess payload now) (session_key sess.id) old ≡ some payload
  unfolding written_all written
  written_storing sess payload now old = rw (text_eq_refl (session_key sess.id)) refl

  module _ (token user ip agent payload : Text) (now : ℕ) (s : State) where
    abbrev pub issued : Session
    issued = new_session st token user ip agent now

    -- What the store is once the session is stored, before it is trimmed.
    abbrev pub stored : State
    stored = (exec (storing st issued payload now) s).1

    pub create_stores :
        (r : Text × Session)
        → IsRecord issued payload
        → IsLatest st user (hash_token token) now stored
        → (create st (done token) user ip agent now s).0 ≡ done r
        → (r ≡ (token, issued))
          × (value (create st (done token) user ip agent now s).1 (session_key (hash_token token))
              ≡ some payload)
    unfolding create
    create_stores r k l h =
        let key = session_key (hash_token token) in
        let cs = storing st issued payload now in
        let Q : Text × Session → State → Type 0 =
          λ r s'. (r ≡ (token, issued)) × (value s' key ≡ some payload) in
        Succeeds-done Q (create st (done token) user ip agent now s) r
          (rw (k.0, create)
            (Succeeds-bind (λ _ s'. (s' ≡ stored) × (value s' key ≡ some payload)) Q (exec cs) _ s
              (done-Succeeds (λ _ s'. (s' ≡ stored) × (value s' key ≡ some payload)) (exec cs s)
                λ a p.
                  (refl, exec_lem cs s key p ∙ written_storing issued payload now (value s key)))
              (λ a s' p. (
                refl,
                trim_keeps st user (hash_token token) payload (record issued { id = [] }) s' p.1 k.1
                      (subst (IsLatest st user (hash_token token) now) (sym p.0) l)
                    ∙ p.1,
              ))))
          h

  pub find_stored :
      (token payload : Text) (sess : Session) (now : ℕ) (s : State) (v : Option Text)
      → get (session_key (hash_token token)) s ≡ done v
      → value s (session_key (hash_token token)) ≡ some payload
      → unmarshal payload ≡ some sess
      → now ≤ sess.expires_at
      → find st token now s ≡ (done (record sess { id = hash_token token }), s)
  unfolding find find_read
  find_stored token payload sess now s v h p q t =
      let found : v ≡ some payload = get_lem (session_key (hash_token token)) s v h ∙ p in
      let early : ltb sess.expires_at now ≡ false = ground (arith, t) in
      rw (h, found, find, q, find_read, early) refl

  -- A ticket that was issued is that of the caller, and it is stored for the user.
  pub issue_stores :
      (ticket user : Text) (s : State) (i : Text × ℕ)
      → (issue_ws_ticket st (done ticket) user s).0 ≡ done i
      → (i.0 ≡ ticket)
        × (value (issue_ws_ticket st (done ticket) user s).1 (ticket_key (hash_token ticket))
            ≡ some user)
  unfolding issue_ws_ticket written_all written
  issue_stores ticket user s i h =
      let key = ticket_key (hash_token ticket) in
      let cs = set key user (pos ticket_ttl) ∷ [] in
      let Q : Text × ℕ → State → Type 0 = λ i s'. (i.0 ≡ ticket) × (value s' key ≡ some user) in
      Succeeds-done Q (issue_ws_ticket st (done ticket) user s) i
        (Succeeds-bind (λ _ s'. value s' key ≡ some user) Q (exec cs) _ s
          (done-Succeeds (λ _ s'. value s' key ≡ some user) (exec cs s)
            λ a p. exec_lem cs s key p ∙ rw (text_eq_refl key) refl)
          (λ a s' p. (refl, p)))
        h

  -- A ticket that Redis has is redeemed.
  pub redeem_stored :
      (ticket user : Text) (s : State) (w : Option Text)
      → (get_del (ticket_key (hash_token ticket)) s).0 ≡ done w
      → value s (ticket_key (hash_token ticket)) ≡ some user
      → redeem_ws_ticket st ticket s ≡ (done user, (get_del (ticket_key (hash_token ticket)) s).1)
  unfolding redeem_ws_ticket
  redeem_stored ticket user s w h p =
      let key = ticket_key (hash_token ticket) in
      let found : w ≡ some user = (get_del_lem key s w h).0 ∙ p in
      resume_done (redeem_read st) (get_del key s) w h
      ∙ ap (λ x. redeem_read st x (get_del key s).1) found
