-- ===== src/Auth/Middleware/Accepted.antt =====
-- internal/auth/middleware.go: Require passes on a request with a session that was issued.
use cb_back.Prelude.{[], ◌+◌, ℕ, ◌≤◌, ◌≡◌, refl, sym, ◌∙◌, subst, ap, false, null, Option, Text}
use cb_back.Prelude.Results.{done}
use cb_back.Auth.Users.{User}
use cb_back.Auth.Sessions.{
  redeem_ws_ticket, issue_ws_ticket, ticket_key, Session, create, find, session_key, new_session,
}
use cb_back.Auth.Sessions.Newest.{IsLatest}
use cb_back.Auth.Sessions.Issue.{
  redeem_stored, issue_stores, IsRecord, stored, create_stores, find_stored,
}
use cb_back.Auth.Middleware.{
  ticket_user, authenticate_ws, Request, Service, passed, token_from, identity_of, identify, answer,
  require,
}

module _ (v : Service) where
  open v use {sessions, by_id}
  open (sessions.redis) use {State, value, get, get_del}

  found_passes :
      (r : Request) (now : ℕ) (s : State) (sess : Session) (u : User)
      → null (token_from v r) ≡ false
      → find sessions (token_from v r) now s ≡ (done sess, s)
      → by_id sess.user_id ≡ done u
      → (require v r now s).0 ≡ passed (record { user = u; session = sess; token = token_from v r })
  unfolding require identify identity_of answer
  found_passes r now s sess u n h k = rw (n, identify, h, identity_of, k, answer) refl

  module _ (token user ip agent payload : Text) (now : ℕ) (s : State) where
    -- A session that Create has issued, newer than the user's other ones, is accepted: until its
    -- absolute expiry, in any state in which Redis answers and still has what it had under the
    -- session's key, Require passes on a request that bears the token, with the user as the database
    -- has it, the session and the token.
    pub require-create :
        (e : Text × Session) (r : Request) (later : ℕ) (s' : State) (w : Option Text) (u : User)
        → IsRecord sessions (new_session sessions token user ip agent now) payload
        → IsLatest sessions user
            (sessions.hash_token token)
            now
            (stored sessions token user ip agent payload now s)
        → (create sessions (done token) user ip agent now s).0 ≡ done e
        → value s' (session_key (sessions.hash_token token))
          ≡ value
              (create sessions (done token) user ip agent now s).1
              (session_key (sessions.hash_token token))
        → get (session_key (sessions.hash_token token)) s' ≡ done w
        → by_id user ≡ done u
        → null token ≡ false
        → token_from v r ≡ e.0
        → later ≤ now + sessions.absolute_ttl
        → (require v r later s').0 ≡ passed (record { user = u; session = e.1; token = e.0 })
    require-create e r later s' w u k l h same up b n t a =
        let (issue, there) = create_stores sessions token user ip agent payload now s e k l h in
        let sess : Session = new_session sessions token user ip agent now in
        let key = session_key (sessions.hash_token token) in
        let bears : token_from v r ≡ token = t ∙ ap (λ (x : Text × Session). x.0) issue in
        let found : find sessions token later s' ≡ (done sess, s') =
          find_stored sessions token payload (record sess { id = [] }) later s' w up (same ∙ there)
            k.1 a in
        let found' : find sessions (token_from v r) later s' ≡ (done sess, s') =
          subst (λ x. find sessions x later s' ≡ (done sess, s')) (sym bears) found in
        let passes = found_passes r later s' sess u (ap null bears ∙ n) found' b in
        passes
        ∙ ap (λ (x : Text × Session). passed (record { user = u; session = x.1; token = x.0 }))
            (subst (λ x. (x, sess) ≡ e) (sym bears) (sym issue))

  -- A ticket that was issued lets its user through to a websocket: in any state that still has what it
  -- had under the ticket's key, and in which Redis takes it out, AuthenticateWS gives the user's id and
  -- name to a request with the ticket.
  pub authenticate-issue :
      (ticket user : Text) (s s' : State) (i : Text × ℕ) (w : Option Text) (u : User) (r : Request)
      (now : ℕ)
      → (issue_ws_ticket sessions (done ticket) user s).0 ≡ done i
      → value s' (ticket_key (sessions.hash_token ticket))
        ≡ value
            (issue_ws_ticket sessions (done ticket) user s).1
            (ticket_key (sessions.hash_token ticket))
      → (get_del (ticket_key (sessions.hash_token ticket)) s').0 ≡ done w
      → by_id user ≡ done u
      → null i.0 ≡ false
      → r.ticket ≡ i.0
      → (authenticate_ws v r now s').0 ≡ done (u.id, u.display_name)
  unfolding authenticate_ws ticket_user
  authenticate-issue ticket user s s' i w u r now h same taken b n t =
      let (issue, there) = issue_stores sessions ticket user s i h in
      let key = ticket_key (sessions.hash_token ticket) in
      let bears : r.ticket ≡ ticket = t ∙ issue in
      let nonempty : null r.ticket ≡ false = ap null t ∙ n in
      let redeemed : redeem_ws_ticket sessions r.ticket s' ≡ (done user, (get_del key s').1) =
        subst (λ x. redeem_ws_ticket sessions x s' ≡ (done user, (get_del key s').1)) (sym bears)
          (redeem_stored sessions ticket user s' w taken (same ∙ there)) in
      rw (nonempty, authenticate_ws, redeemed, ticket_user, b) refl
