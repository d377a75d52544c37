-- ===== src/Auth/Middleware/Socket.antt =====
-- internal/auth/middleware.go: who AuthenticateWS lets through to a websocket.
use cb_back.Prelude.{ℕ, ◌≡◌, refl, true, false, ◌⊎◌, inl, inr, none, some, null, Text, Bool-cases}
use cb_back.Prelude.Results.{done, Result-cases}
use cb_back.Prelude.Stateful.{Succeeds, Succeeds-bind}
use cb_back.Auth.Users.{User}
use cb_back.Auth.Sessions.{ticket_key, redeem_ws_ticket}
use cb_back.Auth.Sessions.Tickets.{redeem-Succeeds}
use cb_back.Auth.Middleware.{Request, Service, Identity, identify, ticket_user, authenticate_ws}
use cb_back.Auth.Middleware.Guard.{IsAuthentic, identify-IsAuthentic}

module _ (v : Service) (r : Request) (now : ℕ) where
  open v use {sessions, by_id}
  open (sessions.redis) use {State, value}

  abbrev ticket : Text
  ticket = ticket_key (sessions.hash_token r.ticket)

  -- The user is the one that the request's ticket was issued to, which is spent now, or the one of
  -- the live session that the request comes with; as the database has it in either case.
  pub record IsEntitled (s s' : State) (who : Text × Text) : Type 0 where
    pub user : User
    pub named : who ≡ (user.id, user.display_name)
    pub by_right :
        ((id : Text) × (null r.ticket ≡ false)
          × (value s ticket ≡ some id)
          × (value s' ticket ≡ none)
          × (by_id id ≡ done user))
        ⊎ ((i : Identity) × (null r.ticket ≡ true) × (i.user ≡ user) × IsAuthentic v r now s i)

  ticket_user-IsEntitled :
      (s s' : State) (id : Text)
      → null r.ticket ≡ false
      → (value s ticket ≡ some id) × (value s' ticket ≡ none)
      → Succeeds (λ who s''. IsEntitled s s'' who) (ticket_user v id s')
  unfolding ticket_user
  ticket_user-IsEntitled s s' id n h = elim (Result-cases (by_id id)) [
    | inr (e, p) ↦ rw (p, ticket_user) tt
    | inl (user, p) ↦
        rw (p, ticket_user)
          (record { user = user; named = refl; by_right = inl (id, n, h.0, h.1, p) })
  ]

  pub authenticate-IsEntitled :
      (s : State) → Succeeds (λ who s'. IsEntitled s s' who) (authenticate_ws v r now s)
  unfolding authenticate_ws
  authenticate-IsEntitled s = elim (Bool-cases (null r.ticket)) [
    | inr n ↦
        rw (n, authenticate_ws)
          (Succeeds-bind _ (λ who s'. IsEntitled s s' who) (redeem_ws_ticket sessions r.ticket)
            (ticket_user v) s (redeem-Succeeds sessions r.ticket s)
            (λ id s' h. ticket_user-IsEntitled s s' id n h))
    | inl n ↦
        rw (n, authenticate_ws)
          (Succeeds-bind (λ i _. IsAuthentic v r now s i) (λ who s'. IsEntitled s s' who)
            (identify v r now) _ s (identify-IsAuthentic v r now s)
            (λ i s' a. record { user = i.user; named = refl; by_right = inr (i, n, refl, a) }))
  ]
