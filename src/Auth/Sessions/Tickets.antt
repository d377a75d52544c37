-- ===== src/Auth/Sessions/Tickets.antt =====
-- internal/auth/sessions.go: a websocket ticket is spent by its first use.
use cb_back.Prelude.{◌≡◌, ◌≢◌, Option, none, some, Text, arith}
use cb_back.Prelude.Results.{done}
use cb_back.Prelude.Stateful.{Succeeds, Succeeds-done, Succeeds-bind, done-Succeeds}
use cb_back.Auth.Sessions.{Store, ticket_key, redeem_ws_ticket, redeem_read}

module _ (st : Store) where
  open st use {redis, hash_token}
  open redis use {State, value, get_del, get_del_lem}

  redeem-read-Succeeds :
      (ticket : Text) (raw : Option Text) (s : State) (v : Option Text)
      → raw ≡ v
      → value s (ticket_key (hash_token ticket)) ≡ none
      → Succeeds
          (λ user s'. (v ≡ some user) × (value s' (ticket_key (hash_token ticket)) ≡ none))
          (redeem_read st raw s)
  redeem-read-Succeeds ticket none s v h g = tt
  redeem-read-Succeeds ticket (some id) s v h g = (ground (arith, h), g)

  pub redeem-Succeeds :
      (ticket : Text) (s : State)
      → Succeeds
          (λ user s'.
            (value s (ticket_key (hash_token ticket)) ≡ some user)
            × (value s' (ticket_key (hash_token ticket)) ≡ none))
          (redeem_ws_ticket st ticket s)
  unfolding redeem_ws_ticket
  redeem-Succeeds ticket s =
      let key = ticket_key (hash_token ticket) in
      Succeeds-bind (λ raw s'. (raw ≡ value s key) × (value s' key ≡ none)) _ (get_del key)
        (redeem_read st) s (done-Succeeds _ (get_del key s) λ raw h. get_del_lem key s raw h)
        (λ raw s' h. redeem-read-Succeeds ticket raw s' (value s key) h.0 h.1)

  -- A ticket that was redeemed without an error named its user, and it cannot be redeemed again.
  redeem_once :
      (ticket user again : Text) (s : State)
      → (redeem_ws_ticket st ticket s).0 ≡ done user
      → (value s (ticket_key (hash_token ticket)) ≡ some user)
        × ((redeem_ws_ticket st ticket (redeem_ws_ticket st ticket s).1).0 ≢ done again)
  redeem_once ticket user again s h =
      let (v, g) =
        Succeeds-done _ (redeem_ws_ticket st ticket s) user (redeem-Succeeds ticket s) h in
      (
        v,
        λ f.
            let (w, _) =
              Succeeds-done _ (redeem_ws_ticket st ticket (redeem_ws_ticket st ticket s).1) again
                (redeem-Succeeds ticket (redeem_ws_ticket st ticket s).1) f in
            ground (arith, w, g),
      )
