-- ===== src/Gateway/Sockets/Guard.antt =====
-- cmd/server/main.go: whose connections the two websocket endpoints serve.
use cb_back.Prelude.{
  codes, not, if◌then◌else◌, ℕ, ◌≡◌, refl, sym, subst, ap, Bool, true, false, some, null, Text,
  arith, Bool-cases, inl, inr,
}
use cb_back.Prelude.Results.{Result, done, failed}
use cb_back.Prelude.Stateful.{Succeeds}
use cb_back.Auth.Redis.{Error}
use cb_back.Auth.Middleware
use cb_back.Auth.Middleware.{authenticate_ws}
use cb_back.Auth.Middleware.Socket.{IsEntitled, authenticate-IsEntitled}
use cb_back.Http.Origin
use cb_back.Http.Origin.{OriginPolicy, allow}
use cb_back.Inbox.Connection
use cb_back.Inbox.Connection.{Conn}
use cb_back.Rooms.Service
use cb_back.Rooms.Service.{
  Failure, Room, Table, by_slug, not_found, invalid_name, slug_taken, no_slug, broken,
}
use cb_back.Signaling.Client.{
  Resolved, room, room_missing, resolve_failed, fails, upgrade_failed, refused, serves, going_away,
  serve_http,
}
use cb_back.Signaling.Hub.{Client}
use cb_back.Gateway.{Request, origin_part, session_part, resolve_room}
use cb_back.Gateway.Sockets.{upgraded, resolver, shaken, open_signaling, inbox_shaken, open_inbox}

-- What a handshake that serves a client was given.
abbrev IsGiven : Text × Text → Resolved → Bool → Bool → Client → Type 0
IsGiven who found up added c =
    (up ≡ true) × (added ≡ true) × (found ≡ room c.room_id) × ((c.user_id, c.display_name) ≡ who)

found-IsGiven :
    (user name : Text) (found : Resolved) (up added : Bool) (c : Client)
    → (elim found [
      | room_missing ↦ fails 404 (codes "room_not_found")
      | resolve_failed ↦ fails 500 (codes "internal_error")
      | room room_id ↦
          if not up
          then upgrade_failed
          else if not added
          then refused going_away (codes "server shutting down")
          else serves (record { user_id = user; display_name = name; room_id = room_id })
    ])
      ≡ serves c
    → IsGiven (user, name) found up added c
found-IsGiven user name room_missing up added c h = ground (arith, h)
found-IsGiven user name resolve_failed up added c h = ground (arith, h)
found-IsGiven user name (room id) false added c h = ground (arith, h)
found-IsGiven user name (room id) true false c h = ground (arith, h)
found-IsGiven user name (room id) true true c h =
    let same : record { user_id = user; display_name = name; room_id = id } ≡ c =
      ground (arith, h) in
    (
      refl,
      refl,
      ap (λ (d : Client). room d.room_id) same,
      ap (λ (d : Client). (d.user_id, d.display_name)) (sym same),
    )

serves-IsGiven :
    (who : Text × Text) (slug : Text) (resolve : Text → Resolved) (up added : Bool) (c : Client)
    → serve_http (some who) slug resolve up added ≡ serves c
    → IsGiven who (resolve slug) up added c
unfolding serve_http
serves-IsGiven (user, name) slug resolve up added c h = elim (Bool-cases (null slug)) [
  | inl p ↦ ground (arith, p, h)
  | inr p ↦ found-IsGiven user name (resolve slug) up added c (rw (p, serve_http) at h)
]

resolved_lem :
    (found : Result Failure Room) (id : Text)
    → resolve_room found ≡ room id
    → (r : Room) × (found ≡ done r) × (r.id ≡ id)
resolved_lem (done r) id h = (r, refl, ground (arith, h))
resolved_lem (failed not_found) id h = ground (arith, h)
resolved_lem (failed invalid_name) id h = ground (arith, h)
resolved_lem (failed slug_taken) id h = ground (arith, h)
resolved_lem (failed no_slug) id h = ground (arith, h)
resolved_lem (failed broken) id h = ground (arith, h)

module _ (o : Origin.Env) (policy : OriginPolicy) (v : Middleware.Service) where
  open v use {sessions}
  open (sessions.redis) use {State}

  module _ (n : Service.Env) (rooms : Table) (now : ℕ) (upgrades added : Bool) (r : Request) where
    -- The request's origin is allowed, the room is the one of the slug, and the name is entitled.
    pub record IsAdmitted (t : rooms.State) (slug : Text) (s s' : State) (c : Client) : Type 0 where
      pub origin : allow o policy (origin_part r) ≡ true
      pub found : Room
      pub stored : by_slug n rooms slug t ≡ done found
      pub in_room : c.room_id ≡ found.id
      pub entitled : IsEntitled v (session_part r) now s s' (c.user_id, c.display_name)

    shaken-IsAdmitted :
        (t : rooms.State) (slug : Text) (s : State) (x : Result Error (Text × Text) × State)
        (c : Client)
        → Succeeds (λ who s'. IsEntitled v (session_part r) now s s' who) x
        → (shaken o policy v n rooms now upgrades added r t slug x).0 ≡ serves c
        → IsAdmitted t slug s (shaken o policy v n rooms now upgrades added r t slug x).1 c
    unfolding serve_http
    shaken-IsAdmitted t slug s (failed e, s') c k h = ground (arith, h)
    shaken-IsAdmitted t slug s (done who, s') c k h =
        let g =
          serves-IsGiven who slug (resolver o policy v n rooms now upgrades added r t)
            (upgraded o policy v r upgrades) added c h in
        let (f, stored, here) = resolved_lem (by_slug n rooms slug t) c.room_id g.2 in
        record {
          origin = ground (arith, g.0);
          found = f;
          stored = stored;
          in_room = sym here;
          entitled = subst (IsEntitled v (session_part r) now s s') (sym g.3) k;
        }

    -- A client that the signaling endpoint serves is that of a request from an allowed origin, is in the
    -- room that is stored under the slug, and has the id and the name of the user whom a ticket of the
    -- request, which is spent now, was issued to, or whose live session the request comes with.
    pub open_signaling-IsAdmitted :
        (t : rooms.State) (slug : Text) (s : State) (c : Client)
        → (open_signaling o policy v n rooms now upgrades added r t slug s).0 ≡ serves c
        → IsAdmitted t slug s (open_signaling o policy v n rooms now upgrades added r t slug s).1 c
    unfolding open_signaling
    open_signaling-IsAdmitted t slug s c h =
        shaken-IsAdmitted t slug s (authenticate_ws v (session_part r) now s) c
          (authenticate-IsEntitled v (session_part r) now s) h

  -- The same without a room.
  pub record IsHeard (r : Request) (now : ℕ) (s s' : State) (c : Conn) : Type 0 where
    pub origin : allow o policy (origin_part r) ≡ true
    pub name : Text
    pub entitled : IsEntitled v (session_part r) now s s' (c.user_id, name)

  module _ (r : Request) (next now : ℕ) (upgrades added : Bool) where
    inbox-IsHeard :
        (s : State) (x : Result Error (Text × Text) × State) (c : Conn)
        → Succeeds (λ who s'. IsEntitled v (session_part r) now s s' who) x
        → (inbox_shaken o policy v r next upgrades added x).0 ≡ Connection.serves c
        → IsHeard r now s (inbox_shaken o policy v r next upgrades added x).1 c
    unfolding Connection.serve_http
    inbox-IsHeard s (failed e, s') c k h = ground (arith, h)
    inbox-IsHeard s (done (user, name), s') c k h = record {
      origin = ground (arith, h);
      name = name;
      entitled =
          subst (λ u. IsEntitled v (session_part r) now s s' (u, name))
            (ground (
              arith,
              h,
              Bool-cases (allow o policy (origin_part r)),
              Bool-cases upgrades,
              Bool-cases added,
            ))
            k;
    }

    -- A connection that the inbox serves is that of a request from an allowed origin, and of the user
    -- whom a ticket of the request, which is spent now, was issued to, or whose live session the
    -- request comes with.
    pub open_inbox-IsHeard :
        (s : State) (c : Conn)
        → (open_inbox o policy v r next now upgrades added s).0 ≡ Connection.serves c
        → IsHeard r now s (open_inbox o policy v r next now upgrades added s).1 c
    unfolding open_inbox
    open_inbox-IsHeard s c h =
        inbox-IsHeard s (authenticate_ws v (session_part r) now s) c
          (authenticate-IsEntitled v (session_part r) now s) h
