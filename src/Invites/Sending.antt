-- ===== src/Invites/Sending.antt =====
-- internal/invites/handlers.go: what an invitation sends, and to whom.
use cb_back.Inbox.Hub.Remove.{IsWellFormed}
use cb_back.Inbox.Hub.Deliver.{deliver-Reached}
use cb_back.Prelude.{
  none, Option, arith, text_eq_iff, ◌≢◌, ℕ, ◌≡◌, refl, Bool, true, false, some, Text, text_eq,
  Bool-cases, Option-cases, inl, inr, [],
}
use cb_back.Prelude.Results.{Result, done, failed, Result-cases}
use cb_back.Prelude.Outcome.{Returns-mono, Returns-ok, Returns, Outcome, ok, ◌>>=◌}
use cb_back.Prelude.Strings.{trim_space}
use cb_back.Auth.Redis.{
  Error, session_not_found, ticket_not_found, user_not_found, user_disabled, email_taken,
  no_credentials, unavailable, bad_record,
}
use cb_back.Rooms.Service.{Room, Failure, invalid_name, slug_taken, not_found, no_slug, broken}
use cb_back.Inbox
use cb_back.Invites.Patterns.{slug_pattern, uuid_pattern}
use cb_back.Invites.Handler.{
  Services, World, Caller, Reply, refused, sent, notify, resolve, limited, handle, type_invite,
}

-- A delivery to the recipient of one event of the kind, about the slug, from the caller, to which the hub
-- reports the number and after which it is the hub that is given.
pub record IsDelivery (v : Services) (kind : Text) (caller : Caller) (recipient slug : Text)
    (hub : Inbox.Hub.Hub) (n : ℕ) (hub' : Inbox.Hub.Hub) : Type 0 where
  pub name : Text
  pub frame : Text
  pub encoded :
      v.marshal (record { type = kind; slug = slug; name = name; from = caller }) ≡ some frame
  pub delivered : Inbox.Hub.deliver v.inbox recipient frame hub ≡ ok (n, hub')

module _ (v : Services) (kind : Text) (caller : Caller) (recipient slug : Text)
    (hub : Inbox.Hub.Hub) (formed : IsWellFormed v.inbox hub) where
  open v use {counters, table, strings, inbox, by_id, marshal}

  abbrev Sent : Reply × World v → Type 0
  Sent (refused status code wait, w) = w.1 ≡ hub
  Sent (sent n, w) = IsDelivery v kind caller recipient slug hub n w.1

  abbrev Sends : Outcome (Reply × World v) → Type 0
  Sends = Returns Sent

  delivered-Sends :
      (name frame : Text) (limits : counters.State)
      → marshal (record { type = kind; slug = slug; name = name; from = caller }) ≡ some frame
      → Sends (Inbox.Hub.deliver inbox recipient frame hub >>= λ r. ok (sent r.0, (limits, r.1)))
  delivered-Sends name frame limits m =
      let (r, d, reached) =
        Returns-ok _ (Inbox.Hub.deliver inbox recipient frame hub)
          (deliver-Reached inbox recipient frame hub formed) in
      rw d (record { name = name; frame = frame; encoded = m; delivered = d })

  notify-Sends :
      (name : Text) (limits : counters.State)
      → Sends (notify v kind caller recipient slug name (limits, hub))
  unfolding notify
  notify-Sends name limits = elim (Result-cases (by_id recipient)) [
    | inr (e, p) ↦ refused_lem e p
    | inl (a, p) ↦
        elim (Option-cases
          (marshal (record { type = kind; slug = slug; name = name; from = caller }))) [
            | inl q ↦ rw (p, q, notify) refl
            | inr (frame, q) ↦ rw (p, q, notify) (delivered-Sends name frame limits q)
          ]
  ]
    where
      refused_lem :
          (e : Error)
          → by_id recipient ≡ failed e
          → Sends (notify v kind caller recipient slug name (limits, hub))
      refused_lem session_not_found p = rw (p, notify) refl
      refused_lem ticket_not_found p = rw (p, notify) refl
      refused_lem user_not_found p = rw (p, notify) refl
      refused_lem user_disabled p = rw (p, notify) refl
      refused_lem email_taken p = rw (p, notify) refl
      refused_lem no_credentials p = rw (p, notify) refl
      refused_lem unavailable p = rw (p, notify) refl
      refused_lem bad_record p = rw (p, notify) refl

  resolve-Sends :
      (room : Result Failure Room) (limits : counters.State)
      → Sends (resolve v kind caller recipient slug room (limits, hub))
  unfolding resolve
  resolve-Sends (done room) limits = notify-Sends room.name limits
  resolve-Sends (failed not_found) limits = elim (Bool-cases (text_eq kind type_invite)) [
    | inl p ↦ rw (p, resolve) refl
    | inr p ↦ rw (p, resolve) (notify-Sends [] limits)
  ]
  resolve-Sends (failed invalid_name) limits = refl
  resolve-Sends (failed slug_taken) limits = refl
  resolve-Sends (failed no_slug) limits = refl
  resolve-Sends (failed broken) limits = refl

  limited-Sends :
      (rooms : table.State) (answer : Result Error (Bool × ℕ)) (limits : counters.State)
      → Sends (limited v kind caller recipient slug rooms answer (limits, hub))
  unfolding limited
  limited-Sends rooms (failed e) limits = refl
  limited-Sends rooms (done (false, wait)) limits = refl
  limited-Sends rooms (done (true, wait)) limits = resolve-Sends _ limits

module _ (v : Services) where
  open v use {counters, table, strings}

  -- Who the body names, and the slug of the path, as the handler reads them.
  abbrev pub cleaned : Text → Text
  cleaned raw = strings.to_lower (trim_space raw)

  -- A refusal leaves the inbox hub as it was. Anything else is to an authenticated caller whose body
  -- named another user, of a well-formed id, and is one delivery to this user.
  abbrev pub IsAnswered :
      Text → Option Caller → Option Text → Text → Inbox.Hub.Hub → Reply × World v → Type 0
  IsAnswered kind caller body raw_slug hub (refused status code wait, w) = w.1 ≡ hub
  IsAnswered kind caller body raw_slug hub (sent n, w) =
      (c : Caller) × (user_id : Text) × (caller ≡ some c)
      × (body ≡ some user_id)
      × (uuid_pattern (cleaned user_id) ≡ true)
      × (slug_pattern (cleaned raw_slug) ≡ true)
      × (cleaned user_id ≢ c.id)
      × IsDelivery v kind c (cleaned user_id) (cleaned raw_slug) hub n w.1

  -- What passed the checks of the request.
  passed_lem :
      (kind : Text) (caller : Caller) (user_id raw_slug : Text) (hub : Inbox.Hub.Hub)
      (formed : IsWellFormed v.inbox hub) (x : Reply × World v)
      → uuid_pattern (cleaned user_id) ≡ true
      → slug_pattern (cleaned raw_slug) ≡ true
      → text_eq (cleaned user_id) caller.id ≡ false
      → Sent v kind caller (cleaned user_id) (cleaned raw_slug) hub formed x
      → IsAnswered kind (some caller) (some user_id) raw_slug hub x
  passed_lem kind caller user_id raw_slug hub formed (refused status code wait, w) p r q h = h
  passed_lem kind caller user_id raw_slug hub formed (sent n, w) p r q h = (
    caller,
    user_id,
    refl,
    refl,
    p,
    r,
    ground (arith, q, text_eq_iff (cleaned user_id) caller.id),
    h,
  )

  -- Whatever the request, the handler ends without a panic from a well-formed hub. A refusal leaves every
  -- connection of the inbox as it was; otherwise the request was authenticated, its body was decoded and
  -- named another user, and the handler makes one delivery, to this user, of one event of the kind, about
  -- the slug of the path, from the authenticated caller.
  pub handle-Sends :
      (kind : Text) (caller : Option Caller) (body : Option Text) (raw_slug : Text)
      (rooms : table.State) (w : World v)
      → IsWellFormed v.inbox w.1
      → Returns
          (IsAnswered kind caller body raw_slug w.1)
          (handle v kind caller body raw_slug rooms w)
  unfolding handle
  handle-Sends kind none body raw_slug rooms w formed = refl
  handle-Sends kind (some caller) none raw_slug rooms w formed = refl
  handle-Sends kind (some caller) (some user_id) raw_slug rooms w formed =
      elim (Bool-cases (uuid_pattern (cleaned user_id))) [
        | inr p ↦ rw (p, handle) refl
        | inl p ↦ elim (Bool-cases (text_eq (cleaned user_id) caller.id)) [
          | inl q ↦ rw (p, q, handle) refl
          | inr q ↦ elim (Bool-cases (slug_pattern (cleaned raw_slug))) [
            | inr r ↦ rw (p, q, r, handle) refl
            | inl r ↦
                rw (p, q, r, handle)
                  (Returns-mono (Sent v kind caller (cleaned user_id) (cleaned raw_slug) w.1 formed)
                    _ _
                    (limited-Sends v kind caller (cleaned user_id) (cleaned raw_slug) w.1 formed
                      rooms _ _)
                    (λ x h. passed_lem kind caller user_id raw_slug w.1 formed x p r q h))
          ]
        ]
      ]
