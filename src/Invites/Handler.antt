-- ===== src/Invites/Handler.antt =====
-- internal/invites/handlers.go: the handler of an invite, a cancel and a decline, over the limiter,
-- the rooms, the users and the inbox hub.
use cb_back.Prelude.{
  ℕ, Bool, true, false, not, Option, none, some, Text, codes, text_eq, if◌then◌else◌, ◌++◌, [],
}
use cb_back.Prelude.Strings.{trim_space}
use cb_back.Prelude.Results.{Result, done, failed}
use cb_back.Prelude.Outcome.{Outcome, ok, ◌>>=◌}
use cb_back.Auth.Redis.{Error, user_not_found, user_disabled}
use cb_back.Auth.RateLimiter.{Counters, Limit, allow}
use cb_back.Rooms.Service.{Table, Room, Failure, not_found, by_slug}
use cb_back.Rooms.Service
use cb_back.Inbox
use cb_back.Invites.Patterns.{slug_pattern, uuid_pattern}

abbrev pub type_invite : Text
type_invite = codes "invite"

abbrev pub type_invite_cancelled : Text
type_invite_cancelled = codes "invite-cancelled"

abbrev pub type_invite_declined : Text
type_invite_declined = codes "invite-declined"

abbrev pub per_sender : Limit
per_sender = record { requests = 30; window = 60000 }

pub record Caller : Type 0 where
  pub id : Text
  pub display_name : Text

-- The room's name is empty where the room is gone.
pub record Event : Type 0 where
  pub type : Text
  pub slug : Text
  pub name : Text
  pub from : Caller

-- An error with its status, its code and the wait that it asks for in milliseconds; or the number
-- of connections that took the event.
pub data Reply : Type 0 where
  refused : ℕ → Text → ℕ → Reply
  sent : ℕ → Reply

-- The services behind the handler: Redis, the table of rooms, the users by id, json.Marshal.
pub record Services : Type 1 where
  pub counters : Counters
  pub table : Table
  pub strings : Service.Env
  pub inbox : Inbox.Hub.Env
  pub by_id : Text → Result Error (Unit {0})
  pub marshal : Event → Option Text

module _ (v : Services) where
  open v use {counters, table, strings, inbox, by_id, marshal}

  -- What the handler changes: the limiter's counters and the inbox hub.
  abbrev pub World : Type 0
  World = counters.State × Inbox.Hub.Hub

  -- The end of the handler, with the room's name.
  unfoldable pub notify : Text → Caller → Text → Text → Text → World → Outcome (Reply × World)
  notify kind caller recipient slug name w = elim (by_id recipient) [
    | failed user_not_found ↦ ok (refused 404 (codes "user_not_found") 0, w)
    | failed user_disabled ↦ ok (refused 404 (codes "user_not_found") 0, w)
    | failed other ↦ ok (refused 500 (codes "internal_error") 0, w)
    | done found ↦
        elim (marshal (record { type = kind; slug = slug; name = name; from = caller })) [
          | none ↦ ok (refused 500 (codes "internal_error") 0, w)
          | some frame ↦
              Inbox.Hub.deliver inbox recipient frame w.1 >>= λ r. ok (sent r.0, (w.0, r.1))
        ]
  ]

  -- Only an invite needs the room to be there still.
  unfoldable pub resolve :
      Text → Caller → Text → Text → Result Failure Room → World → Outcome (Reply × World)
  resolve kind caller recipient slug (done room) w = notify kind caller recipient slug room.name w
  resolve kind caller recipient slug (failed not_found) w =
      if text_eq kind type_invite
      then ok (refused 404 (codes "room_not_found") 0, w)
      else notify kind caller recipient slug [] w
  resolve kind caller recipient slug (failed other) w =
      ok (refused 500 (codes "internal_error") 0, w)

  -- By what the limiter said.
  unfoldable pub limited :
      Text
      → Caller
      → Text
      → Text
      → table.State
      → Result Error (Bool × ℕ)
      → World
      → Outcome (Reply × World)
  limited kind caller recipient slug rooms (failed e) w =
      ok (refused 500 (codes "internal_error") 0, w)
  limited kind caller recipient slug rooms (done (false, wait)) w =
      ok (refused 429 (codes "rate_limited") wait, w)
  limited kind caller recipient slug rooms (done (true, wait)) w =
      resolve kind caller recipient slug (by_slug strings table slug rooms) w

  -- `caller` and `body` are there if the request passed the session check and its body was decoded.
  unfoldable pub handle :
      Text → Option Caller → Option Text → Text → table.State → World → Outcome (Reply × World)
  handle kind none body raw_slug rooms w = ok (refused 401 (codes "unauthenticated") 0, w)
  handle kind (some caller) none raw_slug rooms w = ok (refused 400 (codes "invalid_body") 0, w)
  handle kind (some caller) (some user_id) raw_slug rooms w =
      let recipient = strings.to_lower (trim_space user_id) in
      let slug = strings.to_lower (trim_space raw_slug) in
      let answer = allow counters (codes "invite:user:" ++ caller.id) per_sender w.0 in
      let rest = limited kind caller recipient slug rooms answer.0 (answer.1, w.1) in
      if not (uuid_pattern recipient)
      then ok (refused 400 (codes "invalid_user") 0, w)
      else if text_eq recipient caller.id
      then ok (refused 400 (codes "invalid_user") 0, w)
      else if not (slug_pattern slug)
      then ok (refused 404 (codes "room_not_found") 0, w)
      else rest
