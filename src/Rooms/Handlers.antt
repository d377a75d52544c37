-- ===== src/Rooms/Handlers.antt =====
-- internal/rooms/handlers.go: what the endpoints for rooms reply. The user is the id of the request's
-- session, if it has one.
use cb_back.Prelude.{ℕ, Bool, true, false, Option, none, some, List, Text, codes}
use cb_back.Prelude.Results.{Result, done, failed}
use cb_back.Rooms.Service.{
  Room, Failure, invalid_name, not_found, Table, Env, create, by_slug, delete_room, list_rooms,
}

pub data Reply : Type 0 where
  refused : ℕ → Text → Reply
  one_room : ℕ → Room → Reply
  room_list : List Room → Reply
  no_content : Reply

abbrev pub creation_error : Failure → Reply
creation_error invalid_name = refused 400 (codes "invalid_name")
creation_error other = refused 500 (codes "internal_error")

abbrev pub slug_error : Failure → Reply
slug_error not_found = refused 404 (codes "room_not_found")
slug_error other = refused 500 (codes "internal_error")

-- The name in the body; a request without a body asks for none.
abbrev pub name_in : Bool → Option Text → Option Text
name_in false decoded = some (codes "")
name_in true decoded = decoded

module _ (e : Env) (t : Table) where
  open t use {State}

  abbrev pub created : Result Failure Room × State → Reply × State
  created (failed f, s) = (creation_error f, s)
  created (done room, s) = (one_room 201 room, s)

  abbrev pub create_named : ℕ → Text → Option Text → State → Reply × State
  create_named n user none s = (refused 400 (codes "invalid_body"), s)
  create_named n user (some name) s = created (create e t n user name s)

  -- `has_body` says that the length of the content is above 0, `decoded` is what its JSON gives.
  unfoldable pub handle_create :
      ℕ → Option Text → (has_body : Bool) → Option Text → State → Reply × State
  handle_create n none has_body decoded s = (refused 401 (codes "unauthenticated"), s)
  handle_create n (some user) has_body decoded s = create_named n user (name_in has_body decoded) s

  abbrev pub listed : Result Failure (List Room) → Reply
  listed (failed f) = refused 500 (codes "internal_error")
  listed (done rooms) = room_list rooms

  unfoldable pub handle_list : Option Text → State → Reply
  handle_list none s = refused 401 (codes "unauthenticated")
  handle_list (some user) s = listed (list_rooms e t s)

  abbrev pub deleted : Result Failure (Unit {0}) × State → Reply × State
  deleted (failed f, s) = (slug_error f, s)
  deleted (done a, s) = (no_content, s)

  unfoldable pub handle_delete : Option Text → Text → State → Reply × State
  handle_delete none slug s = (refused 401 (codes "unauthenticated"), s)
  handle_delete (some user) slug s = deleted (delete_room e t slug s)

  abbrev pub resolved : Result Failure Room → Reply
  resolved (failed f) = slug_error f
  resolved (done room) = one_room 200 room

  unfoldable pub handle_by_slug : Text → State → Reply
  handle_by_slug slug s = resolved (by_slug e t slug s)
