-- ===== src/Rooms/Store.antt =====
-- internal/rooms/store.go: Store, over its statements as Postgres answers them. It is the table that
-- the service works with.
use cb_back.Prelude.{ℕ, ◌≡◌, List, Text, arith, if◌then◌else◌, ◌==◌, ap}
use cb_back.Prelude.Results.{Result, done, failed}
use cb_back.Auth.Users.{DbError, no_rows, unique_violation, other_error}
use cb_back.Rooms.Service.{Room, Failure, slug_taken, not_found, broken, Table}

-- A row that an INSERT returns is the one that it put in.
pub record Statements : Type 1 where
  pub State : Type 0
  pub insert_room : Text → Text → Text → State → Result DbError Room × State
  pub select_slug : Text → State → Result DbError Room
  pub delete_slug : Text → State → Result DbError ℕ × State
  pub select_newest : ℕ → State → Result DbError (List Room)
  pub insert_room_lem :
      (slug name user : Text) (s : State) (room : Room)
      → (insert_room slug name user s).0 ≡ done room
      → (room.slug ≡ slug) × (room.name ≡ name)

abbrev pub insertion : Result DbError Room → Result Failure Room
insertion (done room) = done room
insertion (failed unique_violation) = failed slug_taken
insertion (failed no_rows) = failed broken
insertion (failed other_error) = failed broken

abbrev pub selection : Result DbError Room → Result Failure Room
selection (done room) = done room
selection (failed no_rows) = failed not_found
selection (failed unique_violation) = failed broken
selection (failed other_error) = failed broken

abbrev pub deletion : Result DbError ℕ → Result Failure (Unit {0})
deletion (failed e) = failed broken
deletion (done affected) = if affected == 0 then failed not_found else done tt

abbrev pub listing : Result DbError (List Room) → Result Failure (List Room)
listing (failed e) = failed broken
listing (done rooms) = done rooms

pub insertion_lem :
    (r : Result DbError Room) (room : Room) → insertion r ≡ done room → r ≡ done room
insertion_lem (done made) room h = let same : made ≡ room = ground (arith, h) in ap done same
insertion_lem (failed unique_violation) room h = ground (arith, h)
insertion_lem (failed no_rows) room h = ground (arith, h)
insertion_lem (failed other_error) room h = ground (arith, h)

module _ (db : Statements) where
  open db use {State, insert_room, select_slug, delete_slug, select_newest}

  abbrev pub create_room : Text → Text → Text → State → Result Failure Room × State
  create_room user slug name s = let r = insert_room slug name user s in (insertion r.0, r.1)

  abbrev pub room_by_slug : Text → State → Result Failure Room
  room_by_slug slug s = selection (select_slug slug s)

  abbrev pub delete_by_slug : Text → State → Result Failure (Unit {0}) × State
  delete_by_slug slug s = let r = delete_slug slug s in (deletion r.0, r.1)

  abbrev pub list_newest : ℕ → State → Result Failure (List Room)
  list_newest limit s = listing (select_newest limit s)

  abbrev pub store_table : Table
  store_table = record {
    State = State;
    insert = create_room;
    select = room_by_slug;
    select_all = list_newest;
    delete = delete_by_slug;
    insert_lem = λ user slug name s room h.
        db.insert_room_lem slug name user s room (insertion_lem _ room h);
  }
