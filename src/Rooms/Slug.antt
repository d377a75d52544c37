-- ===== src/Rooms/Slug.antt =====
-- internal/rooms/service.go: a new room has a slug of the form that internal/invites checks.
use cb_back.Prelude.{◌≡◌, true, Text}
use cb_back.Invites.Patterns.{slug_pattern}
use cb_back.Rooms.Service.{Room, Table, Env}

module _ (e : Env) where
  open e use {rand, length-rand}

  module _ (t : Table) where
    open t use {State, insert, insert_lem}

    -- What a created room is.
    abbrev pub IsNew : Text → Room → Type 0
    IsNew name room = (slug_pattern room.slug ≡ true) × (room.name ≡ name)
