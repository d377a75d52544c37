-- ===== src/Rooms/Service.antt =====
-- internal/rooms/service.go: Service, over the table of rooms that internal/rooms/store.go queries.
use cb_back.Prelude.{
  ℕ, zero, suc, ◌+◌, ◌%◌, ◌≡◌, Option, none, some, List, [], ◌∷◌, ◌++◌, map, Text, codes, ltb,
  if◌then◌else◌, length, null,
}
use cb_back.Prelude.Strings.{trim_space}
use cb_back.Prelude.Results.{Result, done, failed}

pub record Room : Type 0 where
  pub id : Text
  pub slug : Text
  pub name : Text
  pub created_by : Text

pub data Failure : Type 0 where
  invalid_name : Failure
  slug_taken : Failure
  not_found : Failure
  no_slug : Failure
  broken : Failure

-- The table, whose slugs a unique index keeps apart.
pub record Table : Type 1 where
  pub State : Type 0
  pub insert : Text → Text → Text → State → Result Failure Room × State
  pub select : Text → State → Result Failure Room
  pub select_all : ℕ → State → Result Failure (List Room)
  pub delete : Text → State → Result Failure (Unit {0}) × State
  pub insert_lem :
      (user slug name : Text) (s : State) (room : Room)
      → (insert user slug name s).0 ≡ done room
      → (room.slug ≡ slug) × (room.name ≡ name)

-- crypto/rand.Read by the number of the call, which fills a buffer of the size; strings.ToLower.
pub record Env : Type 0 where
  pub rand : ℕ → ℕ → Option (List ℕ)
  pub length-rand : (n size : ℕ) (bytes : List ℕ) → rand n size ≡ some bytes → length bytes ≡ size
  pub to_lower : Text → Text

abbrev pub max_name_length : ℕ
max_name_length = 100

abbrev pub list_limit : ℕ
list_limit = 100

abbrev pub slug_attempts : ℕ
slug_attempts = 5

abbrev pub slug_alphabet : Text
slug_alphabet = codes "bcdfghjkmnpqrstvwxz23456789"

-- The character at an index; the code keeps the index in range.
unfoldable pub char_at : Text → ℕ → ℕ
char_at [] i = 0
char_at (c ∷ s) zero = c
char_at (c ∷ s) (suc i) = char_at s i

abbrev pub letter : ℕ → ℕ
letter b = char_at slug_alphabet (b % 27)

-- A dash between the groups.
abbrev pub join : List Text → Text
join [] = []
join (group ∷ []) = group
join (group ∷ (next ∷ groups)) = group ++ 45 ∷ join (next ∷ groups)

module _ (e : Env) where
  open e use {rand, to_lower}

  -- The groups of the sizes, from the calls of `rand` from a number on.
  unfoldable pub generate_groups : ℕ → List ℕ → Option (List Text)
  generate_groups n [] = some []
  generate_groups n (size ∷ sizes) =
      let rest = generate_groups (suc n) sizes in
      elim (rand n size) [
        | none ↦ none
        | some bytes ↦ elim rest [ none ↦ none | some groups ↦ some (map letter bytes ∷ groups) ]
      ]

  unfoldable pub generate_slug : ℕ → Option Text
  generate_slug n = elim (generate_groups n (3 ∷ 4 ∷ 4 ∷ [])) [
    | none ↦ none
    | some groups ↦ some (join groups)
  ]

  module _ (t : Table) where
    open t use {State, insert, select, select_all, delete}

    -- The loop of `create`, over the attempts that are left.
    unfoldable pub create_attempts : ℕ → ℕ → Text → Text → State → Result Failure Room × State
    create_attempts zero n user name s = (failed no_slug, s)
    create_attempts (suc attempts) n user name s = elim (generate_slug n) [
      | none ↦ (failed broken, s)
      | some slug ↦
          let (inserted, s') = insert user slug name s in
          let retried = create_attempts attempts (n + 3) user name s' in
          elim inserted [
            | done room ↦ (done room, s')
            | failed slug_taken ↦ retried
            | failed other ↦ (failed other, s')
          ]
    ]

    abbrev pub name_of : Text → Text
    name_of name = if null (trim_space name) then codes "New room" else trim_space name

    unfoldable pub create : ℕ → Text → Text → State → Result Failure Room × State
    create n user name s =
        if ltb max_name_length (length (name_of name))
        then (failed invalid_name, s)
        else create_attempts slug_attempts n user (name_of name) s

    abbrev pub by_slug : Text → State → Result Failure Room
    by_slug slug s = select (to_lower (trim_space slug)) s

    abbrev pub delete_room : Text → State → Result Failure (Unit {0}) × State
    delete_room slug s = delete (to_lower (trim_space slug)) s

    abbrev pub list_rooms : State → Result Failure (List Room)
    list_rooms s = select_all list_limit s
