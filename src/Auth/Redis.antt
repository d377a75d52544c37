-- ===== src/Auth/Redis.antt =====
-- github.com/redis/go-redis/v9 as internal/auth uses it: strings and sets under text keys.
use cb_back.Prelude.{
  false, ◌≡◌, ◌⊎◌, Option, none, some, List, [], ◌∷◌, Text, text_eq, if◌then◌else◌,
}
use cb_back.Prelude.Int.{ℤ}
use cb_back.Prelude.Strings.{among, IsOnce}
use cb_back.Prelude.Results.{Result, done}

-- Why a step of internal/auth fails; `unavailable` is Redis or the database out of reach.
pub data Error : Type 0 where
  session_not_found : Error
  ticket_not_found : Error
  user_not_found : Error
  user_disabled : Error
  email_taken : Error
  no_credentials : Error
  unavailable : Error
  bad_record : Error

-- SET with an expiry, DEL, SADD, SREM and EXPIRE.
pub data Command : Type 0 where
  set : Text → Text → ℤ → Command
  del : List Text → Command
  s_add : Text → List Text → Command
  s_rem : Text → List Text → Command
  expire : Text → ℤ → Command

-- The string under a key once a command was carried out, from what it was.
unfoldable pub written : Command → Text → Option Text → Option Text
written (set j v ttl) k old = if text_eq j k then some v else old
written (del js) k old = if among js k then none else old
written (s_add j ms) k old = old
written (s_rem j ms) k old = old
written (expire j ttl) k old = old

unfoldable pub written_all : List Command → Text → Option Text → Option Text
written_all [] k old = old
written_all (c ∷ cs) k old = written_all cs k (written c k old)

-- SMEMBERS has each member once. A state includes the time, so that a key whose expiry has passed has no string. Any call may fail
-- to reach the server; a pipeline that fails may have been carried out or not.
pub record Redis : Type 1 where
  pub State : Type 0
  pub value : State → Text → Option Text
  pub set_at : State → Text → List Text
  pub get : Text → State → Result Error (Option Text)
  pub s_members : Text → State → Result Error (List Text)
  pub exec : List Command → State → Result Error (Unit {0}) × State
  pub get_del : Text → State → Result Error (Option Text) × State
  pub get_lem : (k : Text) (s : State) (v : Option Text) → get k s ≡ done v → v ≡ value s k
  pub s_members_lem :
      (k : Text) (s : State) (ms : List Text) → s_members k s ≡ done ms → ms ≡ set_at s k
  pub exec_lem :
      (cs : List Command) (s : State) (k : Text)
      → (exec cs s).0 ≡ done tt
      → value (exec cs s).1 k ≡ written_all cs k (value s k)
  pub exec_any :
      (cs : List Command) (s : State) (k : Text)
      → (value (exec cs s).1 k ≡ written_all cs k (value s k)) ⊎ (value (exec cs s).1 k ≡ value s k)
  pub set_at-IsOnce : (s : State) (k : Text) → IsOnce (set_at s k)
  pub get_del_lem :
      (k : Text) (s : State) (v : Option Text)
      → (get_del k s).0 ≡ done v
      → (v ≡ value s k) × (value (get_del k s).1 k ≡ none)
  pub get_del_other :
      (k j : Text) (s : State) → text_eq k j ≡ false → value (get_del k s).1 j ≡ value s j
