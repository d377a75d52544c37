-- ===== src/Turn.antt =====
-- internal/turn/handlers.go: the credential that the relay accepts for a while.
pub mod Username
use cb_back.Prelude.{
  ℕ, ◌+◌, ◌/◌, Bool, true, false, Option, none, some, List, [], ◌∷◌, ◌++◌, Text, codes, null,
  if◌then◌else◌,
}
use cb_back.Prelude.Decimal.{print}

-- The secret and the lifetime, in nanoseconds; HMAC-SHA1 and base64 with padding.
pub record Handlers : Type 1 where
  pub secret : Text
  pub urls : List Text
  pub ttl : ℕ
  pub hmac : Text → Text → Text
  pub encode : Text → Text

pub record Credentials : Type 0 where
  pub urls : List Text
  pub username : Text
  pub credential : Text
  pub ttl : ℕ

pub data Reply : Type 0 where
  refused : ℕ → Text → Reply
  granted : Credentials → Reply

module _ (h : Handlers) where
  -- The second, since the epoch, at which a credential of this time expires.
  abbrev pub expiry : ℕ → ℕ
  expiry now = (now + h.ttl) / 1000000000

  abbrev pub username_of : ℕ → Text → Text
  username_of now user = print (expiry now) ++ 58 ∷ user

  unfoldable pub mint : ℕ → Text → Credentials
  mint now user = record {
    urls = h.urls;
    username = username_of now user;
    credential = h.encode (h.hmac h.secret (username_of now user));
    ttl = h.ttl / 1000000000;
  }

  -- `user` is the id of the session's user, if there is one.
  unfoldable pub credentials : ℕ → Option Text → Reply
  credentials now user = if null h.secret then refused 503 (codes "turn_disabled") else elim user [
    | none ↦ refused 401 (codes "unauthenticated")
    | some id ↦ granted (mint now id)
  ]
