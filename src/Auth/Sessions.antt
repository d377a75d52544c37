-- ===== src/Auth/Sessions.antt =====
-- internal/auth/sessions.go: SessionStore. Times and durations are in nanoseconds.
pub mod Revocation
pub mod Tickets
pub mod Lifetime
pub mod RevokeAll
pub mod Trimming
pub mod Absence
pub mod Survey
pub mod Newest
pub mod Issue
use cb_back.Prelude.{
  ℕ, zero, suc, ◌+◌, ◌-◌, ◌*◌, ◌≡◌, Bool, true, false, not, Option, none, some, List, [], ◌∷◌, ◌++◌,
  map, Text, text_eq, codes, ltb, leb, if◌then◌else◌, length, null,
}
use cb_back.Prelude.Int.{ℤ, pos, negsuc}
use cb_back.Prelude.Results.{Result, done, failed}
use cb_back.Prelude.Stateful.{Step, ◌>>=◌, pure, raise}
use cb_back.Auth.Redis.{
  Error, session_not_found, ticket_not_found, bad_record, Redis, Command, set, del, s_add, s_rem,
  expire,
}

pub record Session : Type 0 where
  pub id : Text
  pub user_id : Text
  pub created_at : ℕ
  pub expires_at : ℕ
  pub last_seen_at : ℕ
  pub ip : Text
  pub user_agent : Text

-- Redis, the hex of SHA-256, json.Marshal and json.Unmarshal, and the lifetimes.
pub record Store : Type 1 where
  pub redis : Redis
  pub hash_token : Text → Text
  pub marshal : Session → Option Text
  pub unmarshal : Text → Option Session
  pub idle_ttl : ℕ
  pub absolute_ttl : ℕ
  pub ticket_ttl : ℕ

abbrev pub session_key : Text → Text
session_key id = codes "sess:" ++ id

abbrev pub user_index : Text → Text
user_index user = codes "user_sess:" ++ user

abbrev pub ticket_key : Text → Text
ticket_key id = codes "ws_ticket:" ++ id

abbrev pub touch_granularity : ℕ
touch_granularity = 60000000000

abbrev pub max_sessions : ℕ
max_sessions = 20

-- a - b, which may be negative.
abbrev pub difference : ℕ → ℕ → ℤ
difference a b = if leb b a then pos (a - b) else negsuc (b - a - 1)

abbrev pub less : ℤ → ℕ → Bool
less (pos m) n = ltb m n
less (negsuc m) n = true

-- A user agent is the list of its bytes here, as len counts them.
abbrev pub truncate : Text → ℕ → Text
truncate [] n = []
truncate (c ∷ s) zero = []
truncate (c ∷ s) (suc n) = c ∷ truncate s n

-- The session that was created first; of several, the first of them in the list.
unfoldable pub oldest : Text × ℕ → List (Text × ℕ) → Text × ℕ
oldest o [] = o
oldest o (e ∷ es) = oldest (if ltb e.1 o.1 then e else o) es

unfoldable pub drop_entry : Text → List (Text × ℕ) → List (Text × ℕ)
drop_entry id [] = []
drop_entry id (e ∷ es) = if text_eq e.0 id then es else e ∷ drop_entry id es

-- The ids that are not kept.
unfoldable pub others : Text → List Text → List Text
others keep [] = []
others keep (id ∷ ids) = let rest = others keep ids in if text_eq id keep then rest else id ∷ rest

unfoldable pub kept : Text → List Text → List Text
kept keep [] = []
kept keep (id ∷ ids) = let rest = kept keep ids in if text_eq id keep then id ∷ rest else rest

module _ (st : Store) where
  open st use {redis, hash_token, marshal, unmarshal, idle_ttl, absolute_ttl, ticket_ttl}
  open redis use {State, get, s_members, exec, get_del}

  -- A read leaves the state as it is.
  abbrev pub read {ℓ} : {A : Type ℓ} → (State → Result Error A) → Step State Error A
  read r = λ s. (r s, s)

  abbrev pub ttl_for : Session → ℕ → ℤ
  ttl_for sess now =
      let remaining = difference sess.expires_at now in
      if less remaining idle_ttl then remaining else pos idle_ttl

  unfoldable pub revoke_by_id : Text → Text → Step State Error (Unit {0})
  revoke_by_id user id = exec (
      if null user
      then del (session_key id ∷ []) ∷ []
      else del (session_key id ∷ []) ∷ s_rem (user_index user) (id ∷ []) ∷ [])

  -- Which of the indexed sessions live, with their creation times, and which ids are stale. None
  -- where a read fails, at which the pruning stops.
  unfoldable pub survey : List Text → State → Option (List (Text × ℕ) × List Text)
  survey [] s = some ([], [])
  survey (id ∷ ids) s =
      let rest = survey ids s in
      elim (get (session_key id) s) [
        | failed e ↦ none
        | done none ↦ elim rest [ none ↦ none | some (live, stale) ↦ some (live, id ∷ stale) ]
        | done (some raw) ↦ elim (unmarshal raw) [
          | none ↦ elim rest [ none ↦ none | some (live, stale) ↦ some (live, id ∷ stale) ]
          | some sess ↦ elim rest [
            | none ↦ none
            | some (live, stale) ↦ some ((id, sess.created_at) ∷ live, stale)
          ]
        ]
      ]

  -- Deletes the oldest sessions, as many as are above the cap; gives the ids that it deleted.
  unfoldable pub evict_oldest : ℕ → List (Text × ℕ) → Step State Error (List Text)
  evict_oldest zero live = pure []
  evict_oldest (suc excess) [] = pure []
  evict_oldest (suc excess) (e ∷ es) = do
    let o = (oldest e es).0
    _ ← exec (del (session_key o ∷ []) ∷ [])
    dropped ← evict_oldest excess (drop_entry o (e ∷ es))
    pure (o ∷ dropped)

  -- Its errors are not reported.
  unfoldable pub trim_sessions : Text → State → State
  trim_sessions user s = elim (s_members (user_index user) s) [
    | failed e ↦ s
    | done ids ↦ if leb (length ids) max_sessions then s else elim (survey ids s) [
      | none ↦ s
      | some (live, stale) ↦
          let (dropped, s') = evict_oldest (length live - max_sessions) live s in
          elim dropped [
            | failed e ↦ s'
            | done ids' ↦
                if null (stale ++ ids')
                then s'
                else (exec (s_rem (user_index user) (stale ++ ids') ∷ []) s').1
          ]
    ]
  ]

  abbrev pub new_session : Text → Text → Text → Text → ℕ → Session
  new_session token user ip agent now = record {
    id = hash_token token;
    user_id = user;
    created_at = now;
    expires_at = now + absolute_ttl;
    last_seen_at = now;
    ip = ip;
    user_agent = truncate agent 512;
  }

  -- The pipeline that stores a session and indexes it.
  abbrev pub storing : Session → Text → ℕ → List Command
  storing sess payload now =
      set (session_key sess.id) payload (ttl_for sess now)
      ∷ s_add (user_index sess.user_id) (sess.id ∷ [])
      ∷ expire (user_index sess.user_id) (pos absolute_ttl)
      ∷ []

  -- `token` is the fresh random token, which may fail to come.
  unfoldable pub create :
      Result Error Text → Text → Text → Text → ℕ → Step State Error (Text × Session)
  create (failed e) user ip agent now = raise e
  create (done token) user ip agent now =
      let sess = new_session token user ip agent now in
      elim (marshal sess) [
        | none ↦ raise bad_record
        | some payload ↦ do
          _ ← exec (storing sess payload now)
          λ s. (done (token, sess), trim_sessions user s)
      ]

  -- Past its absolute expiry, a session is deleted and not found.
  abbrev pub expired : Text → Text → Step State Error Session
  expired user id = revoke_by_id user id >>= λ _. raise session_not_found

  -- `find` and `revoke` of the id, by what was read under its key.
  unfoldable pub find_read : Text → ℕ → Option Text → Step State Error Session
  find_read id now none = raise session_not_found
  find_read id now (some payload) = elim (unmarshal payload) [
    | none ↦ raise bad_record
    | some sess ↦
        if ltb sess.expires_at now then expired sess.user_id id else pure (record sess { id = id })
  ]

  unfoldable pub find : Text → ℕ → Step State Error Session
  find token now = read (get (session_key (hash_token token))) >>= find_read (hash_token token) now

  unfoldable pub touch : Session → ℕ → Step State Error (Unit {0})
  touch sess now =
      if ltb now (sess.last_seen_at + touch_granularity)
      then pure tt
      else let seen = record sess { last_seen_at = now } in
        elim (marshal seen) [
          | none ↦ raise bad_record
          | some payload ↦ exec (set (session_key sess.id) payload (ttl_for seen now) ∷ [])
        ]

  unfoldable pub revoke_read : Text → Option Text → Step State Error (Unit {0})
  revoke_read id none = pure tt
  revoke_read id (some payload) = elim (unmarshal payload) [
    | none ↦ exec (del (session_key id ∷ []) ∷ [])
    | some sess ↦ revoke_by_id sess.user_id id
  ]

  unfoldable pub revoke : Text → Step State Error (Unit {0})
  revoke token = read (get (session_key (hash_token token))) >>= revoke_read (hash_token token)

  abbrev pub keep_id : Text → Text
  keep_id except = if null except then [] else hash_token except

  -- The pipeline that deletes the keys and keeps only the remaining ids in the index.
  abbrev pub revocation : Text → List Text → List Text → List Command
  revocation user keys remaining =
      (if null keys then [] else del keys ∷ [])
      ++ del (user_index user ∷ [])
        ∷ (if null remaining
            then []
            else s_add (user_index user) remaining
              ∷ expire (user_index user) (pos absolute_ttl)
              ∷ [])

  -- With the ids of the index.
  unfoldable pub revoke_listed : Text → Text → List Text → Step State Error ℕ
  revoke_listed user keep ids = do
    let keys = map session_key (others keep ids)
    _ ← exec (revocation user keys (kept keep ids))
    pure (length keys)

  unfoldable pub revoke_all_for_user : Text → Text → Step State Error ℕ
  revoke_all_for_user user except =
      read (s_members (user_index user)) >>= revoke_listed user (keep_id except)

  unfoldable pub issue_ws_ticket : Result Error Text → Text → Step State Error (Text × ℕ)
  issue_ws_ticket (failed e) user = raise e
  issue_ws_ticket (done ticket) user = do
    _ ← exec (set (ticket_key (hash_token ticket)) user (pos ticket_ttl) ∷ [])
    pure (ticket, ticket_ttl)

  abbrev pub redeem_read : Option Text → Step State Error Text
  redeem_read none = raise ticket_not_found
  redeem_read (some user) = pure user

  unfoldable pub redeem_ws_ticket : Text → Step State Error Text
  redeem_ws_ticket ticket = get_del (ticket_key (hash_token ticket)) >>= redeem_read
