-- ===== src/Tests/Services.antt =====
-- Redis and the tables in memory, for the examples.
use cb_back.Prelude.{
  ℕ, suc, ◌+◌, ◌≡◌, refl, subst, zero, true, Option, none, some, List, [], ◌∷◌, Text, text_eq,
  text_eq_refl, if◌then◌else◌, arith, codes, length, leb, map, ◌&&◌, replicate, ◌%◌, ◌<◌, false,
  AllOf, inl,
}
use cb_back.Prelude.Int.{pos}
use cb_back.Prelude.Strings.{among, IsOnce}
use cb_back.Prelude.Results.{Result, done, failed}
use cb_back.Auth.Redis.{Error, Redis, written_all}
use cb_back.Auth.RateLimiter.{Counters}
use cb_back.Auth.Sessions.{Session, Store}
use cb_back.Auth.Users.{User, Database, DbError, no_rows}
use cb_back.Auth.Password.{Argon}
use cb_back.Auth.Service.{Backend}
use cb_back.Auth.Service.Errors.{Addresses}
use cb_back.Prelude.Base64.RoundTrip.{IsByte}
use cb_back.Rooms.Service.{Room, Failure, Table}
use cb_back.Rooms.Service

abbrev Strings : Type 0
Strings = Text → Option Text

abbrev without : Text → Strings → Strings
without k s = λ j. if text_eq k j then none else s j

pub without_lem : (k : Text) (s : Strings) → without k s k ≡ none
without_lem k s = rw (text_eq_refl k) refl

pub without_other :
    (k j : Text) (s : Text → Option Text) → text_eq k j ≡ false → without k s j ≡ s j
without_other k j s h = rw h refl

pub done_lem : (v w : Option Text) → ◌≡◌ {A = Result Error (Option Text)} (done w) (done v) → v ≡ w
done_lem v w h = ground (arith, h)

pub members_lem : (v w : List Text) → ◌≡◌ {A = Result Error (List Text)} (done w) (done v) → v ≡ w
members_lem v w h = ground (arith, h)

-- Strings only; every set is the given list, nothing expires and no call fails.
abbrev pub memory : (index : List Text) → IsOnce index → Redis
memory index once = record {
  State = Strings;
  value = λ s k. s k;
  set_at = λ s k. index;
  get = λ k s. done (s k);
  s_members = λ k s. done index;
  exec = λ cs s. (done tt, λ k. written_all cs k (s k));
  get_del = λ k s. (done (s k), without k s);
  get_lem = λ k s v h. done_lem v (s k) h;
  s_members_lem = λ k s ms h. members_lem ms index h;
  exec_lem = λ cs s k h. refl;
  exec_any = λ cs s k. inl refl;
  set_at-IsOnce = λ s k. once;
  get_del_lem = λ k s v h. (done_lem v (s k) h, without_lem k s);
  get_del_other = λ k j s h. without_other k j s h;
}

abbrev pub some_session : Session
some_session = record {
  id = [];
  user_id = codes "u1";
  created_at = 0;
  expires_at = 100;
  last_seen_at = 0;
  ip = [];
  user_agent = [];
}

-- Hashing is the identity, and every record decodes to the one session.
abbrev pub store_with : (index : List Text) → IsOnce index → Store
store_with index once = record {
  redis = memory index once;
  hash_token = λ t. t;
  marshal = λ s. some (codes "{}");
  unmarshal = λ t. some some_session;
  idle_ttl = 10;
  absolute_ttl = 100;
  ticket_ttl = 5;
}

pub two_ids-IsOnce : IsOnce (codes "tok" ∷ codes "old" ∷ [])
unfolding among text_eq
two_ids-IsOnce = (refl, (refl, tt))

abbrev pub store : Store
store = store_with [] tt

abbrev counted : Text → (Text → ℕ) → Text → ℕ
counted k s = λ j. if text_eq k j then suc (s k) else s j

pub counted_lem : (k : Text) (s : Text → ℕ) → counted k s k ≡ suc (s k)
counted_lem k s = rw (text_eq_refl k) refl

abbrev cleared : Text → (Text → ℕ) → Text → ℕ
cleared k s = λ j. if text_eq k j then 0 else s j

pub cleared_lem : (k : Text) (s : Text → ℕ) → cleared k s k ≡ 0
cleared_lem k s = rw (text_eq_refl k) refl

abbrev pub counters : Counters
counters = record {
  State = Text → ℕ;
  is_up = λ s. true;
  count = λ s k. s k;
  expires = λ s k. true;
  incr = λ k s. (suc (s k), counted k s);
  p_expire = λ k n s. s;
  p_ttl = λ k s. pos 7;
  del = cleared;
  incr_result = λ k s. refl;
  incr_count = counted_lem;
  incr_expires = λ k s. refl;
  p_expire_count = λ k n s w. refl;
  p_expire_expires = λ k n s w h. refl;
  del_count = cleared_lem;
}

abbrev new_room : Text → Text → Room
new_room slug name = record { id = codes "r1"; slug = slug; name = name; created_by = codes "u1" }

pub insert_lem :
    (slug name : Text) (room : Room)
    → ◌≡◌ {A = Result Failure Room} (done (new_room slug name)) (done room)
    → (room.slug ≡ slug) × (room.name ≡ name)
insert_lem slug name room h = ground (arith, h)

abbrev pub table : Table
table = record {
  State = Unit {0};
  insert = λ user slug name s. (done (new_room slug name), s);
  select = λ slug s. done (new_room slug (codes "Standup"));
  select_all = λ n s. done [];
  delete = λ slug s. (done tt, s);
  insert_lem = λ user slug name s room h. insert_lem slug name room h;
}

pub length-replicate : (n b : ℕ) → length {A = ℕ} (replicate n b) ≡ n
length-replicate zero b = refl
length-replicate (suc n) b = omega (arith, length-replicate n b)

pub rand_lem :
    (size : ℕ) (bytes : List ℕ) → some (replicate size 3) ≡ some bytes → length bytes ≡ size
rand_lem size bytes h =
    let same : replicate size 3 ≡ bytes = ground (arith, h) in
    subst (λ x. length x ≡ size) same (length-replicate size 3)

abbrev lower_char : ℕ → ℕ
lower_char c = if leb 65 c && leb c 90 then c + 32 else c

abbrev pub lower : Text → Text
lower s = map lower_char s

abbrev pub strings : Service.Env
strings = record {
  rand = λ n size. some (replicate size 3);
  length-rand = λ n size bytes h. rand_lem size bytes h;
  to_lower = lower;
}

-- One session is stored, of the token tok.
abbrev pub signed_in : Text → Option Text
signed_in k = if text_eq k (codes "sess:tok") then some (codes "{}") else none

abbrev pub ann : User
ann = record {
  id = codes "u1";
  email = codes "a@b.c";
  display_name = codes "Ann";
  email_verified = false;
  created_at = 0;
  is_disabled = false;
}

-- At most one account, with its hash.
abbrev Accounts : Type 0
Accounts = Option (User × Text)

abbrev by_email : Text → Accounts → Result DbError (User × Option Text)
by_email email none = failed no_rows
by_email email (some (u, hash)) =
    if text_eq email u.email then done (u, some hash) else failed no_rows

abbrev by_id : Accounts → Result DbError User
by_id none = failed no_rows
by_id (some (u, hash)) = done u

abbrev credential : Accounts → Result DbError Text
credential none = failed no_rows
credential (some (u, hash)) = done hash

abbrev with_hash : Text → Accounts → Accounts
with_hash hash none = some (ann, hash)
with_hash hash (some (u, old)) = some (u, hash)

pub begin_lem : (s t : Accounts) → ◌≡◌ {A = Result DbError Accounts} (done s) (done t) → t ≡ s
begin_lem s t h = ground (arith, h)

-- No statement fails.
abbrev pub accounts : Database
accounts = record {
  State = Accounts;
  begin = λ s. done s;
  insert_user = λ email name s. (done (record ann { email = email; display_name = name }), s);
  insert_credential = λ id hash s. (done tt, with_hash hash s);
  commit = λ t s. (done tt, t);
  select_by_email = by_email;
  select_by_id = λ id s. by_id s;
  select_contacts = λ id n s. done [];
  select_credential = λ id s. credential s;
  update_credential = λ id hash s. (done 1, with_hash hash s);
  insert_event = λ user email event ip agent s. (done tt, s);
  parse_ip = λ t. some t;
  begin_lem = begin_lem;
  commit_done = λ t s h. refl;
  commit_any = λ t s. inl refl;
}

pub replicate-IsByte : (n b : ℕ) → b < 256 → AllOf IsByte (replicate n b)
replicate-IsByte zero b h = tt
replicate-IsByte (suc n) b h = (h, replicate-IsByte n b h)

pub mod_lem : (n : ℕ) → n % 256 < 256
mod_lem n = omega arith

pub version_lem : 19 < 9223372036854775808
version_lem = omega arith

-- A key repeats the length of its password.
abbrev pub argon : Argon
argon = record {
  version = 19;
  id_key = λ password salt p. replicate p.key_length (length password % 256);
  to_lower = lower;
  version_small = version_lem;
  id-key-IsByte = λ password salt p. replicate-IsByte p.key_length _ (mod_lem (length password));
  length-id-key = λ password salt p. length-replicate p.key_length _;
}

abbrev pub addresses : Addresses
addresses = record { to_lower = lower; parse_address = λ t. some ([], t) }

abbrev pub backend_with : (index : List Text) → IsOnce index → Backend
backend_with index once = record {
  counters = counters;
  sessions = store_with index once;
  db = accounts;
  argon = argon;
  addresses = addresses;
}

abbrev pub backend : Backend
backend = backend_with [] tt
