-- ===== src/Config/Load.antt =====
-- internal/config/config.go: Load and its parsers. Durations are in nanoseconds.
use cb_back.Prelude.{
  ℕ, zero, suc, ◌*◌, Bool, true, false, not, Option, none, some, List, [], ◌∷◌, ◌++◌, Text, codes,
  ltb, if◌then◌else◌, null,
}
use cb_back.Prelude.Int.{ℤ, pos, negsuc}
use cb_back.Prelude.Strings.{trim_space, split}
use cb_back.Prelude.Results.{Result, done, failed}

-- slog.Level's UnmarshalText, strconv.ParseBool and time.ParseDuration, and os.Getenv, by which a
-- variable that is not set is empty.
pub record Env : Type 0 where
  pub getenv : Text → Text
  pub read_level : Text → Option ℤ
  pub read_bool : Text → Option Bool
  pub read_duration : Text → Option ℤ

pub record Config : Type 0 where
  pub addr : Text
  pub log_level : ℤ
  pub allowed_origins : Text
  pub trust_proxy : Bool
  pub database_url : Text
  pub redis_url : Text
  pub cookie_name : Text
  pub cookie_domain : Text
  pub cookie_secure : Bool
  pub session_idle_ttl : ℕ
  pub session_absolute_ttl : ℕ
  pub ws_ticket_ttl : ℕ
  pub turn_secret : Text
  pub turn_urls : List Text
  pub turn_credential_ttl : ℕ

-- What can be wrong, with the variable that it is about.
pub data Problem : Type 0 where
  bad_value : Text → Problem
  not_positive : Text → Problem
  turn_half_set : Problem
  missing : Text → Problem
  idle_exceeds_absolute : Problem

abbrev second : ℕ
second = 1000000000

abbrev hour : ℕ
hour = 3600000000000

-- The trimmed entries that are not empty.
unfoldable pub entries : List Text → List Text
entries [] = []
entries (v ∷ vs) = if null (trim_space v) then entries vs else trim_space v ∷ entries vs

abbrev pub split_csv : Text → List Text
split_csv raw = entries (split 44 raw)

module _ (e : Env) where
  open e use {getenv, read_level, read_bool, read_duration}

  abbrev pub env_or : Text → Text → Text
  env_or key fallback = let v = trim_space (getenv key) in if not (null v) then v else fallback

  -- Each parser gives the value it falls back to along with the problem.
  unfoldable pub parse_level : Text → ℤ × List Problem
  parse_level raw = elim (read_level raw) [
    | none ↦ (pos 0, bad_value (codes "LOG_LEVEL") ∷ [])
    | some level ↦ (level, [])
  ]

  unfoldable pub parse_bool : Text → Bool → Bool × List Problem
  parse_bool key fallback =
      let raw = trim_space (getenv key) in
      if null raw
      then (fallback, [])
      else elim (read_bool raw) [ none ↦ (fallback, bad_value key ∷ []) | some v ↦ (v, []) ]

  unfoldable pub parse_duration : Text → ℕ → ℕ × List Problem
  parse_duration key fallback =
      let raw = trim_space (getenv key) in
      if null raw then (fallback, []) else elim (read_duration raw) [
        | none ↦ (fallback, bad_value key ∷ [])
        | some (negsuc n) ↦ (fallback, not_positive key ∷ [])
        | some (pos zero) ↦ (fallback, not_positive key ∷ [])
        | some (pos (suc n)) ↦ (suc n, [])
      ]

  abbrev pub level : ℤ × List Problem
  level = parse_level (env_or (codes "LOG_LEVEL") (codes "info"))

  abbrev pub secure : Bool × List Problem
  secure = parse_bool (codes "COOKIE_SECURE") true

  abbrev pub proxy : Bool × List Problem
  proxy = parse_bool (codes "TRUST_PROXY") false

  abbrev pub idle : ℕ × List Problem
  idle = parse_duration (codes "SESSION_IDLE_TTL") (168 * hour)

  abbrev pub absolute : ℕ × List Problem
  absolute = parse_duration (codes "SESSION_ABSOLUTE_TTL") (720 * hour)

  abbrev pub credential : ℕ × List Problem
  credential = parse_duration (codes "TURN_CREDENTIAL_TTL") (24 * hour)

  -- The Config as it stands when the checks begin.
  abbrev pub settings : Config
  settings = record {
    addr = env_or (codes "ADDR") (codes ":8080");
    log_level = level.0;
    allowed_origins = getenv (codes "ALLOWED_ORIGINS");
    trust_proxy = proxy.0;
    database_url = getenv (codes "DATABASE_URL");
    redis_url = getenv (codes "REDIS_URL");
    cookie_name = env_or (codes "SESSION_COOKIE_NAME") (codes "cb_session");
    cookie_domain = getenv (codes "SESSION_COOKIE_DOMAIN");
    cookie_secure = secure.0;
    session_idle_ttl = idle.0;
    session_absolute_ttl = absolute.0;
    ws_ticket_ttl = 30 * second;
    turn_secret = env_or (codes "TURN_SECRET") [];
    turn_urls = split_csv (getenv (codes "TURN_URLS"));
    turn_credential_ttl = credential.0;
  }

-- `collect` of an error under a condition.
abbrev pub unless : Bool → Problem → List Problem
unless true p = []
unless false p = p ∷ []

abbrev pub same : Bool → Bool → Bool
same true b = b
same false b = not b

-- The errors in the order of collection.
abbrev pub joined : List (List Problem) → List Problem
joined [] = []
joined (ps ∷ pss) = ps ++ joined pss

-- The checks across settings.
abbrev pub cross_checks : Config → List Problem
cross_checks c = joined (
    unless (same (null c.turn_secret) (null c.turn_urls)) turn_half_set
    ∷ unless (not (null (trim_space c.database_url))) (missing (codes "DATABASE_URL"))
    ∷ unless (not (null (trim_space c.redis_url))) (missing (codes "REDIS_URL"))
    ∷ unless (not (ltb c.session_absolute_ttl c.session_idle_ttl)) idle_exceeds_absolute
    ∷ [])

abbrev pub problems : Env → List Problem
problems e = joined (
    (level e).1
    ∷ (secure e).1
    ∷ (proxy e).1
    ∷ (idle e).1
    ∷ (absolute e).1
    ∷ (credential e).1
    ∷ cross_checks (settings e)
    ∷ [])

unfoldable pub load : Env → Result (List Problem) Config
load e = if null (problems e) then done (settings e) else failed (problems e)
