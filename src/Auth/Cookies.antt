-- ===== src/Auth/Cookies.antt =====
-- internal/auth/middleware.go: the session cookie.
pub mod Lifetime
use cb_back.Prelude.{
  ℕ, ◌+◌, ◌-◌, ◌/◌, Bool, true, false, not, ◌&&◌, Option, none, some, [], Text, codes, ltb, leb,
  ◌==◌, null, if◌then◌else◌,
}
use cb_back.Prelude.Int.{ℤ, pos, negsuc}
use cb_back.Auth.Middleware.{Request, Identity}

pub record Settings : Type 0 where
  pub cookie_name : Text
  pub cookie_domain : Text
  pub cookie_secure : Bool
  pub idle_ttl : ℕ

pub record Cookie : Type 0 where
  pub name : Text
  pub value : Text
  pub path : Text
  pub domain : Text
  pub expires : ℕ
  pub max_age : ℤ
  pub http_only : Bool
  pub secure : Bool
  pub same_site : Text

-- Whole seconds from one time to another, towards zero.
abbrev pub seconds_until : ℕ → ℕ → ℤ
seconds_until now t =
    if leb now t
    then pos ((t - now) / 1000000000)
    else if (now - t) / 1000000000 == 0
    then pos 0
    else negsuc ((now - t) / 1000000000 - 1)

-- The end of the idle window, or of the session if that is set and comes first. The zero time is 0.
abbrev pub expiry : Settings → ℕ → ℕ → ℕ
expiry s now session_expiry =
    if not (session_expiry == 0) && ltb session_expiry (now + s.idle_ttl)
    then session_expiry
    else now + s.idle_ttl

-- The clock is read twice: for the window, and later for the age.
unfoldable pub set_cookie : Settings → ℕ → ℕ → Text → ℕ → Cookie
set_cookie s now later token session_expiry = record {
  name = s.cookie_name;
  value = token;
  path = codes "/";
  domain = s.cookie_domain;
  expires = expiry s now session_expiry;
  max_age = seconds_until later (expiry s now session_expiry);
  http_only = true;
  secure = s.cookie_secure;
  same_site = codes "Lax";
}

-- Only a request that bears the cookie, and no Authorization header, gets it anew.
unfoldable pub refresh_cookie : Settings → ℕ → ℕ → Request → Identity → Option Cookie
refresh_cookie s now later r i = if not (null r.authorization) then none else elim r.cookie [
  | none ↦ none
  | some value ↦ some (set_cookie s now later i.token i.session.expires_at)
]

abbrev pub clear_cookie : Settings → Cookie
clear_cookie s = record {
  name = s.cookie_name;
  value = [];
  path = codes "/";
  domain = s.cookie_domain;
  expires = 0;
  max_age = negsuc 0;
  http_only = true;
  secure = s.cookie_secure;
  same_site = codes "Lax";
}
