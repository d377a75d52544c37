-- ===== src/Auth/Service/Errors.antt =====
-- internal/auth/service.go: why a call of the service fails, and which addresses it takes.
use cb_back.Prelude.{
  ℕ, Bool, false, not, ◌&&◌, Option, none, some, Text, text_eq, ltb, ◌==◌, null, if◌then◌else◌,
}
use cb_back.Prelude.Strings.{trim_space, cut, byte_length, count_char, ends_with}
use cb_back.Prelude.Results.{Result, done, failed}
use cb_back.Auth.Redis.{Error}
use cb_back.Auth.Password.{PasswordError}

-- `internal` and `bad_password` carry the error of a store and of a password function.
pub data Failure : Type 0 where
  rate_limited : ℕ → Failure
  invalid_credentials invalid_email invalid_display_name : Failure
  bad_password : PasswordError → Failure
  internal : Error → Failure

-- strings.ToLower, and mail.ParseAddress down to the name and the address.
pub record Addresses : Type 0 where
  pub to_lower : Text → Text
  pub parse_address : Text → Option (Text × Text)

module _ (a : Addresses) where
  open a use {to_lower, parse_address}

  abbrev pub normalize_email : Text → Text
  normalize_email raw = to_lower (trim_space raw)

  -- A local part, and a domain with a dot that is not at its end.
  abbrev pub has_domain : Option (Text × Text) → Bool
  has_domain none = false
  has_domain (some (front, domain)) =
      not (null front)
      && not (null domain)
      && not (count_char 46 domain == 0)
      && not (ends_with 46 domain)

  -- Only the bare address is accepted.
  abbrev pub is_bare : Text → Option (Text × Text) → Bool
  is_bare email none = false
  is_bare email (some (name, address)) = text_eq address email && null name

  abbrev pub is_email : Text → Bool
  is_email email =
      not (ltb (byte_length email) 3)
      && not (ltb 254 (byte_length email))
      && is_bare email (parse_address email)
      && count_char 64 email == 1
      && has_domain (cut 64 email)

  unfoldable pub validate_email : Text → Result Failure Text
  validate_email raw =
      if is_email (normalize_email raw) then done (normalize_email raw) else failed invalid_email
