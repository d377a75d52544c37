-- ===== src/Auth/Password.antt =====
-- internal/auth/password.go: the policy for passwords, and their hashes.
pub mod Common
pub mod Encoding
pub mod RoundTrip
use cb_back.Prelude.{
  ℕ, ◌%◌, ◌<◌, ◌≡◌, Bool, true, false, not, ◌&&◌, ◌||◌, Option, none, some, List, [], ◌∷◌, ◌++◌,
  Text, text_eq, codes, ltb, ◌==◌, if◌then◌else◌, length, null, AllOf,
}
use cb_back.Prelude.Strings.{trim_space, split, among}
use cb_back.Prelude.Results.{Result, done, failed}
use cb_back.Prelude.Base64.{encode, decode}
use cb_back.Prelude.Base64.RoundTrip.{IsByte}
use cb_back.Auth.Password.Common.{common_passwords}
use cb_back.Auth.Password.Encoding.{Params, scan_version, print_version, scan_params, print_params}
use cb_back.Prelude.Int.{ℤ, pos, negsuc}

pub data PasswordError : Type 0 where
  too_short too_long not_allowed invalid_hash incompatible_hash no_salt cancelled : PasswordError

-- golang.org/x/crypto/argon2: its version, and IDKey, whose key has the length that is asked for;
-- strings.ToLower.
pub record Argon : Type 0 where
  pub version : ℕ
  pub id_key : Text → List ℕ → Params → List ℕ
  pub to_lower : Text → Text
  pub version_small : version < 9223372036854775808
  pub id-key-IsByte :
      (password : Text) (salt : List ℕ) (p : Params) → AllOf IsByte (id_key password salt p)
  pub length-id-key :
      (password : Text) (salt : List ℕ) (p : Params)
      → length (id_key password salt p) ≡ p.key_length

abbrev pub min_password_length : ℕ
min_password_length = 12

abbrev pub max_password_length : ℕ
max_password_length = 128

abbrev pub argon2_params : Params
argon2_params = record {
  memory_kib = 19456;
  iterations = 2;
  parallelism = 1;
  salt_length = 16;
  key_length = 32;
}

abbrev pub same_params : Params → Params → Bool
same_params p q =
    p.memory_kib == q.memory_kib
    && p.iterations == q.iterations
    && p.parallelism == q.parallelism
    && p.salt_length == q.salt_length
    && p.key_length == q.key_length

-- $argon2id$v=19$m=19456,t=2,p=1$<salt>$<hash>
unfoldable pub encode_hash : ℕ → Params → List ℕ → List ℕ → Text
encode_hash version p salt key =
    36
    ∷ (codes "argon2id"
        ++ 36
          ∷ (print_version version
              ++ 36 ∷ (print_params p ++ 36 ∷ (encode salt ++ 36 ∷ encode key))))

-- The salt and the key, which are not empty and give the lengths, as 32 bits.
abbrev pub with_key :
    Params → Option (List ℕ) → Option (List ℕ) → Result PasswordError (Params × List ℕ × List ℕ)
with_key p none key = failed invalid_hash
with_key p (some salt) none = failed invalid_hash
with_key p (some salt) (some key) =
    if null salt || null key
    then failed invalid_hash
    else done (
      record p { salt_length = length salt % 4294967296; key_length = length key % 4294967296 },
      salt,
      key,
    )

abbrev pub with_params :
    Option Params → Text → Text → Result PasswordError (Params × List ℕ × List ℕ)
with_params none salt key = failed invalid_hash
with_params (some p) salt key = with_key p (decode salt) (decode key)

abbrev pub equals : ℤ → ℕ → Bool
equals (pos m) n = m == n
equals (negsuc m) n = false

abbrev pub with_version :
    ℕ → Option ℤ → Text → Text → Text → Result PasswordError (Params × List ℕ × List ℕ)
with_version version none params salt key = failed invalid_hash
with_version version (some v) params salt key =
    if equals v version then with_params (scan_params params) salt key else failed incompatible_hash

unfoldable pub decode_parts : ℕ → List Text → Result PasswordError (Params × List ℕ × List ℕ)
decode_parts version (empty ∷ name ∷ v ∷ params ∷ salt ∷ key ∷ []) =
    if not (null empty)
    then failed invalid_hash
    else if not (text_eq name (codes "argon2id"))
    then failed incompatible_hash
    else with_version version (scan_version v) params salt key
decode_parts version parts = failed invalid_hash

abbrev pub decode_hash : ℕ → Text → Result PasswordError (Params × List ℕ × List ℕ)
decode_hash version encoded = decode_parts version (split 36 encoded)

module _ (a : Argon) where
  open a use {version, id_key, to_lower}

  abbrev pub is_common_password : Text → Bool
  is_common_password password = among common_passwords (to_lower (trim_space password))

  unfoldable pub validate_password : Text → Result PasswordError (Unit {0})
  validate_password password =
      if ltb (length password) min_password_length
      then failed too_short
      else if ltb max_password_length (length password)
      then failed too_long
      else if is_common_password password
      then failed not_allowed
      else done tt

  -- `slot` says whether a slot came free before the request was cancelled.
  abbrev pub derive_key : Bool → Text → List ℕ → Params → Result PasswordError (List ℕ)
  derive_key true password salt p = done (id_key password salt p)
  derive_key false password salt p = failed cancelled

  abbrev pub encoded_with : List ℕ → Result PasswordError (List ℕ) → Result PasswordError Text
  encoded_with salt (failed e) = failed e
  encoded_with salt (done key) = done (encode_hash version argon2_params salt key)

  -- `salt` is what rand.Read filled, if it did.
  unfoldable pub hash_password : Bool → Option (List ℕ) → Text → Result PasswordError Text
  hash_password slot none password = failed no_salt
  hash_password slot (some salt) password =
      encoded_with salt (derive_key slot password salt argon2_params)

  abbrev pub compared :
      Params → List ℕ → Result PasswordError (List ℕ) → Result PasswordError (Bool × Bool)
  compared stored key (failed e) = failed e
  compared stored key (done candidate) =
      if text_eq key candidate
      then done (true, not (same_params stored argon2_params))
      else done (false, false)

  abbrev pub verify_decoded :
      Bool
      → Text
      → Result PasswordError (Params × List ℕ × List ℕ)
      → Result PasswordError (Bool × Bool)
  verify_decoded slot password (failed e) = failed e
  verify_decoded slot password (done (stored, salt, key)) =
      compared stored key (derive_key slot password salt stored)

  -- Whether the password matches, and whether its hash is to be replaced.
  unfoldable pub verify_password : Bool → Text → Text → Result PasswordError (Bool × Bool)
  verify_password slot encoded password = verify_decoded slot password (decode_hash version encoded)
