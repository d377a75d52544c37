-- ===== src/Auth/Password/RoundTrip.antt =====
-- internal/auth/password.go: a stored hash is read back as it was written.
use cb_back.Prelude.{
  ℕ, ◌%◌, ◌<◌, ◌≡◌, refl, ap, ◌∙◌, subst, true, false, not, some, List, [], ◌∷◌, ◌++◌, Text,
  text_eq, text_eq_refl, codes, ◌==◌, ==_iff, length, arith, AllOf, AllOf-append, AllOf-mono,
}
use cb_back.Prelude.Int.{pos}
use cb_back.Prelude.Strings.{split, strip_prefix}
use cb_back.Prelude.Strings.Parts.{Lacks, split_piece, split-append}
use cb_back.Prelude.Results.{done}
use cb_back.Prelude.Decimal.{print, print_before, scan_unsigned, scan_digits, skip_space}
use cb_back.Prelude.Decimal.RoundTrip.{
  IsDigit, Starts, print-Starts, scan-print, scan-below-print, print_before_lem, print-IsDigit,
}
use cb_back.Prelude.Base64.{encode}
use cb_back.Prelude.Base64.RoundTrip.{IsByte, IsPlain, encode-IsPlain, decode-encode}
use cb_back.Auth.Password.{
  Argon, with_key, argon2_params, same_params, encode_hash, decode_parts, decode_hash,
  verify_password, hash_password,
}
use cb_back.Auth.Password.Encoding.{
  Params, print_version, print_params, scan_version, scan_signed, scan_params,
}

IsDigit-Lacks : (s : Text) → AllOf IsDigit s → Lacks 36 s
IsDigit-Lacks s h = AllOf-mono IsDigit (λ c. c == 36 ≡ false) s (λ c d. ground (arith, d)) h

IsPlain-Lacks : (s : Text) → AllOf IsPlain s → Lacks 36 s
IsPlain-Lacks s h = AllOf-mono IsPlain (λ c. c == 36 ≡ false) s (λ c p. p.2) h

number-Lacks : (n : ℕ) (rest : Text) → Lacks 36 rest → Lacks 36 (print_before n rest)
number-Lacks n rest h =
    rw (print_before_lem n rest)
      (AllOf-append (λ c. c == 36 ≡ false) (print n) rest (IsDigit-Lacks _ (print-IsDigit n)) h)

version-Lacks : (v : ℕ) → Lacks 36 (print_version v)
version-Lacks v = (refl, (refl, IsDigit-Lacks _ (print-IsDigit v)))

params-Lacks : (p : Params) → Lacks 36 (print_params p)
params-Lacks p = (
  refl,
  (
    refl,
    number-Lacks p.memory_kib _ (
      refl,
      (
        refl,
        (
          refl,
          number-Lacks p.iterations _
              (refl, (refl, (refl, IsDigit-Lacks _ (print-IsDigit p.parallelism)))),
        ),
      ),
    ),
  ),
)

-- The six parts between the dollar signs.
split-encode :
    (v : ℕ) (p : Params) (salt key : List ℕ)
    → AllOf IsByte salt
    → AllOf IsByte key
    → split 36 (encode_hash v p salt key)
      ≡ [] ∷ codes "argon2id" ∷ print_version v ∷ print_params p ∷ encode salt ∷ encode key ∷ []
unfolding encode_hash
split-encode v p salt key hs hk =
    let hs' = IsPlain-Lacks _ (encode-IsPlain salt hs) in
    let hk' = IsPlain-Lacks _ (encode-IsPlain key hk) in
    let name-Lacks : Lacks 36 (codes "argon2id") = ground arith in
    split-append 36 [] _ tt
    ∙ ap (◌∷◌ []) (
        split-append 36 (codes "argon2id") _ name-Lacks
        ∙ ap (◌∷◌ (codes "argon2id")) (
            split-append 36 (print_version v) _ (version-Lacks v)
            ∙ ap (◌∷◌ (print_version v)) (
                split-append 36 (print_params p) _ (params-Lacks p)
                ∙ ap (◌∷◌ (print_params p)) (
                    split-append 36 (encode salt) (encode key) hs'
                    ∙ ap (◌∷◌ (encode salt)) (split_piece 36 (encode key) hk')))))

signed-scanned :
    (s : Text)
    → Starts s
    → (scan_digits s 0).0 < 9223372036854775808
    → scan_signed (skip_space s) ≡ some (pos (scan_digits s 0).0)
unfolding scan_signed skip_space scan_unsigned
signed-scanned [] h k = absurd h
signed-scanned (c ∷ s) h k = ground (arith, h, k)

version-scanned : (v : ℕ) → v < 9223372036854775808 → scan_version (print_version v) ≡ some (pos v)
unfolding scan_version strip_prefix
version-scanned v h =
    let same : (scan_digits (print v) 0).0 ≡ v = ap (λ r. r.0) (scan-print v [] tt) in
    signed-scanned (print v) (print-Starts v []) (ground (arith, same, h))
    ∙ ap (λ n. some (pos n)) same

-- The three numbers, without the lengths.
params-scanned :
    (p : Params)
    → p.memory_kib < 4294967296
    → p.iterations < 4294967296
    → p.parallelism < 256
    → scan_params (print_params p) ≡ some (record p { salt_length = 0; key_length = 0 })
unfolding scan_params strip_prefix
params-scanned p hm ht hp =
    rw
      (
        scan-below-print 4294967296 p.memory_kib
            (codes ",t=" ++ print_before p.iterations (codes ",p=" ++ print p.parallelism)) hm refl,
        scan-below-print 4294967296 p.iterations (codes ",p=" ++ print p.parallelism) ht refl,
        scan-below-print 256 p.parallelism [] hp tt,
      )
      refl

-- Parameters that fit their widths and have the lengths of a salt and a key, which are not empty.
pub record IsEncodable (p : Params) (salt key : List ℕ) : Type 0 where
  pub memory_fits : p.memory_kib < 4294967296
  pub iterations_fits : p.iterations < 4294967296
  pub parallelism_fits : p.parallelism < 256
  pub salt_has_length : length salt ≡ p.salt_length
  pub key_has_length : length key ≡ p.key_length
  pub salt_fits : p.salt_length < 4294967296
  pub key_fits : p.key_length < 4294967296
  pub some_salt : 0 < p.salt_length
  pub some_key : 0 < p.key_length
  pub salt_bytes : AllOf IsByte salt
  pub key_bytes : AllOf IsByte key

with-key_lem :
    (p : Params) (salt key : List ℕ)
    → IsEncodable p salt key
    → with_key (record p { salt_length = 0; key_length = 0 }) (some salt) (some key)
      ≡ done (p, salt, key)
with-key_lem p [] key e = absurd (omega (arith, e.salt_has_length, e.some_salt))
with-key_lem p (b ∷ salt) [] e = absurd (omega (arith, e.key_has_length, e.some_key))
with-key_lem p (b ∷ salt) (c ∷ key) e =
    let same_salt : length (b ∷ salt) % 4294967296 ≡ p.salt_length =
      omega (arith, e.salt_has_length, e.salt_fits) in
    let same_key : length (c ∷ key) % 4294967296 ≡ p.key_length =
      omega (arith, e.key_has_length, e.key_fits) in
    rw (same_salt, same_key) refl

parts_lem :
    (v : ℕ) (p : Params) (salt key : List ℕ)
    → v < 9223372036854775808
    → IsEncodable p salt key
    → decode_parts v
        ([] ∷ codes "argon2id" ∷ print_version v ∷ print_params p ∷ encode salt ∷ encode key ∷ [])
      ≡ done (p, salt, key)
unfolding decode_parts text_eq
parts_lem v p salt key h e =
    rw
      (
        version-scanned v h,
        (==_iff v v).1 refl,
        params-scanned p e.memory_fits e.iterations_fits e.parallelism_fits,
        decode-encode salt e.salt_bytes,
        decode-encode key e.key_bytes,
      )
      (with-key_lem p salt key e)

-- A hash that was encoded is decoded to its parameters, its salt and its key.
pub decode-encode-hash :
    (v : ℕ) (p : Params) (salt key : List ℕ)
    → v < 9223372036854775808
    → IsEncodable p salt key
    → decode_hash v (encode_hash v p salt key) ≡ done (p, salt, key)
decode-encode-hash v p salt key h e =
    ap (decode_parts v) (split-encode v p salt key e.salt_bytes e.key_bytes)
    ∙ parts_lem v p salt key h e

module _ (a : Argon) where
  open a use {version, id_key}

  -- The hash that a password has under parameters that fit is verified with that password, and is
  -- to be replaced exactly if the parameters are not the current ones.
  pub verify-encode-hash :
      (password : Text) (p : Params) (salt : List ℕ)
      → IsEncodable p salt (id_key password salt p)
      → verify_password a true (encode_hash version p salt (id_key password salt p)) password
        ≡ done (true, not (same_params p argon2_params))
  unfolding verify_password
  verify-encode-hash password p salt e =
      rw
        (
          decode-encode-hash version p salt (id_key password salt p) a.version_small e,
          text_eq_refl (id_key password salt p),
        )
        refl

  current-IsEncodable :
      (password : Text) (salt : List ℕ)
      → length salt ≡ 16
      → AllOf IsByte salt
      → IsEncodable argon2_params salt (id_key password salt argon2_params)
  current-IsEncodable password salt n b = record {
    memory_fits = omega arith;
    iterations_fits = omega arith;
    parallelism_fits = omega arith;
    salt_has_length = n;
    key_has_length = a.length-id-key password salt argon2_params;
    salt_fits = omega arith;
    key_fits = omega arith;
    some_salt = omega arith;
    some_key = omega arith;
    salt_bytes = b;
    key_bytes = a.id-key-IsByte password salt argon2_params;
  }

  -- A hash that HashPassword made is decoded to the current parameters.
  pub decode-hash-password :
      (password hash : Text) (salt : List ℕ)
      → length salt ≡ 16
      → AllOf IsByte salt
      → hash_password a true (some salt) password ≡ done hash
      → decode_hash version hash ≡ done (argon2_params, salt, id_key password salt argon2_params)
  unfolding hash_password
  decode-hash-password password hash salt n b h =
      let made : encode_hash version argon2_params salt (id_key password salt argon2_params)
          ≡ hash =
        ground (arith, h) in
      subst
        (λ x.
          decode_hash version x ≡ done (argon2_params, salt, id_key password salt argon2_params))
        made
        (decode-encode-hash version argon2_params salt (id_key password salt argon2_params)
          a.version_small (current-IsEncodable password salt n b))

  -- A hash that HashPassword made with a salt of 16 bytes is verified with the same password, and
  -- needs no replacement.
  pub verify-hash :
      (password hash : Text) (salt : List ℕ)
      → length salt ≡ 16
      → AllOf IsByte salt
      → hash_password a true (some salt) password ≡ done hash
      → verify_password a true hash password ≡ done (true, false)
  unfolding hash_password
  verify-hash password hash salt n b h =
      let made : encode_hash version argon2_params salt (id_key password salt argon2_params)
          ≡ hash =
        ground (arith, h) in
      subst (λ x. verify_password a true x password ≡ done (true, false)) made
        (verify-encode-hash password argon2_params salt (current-IsEncodable password salt n b))
