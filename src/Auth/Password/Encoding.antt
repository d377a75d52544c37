-- ===== src/Auth/Password/Encoding.antt =====
-- internal/auth/password.go: the fields of a stored hash that are numbers, as fmt prints and scans
-- them. A scan does not look at what follows the last number.
use cb_back.Prelude.{
  ℕ, Option, none, some, [], ◌∷◌, ◌++◌, Text, codes, ltb, leb, ◌==◌, ◌-◌, if◌then◌else◌,
}
use cb_back.Prelude.Options.{◌>>=◌}
use cb_back.Prelude.Strings.{strip_prefix}
use cb_back.Prelude.Int.{ℤ, pos, negsuc}
use cb_back.Prelude.Decimal.{print_before, print, scan_unsigned, scan_below, skip_space}

pub record Params : Type 0 where
  pub memory_kib : ℕ
  pub iterations : ℕ
  pub parallelism : ℕ
  pub salt_length : ℕ
  pub key_length : ℕ

abbrev pub print_version : ℕ → Text
print_version version = codes "v=" ++ print version

-- A 64-bit integer behind its sign.
abbrev pub positive : Option (ℕ × Text) → Option ℤ
positive none = none
positive (some (n, rest)) = if leb 9223372036854775808 n then none else some (pos n)

abbrev pub negative : Option (ℕ × Text) → Option ℤ
negative none = none
negative (some (n, rest)) =
    if n == 0
    then some (pos 0)
    else if ltb 9223372036854775808 n
    then none
    else some (negsuc (n - 1))

unfoldable pub scan_signed : Text → Option ℤ
scan_signed [] = none
scan_signed (c ∷ s) =
    if c == 43
    then positive (scan_unsigned s)
    else if c == 45
    then negative (scan_unsigned s)
    else positive (scan_unsigned (c ∷ s))

-- v=%d into an int.
unfoldable pub scan_version : Text → Option ℤ
scan_version s = do t ← strip_prefix (codes "v=") s; scan_signed (skip_space t)

abbrev pub print_params : Params → Text
print_params p =
    codes "m="
    ++ print_before p.memory_kib
        (codes ",t=" ++ print_before p.iterations (codes ",p=" ++ print p.parallelism))

-- m=%d,t=%d,p=%d into 32, 32 and 8 bits; the lengths come from the rest of the hash.
unfoldable pub scan_params : Text → Option Params
scan_params s = do
  s1 ← strip_prefix (codes "m=") s
  (m, s2) ← scan_below 4294967296 s1
  s3 ← strip_prefix (codes ",t=") s2
  (t, s4) ← scan_below 4294967296 s3
  s5 ← strip_prefix (codes ",p=") s4
  (p, s6) ← scan_below 256 s5
  some (record { memory_kib = m; iterations = t; parallelism = p; salt_length = 0; key_length = 0 })
