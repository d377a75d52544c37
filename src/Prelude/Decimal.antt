-- ===== src/Prelude/Decimal.antt =====
-- strconv.FormatInt and the verb %d of fmt, on numbers that are not negative.
pub mod RoundTrip
use cb_back.Prelude.{
  ℕ, zero, suc, ◌+◌, ◌-◌, ◌*◌, ◌/◌, ◌%◌, ◌≡◌, Bool, true, false, not, ◌&&◌, Option, none, some, [],
  ◌∷◌, Text, leb, ◌==◌, if◌then◌else◌,
}
use cb_back.Prelude.Strings.{is_space}

abbrev pub is_digit : ℕ → Bool
is_digit c = leb 48 c && leb c 57

-- The digits of a number before `out`; a fuel above the number is enough.
unfoldable pub emit : ℕ → ℕ → Text → Text
emit zero n out = out
emit (suc fuel) n out = elim (n == 0) [
  | true ↦ out
  | false ↦ emit fuel (n / 10) ((48 + n % 10) ∷ out)
]

-- The decimal print of a number, before `out`.
unfoldable pub print_before : ℕ → Text → Text
print_before n out = if n == 0 then 48 ∷ out else emit (suc n) n out

abbrev pub print : ℕ → Text
print n = print_before n []

-- The leading digits, read behind `n`, and what follows them.
unfoldable pub scan_digits : Text → ℕ → ℕ × Text
scan_digits [] n = (n, [])
scan_digits (c ∷ s) n = elim (is_digit c) [
  | true ↦ scan_digits s (n * 10 + (c - 48))
  | false ↦ (n, c ∷ s)
]

-- One number at the very start.
unfoldable pub scan_unsigned : Text → Option (ℕ × Text)
scan_unsigned [] = none
scan_unsigned (c ∷ s) = if is_digit c then some (scan_digits (c ∷ s) 0) else none

-- A scan passes over white space, but not over the end of a line.
unfoldable pub skip_space : Text → Text
skip_space [] = []
skip_space (c ∷ s) = let rest = skip_space s in if is_space c && not (c == 10) then rest else c ∷ s

-- %d into an unsigned integer of which `bound` is the first that does not fit.
abbrev pub fit : ℕ → Option (ℕ × Text) → Option (ℕ × Text)
fit bound none = none
fit bound (some (n, rest)) = if leb bound n then none else some (n, rest)

abbrev pub scan_below : ℕ → Text → Option (ℕ × Text)
scan_below bound s = fit bound (scan_unsigned (skip_space s))
