-- ===== src/Prelude/Decimal/RoundTrip.antt =====
-- A printed number is read back, and its print is made of digits.
use cb_back.Prelude.{
  ℕ, zero, suc, ◌+◌, ◌/◌, ◌%◌, ◌<◌, ◌≡◌, refl, true, false, some, [], ◌∷◌, ◌++◌, Text, ◌==◌, arith,
  AllOf, Bool-cases, inl, inr,
}
use cb_back.Prelude.Decimal.{
  is_digit, emit, print_before, print, scan_digits, scan_unsigned, skip_space, scan_below,
}

abbrev pub IsDigit : ℕ → Type 0
IsDigit c = is_digit c ≡ true

-- Nothing, or something that does not go on with a digit.
abbrev pub Ends : Text → Type 0
Ends [] = Unit {0}
Ends (c ∷ s) = is_digit c ≡ false

scan_last : (n : ℕ) (out : Text) → scan_digits ((48 + n % 10) ∷ out) (n / 10) ≡ scan_digits out n
unfolding scan_digits
scan_last n out = ground arith

scan-emit :
    (fuel n : ℕ) (out : Text) → n < fuel → scan_digits (emit fuel n out) 0 ≡ scan_digits out n
unfolding emit
scan-emit zero n out h = absurd (omega (arith, h))
scan-emit (suc fuel) n out h =
    ground (arith, h, scan_last n out, scan-emit fuel (n / 10) ((48 + n % 10) ∷ out))

scan-Ends : (out : Text) (n : ℕ) → Ends out → scan_digits out n ≡ (n, out)
unfolding scan_digits
scan-Ends [] n h = refl
scan-Ends (c ∷ s) n h = ground (arith, h)

pub scan-print : (n : ℕ) (out : Text) → Ends out → scan_digits (print_before n out) 0 ≡ (n, out)
unfolding print_before scan_digits
scan-print n out h = elim (Bool-cases (n == 0)) [
  | inl p ↦ ground (arith, p, scan-Ends out 0 h)
  | inr p ↦ ground (arith, p, scan-emit (suc n) n out, scan-Ends out n h)
]

-- A text that starts with a digit.
abbrev pub Starts : Text → Type 0
Starts [] = ⊥
Starts (c ∷ s) = IsDigit c

emit-Starts : (fuel n : ℕ) (out : Text) → Starts out → Starts (emit fuel n out)
unfolding emit
emit-Starts zero n out h = h
emit-Starts (suc fuel) n out h = elim (Bool-cases (n == 0)) [
  | inl p ↦ rw (p, emit) h
  | inr p ↦ rw (p, emit) (emit-Starts fuel (n / 10) ((48 + n % 10) ∷ out) (ground arith))
]

pub print-Starts : (n : ℕ) (out : Text) → Starts (print_before n out)
unfolding print_before emit
print-Starts n out = elim (Bool-cases (n == 0)) [
  | inl p ↦ rw (p, print_before) refl
  | inr p ↦ rw (p, print_before, emit) (emit-Starts n (n / 10) ((48 + n % 10) ∷ out) (ground arith))
]

scan-Starts : (s : Text) → Starts s → scan_unsigned (skip_space s) ≡ some (scan_digits s 0)
unfolding scan_unsigned skip_space
scan-Starts [] h = absurd h
scan-Starts (c ∷ s) h = ground (arith, h)

-- A number that fits is read back from its print, whatever follows that is not a digit.
pub scan-below-print :
    (bound n : ℕ) (out : Text)
    → n < bound
    → Ends out
    → scan_below bound (print_before n out) ≡ some (n, out)
scan-below-print bound n out h e =
    ground (arith, h, scan-Starts (print_before n out) (print-Starts n out), scan-print n out e)

emit-append : (fuel n : ℕ) (out rest : Text) → emit fuel n (out ++ rest) ≡ emit fuel n out ++ rest
unfolding emit
emit-append zero n out rest = refl
emit-append (suc fuel) n out rest =
    ground (arith, emit-append fuel (n / 10) ((48 + n % 10) ∷ out) rest)

-- A print in front of a text is the print and the text.
pub print_before_lem : (n : ℕ) (rest : Text) → print_before n rest ≡ print n ++ rest
unfolding print_before
print_before_lem n rest = ground (arith, emit-append (suc n) n [] rest)

emit-IsDigit : (fuel n : ℕ) (out : Text) → AllOf IsDigit out → AllOf IsDigit (emit fuel n out)
unfolding emit
emit-IsDigit zero n out h = h
emit-IsDigit (suc fuel) n out h = elim (Bool-cases (n == 0)) [
  | inl p ↦ rw (p, emit) h
  | inr p ↦ rw (p, emit) (emit-IsDigit fuel (n / 10) ((48 + n % 10) ∷ out) (ground arith, h))
]

pub print-IsDigit : (n : ℕ) → AllOf IsDigit (print n)
unfolding print_before
print-IsDigit n = elim (Bool-cases (n == 0)) [
  | inl p ↦ rw (p, print_before) (refl, tt)
  | inr p ↦ rw (p, print_before) (emit-IsDigit (suc n) n [] tt)
]
