-- ===== src/Prelude/Base64.antt =====
-- Go's base64.RawStdEncoding, whose strict decoder skips line ends.
pub mod RoundTrip
use cb_back.Prelude.{
  ℕ, ◌+◌, ◌-◌, ◌*◌, ◌/◌, ◌%◌, Bool, true, false, ◌&&◌, ◌||◌, Option, none, some, List, [], ◌∷◌, map,
  Text, leb, ltb, ◌==◌, if◌then◌else◌,
}

-- The character of six bits: A to Z, a to z, 0 to 9, + and /.
abbrev pub sextet_char : ℕ → ℕ
sextet_char i =
    if ltb i 26
    then 65 + i
    else if ltb i 52
    then 71 + i
    else if ltb i 62
    then i - 4
    else if i == 62
    then 43
    else 47

abbrev pub char_sextet : ℕ → Option ℕ
char_sextet c =
    if leb 65 c && leb c 90
    then some (c - 65)
    else if leb 97 c && leb c 122
    then some (c - 71)
    else if leb 48 c && leb c 57
    then some (c + 4)
    else if c == 43
    then some 62
    else if c == 47
    then some 63
    else none

-- Six bits at a time; zero bits fill the last sextet.
unfoldable pub sextets_of : List ℕ → List ℕ
sextets_of [] = []
sextets_of (a ∷ []) = (a / 4) ∷ (a % 4 * 16) ∷ []
sextets_of (a ∷ b ∷ []) = (a / 4) ∷ (a % 4 * 16 + b / 16) ∷ (b % 16 * 4) ∷ []
sextets_of (a ∷ b ∷ c ∷ bytes) =
    (a / 4) ∷ (a % 4 * 16 + b / 16) ∷ (b % 16 * 4 + c / 64) ∷ (c % 64) ∷ sextets_of bytes

abbrev pub encode : List ℕ → Text
encode bytes = map sextet_char (sextets_of bytes)

-- The six bits of each character.
unfoldable pub sextets : Text → Option (List ℕ)
sextets [] = some []
sextets (c ∷ s) = elim (char_sextet c) [
  | none ↦ none
  | some i ↦ elim (sextets s) [ none ↦ none | some is ↦ some (i ∷ is) ]
]

-- Bytes from sextets; bits that are left over are zero.
unfoldable pub bytes_of : List ℕ → Option (List ℕ)
bytes_of [] = some []
bytes_of (w ∷ []) = none
bytes_of (w ∷ x ∷ []) = if x % 16 == 0 then some ((w * 4 + x / 16) ∷ []) else none
bytes_of (w ∷ x ∷ y ∷ []) =
    if y % 4 == 0 then some ((w * 4 + x / 16) ∷ (x % 16 * 16 + y / 4) ∷ []) else none
bytes_of (w ∷ x ∷ y ∷ z ∷ is) = elim (bytes_of is) [
  | none ↦ none
  | some bytes ↦ some ((w * 4 + x / 16) ∷ (x % 16 * 16 + y / 4) ∷ (y % 4 * 64 + z) ∷ bytes)
]

-- Without the line ends.
unfoldable pub on_one_line : Text → Text
on_one_line [] = []
on_one_line (c ∷ s) = let rest = on_one_line s in if c == 10 || c == 13 then rest else c ∷ rest

unfoldable pub decode : Text → Option (List ℕ)
decode s = elim (sextets (on_one_line s)) [ none ↦ none | some is ↦ bytes_of is ]
