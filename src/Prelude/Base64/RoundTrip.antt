-- ===== src/Prelude/Base64/RoundTrip.antt =====
-- An encoding is decoded to the bytes, and has only characters of the alphabet.
use cb_back.Prelude.{ℕ, ◌<◌, ◌≡◌, refl, false, some, List, [], ◌∷◌, map, Text, ◌==◌, arith, AllOf}
use cb_back.Prelude.Base64.{
  sextet_char, char_sextet, encode, sextets_of, sextets, bytes_of, on_one_line, decode,
}

abbrev pub IsByte : ℕ → Type 0
IsByte b = b < 256

sextet_lem : (i : ℕ) → i < 64 → char_sextet (sextet_char i) ≡ some i
sextet_lem i h = ground (arith, h)

-- Neither a line end nor a dollar sign.
abbrev pub IsPlain : ℕ → Type 0
IsPlain c = (c == 10 ≡ false) × (c == 13 ≡ false) × (c == 36 ≡ false)

plain_lem : (i : ℕ) → i < 64 → IsPlain (sextet_char i)
plain_lem i h = ground (arith, h)

abbrev IsSextet : ℕ → Type 0
IsSextet i = i < 64

sextets-of-IsSextet : (bytes : List ℕ) → AllOf IsByte bytes → AllOf IsSextet (sextets_of bytes)
unfolding sextets_of
sextets-of-IsSextet [] h = tt
sextets-of-IsSextet (a ∷ []) (h, _) = (omega (arith, h), (omega arith, tt))
sextets-of-IsSextet (a ∷ b ∷ []) (h, (k, _)) =
    (omega (arith, h), (omega (arith, k), (omega arith, tt)))
sextets-of-IsSextet (a ∷ b ∷ c ∷ bytes) (h, (k, (l, m))) = (
  omega (arith, h),
  (omega (arith, k), (omega (arith, l), (omega arith, sextets-of-IsSextet bytes m))),
)

map-IsPlain : (is : List ℕ) → AllOf IsSextet is → AllOf IsPlain (map sextet_char is)
map-IsPlain [] h = tt
map-IsPlain (i ∷ is) (h, k) = (plain_lem i h, map-IsPlain is k)

pub encode-IsPlain : (bytes : List ℕ) → AllOf IsByte bytes → AllOf IsPlain (encode bytes)
encode-IsPlain bytes h = map-IsPlain (sextets_of bytes) (sextets-of-IsSextet bytes h)

one_line_lem : (s : Text) → AllOf IsPlain s → on_one_line s ≡ s
unfolding on_one_line
one_line_lem [] h = refl
one_line_lem (c ∷ s) (h, k) = rw (h.0, h.1, one_line_lem s k) refl

sextets-map : (is : List ℕ) → AllOf IsSextet is → sextets (map sextet_char is) ≡ some is
unfolding sextets
sextets-map [] h = refl
sextets-map (i ∷ is) (h, k) = rw (sextet_lem i h, sextets, sextets-map is k) refl

bytes-sextets : (bytes : List ℕ) → AllOf IsByte bytes → bytes_of (sextets_of bytes) ≡ some bytes
unfolding sextets_of bytes_of
bytes-sextets [] h = refl
bytes-sextets (a ∷ []) (h, _) = ground (arith, h)
bytes-sextets (a ∷ b ∷ []) (h, (k, _)) = ground (arith, h, k)
bytes-sextets (a ∷ b ∷ c ∷ bytes) (h, (k, (l, m))) = ground (arith, h, k, l, bytes-sextets bytes m)

-- Every list of bytes is decoded from its encoding.
pub decode-encode : (bytes : List ℕ) → AllOf IsByte bytes → decode (encode bytes) ≡ some bytes
unfolding decode
decode-encode bytes h =
    rw
      (one_line_lem _ (encode-IsPlain bytes h), decode, sextets-map _ (sextets-of-IsSextet bytes h))
      (bytes-sextets bytes h)
