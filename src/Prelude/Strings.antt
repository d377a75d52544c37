-- ===== src/Prelude/Strings.antt =====
-- What the code uses of Go's package strings.
pub mod Parts
use Prim.Native.Nat.{ℕ, ◌+◌}
use mathlib.Core.Path.{◌≡◌}
use mathlib.Core.Bool.{Bool, false, ◌&&◌, ◌||◌}
use mathlib.Core.Option.{Option, none, some}
use mathlib.Core.List.{List, [], ◌∷◌}
use cb_back.Prelude.Tests.{◌==◌, leb, ltb, if◌then◌else◌}
use cb_back.Prelude.Lists.{null}
use cb_back.Prelude.Texts.{Text, text_eq}

-- unicode.IsSpace.
abbrev pub is_space : ℕ → Bool
is_space c =
    (leb 9 c && leb c 13)
    || c == 32
    || c == 133
    || c == 160
    || c == 5760
    || (leb 8192 c && leb c 8202)
    || c == 8232
    || c == 8233
    || c == 8239
    || c == 8287
    || c == 12288

unfoldable pub trim_left : Text → Text
trim_left [] = []
trim_left (c ∷ s) = let rest = trim_left s in if is_space c then rest else c ∷ s

unfoldable pub trim_right : Text → Text
trim_right [] = []
trim_right (c ∷ s) = let rest = trim_right s in if is_space c && null rest then [] else c ∷ rest

-- strings.TrimSpace.
abbrev pub trim_space : Text → Text
trim_space s = trim_right (trim_left s)

-- To put a character before the first piece; there always is one.
abbrev before_first : ℕ → List Text → List Text
before_first c [] = (c ∷ []) ∷ []
before_first c (piece ∷ pieces) = (c ∷ piece) ∷ pieces

-- strings.Split at a single character.
unfoldable pub split : ℕ → Text → List Text
split sep [] = [] ∷ []
split sep (c ∷ s) = let rest = split sep s in if c == sep then [] ∷ rest else before_first c rest

-- strings.Cut at a single character: what stands before the first one and after it.
unfoldable pub cut : ℕ → Text → Option (Text × Text)
cut sep [] = none
cut sep (c ∷ s) =
    let rest = cut sep s in
    if c == sep
    then some ([], s)
    else elim rest [ none ↦ none | some (front, back) ↦ some (c ∷ front, back) ]

-- Is the text in the list?
unfoldable pub among : List Text → Text → Bool
among [] k = false
among (j ∷ js) k = text_eq j k || among js k

-- No text occurs twice.
abbrev pub IsOnce : List Text → Type 0
IsOnce [] = Unit {0}
IsOnce (a ∷ as') = (among as' a ≡ false) × IsOnce as'

-- What follows a text in another one that starts with it.
unfoldable pub strip_prefix : Text → Text → Option Text
strip_prefix [] s = some s
strip_prefix (p ∷ ps) [] = none
strip_prefix (p ∷ ps) (c ∷ s) = let rest = strip_prefix ps s in if p == c then rest else none

-- len: the bytes of a text in UTF-8.
abbrev pub byte_length : Text → ℕ
byte_length [] = 0
byte_length (c ∷ s) =
    (if ltb c 128 then 1 else if ltb c 2048 then 2 else if ltb c 65536 then 3 else 4)
    + byte_length s

-- strings.Count of a single character.
abbrev pub count_char : ℕ → Text → ℕ
count_char k [] = 0
count_char k (c ∷ s) = (if c == k then 1 else 0) + count_char k s

-- strings.HasSuffix of a single character.
abbrev pub ends_with : ℕ → Text → Bool
ends_with k [] = false
ends_with k (c ∷ []) = c == k
ends_with k (c ∷ d ∷ s) = ends_with k (d ∷ s)
