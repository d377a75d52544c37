-- ===== src/Invites/Patterns.antt =====
-- internal/invites/handlers.go: the regular expressions on user ids and slugs.
use cb_back.Prelude.{
  ℕ, zero, suc, Bool, true, false, ◌&&◌, ◌||◌, List, [], ◌∷◌, Text, leb, ◌==◌, length, null,
}

abbrev pub is_alphanumeric : ℕ → Bool
is_alphanumeric c = (leb 97 c && leb c 122) || (leb 48 c && leb c 57)

abbrev pub is_slug_char : ℕ → Bool
is_slug_char c = is_alphanumeric c || c == 45

abbrev pub all : (ℕ → Bool) → Text → Bool
all p [] = true
all p (c ∷ s) = p c && all p s

-- ^[a-z0-9][a-z0-9-]{2,63}$
abbrev pub slug_pattern : Text → Bool
slug_pattern [] = false
slug_pattern (c ∷ s) =
    is_alphanumeric c && all is_slug_char s && leb 2 (length s) && leb (length s) 63

abbrev is_hex : ℕ → Bool
is_hex c = (leb 48 c && leb c 57) || (leb 97 c && leb c 102) || (leb 65 c && leb c 70)

-- Groups of hexadecimal digits, of the sizes, with dashes between.
abbrev hex_groups : List ℕ → Text → Bool
hex_groups [] s = null s
hex_groups (zero ∷ []) s = null s
hex_groups (zero ∷ (n ∷ ns)) [] = false
hex_groups (zero ∷ (n ∷ ns)) (c ∷ s) = c == 45 && hex_groups (n ∷ ns) s
hex_groups (suc k ∷ ns) [] = false
hex_groups (suc k ∷ ns) (c ∷ s) = is_hex c && hex_groups (k ∷ ns) s

-- ^[0-9a-fA-F]{8}-[0-9a-fA-F]{4}-[0-9a-fA-F]{4}-[0-9a-fA-F]{4}-[0-9a-fA-F]{12}$
unfoldable pub uuid_pattern : Text → Bool
uuid_pattern s = hex_groups (8 ∷ 4 ∷ 4 ∷ 4 ∷ 12 ∷ []) s
