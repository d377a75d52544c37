-- ===== src/Gateway/Patterns.antt =====
-- The patterns of net/http's ServeMux that the Routes functions use: a method, and a path of which a
-- segment may be the wildcard {slug}.
use cb_back.Prelude.{
  Bool, ◌&&◌, ◌||◌, Option, none, some, List, [], ◌∷◌, Text, text_eq, codes, null, if◌then◌else◌,
}
use cb_back.Prelude.Strings.{split, cut}

-- A pattern for GET is for HEAD, too.
abbrev pub method_fits : Text → Text → Bool
method_fits wanted method =
    text_eq wanted method || (text_eq wanted (codes "GET") && text_eq method (codes "HEAD"))

-- What the wildcard stands for; empty where the pattern has none. A wildcard takes one segment, which
-- is not empty.
unfoldable pub fit_segments : List Text → List Text → Text → Option Text
fit_segments [] [] slug = some slug
fit_segments [] (s ∷ segments) slug = none
fit_segments (w ∷ wanted) [] slug = none
fit_segments (w ∷ wanted) (s ∷ segments) slug =
    let wild = fit_segments wanted segments s in
    let plain = fit_segments wanted segments slug in
    if text_eq w (codes "{slug}")
    then (if null s then none else wild)
    else if text_eq w s
    then plain
    else none

abbrev pub fit_parts : Option (Text × Text) → Text → Text → Option Text
fit_parts none method path = none
fit_parts (some (wanted, pattern)) method path =
    if method_fits wanted method then fit_segments (split 47 pattern) (split 47 path) [] else none

-- Whether a request fits a pattern, with the slug.
abbrev pub fits : Text → Text → Text → Option Text
fits pattern method path = fit_parts (cut 32 pattern) method path
