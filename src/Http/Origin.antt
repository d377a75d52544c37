-- ===== src/Http/Origin.antt =====
-- internal/httpx/origin.go: OriginPolicy and the CSRF guard. A header that is not there is empty.
use cb_back.Prelude.{
  ◌≡◌, sym, Bool, true, false, not, ◌||◌, ◌⊎◌, inl, inr, Option, none, some, List, [], ◌∷◌, ◌++◌,
  Text, text_eq, text_eq_iff, codes, null, if◌then◌else◌, arith, Bool-cases, Option-cases,
}
use cb_back.Prelude.Strings.{trim_space, split, among}

-- url.Parse down to the scheme and the host, strings.ToLower and strings.EqualFold.
pub record Env : Type 0 where
  pub parse_url : Text → Option (Text × Text)
  pub to_lower : Text → Text
  pub equal_fold : Text → Text → Bool

pub record OriginPolicy : Type 0 where
  pub permitted : List Text
  pub allow_any : Bool

pub record Request : Type 0 where
  pub method : Text
  pub host : Text
  pub origin : Text
  pub authorization : Text

module _ (e : Env) where
  open e use {parse_url, to_lower, equal_fold}

  abbrev pub origin_of : Text → Text → Text
  origin_of scheme host = to_lower (scheme ++ codes "://" ++ host)

  -- The loop over the entries of the allowlist; the order of the set does not matter.
  unfoldable pub permitted_of : List Text → Option (List Text)
  permitted_of [] = some []
  permitted_of (raw ∷ raws) =
      let rest = permitted_of raws in
      if null (trim_space raw) then rest else elim (parse_url (trim_space raw)) [
        | none ↦ none
        | some (scheme, host) ↦
            if null scheme || null host
            then none
            else elim rest [ none ↦ none | some origins ↦ some (origin_of scheme host ∷ origins) ]
      ]

  unfoldable pub new_origin_policy : Text → Option OriginPolicy
  new_origin_policy allowed =
      let list = trim_space allowed in
      if text_eq list (codes "*")
      then some (record { permitted = []; allow_any = true })
      else elim (permitted_of (split 44 list)) [
        | none ↦ none
        | some origins ↦ some (record { permitted = origins; allow_any = false })
      ]

  unfoldable pub allow : OriginPolicy → Request → Bool
  allow p r =
      if p.allow_any
      then true
      else if null r.origin
      then true
      else if null p.permitted
      then elim (parse_url r.origin) [ none ↦ false | some (_, host) ↦ equal_fold host r.host ]
      else among p.permitted (to_lower r.origin)

  abbrev pub is_safe : Text → Bool
  is_safe method =
      text_eq method (codes "GET")
      || text_eq method (codes "HEAD")
      || text_eq method (codes "OPTIONS")

  -- Does the request come to the handler behind the guard?
  unfoldable pub csrf : OriginPolicy → Request → Bool
  csrf p r =
      if is_safe r.method then true else if not (null r.authorization) then true else allow p r

  -- An entry of the allowlist is for the origin.
  abbrev pub Names : Text → Text → Type 0
  Names origin raw =
      (scheme : Text) × (host : Text) × (parse_url (trim_space raw) ≡ some (scheme, host))
      × (origin ≡ origin_of scheme host)

  abbrev pub SomeNames : Text → List Text → Type 0
  SomeNames origin [] = ⊥
  SomeNames origin (raw ∷ raws) = Names origin raw ⊎ SomeNames origin raws

  permitted-SomeNames :
      (raws origins : List Text) (origin : Text)
      → permitted_of raws ≡ some origins
      → among origins origin ≡ true
      → SomeNames origin raws
  unfolding permitted_of among
  permitted-SomeNames [] origins origin h m = ground (arith, h, m)
  permitted-SomeNames (raw ∷ raws) origins origin h m = elim (Bool-cases (null (trim_space raw))) [
    | inl p ↦ inr (permitted-SomeNames raws origins origin (ground (arith, h, p)) m)
    | inr p ↦ elim (Option-cases (parse_url (trim_space raw))) [
      | inl u ↦ ground (arith, h, p, u)
      | inr ((scheme, host), u) ↦ elim (Option-cases (permitted_of raws)) [
        | inl v ↦ ground (arith, h, p, u, v)
        | inr (rest, v) ↦ elim (Bool-cases (text_eq (origin_of scheme host) origin)) [
          | inl w ↦ inl (scheme, host, u, sym ((text_eq_iff _ _).0 w))
          | inr w ↦ inr (permitted-SomeNames raws rest origin v (ground (arith, h, m, p, u, v, w)))
        ]
      ]
    ]
  ]

  -- Behind a policy that was read from an allowlist and that has entries, a request that is not a
  -- read, bears no Authorization header and names an origin comes through the guard only if some
  -- entry of the allowlist is for that origin.
  pub csrf-SomeNames :
      (allowed : Text) (p : OriginPolicy) (r : Request)
      → new_origin_policy allowed ≡ some p
      → null p.permitted ≡ false
      → is_safe r.method ≡ false
      → null r.authorization ≡ true
      → null r.origin ≡ false
      → csrf p r ≡ true
      → SomeNames (to_lower r.origin) (split 44 (trim_space allowed))
  unfolding csrf allow new_origin_policy
  csrf-SomeNames allowed p r n q s a o h =
      elim (Bool-cases (text_eq (trim_space allowed) (codes "*"))) [
        | inl w ↦ ground (arith, n, q, w)
        | inr w ↦ elim (Option-cases (permitted_of (split 44 (trim_space allowed)))) [
          | inl v ↦ ground (arith, n, w, v)
          | inr (origins, v) ↦
              permitted-SomeNames (split 44 (trim_space allowed)) origins (to_lower r.origin) v
                (ground (arith, n, q, s, a, o, h, w, v))
        ]
      ]
