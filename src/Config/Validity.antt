-- ===== src/Config/Validity.antt =====
-- internal/config/config.go: what a configuration that Load lets through is.
use cb_back.Prelude.{
  ℕ, zero, suc, ◌≤◌, ◌<◌, ◌≡◌, refl, sym, subst, Bool, true, false, not, List, [], ◌∷◌, ◌++◌, Text,
  ltb, null, inl, inr, arith, Bool-cases, Option-cases, AllOf,
}
use cb_back.Prelude.Int.{pos, negsuc}
use cb_back.Prelude.Strings.{trim_space}
use cb_back.Prelude.Results.{done}
use cb_back.Config.Load.{
  Env, Config, Problem, entries, parse_duration, idle, absolute, credential, level, secure, proxy,
  unless, same, settings, problems, cross_checks, load,
}

null-++ : (xs ys : List Problem) → null (xs ++ ys) ≡ true → (null xs ≡ true) × (null ys ≡ true)
null-++ [] ys h = (refl, h)
null-++ (x ∷ xs) ys h = ground arith

abbrev IsEntry : Text → Type 0
IsEntry v = null v ≡ false

entries_lem : (vs : List Text) → AllOf IsEntry (entries vs)
unfolding entries
entries_lem [] = tt
entries_lem (v ∷ vs) = elim (Bool-cases (null (trim_space v))) [
  | inl p ↦ rw p (entries_lem vs)
  | inr p ↦ rw p (p, entries_lem vs)
]

-- The settings are consistent.
pub record IsValid (c : Config) : Type 0 where
  pub idle_positive : 0 < c.session_idle_ttl
  pub absolute_positive : 0 < c.session_absolute_ttl
  pub credential_positive : 0 < c.turn_credential_ttl
  pub idle_le : c.session_idle_ttl ≤ c.session_absolute_ttl
  pub has_database : null (trim_space c.database_url) ≡ false
  pub has_redis : null (trim_space c.redis_url) ≡ false
  pub turn : null c.turn_secret ≡ null c.turn_urls
  pub urls : AllOf IsEntry c.turn_urls

parse_duration_lem :
    (e : Env) (key : Text) (fallback : ℕ) → 0 < fallback → 0 < (parse_duration e key fallback).0
unfolding parse_duration
parse_duration_lem e key fallback h = elim (Bool-cases (null (trim_space (e.getenv key)))) [
  | inl p ↦ rw p h
  | inr p ↦ elim (Option-cases (e.read_duration (trim_space (e.getenv key)))) [
    | inl q ↦ rw (p, q) h
    | inr (negsuc n, q) ↦ rw (p, q) h
    | inr (pos zero, q) ↦ rw (p, q) h
    | inr (pos (suc n), q) ↦ rw (p, q) (omega arith)
  ]
]

unless_lem : (b : Bool) (p : Problem) → null (unless b p) ≡ true → b ≡ true
unless_lem true p h = refl
unless_lem false p h = h

not-true : (b : Bool) → not b ≡ true → b ≡ false
not-true true h = sym h
not-true false h = refl

same_lem : (a b : Bool) → same a b ≡ true → a ≡ b
same_lem a b h = ground arith

not_less : (a b : ℕ) → not (ltb a b) ≡ true → b ≤ a
not_less a b h = ground arith

module _ (e : Env) where
  problems_lem : null (problems e) ≡ true → null (cross_checks (settings e)) ≡ true
  problems_lem h =
      let (_, a) = null-++ (level e).1 _ h in
      let (_, b) = null-++ (secure e).1 _ a in
      let (_, c) = null-++ (proxy e).1 _ b in
      let (_, d) = null-++ (idle e).1 _ c in
      let (_, f) = null-++ (absolute e).1 _ d in
      let (_, g) = null-++ (credential e).1 _ f in (null-++ (cross_checks (settings e)) [] g).0

  settings-IsValid : null (cross_checks (settings e)) ≡ true → IsValid (settings e)
  settings-IsValid h =
      let c = settings e in
      let (t, g) = null-++ (unless (same (null c.turn_secret) (null c.turn_urls)) _) _ h in
      let (d, f) = null-++ (unless (not (null (trim_space c.database_url))) _) _ g in
      let (r, i) = null-++ (unless (not (null (trim_space c.redis_url))) _) _ f in
      let (k, _) = null-++ (unless (not (ltb c.session_absolute_ttl c.session_idle_ttl)) _) _ i in
      record {
        idle_positive = parse_duration_lem e _ _ (omega arith);
        absolute_positive = parse_duration_lem e _ _ (omega arith);
        credential_positive = parse_duration_lem e _ _ (omega arith);
        idle_le = not_less _ _ (unless_lem _ _ k);
        has_database = not-true _ (unless_lem _ _ d);
        has_redis = not-true _ (unless_lem _ _ r);
        turn = same_lem _ _ (unless_lem _ _ t);
        urls = entries_lem _;
      }

  -- A configuration that Load accepts has positive lifetimes, an idle lifetime that is within the
  -- absolute one, a database and a Redis address that are not blank, TURN URLs exactly with a TURN
  -- secret, and no empty TURN URL.
  pub load-IsValid : (c : Config) → load e ≡ done c → IsValid c
  unfolding load
  load-IsValid c h = elim (Bool-cases (null (problems e))) [
    | inl p ↦ subst IsValid (ground (arith, p, h)) (settings-IsValid (problems_lem p))
    | inr p ↦ ground (arith, p, h)
  ]
