-- ===== src/Gateway/Guard.antt =====
-- cmd/server/main.go: what the chain of handlers keeps away from the endpoints.
use cb_back.Prelude.{
  codes, ◌≢◌, text_eq_iff, ℕ, ◌≡◌, refl, sym, ◌∙◌, Bool, true, false, ◌&&◌, ◌||◌, ◌⊎◌, inl, inr,
  Option, none, some, List, [], ◌∷◌, Text, arith, null, Bool-cases, Option-cases, subst,
}
use cb_back.Prelude.Strings.{split, trim_space}
use cb_back.Http.Origin
use cb_back.Http.Origin.{OriginPolicy, new_origin_policy, csrf, is_safe, SomeNames, csrf-SomeNames}
use cb_back.Auth.Middleware.{
  Service, Identity, Answer, passed, refused, require, bearer_token, token_from,
}
use cb_back.Auth.Middleware.Guard.{IsAuthentic, require-IsAuthentic}
use cb_back.Gateway.Patterns.{fits}
use cb_back.Gateway.{
  Endpoint, to_register, to_login, to_logout, to_signaling, to_inbox, to_health, to_readiness,
  Route, Request, origin_part, session_part, routes, find_route, reached, after_require, dispatch,
  serve_request,
}

-- The endpoints that a request reaches without a session.
unfoldable pub is_open : Endpoint → Bool
is_open to_register = true
is_open to_login = true
is_open to_logout = true
is_open to_signaling = true
is_open to_inbox = true
is_open to_health = true
is_open to_readiness = true
is_open other = false

-- Each of the routes is guarded or open, whatever the slug.
unfoldable all_fenced : Text → List Route → Bool
all_fenced slug [] = true
all_fenced slug (r ∷ rs) = (r.is_guarded || is_open (r.endpoint slug)) && all_fenced slug rs

routes_fenced : (slug : Text) → all_fenced slug routes ≡ true
unfolding all_fenced is_open
routes_fenced slug = refl

find-fenced :
    (rs : List Route) (method path : Text) (g : Bool) (to : Endpoint)
    → ((slug : Text) → all_fenced slug rs ≡ true)
    → find_route rs method path ≡ some (g, to)
    → (g ≡ true) ⊎ (is_open to ≡ true)
unfolding find_route all_fenced
find-fenced [] method path g to a h = ground (arith, h)
find-fenced (r ∷ rs) method path g to a h = elim (Option-cases (fits r.pattern method path)) [
  | inl p ↦ find-fenced rs method path g to (λ slug. ground (arith, a slug)) (ground (arith, h, p))
  | inr (slug, p) ↦
      let same_guard : r.is_guarded ≡ g = ground (arith, h, p) in
      let same_end : r.endpoint slug ≡ to = ground (arith, h, p) in
      elim (Bool-cases r.is_guarded) [
        | inl q ↦ inl (sym same_guard ∙ q)
        | inr q ↦ inr (subst (λ t. is_open t ≡ true) same_end (ground (arith, a slug, q)))
      ]
]

module _ (o : Origin.Env) (policy : OriginPolicy) (v : Service) where
  open v use {sessions}
  open (sessions.redis) use {State}

  after_lem :
      (to to' : Endpoint) (who : Option Identity) (x : Answer × State)
      → (after_require o policy v to' x).0 ≡ reached to who
      → (i : Identity) × (who ≡ some i) × (x.0 ≡ passed i)
  after_lem to to' who (passed i, s) h =
      let same : some i ≡ who = ground (arith, h) in (i, sym same, refl)
  after_lem to to' who (refused status code clears, s) h = ground (arith, h)

  -- An endpoint is reached with the identity that Require passes on, or it is open.
  dispatch_lem :
      (r : Request) (now : ℕ) (found : Option (Bool × Endpoint)) (s : State) (to : Endpoint)
      (who : Option Identity)
      → ((g : Bool) (t : Endpoint) → found ≡ some (g, t) → (g ≡ true) ⊎ (is_open t ≡ true))
      → (dispatch o policy v r now found s).0 ≡ reached to who
      → ((who ≡ none) × (is_open to ≡ true))
        ⊎ ((i : Identity) × (who ≡ some i) × ((require v (session_part r) now s).0 ≡ passed i))
  dispatch_lem r now none s to who k h = ground (arith, h)
  dispatch_lem r now (some (true, t)) s to who k h = inr (after_lem to t who _ h)
  dispatch_lem r now (some (false, t)) s to who k h =
      let same : t ≡ to = ground (arith, h) in
      let nobody : who ≡ none = ground (arith, h) in
      elim (k false t refl) [
        | inl q ↦ ground (arith, q)
        | inr q ↦ inl (nobody, subst (λ x. is_open x ≡ true) same q)
      ]

  serve_lem :
      (r : Request) (now : ℕ) (s : State) (to : Endpoint) (who : Option Identity)
      → (serve_request o policy v r now s).0 ≡ reached to who
      → (csrf o policy (origin_part r) ≡ true)
        × (((who ≡ none) × (is_open to ≡ true))
            ⊎ ((i : Identity) × (who ≡ some i) × ((require v (session_part r) now s).0 ≡ passed i)))
  unfolding serve_request
  serve_lem r now s to who h = elim (Bool-cases (csrf o policy (origin_part r))) [
    | inr p ↦ ground (arith, h, p)
    | inl p ↦ (
      p,
      dispatch_lem r now (find_route routes r.method r.path) s to who
          (λ g t. find-fenced routes r.method r.path g t routes_fenced) (ground (arith, h, p)),
    )
  ]

  -- A request that reaches an endpoint other than the open ones has a live session, whose user and
  -- token it comes with.
  pub serve-IsAuthentic :
      (r : Request) (now : ℕ) (s : State) (to : Endpoint) (who : Option Identity)
      → is_open to ≡ false
      → (serve_request o policy v r now s).0 ≡ reached to who
      → (i : Identity) × (who ≡ some i) × IsAuthentic v (session_part r) now s i
  serve-IsAuthentic r now s to who c h = elim ((serve_lem r now s to who h).1) [
    | inl (nobody, q) ↦ ground (arith, c, q)
    | inr (i, same, q) ↦ (i, same, require-IsAuthentic v (session_part r) now s i q)
  ]

  -- Behind a policy that was read from an allowlist and that has entries, so not behind the one of an
  -- empty allowlist nor behind that of "*", a request that names an origin and whose method is neither GET
  -- nor HEAD nor OPTIONS reaches an endpoint with an identity only if the identity comes from its
  -- Authorization header or some entry of the allowlist is for the origin.
  pub serve-SomeNames :
      (allowed : Text) (r : Request) (now : ℕ) (s : State) (to : Endpoint) (i : Identity)
      → new_origin_policy o allowed ≡ some policy
      → null policy.permitted ≡ false
      → r.method ≢ codes "GET"
      → r.method ≢ codes "HEAD"
      → r.method ≢ codes "OPTIONS"
      → null r.origin ≡ false
      → (serve_request o policy v r now s).0 ≡ reached to (some i)
      → (i.token ≡ bearer_token v r.authorization)
        ⊎ SomeNames o (o.to_lower r.origin) (split 44 (trim_space allowed))
  unfolding token_from
  serve-SomeNames allowed r now s to i n q get head options w h =
      let m : is_safe o r.method ≡ false = ground (
        arith,
        get,
        head,
        options,
        text_eq_iff r.method (codes "GET"),
        text_eq_iff r.method (codes "HEAD"),
        text_eq_iff r.method (codes "OPTIONS"),
      ) in
      let (c, found) = serve_lem r now s to (some i) h in
      elim found [
        | inl (nobody, p) ↦ ground (arith, nobody)
        | inr (j, same, p) ↦
            let same_identity : j ≡ i = ground (arith, same) in
            let a = require-IsAuthentic v (session_part r) now s j p in
            elim (Bool-cases (null r.authorization)) [
              | inr b ↦ inl (
                  subst (λ k. k.token ≡ bearer_token v r.authorization) same_identity
                    (a.token ∙ ground (arith, b)))
              | inl b ↦ inr (csrf-SomeNames o allowed policy (origin_part r) n q m b w c)
            ]
      ]
