-- ===== src/Http/Respond/Chain.antt =====
-- internal/httpx/respond.go and cmd/server/main.go: what the chain makes of a response.
use cb_back.Prelude.{
  ap, ◌++◌, delete, ℕ, ◌≡◌, refl, ◌∙◌, Bool, true, false, inl, inr, Option, none, some, [], Text,
  codes, Dict, lookup, insert, lookup-insert, text_eq, arith, Bool-cases, Option-cases,
}
use cb_back.Http.Origin
use cb_back.Http.Origin.{OriginPolicy, Request, csrf}
use cb_back.Http.Respond.{
  ErrorBody, Writer, new_writer, set_header, write_header, write, response, Handler, json,
  security_headers, error, recovered, recover, deny, guard, chain,
}

-- The headers of SecurityHeaders.
pub record HasSecurity (headers : Dict Text) : Type 0 where
  pub no_sniff : lookup (codes "X-Content-Type-Options") headers ≡ some (codes "nosniff")
  pub no_frame : lookup (codes "X-Frame-Options") headers ≡ some (codes "DENY")
  pub no_referrer : lookup (codes "Referrer-Policy") headers ≡ some (codes "no-referrer")
  pub policy :
      lookup (codes "Content-Security-Policy") headers
      ≡ some (codes "default-src 'none'; frame-ancestors 'none'")

-- The response has them.
abbrev pub IsHardened : Writer → Type 0
IsHardened w = HasSecurity (response w).1

-- A handler that leaves them.
abbrev pub Keeps : Handler → Type 0
Keeps mux = (w : Writer) → IsHardened w → IsHardened (mux w).1

-- Another header leaves them.
abbrev IsOther : Text → Type 0
IsOther name =
    (text_eq name (codes "X-Content-Type-Options") ≡ false)
    × (text_eq name (codes "X-Frame-Options") ≡ false)
    × (text_eq name (codes "Referrer-Policy") ≡ false)
    × (text_eq name (codes "Content-Security-Policy") ≡ false)

insert-HasSecurity :
    (name value : Text) (headers : Dict Text)
    → IsOther name
    → HasSecurity headers
    → HasSecurity (insert name value headers)
insert-HasSecurity name value headers n h = record {
  no_sniff = lookup-insert name _ value headers ∙ rw n.0 h.no_sniff;
  no_frame = lookup-insert name _ value headers ∙ rw n.1 h.no_frame;
  no_referrer = lookup-insert name _ value headers ∙ rw n.2 h.no_referrer;
  policy = lookup-insert name _ value headers ∙ rw n.3 h.policy;
}

content_type-IsOther : IsOther (codes "Content-Type")
unfolding text_eq
content_type-IsOther = (refl, refl, refl, refl)

cache_control-IsOther : IsOther (codes "Cache-Control")
unfolding text_eq
cache_control-IsOther = (refl, refl, refl, refl)

set-IsHardened :
    (name value : Text) (w : Writer)
    → IsOther name
    → IsHardened w
    → IsHardened (set_header name value w)
unfolding response
set-IsHardened name value w n h = elim (Option-cases w.sent) [
  | inl p ↦ rw p (insert-HasSecurity name value w.headers n (rw p at h))
  | inr (first, p) ↦ rw p (rw p at h)
]

no_sniff-IsHardened :
    (w : Writer)
    → IsHardened w
    → IsHardened (set_header (codes "X-Content-Type-Options") (codes "nosniff") w)
unfolding response text_eq
no_sniff-IsHardened w h = elim (Option-cases w.sent) [
  | inl p ↦
      let s = rw p at h in
      rw p (record {
        no_sniff = lookup-insert (codes "X-Content-Type-Options") _ (codes "nosniff") w.headers;
        no_frame =
            lookup-insert (codes "X-Content-Type-Options") _ (codes "nosniff") w.headers
            ∙ s.no_frame;
        no_referrer =
            lookup-insert (codes "X-Content-Type-Options") _ (codes "nosniff") w.headers
            ∙ s.no_referrer;
        policy =
            lookup-insert (codes "X-Content-Type-Options") _ (codes "nosniff") w.headers ∙ s.policy;
      })
  | inr (first, p) ↦ rw p (rw p at h)
]

write-header-IsHardened :
    (status : ℕ) (w : Writer) → IsHardened w → IsHardened (write_header status w)
unfolding response write_header
write-header-IsHardened status w h = elim (Option-cases w.sent) [
  | inl p ↦ rw (p, write_header) (rw p at h)
  | inr (first, p) ↦ rw (p, write_header) h
]

write-IsHardened : (bytes : Text) (w : Writer) → IsHardened w → IsHardened (write bytes w)
unfolding response write
write-IsHardened bytes w h = write-header-IsHardened 200 w h

-- What is set without regard to the response.
pub json-IsHardened :
    (body : Option Text) (status : ℕ) (w : Writer) → IsHardened w → IsHardened (json body status w)
unfolding json
json-IsHardened none status w h = write-IsHardened _ _ (
    write-header-IsHardened 500 _
      (no_sniff-IsHardened _ (set-IsHardened _ _ w content_type-IsOther h)))
json-IsHardened (some body) status w h = write-IsHardened body _ (
    write-header-IsHardened status _
      (set-IsHardened _ _ _ cache_control-IsOther (set-IsHardened _ _ w content_type-IsOther h)))

module _ (marshal : ErrorBody → Option Text) where
  error-IsHardened :
      (status : ℕ) (code message : Text) (w : Writer)
      → IsHardened w
      → IsHardened (error marshal status code message w)
  unfolding error
  error-IsHardened status code message w h = json-IsHardened _ status w h

  recovered-IsHardened : (r : Bool × Writer) → IsHardened r.1 → IsHardened (recovered marshal r)
  recovered-IsHardened (true, w) h = error-IsHardened 500 (codes "internal_error") [] w h
  recovered-IsHardened (false, w) h = h

  -- The response to a handler that has panicked, from what it had sent.
  abbrev pub after_panic : Option (ℕ × Dict Text) → ℕ
  after_panic none = 500
  after_panic (some first) = first.0

  status-json :
      (found : Option Text) (headers : Dict Text) (sent : Option (ℕ × Dict Text)) (body : Text)
      → (response (json found 500 (record { headers = headers; sent = sent; body = body }))).0
        ≡ after_panic sent
  unfolding json response write write_header
  status-json none headers none body = refl
  status-json none headers (some first) body = refl
  status-json (some b) headers none body = refl
  status-json (some b) headers (some first) body = refl

  body-json :
      (found : Option Text) (headers : Dict Text) (sent : Option (ℕ × Dict Text))
      (front body : Text)
      → found ≡ some body
      → (json found 500 (record { headers = headers; sent = sent; body = front })).body
        ≡ front ++ body
  unfolding json write write_header
  body-json none headers sent front body h = ground (arith, h)
  body-json (some b) headers none front body h =
      let same : b ≡ body = ground (arith, h) in ap (λ x. front ++ x) same
  body-json (some b) headers (some first) front body h =
      let same : b ≡ body = ground (arith, h) in ap (λ x. front ++ x) same

  status-recovered :
      (r : Bool × Writer)
      → r.0 ≡ true
      → ((response (recovered marshal r)).0 ≡ after_panic r.1.sent)
        × ((body : Text)
            → marshal (record { error = codes "internal_error"; message = [] }) ≡ some body
            → (recovered marshal r).body ≡ r.1.body ++ body)
  unfolding error
  status-recovered (true, w) h = (
    status-json (marshal _) w.headers w.sent w.body,
    λ body q. body-json (marshal _) w.headers w.sent w.body body q,
  )
  status-recovered (false, w) h = ground (arith, h)

  -- The response that the mux begins with.
  abbrev pub secured : Writer
  secured = (security_headers (λ w. (false, w)) new_writer).1

  secured-IsHardened : IsHardened secured
  unfolding security_headers response lookup insert delete text_eq
  secured-IsHardened = record {
    no_sniff = refl;
    no_frame = refl;
    no_referrer = refl;
    policy = refl;
  }

  abbrev pub refusal : ErrorBody
  refusal = record { error = codes "forbidden_origin"; message = codes "origin not allowed" }

  denied_lem :
      (found : Option Text) (body : Text)
      → found ≡ some body
      → ((response (json found 403 secured)).0 ≡ 403) × ((json found 403 secured).body ≡ body)
  unfolding json security_headers response write write_header
  denied_lem none body h = ground (arith, h)
  denied_lem (some b) body h = (refl, ground (arith, h))

  module _ (o : Origin.Env) (policy : OriginPolicy) where
    -- The response always has the headers; a request that the guard denies is answered with 403; and
    -- one on which the mux panics is answered with 500, or with the status that the mux had sent, and the
    -- error follows what the mux had written.
    pub record IsAnswered (r : Request) (mux : Handler) (w : Writer) : Type 0 where
      pub hardened : IsHardened w
      pub denied :
          csrf o policy r ≡ false
          → (body : Text) → marshal refusal ≡ some body
          → ((response w).0 ≡ 403) × (w.body ≡ body)
      pub panicked :
          csrf o policy r ≡ true
          → (mux secured).0 ≡ true
          → ((response w).0 ≡ after_panic (mux secured).1.sent)
            × ((body : Text)
                → marshal (record { error = codes "internal_error"; message = [] }) ≡ some body
                → w.body ≡ (mux secured).1.body ++ body)
      pub returned : csrf o policy r ≡ true → (mux secured).0 ≡ false → w ≡ (mux secured).1

    chain-allowed :
        (r : Request) (mux : Handler)
        → csrf o policy r ≡ true
        → chain marshal o policy r mux new_writer ≡ recovered marshal (mux secured)
    unfolding chain recover security_headers guard
    chain-allowed r mux h = rw (guard, h) refl

    chain-denied :
        (r : Request) (mux : Handler)
        → csrf o policy r ≡ false
        → chain marshal o policy r mux new_writer ≡ json (marshal refusal) 403 secured
    unfolding chain recover security_headers guard deny error
    chain-denied r mux h = rw (guard, h) refl

    returned_lem : (r : Bool × Writer) → r.0 ≡ false → recovered marshal r ≡ r.1
    returned_lem (true, w) h = ground (arith, h)
    returned_lem (false, w) h = refl

    -- Whatever the handlers behind the chain do, if they leave the security headers alone then the
    -- response has them; a request that the guard denies is answered with 403 and never comes to the
    -- handlers; a panic of the handlers is answered with 500 if nothing was sent, and with the status
    -- that was sent otherwise, and in both cases the encoded error comes behind what was written; and an answer without a panic is passed on as it is.
    pub chain-IsAnswered :
        (r : Request) (mux : Handler)
        → Keeps mux
        → IsAnswered r mux (chain marshal o policy r mux new_writer)
    chain-IsAnswered r mux k = elim (Bool-cases (csrf o policy r)) [
      | inl p ↦ rw (chain-allowed r mux p) (record {
        hardened = recovered-IsHardened (mux secured) (k secured secured-IsHardened);
        denied = λ q. ground (arith, p, q);
        panicked = λ q h. status-recovered (mux secured) h;
        returned = λ q h. returned_lem (mux secured) h;
      })
      | inr p ↦ rw (chain-denied r mux p) (record {
        hardened = json-IsHardened (marshal refusal) 403 secured secured-IsHardened;
        denied = λ q body h. denied_lem (marshal refusal) body h;
        panicked = λ q. ground (arith, p, q);
        returned = λ q. ground (arith, p, q);
      })
    ]
