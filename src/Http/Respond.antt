-- ===== src/Http/Respond.antt =====
-- internal/httpx/respond.go: JSON, Error, Recover and SecurityHeaders, over a response as net/http
-- keeps it.
pub mod Chain
use cb_back.Prelude.{
  ℕ, Bool, true, false, Option, none, some, List, [], ◌∷◌, ◌++◌, Text, codes, Dict, insert,
  if◌then◌else◌,
}
use cb_back.Http.Origin
use cb_back.Http.Origin.{OriginPolicy, Request, csrf}

pub record ErrorBody : Type 0 where
  pub error : Text
  pub message : Text

-- The headers as they are set, under their canonical names; the status that was sent, with the headers
-- as they were at that time; and what was written to the body.
pub record Writer : Type 0 where
  pub headers : Dict Text
  pub sent : Option (ℕ × Dict Text)
  pub body : Text

abbrev pub new_writer : Writer
new_writer = record { headers = []; sent = none; body = [] }

abbrev pub set_header : Text → Text → Writer → Writer
set_header name value w = record w { headers = insert name value w.headers }

-- WriteHeader; the second one has no effect.
unfoldable pub write_header : ℕ → Writer → Writer
write_header status w = elim w.sent [
  | none ↦ record w { sent = some (status, w.headers) }
  | some first ↦ w
]

-- Write; without a status before it, that is 200.
unfoldable pub write : Text → Writer → Writer
write bytes w = let w' = write_header 200 w in record w' { body = w'.body ++ bytes }

-- The response once the handler has returned.
unfoldable pub response : Writer → ℕ × Dict Text
response w = elim w.sent [ none ↦ (200, w.headers) | some first ↦ first ]

-- A handler returns, or panics (true), with what it has done to the response.
abbrev pub Handler : Type 0
Handler = Writer → Bool × Writer

-- http.Error.
abbrev pub http_error : Text → ℕ → Writer → Writer
http_error text status w = write (text ++ 10 ∷ []) (
    write_header status (
      set_header (codes "X-Content-Type-Options") (codes "nosniff")
        (set_header (codes "Content-Type") (codes "text/plain; charset=utf-8") w)))

-- What json.Marshal gives is the first argument; an error of Write is only logged.
unfoldable pub json : Option Text → ℕ → Writer → Writer
json none status w = http_error (codes "{\"error\":\"internal_error\"}") 500 w
json (some body) status w = write body (
    write_header status (
      set_header (codes "Cache-Control") (codes "no-store")
        (set_header (codes "Content-Type") (codes "application/json; charset=utf-8") w)))

unfoldable pub security_headers : Handler → Handler
security_headers next w = next (
    set_header (codes "Content-Security-Policy")
      (codes "default-src 'none'; frame-ancestors 'none'")
      (set_header (codes "Referrer-Policy") (codes "no-referrer") (
        set_header (codes "X-Frame-Options") (codes "DENY")
          (set_header (codes "X-Content-Type-Options") (codes "nosniff") w))))

-- `marshal` is json.Marshal.
module _ (marshal : ErrorBody → Option Text) where
  unfoldable pub error : ℕ → Text → Text → Writer → Writer
  error status code message w = json (marshal (record { error = code; message = message })) status w

  abbrev pub recovered : Bool × Writer → Writer
  recovered (true, w) = error 500 (codes "internal_error") [] w
  recovered (false, w) = w

  unfoldable pub recover : Handler → Writer → Writer
  recover next w = recovered (next w)

  -- The `deny` of main.go.
  unfoldable pub deny : Text → Handler
  deny reason w = (false, error 403 (codes "forbidden_origin") reason w)

  module _ (o : Origin.Env) (policy : OriginPolicy) where
    -- CSRF of origin.go.
    unfoldable pub guard : Request → Handler → Handler
    guard r mux w = if csrf o policy r then mux w else deny (codes "origin not allowed") w

    -- The chain of main.go around its mux.
    unfoldable pub chain : Request → Handler → Writer → Writer
    chain r mux = recover (security_headers (guard r mux))
