-- ===== src/Tests/Chain.antt =====
-- A request for Ann's new ticket from a page of the allowlist, with her cookie.
use cb_back.Prelude.{arith, ◌≡◌, refl, some, [], ◌∷◌, codes, text_eq, ◌⊎◌}
use cb_back.Http.Origin
use cb_back.Auth.Middleware.{
  answer, token_from, identity_of, identify, require, Identity, bearer_token,
}
use cb_back.Gateway.{find_route, Request, session_part, to_ws_ticket, serve_request}
use cb_back.Gateway.Guard.{is_open, serve-IsAuthentic, serve-SomeNames}
use cb_back.Tests.Services.{signed_in}
use cb_back.Tests.Session.{service, identity}
use cb_back.Prelude.Strings.{trim_right, trim_left, split, cut, among}
use cb_back.Gateway.Patterns.{fit_segments}
use cb_back.Auth.Sessions.{touch, find_read, find}
use cb_back.Auth.Middleware.Guard.{IsAuthentic}
use cb_back.Tests.Backend.{urls, policy}

abbrev request : Request
request = record {
  method = codes "POST";
  host = codes "api.b";
  path = codes "/api/auth/ws-ticket";
  origin = codes "https://A.b";
  authorization = [];
  cookie = some (codes "tok");
  ticket = [];
}

serve-IsAuthentic_example :
    (i : Identity) × (some identity ≡ some i)
    × IsAuthentic service (session_part request) 50 signed_in i
unfolding serve_request Origin.csrf Origin.allow text_eq among find_route fit_segments cut split
    require identify identity_of token_from answer find find_read touch is_open
serve-IsAuthentic_example =
    serve-IsAuthentic urls policy service request 50 signed_in to_ws_ticket (some identity) refl
      refl

serve-SomeNames_example :
    (identity.token ≡ bearer_token service [])
    ⊎ Origin.SomeNames urls (codes "https://a.b") (codes "https://a.b" ∷ [])
unfolding Origin.new_origin_policy Origin.permitted_of serve_request Origin.csrf Origin.allow
    text_eq among find_route fit_segments cut split trim_left trim_right require identify
    identity_of token_from answer find find_read touch
serve-SomeNames_example =
    serve-SomeNames urls policy service (codes "https://a.b") request 50 signed_in to_ws_ticket
      identity refl refl (λ h. ground (arith, h)) (λ h. ground (arith, h)) (λ h. ground (arith, h))
      refl refl
