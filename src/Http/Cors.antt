-- ===== src/Http/Cors.antt =====
-- `corsMiddleware` of src/httpserver/middleware.go, and `corsAPIMiddleware` of links.go.
pub mod Credentials
use shortner.Shared.{
  ℕ, Bool, true, false, not, ◌&&◌, Option, none, some, List, [], ◌∷◌, ◌++◌, Bytes, codes, ltb,
  if◌then◌else◌, eq_bytes, format_int, put,
}
use shortner.Http.Overlay.{is_empty, equal_fold}

pub record Cors : Type 0 where
  pub allowed_origins : List Bytes
  pub allow_credentials : Bool
  -- 0 for an age that is not positive.
  pub max_age : ℕ

-- Not allowed, by the wildcard, or by an origin of the list.
pub data Match : Type 0 where
  refused wildcard explicit : Match

abbrev pub match_origin : Bool → List Bytes → Bytes → Match
match_origin credentials [] origin = refused
match_origin credentials (o ∷ os) origin =
    let rest = match_origin credentials os origin in
    if eq_bytes o (codes "*")
    then (if credentials then rest else wildcard)
    else if equal_fold o origin
    then explicit
    else rest

abbrev any_origin : List Bytes → Bool
any_origin [] = true
any_origin (o ∷ os) = false

unfoldable pub origin_allowed : Cors → Bytes → Match
origin_allowed cors origin =
    if any_origin cors.allowed_origins
    then wildcard
    else match_origin cors.allow_credentials cors.allowed_origins origin

abbrev pub allow_headers : Bytes
allow_headers =
    codes "Authorization, X-API-Key, API-Key, X-Auth-Token, "
    ++ codes "X-Access-Token, X-Token, Token, Content-Type, X-CSRF-Token, X-Request-ID"

abbrev pub Headers : Type 0
Headers = List (Bytes × Bytes)

abbrev common_headers : Cors → Headers
common_headers cors =
    (codes "Access-Control-Allow-Methods", codes "GET, POST, PUT, PATCH, DELETE, OPTIONS")
    ∷ (codes "Access-Control-Allow-Headers", allow_headers)
    ∷ (if ltb 0 cors.max_age
        then (codes "Access-Control-Max-Age", format_int cors.max_age) ∷ []
        else [])

abbrev credential_headers : Cors → Headers
credential_headers cors =
    if cors.allow_credentials
    then (codes "Access-Control-Allow-Credentials", codes "true") ∷ []
    else []

abbrev headers_for : Cors → Bytes → Match → Headers
headers_for cors origin refused = []
headers_for cors origin wildcard =
    (codes "Access-Control-Allow-Origin", codes "*") ∷ common_headers cors
headers_for cors origin explicit =
    (codes "Access-Control-Allow-Origin", origin)
    ∷ (codes "Vary", codes "Origin")
    ∷ (credential_headers cors ++ common_headers cors)

-- The headers that are set for a request with the origin, "" for none.
unfoldable pub cors_headers : Cors → Bytes → Headers
unfolding origin_allowed
cors_headers cors origin =
    if is_empty origin then [] else headers_for cors origin (origin_allowed cors origin)

-- `Header.Set` replaces a header of the name.
abbrev pub set_header : Bytes → Bytes → Headers → Headers
set_header = put

abbrev pub api_methods : Bytes
api_methods = codes "GET, POST, PATCH, DELETE, OPTIONS"

abbrev pub api_allow_headers : Bytes
api_allow_headers =
    codes "Authorization, Content-Type, X-API-Key, API-Key, X-Auth-Token, "
    ++ codes "X-Access-Token, X-Token, Token"

-- `corsAPIMiddleware`, on what is set before it.
unfoldable pub cors_api_headers : Headers → Headers
cors_api_headers headers = set_header (codes "Access-Control-Allow-Headers") api_allow_headers (
    set_header (codes "Access-Control-Allow-Methods") api_methods
      (set_header (codes "Access-Control-Allow-Origin") (codes "*") headers))

-- An OPTIONS request with an origin is answered at once.
unfoldable pub is_preflight : Bytes → Bytes → Bool
is_preflight method origin = eq_bytes method (codes "OPTIONS") && not (is_empty origin)

-- The headers of the answer: a preflight is answered by `corsMiddleware`, and a request that reaches
-- the routes under /api, as the flag says, goes through both.
unfoldable pub answer_headers : Cors → Bytes → Bytes → Bool → Headers
unfolding cors_headers cors_api_headers is_preflight
answer_headers cors method origin under_api =
    if under_api && not (is_preflight method origin)
    then cors_api_headers (cors_headers cors origin)
    else cors_headers cors origin
