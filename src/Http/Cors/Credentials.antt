-- ===== src/Http/Cors/Credentials.antt =====
-- Which origins may read an answer to a request with credentials (src/httpserver/middleware.go).
use shortner.Shared.{
  ◌≡◌, refl, sym, ◌∙◌, get-put, if◌then◌else◌, Bool, true, false, inl, inr, not, ◌&&◌, ◌||◌, none,
  some, List, [], ◌∷◌, ◌++◌, Bytes, codes, ltb, eq_bytes, get, Bool-cases, arith,
}
use shortner.Http.Overlay.{is_empty, equal_fold}
use shortner.Http.Cors.{
  Cors, Match, refused, wildcard, explicit, match_origin, origin_allowed, Headers, headers_for,
  cors_headers, set_header, api_methods, api_allow_headers, cors_api_headers, answer_headers,
  is_preflight, credential_headers, common_headers, any_origin,
}

-- An origin of the list is the request's, whatever the case of its letters.
abbrev pub listed : List Bytes → Bytes → Bool
listed [] origin = false
listed (o ∷ os) origin = (not (eq_bytes o (codes "*")) && equal_fold o origin) || listed os origin

explicit_listed :
    (credentials : Bool) (os : List Bytes) (origin : Bytes)
    → match_origin credentials os origin ≡ explicit
    → listed os origin ≡ true
explicit_listed credentials [] origin h = absurd (ground (arith, h))
explicit_listed credentials (o ∷ os) origin h =
    let rest = explicit_listed credentials os origin in ground (arith, rest, h)

abbrev credentials_key : Bytes
credentials_key = codes "Access-Control-Allow-Credentials"

common_uncredited : (cors : Cors) → get credentials_key (common_headers cors) ≡ none
unfolding eq_bytes
common_uncredited cors = elim (Bool-cases (ltb 0 cors.max_age)) [
  | inl aged ↦ rw aged refl
  | inr ageless ↦ rw ageless refl
]

credential_headers_credited :
    (cors : Cors)
    → get credentials_key (credential_headers cors ++ common_headers cors) ≡ some (codes "true")
    → cors.allow_credentials ≡ true
credential_headers_credited cors h = elim (Bool-cases cors.allow_credentials) [
  | inl on ↦ on
  | inr off ↦
      let none_set : get credentials_key (common_headers cors) ≡ some (codes "true") =
        rw off at h in
      absurd (ground (arith, none_set, common_uncredited cors))
]

allowed_listed :
    (cors : Cors) (origin : Bytes)
    → origin_allowed cors origin ≡ explicit
    → listed cors.allowed_origins origin ≡ true
unfolding origin_allowed
allowed_listed cors origin h = elim (Bool-cases (any_origin cors.allowed_origins)) [
  | inl any ↦ let wrong : wildcard ≡ explicit = rw any at h in absurd (ground (arith, wrong))
  | inr some_listed ↦
      explicit_listed cors.allow_credentials cors.allowed_origins origin (rw some_listed at h)
]

-- What an answer that allows credentials shows.
abbrev Vouched : Cors → Bytes → Headers → Type 0
Vouched cors origin headers =
    (cors.allow_credentials ≡ true)
    × (listed cors.allowed_origins origin ≡ true)
    × (get (codes "Access-Control-Allow-Origin") headers ≡ some origin)

headers_for-Vouched :
    (cors : Cors) (origin : Bytes)
    → get credentials_key (headers_for cors origin (origin_allowed cors origin))
      ≡ some (codes "true")
    → Vouched cors origin (headers_for cors origin (origin_allowed cors origin))
unfolding eq_bytes
headers_for-Vouched cors origin = by_match (origin_allowed cors origin) refl
  where
    by_match :
        (m : Match)
        → origin_allowed cors origin ≡ m
        → get credentials_key (headers_for cors origin m) ≡ some (codes "true")
        → Vouched cors origin (headers_for cors origin m)
    by_match refused is h = absurd (ground (arith, h))
    by_match wildcard is h = absurd (ground (arith, h, common_uncredited cors))
    by_match explicit is h =
        (credential_headers_credited cors h, allowed_listed cors origin is, refl)

cors_headers-Vouched :
    (cors : Cors) (origin : Bytes)
    → get credentials_key (cors_headers cors origin) ≡ some (codes "true")
    → Vouched cors origin (cors_headers cors origin)
unfolding cors_headers
cors_headers-Vouched cors origin h = elim (Bool-cases (is_empty origin)) [
  | inl without ↦
      let nothing : get credentials_key [] ≡ some (codes "true") = rw without at h in
      absurd (ground (arith, nothing))
  | inr given ↦ rw given (headers_for-Vouched cors origin (rw given at h))
]

-- The credentials are the outer middleware's, and the origin is the inner one's.
cors_api_headers_set :
    (headers : Headers)
    → (get credentials_key (cors_api_headers headers) ≡ get credentials_key headers)
      × (get (codes "Access-Control-Allow-Origin") (cors_api_headers headers) ≡ some (codes "*"))
unfolding cors_api_headers eq_bytes
cors_api_headers_set headers =
    let first = set_header (codes "Access-Control-Allow-Origin") (codes "*") headers in
    let second = set_header (codes "Access-Control-Allow-Methods") api_methods first in
    let name = codes "Access-Control-Allow-Headers" in
    let origin_key = codes "Access-Control-Allow-Origin" in
    let methods = codes "Access-Control-Allow-Methods" in
    (
      get-put credentials_key name api_allow_headers second
          ∙ get-put credentials_key methods api_methods first
          ∙ get-put credentials_key origin_key (codes "*") headers,
      get-put origin_key name api_allow_headers second
          ∙ get-put origin_key methods api_methods first
          ∙ get-put origin_key origin_key (codes "*") headers,
    )

-- What an answer that allows credentials shows: whom it lets read it is the request's own origin, which
-- the configuration lists, or, where the API middleware wrote its own, the wildcard.
abbrev pub Credited : Cors → Bytes → Bytes → Bool → Headers → Type 0
Credited cors method origin under_api headers =
    (cors.allow_credentials ≡ true)
    × (listed cors.allowed_origins origin ≡ true)
    × (get (codes "Access-Control-Allow-Origin") headers
        ≡ some (if under_api && not (is_preflight method origin) then codes "*" else origin))

-- An answer that allows credentials goes to a request whose origin the configuration lists, under a
-- configuration that allows credentials. Outside /api, and for a preflight, it names that origin as
-- the one that may read it. For any other request that reaches a route under /api it names the
-- wildcard, since the API middleware replaces the origin and leaves the credentials header.
pub answer_headers-Credited :
    (cors : Cors) (method origin : Bytes) (under_api : Bool)
    → get (codes "Access-Control-Allow-Credentials") (answer_headers cors method origin under_api)
      ≡ some (codes "true")
    → Credited cors method origin under_api (answer_headers cors method origin under_api)
unfolding answer_headers
answer_headers-Credited cors method origin under_api h =
    elim (Bool-cases (under_api && not (is_preflight method origin))) [
      | inr outer ↦ rw outer (cors_headers-Vouched cors origin (rw outer at h))
      | inl both ↦
          let kept = cors_api_headers_set (cors_headers cors origin) in
          let vouched = cors_headers-Vouched cors origin (sym kept.0 ∙ (rw both at h)) in
          rw both (vouched.0, vouched.1, kept.1)
    ]
