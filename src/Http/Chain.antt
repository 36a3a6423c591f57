-- ===== src/Http/Chain.antt =====
-- `setupMiddleware` of src/httpserver/middleware.go: the stages that a request passes on its way to the
-- handlers, in their order; and `IsBlocked` of src/geoip. The stages that only set response headers,
-- or write log lines and metrics, are left out.
pub mod Passed
pub mod Admitted
pub mod Untouched
pub mod Samples
use shortner.Shared.{
  ℕ, Bool, true, false, not, ◌&&◌, ◌||◌, Option, none, some, List, [], ◌∷◌, Bytes, codes,
  if◌then◌else◌, eq_bytes,
}
use shortner.Library.{Library, Ip}
use shortner.AppErr
use shortner.AppErr.{Code}
use shortner.Security.Token.{compare_server_token}
use shortner.Http.Overlay.{Incoming, Resolver, is_empty, equal_fold}
use shortner.Http.Proxy.{resolve_client_ip}
use shortner.Http.Normalize.{Normalized, moved, next, url_normalize, path_security}
use shortner.Http.IpBlock.{Guard, allowlist_contains, screen}
use shortner.Http.RateLimit
use shortner.Http.RateLimit.{Limiter, allow, classify}
use shortner.Http.Csrf.{Csrf, token_of, csrf_passes, sec_fetch_passes}
use shortner.Http.Cors.{Cors, is_preflight}

-- What the stages are configured with; `country` is the country code that the database has for an
-- address.
pub record Deps : Type 0 where
  pub resolver : Resolver
  pub cors : Cors
  pub csrf : Csrf
  pub sec_fetch_validation : Bool
  pub limits : RateLimit.Config
  pub operator_token : Bytes
  pub geo_enabled : Bool
  pub deny_countries : List Bytes
  pub allow_countries : List Bytes
  pub country : Ip → Bytes

-- What the stages keep.
pub record Server : Type 0 where
  pub guard : Guard
  pub limiter : Limiter

pub data Answer : Type 0 where
  -- 204, 301 to an address, an error, and 429 with its Retry-After.
  preflight : Answer
  redirected : Bytes → Answer
  refused : Code → Answer
  limited : ℕ → Answer
  -- The request for the handlers, and whether it is the operator's.
  handled : Incoming → Bool → Answer

contains_fold : List Bytes → Bytes → Bool
contains_fold [] code = false
contains_fold (c ∷ cs) code = equal_fold c code || contains_fold cs code

abbrev is_listed : List Bytes → Bool
is_listed [] = false
is_listed (c ∷ cs) = true

unfoldable pub is_blocked : Bytes → List Bytes → List Bytes → Bool
unfolding contains_fold
is_blocked code deny allowed =
    if is_empty code
    then false
    else if is_listed allowed
    then not (contains_fold allowed code)
    else is_listed deny && contains_fold deny code

abbrev blocks_address : Deps → Option Ip → Bool
blocks_address d none = false
blocks_address d (some ip) = is_blocked (d.country ip) d.deny_countries d.allow_countries

-- `geoIPMiddleware`
unfoldable pub geo_passes : Library → Deps → Bool → Bytes → Bool
geo_passes lib d allowlisted ip =
    if not d.geo_enabled || allowlisted
    then true
    else if not (is_listed d.deny_countries) && not (is_listed d.allow_countries)
    then true
    else not (blocks_address d (lib.parse_ip ip))

-- `authMiddleware`
unfoldable pub operator_of : Library → Deps → Incoming → Bool
operator_of lib d i =
    not (is_empty (token_of i)) && compare_server_token lib.hash (token_of i) d.operator_token

abbrev at_csrf : Library → Deps → Incoming → Answer
at_csrf lib d i =
    if csrf_passes d.csrf i then handled i (operator_of lib d i) else refused AppErr.csrf_failed

abbrev at_sec_fetch : Library → Deps → Incoming → Answer
at_sec_fetch lib d i =
    if sec_fetch_passes d.sec_fetch_validation i then at_csrf lib d i else refused AppErr.forbidden

abbrev at_geo : Library → Deps → Bool → Bytes → Incoming → Answer
at_geo lib d allowlisted ip i =
    if geo_passes lib d allowlisted ip then at_sec_fetch lib d i else refused AppErr.forbidden

abbrev at_limit : Library → Deps → ℕ → Bool → Bytes → Incoming → Server → Answer × Server
at_limit lib d now allowlisted ip i s =
    let q = allow d.limits now ip (classify i.method i.path) s.limiter in
    if allowlisted
    then (at_geo lib d allowlisted ip i, s)
    else if q.0.0
    then (at_geo lib d allowlisted ip i, record s { limiter = q.1 })
    else (limited q.0.1, record s { limiter = q.1 })

abbrev at_guard : Library → Deps → ℕ → ℕ → Incoming → Server → Answer × Server
at_guard lib d now later i s =
    let ip = resolve_client_ip lib d.resolver i in
    let q = screen lib ip now s.guard in
    if q.0
    then at_limit lib d later (allowlist_contains lib s.guard.allowlist ip) ip i
        (record s { guard = q.1 })
    else (refused AppErr.forbidden, record s { guard = q.1 })

abbrev at_security : Library → Deps → ℕ → ℕ → Incoming → Server → Bool × Bytes → Answer × Server
at_security lib d now later i s (false, path) = (refused AppErr.bad_request, s)
at_security lib d now later i s (true, path) = at_guard lib d now later (record i { path = path }) s

abbrev at_normalize : Library → Deps → ℕ → ℕ → Incoming → Server → Normalized → Answer × Server
at_normalize lib d now later i s (moved dest) = (redirected dest, s)
at_normalize lib d now later i s (next path) =
    at_security lib d now later i s (path_security lib i.raw_path path)

-- The answer to a request that the guard sees at one instant and the limiter at a later one.
unfoldable pub setup_middleware : Library → Deps → ℕ → ℕ → Incoming → Server → Answer × Server
setup_middleware lib d now later i s =
    if is_preflight i.method (i.header (codes "Origin"))
    then (preflight, s)
    else at_normalize lib d now later i s (url_normalize i.raw_query i.path)
