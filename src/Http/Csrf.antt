-- ===== src/Http/Csrf.antt =====
-- `csrfMiddleware` and its cookie in src/httpserver/middleware.go, and the Fetch Metadata checks of
-- src/httpserver/secfetch.go: which requests reach the handlers.
pub mod Forged
use shortner.Shared.{
  ℕ, ◌+◌, ◌/◌, ◌%◌, Bool, true, false, not, ◌&&◌, ◌||◌, Option, none, some, List, [], ◌∷◌, ◌++◌,
  Bytes, codes, ltb, ◌==◌, if◌then◌else◌, eq_bytes, has_prefix, is_some,
}
use shortner.Library.{Library}
use shortner.Http.Request.{Request, extract_token}
use shortner.Http.Overlay.{
  Incoming, Resolver, OverlayNetwork, clearnet, same_network, is_empty, equal_fold, overlay_of,
}

pub record Csrf : Type 0 where
  pub enabled : Bool
  -- 0 for a length that is not positive.
  pub token_length : ℕ
  pub cookie_name : Bytes
  pub header_name : Bytes
  pub secure : Bytes
  pub exempt_paths : List Bytes

-- What `ExtractToken` reads of the request.
unfoldable pub token_of : Incoming → Bytes
token_of i = extract_token (record {
  path = i.path;
  header = i.header;
  query = i.query;
  slug = [];
  proto = [];
  fqdn = [];
  port = [];
  client_ip = [];
  country = [];
  region = [];
})

-- GET, HEAD and OPTIONS.
unfoldable pub safe_method : Bytes → Bool
safe_method m =
    eq_bytes m (codes "GET") || (eq_bytes m (codes "HEAD") || eq_bytes m (codes "OPTIONS"))

abbrev pub csrf_exempt_paths : List Bytes
csrf_exempt_paths = codes "/api/" ∷ []

any_prefix : Bytes → List Bytes → Bool
any_prefix path [] = false
any_prefix path (p ∷ ps) = has_prefix path p || any_prefix path ps

-- The configured paths, less the empty ones.
any_configured : Bytes → List Bytes → Bool
any_configured path [] = false
any_configured path (p ∷ ps) = (not (is_empty p) && has_prefix path p) || any_configured path ps

unfoldable pub is_csrf_exempt : Bytes → Bool
unfolding any_prefix
is_csrf_exempt path = any_prefix path csrf_exempt_paths

-- By the built-in or the configured paths.
unfoldable pub exempt : Csrf → Bytes → Bool
unfolding any_configured
exempt csrf path = is_csrf_exempt path || any_configured path csrf.exempt_paths

abbrev pub cookie_name : Csrf → Bytes
cookie_name csrf = if is_empty csrf.cookie_name then codes "csrf_token" else csrf.cookie_name

abbrev pub header_name : Csrf → Bytes
header_name csrf = if is_empty csrf.header_name then codes "X-CSRF-Token" else csrf.header_name

-- The value that the request submits: in the header, or else in the form.
abbrev pub submitted : Csrf → Incoming → Bytes
submitted csrf i =
    let sent = i.header (header_name csrf) in
    if is_empty sent then i.form (codes "csrf_token") else sent

abbrev pub matches : Option Bytes → Bytes → Bool
matches none sent = false
matches (some value) sent = not (is_empty value) && (not (is_empty sent) && eq_bytes sent value)

-- `true` calls the next handler; `false` answers CSRF_FAILED.
unfoldable pub csrf_passes : Csrf → Incoming → Bool
csrf_passes csrf i =
    if not csrf.enabled
    then true
    else if safe_method i.method
    then true
    else if equal_fold (i.header (codes "Upgrade")) (codes "websocket")
    then true
    else if not (is_empty (token_of i))
    then true
    else if exempt csrf i.path
    then true
    else matches (i.cookie (cookie_name csrf)) (submitted csrf i)

hex_digit : ℕ → ℕ
hex_digit d = if ltb d 10 then 48 + d else 87 + d

hex : Bytes → Bytes
unfolding hex_digit
hex [] = []
hex (b ∷ s) = hex_digit (b / 16) ∷ hex_digit (b % 16) ∷ hex s

pub record Cookie : Type 0 where
  pub name : Bytes
  pub value : Bytes
  pub secure : Bool

abbrev csrf_token : Csrf → Bool → Option Bytes → Option Cookie
csrf_token csrf secure none = none
csrf_token csrf secure (some bytes) =
    some (record { name = cookie_name csrf; value = hex bytes; secure = secure })

-- The cookie that a safe request is answered with; `random` reads so many random bytes, `none` for its
-- error.
unfoldable pub ensure_csrf_cookie :
    Library → Resolver → Csrf → (ℕ → Option Bytes) → Incoming → Option Cookie
unfolding hex
ensure_csrf_cookie lib r csrf random i =
    let overlay = not (same_network (overlay_of lib r i) clearnet) in
    let secure =
      eq_bytes csrf.secure (codes "true")
      || (eq_bytes csrf.secure (codes "auto") && (i.tls || overlay)) in
    if is_some (i.cookie (cookie_name csrf))
    then none
    else csrf_token csrf secure (random (if csrf.token_length == 0 then 32 else csrf.token_length))

unfoldable pub state_changing_method : Bytes → Bool
state_changing_method m =
    eq_bytes m (codes "POST")
    || (eq_bytes m (codes "PUT") || (eq_bytes m (codes "PATCH") || eq_bytes m (codes "DELETE")))

-- `secFetchMiddleware`, with the setting `SecFetchValidation`: `false` answers FORBIDDEN.
unfoldable pub sec_fetch_passes : Bool → Incoming → Bool
sec_fetch_passes validation i =
    let cross_site = eq_bytes (i.header (codes "Sec-Fetch-Site")) (codes "cross-site") in
    let navigates = eq_bytes (i.header (codes "Sec-Fetch-Mode")) (codes "navigate") in
    if not validation || not (state_changing_method i.method)
    then true
    else if cross_site && (is_empty (token_of i) && not (is_csrf_exempt i.path))
    then false
    else not (navigates && has_prefix i.path (codes "/api/"))
