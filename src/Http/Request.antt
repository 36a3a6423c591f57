-- ===== src/Http/Request.antt =====
-- What the link handlers read of a request: src/httpserver/negotiate.go, `BuildURL` of urlvars.go,
-- `ExtractToken` and `authMiddleware` of middleware.go, `parsePagination` of links.go.
use shortner.Shared.{
  decimal, ℕ, ◌^◌, Bool, true, false, not, ◌&&◌, ◌||◌, Option, none, some, List, [], ◌∷◌, ◌++◌, map,
  Bytes, codes, ltb, ◌==◌, if◌then◌else◌, length, drop, eq_bytes, has_prefix, contains, has_suffix,
  to_lower, trim_space,
}
use shortner.Library.{Library}
use shortner.Security.Token.{compare_server_token}

pub record Request : Type 0 where
  pub path : Bytes
  -- `Header.Get` and `URL.Query().Get`: "" where there is none.
  pub header : Bytes → Bytes
  pub query : Bytes → Bytes
  -- chi's `{slug}`
  pub slug : Bytes
  -- The results of `GetURLVars` and `ResolveClientIP`, and the country and region of the address.
  pub proto : Bytes
  pub fqdn : Bytes
  pub port : Bytes
  pub client_ip : Bytes
  pub country : Bytes
  pub region : Bytes

abbrev is_empty : Bytes → Bool
is_empty s = eq_bytes s []

any_contained : Bytes → List Bytes → Bool
any_contained s [] = false
any_contained s (p ∷ ps) = contains s p || any_contained s ps

abbrev http_tool_user_agents : List Bytes
http_tool_user_agents =
    codes "curl"
    ∷ codes "wget"
    ∷ codes "httpie"
    ∷ codes "python-requests"
    ∷ codes "go-http-client"
    ∷ []

unfoldable pub is_http_tool : Request → Bool
unfolding any_contained
is_http_tool r =
    let ua = map to_lower (r.header (codes "User-Agent")) in
    if is_empty ua then true else any_contained ua http_tool_user_agents

unfoldable pub wants_text : Request → Bool
unfolding is_http_tool
wants_text r =
    let accept = r.header (codes "Accept") in
    if has_suffix r.path (codes ".txt")
    then true
    else if contains accept (codes "application/json")
    then false
    else if contains accept (codes "text/plain")
    then true
    else is_http_tool r

abbrev is_default_port : Bytes → Bytes → Bool
is_default_port proto port =
    (eq_bytes proto (codes "http") && eq_bytes port (codes "80"))
    || (eq_bytes proto (codes "https") && eq_bytes port (codes "443"))

unfoldable pub build_url : Request → Bytes → Bytes
build_url r req_path =
    let port =
      if not (is_empty r.port) && not (is_default_port r.proto r.port)
      then codes ":" ++ r.port
      else [] in
    let slash = if not (has_prefix req_path (codes "/")) then codes "/" else [] in
    r.proto ++ (codes "://" ++ (r.fqdn ++ (port ++ (slash ++ req_path))))

-- The first header of the list that is not blank.
first_header : Request → List Bytes → Option Bytes
first_header r [] = none
first_header r (h ∷ hs) =
    let v = trim_space (r.header h) in
    let rest = first_header r hs in if not (is_empty v) then some v else rest

abbrev or_else : Option Bytes → Bytes → Bytes
or_else none d = d
or_else (some v) d = v

unfoldable pub extract_token : Request → Bytes
unfolding first_header
extract_token r =
    let v = r.header (codes "Authorization") in
    let bearer = codes "Bearer " in
    if not (is_empty v)
    then (if has_prefix v bearer then trim_space (drop (length bearer) v) else trim_space v)
    else or_else
        (first_header r (
          codes "X-API-Key"
          ∷ codes "API-Key"
          ∷ codes "X-Auth-Token"
          ∷ codes "X-Access-Token"
          ∷ codes "X-Token"
          ∷ codes "Token"
          ∷ []))
        (trim_space (r.query (codes "token")))

-- The flag that `authMiddleware` puts in the context.
unfoldable pub is_operator : Library → Bytes → Request → Bool
unfolding extract_token compare_server_token
is_operator lib operator_token r =
    let token = extract_token r in
    not (is_empty token) && compare_server_token lib.hash token operator_token

abbrev positive : Option ℕ → Option ℕ
positive none = none
positive (some v) = if ltb 0 v && ltb v (2 ^ 63) then some v else none

abbrev unsigned : Bytes → Option ℕ
unsigned [] = none
unsigned s = positive (decimal 0 s)

-- `v` where `v, err := strconv.Atoi(s); err == nil && v > 0`; with a minus sign no `v` is positive.
unfoldable pub atoi_positive : Bytes → Option ℕ
unfolding decimal
atoi_positive [] = none
atoi_positive (c ∷ s) = if c == b'+' then unsigned s else unsigned (c ∷ s)

abbrev pub max_page_limit : ℕ
max_page_limit = 250

abbrev or_number : Option ℕ → ℕ → ℕ
or_number none d = d
or_number (some v) d = v

-- Page and limit.
unfoldable pub parse_pagination : Request → ℕ × ℕ
unfolding atoi_positive
parse_pagination r =
    let page = or_number (atoi_positive (r.query (codes "page"))) 1 in
    let limit = or_number (atoi_positive (r.query (codes "limit"))) 250 in
    (page, if ltb max_page_limit limit then max_page_limit else limit)
