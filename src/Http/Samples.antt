-- ===== src/Http/Samples.antt =====
-- Sample states and requests, and runs of the handlers on them.
use shortner.Shared.{
  false, ℕ, ◌*◌, ◌≡◌, refl, Bool, Option, none, some, [], ◌∷◌, ◌++◌, Bytes, codes, if◌then◌else◌,
  eq_bytes, format_int,
}
use shortner.Library.{Library}
use shortner.AppErr
use shortner.Shared
use shortner.Security.Slug
use shortner.Security.Token
use shortner.Db.Links
use shortner.Db.Exec
use shortner.Db.Rows
use shortner.Db.Tokens
use shortner.Http.Request
use shortner.Http.Response
use shortner.Http.Resolve
use shortner.Db.Exec.{Db, Tables}
use shortner.Http.Request.{Request}
use shortner.Http.Response.{
  Response, created_text, redirect, failure, canonical, slug_in_use, deleted,
}
use shortner.Http.Links.{CreateLinkRequest, create_link_handler}
use shortner.Http.Manage.{delete_link_handler}
use shortner.Http.Resolve.{resolve_handler}

-- Each byte string is its own hash, every URL is of example.org, and every expiry is the instant 9.
abbrev pub sample_library : Library
sample_library = record {
  hash = λ raw. raw;
  parse_ip = λ raw. none;
  ip_string = λ ip. [];
  parse_url = λ raw. some (record { scheme = codes "https"; host = codes "example.org" });
  parse_rfc3339 = λ s. some 9;
  parse_cidr = λ s. some (record { text = s; covers = λ ip. false; ones = 32; bits = 32 });
  parse_duration = λ s. none;
  split_host_port = λ s. none;
  lookup_host = λ s. none;
  is_local = λ ip. false;
  path_clean = λ s. s;
  base64 = λ s. s;
  mac = λ key text. text ++ codes "0123456789abcdef";
  utc_text = λ t. elim t [ none ↦ codes "0001-01-01T00:00:00Z" | some n ↦ format_int n ];
}

abbrev pub empty_tables : Tables
empty_tables = record {
  links = [];
  clicks = [];
  tokens = [];
  last_link = 0;
  last_click = 0;
  last_token = 0;
  secrets = [];
  tasks = [];
  history = [];
  last_history = 0;
}

abbrev pub sixteen : Bytes → Bytes
sixteen rest = 0 ∷ 1 ∷ 2 ∷ 3 ∷ 4 ∷ 5 ∷ 6 ∷ 7 ∷ 8 ∷ 9 ∷ 10 ∷ 11 ∷ 12 ∷ 13 ∷ 14 ∷ 15 ∷ rest

abbrev pub start : Db
start = record {
  tables = empty_tables;
  schedule = [];
  now = 1_000 * 1_000_000_000;
  random = sixteen (sixteen (sixteen (sixteen [])));
}

abbrev pub request : Bytes → Bytes → Request
request slug token = record {
  path = codes "/";
  header = λ h.
      if eq_bytes h (codes "Token")
      then token
      else if eq_bytes h (codes "User-Agent")
      then codes "curl"
      else [];
  query = λ q. [];
  slug = slug;
  proto = codes "https";
  fqdn = codes "s.example";
  port = codes "443";
  client_ip = codes "192.0.2.1";
  country = [];
  region = [];
}

abbrev pub create_body : Option CreateLinkRequest
create_body =
    some (record { url = codes "https://example.org/a"; slug = codes "my-slug"; expires_at = none })

abbrev pub after_create : Db
after_create = (create_link_handler sample_library (request [] []) create_body start).1

-- Names on its line all that the runs below compute with.
unfoldable pub all_open : ℕ
unfolding create_link_handler resolve_handler delete_link_handler Shared.eq_bytes Shared.trim_space
    Shared.has_prefix Shared.contains Shared.format_int Shared.to_lower Shared.is_space
    Slug.validate_slug_format Slug.is_reserved_slug Slug.generate_short_code Token.generate_token
    Token.token_prefix Token.compare_token_hash Links.create_link_custom_slug Links.insert_links
    Links.select_by_id Links.select_by_code Links.delete_clicks Links.delete_tokens
    Links.delete_links Links.delete_link Links.get_link_by_id Links.get_link_by_short_code Exec.exec
    Exec.with_transaction Exec.is_unique_constraint_error Tokens.create_resource_token
    Tokens.insert_tokens Tokens.select_token Tokens.select_by_prefix Tokens.lookup_token_by_raw
    Rows.scan_link Rows.scan_token Rows.is_active Rows.is_expired Request.wants_text
    Request.build_url Request.extract_token Request.is_operator Response.to_link_response
    Resolve.is_bot_user_agent
all_open = 0

create_runs :
    (create_link_handler sample_library (request [] []) create_body start).0
    ≡ created_text (codes "https://s.example/my-slug")
unfolding all_open
create_runs = refl

create_again :
    (create_link_handler sample_library (request [] []) create_body after_create).0
    ≡ failure AppErr.conflict slug_in_use
unfolding all_open
create_again = refl

resolve_runs :
    (resolve_handler sample_library (request (codes "my-slug") []) after_create).0
    ≡ redirect (codes "https://example.org/a")
unfolding all_open
resolve_runs = refl

delete_refused :
    (delete_link_handler sample_library []
      (request (codes "my-slug") (codes "tok_x"))
      after_create).0
    ≡ failure AppErr.forbidden canonical
unfolding all_open
delete_refused = refl

delete_runs :
    (delete_link_handler sample_library []
      (request (codes "my-slug") (codes "tok_ABCDEFGHIJKLMNOPABCDEFGHIJKLMNOP"))
      after_create).0
    ≡ deleted (codes "my-slug")
unfolding all_open
delete_runs = refl
