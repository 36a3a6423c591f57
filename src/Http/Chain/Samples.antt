-- ===== src/Http/Chain/Samples.antt =====
-- The stages on sample requests, and their checks on their own.
use shortner.Shared
use shortner.Shared.{
  ℕ, ◌≡◌, refl, Bool, true, false, not, Option, none, some, [], ◌∷◌, Bytes, codes, if◌then◌else◌,
  eq_bytes,
}
use shortner.Http.RateLimit
use shortner.Http.RateLimit.{new_limiter}
use shortner.Library.{Library, Network, v4}
use shortner.Http.Samples.{sample_library}
use shortner.Http.Overlay.{Incoming, clearnet, equal_fold, is_empty}
use shortner.Http.Proxy.Samples.{incoming, sample_resolver}
use shortner.Http.Normalize.{url_normalize, moved}
use shortner.Http.Normalize.Settled.{Settles, url_normalize-Settles}
use shortner.Http.IpBlock.{Guard, empty_store, allowlist_contains}
use shortner.Http.Csrf.{
  Csrf, csrf_passes, sec_fetch_passes, exempt, is_csrf_exempt, state_changing_method,
}
use shortner.Http.Csrf.Forged.{Forged, query_token, csrf_passes-Forged}
use shortner.Http.Cors.{Cors, answer_headers}
use shortner.Http.Cors.Credentials.{Credited, answer_headers-Credited}
use shortner.Http.Chain.{Deps, Server, setup_middleware}
use shortner.Http.Chain.Admitted.{HandedOn, setup_middleware-HandedOn}
use shortner.Http.Chain.Untouched.{setup_middleware_allowlisted}

sample_redirect :
    url_normalize (codes "q=1") (codes "//links//new/") ≡ moved (codes "/links/new?q=1")
unfolding url_normalize eq_bytes
sample_redirect = refl

url_normalize-Settles_example :
    Settles (codes "q=1") (url_normalize (codes "q=1") (codes "//links//new/"))
url_normalize-Settles_example = url_normalize-Settles (codes "q=1") (codes "//links//new/")

abbrev sample_csrf : Csrf
sample_csrf = record {
  enabled = true;
  token_length = 32;
  cookie_name = [];
  header_name = [];
  secure = codes "auto";
  exempt_paths = [];
}

abbrev form_header : Bytes → Bytes
form_header name = if eq_bytes name (codes "Sec-Fetch-Site") then codes "cross-site" else []

-- A form of another site, whose action has a `token` parameter.
abbrev forged_post : Incoming
forged_post = record (incoming (codes "POST") (codes "/links") clearnet) {
  header = form_header;
  query = λ name. if eq_bytes name (codes "token") then codes "x" else [];
  cookie = λ name. some (codes "secret");
}

forged_post-Forged : Forged sample_csrf forged_post
unfolding state_changing_method eq_bytes
forged_post-Forged = record {
  changing = refl;
  bare = (refl, (refl, (refl, (refl, (refl, (refl, (refl, (refl, (refl, tt)))))))));
  cross_site = refl;
  guessed = refl;
}

csrf_passes-Forged_example :
    (csrf_passes sample_csrf forged_post ≡ not (is_empty (query_token forged_post)))
    × (sec_fetch_passes true forged_post ≡ not (is_empty (query_token forged_post)))
unfolding exempt is_csrf_exempt Shared.has_prefix
csrf_passes-Forged_example = csrf_passes-Forged sample_csrf forged_post forged_post-Forged refl refl

abbrev sample_cors : Cors
sample_cors = record {
  allowed_origins = codes "*" ∷ codes "https://app.example.org" ∷ [];
  allow_credentials = true;
  max_age = 0;
}

answer_headers-Credited_example :
    Credited sample_cors
      (codes "GET")
      (codes "https://app.example.org")
      true
      (answer_headers sample_cors (codes "GET") (codes "https://app.example.org") true)
unfolding answer_headers eq_bytes equal_fold Shared.to_lower
answer_headers-Credited_example =
    answer_headers-Credited sample_cors (codes "GET") (codes "https://app.example.org") true refl

abbrev sample_limits : RateLimit.Config
sample_limits = record {
  enabled = true;
  read_limit = record { requests = 2; window = 60 };
  write_limit = record { requests = 1; window = 60 };
  health_limit = record { requests = 9; window = 60 };
  global_burst = 20;
}

abbrev sample_deps : Deps
sample_deps = record {
  resolver = sample_resolver;
  cors = sample_cors;
  csrf = sample_csrf;
  sec_fetch_validation = true;
  limits = sample_limits;
  operator_token = codes "operator";
  geo_enabled = false;
  deny_countries = [];
  allow_countries = [];
  country = λ ip. [];
}

abbrev sample_server : Server
sample_server = record {
  guard = record { allowlist = []; blocks = some empty_store; abuse = none };
  limiter = new_limiter;
}

setup_middleware-HandedOn_example :
    HandedOn sample_library sample_deps 5 6 sample_server forged_post
      (setup_middleware sample_library sample_deps 5 6 forged_post sample_server).0
setup_middleware-HandedOn_example =
    setup_middleware-HandedOn sample_library sample_deps 5 6 sample_server forged_post

-- The address of each request is 192.0.2.1.
abbrev one_address : Library
one_address = record sample_library { parse_ip = λ raw. some (v4 192 0 2 1) }

abbrev everyone : Network
everyone = record { text = codes "0.0.0.0/0"; covers = λ ip. true; ones = 0; bits = 32 }

abbrev guarded_by : Guard → Server
guarded_by g = record { guard = g; limiter = new_limiter }

abbrev open_server : Server
open_server =
    guarded_by (record { allowlist = everyone ∷ []; blocks = some empty_store; abuse = none })

setup_middleware_allowlisted_example :
    (setup_middleware one_address sample_deps 5 6 forged_post open_server).1 ≡ open_server
unfolding allowlist_contains
setup_middleware_allowlisted_example =
    setup_middleware_allowlisted one_address sample_deps 5 6 open_server forged_post refl

abbrev closed_server : Server
closed_server = guarded_by (record {
  allowlist = [];
  blocks = some (record empty_store { permanent = everyone ∷ [] });
  abuse = none;
})
