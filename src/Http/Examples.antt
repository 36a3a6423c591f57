-- ===== src/Http/Examples.antt =====
-- The theorems of package httpserver's link API and of package db at sample states and requests.
use shortner.Shared.{
  length, arith, ◌*◌, ◌≡◌, refl, ◌⊎◌, true, none, some, List, [], ◌∷◌, Bytes, codes, if◌then◌else◌,
  find_if, format_int, Bool, count_if,
}
use shortner.AppErr
use shortner.Db.Rows.{LinkRow, scan_link, is_expired, TokenRow, scan_token, is_active}
use shortner.Db.Exec
use shortner.Db.Exec.{Db, Tables, Result, ok, err, with_transaction}
use shortner.Db.Exec.Atomic.{Ended, with_transaction-Ended}
use shortner.Db.Clicks.{store_click, visit_of}
use shortner.Db.Tokens.{lookup_token_by_raw}
use shortner.Db.Consistent.{Consistent}
use shortner.Db.Stored.{Findable}
use shortner.Db.Owner.{redeems, Redeemable, lookup_token_by_raw_sound}
use shortner.Http.Request.{Request, extract_token}
use shortner.Http.Response.{redirect, deleted, send_error}
use shortner.Http.Links.{create_link_handler}
use shortner.Http.Manage.{update_link_handler, delete_link_handler}
use shortner.Http.Resolve.{resolve_handler}
use shortner.Http.Invariant.{create_link_handler-Consistent}
use shortner.Http.Serve.{create, resolve, Event, serve, serve-Consistent}
use shortner.Http.Authorize.{Permit, update_link_handler-Permit, delete_link_handler-Permit}
use shortner.Http.Promise.{Owned, Promised, create_link_handler-Promised}
use shortner.Http.RoundTrip.{resolve_handler-Findable, delete_link_handler-Owned}
use shortner.Http.Resolve.{page_count}
use shortner.Http.Pages.{pages, NewestFirst, pages-NewestFirst}
use shortner.Http.Samples.{
  empty_tables, sample_library, start, request, create_body, after_create, sixteen, all_open,
}

start-Consistent : Consistent start.tables
start-Consistent = record { codes_differ = tt; links_fit = tt; clicks_fit = tt }

-- A link is created, its counter is raised by a visit, and a second creation fails.
abbrev three_events : List Event
three_events =
    record {
      request = request [] [];
      wanted = create create_body;
      now = 1_000 * 1_000_000_000;
      schedule = [];
      random = sixteen (sixteen (sixteen (sixteen [])));
    }
    ∷ record {
      request = request (codes "my-slug") [];
      wanted = resolve;
      now = 1_001 * 1_000_000_000;
      schedule = none ∷ some Exec.busy ∷ [];
      random = [];
    }
    ∷ record {
      request = request [] [];
      wanted = create create_body;
      now = 1_002 * 1_000_000_000;
      schedule = [];
      random = sixteen (sixteen []);
    }
    ∷ []

serve-Consistent_example : Consistent (serve sample_library [] three_events start).tables
serve-Consistent_example = serve-Consistent sample_library [] three_events start start-Consistent

create_link_handler-Promised_example :
    Promised sample_library
      (request [] [])
      (create_link_handler sample_library (request [] []) create_body start).0
      after_create.tables
create_link_handler-Promised_example =
    create_link_handler-Promised sample_library (request [] []) create_body start start-Consistent

abbrev owner_token : Bytes
owner_token = codes "tok_ABCDEFGHIJKLMNOPABCDEFGHIJKLMNOP"

abbrev owner_request : Request
owner_request = request (codes "my-slug") owner_token

abbrev created_row : LinkRow
created_row = record {
  id = 1;
  short_code = codes "my-slug";
  destination_url = codes "https://example.org/a";
  created_at = 1_000;
  expires_at = none;
  click_count = 0;
}

abbrev token_row : TokenRow
token_row = record {
  id = 1;
  token_hash = owner_token;
  token_prefix = codes "tok_ABCDEFGH";
  resource_type = codes "link";
  resource_id = codes "1";
  created_at = 1_000;
  expires_at = none;
  last_used_at = none;
  revoked_at = none;
  revoked_reason = none;
}

after_create-Findable : Findable (scan_link created_row) after_create.tables
unfolding all_open
after_create-Findable = record { row = created_row; by_code = refl; scanned = refl }

after_create-Redeemable :
    Redeemable sample_library owner_token (codes "link") (format_int 1) after_create.tables
unfolding all_open
after_create-Redeemable = record {
  row = token_row;
  by_value = refl;
  of_kind = refl;
  of_resource = refl;
  never_expires = refl;
  not_revoked = refl;
  not_blank = refl;
}

after_create-Owned :
    Owned sample_library (scan_link created_row) (extract_token owner_request) after_create.tables
unfolding all_open
after_create-Owned = record {
  findable = after_create-Findable;
  redeemable = after_create-Redeemable;
}

calm_after_create : after_create.schedule ≡ []
unfolding all_open
calm_after_create = refl

slug_of_created : owner_request.slug ≡ (scan_link created_row).short_code
unfolding all_open
slug_of_created = refl

delete_link_handler-Owned_example :
    ((delete_link_handler sample_library [] owner_request after_create).0
      ≡ deleted (codes "my-slug"))
    × ((resolve_handler sample_library owner_request
          (delete_link_handler sample_library [] owner_request after_create).1).0
        ≡ send_error AppErr.not_found)
delete_link_handler-Owned_example =
    delete_link_handler-Owned sample_library [] owner_request (scan_link created_row) after_create
      calm_after_create
      (create_link_handler-Consistent sample_library (request [] []) create_body start
        start-Consistent)
      after_create-Owned slug_of_created

resolve_handler-Findable_example : (resolve_handler sample_library owner_request after_create).0 ≡ (
    if is_expired after_create.now (scan_link created_row)
    then send_error AppErr.gone
    else redirect (scan_link created_row).destination_url)
resolve_handler-Findable_example =
    resolve_handler-Findable sample_library owner_request (scan_link created_row) after_create
      calm_after_create slug_of_created after_create-Findable

delete_link_handler-Permit_example :
    ((delete_link_handler sample_library [] owner_request after_create).1.tables
      ≡ after_create.tables)
    ⊎ Permit sample_library [] owner_request after_create
delete_link_handler-Permit_example =
    delete_link_handler-Permit sample_library [] owner_request after_create

update_link_handler-Permit_example :
    ((update_link_handler sample_library [] owner_request none after_create).1.tables
      ≡ after_create.tables)
    ⊎ Permit sample_library [] owner_request after_create
update_link_handler-Permit_example =
    update_link_handler-Permit sample_library [] owner_request none after_create

owner_lookup :
    (lookup_token_by_raw sample_library owner_token after_create).0 ≡ ok (scan_token token_row)
unfolding all_open
owner_lookup = refl

lookup_token_by_raw_sound_example :
    (k : TokenRow) × (find_if (redeems sample_library owner_token) after_create.tables.tokens
      ≡ some k)
    × (scan_token token_row ≡ scan_token k)
    × (is_active after_create.now (scan_token token_row) ≡ true)
lookup_token_by_raw_sound_example =
    lookup_token_by_raw_sound sample_library owner_token after_create (scan_token token_row)
      owner_lookup

with_transaction-Ended_example :
    Ended
      (store_click 1 (visit_of sample_library [] [] [] [] []))
      after_create
      (with_transaction (store_click 1 (visit_of sample_library [] [] [] [] [])) after_create).0
      (with_transaction
        (store_click 1 (visit_of sample_library [] [] [] [] []))
        after_create).1.tables
with_transaction-Ended_example =
    with_transaction-Ended (store_click 1 (visit_of sample_library [] [] [] [] [])) after_create

abbrev three_links : Tables
three_links = record empty_tables {
  links =
      created_row
      ∷ record created_row { id = 2; short_code = codes "second" }
      ∷ record created_row { id = 3; short_code = codes "third"; created_at = 2_000 }
      ∷ [];
  last_link = 3;
}

two_pages : page_count (length three_links.links) 2 ≡ 2
unfolding page_count
two_pages = refl

pages-NewestFirst_example :
    ((q : LinkRow → Bool)
      → count_if q (pages (page_count (length three_links.links) 2) 2 5_000 three_links)
        ≡ count_if q three_links.links)
    × NewestFirst (pages (page_count (length three_links.links) 2) 2 5_000 three_links)
pages-NewestFirst_example =
    pages-NewestFirst 2 5_000 three_links (omega arith) (rw two_pages (omega arith))
