-- ===== src/Http/Manage.antt =====
-- `authorized`, and the handlers that update and delete a link (src/httpserver/links.go).
use shortner.Shared.{
  ℕ, Bool, true, false, ◌&&◌, Option, none, some, [], Bytes, codes, if◌then◌else◌, eq_bytes,
  trim_space, format_int,
}
use shortner.Library.{Library}
use shortner.AppErr
use shortner.Db.Exec.{Db, Result, ok, err}
use shortner.Db.Rows.{Time, Link, ApiToken}
use shortner.Db.Links.{get_link_by_short_code, get_link_by_id, update_link_destination, delete_link}
use shortner.Db.Tokens.{lookup_token_by_raw}
use shortner.Http.Request.{Request, extract_token, is_operator}
use shortner.Http.Response.{
  to_link_response, updated, deleted, send_error, map_lookup_err, internal, short_url_of,
}
use shortner.Http.Links.{
  Handler, reply, call, validate_destination_url, Expiry, absent, malformed, at, parse_expiry,
}

-- The token is of the link, and of no other.
abbrev pub is_owner : ℕ → Result ApiToken → Bool
is_owner link_id (err e) = false
is_owner link_id (ok t) =
    eq_bytes t.resource_type (codes "link") && eq_bytes t.resource_id (format_int link_id)

-- The decoded body of PATCH /links/{slug}; `none` is a field that is absent.
pub record UpdateLinkRequest : Type 0 where
  pub url : Option Bytes
  pub expires_at : Option Bytes

-- A present and blank expiry clears the column.
abbrev pub clears : Option Bytes → Bool
clears none = false
clears (some s) = eq_bytes (trim_space s) []

module _ (lib : Library) (operator_token : Bytes) (r : Request) where
  -- A lookup that fails for whatever reason grants nothing.
  unfoldable pub authorized : ℕ → Db → Bool × Db
  authorized link_id s =
      let token = extract_token r in
      let found = lookup_token_by_raw lib token s in
      if is_operator lib operator_token r
      then (true, s)
      else if eq_bytes token []
      then (false, s)
      else (is_owner link_id found.0, found.1)

  abbrev pub permitted : Bool → Handler → Handler
  permitted true next s = next s
  permitted false next s = (send_error AppErr.forbidden, s)

  -- `if !ld.authorized(r, link.ID)`
  abbrev pub when_authorized : ℕ → Handler → Handler
  when_authorized link_id next s = permitted (authorized link_id s).0 next (authorized link_id s).1

  unfoldable pub store_update : Link → Bytes → Option Time → Bool → Handler
  store_update link destination expires clear =
      call (update_link_destination link.id destination expires clear) internal λ _.
        call (get_link_by_id link.id) internal
          λ l. reply (updated (to_link_response l (short_url_of r l.short_code)))

  abbrev pub update_expiring : Link → Bytes → Bool → Expiry → Handler
  update_expiring link destination clear malformed = reply (send_error AppErr.validation_failed)
  update_expiring link destination clear absent = store_update link destination none clear
  update_expiring link destination clear (at t) = store_update link destination (some t) clear

  -- An absent `url` keeps the destination.
  abbrev pub new_destination : Link → Option Bytes → Option Bytes
  new_destination link none = some link.destination_url
  new_destination link (some url) = validate_destination_url lib url

  abbrev pub update_valid : Link → UpdateLinkRequest → Option Bytes → Handler
  update_valid link req none = reply (send_error AppErr.validation_failed)
  update_valid link req (some destination) =
      update_expiring link destination (clears req.expires_at) (parse_expiry lib req.expires_at)

  abbrev pub update_decoded : Link → Option UpdateLinkRequest → Handler
  update_decoded link none = reply (send_error AppErr.bad_request)
  update_decoded link (some req) = update_valid link req (new_destination link req.url)

  unfoldable pub update_link_handler : Option UpdateLinkRequest → Handler
  unfolding authorized store_update
  update_link_handler body =
      call (get_link_by_short_code r.slug) map_lookup_err
        λ link. when_authorized link.id (update_decoded link body)

  unfoldable pub delete_link_handler : Handler
  unfolding authorized
  delete_link_handler = call (get_link_by_short_code r.slug) map_lookup_err λ link.
      when_authorized link.id (call (delete_link link.id) internal (λ _. reply (deleted r.slug)))
