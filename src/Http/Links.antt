-- ===== src/Http/Links.antt =====
-- The handlers of src/httpserver/links.go, each a function from the state to a response and the state.
use shortner.Shared.{
  ℕ, Bool, false, not, ◌&&◌, ◌||◌, Option, none, some, [], Bytes, codes, ltb, if◌then◌else◌, length,
  eq_bytes, trim_space, format_int,
}
use shortner.Library.{Library, Url}
use shortner.Security.Slug.{validate_slug_format, is_reserved_slug}
use shortner.AppErr
use shortner.Db.Exec.{DbError, Db, Result, ok, err, M}
use shortner.Db.Exec
use shortner.Db.Rows.{Time, Link}
use shortner.Db.Links.{create_link_custom_slug, create_link_auto_code}
use shortner.Db.Tokens.{create_resource_token}
use shortner.Http.Request.{Request, wants_text}
use shortner.Http.Response.{
  to_link_response, Response, failure, created_text, created, slug_reserved, slug_in_use,
  send_error, internal, short_url_of,
}

abbrev pub Handler : Type 0
Handler = Db → Response × Db

abbrev pub reply : Response → Handler
reply r s = (r, s)

module _ {A : Type 0} where
  abbrev pub branch : Result A → (DbError → Response) → (A → Handler) → Handler
  branch (ok a) fail next s = next a s
  branch (err e) fail next s = (fail e, s)

  -- A call of package db, whose error is answered at once.
  abbrev pub call : M A → (DbError → Response) → (A → Handler) → Handler
  call m fail next s = branch (m s).0 fail next (m s).1

abbrev pub max_destination_url_len : ℕ
max_destination_url_len = 2048

abbrev pub accepts_url : Option Url → Bool
accepts_url none = false
accepts_url (some u) =
    (eq_bytes u.scheme (codes "http") || eq_bytes u.scheme (codes "https"))
    && not (eq_bytes u.host [])

unfoldable pub validate_destination_url : Library → Bytes → Option Bytes
validate_destination_url lib raw =
    let url = trim_space raw in
    if eq_bytes url [] || ltb max_destination_url_len (length url)
    then none
    else if accepts_url (lib.parse_url url)
    then some url
    else none

-- The decoded body of POST /links; an absent `slug` is "".
pub record CreateLinkRequest : Type 0 where
  pub url : Bytes
  pub slug : Bytes
  pub expires_at : Option Bytes

-- An expiry that is absent or blank, malformed, or an instant.
pub data Expiry : Type 0 where
  absent malformed : Expiry
  at : Time → Expiry

abbrev pub parsed : Option ℕ → Expiry
parsed none = malformed
parsed (some t) = at t

unfoldable pub parse_expiry : Library → Option Bytes → Expiry
parse_expiry lib none = absent
parse_expiry lib (some s) =
    if not (eq_bytes (trim_space s) []) then parsed (lib.parse_rfc3339 s) else absent

module _ (lib : Library) (r : Request) where
  -- The owner token, and the response.
  unfoldable pub finish_create : Link → Handler
  finish_create link =
      call (create_resource_token lib (codes "link") (format_int link.id) none) internal
        λ (raw, token).
          let url = short_url_of r link.short_code in
          reply (if wants_text r then created_text url else created (to_link_response link url) raw)

  abbrev pub custom_error : DbError → Response
  custom_error Exec.slug_taken = failure AppErr.conflict slug_in_use
  custom_error e = internal e

  -- The choice between a custom slug and a generated code.
  unfoldable pub create_with : Bytes → Bytes → Option Time → Handler
  unfolding finish_create
  create_with slug destination expires =
      if not (eq_bytes slug [])
      then (if not (validate_slug_format slug)
          then reply (send_error AppErr.validation_failed)
          else if is_reserved_slug slug
          then reply (failure AppErr.conflict slug_reserved)
          else call (create_link_custom_slug slug destination expires) custom_error finish_create)
      else call (create_link_auto_code destination expires) internal finish_create

  abbrev pub create_expiring : Bytes → Bytes → Expiry → Handler
  create_expiring slug destination malformed = reply (send_error AppErr.validation_failed)
  create_expiring slug destination absent = create_with slug destination none
  create_expiring slug destination (at t) = create_with slug destination (some t)

  abbrev pub create_valid : CreateLinkRequest → Option Bytes → Handler
  create_valid req none = reply (send_error AppErr.validation_failed)
  create_valid req (some destination) =
      create_expiring (trim_space req.slug) destination (parse_expiry lib req.expires_at)

  -- `none` is a body that does not decode.
  unfoldable pub create_link_handler : Option CreateLinkRequest → Handler
  unfolding create_with parse_expiry validate_destination_url
  create_link_handler none = reply (send_error AppErr.bad_request)
  create_link_handler (some req) = create_valid req (validate_destination_url lib req.url)
