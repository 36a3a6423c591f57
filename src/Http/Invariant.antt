-- ===== src/Http/Invariant.antt =====
-- Every request keeps the invariant of the tables, whatever it asks for and whatever fails.
use shortner.Shared.{
  ℕ, Bool, true, false, Option, none, some, [], Bytes, codes, if◌then◌else◌, if_intro, trim_space,
  format_int, eq_bytes, not,
}
use shortner.Library.{Library}
use shortner.Security.Slug.{validate_slug_format, is_reserved_slug}
use shortner.Db.Rows.{Time, Link, is_expired}
use shortner.Db.Exec.{Tables, Db, DbError, Result, ok, err, M}
use shortner.Db.Exec.Keeps.{Keeps}
use shortner.Db.Links.{
  create_link_custom_slug, create_link_auto_code, get_link_by_short_code, get_link_by_id,
  update_link_destination, delete_link, list_links,
}
use shortner.Db.Clicks.{clicks_for_link}
use shortner.Db.Tokens.{create_resource_token}
use shortner.Db.Consistent.{Consistent}
use shortner.Db.Consistent.Ops.{
  create_link_custom_slug-Consistent, create_link_auto_code-Consistent,
  get_link_by_short_code-Keeps, get_link_by_id-Keeps, update_link_destination-Consistent,
  delete_link-Consistent, record_click-Consistent,
}
use shortner.Db.Consistent.TokenOps.{
  create_resource_token-Consistent, lookup_token_by_raw-Keeps, list_links-Keeps,
  clicks_for_link-Keeps,
}
use shortner.Http.Request.{Request, extract_token, is_operator, parse_pagination}
use shortner.Http.Response.{Response}
use shortner.Http.Links.{
  Handler, branch, call, CreateLinkRequest, Expiry, absent, malformed, at, parse_expiry,
  validate_destination_url, finish_create, create_with, create_expiring, create_valid,
  create_link_handler,
}
use shortner.Http.Manage.{
  UpdateLinkRequest, authorized, permitted, when_authorized, store_update, update_expiring,
  update_valid, update_decoded, update_link_handler, delete_link_handler, new_destination, clears,
}
use shortner.Http.Resolve.{
  is_bot_user_agent, page_offset, get_link_handler, list_links_handler, resolve_handler,
  stats_handler, stats_max_rows,
}

module _ (P : Tables → Type 0) where
  abbrev pub KeepsH : Handler → Type 0
  KeepsH h = (s : Db) → P s.tables → P (h s).1.tables

  module _ {A : Type 0} where
    branch-Keeps :
        (r : Result A) (fail : DbError → Response) (next : A → Handler)
        → ((a : A) → KeepsH (next a))
        → KeepsH (branch r fail next)
    branch-Keeps (ok a) fail next k s h = k a s h
    branch-Keeps (err e) fail next k s h = h

    pub call-Keeps :
        (m : M A) (fail : DbError → Response) (next : A → Handler)
        → Keeps P m
        → ((a : A) → KeepsH (next a))
        → KeepsH (call m fail next)
    call-Keeps m fail next km k s h = branch-Keeps (m s).0 fail next k (m s).1 (km s h)

  pub if-Keeps : (b : Bool) (m n : Handler) → KeepsH m → KeepsH n → KeepsH (if b then m else n)
  if-Keeps true m n km kn = km
  if-Keeps false m n km kn = kn

module _ (lib : Library) (r : Request) where
  finish_create-Consistent : (link : Link) → KeepsH Consistent (finish_create lib r link)
  unfolding finish_create
  finish_create-Consistent link =
      call-Keeps Consistent (create_resource_token lib (codes "link") (format_int link.id) none) _ _
        (create_resource_token-Consistent lib (codes "link") (format_int link.id) none) λ _ s h. h

  create_with-Consistent :
      (slug destination : Bytes) (expires : Option Time)
      → KeepsH Consistent (create_with lib r slug destination expires)
  unfolding create_with
  create_with-Consistent slug destination expires =
      if-Keeps Consistent (not (eq_bytes slug [])) _ _
        (if-Keeps Consistent (not (validate_slug_format slug)) _ _ (λ s h. h)
          (if-Keeps Consistent (is_reserved_slug slug) _ _ (λ s h. h)
            (call-Keeps Consistent (create_link_custom_slug slug destination expires) _ _
              (create_link_custom_slug-Consistent slug destination expires)
              finish_create-Consistent)))
        (call-Keeps Consistent (create_link_auto_code destination expires) _ _
          (create_link_auto_code-Consistent destination expires) finish_create-Consistent)

  create_expiring-Consistent :
      (slug destination : Bytes) (e : Expiry)
      → KeepsH Consistent (create_expiring lib r slug destination e)
  create_expiring-Consistent slug destination absent s h =
      create_with-Consistent slug destination none s h
  create_expiring-Consistent slug destination malformed s h = h
  create_expiring-Consistent slug destination (at t) s h =
      create_with-Consistent slug destination (some t) s h

  create_valid-Consistent :
      (req : CreateLinkRequest) (d : Option Bytes) → KeepsH Consistent (create_valid lib r req d)
  create_valid-Consistent req none s h = h
  create_valid-Consistent req (some d) s h =
      create_expiring-Consistent (trim_space req.slug) d (parse_expiry lib req.expires_at) s h

  pub create_link_handler-Consistent :
      (body : Option CreateLinkRequest) → KeepsH Consistent (create_link_handler lib r body)
  unfolding create_link_handler
  create_link_handler-Consistent none s h = h
  create_link_handler-Consistent (some req) s h =
      create_valid-Consistent req (validate_destination_url lib req.url) s h

module _ (lib : Library) (operator_token : Bytes) (r : Request) where
  pub authorized-tables :
      (P : Tables → Type 0) (id : ℕ) (s : Db)
      → P s.tables
      → P (authorized lib operator_token r id s).1.tables
  unfolding authorized
  authorized-tables P id s h =
      if_intro (λ (q : Bool × Db). P q.1.tables) (is_operator lib operator_token r) h
        (if_intro (λ (q : Bool × Db). P q.1.tables) (eq_bytes (extract_token r) []) h
          (lookup_token_by_raw-Keeps P lib (extract_token r) s h))

  permitted-Keeps :
      (P : Tables → Type 0) (b : Bool) (next : Handler)
      → KeepsH P next
      → KeepsH P (permitted lib operator_token r b next)
  permitted-Keeps P true next k s h = k s h
  permitted-Keeps P false next k s h = h

  when_authorized-Keeps :
      (P : Tables → Type 0) (id : ℕ) (next : Handler)
      → KeepsH P next
      → KeepsH P (when_authorized lib operator_token r id next)
  when_authorized-Keeps P id next k s h =
      permitted-Keeps P (authorized lib operator_token r id s).0 next k
        (authorized lib operator_token r id s).1 (authorized-tables P id s h)

  store_update-Consistent :
      (link : Link) (destination : Bytes) (expires : Option Time) (clear : Bool)
      → KeepsH Consistent (store_update lib operator_token r link destination expires clear)
  unfolding store_update
  store_update-Consistent link destination expires clear =
      call-Keeps Consistent (update_link_destination link.id destination expires clear) _ _
        (update_link_destination-Consistent link.id destination expires clear)
        λ _.
          call-Keeps Consistent (get_link_by_id link.id) _ _
            (get_link_by_id-Keeps Consistent link.id) λ _ s h. h

  update_valid-Consistent :
      (link : Link) (req : UpdateLinkRequest) (d : Option Bytes)
      → KeepsH Consistent (update_valid lib operator_token r link req d)
  update_valid-Consistent link req none s h = h
  update_valid-Consistent link req (some d) s h = go (parse_expiry lib req.expires_at) s h
    where
      go :
          (e : Expiry)
          → KeepsH Consistent
              (update_expiring lib operator_token r link d (clears req.expires_at) e)
      go absent s h = store_update-Consistent link d none (clears req.expires_at) s h
      go malformed s h = h
      go (at t) s h = store_update-Consistent link d (some t) (clears req.expires_at) s h

  update_decoded-Consistent :
      (link : Link) (body : Option UpdateLinkRequest)
      → KeepsH Consistent (update_decoded lib operator_token r link body)
  update_decoded-Consistent link none s h = h
  update_decoded-Consistent link (some req) s h =
      update_valid-Consistent link req (new_destination lib operator_token r link req.url) s h

  pub update_link_handler-Consistent :
      (body : Option UpdateLinkRequest)
      → KeepsH Consistent (update_link_handler lib operator_token r body)
  unfolding update_link_handler
  update_link_handler-Consistent body =
      call-Keeps Consistent (get_link_by_short_code r.slug) _ _
        (get_link_by_short_code-Keeps Consistent r.slug)
        λ link. when_authorized-Keeps Consistent link.id _ (update_decoded-Consistent link body)

  pub delete_link_handler-Consistent : KeepsH Consistent (delete_link_handler lib operator_token r)
  unfolding delete_link_handler
  delete_link_handler-Consistent =
      call-Keeps Consistent (get_link_by_short_code r.slug) _ _
        (get_link_by_short_code-Keeps Consistent r.slug)
        λ link. when_authorized-Keeps Consistent link.id _ (
          call-Keeps Consistent (delete_link link.id) _ _ (delete_link-Consistent link.id)
            λ _ s h. h)

module _ (lib : Library) (r : Request) where
  pub resolve_handler-Consistent : KeepsH Consistent (resolve_handler lib r)
  unfolding resolve_handler
  resolve_handler-Consistent =
      call-Keeps Consistent (get_link_by_short_code r.slug) _ _
        (get_link_by_short_code-Keeps Consistent r.slug)
        λ link s h.
          if_intro (λ (q : Response × Db). Consistent q.1.tables) (is_expired s.now link) h
            (if_intro (λ (q : Response × Db). Consistent q.1.tables)
              (is_bot_user_agent (r.header (codes "User-Agent"))) h
              (record_click-Consistent lib link.id r.client_ip _ _ r.country r.region s h))

  -- The three handlers that only read keep anything.
  pub get_link_handler-Keeps : (P : Tables → Type 0) → KeepsH P (get_link_handler lib r)
  unfolding get_link_handler
  get_link_handler-Keeps P =
      call-Keeps P (get_link_by_short_code r.slug) _ _ (get_link_by_short_code-Keeps P r.slug)
        λ _ s h. h

  pub list_links_handler-Keeps : (P : Tables → Type 0) → KeepsH P (list_links_handler lib r)
  unfolding list_links_handler
  list_links_handler-Keeps P =
      let (page, limit) = parse_pagination r in
      call-Keeps P (list_links limit (page_offset page limit)) _ _
        (list_links-Keeps P limit (page_offset page limit)) λ _ s h. h

  pub stats_handler-Keeps : (P : Tables → Type 0) → KeepsH P (stats_handler lib r)
  unfolding stats_handler
  stats_handler-Keeps P =
      call-Keeps P (get_link_by_short_code r.slug) _ _ (get_link_by_short_code-Keeps P r.slug)
        λ link.
          call-Keeps P (clicks_for_link link.id stats_max_rows) _ _
            (clicks_for_link-Keeps P link.id stats_max_rows) λ _ s h. h
