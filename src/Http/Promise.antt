-- ===== src/Http/Promise.antt =====
-- What the answer of POST /links promises.
use shortner.Shared.{
  ℕ, ◌≡◌, refl, Bool, true, false, not, Option, none, some, [], Bytes, codes, if◌then◌else◌,
  if_intro, eq_bytes, trim_space, format_int,
}
use shortner.Library.{Library}
use shortner.Security.Slug.{validate_slug_format, is_reserved_slug}
use shortner.Db.Rows.{Time, Link, ApiToken}
use shortner.Db.Exec
use shortner.Db.Exec.{Answer, Tables, Db, DbError, Result, ok, err, M}
use shortner.Db.Exec.Runs.{Runs}
use shortner.Db.Links.{create_link_custom_slug, create_link_auto_code}
use shortner.Db.Tokens.{insert_tokens, create_resource_token}
use shortner.Db.Consistent.{Consistent}
use shortner.Db.Consistent.TokenOps.{create_resource_token-Keeps}
use shortner.Db.Stored.{Findable, create_link_custom_slug-Findable, create_link_auto_code-Findable}
use shortner.Db.Owner.{Redeemable, create_resource_token-Redeemable}
use shortner.Http.Request.{Request, wants_text}
use shortner.Http.Response.{Response, to_link_response, created_text, created, short_url_of}
use shortner.Http.Links.{
  Handler, branch, call, CreateLinkRequest, Expiry, absent, malformed, at, parse_expiry,
  validate_destination_url, finish_create, custom_error, create_with, create_expiring, create_valid,
  create_link_handler,
}

-- A link that its code finds, with a token that is redeemed as its owner's.
pub record Owned (lib : Library) (link : Link) (token : Bytes) (t : Tables) : Type 0 where
  pub findable : Findable link t
  pub redeemable : Redeemable lib token (codes "link") (format_int link.id) t

-- A JSON answer is of such a link, with its token; a text answer is the URL of such a link.
abbrev pub Promised : Library → Request → Response → Tables → Type 0
Promised lib r (created l token) t =
    (link : Link) × (l ≡ to_link_response link (short_url_of r link.short_code))
    × Owned lib link token t
Promised lib r (created_text url) t =
    (link : Link) × (token : Bytes) × (url ≡ short_url_of r link.short_code)
    × Owned lib link token t
Promised lib r _ t = Unit

insert_tokens-Findable :
    (link : Link) (hash prefix kind id : Bytes) (expires : Option ℕ) (now : ℕ) (t : Tables)
    → Findable link t
    → Findable link (insert_tokens hash prefix kind id expires now t).1
unfolding insert_tokens
insert_tokens-Findable link hash prefix kind id expires now t h =
    let moved : (u : Tables) → u.links ≡ t.links → Findable link u =
      λ u same. record { row = h.row; by_code = rw same h.by_code; scanned = h.scanned } in
    if_intro (λ (q : Answer ℕ × Tables). Findable link q.1) _ (moved _ refl) (moved _ refl)

module _ (lib : Library) (r : Request) where
  -- The handler answers what it promises, from tables where `P` holds.
  abbrev KeepsPromise : (Tables → Type 0) → Handler → Type 0
  KeepsPromise P h = (s : Db) → P s.tables → Promised lib r (h s).0 (h s).1.tables

  module _ {A : Type 0} (P : Tables → Type 0) (Q : A → Tables → Type 0) where
    branch-Promised :
        (q : Result A) (fail : DbError → Response) (next : A → Handler) (s : Db)
        → ((e : DbError) (t : Tables) → Promised lib r (fail e) t)
        → ((a : A) → KeepsPromise (Q a) (next a))
        → ((a : A) → q ≡ ok a → Q a s.tables)
        → Promised lib r (branch q fail next s).0 (branch q fail next s).1.tables
    branch-Promised (ok a) fail next s kf kn h = kn a s (h a refl)
    branch-Promised (err e) fail next s kf kn h = kf e s.tables

    call-Promised :
        (m : M A) (fail : DbError → Response) (next : A → Handler)
        → Runs P m Q
        → ((e : DbError) (t : Tables) → Promised lib r (fail e) t)
        → ((a : A) → KeepsPromise (Q a) (next a))
        → KeepsPromise P (call m fail next)
    call-Promised m fail next km kf kn s h =
        branch-Promised (m s).0 fail next (m s).1 kf kn (λ a. km s a h)

  finish_create-Promised : (link : Link) → KeepsPromise (Findable link) (finish_create lib r link)
  unfolding finish_create
  finish_create-Promised link =
      let id = format_int link.id in
      let Q : Bytes × ApiToken → Tables → Type 0 = λ q. Owned lib link q.0 in
      call-Promised (Findable link) Q (create_resource_token lib (codes "link") id none) _ _
        (λ s q h e. record {
          findable =
              create_resource_token-Keeps (Findable link) lib (codes "link") id none
                (λ raw now t k. insert_tokens-Findable link _ _ _ _ _ now t k) s h;
          redeemable = create_resource_token-Redeemable lib (codes "link") id s q tt e;
        })
        (λ e t. tt)
        λ (raw, token) s owned.
          if_intro (λ a. Promised lib r a s.tables) (wants_text r) (link, raw, refl, owned)
            (link, refl, owned)

  custom_error-Promised : (e : DbError) (t : Tables) → Promised lib r (custom_error lib r e) t
  custom_error-Promised Exec.slug_taken t = tt
  custom_error-Promised Exec.not_found t = tt
  custom_error-Promised Exec.timeout t = tt
  custom_error-Promised Exec.canceled_request t = tt
  custom_error-Promised (Exec.server_error x) t = tt
  custom_error-Promised (Exec.wrapped f) t = tt
  custom_error-Promised Exec.attempts_exhausted t = tt
  custom_error-Promised Exec.random_failed t = tt

  if-Promised :
      (b : Bool) (m n : Handler)
      → KeepsPromise Consistent m
      → KeepsPromise Consistent n
      → KeepsPromise Consistent (if b then m else n)
  if-Promised true m n km kn = km
  if-Promised false m n km kn = kn

  create_with-Promised :
      (slug destination : Bytes) (expires : Option Time)
      → KeepsPromise Consistent (create_with lib r slug destination expires)
  unfolding create_with
  create_with-Promised slug destination expires =
      if-Promised (not (eq_bytes slug [])) _ _
        (if-Promised (not (validate_slug_format slug)) _ _ (λ s h. tt)
          (if-Promised (is_reserved_slug slug) _ _ (λ s h. tt)
            (call-Promised Consistent Findable (create_link_custom_slug slug destination expires) _
              _ (create_link_custom_slug-Findable slug destination expires) custom_error-Promised
              finish_create-Promised)))
        (call-Promised Consistent Findable (create_link_auto_code destination expires) _ _
          (create_link_auto_code-Findable destination expires) (λ e t. tt) finish_create-Promised)

  create_expiring-Promised :
      (slug destination : Bytes) (e : Expiry)
      → KeepsPromise Consistent (create_expiring lib r slug destination e)
  create_expiring-Promised slug destination absent s h =
      create_with-Promised slug destination none s h
  create_expiring-Promised slug destination malformed s h = tt
  create_expiring-Promised slug destination (at t) s h =
      create_with-Promised slug destination (some t) s h

  create_valid-Promised :
      (req : CreateLinkRequest) (d : Option Bytes)
      → KeepsPromise Consistent (create_valid lib r req d)
  create_valid-Promised req none s h = tt
  create_valid-Promised req (some d) s h =
      create_expiring-Promised (trim_space req.slug) d (parse_expiry lib req.expires_at) s h

  -- From consistent tables, whatever fails: when the answer of POST /links is a link with its owner
  -- token, the tables find that link by its code, and the token is redeemed as the link's owner
  -- token, not expiring and not revoked; when it is a URL, it is that of such a link.
  pub create_link_handler-Promised :
      (body : Option CreateLinkRequest) (s : Db)
      → Consistent s.tables
      → Promised lib r
          (create_link_handler lib r body s).0
          (create_link_handler lib r body s).1.tables
  unfolding create_link_handler
  create_link_handler-Promised none s h = tt
  create_link_handler-Promised (some req) s h =
      create_valid-Promised req (validate_destination_url lib req.url) s h
