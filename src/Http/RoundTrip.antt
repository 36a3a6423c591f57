-- ===== src/Http/RoundTrip.antt =====
-- What a link and its owner token are good for: GET and DELETE of a link that was created
-- (src/httpserver/links.go), where no call of the driver fails.
use shortner.Shared.{
  ◌≡◌, refl, sym, ap, subst, ◌∙◌, Bool, true, false, Option, none, some, [], Bytes, codes,
  if◌then◌else◌, Bool-cases, inl, inr, arith, find_if, eq_bytes_refl, format_int,
}
use shortner.Library.{Library}
use shortner.Db.Rows.{LinkRow, Link, scan_link, is_expired, scan_token, ApiToken}
use shortner.Db.Exec.{
  Db, DbError, Result, ok, err, M, pure, exec, answer, not_found, handle_query_error, continue,
}
use shortner.Db.Exec.Inverse.{exec_calm, >>=_run}
use shortner.Db.Exec.Succeeds.{Success}
use shortner.Db.Links.{
  is_some, has_code, one_row, select_by_code, get_link_by_short_code, delete_link,
}
use shortner.Db.Stored.{Findable}
use shortner.Db.Consistent.{Consistent, Distinct}
use shortner.Db.Deleted.{Unknown, delete_link-Succeeds}
use shortner.Db.Owner.{lookup_token_by_raw-Redeemable}
use shortner.Http.Request.{Request, extract_token, is_operator}
use shortner.Http.Response.{Response, redirect, deleted, send_error, map_lookup_err, internal}
use shortner.Http.Links.{Handler, branch, call, reply}
use shortner.Http.Manage.{authorized, permitted, is_owner, when_authorized, delete_link_handler}
use shortner.Http.Resolve.{is_bot_user_agent, visit, resolve_handler}
use shortner.Http.Invariant.{authorized-tables}
use shortner.Http.Promise.{Owned}
use shortner.AppErr

-- Nothing fails any more, and the tables and the clock are those of `s`.
record Calm (s u : Db) : Type 0 where
  tables : u.tables ≡ s.tables
  now : u.now ≡ s.now
  schedule : u.schedule ≡ []

one_row_found : (o : Option LinkRow) (row : LinkRow) → o ≡ some row → answer (one_row o) ≡ ok row
one_row_found o row h = rw h refl

get_link-Calm :
    (l : Link) (s : Db)
    → s.schedule ≡ []
    → Findable l s.tables
    → ((get_link_by_short_code l.short_code s).0 ≡ ok l)
      × Calm s (get_link_by_short_code l.short_code s).1
unfolding get_link_by_short_code select_by_code
get_link-Calm l s calm h =
    let run = select_by_code l.short_code in
    let (ran, same, clock, still) = exec_calm run s calm in
    let found = ran ∙ one_row_found _ h.row h.by_code in
    let onward = >>=_run (exec run) (λ (x : LinkRow). pure (scan_link x)) s h.row found in
    (
      ap (λ q. q.0) onward ∙ ap ok h.scanned,
      record {
        tables = ap (λ (q : Result Link × Db). q.1.tables) onward ∙ same;
        now = ap (λ (q : Result Link × Db). q.1.now) onward ∙ clock;
        schedule = ap (λ (q : Result Link × Db). q.1.schedule) onward ∙ still;
      },
    )

named-Calm :
    (l : Link) (code : Bytes) (s : Db)
    → code ≡ l.short_code
    → s.schedule ≡ []
    → Findable l s.tables
    → ((get_link_by_short_code code s).0 ≡ ok l) × Calm s (get_link_by_short_code code s).1
named-Calm l code s named calm h = rw named (get_link-Calm l s calm h)

call_run :
    {A : Type 0} (m : M A) (fail : DbError → Response) (next : A → Handler) (s : Db) (a : A)
    → (m s).0 ≡ ok a
    → call m fail next s ≡ next a (m s).1
call_run {A = A} m fail next s a h = go (m s).0 h
  where
    go : (q : Result A) → q ≡ ok a → branch q fail next (m s).1 ≡ next a (m s).1
    go q h = rw h refl

resolved :
    (expired bot : Bool) (gone to : Response) (s u : Db)
    → (let q : Response × Db = if expired then (gone, s) else if bot then (to, s) else (to, u) in
        q.0)
      ≡ (if expired then gone else to)
resolved true bot gone to s u = refl
resolved false true gone to s u = refl
resolved false false gone to s u = refl

-- Where no call of the driver fails, and the slug is the code of a link that the tables find by it:
-- the resolve handler answers 410 if the link has expired at the state's clock, and otherwise
-- redirects to its destination, whether or not a click is recorded.
pub resolve_handler-Findable :
    (lib : Library) (r : Request) (l : Link) (s : Db)
    → s.schedule ≡ []
    → r.slug ≡ l.short_code
    → Findable l s.tables
    → (resolve_handler lib r s).0
      ≡ (if is_expired s.now l then send_error AppErr.gone else redirect l.destination_url)
unfolding resolve_handler
resolve_handler-Findable lib r l s calm named h =
    let (got, after) = get_link-Calm l s calm h in
    rw named (
      ap (λ q. q.0) (call_run (get_link_by_short_code l.short_code) map_lookup_err _ s l got)
      ∙ (let u = (get_link_by_short_code l.short_code s).1 in
          resolved (is_expired u.now l) (is_bot_user_agent (r.header (codes "User-Agent")))
            (send_error AppErr.gone) (redirect l.destination_url) u (visit lib r l u).1)
      ∙ ap (λ now. if is_expired now l then send_error AppErr.gone else redirect l.destination_url)
          after.now)

module _ (lib : Library) (op : Bytes) (r : Request) where
  owner_accepted :
      (link : Link) (token : Bytes) (s : Db)
      → Owned lib link token s.tables
      → (found : Result ApiToken) → (h : Owned lib link token s.tables)
      → found ≡ ok (scan_token h.redeemable.row)
      → is_owner link.id found ≡ true
  unfolding scan_token
  owner_accepted link token s o found h e =
      rw (e, h.redeemable.of_kind, h.redeemable.of_resource)
        (ground (arith, eq_bytes_refl (codes "link"), eq_bytes_refl (format_int link.id)))

  authorized_owner :
      (link : Link) (s : Db)
      → s.schedule ≡ []
      → Owned lib link (extract_token r) s.tables
      → ((authorized lib op r link.id s).0 ≡ true)
        × ((authorized lib op r link.id s).1.schedule ≡ [])
  unfolding authorized
  authorized_owner link s calm o =
      let (found, still) =
        lookup_token_by_raw-Redeemable lib (extract_token r) (codes "link") (format_int link.id) s
          calm o.redeemable in
      elim (Bool-cases (is_operator lib op r)) [
        | inl operator ↦ (rw operator refl, rw operator calm)
        | inr other ↦ (
          rw (other, o.redeemable.not_blank) (owner_accepted link (extract_token r) s o _ o found),
          rw (other, o.redeemable.not_blank) still,
        )
      ]

  abbrev deleting : Link → Handler
  deleting link = call (delete_link link.id) internal (λ _. reply (deleted r.slug))

  deleted_run :
      (link : Link) (s : Db)
      → s.schedule ≡ []
      → Distinct s.tables.links
      → Findable link s.tables
      → ((deleting link s).0 ≡ deleted r.slug)
        × ((deleting link s).1.schedule ≡ [])
        × Unknown link.short_code (deleting link s).1.tables
  unfolding scan_link
  deleted_run link s calm d h =
      let row = h.row in
      let gone = delete_link-Succeeds link.short_code row s calm (d, h.by_code) in
      let same : row.id ≡ link.id = ap (λ (l : Link). l.id) h.scanned in
      let went =
        subst (λ id. Success (λ _. Unknown link.short_code) (delete_link id s)) same gone in
      let run =
        call_run (delete_link link.id) internal (λ _. reply (deleted r.slug)) s went.value
          went.succeeds in
      (
        ap (λ q. q.0) run,
        ap (λ (q : Response × Db). q.1.schedule) run ∙ went.schedule,
        subst (λ (q : Response × Db). Unknown link.short_code q.1.tables) (sym run) went.holds,
      )

  permitted_run :
      (q : Bool × Db) (next : Handler) → q.0 ≡ true → permitted lib op r q.0 next q.1 ≡ next q.1
  permitted_run (b, u) next h = rw h refl

  missing_answer :
      (code : Bytes) (s : Db)
      → s.schedule ≡ []
      → Unknown code s.tables
      → (get_link_by_short_code code s).0 ≡ err not_found
  unfolding get_link_by_short_code select_by_code handle_query_error
  missing_answer code s calm h =
      let (ran, _, _, _) = exec_calm (select_by_code code) s calm in
      stuck _ (ran ∙ none_answer (find_if (has_code code) s.tables.links) h)
    where
      none_answer : (o : Option LinkRow) → is_some o ≡ false → answer (one_row o) ≡ err not_found
      none_answer none h = refl
      none_answer (some x) h = absurd (cc)

      stuck :
          (q : Result LinkRow × Db)
          → q.0 ≡ err not_found
          → (continue q.0 (λ (x : LinkRow). pure (scan_link x)) q.1).0 ≡ err not_found
      stuck (a, u) h = rw h refl

  resolve_missing :
      (s : Db)
      → (get_link_by_short_code r.slug s).0 ≡ err not_found
      → (resolve_handler lib r s).0 ≡ send_error AppErr.not_found
  unfolding resolve_handler map_lookup_err
  resolve_missing s h = rw h refl

  -- From consistent tables, where no call of the driver fails: a DELETE whose slug is the code of a
  -- stored link, and whose token is redeemed as that link's owner token, answers that it deleted the
  -- slug; and the same slug, resolved in the state that it leaves, is not found.
  pub delete_link_handler-Owned :
      (link : Link) (s : Db)
      → s.schedule ≡ []
      → Consistent s.tables
      → Owned lib link (extract_token r) s.tables
      → r.slug ≡ link.short_code
      → ((delete_link_handler lib op r s).0 ≡ deleted r.slug)
        × ((resolve_handler lib r (delete_link_handler lib op r s).1).0
            ≡ send_error AppErr.not_found)
  unfolding delete_link_handler
  delete_link_handler-Owned link s calm c o named =
      let (got, after) = named-Calm link r.slug s named calm o.findable in
      let u = (get_link_by_short_code r.slug s).1 in
      let owned : Owned lib link (extract_token r) u.tables = rw after.tables o in
      let (granted, still) = authorized_owner link u after.schedule owned in
      let a = (authorized lib op r link.id u).1 in
      let kept = authorized-tables lib op r (λ t. t ≡ s.tables) link.id u after.tables in
      let (gave, calm_after, unknown) =
        deleted_run link a still (rw kept c.codes_differ) (rw kept o.findable) in
      let whole : delete_link_handler lib op r s ≡ deleting link a =
        call_run (get_link_by_short_code r.slug) map_lookup_err
          (λ l. when_authorized lib op r l.id (deleting l)) s link got
        ∙ permitted_run (authorized lib op r link.id u) (deleting link) granted in
      let missing =
        missing_answer r.slug (deleting link a).1 calm_after
          (subst (λ code. Unknown code (deleting link a).1.tables) (sym named) unknown) in
      (
        ap (λ q. q.0) whole ∙ gave,
        ap (λ (q : Response × Db). (resolve_handler lib r q.1).0) whole
            ∙ resolve_missing (deleting link a).1 missing,
      )
