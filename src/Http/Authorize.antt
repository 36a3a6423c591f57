-- ===== src/Http/Authorize.antt =====
-- Who changes a link: `authorized`, PATCH and DELETE of src/httpserver/links.go.
use shortner.Shared.{
  ℕ, ◌≡◌, refl, ap, subst, ◌∙◌, ◌⊎◌, inl, inr, Bool, true, false, Option, none, some, [], Bytes,
  codes, arith, Bool-cases, find_if, eq_bytes, eq_bytes_iff, format_int,
}
use shortner.Library.{Library}
use shortner.Db.Rows.{LinkRow, Link, scan_link, TokenRow, ApiToken, scan_token, is_active}
use shortner.Db.Exec.{Tables, Db, Result, ok, err, pure, done, exec}
use shortner.Db.Exec.Inverse.{exec-ok, >>=-ok}
use shortner.Db.Links.{has_code, one_row, select_by_code, get_link_by_short_code, delete_link}
use shortner.Db.Tokens.{lookup_token_by_raw}
use shortner.Db.Consistent.Ops.{get_link_by_short_code-Keeps}
use shortner.Db.Owner.{redeems, lookup_token_by_raw_sound}
use shortner.Http.Request.{Request, extract_token, is_operator}
use shortner.Http.Response.{map_lookup_err, internal, deleted}
use shortner.Http.Links.{Handler, branch, call, reply}
use shortner.Http.Manage.{
  UpdateLinkRequest, authorized, permitted, is_owner, when_authorized, update_decoded,
  update_link_handler, delete_link_handler,
}
use shortner.Http.Invariant.{authorized-tables}

-- A lookup by code that succeeds: the row, and the rest of the state.
pub get_link_by_short_code_sound :
    (code : Bytes) (s : Db) (l : Link)
    → (get_link_by_short_code code s).0 ≡ ok l
    → (row : LinkRow) × (find_if (has_code code) s.tables.links ≡ some row)
      × (l ≡ scan_link row)
      × ((get_link_by_short_code code s).1.tables ≡ s.tables)
      × ((get_link_by_short_code code s).1.now ≡ s.now)
unfolding get_link_by_short_code select_by_code
get_link_by_short_code_sound code s l h =
    let run = select_by_code code in
    let (row, ran, got, after) = >>=-ok (exec run) (λ (x : LinkRow). pure (scan_link x)) s l h in
    let (found, same, clock) = exec-ok run s row ran in
    (
      row,
      one_row-done (find_if (has_code code) s.tables.links) row found,
      ground arith,
      ap (λ (d : Db). d.tables) after ∙ same,
      ap (λ (d : Db). d.now) after ∙ clock,
    )
  where
    one_row-done : (o : Option LinkRow) (row : LinkRow) → one_row o ≡ done row → o ≡ some row
    one_row-done none row e = absurd (cc)
    one_row-done (some x) row e = cc

-- An owner token of the link of this id: its row is there, for a link, and it is active.
pub record Owns (lib : Library) (token : Bytes) (id : ℕ) (s : Db) : Type 0 where
  pub row : TokenRow
  pub by_value : find_if (redeems lib token) s.tables.tokens ≡ some row
  pub of_link : row.resource_type ≡ codes "link"
  pub of_id : row.resource_id ≡ format_int id
  pub active : is_active s.now (scan_token row) ≡ true

-- The request carries the operator's token, or one of the link that its slug names.
abbrev pub Permit : Library → Bytes → Request → Db → Type 0
Permit lib op r s =
    (is_operator lib op r ≡ true)
    ⊎ ((row : LinkRow) × (find_if (has_code r.slug) s.tables.links ≡ some row)
        × Owns lib (extract_token r) row.id s)

module _ (lib : Library) (op : Bytes) (r : Request) where
  is_owner-Owns :
      (id : ℕ) (s : Db) (found : Result ApiToken)
      → (lookup_token_by_raw lib (extract_token r) s).0 ≡ found
      → is_owner id found ≡ true
      → Owns lib (extract_token r) id s
  unfolding scan_token
  is_owner-Owns id s (err e) h o = absurd (cc)
  is_owner-Owns id s (ok tok) h o =
      let (k, found, scanned, live) = lookup_token_by_raw_sound lib (extract_token r) s tok h in
      let kind : eq_bytes k.resource_type (codes "link") ≡ true = ground arith in
      let which : eq_bytes k.resource_id (format_int id) ≡ true = ground arith in
      record {
        row = k;
        by_value = found;
        of_link = (eq_bytes_iff k.resource_type (codes "link")).0 kind;
        of_id = (eq_bytes_iff k.resource_id (format_int id)).0 which;
        active = rw (← scanned) live;
      }

  -- `authorized` says yes to the operator and to an owner only.
  pub authorized_sound :
      (id : ℕ) (s : Db)
      → (authorized lib op r id s).0 ≡ true
      → (is_operator lib op r ≡ true) ⊎ Owns lib (extract_token r) id s
  unfolding authorized
  authorized_sound id s h = elim (Bool-cases (is_operator lib op r)) [
    | inl operator ↦ inl operator
    | inr other ↦ elim (Bool-cases (eq_bytes (extract_token r) [])) [
      | inl blank ↦ absurd (ground arith)
      | inr token ↦ inr (is_owner-Owns id s _ refl (ground arith))
    ]
  ]

  Owns-earlier :
      (link : Link) (row : LinkRow) (s s1 : Db)
      → link ≡ scan_link row
      → s1.tables ≡ s.tables
      → s1.now ≡ s.now
      → Owns lib (extract_token r) link.id s1
      → Owns lib (extract_token r) row.id s
  unfolding scan_link
  Owns-earlier link row s s1 scanned same clock o = record {
    row = o.row;
    by_value =
        subst (λ (t : Tables). find_if (redeems lib (extract_token r)) t.tokens ≡ some o.row) same
          o.by_value;
    of_link = o.of_link;
    of_id = o.of_id ∙ ap (λ (l : Link). format_int l.id) scanned;
    active = subst (λ now. is_active now (scan_token o.row) ≡ true) clock o.active;
  }

  permitted-changes :
      (b : Bool) (next : Handler) (s : Db)
      → ((permitted lib op r b next s).1.tables ≡ s.tables) ⊎ (b ≡ true)
  permitted-changes true next s = inr refl
  permitted-changes false next s = inl refl

  guarded :
      (next : Link → Handler) (s : Db) (q : Result Link)
      → (get_link_by_short_code r.slug s).0 ≡ q
      → ((branch q map_lookup_err
            (λ link. when_authorized lib op r link.id (next link))
            (get_link_by_short_code r.slug s).1).1.tables
          ≡ s.tables)
        ⊎ Permit lib op r s
  guarded next s (err e) h = inl (get_link_by_short_code-Keeps (λ t. t ≡ s.tables) r.slug s refl)
  guarded next s (ok link) h =
      let s1 = (get_link_by_short_code r.slug s).1 in
      let (row, found, scanned, same, clock) = get_link_by_short_code_sound r.slug s link h in
      let after = authorized lib op r link.id s1 in
      elim (permitted-changes after.0 (next link) after.1) [
        | inl kept ↦ inl (kept ∙ authorized-tables lib op r (λ t. t ≡ s.tables) link.id s1 same)
        | inr granted ↦ elim (authorized_sound link.id s1 granted) [
          | inl operator ↦ inr (inl operator)
          | inr owner ↦ inr (inr (row, found, Owns-earlier link row s s1 scanned same clock owner))
        ]
      ]

  -- Whatever the body and whatever fails: PATCH leaves the tables as they were, or its request carried
  -- the operator's token, or an active owner token of the link that its slug names.
  pub update_link_handler-Permit :
      (body : Option UpdateLinkRequest) (s : Db)
      → ((update_link_handler lib op r body s).1.tables ≡ s.tables) ⊎ Permit lib op r s
  unfolding update_link_handler
  update_link_handler-Permit body s = guarded (λ link. update_decoded lib op r link body) s _ refl

  -- Whatever fails: DELETE leaves the tables as they were, or its request carried the operator's
  -- token, or an active owner token of the link that its slug names.
  pub delete_link_handler-Permit :
      (s : Db) → ((delete_link_handler lib op r s).1.tables ≡ s.tables) ⊎ Permit lib op r s
  unfolding delete_link_handler
  delete_link_handler-Permit s =
      guarded (λ link. call (delete_link link.id) internal (λ _. reply (deleted r.slug))) s _ refl
