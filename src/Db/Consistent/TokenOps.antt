-- ===== src/Db/Consistent/TokenOps.antt =====
-- The operations on tokens, and the queries, leave links and clicks alone.
use shortner.Shared.{
  ℕ, Bool, true, false, not, Option, List, [], ◌∷◌, Bytes, if◌then◌else◌, find_if, Bool-cases, inl,
  inr, map,
}
use shortner.Library.{Library}
use shortner.Security.Token.{generate_token, token_prefix, compare_token_hash}
use shortner.Db.Rows.{Time, ApiToken, TokenRow, scan_click, scan_token, null_unix, is_active}
use shortner.Db.Exec.{Tables, ok, err, not_found, wrapped, raise, attempt, exec}
use shortner.Db.Exec.Keeps.{
  Keeps, KeepsS, Keeps-pure, Keeps-attempt, Keeps-bind, Keeps-exec, Keeps-if,
}
use shortner.Db.Links.{is_some, count_links, select_page, list_links}
use shortner.Db.Clicks.{select_clicks, clicks_for_link}
use shortner.Db.Tokens.{
  insert_tokens, select_token, select_by_prefix, get_token_by_id, create_resource_token,
  match_token, lookup_token_by_raw, update_tokens, touch_token_last_used, revoke_token,
  delete_expired, cleanup_expired_tokens, has_hash, draw_token, has_token_id,
}
use shortner.Db.Consistent.{Consistent}
use shortner.Db.Consistent.Ops.{drawn-Keeps, check_rows_affected-Keeps}

-- The invariant says nothing of the tokens.
other_tokens :
    (t : Tables) (ks : List TokenRow) (n : ℕ)
    → Consistent t
    → Consistent (record t { tokens = ks; last_token = n })
other_tokens t ks n h = record {
  codes_differ = h.codes_differ;
  links_fit = h.links_fit;
  clicks_fit = h.clicks_fit;
}

insert_tokens-Consistent :
    (hash prefix kind id : Bytes) (expires : Option ℕ)
    → KeepsS Consistent (insert_tokens hash prefix kind id expires)
unfolding insert_tokens
insert_tokens-Consistent hash prefix kind id expires now t h =
    elim (Bool-cases (is_some (find_if (has_hash hash) t.tokens))) [
      | inl taken ↦ rw taken h
      | inr free ↦ rw free (other_tokens t _ _ h)
    ]

pub get_token_by_id-Keeps : (P : Tables → Type 0) (id : ℕ) → Keeps P (get_token_by_id id)
unfolding get_token_by_id select_token
get_token_by_id-Keeps P id =
    Keeps-bind P (exec (select_token id)) _ (Keeps-exec P (select_token id) (λ now t h. h))
      λ row. Keeps-pure P (scan_token row)

-- What the insertion of a token keeps, its creation keeps.
pub create_resource_token-Keeps :
    (P : Tables → Type 0) (lib : Library) (kind id : Bytes) (expires : Option Time)
    → ((raw : Bytes)
        → KeepsS P (insert_tokens (lib.hash raw) (token_prefix raw) kind id (null_unix expires)))
    → Keeps P (create_resource_token lib kind id expires)
unfolding create_resource_token
create_resource_token-Keeps P lib kind id expires k =
    Keeps-bind P draw_token _ (λ s. drawn-Keeps P (generate_token s.random) s)
      λ raw. Keeps-bind P (exec _) _ (Keeps-exec P _ (k raw)) λ n.
        Keeps-bind P (attempt wrapped) _ (Keeps-attempt P wrapped)
          λ _. Keeps-bind P (get_token_by_id n) _ (get_token_by_id-Keeps P n) λ token s h. h

pub create_resource_token-Consistent :
    (lib : Library) (kind id : Bytes) (expires : Option Time)
    → Keeps Consistent (create_resource_token lib kind id expires)
create_resource_token-Consistent lib kind id expires =
    create_resource_token-Keeps Consistent lib kind id expires
      λ raw. insert_tokens-Consistent (lib.hash raw) (token_prefix raw) kind id (null_unix expires)

module _ (P : Tables → Type 0) (lib : Library) (raw : Bytes) where
  decided-Keeps :
      (b : Bool) (token : ApiToken) → Keeps P (λ s. if b then (err not_found, s) else (ok token, s))
  decided-Keeps true token s h = h
  decided-Keeps false token s h = h

  match_token-Keeps : (rows : List TokenRow) → Keeps P (match_token lib raw rows)
  unfolding match_token
  match_token-Keeps [] =
      Keeps-bind P (attempt wrapped) (λ _. raise {A = ApiToken} not_found) (Keeps-attempt P wrapped)
        λ _ s h. h
  match_token-Keeps (row ∷ rows) =
      let rest = match_token-Keeps rows in
      Keeps-if P (compare_token_hash lib.hash raw (scan_token row).token_hash)
        (λ s.
          if not (is_active s.now (scan_token row))
          then (err not_found, s)
          else (ok (scan_token row), s))
        (match_token lib raw rows)
        (λ s. decided-Keeps (not (is_active s.now (scan_token row))) (scan_token row) s) rest

  pub lookup_token_by_raw-Keeps : Keeps P (lookup_token_by_raw lib raw)
  unfolding lookup_token_by_raw select_by_prefix
  lookup_token_by_raw-Keeps =
      Keeps-bind P (exec (select_by_prefix (token_prefix raw))) (match_token lib raw)
        (Keeps-exec P _ (λ now t h. h)) match_token-Keeps

pub list_links-Keeps : (P : Tables → Type 0) (limit offset : ℕ) → Keeps P (list_links limit offset)
unfolding list_links count_links select_page
list_links-Keeps P limit offset =
    Keeps-bind P (exec count_links) _ (Keeps-exec P count_links (λ now t h. h)) λ total.
      Keeps-bind P (exec (select_page limit offset)) _
        (Keeps-exec P (select_page limit offset) (λ now t h. h))
        λ rows. Keeps-bind P (attempt _) _ (Keeps-attempt P _) λ _ s h. h

pub clicks_for_link-Keeps :
    (P : Tables → Type 0) (link_id limit : ℕ) → Keeps P (clicks_for_link link_id limit)
unfolding clicks_for_link select_clicks
clicks_for_link-Keeps P link_id limit =
    Keeps-bind P (exec (select_clicks link_id limit)) _
      (Keeps-exec P (select_clicks link_id limit) (λ now t h. h))
      λ rows.
        Keeps-bind P (attempt wrapped) _ (Keeps-attempt P wrapped)
          λ _. Keeps-pure P (map scan_click rows)

update_tokens-Consistent :
    (p : TokenRow → Bool) (f : ℕ → TokenRow → TokenRow) → KeepsS Consistent (update_tokens p f)
unfolding update_tokens
update_tokens-Consistent p f now t h = other_tokens t _ _ h

pub touch_token_last_used-Consistent : (id : ℕ) → Keeps Consistent (touch_token_last_used id)
unfolding touch_token_last_used
touch_token_last_used-Consistent id =
    Keeps-bind Consistent (exec _) _
      (Keeps-exec Consistent _ (update_tokens-Consistent (has_token_id id) _))
      λ _. Keeps-pure Consistent tt

pub revoke_token-Consistent :
    (prefix reason : Bytes) → Keeps Consistent (revoke_token prefix reason)
unfolding revoke_token
revoke_token-Consistent prefix reason =
    Keeps-bind Consistent (exec _) _ (Keeps-exec Consistent _ (update_tokens-Consistent _ _))
      (check_rows_affected-Keeps Consistent)

pub cleanup_expired_tokens-Consistent : Keeps Consistent cleanup_expired_tokens
unfolding cleanup_expired_tokens delete_expired
cleanup_expired_tokens-Consistent =
    Keeps-bind Consistent (exec delete_expired) _
      (Keeps-exec Consistent delete_expired (λ now t h. other_tokens t _ _ h))
      λ rows.
        Keeps-bind Consistent (attempt _) _ (Keeps-attempt Consistent _)
          λ _. Keeps-pure Consistent rows
