-- ===== src/Db/Tokens.antt =====
-- src/db/token.go
use shortner.Shared.{
  ℕ, ◌+◌, Bool, false, not, ◌&&◌, Option, none, some, List, [], ◌∷◌, ◌++◌, Bytes, ltb, ◌==◌,
  if◌then◌else◌, eq_bytes, find_if, keep_if, update_if, count_if, ◌||◌, map,
}
use shortner.Library.{Library}
use shortner.Security.Token.{generate_token, token_prefix, compare_token_hash}
use shortner.Db.Rows.{Time, null_unix, is_set, ApiToken, TokenRow, scan_token, is_active}
use shortner.Db.Exec.{
  ok, err, fault, handle_query_error, unique_failed, not_found, wrapped, M, pure, raise, ◌>>=◌,
  ◌>>◌, attempt, done, failed, Statement, exec,
}
use shortner.Db.Links.{is_some, one_row, drawn, check_rows_affected}

abbrev pub has_hash : Bytes → TokenRow → Bool
has_hash h k = eq_bytes k.token_hash h

abbrev pub has_prefix_of : Bytes → TokenRow → Bool
has_prefix_of prefix k = eq_bytes k.token_prefix prefix

abbrev pub has_token_id : ℕ → TokenRow → Bool
has_token_id id k = k.id == id

abbrev pub new_token : ℕ → ℕ → Bytes → Bytes → Bytes → Bytes → Option ℕ → TokenRow
new_token id now hash prefix resource_type resource_id expires = record {
  id = id;
  token_hash = hash;
  token_prefix = prefix;
  resource_type = resource_type;
  resource_id = resource_id;
  created_at = now;
  expires_at = expires;
  last_used_at = none;
  revoked_at = none;
  revoked_reason = none;
}

-- INSERT INTO api_tokens (...) VALUES (?, ?, ?, ?, ?); the hashes are unique.
unfoldable pub insert_tokens : Bytes → Bytes → Bytes → Bytes → Option ℕ → Statement ℕ
insert_tokens hash prefix resource_type resource_id expires now t =
    let id = t.last_token + 1 in
    if is_some (find_if (has_hash hash) t.tokens) then (failed unique_failed, t) else (
      done id,
      record t {
        tokens = t.tokens ++ new_token id now hash prefix resource_type resource_id expires ∷ [];
        last_token = id;
      },
    )

-- SELECT ... FROM api_tokens WHERE id = ?
unfoldable pub select_token : ℕ → Statement TokenRow
select_token id now t = (one_row (find_if (has_token_id id) t.tokens), t)

-- SELECT ... FROM api_tokens WHERE token_prefix = ?
unfoldable pub select_by_prefix : Bytes → Statement (List TokenRow)
select_by_prefix prefix now t = (done (keep_if (has_prefix_of prefix) t.tokens), t)

unfoldable pub get_token_by_id : ℕ → M ApiToken
get_token_by_id id = do row ← exec (select_token id); pure (scan_token row)

-- `security.GenerateToken` takes its bytes from the stream.
abbrev pub draw_token : M Bytes
draw_token s = drawn (generate_token s.random) s

unfoldable pub create_resource_token : Library → Bytes → Bytes → Option Time → M (Bytes × ApiToken)
unfolding get_token_by_id
create_resource_token lib resource_type resource_id expires = do
  raw ← draw_token
  id ← exec (
      insert_tokens (lib.hash raw) (token_prefix raw) resource_type resource_id (null_unix expires))
  attempt wrapped
  token ← get_token_by_id id
  pure (raw, token)

-- The loop over the rows: the first whose hash matches decides.
unfoldable pub match_token : Library → Bytes → List TokenRow → M ApiToken
match_token lib raw [] = do attempt wrapped; raise not_found
match_token lib raw (row ∷ rows) =
    let token = scan_token row in
    let rest = match_token lib raw rows in
    if compare_token_hash lib.hash raw token.token_hash
    then (λ s. if not (is_active s.now token) then (err not_found, s) else (ok token, s))
    else rest

unfoldable pub lookup_token_by_raw : Library → Bytes → M ApiToken
unfolding match_token
lookup_token_by_raw lib raw = do
  rows ← exec (select_by_prefix (token_prefix raw))
  match_token lib raw rows

-- UPDATE api_tokens SET ... WHERE ..., with the rows affected.
unfoldable pub update_tokens : (TokenRow → Bool) → (ℕ → TokenRow → TokenRow) → Statement ℕ
update_tokens p f now t =
    (done (count_if p t.tokens), record t { tokens = update_if p (f now) t.tokens })

unfoldable pub touch_token_last_used : ℕ → M (Unit {0})
touch_token_last_used id = do
  exec (update_tokens (has_token_id id) (λ now k. record k { last_used_at = some now }))
  pure tt

unfoldable pub revoke_token : Bytes → Bytes → M (Unit {0})
revoke_token prefix reason = do
  rows ← exec (
      update_tokens (λ k. has_prefix_of prefix k && not (is_set k.revoked_at))
        (λ now k. record k { revoked_at = some now; revoked_reason = some reason }))
  check_rows_affected rows

-- expires_at IS NOT NULL AND expires_at < strftime('%s', 'now')
abbrev pub has_expired : ℕ → TokenRow → Bool
has_expired now k = elim k.expires_at [ none ↦ false | some e ↦ ltb e now ]

unfoldable pub delete_expired : Statement ℕ
delete_expired now t = (
  done (count_if (has_expired now) t.tokens),
  record t { tokens = keep_if (λ k. not (has_expired now k)) t.tokens },
)

unfoldable pub cleanup_expired_tokens : M ℕ
cleanup_expired_tokens = do
  rows ← exec delete_expired
  attempt (λ f. handle_query_error (fault f))
  pure rows

-- ORDER BY created_at DESC; rows of one second, which SQLite may give in any order, newest id first.
abbrev created_later : TokenRow → TokenRow → Bool
created_later a b = ltb b.created_at a.created_at || (b.created_at == a.created_at && ltb b.id a.id)

insert_newest : TokenRow → List TokenRow → List TokenRow
insert_newest a [] = a ∷ []
insert_newest a (b ∷ ks) =
    let deeper = b ∷ insert_newest a ks in if created_later a b then a ∷ b ∷ ks else deeper

newest_first : List TokenRow → List TokenRow
unfolding insert_newest
newest_first [] = []
newest_first (a ∷ ks) = insert_newest a (newest_first ks)

-- SELECT ... FROM api_tokens WHERE revoked_at IS NULL ORDER BY created_at DESC
unfoldable select_active : Statement (List TokenRow)
unfolding newest_first
select_active now t = (done (newest_first (keep_if (λ k. not (is_set k.revoked_at)) t.tokens)), t)

unfoldable pub list_active_tokens : M (List ApiToken)
unfolding select_active
list_active_tokens = do rows ← exec select_active; attempt wrapped; pure (map scan_token rows)
