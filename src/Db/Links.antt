-- ===== src/Db/Links.antt =====
-- src/db/link.go: each SQL text as a statement on the tables, and the functions around them.
use shortner.Shared.{
  ℕ, zero, suc, ◌+◌, Bool, true, false, not, ◌&&◌, ◌||◌, Option, none, some, List, [], ◌∷◌, ◌++◌,
  map, Bytes, codes, ltb, ◌==◌, if◌then◌else◌, length, take, drop, eq_bytes, find_if, keep_if,
  update_if, count_if, format_int,
}
pub use shortner.Shared.{is_some}
use shortner.Security.Random.{RandomResult}
use shortner.Security.Slug.{generate_short_code}
use shortner.Db.Rows.{Time, null_unix, LinkRow, Link, scan_link, ClickRow, TokenRow}
use shortner.Db.Exec.{
  ok, err, fault, handle_query_error, no_rows, unique_failed, foreign_key_failed, DbError,
  not_found, slug_taken, wrapped, attempts_exhausted, random_failed, is_unique_constraint_error, M,
  pure, raise, ◌>>=◌, ◌>>◌, rescue, attempt, Answer, done, failed, Statement, exec,
  with_transaction,
}

abbrev pub has_id : ℕ → LinkRow → Bool
has_id id l = l.id == id

abbrev pub has_code : Bytes → LinkRow → Bool
has_code code l = eq_bytes l.short_code code

abbrev pub of_link : ℕ → ClickRow → Bool
of_link id c = c.link_id == id

abbrev pub new_link : Bytes → Bytes → Option ℕ → ℕ → ℕ → LinkRow
new_link code destination expires id now = record {
  id = id;
  short_code = code;
  destination_url = destination;
  created_at = now;
  expires_at = expires;
  click_count = 0;
}

-- INSERT INTO links (short_code, destination_url, expires_at) VALUES (?, ?, ?)
unfoldable pub insert_links : Bytes → Bytes → Option ℕ → Statement ℕ
insert_links code destination expires now t =
    let id = t.last_link + 1 in
    if is_some (find_if (has_code code) t.links) then (failed unique_failed, t) else (
      done id,
      record t { links = t.links ++ new_link code destination expires id now ∷ []; last_link = id },
    )

-- A query for one row; no row is `sql.ErrNoRows`.
abbrev pub one_row : {A : Type 0} → Option A → Answer A
one_row none = failed no_rows
one_row (some a) = done a

-- SELECT ... FROM links WHERE short_code = ?
unfoldable pub select_by_code : Bytes → Statement LinkRow
select_by_code code now t = (one_row (find_if (has_code code) t.links), t)

-- SELECT ... FROM links WHERE id = ?
unfoldable pub select_by_id : ℕ → Statement LinkRow
select_by_id id now t = (one_row (find_if (has_id id) t.links), t)

-- UPDATE links SET ... WHERE id = ?, with the rows affected.
unfoldable pub update_links : ℕ → (LinkRow → LinkRow) → Statement ℕ
update_links id f now t =
    (done (count_if (has_id id) t.links), record t { links = update_if (has_id id) f t.links })

-- DELETE FROM clicks WHERE link_id = ?
unfoldable pub delete_clicks : ℕ → Statement (Unit {0})
delete_clicks id now t = (done tt, record t { clicks = keep_if (λ c. not (of_link id c)) t.clicks })

-- DELETE FROM api_tokens WHERE resource_type = 'link' AND resource_id = ?
abbrev pub owns : ℕ → TokenRow → Bool
owns id k = eq_bytes k.resource_type (codes "link") && eq_bytes k.resource_id (format_int id)

unfoldable pub delete_tokens : ℕ → Statement (Unit {0})
delete_tokens id now t = (done tt, record t { tokens = keep_if (λ k. not (owns id k)) t.tokens })

-- DELETE FROM links WHERE id = ?, refused while a click refers to a row that it would delete.
unfoldable pub delete_links : ℕ → Statement ℕ
delete_links id now t =
    if is_some (find_if (has_id id) t.links) && is_some (find_if (of_link id) t.clicks)
    then (failed foreign_key_failed, t)
    else (
      done (count_if (has_id id) t.links),
      record t { links = keep_if (λ l. not (has_id id l)) t.links },
    )

-- ORDER BY created_at DESC, id DESC
abbrev pub newer : LinkRow → LinkRow → Bool
newer a b = ltb b.created_at a.created_at || (b.created_at == a.created_at && ltb b.id a.id)

unfoldable pub insert_newest : LinkRow → List LinkRow → List LinkRow
insert_newest a [] = a ∷ []
insert_newest a (b ∷ ls) =
    let deeper = b ∷ insert_newest a ls in if newer a b then a ∷ b ∷ ls else deeper

unfoldable pub newest_first : List LinkRow → List LinkRow
unfolding insert_newest
newest_first [] = []
newest_first (a ∷ ls) = insert_newest a (newest_first ls)

-- SELECT COUNT(*) FROM links
unfoldable pub count_links : Statement ℕ
count_links now t = (done (length t.links), t)

-- SELECT ... FROM links ORDER BY created_at DESC, id DESC LIMIT ? OFFSET ?
unfoldable pub select_page : ℕ → ℕ → Statement (List LinkRow)
unfolding newest_first
select_page limit offset now t = (done (take limit (drop offset (newest_first t.links))), t)

unfoldable pub get_link_by_short_code : Bytes → M Link
get_link_by_short_code code = do row ← exec (select_by_code code); pure (scan_link row)

unfoldable pub get_link_by_id : ℕ → M Link
get_link_by_id id = do row ← exec (select_by_id id); pure (scan_link row)

-- `res.LastInsertId()` may fail after the row is stored.
unfoldable pub insert_link : Bytes → Bytes → Option Time → M Link
unfolding get_link_by_id
insert_link code destination expires = do
  id ← exec (insert_links code destination (null_unix expires))
  attempt wrapped
  get_link_by_id id

unfoldable pub create_link_custom_slug : Bytes → Bytes → Option Time → M Link
unfolding insert_link
create_link_custom_slug slug destination expires =
    rescue (insert_link slug destination expires)
      λ e. raise (if is_unique_constraint_error e then slug_taken else e)

-- `security.GenerateShortCode` takes its bytes from the stream.
abbrev pub drawn : RandomResult → M Bytes
drawn (RandomResult.ok code rest) s = (ok code, record s { random = rest })
drawn _ s = (err random_failed, s)

abbrev pub draw_code : M Bytes
draw_code s = drawn (generate_short_code s.random) s

-- `continue` on a collision, and any other error is returned.
abbrev pub on_collision : M Link → DbError → M Link
on_collision next e s = elim (is_unique_constraint_error e) [ true ↦ next s | false ↦ raise e s ]

-- One round per attempt left; a collision of the code goes on to the next.
unfoldable pub auto_code : ℕ → Bytes → Option Time → M Link
unfolding insert_link
auto_code zero destination expires = raise attempts_exhausted
auto_code (suc attempts) destination expires = do
  code ← draw_code
  rescue (insert_link code destination expires)
      (on_collision (auto_code attempts destination expires))

abbrev pub max_short_code_attempts : ℕ
max_short_code_attempts = 10

unfoldable pub create_link_auto_code : Bytes → Option Time → M Link
unfolding auto_code
create_link_auto_code = auto_code max_short_code_attempts

-- No row affected is ErrNotFound.
abbrev pub check_rows_affected : ℕ → M (Unit {0})
check_rows_affected rows = do attempt wrapped; if rows == 0 then raise not_found else pure tt

-- With no new expiry the column is left alone, unless it is to be cleared.
unfoldable pub update_link_destination : ℕ → Bytes → Option Time → Bool → M (Unit {0})
update_link_destination id destination none false = do
  rows ← exec (update_links id (λ l. record l { destination_url = destination }))
  check_rows_affected rows
update_link_destination id destination expires clear = do
  rows ← exec (
      update_links id
        (λ l. record l { destination_url = destination; expires_at = null_unix expires }))
  check_rows_affected rows

unfoldable pub delete_link : ℕ → M (Unit {0})
delete_link id = with_transaction do
  exec (delete_clicks id)
  exec (delete_tokens id)
  rows ← exec (delete_links id)
  check_rows_affected rows

unfoldable pub increment_click_count : ℕ → M (Unit {0})
increment_click_count id = do
  exec (update_links id (λ l. record l { click_count = l.click_count + 1 }))
  pure tt

-- `rows.Err()` is checked once more after the last row.
unfoldable pub list_links : ℕ → ℕ → M (List Link × ℕ)
list_links limit offset = do
  total ← exec count_links
  rows ← exec (select_page limit offset)
  attempt (λ f. handle_query_error (fault f))
  pure (map scan_link rows, total)
