-- ===== src/Db/Clicks.antt =====
-- src/db/click.go
use shortner.Shared.{
  ℕ, ◌+◌, Bool, Option, List, [], ◌∷◌, ◌++◌, map, Bytes, ◌&&◌, ◌||◌, ltb, ◌==◌, if◌then◌else◌, take,
  find_if, keep_if,
}
use shortner.Library.{Library}
use shortner.Security.Anonymize.{anonymize_ip}
use shortner.Db.Rows.{Click, ClickRow, nullable_string, scan_click}
use shortner.Db.Exec.{
  foreign_key_failed, wrapped, M, pure, ◌>>=◌, ◌>>◌, attempt, done, failed, Statement, exec,
  with_transaction,
}
use shortner.Db.Links.{has_id, of_link, is_some, one_row, update_links}

abbrev pub has_click_id : ℕ → ClickRow → Bool
has_click_id id c = c.id == id

-- The texts of a request that a click keeps, NULL where there is none.
pub record Visit : Type 0 where
  pub ip : Option Bytes
  pub user_agent : Option Bytes
  pub referrer : Option Bytes
  pub country : Option Bytes
  pub region : Option Bytes

abbrev pub new_click : ℕ → ℕ → ℕ → Visit → ClickRow
new_click id link_id now v = record {
  id = id;
  link_id = link_id;
  timestamp = now;
  ip = v.ip;
  user_agent = v.user_agent;
  referrer = v.referrer;
  country = v.country;
  region = v.region;
}

-- INSERT INTO clicks (link_id, ip, user_agent, referrer, country, region) VALUES (...); the foreign
-- key wants the link.
unfoldable pub insert_clicks : ℕ → Visit → Statement ℕ
insert_clicks link_id v now t =
    let id = t.last_click + 1 in
    if is_some (find_if (has_id link_id) t.links)
    then (
      done id,
      record t { clicks = t.clicks ++ new_click id link_id now v ∷ []; last_click = id },
    )
    else (failed foreign_key_failed, t)

-- SELECT ... FROM clicks WHERE id = ?
unfoldable pub select_click : ℕ → Statement ClickRow
select_click id now t = (one_row (find_if (has_click_id id) t.clicks), t)

-- The IP is anonymized before anything is stored.
unfoldable pub visit_of : Library → Bytes → Bytes → Bytes → Bytes → Bytes → Visit
unfolding anonymize_ip nullable_string
visit_of lib raw_ip user_agent referrer country region = record {
  ip = nullable_string (anonymize_ip lib raw_ip);
  user_agent = nullable_string user_agent;
  referrer = nullable_string referrer;
  country = nullable_string country;
  region = nullable_string region;
}

-- The body of the transaction of `RecordClick`.
unfoldable pub store_click : ℕ → Visit → M Click
store_click link_id v = do
  id ← exec (insert_clicks link_id v)
  attempt wrapped
  exec (update_links link_id (λ l. record l { click_count = l.click_count + 1 }))
  row ← exec (select_click id)
  pure (scan_click row)

unfoldable pub record_click : Library → ℕ → Bytes → Bytes → Bytes → Bytes → Bytes → M Click
unfolding store_click visit_of
record_click lib link_id raw_ip user_agent referrer country region =
    with_transaction (store_click link_id (visit_of lib raw_ip user_agent referrer country region))

-- ORDER BY timestamp DESC; rows of one second, which SQLite may give in any order, newest id first.
abbrev pub clicked_later : ClickRow → ClickRow → Bool
clicked_later a b = ltb b.timestamp a.timestamp || (b.timestamp == a.timestamp && ltb b.id a.id)

unfoldable pub insert_latest : ClickRow → List ClickRow → List ClickRow
insert_latest a [] = a ∷ []
insert_latest a (b ∷ cs) =
    let deeper = b ∷ insert_latest a cs in if clicked_later a b then a ∷ b ∷ cs else deeper

unfoldable pub latest_first : List ClickRow → List ClickRow
unfolding insert_latest
latest_first [] = []
latest_first (a ∷ cs) = insert_latest a (latest_first cs)

-- SELECT ... FROM clicks WHERE link_id = ? ORDER BY timestamp DESC LIMIT ?
unfoldable pub select_clicks : ℕ → ℕ → Statement (List ClickRow)
unfolding latest_first
select_clicks link_id limit now t =
    (done (take limit (latest_first (keep_if (of_link link_id) t.clicks))), t)

unfoldable pub clicks_for_link : ℕ → ℕ → M (List Click)
clicks_for_link link_id limit = do
  rows ← exec (select_clicks link_id limit)
  attempt wrapped
  pure (map scan_click rows)
