-- ===== src/Db/Consistent/Ops.antt =====
-- Every operation of src/db keeps the invariant, whatever fails on the way.
use shortner.Shared.{ℕ, zero, suc, refl, Bool, true, false, Option, none, Bytes, ◌==◌}
use shortner.Library.{Library}
use shortner.Security.Random.{RandomResult}
use shortner.Security.Slug.{generate_short_code}
use shortner.Db.Rows.{Time, Link, scan_link, null_unix, scan_click}
use shortner.Db.Exec.{
  Tables, Db, DbError, is_unique_constraint_error, wrapped, Result, M, raise, rescue, attempt, exec,
}
use shortner.Db.Exec.Keeps.{
  Keeps, Keeps-pure, Keeps-attempt, Keeps-bind, Keeps-rescue, Keeps-if, Keeps-exec,
  Keeps-transaction,
}
use shortner.Db.Exec.Runs.{Runs, Runs-step, Runs-bind, Runs-attempt, Runs-pure}
use shortner.Db.Links.{
  insert_links, select_by_id, select_by_code, delete_clicks, delete_tokens, delete_links,
  get_link_by_id, get_link_by_short_code, insert_link, create_link_custom_slug, drawn, draw_code,
  on_collision, auto_code, max_short_code_attempts, create_link_auto_code, check_rows_affected,
  update_link_destination, delete_link,
}
use shortner.Db.Clicks.{Visit, insert_clicks, select_click, store_click, record_click, visit_of}
use shortner.Db.Consistent.{Consistent}
use shortner.Db.Consistent.Steps.{
  insert_links-Consistent, update_links-Consistent, Unclicked, delete_clicks-Unclicked,
  delete_tokens-Unclicked, delete_links-Consistent, Uncounted, insert_clicks-Uncounted,
  count_click-Consistent,
}

-- A query writes nothing.
pub get_link_by_id-Keeps : (P : Tables → Type 0) (id : ℕ) → Keeps P (get_link_by_id id)
unfolding get_link_by_id select_by_id
get_link_by_id-Keeps P id =
    Keeps-bind P (exec (select_by_id id)) _ (Keeps-exec P (select_by_id id) (λ now t h. h))
      λ row. Keeps-pure P (scan_link row)

pub get_link_by_short_code-Keeps :
    (P : Tables → Type 0) (code : Bytes) → Keeps P (get_link_by_short_code code)
unfolding get_link_by_short_code select_by_code
get_link_by_short_code-Keeps P code =
    Keeps-bind P (exec (select_by_code code)) _ (Keeps-exec P (select_by_code code) (λ now t h. h))
      λ row. Keeps-pure P (scan_link row)

pub insert_link-Consistent :
    (code destination : Bytes) (expires : Option Time)
    → Keeps Consistent (insert_link code destination expires)
unfolding insert_link
insert_link-Consistent code destination expires =
    Keeps-bind Consistent (exec (insert_links code destination (null_unix expires))) _
      (Keeps-exec Consistent _ (insert_links-Consistent code destination (null_unix expires)))
      λ id.
        Keeps-bind Consistent (attempt wrapped) _ (Keeps-attempt Consistent wrapped)
          λ _. get_link_by_id-Keeps Consistent id

pub create_link_custom_slug-Consistent :
    (slug destination : Bytes) (expires : Option Time)
    → Keeps Consistent (create_link_custom_slug slug destination expires)
unfolding create_link_custom_slug
create_link_custom_slug-Consistent slug destination expires =
    Keeps-rescue Consistent _ _ (insert_link-Consistent slug destination expires) λ e s h. h

pub drawn-Keeps : (P : Tables → Type 0) (r : RandomResult) → Keeps P (drawn r)
drawn-Keeps P (RandomResult.ok code rest) s h = h
drawn-Keeps P _ s h = h

pub draw_code-Keeps : (P : Tables → Type 0) → Keeps P draw_code
draw_code-Keeps P s = drawn-Keeps P (generate_short_code s.random) s

on_collision-Keeps :
    (P : Tables → Type 0) (next : M Link) (e : DbError)
    → Keeps P next
    → Keeps P (on_collision next e)
on_collision-Keeps P next e k s h =
    elim (is_unique_constraint_error e)
      as (λ b.
        P ((elim b as (λ _. Result Link × Db) [ true ↦ next s | false ↦ raise e s ]).1.tables)) [
          | true ↦ k s h
          | false ↦ h
        ]

auto_code-Consistent :
    (attempts : ℕ) (destination : Bytes) (expires : Option Time)
    → Keeps Consistent (auto_code attempts destination expires)
unfolding auto_code
auto_code-Consistent zero destination expires = λ s h. h
auto_code-Consistent (suc n) destination expires =
    let next = auto_code n destination expires in
    let keep = auto_code-Consistent n destination expires in
    Keeps-bind Consistent draw_code
      (λ code. rescue (insert_link code destination expires) (on_collision next))
      (draw_code-Keeps Consistent)
      λ code.
        Keeps-rescue Consistent (insert_link code destination expires) (on_collision next)
          (insert_link-Consistent code destination expires)
          λ e. on_collision-Keeps Consistent next e keep

pub create_link_auto_code-Consistent :
    (destination : Bytes) (expires : Option Time)
    → Keeps Consistent (create_link_auto_code destination expires)
unfolding create_link_auto_code
create_link_auto_code-Consistent = auto_code-Consistent max_short_code_attempts

pub check_rows_affected-Keeps : (P : Tables → Type 0) (n : ℕ) → Keeps P (check_rows_affected n)
check_rows_affected-Keeps P n =
    Keeps-bind P (attempt wrapped) _ (Keeps-attempt P wrapped)
      λ _. Keeps-if P (n == 0) _ _ (λ s h. h) (λ s h. h)

pub update_link_destination-Consistent :
    (id : ℕ) (destination : Bytes) (expires : Option Time) (clear : Bool)
    → Keeps Consistent (update_link_destination id destination expires clear)
unfolding update_link_destination
update_link_destination-Consistent id destination none false =
    Keeps-bind Consistent _ _
      (Keeps-exec Consistent _ (update_links-Consistent id _ (λ l. refl) (λ l. refl) (λ l. refl)))
      (check_rows_affected-Keeps Consistent)
update_link_destination-Consistent id destination _ _ =
    Keeps-bind Consistent _ _
      (Keeps-exec Consistent _ (update_links-Consistent id _ (λ l. refl) (λ l. refl) (λ l. refl)))
      (check_rows_affected-Keeps Consistent)

checked-Consistent : (n : ℕ) → Runs Consistent (check_rows_affected n) (λ _. Consistent)
checked-Consistent n s a h e = check_rows_affected-Keeps Consistent n s h

pub delete_link-Consistent : (id : ℕ) → Keeps Consistent (delete_link id)
unfolding delete_link
delete_link-Consistent id = Keeps-transaction Consistent _ (
    Runs-step Consistent (Unclicked id) Consistent (delete_clicks id) _
      (λ now t a h e. delete_clicks-Unclicked id now t h)
      λ _.
        Runs-step (Unclicked id) (Unclicked id) Consistent (delete_tokens id) _
          (λ now t a h e. delete_tokens-Unclicked id now t h)
          λ _.
            Runs-step (Unclicked id) Consistent Consistent (delete_links id) _
              (λ now t a h e. delete_links-Consistent id now t a h e) checked-Consistent)

store_click-Consistent :
    (link_id : ℕ) (v : Visit) → Runs Consistent (store_click link_id v) (λ _. Consistent)
unfolding store_click select_click
store_click-Consistent link_id v =
    Runs-step Consistent (Uncounted link_id) Consistent (insert_clicks link_id v) _
      (insert_clicks-Uncounted link_id v)
      λ id.
        Runs-bind (Uncounted link_id) (λ _. Uncounted link_id) (λ _. Consistent) (attempt wrapped) _
          (Runs-attempt (Uncounted link_id) wrapped)
          λ _.
            Runs-step (Uncounted link_id) Consistent Consistent _ _
              (λ now t a h e. count_click-Consistent link_id now t h)
              λ _.
                Runs-step Consistent Consistent Consistent (select_click id) _ (λ now t a h e. h)
                  λ row. Runs-pure Consistent (λ _. Consistent) (scan_click row) (λ t h. h)

pub record_click-Consistent :
    (lib : Library) (link_id : ℕ) (ip ua ref country region : Bytes)
    → Keeps Consistent (record_click lib link_id ip ua ref country region)
unfolding record_click
record_click-Consistent lib link_id ip ua ref country region =
    Keeps-transaction Consistent _
      λ s a. store_click-Consistent link_id (visit_of lib ip ua ref country region) s a
