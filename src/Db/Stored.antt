-- ===== src/Db/Stored.antt =====
-- A link that was created can be found by its code, and its owner token by its value.
use shortner.Shared.{
  ℕ, zero, suc, ◌+◌, ◌≤◌, ◌≡◌, refl, Bool, true, false, Option, some, List, [], ◌∷◌, ◌++◌, Bytes,
  arith, Bool-cases, inl, inr, All, All-map, find_if, eq_bytes_refl,
}
use shortner.Db.Rows.{Time, null_unix, LinkRow, Link, scan_link}
use shortner.Db.Exec.{
  Tables, Db, DbError, Result, ok, is_unique_constraint_error, wrapped, M, raise, rescue, attempt,
  done, exec,
}
use shortner.Db.Exec.Runs.{Runs, Runs-bind, Runs-exec, Runs-attempt, Runs-pure, Runs-rescue}
use shortner.Db.Links.{
  has_id, has_code, is_some, new_link, insert_links, select_by_id, get_link_by_id, insert_link,
  create_link_custom_slug, draw_code, on_collision, auto_code, create_link_auto_code,
  max_short_code_attempts,
}
use shortner.Db.Consistent.{Consistent}
use shortner.Db.Consistent.Lists.{found-le}
use shortner.Db.Consistent.Ops.{insert_link-Consistent, draw_code-Keeps}

-- The row that a query by the link's code gives is scanned into the link.
pub record Findable (l : Link) (t : Tables) : Type 0 where
  pub row : LinkRow
  pub by_code : find_if (has_code l.short_code) t.links ≡ some row
  pub scanned : scan_link row ≡ l

record Inserted (id : ℕ) (t : Tables) : Type 0 where
  row : LinkRow
  by_code : find_if (has_code row.short_code) t.links ≡ some row
  by_id : find_if (has_id id) t.links ≡ some row

module _ {A : Type 0} (p : A → Bool) where
  pub find_last :
      (xs : List A) (x : A)
      → is_some (find_if p xs) ≡ false
      → p x ≡ true
      → find_if p (xs ++ x ∷ []) ≡ some x
  find_last [] x h hx = rw hx
  find_last (y ∷ xs) x h hx = ground (arith, find_last xs x)

absent_id :
    (id last : ℕ) (ls : List LinkRow)
    → All (λ (l : LinkRow). l.id ≤ last) ls
    → id ≡ last + 1
    → is_some (find_if (has_id id) ls) ≡ false
absent_id id last ls h e = elim (Bool-cases (is_some (find_if (has_id id) ls))) [
  | inl found ↦ absurd (omega (arith, found-le id last ls h found))
  | inr missing ↦ missing
]

insert_links-Inserted :
    (code destination : Bytes) (expires : Option ℕ) (now : ℕ) (t : Tables) (id : ℕ)
    → Consistent t
    → (insert_links code destination expires now t).0 ≡ done id
    → Inserted id (insert_links code destination expires now t).1
unfolding insert_links
insert_links-Inserted code destination expires now t id h e =
    elim (Bool-cases (is_some (find_if (has_code code) t.links))) [
      | inl taken ↦ absurd (ground arith)
      | inr free ↦
          let same : id ≡ t.last_link + 1 = ground arith in
          let row = new_link code destination expires (t.last_link + 1) now in
          rw free (record {
            row = row;
            by_code = find_last (has_code code) t.links row free (eq_bytes_refl code);
            by_id =
                find_last (has_id id) t.links row
                  (absent_id id t.last_link t.links
                    (All-map _ _ t.links (λ l fit. fit.0) h.links_fit) same)
                  (ground arith);
          })
    ]

found-Findable :
    (id now : ℕ) (t : Tables) (row : LinkRow)
    → Inserted id t
    → (select_by_id id now t).0 ≡ done row
    → Findable (scan_link row) t
unfolding select_by_id scan_link
found-Findable id now t row h e =
    let same : h.row ≡ row = ground (arith, h.by_id) in
    record { row = row; by_code = rw (← same) h.by_code; scanned = refl }

get_link_by_id-Findable : (id : ℕ) → Runs (Inserted id) (get_link_by_id id) Findable
unfolding get_link_by_id select_by_id
get_link_by_id-Findable id =
    Runs-bind (Inserted id) (λ row. Findable (scan_link row)) Findable (exec (select_by_id id)) _
      (Runs-exec (Inserted id) (λ row. Findable (scan_link row)) (select_by_id id)
        (found-Findable id))
      λ row. Runs-pure (Findable (scan_link row)) Findable (scan_link row) (λ t h. h)

insert_link-Findable :
    (code destination : Bytes) (expires : Option Time)
    → Runs Consistent (insert_link code destination expires) Findable
unfolding insert_link
insert_link-Findable code destination expires =
    Runs-bind Consistent Inserted Findable
      (exec (insert_links code destination (null_unix expires))) _
      (Runs-exec Consistent Inserted _ (insert_links-Inserted code destination (null_unix expires)))
      λ id.
        Runs-bind (Inserted id) (λ _. Inserted id) Findable (attempt wrapped) _
          (Runs-attempt (Inserted id) wrapped) (λ _. get_link_by_id-Findable id)

pub create_link_custom_slug-Findable :
    (slug destination : Bytes) (expires : Option Time)
    → Runs Consistent (create_link_custom_slug slug destination expires) Findable
unfolding create_link_custom_slug
create_link_custom_slug-Findable slug destination expires =
    Runs-rescue Consistent Findable _ _ (insert_link-Findable slug destination expires)
      (insert_link-Consistent slug destination expires) λ e s l h x. absurd (cc)

on_collision-Findable :
    (next : M Link) (e : DbError)
    → Runs Consistent next Findable
    → Runs Consistent (on_collision next e) Findable
on_collision-Findable next e k s l h = go (is_unique_constraint_error e)
  where
    go :
        (b : Bool)
        → (elim b as (λ _. Result Link × Db) [ true ↦ next s | false ↦ raise e s ]).0 ≡ ok l
        → Findable l
            (elim b as (λ _. Result Link × Db) [ true ↦ next s | false ↦ raise e s ]).1.tables
    go true x = k s l h x
    go false x = absurd (cc)

auto_code-Findable :
    (attempts : ℕ) (destination : Bytes) (expires : Option Time)
    → Runs Consistent (auto_code attempts destination expires) Findable
unfolding auto_code
auto_code-Findable zero destination expires = λ s l h x. absurd (cc)
auto_code-Findable (suc n) destination expires =
    let next = auto_code n destination expires in
    let found = auto_code-Findable n destination expires in
    Runs-bind Consistent (λ _. Consistent) Findable draw_code
      (λ code. rescue (insert_link code destination expires) (on_collision next))
      (λ s code h e. draw_code-Keeps Consistent s h)
      λ code.
        Runs-rescue Consistent Findable (insert_link code destination expires) (on_collision next)
          (insert_link-Findable code destination expires)
          (insert_link-Consistent code destination expires) λ e. on_collision-Findable next e found

pub create_link_auto_code-Findable :
    (destination : Bytes) (expires : Option Time)
    → Runs Consistent (create_link_auto_code destination expires) Findable
unfolding create_link_auto_code
create_link_auto_code-Findable = auto_code-Findable max_short_code_attempts
