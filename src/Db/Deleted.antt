-- ===== src/Db/Deleted.antt =====
-- `DeleteLink` of src/db/link.go where nothing fails: it succeeds, and the link is gone.
use shortner.Shared.{
  ℕ, ◌<◌, ◌≡◌, refl, sym, ap, subst, ◌∙◌, Bool, true, false, not, ◌&&◌, some, List, [], ◌∷◌, Bytes,
  arith, ◌==◌, if◌then◌else◌, Bool-cases, inl, inr, find_if, keep_if, count_if, eq_bytes_iff,
}
use shortner.Db.Rows.{LinkRow}
use shortner.Db.Exec.{Tables, Db, Result, ok, pure, raise, not_found, wrapped, attempt, done, exec}
use shortner.Db.Exec.Succeeds.{
  Succeeds, Succeeds-bind, Succeeds-exec, Succeeds-attempt, Succeeds-with_transaction,
}
use shortner.Db.Links.{
  has_id, has_code, of_link, is_some, delete_clicks, delete_tokens, delete_links,
  check_rows_affected, delete_link,
}
use shortner.Db.Consistent.{Distinct}

none_kept :
    {A : Type 0} (p q : A → Bool) (xs : List A)
    → is_some (find_if p xs) ≡ false
    → is_some (find_if p (keep_if q xs)) ≡ false
none_kept p q [] h = refl
none_kept p q (x ∷ xs) h = ground (arith, none_kept p q xs)

-- Without the row that a code finds, no row has that code.
gone_code :
    (code : Bytes) (row : LinkRow) (ls : List LinkRow)
    → Distinct ls
    → find_if (has_code code) ls ≡ some row
    → is_some (find_if (has_code code) (keep_if (λ l. not (has_id row.id l)) ls)) ≡ false
gone_code code row [] d h = refl
gone_code code row (l ∷ ls) d h = elim (Bool-cases (has_code code l)) [
  | inl this ↦
      let same : l ≡ row = ground arith in
      let named = (eq_bytes_iff l.short_code code).0 this in
      let rest : is_some (find_if (has_code code) ls) ≡ false = rw (← named) d.0 in
      let removed : not (has_id row.id l) ≡ false = rw same (ground arith) in
      rw removed (none_kept (has_code code) (λ x. not (has_id row.id x)) ls rest)
  | inr other ↦ let deeper = gone_code code row ls d.1 (ground arith) in ground arith
]

removed_none :
    {A : Type 0} (p : A → Bool) (xs : List A)
    → is_some (find_if p (keep_if (λ x. not (p x)) xs)) ≡ false
removed_none p [] = refl
removed_none p (x ∷ xs) = ground (arith, removed_none p xs)

found-count :
    (p : LinkRow → Bool) (row : LinkRow) (ls : List LinkRow)
    → find_if p ls ≡ some row
    → 0 < count_if (has_id row.id) ls
found-count p row [] h = absurd (cc)
found-count p row (l ∷ ls) h = elim (Bool-cases (p l)) [
  | inl this ↦
      let same : l ≡ row = ground arith in
      let counted : has_id row.id l ≡ true = rw same (ground arith) in ground arith
  | inr other ↦ let deeper = found-count p row ls (ground arith) in ground arith
]

-- No row has the code.
abbrev pub Unknown : Bytes → Tables → Type 0
Unknown code t = is_some (find_if (has_code code) t.links) ≡ false

module _ (code : Bytes) (row : LinkRow) where
  abbrev pub Unique : Tables → Type 0
  Unique t = Distinct t.links × (find_if (has_code code) t.links ≡ some row)

  abbrev Unclicked : Tables → Type 0
  Unclicked t = Unique t × (is_some (find_if (of_link row.id) t.clicks) ≡ false)

  rows_deleted :
      (now : ℕ) (t : Tables)
      → Unclicked t
      → (n : ℕ) × ((delete_links row.id now t).0 ≡ done n)
        × ((0 < n) × Unknown code (delete_links row.id now t).1)
  unfolding delete_links
  rows_deleted now t (u, unclicked) =
      let unbound : is_some (find_if (has_id row.id) t.links)
            && is_some (find_if (of_link row.id) t.clicks)
          ≡ false =
        ground arith in
      (
        count_if (has_id row.id) t.links,
        rw unbound refl,
        (
          found-count (has_code code) row t.links u.1,
          rw unbound (gone_code code row t.links u.0 u.1),
        ),
      )

  some_rows :
      (n : ℕ)
      → 0 < n
      → (s : Db)
      → ◌≡◌ {A = Result (Unit {0}) × Db}
          ((if n == 0 then raise not_found else pure tt) s)
          (ok tt, s)
  some_rows n h s = let positive : (n == 0) ≡ false = ground arith in rw positive refl

  check_rows :
      (n : ℕ) → Succeeds (λ t. (0 < n) × Unknown code t) (check_rows_affected n) (λ _. Unknown code)
  check_rows n =
      let P : Tables → Type 0 = λ t. (0 < n) × Unknown code t in
      Succeeds-bind P (λ _. P) (λ _. Unknown code) (attempt wrapped) _ (Succeeds-attempt P wrapped)
        λ _ s calm h.
          let same = some_rows n h.0 s in
          record {
            value = tt;
            succeeds = ap (λ q. q.0) same;
            schedule = ap (λ (q : Result (Unit {0}) × Db). q.1.schedule) same ∙ calm;
            holds = subst (λ (q : Result (Unit {0}) × Db). Unknown code q.1.tables) (sym same) h.1;
          }

  -- With no fault to come, the link of the row is deleted: afterwards its code finds nothing.
  pub delete_link-Succeeds : Succeeds Unique (delete_link row.id) (λ _. Unknown code)
  unfolding delete_link delete_clicks delete_tokens
  delete_link-Succeeds =
      let R : ℕ → Tables → Type 0 = λ n t. (0 < n) × Unknown code t in
      let id = row.id in
      Succeeds-with_transaction Unique (λ _. Unknown code) _
        (Succeeds-bind Unique (λ _. Unclicked) (λ _. Unknown code) (exec (delete_clicks id)) _
          (Succeeds-exec Unique (λ _. Unclicked) (delete_clicks id)
            (λ now t h. (tt, refl, (h, removed_none (of_link id) t.clicks))))
          λ _.
            Succeeds-bind Unclicked (λ _. Unclicked) (λ _. Unknown code) (exec (delete_tokens id)) _
              (Succeeds-exec Unclicked (λ _. Unclicked) (delete_tokens id)
                (λ now t h. (tt, refl, h)))
              λ _.
                Succeeds-bind Unclicked R (λ _. Unknown code) (exec (delete_links id)) _
                  (Succeeds-exec Unclicked R (delete_links id) rows_deleted) check_rows)
