-- ===== src/Http/Pages.antt =====
-- The pages of GET /links (src/httpserver/links.go, src/db/link.go): together they list every link.
use shortner.Shared.{
  ℕ, zero, suc, ◌+◌, ◌-◌, ◌*◌, ◌/◌, ◌%◌, ◌^◌, ◌≤◌, ◌<◌, ◌≡◌, refl, ap, ◌∙◌, true, false, List, [],
  ◌∷◌, ◌++◌, arith, Bool-cases, inl, inr, length, take, take-add, ltb, lt→ltb, All, All-map,
  if_intro, count_if, Bool, ◌⊎◌,
}
use native.Mathlib.Nat.{mod-lt, mod-eq_of_lt, div-add-mod'}
use shortner.Db.Rows.{LinkRow}
use shortner.Db.Exec.{Tables, Answer, done, failed}
use shortner.Db.Links.{newer, insert_newest, newest_first, select_page}
use shortner.Http.Resolve.{page_offset, page_count}

abbrev answered : Answer (List LinkRow) → List LinkRow
answered (done rows) = rows
answered (failed e) = []

-- The rows of the pages 1 to `n`, one after the other.
pub pages : ℕ → ℕ → ℕ → Tables → List LinkRow
pages zero limit now t = []
pages (suc n) limit now t =
    pages n limit now t ++ answered (select_page limit (page_offset (suc n) limit) now t).0

module _ {A : Type 0} where
  take-length : (n : ℕ) (xs : List A) → length xs ≤ n → take n xs ≡ xs
  take-length zero [] h = refl
  take-length zero (x ∷ xs) h = absurd (omega arith)
  take-length (suc n) [] h = refl
  take-length (suc n) (x ∷ xs) h = ap (λ ys. x ∷ ys) (take-length n xs (omega arith))

wrapped_product : (n limit : ℕ) → n * limit < 2 ^ 63 → ((suc n - 1) * limit) % 2 ^ 64 ≡ n * limit
wrapped_product n limit h =
    let same : suc n - 1 ≡ n = omega arith in
    let small : n * limit < 2 ^ 64 = omega (arith, h) in rw same (mod-eq_of_lt small)

length-insert_newest :
    (a : LinkRow) (ls : List LinkRow) → length (insert_newest a ls) ≡ suc (length ls)
unfolding insert_newest
length-insert_newest a [] = refl
length-insert_newest a (b ∷ ls) = ground (arith, length-insert_newest a ls)

length-newest_first : (ls : List LinkRow) → length (newest_first ls) ≡ length ls
unfolding newest_first
length-newest_first [] = refl
length-newest_first (a ∷ ls) =
    length-insert_newest a (newest_first ls) ∙ ap suc (length-newest_first ls)

exact_offset : (n limit : ℕ) → n * limit < 2 ^ 63 → page_offset (suc n) limit ≡ n * limit
unfolding page_offset
exact_offset n limit h =
    let same : ((suc n - 1) * limit) % 2 ^ 64 ≡ n * limit = wrapped_product n limit h in
    let below : ltb (n * limit) (2 ^ 63) ≡ true = lt→ltb _ _ h in rw (same, below)

one_more : (n limit : ℕ) → n * limit + limit ≡ suc n * limit
one_more n limit = omega arith

pages-take :
    (n limit now : ℕ) (t : Tables)
    → n * limit < 2 ^ 63
    → pages n limit now t ≡ take (n * limit) (newest_first t.links)
unfolding pages select_page
pages-take zero limit now t h =
    let none_yet : 0 ≡ 0 * limit = omega arith in ap (λ k. take k (newest_first t.links)) none_yet
pages-take (suc n) limit now t h =
    let rows = newest_first t.links in
    let next : n * limit + limit ≡ suc n * limit = one_more n limit in
    let fits : n * limit < 2 ^ 63 = omega (arith, next, h) in
    rw (pages-take n limit now t fits, exact_offset n limit fits)
      (take-add (n * limit) limit rows ∙ ap (λ k. take k rows) next)

enough_pages : (total limit : ℕ) → 0 < limit → total ≤ page_count total limit * limit
unfolding page_count
enough_pages total limit h =
    let q = (total + limit - 1) / limit in
    let split = div-add-mod' (total + limit - 1) limit in
    let small = mod-lt (total + limit - 1) {m = limit} h in
    elim (Bool-cases (ltb q 1)) [
      | inl single ↦
          let zero_pages : q ≡ 0 = ground arith in
          let none_left : q * limit ≡ 0 = rw zero_pages (omega arith) in
          rw single (omega (arith, split, small, none_left))
      | inr several ↦ rw several (omega (arith, split, small))
    ]

-- No row comes before one that was created later, nor, of those created at one instant, before one
-- with a higher id.
abbrev pub Before : LinkRow → LinkRow → Type 0
Before a b = (b.created_at < a.created_at) ⊎ ((b.created_at ≡ a.created_at) × (b.id ≤ a.id))

abbrev pub NewestFirst : List LinkRow → Type 0
NewestFirst [] = Unit
NewestFirst (a ∷ ls) = All (Before a) ls × NewestFirst ls

newer-Before : (a b : LinkRow) → newer a b ≡ true → Before a b
newer-Before a b h = ground (arith, h)

not_newer-Before : (a b : LinkRow) → newer a b ≡ false → Before b a
not_newer-Before a b h = ground (arith, h)

Before-trans : (a b c : LinkRow) → Before a b → Before b c → Before a c
Before-trans a b c h k = ground (arith, h, k)

All-insert_newest :
    (a x : LinkRow) (ls : List LinkRow)
    → Before a x
    → All (Before a) ls
    → All (Before a) (insert_newest x ls)
unfolding insert_newest
All-insert_newest a x [] h all = (h, tt)
All-insert_newest a x (b ∷ ls) h (first, all) =
    if_intro (All (Before a)) (newer x b) (h, (first, all)) (first, All-insert_newest a x ls h all)

insert_newest-NewestFirst :
    (x : LinkRow) (ls : List LinkRow) → NewestFirst ls → NewestFirst (insert_newest x ls)
unfolding insert_newest
insert_newest-NewestFirst x [] h = (tt, tt)
insert_newest-NewestFirst x (b ∷ ls) (all, rest) = elim (Bool-cases (newer x b)) [
  | inl first ↦
      let ahead = newer-Before x b first in
      rw first
        ((ahead, All-map (Before b) (Before x) ls (λ c. Before-trans x b c ahead) all), (all, rest))
  | inr later ↦ rw later (
    All-insert_newest b x ls (not_newer-Before x b later) all,
    insert_newest-NewestFirst x ls rest,
  )
]

newest_first-NewestFirst : (ls : List LinkRow) → NewestFirst (newest_first ls)
unfolding newest_first
newest_first-NewestFirst [] = tt
newest_first-NewestFirst (a ∷ ls) =
    insert_newest-NewestFirst a (newest_first ls) (newest_first-NewestFirst ls)

count_if-insert_newest :
    (q : LinkRow → Bool) (a : LinkRow) (ls : List LinkRow)
    → count_if q (insert_newest a ls) ≡ count_if q (a ∷ ls)
unfolding insert_newest
count_if-insert_newest q a [] = refl
count_if-insert_newest q a (b ∷ ls) = ground (arith, count_if-insert_newest q a ls)

count_if-newest_first :
    (q : LinkRow → Bool) (ls : List LinkRow) → count_if q (newest_first ls) ≡ count_if q ls
unfolding newest_first
count_if-newest_first q [] = refl
count_if-newest_first q (a ∷ ls) =
    let rest = count_if-newest_first q ls in
    let here = count_if-insert_newest q a (newest_first ls) in ground (arith, here, rest)

all_pages :
    (limit now : ℕ) (t : Tables)
    → 0 < limit
    → page_count (length t.links) limit * limit < 2 ^ 63
    → pages (page_count (length t.links) limit) limit now t ≡ newest_first t.links
all_pages limit now t h fits =
    pages-take (page_count (length t.links) limit) limit now t fits
    ∙ take-length _ (newest_first t.links)
        (rw (length-newest_first t.links) (enough_pages (length t.links) limit h))

-- Where the product of the number of pages and the limit is an int64, and the limit is positive: the
-- pages from the first to the last hold together, one after the other, the links of the table, each as
-- often as the table does, and no link stands before one that was created later or, of those created
-- at one instant, before one with a higher id.
pub pages-NewestFirst :
    (limit now : ℕ) (t : Tables)
    → 0 < limit
    → page_count (length t.links) limit * limit < 2 ^ 63
    → ((q : LinkRow → Bool)
        → count_if q (pages (page_count (length t.links) limit) limit now t) ≡ count_if q t.links)
      × NewestFirst (pages (page_count (length t.links) limit) limit now t)
pages-NewestFirst limit now t h fits =
    rw (all_pages limit now t h fits)
      ((λ q. count_if-newest_first q t.links), newest_first-NewestFirst t.links)
