-- ===== src/Db/Consistent/Lists.antt =====
-- How the parts of the invariant see the list operations of the statements.
use shortner.Shared.{
  ℕ, ◌+◌, ◌≤◌, ◌<◌, ◌≡◌, refl, Bool, true, false, not, ◌||◌, List, [], ◌∷◌, ◌++◌, arith, ◌==◌,
  if◌then◌else◌, if_intro, Bool-cases, inl, inr, All, count_if, find_if, keep_if, update_if,
  eq_bytes_iff, Bytes,
}
use shortner.Db.Rows.{LinkRow, ClickRow}
use shortner.Db.Links.{has_id, has_code, of_link, is_some}
use shortner.Db.Consistent.{Distinct, ClickFits}

module _ {A : Type 0} (p : A → Bool) where
  pub found-concat :
      (xs : List A) (x : A) → is_some (find_if p (xs ++ x ∷ [])) ≡ (is_some (find_if p xs) || p x)
  found-concat [] x = ground arith
  found-concat (y ∷ xs) x = ground (arith, found-concat xs x)

  pub count-concat :
      (xs : List A) (x : A) → count_if p (xs ++ x ∷ []) ≡ count_if p xs + (if p x then 1 else 0)
  count-concat [] x = ground arith
  count-concat (y ∷ xs) x = ground (arith, count-concat xs x)

pub All-concat {ℓ κ} :
    {A : Type ℓ} (P : A → Type κ) (xs : List A) (x : A) → All P xs → P x → All P (xs ++ x ∷ [])
All-concat P [] x h hx = (hx, tt)
All-concat P (y ∷ xs) x h hx = (h.0, All-concat P xs x h.1 hx)

pub found-le :
    (id last : ℕ) (ls : List LinkRow)
    → All (λ (l : LinkRow). l.id ≤ last) ls
    → is_some (find_if (has_id id) ls) ≡ true
    → id ≤ last
found-le id last [] h e = absurd (cc)
found-le id last (l ∷ ls) h e = ground (arith, found-le id last ls h.1)

-- No click belongs to an id above those of the links.
pub count-fresh :
    (id : ℕ) (last_click : ℕ) (ls : List LinkRow) (cs : List ClickRow) (last : ℕ)
    → All (λ (l : LinkRow). l.id ≤ last) ls
    → last < id
    → All (ClickFits last_click ls) cs
    → count_if (of_link id) cs ≡ 0
count-fresh id k ls [] last h lt fits = refl
count-fresh id k ls (c ∷ cs) last h lt fits =
    ground (arith, count-fresh id k ls cs last h lt fits.1, found-le c.link_id last ls h fits.0.1)

pub Distinct-concat :
    (ls : List LinkRow) (l : LinkRow)
    → Distinct ls
    → is_some (find_if (has_code l.short_code) ls) ≡ false
    → Distinct (ls ++ l ∷ [])
Distinct-concat [] l h e = (refl, tt)
Distinct-concat (x ∷ ls) l h e = (
  rw (found-concat (has_code x.short_code) ls l) (
      ground (
        arith,
        h.0,
        eq_bytes_iff x.short_code l.short_code,
        eq_bytes_iff l.short_code x.short_code,
      )),
  Distinct-concat ls l h.1 (ground arith),
)

-- An update of the rows of one id that keeps ids and codes.
module _ (id : ℕ) (f : LinkRow → LinkRow) (same_id : (l : LinkRow) → (f l).id ≡ l.id)
    (same_code : (l : LinkRow) → (f l).short_code ≡ l.short_code) where
  pub found_id-update :
      (j : ℕ) (ls : List LinkRow)
      → is_some (find_if (has_id j) (update_if (has_id id) f ls)) ≡ is_some (find_if (has_id j) ls)
  found_id-update j [] = refl
  found_id-update j (l ∷ ls) = ground (arith, same_id l, found_id-update j ls)

  pub found_code-update :
      (code : Bytes) (ls : List LinkRow)
      → is_some (find_if (has_code code) (update_if (has_id id) f ls))
        ≡ is_some (find_if (has_code code) ls)
  found_code-update code [] = refl
  found_code-update code (l ∷ ls) = ground (arith, same_code l, found_code-update code ls)

  pub Distinct-update : (ls : List LinkRow) → Distinct ls → Distinct (update_if (has_id id) f ls)
  Distinct-update [] h = tt
  Distinct-update (l ∷ ls) h =
      (rw found_code-update (ground (arith, same_code l, h.0)), Distinct-update ls h.1)

module _ (p : LinkRow → Bool) where
  absent-keep :
      (q : LinkRow → Bool) (ls : List LinkRow)
      → is_some (find_if q ls) ≡ false
      → is_some (find_if q (keep_if p ls)) ≡ false
  absent-keep q [] h = refl
  absent-keep q (l ∷ ls) h = ground (arith, absent-keep q ls)

  pub Distinct-keep : (ls : List LinkRow) → Distinct ls → Distinct (keep_if p ls)
  Distinct-keep [] h = tt
  Distinct-keep (l ∷ ls) h =
      if_intro Distinct (p l) (absent-keep (has_code l.short_code) ls h.0, Distinct-keep ls h.1)
        (Distinct-keep ls h.1)

-- Where the rows of `id` are deleted, those of other ids are still found.
pub found-other :
    (id j : ℕ) (ls : List LinkRow)
    → (j == id) ≡ false
    → is_some (find_if (has_id j) (keep_if (λ l. not (has_id id l)) ls))
      ≡ is_some (find_if (has_id j) ls)
found-other id j [] h = refl
found-other id j (l ∷ ls) h = ground (arith, found-other id j ls h)

-- The clicks of `id` are counted out, and no others.
pub count-other :
    (id j : ℕ) (cs : List ClickRow)
    → (j == id) ≡ false
    → count_if (of_link j) (keep_if (λ c. not (of_link id c)) cs) ≡ count_if (of_link j) cs
count-other id j [] h = refl
count-other id j (c ∷ cs) h = ground (arith, count-other id j cs h)

pub none_left :
    (id : ℕ) (cs : List ClickRow)
    → All (λ (c : ClickRow). of_link id c ≡ false) (keep_if (λ c. not (of_link id c)) cs)
none_left id [] = tt
none_left id (c ∷ cs) = elim (Bool-cases (of_link id c)) [
  | inl mine ↦ rw mine (none_left id cs)
  | inr other ↦ rw other (other, none_left id cs)
]

-- What holds of the rows that pass a test is all that is asked of those that are kept.
pub All-kept {ℓ κ} :
    {A : Type ℓ} (P : A → Type κ) (p : A → Bool) (xs : List A)
    → All (λ x. p x ≡ true → P x) xs
    → All P (keep_if p xs)
All-kept P p [] h = tt
All-kept P p (x ∷ xs) h = elim (Bool-cases (p x)) [
  | inl keep ↦ rw keep (h.0 keep, All-kept P p xs h.1)
  | inr drop ↦ rw drop (All-kept P p xs h.1)
]

pub All-updated {ℓ κ μ} :
    {A : Type ℓ} (P : A → Type κ) (Q : A → Type μ) (p : A → Bool) (f : A → A) (xs : List A)
    → ((x : A) → P x → Q (if p x then f x else x))
    → All P xs
    → All Q (update_if p f xs)
All-updated P Q p f [] k h = tt
All-updated P Q p f (x ∷ xs) k h = (k x h.0, All-updated P Q p f xs k h.1)

pub All-zip {ℓ κ μ} :
    {A : Type ℓ} (P : A → Type κ) (Q : A → Type μ) (xs : List A)
    → All P xs
    → All Q xs
    → All (λ x. P x × Q x) xs
All-zip P Q [] h k = tt
All-zip P Q (x ∷ xs) h k = ((h.0, k.0), All-zip P Q xs h.1 k.1)
