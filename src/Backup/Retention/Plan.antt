-- ===== src/Backup/Retention/Plan.antt =====
-- `Plan` of src/backup/retention.go loses no file, invents none, and deletes no incremental.
use shortner.Shared.{
  ℕ, zero, suc, ◌+◌, ◌-◌, ◌≡◌, refl, ap, ◌∙◌, Bool, true, false, not, ◌&&◌, none, some, List, [],
  ◌∷◌, ◌++◌, map, arith, ltb, leb, ◌==◌, if◌then◌else◌, count_if, count_if-append, if_intro,
}
use mathlib.Core.List.{reverse, reverse-cons}
use shortner.Backup.Retention.{
  is_incremental, Tier, File, Policy, Calendar, sort, insert, ordered, older, Assigned, initially,
  fill_slots, tiers, split_expired, is_last, both, over_cap, apply_size_cap, total_of, plan,
}

module _ {A : Type 0} (q : A → Bool) where
  tick : Bool → ℕ
  tick b = if b then 1 else 0

  count_if-insert :
      (less : A → A → Bool) (x : A) (ys : List A)
      → count_if q (insert less x ys) ≡ count_if q (x ∷ ys)
  count_if-insert less x [] = refl
  count_if-insert less x (y ∷ ys) = ground (arith, count_if-insert less x ys)

  count_if-sort : (less : A → A → Bool) (xs : List A) → count_if q (sort less xs) ≡ count_if q xs
  count_if-sort less [] = refl
  count_if-sort less (x ∷ xs) =
      ground (arith, count_if-sort less xs, count_if-insert less x (sort less xs))

  count_if-reverse : (xs : List A) → count_if q (reverse xs) ≡ count_if q xs
  count_if-reverse [] = refl
  count_if-reverse (x ∷ xs) =
      rw (reverse-cons x xs, count_if-append q (reverse xs) (x ∷ []), count_if-reverse xs)
        (ground arith)

module _ (p : File → Bool) where
  abbrev pub of_file : {B : Type 0} → File × B → Bool
  of_file (f, b) = p f

  count_if-initially : (fs : List File) → count_if of_file (map initially fs) ≡ count_if p fs
  count_if-initially [] = refl
  count_if-initially (f ∷ fs) = ground (arith, count_if-initially fs)

  count_if-fill_slots :
      (tier : Tier) (matches : ℕ → Bool) (slots : ℕ) (xs : List Assigned)
      → count_if of_file (fill_slots tier matches slots xs) ≡ count_if of_file xs
  unfolding fill_slots
  count_if-fill_slots tier matches slots [] = refl
  count_if-fill_slots tier matches zero (a ∷ rest) = refl
  count_if-fill_slots tier matches (suc n) ((f, some t) ∷ rest) =
      ground (arith, count_if-fill_slots tier matches (suc n) rest)
  count_if-fill_slots tier matches (suc n) ((f, none) ∷ rest) = ground (
    arith,
    count_if-fill_slots tier matches (suc n) rest,
    count_if-fill_slots tier matches n rest,
  )

  count_if-tiers :
      (cal : Calendar) (policy : Policy) (xs : List Assigned)
      → count_if of_file (tiers cal policy xs) ≡ count_if of_file xs
  unfolding tiers
  count_if-tiers cal policy xs = simp count_if-fill_slots

  abbrev count_both : List (File × Tier) × List (File × Tier) → ℕ
  count_both q = count_if of_file q.0 + count_if of_file q.1

  count_both-split_expired :
      (xs : List Assigned) → count_both (split_expired xs) ≡ count_if of_file xs
  count_both-split_expired [] = refl
  count_both-split_expired ((f, none) ∷ rest) = ground (arith, count_both-split_expired rest)
  count_both-split_expired ((f, some t) ∷ rest) = ground (arith, count_both-split_expired rest)

  count_both-both :
      (f : File × Tier) (rest : List (File × Tier) × List (File × Tier)) (b : Bool)
      → count_both (both f rest b) ≡ (if of_file f then 1 else 0) + count_both rest
  count_both-both f (kept, removed) true = ground arith
  count_both-both f (kept, removed) false = ground arith

  count_both-over_cap :
      (cap total : ℕ) (xs : List (File × Tier))
      → count_both (over_cap cap total xs) ≡ count_if of_file xs
  unfolding over_cap
  count_both-over_cap cap total [] = refl
  count_both-over_cap cap total ((f, t) ∷ rest) =
      let removes = ltb cap total && not (is_incremental f.kind) && not (is_last rest) in
      count_both-both (f, t) _ removes
      ∙ ap (λ n. (if p f then 1 else 0) + n)
          (if_intro (λ q. count_both q ≡ count_if of_file rest) removes
            (count_both-over_cap cap (total - f.size) rest) (count_both-over_cap cap total rest))
      ∙ ground arith

  count_both-apply_size_cap :
      (cap : ℕ) (xs : List (File × Tier)) → count_both (apply_size_cap cap xs) ≡ count_if of_file xs
  unfolding apply_size_cap
  count_both-apply_size_cap cap xs =
      if_intro (λ q. count_both q ≡ count_if of_file xs) (cap == 0) (omega arith)
        (if_intro (λ q. count_both q ≡ count_if of_file xs) (leb (total_of xs) cap) (omega arith)
          (count_both-over_cap cap (total_of xs) xs))

  -- Every file is kept or deleted, once: whatever is asked of files, as many of the kept and the
  -- deleted ones have it as of those that the plan was made for.
  pub count_if-plan :
      (cal : Calendar) (files : List File) (policy : Policy)
      → count_if of_file (plan cal files policy).0 + count_if of_file (plan cal files policy).1
        ≡ count_if p files
  unfolding plan ordered
  count_if-plan cal files policy =
      let sorted = sort older files in
      let chosen = tiers cal policy (reverse (map initially sorted)) in
      let parts = split_expired (reverse chosen) in
      let capped = apply_size_cap policy.max_total_bytes parts.0 in
      let dated : File × Tier → File × Tier → Bool = λ a b. ltb a.0.date b.0.date in
      omega (
        arith,
        count_if-sort of_file dated (parts.1 ++ capped.1),
        count_if-append of_file parts.1 capped.1,
        count_both-apply_size_cap policy.max_total_bytes parts.0,
        count_both-split_expired (reverse chosen),
        count_if-reverse of_file chosen,
        count_if-tiers cal policy (reverse (map initially sorted)),
        count_if-reverse of_file (map initially sorted),
        count_if-initially sorted,
        count_if-sort p older files,
      )
