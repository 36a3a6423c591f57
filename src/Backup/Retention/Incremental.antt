-- ===== src/Backup/Retention/Incremental.antt =====
-- `Plan` of src/backup/retention.go deletes no incremental backup.
use shortner.Shared.{
  ℕ, zero, suc, ◌-◌, ◌≡◌, refl, Bool, true, false, not, ◌&&◌, none, some, List, [], ◌∷◌, map, arith,
  ltb, leb, ◌==◌, if◌then◌else◌, All, All-append, if_intro,
}
use mathlib.Core.List.{reverse, reverse-cons}
use shortner.Backup.Retention.{
  is_incremental, Tier, File, Policy, Calendar, sort, insert, ordered, older, Assigned, initially,
  incremental, yearly, monthly, weekly, daily_tier, fill_slots, tiers, split_expired, is_last, both,
  over_cap, apply_size_cap, total_of, plan,
}

module _ {A : Type 0} (P : A → Type 0) where
  All-insert :
      (less : A → A → Bool) (x : A) (ys : List A) → P x → All P ys → All P (insert less x ys)
  All-insert less x [] h hs = (h, hs)
  All-insert less x (y ∷ ys) h (k, hs) =
      if_intro (All P) (less x y) (h, (k, hs)) (k, All-insert less x ys h hs)

  All-sort : (less : A → A → Bool) (xs : List A) → All P xs → All P (sort less xs)
  All-sort less [] h = h
  All-sort less (x ∷ xs) (h, hs) = All-insert less x (sort less xs) h (All-sort less xs hs)

  All-reverse : (xs : List A) → All P xs → All P (reverse xs)
  All-reverse [] h = h
  All-reverse (x ∷ xs) (h, hs) =
      rw (reverse-cons x xs) (All-append P (reverse xs) (x ∷ []) (All-reverse xs hs) (h, tt))

-- A file without a tier is no incremental.
abbrev Marked : Assigned → Type 0
Marked (f, none) = is_incremental f.kind ≡ false
Marked (f, some t) = Unit

-- A full or manual backup.
abbrev pub Whole : File × Tier → Type 0
Whole a = is_incremental a.0.kind ≡ false

initially-Marked : (fs : List File) → All Marked (map initially fs)
initially-Marked [] = tt
initially-Marked (f ∷ fs) = (mark (is_incremental f.kind) refl, initially-Marked fs)
  where
    mark : (b : Bool) → is_incremental f.kind ≡ b → Marked (f, if b then some incremental else none)
    mark true h = tt
    mark false h = h

fill_slots-Marked :
    (tier : Tier) (matches : ℕ → Bool) (slots : ℕ) (xs : List Assigned)
    → All Marked xs
    → All Marked (fill_slots tier matches slots xs)
unfolding fill_slots
fill_slots-Marked tier matches slots [] h = h
fill_slots-Marked tier matches zero (a ∷ rest) h = h
fill_slots-Marked tier matches (suc n) ((f, some t) ∷ rest) (h, hs) =
    (tt, fill_slots-Marked tier matches (suc n) rest hs)
fill_slots-Marked tier matches (suc n) ((f, none) ∷ rest) (h, hs) =
    if_intro (All Marked) (matches f.date) (tt, fill_slots-Marked tier matches n rest hs)
      (h, fill_slots-Marked tier matches (suc n) rest hs)

tiers-Marked :
    (cal : Calendar) (policy : Policy) (xs : List Assigned)
    → All Marked xs
    → All Marked (tiers cal policy xs)
unfolding tiers
tiers-Marked cal policy xs h =
    fill_slots-Marked daily_tier (λ t. true) policy.max_backups _
      (fill_slots-Marked weekly (λ t. cal.weekday t == 0) policy.keep_weekly _
        (fill_slots-Marked monthly (λ t. cal.day t == 1) policy.keep_monthly _
          (fill_slots-Marked yearly (λ t. cal.month t == 1 && cal.day t == 1) policy.keep_yearly xs
            h)))

split_expired-Whole : (xs : List Assigned) → All Marked xs → All Whole (split_expired xs).1
split_expired-Whole [] h = tt
split_expired-Whole ((f, none) ∷ rest) (h, hs) = (h, split_expired-Whole rest hs)
split_expired-Whole ((f, some t) ∷ rest) (h, hs) = split_expired-Whole rest hs

both-Whole :
    (f : File × Tier) (rest : List (File × Tier) × List (File × Tier)) (b : Bool)
    → (b ≡ true → Whole f)
    → All Whole rest.1
    → All Whole (both f rest b).1
both-Whole f (kept, removed) true h hs = (h refl, hs)
both-Whole f (kept, removed) false h hs = hs

over_cap-Whole : (most total : ℕ) (xs : List (File × Tier)) → All Whole (over_cap most total xs).1
unfolding over_cap
over_cap-Whole most total [] = tt
over_cap-Whole most total ((f, t) ∷ rest) =
    let removes = ltb most total && not (is_incremental f.kind) && not (is_last rest) in
    both-Whole (f, t) _ removes (λ h. ground (arith, h))
      (if_intro (λ (q : List (File × Tier) × List (File × Tier)). All Whole q.1) removes
        (over_cap-Whole most (total - f.size) rest) (over_cap-Whole most total rest))

apply_size_cap-Whole : (most : ℕ) (xs : List (File × Tier)) → All Whole (apply_size_cap most xs).1
unfolding apply_size_cap
apply_size_cap-Whole most xs =
    if_intro (λ (q : List (File × Tier) × List (File × Tier)). All Whole q.1) (most == 0) tt
      (if_intro (λ (q : List (File × Tier) × List (File × Tier)). All Whole q.1)
        (leb (total_of xs) most) tt (over_cap-Whole most (total_of xs) xs))

-- No incremental backup is deleted, whatever the slots and the size cap.
pub plan-Whole :
    (cal : Calendar) (files : List File) (policy : Policy) → All Whole (plan cal files policy).1
unfolding plan ordered
plan-Whole cal files policy =
    let sorted = sort older files in
    let start = reverse (map initially sorted) in
    let chosen = tiers cal policy start in
    let parts = split_expired (reverse chosen) in
    All-sort Whole (λ a b. ltb a.0.date b.0.date) _
      (All-append Whole parts.1 (apply_size_cap policy.max_total_bytes parts.0).1
        (split_expired-Whole (reverse chosen) (
          All-reverse Marked chosen (
            tiers-Marked cal policy start
              (All-reverse Marked (map initially sorted) (initially-Marked sorted)))))
        (apply_size_cap-Whole policy.max_total_bytes parts.0))
