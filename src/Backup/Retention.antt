-- ===== src/Backup/Retention.antt =====
-- src/backup/retention.go: which backups are kept and which are deleted.
--
-- Counts, sizes and limits are numbers, negative ones of the configuration being 0. Dates are instants;
-- the calendar of package time is a parameter.
pub mod Plan
pub mod Incremental
pub mod Samples
use shortner.Shared.{
  ℕ, zero, suc, ◌+◌, ◌-◌, ◌*◌, ◌/◌, Bool, true, false, not, ◌&&◌, ◌||◌, Option, none, some, List,
  [], ◌∷◌, ◌++◌, map, Bytes, ltb, leb, ◌==◌, if◌then◌else◌,
}
use mathlib.Core.List.{reverse}

pub data Kind : Type 0 where
  full manual daily hourly : Kind

unfoldable pub is_incremental : Kind → Bool
is_incremental daily = true
is_incremental hourly = true
is_incremental _ = false

pub data Tier : Type 0 where
  yearly monthly weekly daily_tier incremental expired : Tier

pub record File : Type 0 where
  pub name : Bytes
  pub size : ℕ
  pub kind : Kind
  pub date : ℕ

pub record Policy : Type 0 where
  pub max_backups : ℕ
  pub keep_weekly : ℕ
  pub keep_monthly : ℕ
  pub keep_yearly : ℕ
  pub max_total_bytes : ℕ

-- `Month`, `Day` and `Weekday` of an instant; January is 1 and Sunday is 0.
pub record Calendar : Type 0 where
  pub month : ℕ → ℕ
  pub day : ℕ → ℕ
  pub weekday : ℕ → ℕ

-- The order of strings.
unfoldable pub before_name : Bytes → Bytes → Bool
before_name [] [] = false
before_name [] (b ∷ bs) = true
before_name (a ∷ s) [] = false
before_name (a ∷ s) (b ∷ t) = ltb a b || (a == b && before_name s t)

abbrev pub older : File → File → Bool
older f g = ltb f.date g.date || (f.date == g.date && before_name f.name g.name)

-- An insertion before the first element that `less` puts after it.
module _ {A : Type 0} (less : A → A → Bool) where
  abbrev pub insert : A → List A → List A
  insert x [] = x ∷ []
  insert x (y ∷ ys) = let deeper = y ∷ insert x ys in if less x y then x ∷ y ∷ ys else deeper

  abbrev pub sort : List A → List A
  sort [] = []
  sort (x ∷ xs) = insert x (sort xs)

unfoldable pub ordered : List File → List File
unfolding before_name
ordered files = sort older files

-- A file with the tier that it was assigned, if any.
abbrev pub Assigned : Type 0
Assigned = File × Option Tier

abbrev pub initially : File → Assigned
initially f = (f, if is_incremental f.kind then some incremental else none)

-- The loop over one tier, newest first, with the slots that are left.
unfoldable pub fill_slots : Tier → (ℕ → Bool) → ℕ → List Assigned → List Assigned
fill_slots tier matches slots [] = []
fill_slots tier matches zero (a ∷ rest) = a ∷ rest
fill_slots tier matches (suc n) ((f, some t) ∷ rest) =
    (f, some t) ∷ fill_slots tier matches (suc n) rest
fill_slots tier matches (suc n) ((f, none) ∷ rest) =
    let taken = fill_slots tier matches n rest in
    let passed = fill_slots tier matches (suc n) rest in
    if matches f.date then (f, some tier) ∷ taken else (f, none) ∷ passed

-- The four tiers in turn.
unfoldable pub tiers : Calendar → Policy → List Assigned → List Assigned
unfolding fill_slots
tiers cal p files =
    let years = fill_slots yearly (λ t. cal.month t == 1 && cal.day t == 1) p.keep_yearly files in
    let months = fill_slots monthly (λ t. cal.day t == 1) p.keep_monthly years in
    let weeks = fill_slots weekly (λ t. cal.weekday t == 0) p.keep_weekly months in
    fill_slots daily_tier (λ t. true) p.max_backups weeks

-- The files that kept a tier, and those that did not.
abbrev pub split_expired : List Assigned → List (File × Tier) × List (File × Tier)
split_expired [] = ([], [])
split_expired ((f, none) ∷ rest) = ((split_expired rest).0, (f, expired) ∷ (split_expired rest).1)
split_expired ((f, some t) ∷ rest) = ((f, t) ∷ (split_expired rest).0, (split_expired rest).1)

abbrev pub total_of : List (File × Tier) → ℕ
total_of [] = 0
total_of ((f, t) ∷ fs) = f.size + total_of fs

abbrev pub is_last : List (File × Tier) → Bool
is_last [] = true
is_last _ = false

abbrev pub both :
    File × Tier
    → List (File × Tier) × List (File × Tier)
    → Bool
    → List (File × Tier) × List (File × Tier)
both f (kept, removed) true = (kept, f ∷ removed)
both f (kept, removed) false = (f ∷ kept, removed)

-- The loop of `applySizeCap`, oldest first.
unfoldable pub over_cap : ℕ → ℕ → List (File × Tier) → List (File × Tier) × List (File × Tier)
unfolding is_incremental
over_cap cap total [] = ([], [])
over_cap cap total ((f, t) ∷ rest) =
    let removes = ltb cap total && not (is_incremental f.kind) && not (is_last rest) in
    let smaller = over_cap cap (total - f.size) rest in
    let same = over_cap cap total rest in both (f, t) (if removes then smaller else same) removes

unfoldable pub apply_size_cap : ℕ → List (File × Tier) → List (File × Tier) × List (File × Tier)
unfolding over_cap
apply_size_cap cap keep =
    if cap == 0
    then (keep, [])
    else if leb (total_of keep) cap
    then (keep, [])
    else over_cap cap (total_of keep) keep

unfoldable pub plan : Calendar → List File → Policy → List (File × Tier) × List (File × Tier)
unfolding ordered tiers apply_size_cap
plan cal files p =
    let assigned = reverse (tiers cal p (reverse (map initially (ordered files)))) in
    let (keep, remove) = split_expired assigned in
    let (kept, over) = apply_size_cap p.max_total_bytes keep in
    (kept, sort (λ a b. ltb a.0.date b.0.date) (remove ++ over))

unfoldable pub total_size : List File → ℕ
total_size [] = 0
total_size (f ∷ fs) = f.size + total_size fs

-- The newest so far.
unfoldable pub newest_from : Option File → List File → Option File
newest_from best [] = best
newest_from none (f ∷ fs) =
    let skipped = newest_from none fs in
    let taken = newest_from (some f) fs in if is_incremental f.kind then skipped else taken
newest_from (some g) (f ∷ fs) =
    let skipped = newest_from (some g) fs in
    let taken = newest_from (some f) fs in
    if is_incremental f.kind then skipped else if ltb g.date f.date then taken else skipped

unfoldable pub newest : List File → Option File
unfolding newest_from is_incremental
newest files = newest_from none files
