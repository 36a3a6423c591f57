-- ===== src/Backup/Retention/Samples.antt =====
-- The retention plan on sample backups; the days are 0 to 6 of a week, and 0 is a Sunday.
use shortner.Shared.{ℕ, ◌+◌, ◌%◌, ◌≡◌, refl, Bool, List, [], ◌∷◌, codes, count_if, All, map, ltb}
use shortner.Backup.Retention.{
  Kind, full, manual, daily, Tier, daily_tier, incremental, File, Policy, Calendar, plan,
}
use shortner.Backup.Retention.Plan.{of_file, count_if-plan}
use shortner.Backup.Retention.Incremental.{Whole, plan-Whole}

abbrev sample_calendar : Calendar
sample_calendar = record { month = λ t. 3; day = λ t. t + 2; weekday = λ t. t % 7 }

abbrev backup : Kind → ℕ → File
backup k t = record { name = codes "b"; size = 10; kind = k; date = t }

abbrev sample_files : List File
sample_files = backup full 3 ∷ backup full 0 ∷ backup daily 1 ∷ backup manual 2 ∷ backup full 4 ∷ []

abbrev sample_policy : Policy
sample_policy = record {
  max_backups = 2;
  keep_weekly = 1;
  keep_monthly = 0;
  keep_yearly = 0;
  max_total_bytes = 35;
}

abbrev date_and_tier : File × Tier → ℕ × Tier
date_and_tier (f, t) = (f.date, t)

-- The Sunday's backup keeps the weekly slot, and goes for the size cap.
sample_plan :
    map date_and_tier (plan sample_calendar sample_files sample_policy).0
    ≡ (1, incremental) ∷ (3, daily_tier) ∷ (4, daily_tier) ∷ []
unfolding plan
sample_plan = refl

abbrev is_early : File → Bool
is_early f = ltb f.date 3

count_if-plan_example :
    count_if (of_file is_early) (plan sample_calendar sample_files sample_policy).0
      + count_if (of_file is_early) (plan sample_calendar sample_files sample_policy).1
    ≡ count_if is_early sample_files
count_if-plan_example = count_if-plan is_early sample_calendar sample_files sample_policy

plan-Whole_example : All Whole (plan sample_calendar sample_files sample_policy).1
plan-Whole_example = plan-Whole sample_calendar sample_files sample_policy
