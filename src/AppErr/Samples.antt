-- ===== src/AppErr/Samples.antt =====
-- Retries of sample functions.
use shortner.Shared.{ℕ, ◌<◌, ◌≡◌, refl, true, Option, none, some, arith, ltb, if◌then◌else◌}
use shortner.AppErr.Retry.{
  GoError, deadline_exceeded, app_error, with_retry, is_retryable, with_retry_succeeds,
  with_retry-Final, Final,
}

-- Two calls fail with a status 503, and the third succeeds.
abbrev third_time : ℕ → Option GoError
third_time i = if ltb i 2 then some (app_error 503) else none

abbrev undisturbed : ℕ → ℕ → Option GoError
undisturbed attempt wait = none

third_time_retryable : (i : ℕ) → i < 2 → is_retryable (third_time i) ≡ true
unfolding is_retryable
third_time_retryable i h = let early : ltb i 2 ≡ true = ground arith in rw early refl

with_retry_succeeds_example : with_retry third_time undisturbed ≡ (none, 3)
with_retry_succeeds_example =
    with_retry_succeeds third_time undisturbed 2 (omega arith) third_time_retryable (λ i d h. refl)
      refl

abbrev always_late : ℕ → Option GoError
always_late i = some deadline_exceeded

with_retry-Final_example : Final always_late undisturbed deadline_exceeded 5
unfolding with_retry
with_retry-Final_example = with_retry-Final always_late undisturbed deadline_exceeded 5 refl
