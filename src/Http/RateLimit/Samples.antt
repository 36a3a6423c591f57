-- ===== src/Http/RateLimit/Samples.antt =====
-- The rate limiter on a sample configuration.
use shortner.Shared
use shortner.Shared.{
  ℕ, ◌+◌, ◌*◌, ◌^◌, ◌≤◌, ◌<◌, ◌≡◌, refl, Bool, true, false, List, [], ◌∷◌, Bytes, codes, arith, All,
}
use shortner.Http.RateLimit.{
  Class, read, write, Config, Arrival, second, new_limiter, class_limit, span_of, allow,
}
use shortner.Http.RateLimit.Sweep.{answers, unswept_answers, InOrder, answers-unswept_answers}
use shortner.Http.RateLimit.Bound.{passed-answers}
use shortner.Http.RateLimit.Step.{passed}

abbrev two_a_minute : Config
two_a_minute = record {
  enabled = true;
  read_limit = record { requests = 2; window = 60 };
  write_limit = record { requests = 1; window = 60 };
  health_limit = record { requests = 9; window = 60 };
  global_burst = 20;
}

abbrev visitor : Bytes
visitor = codes "192.0.2.1"

abbrev at_second : ℕ → Class → Arrival
at_second s c = record { now = s * second; ip = visitor; kind = c }

abbrev sample_arrivals : List Arrival
sample_arrivals =
    at_second 100 read ∷ at_second 110 read ∷ at_second 120 read ∷ at_second 130 write ∷ []

sample_answers :
    answers two_a_minute sample_arrivals new_limiter
    ≡ (true, 0) ∷ (true, 0) ∷ (false, 40) ∷ (true, 0) ∷ []
unfolding answers allow Shared.eq_bytes span_of
sample_answers = refl

sample_order : InOrder (100 * second) sample_arrivals
sample_order = (omega arith, (omega arith, (omega arith, (omega arith, tt))))

sample_soon :
    All
      (λ (a : Arrival). a.now < 100 * second + (class_limit two_a_minute read).window * second)
      sample_arrivals
unfolding class_limit
sample_soon = (omega arith, (omega arith, (omega arith, (omega arith, tt))))

answers-unswept_answers_example :
    answers two_a_minute sample_arrivals new_limiter
    ≡ unswept_answers two_a_minute sample_arrivals new_limiter
answers-unswept_answers_example =
    answers-unswept_answers two_a_minute (100 * second) sample_arrivals new_limiter refl
      sample_order

sample_fits : (class_limit two_a_minute read).window * second < 2 ^ 63
unfolding class_limit
sample_fits = omega arith

passed-answers_example :
    passed read visitor sample_arrivals (answers two_a_minute sample_arrivals new_limiter)
    ≤ 2 * (class_limit two_a_minute read).requests
passed-answers_example =
    passed-answers two_a_minute read visitor (100 * second) sample_arrivals new_limiter refl
      sample_fits sample_order sample_soon
