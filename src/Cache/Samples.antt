-- ===== src/Cache/Samples.antt =====
-- The cache on a sample sequence of operations.
use shortner.Shared
use shortner.Shared.{ℕ, ◌≡◌, refl, Option, none, some, List, [], ◌∷◌, Bytes, codes}
use shortner.Cache.{new_memory, cache_get, cache_set, get_or_set, sweep}
use shortner.Cache.Contract.{
  Op, getting, setting, loading, sweeping, nothing, perform, answers, promised_answers,
}
use shortner.Cache.Refine.{answers-promised_answers}

abbrev page : Bytes
page = codes "page"

abbrev sample_ops : List (ℕ × Op ℕ)
sample_ops =
    (1, setting page 7 10)
    ∷ (10, getting page)
    ∷ (1, sweeping)
    ∷ (0, getting page)
    ∷ (1, loading page 0 (some 8) 5)
    ∷ (90, getting page)
    ∷ []

sample_answers :
    answers 0 sample_ops new_memory ≡ none ∷ some 7 ∷ none ∷ none ∷ some 8 ∷ some 8 ∷ []
unfolding answers perform cache_get cache_set get_or_set sweep Shared.eq_bytes
sample_answers = refl

answers-promised_answers_example :
    answers 0 sample_ops new_memory ≡ promised_answers 0 sample_ops nothing
answers-promised_answers_example = answers-promised_answers 0 sample_ops
