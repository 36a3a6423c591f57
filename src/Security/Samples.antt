-- ===== src/Security/Samples.antt =====
-- The theorems of package security at sample bytes.
use shortner.Shared.{zero, suc, ◌/◌, ◌<◌, ◌≡◌, refl, true, [], ◌∷◌, Bytes, codes, arith, length}
use shortner.Security.Random.{ok, char_at, random_string}
use shortner.Security.Random.Success.{Succeeds, random_string-Succeeds}
use shortner.Security.Random.Uniform.{count_below, yields, Once, fill_uniform}
use shortner.Security.Slug.{generate_short_code, validate_slug_format, generate_short_code-valid}

abbrev sample_bytes : Bytes
sample_bytes =
    0 ∷ 1 ∷ 255 ∷ 2 ∷ 3 ∷ 250 ∷ 26 ∷ 9 ∷ 7 ∷ 8 ∷ 9 ∷ 10 ∷ 11 ∷ 12 ∷ 13 ∷ 14 ∷ 15 ∷ 16 ∷ 17 ∷ 18 ∷ []

generate_sample :
    generate_short_code sample_bytes
    ≡ ok (codes "ABCDaJ") (11 ∷ 12 ∷ 13 ∷ 14 ∷ 15 ∷ 16 ∷ 17 ∷ 18 ∷ [])
unfolding generate_short_code random_string
generate_sample = refl

generate_short_code-valid_example :
    (length (codes "ABCDaJ") ≡ 6) × (validate_slug_format (codes "ABCDaJ") ≡ true)
generate_short_code-valid_example =
    generate_short_code-valid sample_bytes (codes "ABCDaJ")
      (11 ∷ 12 ∷ 13 ∷ 14 ∷ 15 ∷ 16 ∷ 17 ∷ 18 ∷ []) generate_sample

random_string-Succeeds_example :
    Succeeds (codes "xyz") 4 (random_string (codes "xyz") 4 sample_bytes)
random_string-Succeeds_example =
    random_string-Succeeds (codes "xyz") 4 2 sample_bytes (omega arith) (omega arith) (omega arith)
      (omega arith)

y_appears_Once : Once (codes "xyz") 1
y_appears_Once zero h same = absurd (omega (arith, same))
y_appears_Once (suc zero) h same = refl
y_appears_Once (suc (suc zero)) h same = absurd (omega (arith, same))
y_appears_Once (suc (suc (suc i))) h same = absurd (omega arith)

fill_uniform_example :
    (count_below 256 (yields (codes "xyz") (char_at (codes "xyz") 1)) ≡ 256 / length (codes "xyz"))
    × (0 < 256 / length (codes "xyz"))
fill_uniform_example = fill_uniform (codes "xyz") 1 (omega arith) (omega arith) y_appears_Once
