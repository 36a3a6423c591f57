-- ===== src/Config/Sizes.antt =====
-- `ParseSize` of src/config/limits.go on the sizes that a number and a unit write.
use mathlib.Core.List.{reverse, reverse-append}
use shortner.Shared.{
  ℕ, suc, ◌*◌, ◌^◌, ◌≤◌, ◌<◌, ◌≡◌, refl, ap, ◌∙◌, Bool, true, false, some, List, [], ◌∷◌, ◌++◌, map,
  Bytes, codes, arith, take, drop, eq_bytes, get_elem?, All-get_elem?, All, All-append, has_suffix,
  has_prefix, to_upper, trim_space, is_space, format_int, ℤ, pos, wrap64, parse_int,
  format_int-IsDigit, decimal-format_int, format_int_nonempty, IsInk, trim_space_id, take-append,
  IsDigit-IsInk, to_upper_digits, has_prefix_digits, reverse-IsDigit, parse_int_digits,
}
use shortner.Config.Limits.{SizeUnit, size_units, scaled, in_units, parse_size, without_suffix}

parse_format_int : (n : ℕ) → n < 2 ^ 63 → parse_int (format_int n) ≡ some (pos n)
parse_format_int n small =
    parse_int_digits (format_int n) n (format_int-IsDigit n) (format_int_nonempty n)
      (decimal-format_int n) small

nonempty_append : (a b : Bytes) → eq_bytes a [] ≡ false → eq_bytes (a ++ b) [] ≡ false
unfolding eq_bytes
nonempty_append [] b h = absurd (ground (arith, h))
nonempty_append (c ∷ a) b h = h

wrap64_small : (x : ℕ) → x < 2 ^ 63 → wrap64 x ≡ pos x
wrap64_small x small = ground arith

module _ (n : ℕ) where
  abbrev tail_digits : Bytes
  tail_digits = reverse (format_int n)

  ends_in_digit : (c : ℕ) (p : Bytes) → 57 < c → has_prefix tail_digits (c ∷ p) ≡ false
  ends_in_digit c p letter =
      has_prefix_digits tail_digits c p (reverse-IsDigit (format_int n) (format_int-IsDigit n))
        letter

  -- The text before a unit, as the code reads it.
  amount :
      (suffix : Bytes) (mult : ℕ)
      → 1 ≤ mult
      → n * mult < 2 ^ 63
      → scaled mult (parse_int (trim_space (without_suffix (format_int n ++ suffix) suffix)))
        ≡ some (pos (n * mult))
  amount suffix mult unit small =
      let small_n : n < 2 ^ 63 = grind arith in
      rw
        (
          take-append (format_int n) suffix,
          trim_space_id (format_int n) (IsDigit-IsInk (format_int n) (format_int-IsDigit n)),
          parse_format_int n small_n,
        )
        (ap (λ (z : ℤ). some z) (wrap64_small (n * mult) small))

  -- The test of a unit at the end of the number with a suffix.
  abbrev ends : Bytes → SizeUnit → Bool
  ends suffix u = has_prefix (reverse suffix ++ tail_digits) (reverse u.suffix)

  ends_lem :
      (suffix : Bytes) (u : SizeUnit) → has_suffix (format_int n ++ suffix) u.suffix ≡ ends suffix u
  ends_lem suffix u =
      ap (λ (r : Bytes). has_prefix r (reverse u.suffix)) (reverse-append (format_int n) suffix)

  in_units-append :
      (suffix trimmed : Bytes) (us vs : List SizeUnit)
      → All (λ u. ends suffix u ≡ false) us
      → in_units (us ++ vs) trimmed (format_int n ++ suffix)
        ≡ in_units vs trimmed (format_int n ++ suffix)
  in_units-append suffix trimmed [] vs h = refl
  in_units-append suffix trimmed (u ∷ us) vs h =
      rw (ends_lem suffix u ∙ h.0) (in_units-append suffix trimmed us vs h.1)

  in_units_here :
      (trimmed : Bytes) (u : SizeUnit) (us vs : List SizeUnit)
      → All (λ v. ends u.suffix v ≡ false) us
      → ends u.suffix u ≡ true
      → 1 ≤ u.mult
      → n * u.mult < 2 ^ 63
      → in_units (us ++ u ∷ vs) trimmed (format_int n ++ u.suffix) ≡ some (pos (n * u.mult))
  in_units_here trimmed u us vs others here unit small =
      in_units-append u.suffix trimmed us (u ∷ vs) others
      ∙ rw (ends_lem u.suffix u ∙ here) (amount u.suffix u.mult unit small)

  size_of :
      (default : ℤ) (u : SizeUnit) (us vs : List SizeUnit)
      → size_units ≡ us ++ u ∷ vs
      → All (λ v. ends u.suffix v ≡ false) us
      → ends u.suffix u ≡ true
      → All IsInk u.suffix
      → map to_upper u.suffix ≡ u.suffix
      → 1 ≤ u.mult
      → n * u.mult < 2 ^ 63
      → parse_size (format_int n ++ u.suffix) default ≡ (pos (n * u.mult), true)
  unfolding parse_size
  size_of default u us vs split others here ink capital unit small =
      let s = format_int n ++ u.suffix in
      let digits = format_int-IsDigit n in
      let trimmed : trim_space s ≡ s =
        trim_space_id s
          (All-append IsInk (format_int n) u.suffix (IsDigit-IsInk (format_int n) digits) ink) in
      let upper : map to_upper s ≡ s =
        to_upper_digits (format_int n) u.suffix digits
        ∙ ap (λ (r : Bytes). format_int n ++ r) capital in
      let read : in_units size_units s s ≡ some (pos (n * u.mult)) =
        ap (λ (l : List SizeUnit). in_units l s s) split
        ∙ in_units_here s u us vs others here unit small in
      rw (trimmed, upper, nonempty_append (format_int n) u.suffix (format_int_nonempty n), read)
        refl

  abbrev Written : ℤ → SizeUnit → Type 0
  Written default u =
      n * u.mult < 2 ^ 63 → parse_size (format_int n ++ u.suffix) default ≡ (pos (n * u.mult), true)

  unit_at :
      (default : ℤ) (k : ℕ) (u : SizeUnit)
      → size_units ≡ take k size_units ++ u ∷ drop (suc k) size_units
      → All (λ v. ends u.suffix v ≡ false) (take k size_units)
      → (ends u.suffix u ≡ true) × All IsInk u.suffix × (map to_upper u.suffix ≡ u.suffix)
      → 1 ≤ u.mult
      → Written default u
  unit_at default k u split others (here, ink, capital) unit =
      size_of default u (take k size_units) (drop (suc k) size_units) split others here ink capital
        unit

  size_units-Written : (default : ℤ) → All (Written default) size_units
  unfolding to_upper is_space has_prefix
  size_units-Written default = (
    unit_at default 0 (record { suffix = codes "TB"; mult = 2 ^ 40 }) refl tt
        (refl, (refl, (refl, tt)), refl) (omega arith),
    (
      unit_at default 1 (record { suffix = codes "GB"; mult = 2 ^ 30 }) refl (refl, tt)
          (refl, (refl, (refl, tt)), refl) (omega arith),
      (
        unit_at default 2 (record { suffix = codes "MB"; mult = 2 ^ 20 }) refl (refl, (refl, tt))
            (refl, (refl, (refl, tt)), refl) (omega arith),
        (
          unit_at default 3 (record { suffix = codes "KB"; mult = 2 ^ 10 }) refl
              (refl, (refl, (refl, tt))) (refl, (refl, (refl, tt)), refl) (omega arith),
          (
            unit_at default 4 (record { suffix = codes "T"; mult = 2 ^ 40 }) refl
                (refl, (refl, (refl, (refl, tt)))) (refl, (refl, tt), refl) (omega arith),
            (
              unit_at default 5 (record { suffix = codes "G"; mult = 2 ^ 30 }) refl
                  (refl, (refl, (refl, (refl, (refl, tt))))) (refl, (refl, tt), refl) (omega arith),
              (
                unit_at default 6 (record { suffix = codes "M"; mult = 2 ^ 20 }) refl
                    (refl, (refl, (refl, (refl, (refl, (refl, tt)))))) (refl, (refl, tt), refl)
                    (omega arith),
                (
                  unit_at default 7 (record { suffix = codes "K"; mult = 2 ^ 10 }) refl
                      (refl, (refl, (refl, (refl, (refl, (refl, (refl, tt)))))))
                      (refl, (refl, tt), refl) (omega arith),
                  (
                    unit_at default 8 (record { suffix = codes "B"; mult = 1 }) refl
                        (
                          ends_in_digit b'T' [] (omega arith),
                          (
                            ends_in_digit b'G' [] (omega arith),
                            (
                              ends_in_digit b'M' [] (omega arith),
                              (
                                ends_in_digit b'K' [] (omega arith),
                                (refl, (refl, (refl, (refl, tt)))),
                              ),
                            ),
                          ),
                        )
                        (refl, (refl, tt), refl) (omega arith),
                    tt,
                  ),
                ),
              ),
            ),
          ),
        ),
      ),
    ),
  )

-- `ParseSize` reads a decimal number with a unit of its table as their product, whatever the default,
-- as long as the product is below 2^63.
pub parse_size-format_int :
    (n i : ℕ) (u : SizeUnit) (default : ℤ)
    → get_elem? size_units i ≡ some u
    → n * u.mult < 2 ^ 63
    → parse_size (format_int n ++ u.suffix) default ≡ (pos (n * u.mult), true)
parse_size-format_int n i u default here small =
    All-get_elem? (Written n default) size_units i u (size_units-Written n default) here small
