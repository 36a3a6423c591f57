-- ===== src/Shared/Decimal.antt =====
-- `strconv.FormatInt(n, 10)` of a natural number, and that different numbers have different texts.
use Prim.Native.Nat.{ℕ, zero, suc, ◌+◌, ◌-◌, ◌*◌, ◌/◌, ◌%◌, ◌≤◌, ◌<◌}
use mathlib.Core.Path.{◌≡◌, refl, ap, sym, ◌∙◌}
use mathlib.Core.Logic.{inl, inr}
use mathlib.Core.Bool.{false, ◌&&◌}
use mathlib.Core.Option.{Option, none, some}
use mathlib.Core.List.{[], ◌∷◌, ◌++◌}
use native.Mathlib.Omega.{arith}
use shortner.Shared.Lists.{All, All-append}
use shortner.Shared.Tests.{ltb, leb, ltb→lt, if◌then◌else◌, Bool-cases}
use shortner.Shared.Text.{Bytes, eq_bytes}

digits : ℕ → ℕ → Bytes
digits zero n = []
digits (suc fuel) n =
    let more = digits fuel (n / 10) ++ (48 + n % 10) ∷ [] in
    if ltb n 10 then (48 + n) ∷ [] else more

-- The quotient by ten falls, so `n + 1` rounds are enough.
unfoldable pub format_int : ℕ → Bytes
unfolding digits
format_int n = digits (n + 1) n

value_from : ℕ → Bytes → ℕ
value_from acc [] = acc
value_from acc (c ∷ cs) = value_from (acc * 10 + (c - 48)) cs

value_from-concat :
    (acc : ℕ) (s : Bytes) (c : ℕ) → value_from acc (s ++ c ∷ []) ≡ value_from acc s * 10 + (c - 48)
unfolding value_from
value_from-concat acc [] c = refl
value_from-concat acc (x ∷ s) c = value_from-concat (acc * 10 + (x - 48)) s c

value_from-digits : (fuel n : ℕ) → n < fuel → value_from 0 (digits fuel n) ≡ n
unfolding digits value_from
value_from-digits zero n h = elim h [ ]
value_from-digits (suc fuel) n h = elim (Bool-cases (ltb n 10)) [
  | inl small ↦ rw small (omega arith)
  | inr large ↦ rw large (
      value_from-concat 0 (digits fuel (n / 10)) (48 + n % 10)
      ∙ ground (arith, value_from-digits fuel (n / 10)))
]

pub format_int-injective : (m n : ℕ) → format_int m ≡ format_int n → m ≡ n
unfolding format_int
format_int-injective m n e =
    sym (value_from-digits (m + 1) m (omega arith))
    ∙ ap (value_from 0) e
    ∙ value_from-digits (n + 1) n (omega arith)

-- The digits of `strconv.Atoi`; `none` at any other byte.
unfoldable pub decimal : ℕ → Bytes → Option ℕ
decimal acc [] = some acc
decimal acc (c ∷ cs) =
    let rest = decimal (acc * 10 + (c - 48)) cs in if leb 48 c && leb c 57 then rest else none

-- A byte of a decimal number.
abbrev pub IsDigit : ℕ → Type 0
IsDigit c = (48 ≤ c) × (c ≤ 57)

decimal-value_from : (acc : ℕ) (s : Bytes) → All IsDigit s → decimal acc s ≡ some (value_from acc s)
unfolding decimal value_from
decimal-value_from acc [] h = refl
decimal-value_from acc (c ∷ s) h =
    ground (arith, h.0, decimal-value_from (acc * 10 + (c - 48)) s h.1)

digits-All : (fuel n : ℕ) → All IsDigit (digits fuel n)
unfolding digits
digits-All zero n = tt
digits-All (suc fuel) n = elim (Bool-cases (ltb n 10)) [
  | inl small ↦ rw small (omega (arith, ltb→lt n 10 small), tt)
  | inr large ↦ rw large (
      All-append IsDigit (digits fuel (n / 10)) ((48 + n % 10) ∷ []) (digits-All fuel (n / 10))
        (omega arith, tt))
]

pub format_int-IsDigit : (n : ℕ) → All IsDigit (format_int n)
unfolding format_int
format_int-IsDigit n = digits-All (n + 1) n

pub decimal-format_int : (n : ℕ) → decimal 0 (format_int n) ≡ some n
unfolding format_int
decimal-format_int n =
    decimal-value_from 0 (digits (n + 1) n) (digits-All (n + 1) n)
    ∙ ap (λ (v : ℕ). some v) (value_from-digits (n + 1) n (omega arith))

digits_nonempty : (fuel n : ℕ) → eq_bytes (digits (suc fuel) n) [] ≡ false
unfolding digits eq_bytes
digits_nonempty fuel n = elim (Bool-cases (ltb n 10)) [
  | inl small ↦ rw small refl
  | inr large ↦ rw large (ends (digits fuel (n / 10)) (48 + n % 10))
]
  where
    ends : (s : Bytes) (c : ℕ) → eq_bytes (s ++ c ∷ []) [] ≡ false
    ends [] c = refl
    ends (d ∷ s) c = refl

pub format_int_nonempty : (n : ℕ) → eq_bytes (format_int n) [] ≡ false
unfolding format_int
format_int_nonempty n =
    let next : n + 1 ≡ suc n = omega arith in
    ap (λ (k : ℕ). eq_bytes (digits k n) []) next ∙ digits_nonempty n n
