-- ===== src/Shared/Int.antt =====
-- Go's signed integers: int64 (and int, of 64 bits) with its decimal text and its wrap-around.
use Prim.Native.Nat.{ℕ, ◌-◌, ◌%◌, ◌^◌}
use mathlib.Core.Bool.{Bool, true, false, ◌||◌}
use mathlib.Core.Option.{Option, none, some}
use mathlib.Core.List.{[], ◌∷◌}
use shortner.Shared.Tests.{ltb, leb, ◌==◌, if◌then◌else◌}
use shortner.Shared.Text.{Bytes}
use shortner.Shared.Decimal.{decimal}

pub data ℤ : Type 0 where
  pos : ℕ → ℤ
  -- -(n + 1)
  negsuc : ℕ → ℤ

-- n < k
abbrev pub below : ℕ → ℤ → Bool
below k (pos n) = ltb n k
below k (negsuc n) = true

-- n > k
abbrev pub above : ℕ → ℤ → Bool
above k (pos n) = ltb k n
above k (negsuc n) = false

-- n < lo || n > hi
abbrev pub outside : ℕ → ℕ → ℤ → Bool
outside lo hi n = below lo n || above hi n

-- The int64 that the bits of a natural number stand for.
abbrev pub wrap64 : ℕ → ℤ
wrap64 x = let w = x % 2 ^ 64 in if ltb w (2 ^ 63) then pos w else negsuc (2 ^ 64 - w - 1)

abbrev pub positive : Option ℕ → Option ℤ
positive none = none
positive (some v) = if ltb v (2 ^ 63) then some (pos v) else none

abbrev pub negative : Option ℕ → Option ℤ
negative none = none
negative (some v) =
    if v == 0 then some (pos 0) else if leb v (2 ^ 63) then some (negsuc (v - 1)) else none

abbrev pub unsigned : Bytes → Option ℤ
unsigned [] = none
unsigned (c ∷ s) = positive (decimal 0 (c ∷ s))

abbrev pub with_minus : Bytes → Option ℤ
with_minus [] = none
with_minus (c ∷ s) = negative (decimal 0 (c ∷ s))

-- strconv.ParseInt(s, 10, 64), and strconv.Atoi
unfoldable pub parse_int : Bytes → Option ℤ
unfolding decimal
parse_int [] = none
parse_int (c ∷ s) =
    if c == b'-' then with_minus s else if c == b'+' then unsigned s else unsigned (c ∷ s)
