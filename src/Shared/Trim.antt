-- ===== src/Shared/Trim.antt =====
-- `strings.TrimSpace` of a text without white space, and the ends of a text.
use Prim.Native.Nat.{ℕ, ◌+◌, ◌-◌, ◌*◌, ◌^◌, ◌<◌}
use mathlib.Core.Path.{◌≡◌, refl, ap, ◌∙◌}
use mathlib.Core.Bool.{false, ◌&&◌}
use mathlib.Core.Logic.{inl, inr}
use mathlib.Core.Option.{none, some}
use mathlib.Core.List.{[], ◌∷◌, ◌++◌, reverse, map, reverse_aux, reverse-reverse}
use native.Mathlib.Omega.{arith}
use shortner.Shared.Lists.{All, length, take, length-append}
use shortner.Shared.Tests.{leb, ◌==◌, Bool-cases, Option-cases}
use shortner.Shared.Text.{Bytes, eq_bytes, is_space, trim_left, trim_space, has_prefix, to_upper}
use shortner.Shared.Decimal.{IsDigit, decimal}
use shortner.Shared.Int.{ℤ, pos, unsigned, with_minus, parse_int}

All-reverse_aux : (P : ℕ → Type 0) (s t : Bytes) → All P s → All P t → All P (reverse_aux s t)
All-reverse_aux P [] t hs ht = ht
All-reverse_aux P (c ∷ s) t hs ht = All-reverse_aux P s (c ∷ t) hs.1 (hs.0, ht)

abbrev pub IsInk : ℕ → Type 0
IsInk c = is_space c ≡ false

trim_left_id : (s : Bytes) → All IsInk s → trim_left s ≡ s
unfolding trim_left
trim_left_id [] h = refl
trim_left_id (c ∷ s) h = rw h.0 refl

pub trim_space_id : (s : Bytes) → All IsInk s → trim_space s ≡ s
unfolding trim_space
trim_space_id s h =
    ap (λ (t : Bytes). reverse (trim_left (reverse t))) (trim_left_id s h)
    ∙ ap (λ (t : Bytes). reverse t) (trim_left_id (reverse s) (All-reverse_aux IsInk s [] h tt))
    ∙ reverse-reverse s

take_front : (s t : Bytes) → take (length s) (s ++ t) ≡ s
take_front [] t = refl
take_front (c ∷ s) t = ap (λ (r : Bytes). c ∷ r) (take_front s t)

-- `s[:len(s)-len(suffix)]`
pub take-append : (s t : Bytes) → take (length (s ++ t) - length t) (s ++ t) ≡ s
take-append s t =
    let front : length (s ++ t) - length t ≡ length s = omega (arith, length-append s t) in
    ap (λ (k : ℕ). take k (s ++ t)) front ∙ take_front s t

pub IsDigit-IsInk : (s : Bytes) → All IsDigit s → All IsInk s
unfolding is_space
IsDigit-IsInk [] h = tt
IsDigit-IsInk (c ∷ s) h = (ground (arith, h.0), IsDigit-IsInk s h.1)

pub to_upper_digits : (s t : Bytes) → All IsDigit s → map to_upper (s ++ t) ≡ s ++ map to_upper t
unfolding to_upper
to_upper_digits [] t h = refl
to_upper_digits (c ∷ s) t h = ground (arith, h.0, to_upper_digits s t h.1)

-- A text that ends in digits ends in no letter.
pub has_prefix_digits :
    (s : Bytes) (c : ℕ) (p : Bytes) → All IsDigit s → 57 < c → has_prefix s (c ∷ p) ≡ false
unfolding has_prefix
has_prefix_digits [] c p h letter = refl
has_prefix_digits (d ∷ s) c p h letter = ground (arith, h.0)

pub reverse-IsDigit : (s : Bytes) → All IsDigit s → All IsDigit (reverse s)
reverse-IsDigit s h = All-reverse_aux IsDigit s [] h tt

pub parse_int_digits :
    (s : Bytes) (n : ℕ)
    → All IsDigit s
    → eq_bytes s [] ≡ false
    → decimal 0 s ≡ some n
    → n < 2 ^ 63
    → parse_int s ≡ some (pos n)
unfolding parse_int eq_bytes
parse_int_digits [] n h there e small = absurd (ground (arith, there))
parse_int_digits (c ∷ s) n h there e small =
    let minus : (c == 45) ≡ false = ground (arith, h.0) in
    let plus : (c == 43) ≡ false = ground (arith, h.0) in rw (minus, plus, e) (ground arith)

decimal-IsInk : (acc : ℕ) (s : Bytes) (n : ℕ) → decimal acc s ≡ some n → All IsInk s
unfolding decimal is_space
decimal-IsInk acc [] n e = tt
decimal-IsInk acc (c ∷ s) n e = elim (Bool-cases (leb 48 c && leb c 57)) [
  | inl digit ↦ (ground (arith, digit), decimal-IsInk (acc * 10 + (c - 48)) s n (rw digit at e))
  | inr other ↦
      let none_there : none ≡ some n = rw other at e in absurd (ground (arith, none_there))
]

unsigned-IsInk : (s : Bytes) (n : ℤ) → unsigned s ≡ some n → All IsInk s
unsigned-IsInk [] n e = tt
unsigned-IsInk (c ∷ s) n e = elim (Option-cases (decimal 0 (c ∷ s))) [
  | inl bad ↦ let none_there : none ≡ some n = rw bad at e in absurd (ground (arith, none_there))
  | inr (v, read) ↦ decimal-IsInk 0 (c ∷ s) v read
]

with_minus-IsInk : (s : Bytes) (n : ℤ) → with_minus s ≡ some n → All IsInk s
with_minus-IsInk [] n e = tt
with_minus-IsInk (c ∷ s) n e = elim (Option-cases (decimal 0 (c ∷ s))) [
  | inl bad ↦ let none_there : none ≡ some n = rw bad at e in absurd (ground (arith, none_there))
  | inr (v, read) ↦ decimal-IsInk 0 (c ∷ s) v read
]

-- A text that `strconv.Atoi` reads has no white space.
pub parse_int-IsInk : (s : Bytes) (n : ℤ) → parse_int s ≡ some n → All IsInk s
unfolding parse_int is_space
parse_int-IsInk [] n e = tt
parse_int-IsInk (c ∷ s) n e = elim (Bool-cases (c == b'-')) [
  | inl minus ↦ let rest = with_minus-IsInk s n (rw minus at e) in (ground (arith, minus), rest)
  | inr signed ↦ elim (Bool-cases (c == b'+')) [
    | inl plus ↦
        let rest = unsigned-IsInk s n (rw (signed, plus) at e) in (ground (arith, plus), rest)
    | inr digit ↦ unsigned-IsInk (c ∷ s) n (rw (signed, digit) at e)
  ]
]
