-- ===== src/Security/Random/Uniform.antt =====
-- Rejection sampling is uniform: every index of the alphabet is the image of as many bytes.
use native.Mathlib.Nat.{
  mod-lt, mod-eq_of_lt, mul-add-mod_self_right, div-add-mod', add-zero, add-suc, zero-mul, suc-mul,
}
use shortner.Shared.{
  ap, Bytes, [], ◌∷◌, length, eq_bytes, Bool-cases, inl, inr, ℕ, zero, suc, ◌+◌, ◌-◌, ◌*◌, ◌/◌, ◌%◌,
  ◌≤◌, ◌<◌, ◌≡◌, refl, sym, subst, ◌∙◌, Bool, not, ◌&&◌, arith, leb, ltb, ◌==◌, if◌then◌else◌,
}
use shortner.Security.Random.{limit, char_at, fill}

-- How many numbers below `n` pass the test.
pub count_below : ℕ → (ℕ → Bool) → ℕ
count_below zero p = 0
count_below (suc n) p = count_below n p + (if p n then 1 else 0)

-- A byte below the limit `m` that is mapped to index `j`.
abbrev hits : ℕ → ℕ → ℕ → ℕ → Bool
hits m size j v = not (leb m v) && v % size == j

-- Within one period of `size` numbers each remainder comes once.
block :
    (size j k r : ℕ)
    → r ≤ size
    → count_below (k * size + r) (λ v. v % size == j)
      ≡ count_below (k * size) (λ v. v % size == j) + (if ltb j r then 1 else 0)
unfolding count_below
block size j k zero h = rw add-zero (ground arith)
block size j k (suc r) h = rw add-suc (
    ground (
      arith,
      block size j k r (omega arith),
      mul-add-mod_self_right k size r,
      mod-eq_of_lt {n = r} {m = size} h,
    ))

periods : (size j k : ℕ) → j < size → count_below (k * size) (λ v. v % size == j) ≡ k
unfolding count_below
periods size j zero h = rw zero-mul
periods size j (suc k) h =
    rw suc-mul (block size j k size (omega arith) ∙ ground (arith, periods size j k h))

-- The test of `hits` cuts the count off at the limit.
inside :
    (m k : ℕ) (p : ℕ → Bool) → k ≤ m → count_below k (λ v. not (leb m v) && p v) ≡ count_below k p
unfolding count_below
inside m zero p l = refl
inside m (suc k) p l = ground (arith, inside m k p (omega arith))

cut : (m d : ℕ) (p : ℕ → Bool) → count_below (m + d) (λ v. not (leb m v) && p v) ≡ count_below m p
unfolding count_below
cut m zero p = rw add-zero (inside m m p (omega arith))
cut m (suc d) p = rw add-suc (ground (arith, cut m d p))

limit-eq-mul : (size : ℕ) → limit size ≡ 256 / size * size
unfolding limit
limit-eq-mul size = omega (arith, div-add-mod' 256 size)

count_below-hits :
    (size j n : ℕ)
    → j < size
    → 256 / size * size ≤ n
    → count_below n (hits (limit size) size j) ≡ 256 / size
count_below-hits size j n h l =
    let m = 256 / size * size in
    let e : n ≡ m + (n - m) = omega arith in
    rw limit-eq-mul (
      subst (λ k. count_below k (λ v. not (leb m v) && v % size == j) ≡ 256 / size) (sym e)
        (cut m (n - m) (λ v. v % size == j) ∙ periods size j (256 / size) h))

quotient_pos : (size : ℕ) → 0 < size → size ≤ 256 → 0 < 256 / size
quotient_pos size h fits =
    let r = mod-lt 256 {m = size} h in let e = div-add-mod' 256 size in grind arith

uniform :
    (size j : ℕ) → j < size → size ≤ 256 → count_below 256 (hits (limit size) size j) ≡ 256 / size
uniform size j h fits = count_below-hits size j 256 h (omega (arith, div-add-mod' 256 size))

count_below_same :
    (n : ℕ) (p q : ℕ → Bool) → ((v : ℕ) → p v ≡ q v) → count_below n p ≡ count_below n q
unfolding count_below
count_below_same zero p q same = refl
count_below_same (suc n) p q same = rw (count_below_same n p q same, same n) refl

-- Index `i` of the alphabet is the only one that has its character.
abbrev pub Once : Bytes → ℕ → Type 0
Once alphabet j = (i : ℕ) → i < length alphabet → char_at alphabet i ≡ char_at alphabet j → i ≡ j

-- A round over a buffer of the one byte yields the one character.
abbrev pub yields : Bytes → ℕ → ℕ → Bool
yields alphabet c v = eq_bytes (fill alphabet 1 (v ∷ []) []) (c ∷ [])

module _ (alphabet : Bytes) (j : ℕ) where
  same_character :
      (i : ℕ)
      → i < length alphabet
      → Once alphabet j
      → (char_at alphabet i == char_at alphabet j) ≡ (i == j)
  same_character i h once = elim (Bool-cases (i == j)) [
    | inl same ↦
        let equal : i ≡ j = ground (arith, same) in
        let character = ap (char_at alphabet) equal in ground (arith, same, character)
    | inr other ↦ elim (Bool-cases (char_at alphabet i == char_at alphabet j)) [
      | inl alike ↦
          let character : char_at alphabet i ≡ char_at alphabet j = ground (arith, alike) in
          absurd (ground (arith, once i h character, other))
      | inr unlike ↦ unlike ∙ sym other
    ]
  ]

  yields-hits :
      (v : ℕ)
      → j < length alphabet
      → Once alphabet j
      → yields alphabet (char_at alphabet j) v
        ≡ hits (limit (length alphabet)) (length alphabet) j v
  unfolding fill eq_bytes
  yields-hits v h once = elim (Bool-cases (leb (limit (length alphabet)) v)) [
    | inl skipped ↦ rw skipped refl
    | inr taken ↦
        let index = v % length alphabet in
        let same = same_character index (mod-lt v (omega arith)) once in
        rw taken (ground (arith, same))
  ]

  -- For an alphabet of at most 256 characters, and an index whose character is at no other: of the 256
  -- bytes exactly as many make the loop take that character as the quotient of 256 by the alphabet's
  -- size, which is positive.
  pub fill_uniform :
      j < length alphabet
      → length alphabet ≤ 256
      → Once alphabet j
      → (count_below 256 (yields alphabet (char_at alphabet j)) ≡ 256 / length alphabet)
        × (0 < 256 / length alphabet)
  fill_uniform h fits once = (
    count_below_same 256 _ _ (λ v. yields-hits v h once) ∙ uniform (length alphabet) j h fits,
    quotient_pos (length alphabet) (omega arith) fits,
  )
