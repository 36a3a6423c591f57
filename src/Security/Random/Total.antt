-- ===== src/Security/Random/Total.antt =====
-- `RandomString` returns, with as many characters of the alphabet as were asked for.
use shortner.Shared.{
  ℕ, zero, suc, ◌+◌, ◌%◌, ◌≤◌, ◌<◌, ◌≡◌, refl, ◌||◌, [], ◌∷◌, ◌++◌, Bytes, arith, length, leb, ltb,
  ◌==◌, All, All-append, length-append, if_intro, Bool-cases, ltb→lt, not-ltb→le, inl, inr,
  length-drop,
}
use native.Mathlib.Nat.{mod-lt}
use shortner.Security.Random.{
  RandomResult, ok, size_out_of_range, read_failed, out_of_fuel, limit, char_at, fill, draw,
  random_string,
}

-- The character at some index of the alphabet.
abbrev pub IsDrawn : Bytes → ℕ → Type 0
IsDrawn alphabet c = (i : ℕ) × (i < length alphabet) × (c ≡ char_at alphabet i)

pub fill-le :
    (alphabet : Bytes) (n : ℕ) (buf out : Bytes)
    → length out < n
    → length (fill alphabet n buf out) ≤ n
unfolding fill
fill-le alphabet n [] out h = omega arith
fill-le alphabet n (v ∷ buf) out h =
    let c = char_at alphabet (v % length alphabet) ∷ [] in
    ground
      (arith, fill-le alphabet n buf out, fill-le alphabet n buf (out ++ c), length-append out c)

push-IsDrawn :
    (alphabet out : Bytes) (v : ℕ)
    → 0 < length alphabet
    → All (IsDrawn alphabet) out
    → All (IsDrawn alphabet) (out ++ char_at alphabet (v % length alphabet) ∷ [])
push-IsDrawn alphabet out v h a =
    All-append (IsDrawn alphabet) out _ a ((v % length alphabet, mod-lt v h, refl), tt)

pub fill-IsDrawn :
    (alphabet : Bytes) (n : ℕ) (buf out : Bytes)
    → 0 < length alphabet
    → All (IsDrawn alphabet) out
    → All (IsDrawn alphabet) (fill alphabet n buf out)
unfolding fill
fill-IsDrawn alphabet n [] out h a = a
fill-IsDrawn alphabet n (v ∷ buf) out h a =
    let pushed = push-IsDrawn alphabet out v h a in
    let P = All (IsDrawn alphabet) in
    if_intro P (leb (limit (length alphabet)) v) (fill-IsDrawn alphabet n buf out h a)
      (if_intro P (length (out ++ _ ∷ []) == n) pushed (fill-IsDrawn alphabet n buf _ h pushed))

-- What a finished call returned.
abbrev pub Returns : Bytes → ℕ → RandomResult → Type 0
Returns alphabet n (ok out rest) = (length out ≡ n) × All (IsDrawn alphabet) out
Returns alphabet n size_out_of_range = Unit
Returns alphabet n read_failed = Unit
Returns alphabet n out_of_fuel = ⊥

draw-Returns :
    (fuel : ℕ) (alphabet : Bytes) (n : ℕ) (stream out : Bytes)
    → 0 < length alphabet
    → length stream < fuel
    → length out ≤ n
    → All (IsDrawn alphabet) out
    → Returns alphabet n (draw fuel alphabet n stream out)
unfolding draw
draw-Returns zero alphabet n stream out h f l a = elim f [ ]
draw-Returns (suc fuel) alphabet n stream out h f l a = elim (Bool-cases (ltb (length out) n)) [
  | inl more ↦ rw more (elim (Bool-cases (ltb (length stream) n)) [
    | inl short ↦ rw short tt
    | inr enough ↦ rw enough (
        draw-Returns fuel alphabet n _ _ h
          (omega (arith, ltb→lt _ _ more, length-drop n stream, not-ltb→le _ _ enough))
          (fill-le alphabet n _ out (ltb→lt _ _ more)) (fill-IsDrawn alphabet n _ out h a))
  ])
  | inr done ↦ rw done (omega (arith, not-ltb→le _ _ done), a)
]

-- Whatever the random bytes, `RandomString` stops: with an error, or with exactly `n` bytes, each
-- of them a character of the alphabet.
pub random_string-Returns :
    (alphabet : Bytes) (n : ℕ) (stream : Bytes)
    → Returns alphabet n (random_string alphabet n stream)
unfolding random_string
random_string-Returns alphabet n stream =
    elim (Bool-cases (length alphabet == 0 || ltb 256 (length alphabet))) [
      | inl bad ↦ rw bad tt
      | inr fine ↦ rw fine (
          draw-Returns (length stream + 1) alphabet n stream [] (ground arith) (omega arith)
            (omega arith) tt)
    ]
