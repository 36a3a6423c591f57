-- ===== src/Security/Random/Success.antt =====
-- `RandomString` of src/security/token.go succeeds once its source has delivered enough usable bytes.
use native.Mathlib.Nat.{div-add-mod', zero-mul}
use shortner.Shared.{
  ℕ, zero, suc, ◌+◌, ◌-◌, ◌*◌, ◌/◌, ◌%◌, ◌≤◌, ◌<◌, ◌≡◌, refl, sym, ap, ◌∙◌, ◌||◌, Bool, false, not,
  [], ◌∷◌, ◌++◌, Bytes, arith, length, take, drop, min, leb, ltb, ◌==◌, All, count_if,
  count_if-append, take-add, length-append, length-drop, Bool-cases, ltb→lt, not-ltb→le, inl, inr,
}
use shortner.Security.Random.{RandomResult, ok, limit, char_at, fill, draw, random_string}
use shortner.Security.Random.Total.{IsDrawn, fill-le, fill-IsDrawn}

at_most_product : (k n : ℕ) → 0 < n → k ≤ k * n
at_most_product k zero h = absurd (omega arith)
at_most_product k (suc n) h = omega arith

-- A byte below the greatest multiple of the alphabet's size that a byte can reach.
abbrev pub accepted : ℕ → ℕ → Bool
accepted size v = ltb v (256 / size * size)

module _ (alphabet : Bytes) (n : ℕ) where
  abbrev size : ℕ
  size = length alphabet

  below_limit : (v : ℕ) → leb (limit size) v ≡ not (accepted size v)
  unfolding limit
  below_limit v =
      let whole = div-add-mod' 256 size in
      let same : 256 - 256 % size ≡ 256 / size * size = omega (arith, whole) in ground (arith, same)

  length-fill :
      (buf out : Bytes)
      → length out < n
      → length (fill alphabet n buf out) ≡ min n (length out + count_if (accepted size) buf)
  unfolding fill
  length-fill [] out h = omega arith
  length-fill (v ∷ buf) out h =
      let next = out ++ char_at alphabet (v % size) ∷ [] in
      let grown = length-append out (char_at alphabet (v % size) ∷ []) in
      ground (arith, below_limit v, grown, length-fill buf out h, length-fill buf next)

  -- `ok` with `n` characters of the alphabet.
  abbrev pub Succeeds : RandomResult → Type 0
  Succeeds r =
      (out : Bytes) × (rest : Bytes) × (r ≡ ok out rest)
      × (length out ≡ n)
      × All (IsDrawn alphabet) out

  count_if-take :
      (k : ℕ) (p : ℕ → Bool) (stream : Bytes)
      → count_if p (take (suc k * n) stream)
        ≡ count_if p (take n stream) + count_if p (take (k * n) (drop n stream))
  count_if-take k p stream =
      let next : suc k * n ≡ n + k * n = omega arith in
      rw next (
        ap (count_if p) (sym (take-add n (k * n) stream))
        ∙ count_if-append p (take n stream) (take (k * n) (drop n stream)))

  draw-Succeeds :
      (k fuel : ℕ) (stream out : Bytes)
      → 0 < size
      → k < fuel
      → k * n ≤ length stream
      → length out ≤ n
      → n ≤ length out + count_if (accepted size) (take (k * n) stream)
      → All (IsDrawn alphabet) out
      → Succeeds (draw fuel alphabet n stream out)
  unfolding draw
  draw-Succeeds k zero stream out h fuelled whole l enough a = absurd (omega (arith, fuelled))
  draw-Succeeds zero (suc fuel) stream out h fuelled whole l enough a =
      let none_read : count_if (accepted size) (take (0 * n) stream) ≡ 0 = rw zero-mul refl in
      let full : ltb (length out) n ≡ false = ground (arith, none_read) in
      rw full (out, stream, refl, omega (arith, none_read), a)
  draw-Succeeds (suc k) (suc fuel) stream out h fuelled whole l enough a =
      elim (Bool-cases (ltb (length out) n)) [
        | inr full ↦ rw full (out, stream, refl, omega (arith, not-ltb→le _ _ full), a)
        | inl more ↦
            let short : length out < n = ltb→lt _ _ more in
            let buffered : n ≤ length stream = omega arith in
            let read : ltb (length stream) n ≡ false = ground (arith, buffered) in
            let filled = fill alphabet n (take n stream) out in
            let grown = length-fill (take n stream) out short in
            let split = count_if-take k (accepted size) stream in
            let left = length-drop n stream in
            let within = fill-le alphabet n (take n stream) out short in
            rw (more, read)
              (draw-Succeeds k fuel (drop n stream) filled h (omega arith) (omega (arith, left))
                within (omega (arith, grown, split))
                (fill-IsDrawn alphabet n (take n stream) out h a))
      ]

  -- For an alphabet of 1 to 256 characters: once some number of whole buffers that the source has
  -- delivered hold `n` bytes below the greatest multiple of the alphabet's size up to 256,
  -- `RandomString` returns without an error, with exactly `n` characters of the alphabet.
  pub random_string-Succeeds :
      (k : ℕ) (stream : Bytes)
      → 0 < size
      → size ≤ 256
      → k * n ≤ length stream
      → n ≤ count_if (accepted size) (take (k * n) stream)
      → Succeeds (random_string alphabet n stream)
  unfolding random_string
  random_string-Succeeds k stream h fits whole enough = elim (Bool-cases (n == 0)) [
    | inl nothing ↦
        let sized : (size == 0 || ltb 256 size) ≡ false = ground arith in
        let little : n ≡ 0 = ground (arith, nothing) in
        rw sized (
          draw-Succeeds 0 (length stream + 1) stream [] h (omega arith) (omega arith) (omega arith)
            (omega (arith, little)) tt)
    | inr some_asked ↦
        let sized : (size == 0 || ltb 256 size) ≡ false = ground arith in
        let asked : 0 < n = ground (arith, some_asked) in
        let fuelled : k < length stream + 1 = omega (arith, at_most_product k n asked, whole) in
        rw sized (
          draw-Succeeds k (length stream + 1) stream [] h fuelled whole (omega arith)
            (omega (arith, enough)) tt)
  ]
