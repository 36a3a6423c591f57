-- ===== src/Config/Words.antt =====
-- The words for booleans (src/config/bool.go).
use shortner.Shared.{
  ◌≡◌, refl, ap, ◌∙◌, Bool, true, false, none, some, List, [], ◌∷◌, Bytes, if◌then◌else◌, ◌⊎◌,
  eq_bytes, eq_bytes_iff, All, Bool-cases, inl, inr, arith,
}
use shortner.Config.{
  truthy_values, falsy_values, is_truthy, is_falsy, parse_bool, normal, any_equal,
}

-- The word is in no list that leaves out each word of the other.
any_equal_apart :
    (s : Bytes) (ws others : List Bytes)
    → any_equal s ws ≡ true
    → All (λ (w : Bytes). any_equal w others ≡ false) ws
    → any_equal s others ≡ false
unfolding any_equal
any_equal_apart s [] others h apart = absurd (ground (arith, h))
any_equal_apart s (w ∷ ws) others h (first, rest) = elim (Bool-cases (eq_bytes s w)) [
  | inl same ↦ ap (λ (k : Bytes). any_equal k others) ((eq_bytes_iff s w).0 same) ∙ first
  | inr other ↦ any_equal_apart s ws others (rw other at h) rest
]

-- No word means true and false.
truthy_apart : All (λ (w : Bytes). any_equal w falsy_values ≡ false) truthy_values
unfolding any_equal truthy_values falsy_values eq_bytes
truthy_apart = (
  refl,
  (
    refl,
    (
      refl,
      (
        refl,
        (
          refl,
          (
            refl,
            (
              refl,
              (
                refl,
                (
                  refl,
                  (
                    refl,
                    (
                      refl,
                      (
                        refl,
                        (
                          refl,
                          (
                            refl,
                            (
                              refl,
                              (refl, (refl, (refl, (refl, (refl, (refl, (refl, (refl, tt)))))))),
                            ),
                          ),
                        ),
                      ),
                    ),
                  ),
                ),
              ),
            ),
          ),
        ),
      ),
    ),
  ),
)

not_both : (s : Bytes) → is_truthy s ≡ true → is_falsy s ≡ false
unfolding is_truthy is_falsy
not_both s h = any_equal_apart (normal s) truthy_values falsy_values h truthy_apart

not_blank :
    (s : Bytes) (ws : List Bytes)
    → any_equal [] ws ≡ false
    → any_equal s ws ≡ true
    → eq_bytes s [] ≡ false
not_blank s ws apart h = elim (Bool-cases (eq_bytes s [])) [
  | inl blank ↦
      let here = ap (λ (k : Bytes). any_equal k ws) ((eq_bytes_iff s []).0 blank) in
      absurd (ground (arith, here, apart, h))
  | inr other ↦ other
]

truthy_not_blank : (s : Bytes) → is_truthy s ≡ true → eq_bytes (normal s) [] ≡ false
unfolding is_truthy truthy_values any_equal eq_bytes
truthy_not_blank s h = not_blank (normal s) truthy_values refl h

falsy_not_blank : (s : Bytes) → is_falsy s ≡ true → eq_bytes (normal s) [] ≡ false
unfolding is_falsy falsy_values any_equal eq_bytes
falsy_not_blank s h = not_blank (normal s) falsy_values refl h

-- `ParseBool` agrees with `IsTruthy` and `IsFalsy`, whatever the default, the case of the letters and the
-- space around them: what one of the two accepts is read so, what neither accepts is the default if it
-- is blank and an error if it is not. No text is both.
parse_bool-is_truthy :
    (s : Bytes) (default : Bool)
    → ((is_truthy s ≡ true) × (is_falsy s ≡ false) × (parse_bool s default ≡ some true))
      ⊎ ((is_truthy s ≡ false) × (is_falsy s ≡ true) × (parse_bool s default ≡ some false))
      ⊎ ((is_truthy s ≡ false)
          × (is_falsy s ≡ false)
          × (parse_bool s default ≡ (if eq_bytes (normal s) [] then some default else none)))
unfolding parse_bool is_truthy is_falsy
parse_bool-is_truthy s default = elim (Bool-cases (is_truthy s)) [
  | inl truthy ↦
      let falsy = not_both s truthy in
      inl (truthy, falsy, rw (truthy_not_blank s truthy, truthy) refl)
  | inr other ↦ elim (Bool-cases (is_falsy s)) [
    | inl falsy ↦ inr (inl (other, falsy, rw (falsy_not_blank s falsy, other, falsy) refl))
    | inr neither ↦ inr (inr (other, neither, rw (other, neither) refl))
  ]
]
