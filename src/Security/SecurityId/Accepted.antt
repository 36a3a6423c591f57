-- ===== src/Security/SecurityId/Accepted.antt =====
-- How long an id that was published is accepted (src/security/securityid.go).
use shortner.Shared.{
  ℕ, suc, ◌+◌, ◌/◌, ◌≤◌, ◌≡◌, refl, ◌∙◌, ◌⊎◌, inl, inr, Bool, true, false, ◌||◌, [], ◌∷◌, Bytes,
  arith, ◌==◌, length, length-take, eq_bytes, eq_bytes_refl, format_int,
}
use shortner.Library.{Library}
use shortner.Security.SecurityId.{
  is_empty, security_id_for_window, security_id, is_candidate, valid_security_id,
}

-- The window of an instant no later than one window's length is the same or the next.
windows_of :
    (issued at : ℕ)
    → issued ≤ at
    → at ≤ issued + 172_800
    → (at / 172_800 ≡ issued / 172_800) ⊎ (at / 172_800 ≡ suc (issued / 172_800))
windows_of issued at h k = ground arith

long_not_empty : (s : Bytes) → length s ≡ 16 → is_empty s ≡ false
unfolding eq_bytes
long_not_empty [] h = absurd (ground (arith, h))
long_not_empty (c ∷ s) h = refl

second_accepts : (b : Bool) → b || true ≡ true
second_accepts b = ground arith

module _ (lib : Library) (secret : Bytes) (made : is_empty secret ≡ false)
    (digits : (text : Bytes) → 16 ≤ length (lib.mac secret text)) where
  id_length : (text : Bytes) → length (security_id_for_window lib secret text) ≡ 16
  unfolding security_id_for_window
  id_length text = rw made (length-take 16 (lib.mac secret text) ∙ ground (arith, digits text))

  same_candidate :
      (text : Bytes)
      → is_candidate
          (security_id_for_window lib secret text)
          (security_id_for_window lib secret text)
        ≡ true
  same_candidate text =
      rw
        (
          long_not_empty (security_id_for_window lib secret text) (id_length text),
          eq_bytes_refl (security_id_for_window lib secret text),
        )
        refl

  -- Let there be a secret, and let the HMAC have sixteen hexadecimal digits or more. The id that is
  -- published at an instant is accepted at that instant and throughout the next 48 hours.
  pub valid_security_id-security_id :
      (issued at : ℕ)
      → issued ≤ at
      → at ≤ issued + 172_800
      → valid_security_id lib secret (security_id lib secret issued) at ≡ true
  unfolding valid_security_id security_id
  valid_security_id-security_id issued at h k =
      let window = format_int (issued / 172_800) in
      let same = same_candidate window in
      let long : (length (security_id_for_window lib secret window) == 16) ≡ true =
        rw (id_length window) refl in
      elim (windows_of issued at h k) [
        | inl here ↦ rw (made, long, here, same) refl
        | inr later ↦ rw (made, long, later, same) (second_accepts _)
      ]
