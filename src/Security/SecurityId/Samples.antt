-- ===== src/Security/SecurityId/Samples.antt =====
-- A sample security id, in the window after its own.
use shortner.Shared
use shortner.Shared.{ℕ, ◌≤◌, ◌≡◌, refl, true, ◌++◌, Bytes, codes, length, length-append, arith}
use shortner.Http.Samples.{sample_library}
use shortner.Security.SecurityId.{security_id, valid_security_id}
use shortner.Security.SecurityId.Accepted.{valid_security_id-security_id}

sixteen_digits : (text : Bytes) → 16 ≤ length (text ++ codes "0123456789abcdef")
sixteen_digits text = ground (arith, length-append text (codes "0123456789abcdef"))

valid_security_id-security_id_example :
    valid_security_id sample_library
      (codes "secret")
      (security_id sample_library (codes "secret") 1_000_000)
      1_172_800
    ≡ true
unfolding Shared.eq_bytes
valid_security_id-security_id_example =
    valid_security_id-security_id sample_library (codes "secret") refl sixteen_digits 1_000_000
      1_172_800 (omega arith) (omega arith)
