-- ===== src/Security/Token.antt =====
-- src/security/token.go: owner tokens, their prefixes and hashes. `hash` is the hexadecimal
-- SHA-256 digest of crypto/sha256 and encoding/hex, a parameter of the development.
use shortner.Shared.{
  ℕ, ◌≡◌, ◌↔◌, Bool, true, false, not, ◌++◌, Bytes, codes, arith, leb, ◌==◌, if◌then◌else◌, length,
  take, eq_bytes, eq_bytes_iff,
}
use shortner.Security.Random.{RandomResult, ok}
use shortner.Security.Random.{random_string}

abbrev pub token_alphabet : Bytes
token_alphabet = codes "ABCDEFGHIJKLMNOPQRSTUVWXYZabcdefghijklmnopqrstuvwxyz0123456789"

abbrev pub token_length : ℕ
token_length = 32

-- An error of `RandomString` is passed on.
abbrev pub prefixed : RandomResult → RandomResult
prefixed (ok body rest) = ok (codes "tok_" ++ body) rest
prefixed other = other

unfoldable pub generate_token : Bytes → RandomResult
unfolding random_string
generate_token stream = prefixed (random_string token_alphabet token_length stream)

unfoldable pub token_prefix : Bytes → Bytes
token_prefix raw = if leb (length raw) 12 then raw else take 12 raw

-- `subtle.ConstantTimeCompare` on slices of equal length.
unfoldable pub compare_token_hash : (Bytes → Bytes) → Bytes → Bytes → Bool
compare_token_hash hash raw stored =
    if not (length (hash raw) == length stored) then false else eq_bytes (hash raw) stored

unfoldable pub compare_server_token : (Bytes → Bytes) → Bytes → Bytes → Bool
unfolding compare_token_hash
compare_server_token hash raw server_token =
    if eq_bytes server_token (codes "")
    then false
    else compare_token_hash hash raw (hash server_token)

pub compare_token_hash_iff :
    (hash : Bytes → Bytes) (raw stored : Bytes)
    → (compare_token_hash hash raw stored ≡ true) ↔ (hash raw ≡ stored)
unfolding compare_token_hash
compare_token_hash_iff hash raw stored = ground (arith, eq_bytes_iff (hash raw) stored)
