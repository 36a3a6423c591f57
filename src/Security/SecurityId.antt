-- ===== src/Security/SecurityId.antt =====
-- src/security/securityid.go and reporttoken.go: ids and tokens that are derived from the installation's
-- secret. An instant is its Unix time in seconds, from 1970 on.
pub mod Accepted
pub mod Samples
use shortner.Shared.{
  ℕ, zero, suc, ◌+◌, ◌*◌, ◌/◌, Bool, true, false, not, ◌&&◌, ◌||◌, Option, none, some, List, [],
  ◌∷◌, ◌++◌, Bytes, codes, ltb, ◌==◌, if◌then◌else◌, length, take, eq_bytes, format_int,
}
use shortner.Library.{Library}

abbrev pub security_id_window : ℕ
security_id_window = 172_800

abbrev pub security_id_length : ℕ
security_id_length = 16

abbrev pub is_empty : Bytes → Bool
is_empty s = eq_bytes s []

-- The id for the decimal text of a window.
unfoldable pub security_id_for_window : Library → Bytes → Bytes → Bytes
security_id_for_window lib secret window =
    if is_empty secret then [] else take security_id_length (lib.mac secret window)

unfoldable pub security_id : Library → Bytes → ℕ → Bytes
security_id lib secret at = security_id_for_window lib secret (format_int (at / security_id_window))

-- FormatInt(window-1, 10)
abbrev pub format_previous : ℕ → Bytes
format_previous zero = codes "-1"
format_previous (suc window) = format_int window

abbrev pub is_candidate : Bytes → Bytes → Bool
is_candidate id candidate = not (is_empty candidate) && eq_bytes candidate id

unfoldable pub valid_security_id : Library → Bytes → Bytes → ℕ → Bool
valid_security_id lib secret id at =
    let window = at / security_id_window in
    if is_empty secret || not (length id == security_id_length)
    then false
    else is_candidate id (security_id_for_window lib secret (format_int window))
      || is_candidate id (security_id_for_window lib secret (format_previous window))

abbrev pub report_token_length : ℕ
report_token_length = 32

unfoldable pub report_token : Library → Bytes → Bytes → Bytes
report_token lib secret tracking_id =
    if is_empty secret || is_empty tracking_id
    then []
    else take report_token_length (lib.mac secret (codes "report:" ++ tracking_id))

unfoldable pub valid_report_token : Library → Bytes → Bytes → Bytes → Bool
unfolding report_token
valid_report_token lib secret tracking_id token =
    let expected = report_token lib secret tracking_id in
    if is_empty expected || not (length token == report_token_length)
    then false
    else eq_bytes expected token

abbrev pub report_token_grace_days : ℕ
report_token_grace_days = 30

-- `none` is a report that is still open; a day of UTC has 86400 seconds.
unfoldable pub report_token_expired : Option ℕ → ℕ → Bool
report_token_expired none now = false
report_token_expired (some closed_at) now = ltb (closed_at + report_token_grace_days * 86_400) now
