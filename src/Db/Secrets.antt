-- ===== src/Db/Secrets.antt =====
-- src/db/secret.go: the secrets of the installation, made once.
pub mod Stable
pub mod Samples
use shortner.Shared.{
  ℕ, Bool, true, false, Option, none, some, List, [], ◌∷◌, Bytes, codes, ltb, if◌then◌else◌, length,
  take, drop, get, put,
}
use shortner.Library.{Library}
use shortner.Db.Rows.{SecretRow}
use shortner.Db.Exec.{
  DbError, not_found, random_failed, ok, err, no_rows, M, pure, raise, ◌>>=◌, ◌>>◌, rescue, Answer,
  done, failed, Statement, exec,
}

abbrev pub secret_installation : Bytes
secret_installation = codes "installation_secret"

abbrev pub secret_cookie_signing : Bytes
secret_cookie_signing = codes "cookie_signing_key"

abbrev pub secret_csrf_token : Bytes
secret_csrf_token = codes "csrf_token_secret"

abbrev pub secret_byte_len : ℕ
secret_byte_len = 32

abbrev pub value_answer : Option SecretRow → Answer Bytes
value_answer none = failed no_rows
value_answer (some row) = done row.value

-- SELECT value FROM app_secrets WHERE name = ?
abbrev pub select_secret : Bytes → Statement Bytes
select_secret name now t = (value_answer (get name t.secrets), t)

unfoldable pub get_secret : Bytes → M Bytes
get_secret name = exec (select_secret name)

abbrev pub new_secret : ℕ → Bytes → Option SecretRow → SecretRow
new_secret now value none = record { value = value; created_at = now; rotated_at = none }
new_secret now value (some row) = record row { value = value; rotated_at = some now }

-- INSERT INTO app_secrets (name, value) VALUES (?, ?) ON CONFLICT(name) DO UPDATE SET ...
abbrev pub upsert_secret : Bytes → Bytes → Statement (Unit {0})
upsert_secret name value now t =
    (done tt, record t { secrets = put name (new_secret now value (get name t.secrets)) t.secrets })

unfoldable pub set_secret : Bytes → Bytes → M (Unit {0})
set_secret name value = exec (upsert_secret name value)

-- `GenerateSecret` of src/security/token.go
unfoldable pub generate_secret : ℕ → M Bytes
generate_secret n s =
    if ltb (length s.random) n
    then (err random_failed, s)
    else (ok (take n s.random), record s { random = drop n s.random })

unfoldable pub create_secret : Library → Bytes → M Bytes
unfolding generate_secret
create_secret lib name = do
  raw ← generate_secret secret_byte_len
  set_secret name (lib.base64 raw)
  pure (lib.base64 raw)

abbrev pub unless_missing : Library → Bytes → DbError → M Bytes
unless_missing lib name not_found = create_secret lib name
unless_missing lib name e = raise e

-- The text that wraps an error of `SetSecret` is left out.
unfoldable pub ensure_secret : Library → Bytes → M Bytes
ensure_secret lib name = rescue (get_secret name) (unless_missing lib name)

unfoldable pub ensure_core_secrets : Library → M (Bytes × Bytes × Bytes)
unfolding ensure_secret
ensure_core_secrets lib = do
  installation ← ensure_secret lib secret_installation
  cookie_signing ← ensure_secret lib secret_cookie_signing
  csrf_token ← ensure_secret lib secret_csrf_token
  pure (installation, cookie_signing, csrf_token)
