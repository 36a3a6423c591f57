-- ===== src/Db/Revoked/Samples.antt =====
-- A stored token, revoked.
use shortner.Shared
use shortner.Shared.{◌≡◌, refl, none, [], ◌∷◌, Bytes, codes}
use shortner.Security.Token.{token_prefix}
use shortner.Http.Samples.{sample_library, start, empty_tables}
use shortner.Db.Rows.{TokenRow, scan_token}
use shortner.Db.Exec.{Db, ok, attempt, exec}
use shortner.Db.Tokens.{new_token, revoke_token, update_tokens, lookup_token_by_raw}
use shortner.Db.Revoked.{lookup_token_by_raw-revoke_token}

abbrev raw : Bytes
raw = codes "tok_0123456789"

abbrev stored_row : TokenRow
stored_row = new_token 1 0 raw (token_prefix raw) (codes "link") (codes "1") none

abbrev holding : Db
holding = record start { tables = record empty_tables { tokens = stored_row ∷ []; last_token = 1 } }

abbrev leaked : Bytes
leaked = codes "leaked"

lookup_token_by_raw-revoke_token_example : ¬ (
    (lookup_token_by_raw sample_library raw (revoke_token (token_prefix raw) leaked holding).1).0
    ≡ ok (scan_token stored_row))
unfolding revoke_token update_tokens exec attempt token_prefix Shared.eq_bytes
lookup_token_by_raw-revoke_token_example =
    lookup_token_by_raw-revoke_token sample_library raw leaked holding
      (revoke_token (token_prefix raw) leaked holding).1 (scan_token stored_row) refl refl
