-- ===== src/Db/Revoked.antt =====
-- A revoked token is refused from then on (src/db/token.go).
pub mod Samples
use shortner.Shared.{
  ℕ, ◌≡◌, refl, sym, ap, ◌∙◌, Bool, true, false, inl, inr, not, ◌&&◌, Option, none, some, List, [],
  ◌∷◌, Bytes, arith, Bool-cases, Option-cases, if◌then◌else◌, find_if, update_if, All, ◌==◌,
  eq_bytes, eq_bytes_refl,
}
use shortner.Library.{Library}
use shortner.Security.Token.{token_prefix}
use shortner.Db.Rows.{TokenRow, ApiToken, scan_token, scan_time, is_active, is_set}
use shortner.Db.Exec.{Tables, Db, M, ok, done, attempt, wrapped, exec, raise, not_found, pure}
use shortner.Db.Exec.Runs.{Runs, Runs-exec, Runs-step, Runs-bind, Runs-attempt}
use shortner.Db.Tokens.{has_prefix_of, update_tokens, revoke_token, lookup_token_by_raw}
use shortner.Db.Consistent.Ops.{check_rows_affected-Keeps}
use shortner.Db.Owner.{redeems, lookup_token_by_raw_sound}

abbrev live_with : Bytes → TokenRow → Bool
live_with prefix k = has_prefix_of prefix k && not (is_set k.revoked_at)

-- Every token of the prefix is revoked.
abbrev Revoked : Bytes → Tables → Type 0
Revoked prefix t = All (λ (k : TokenRow). live_with prefix k ≡ false) t.tokens

abbrev revoked_now : Bytes → ℕ → TokenRow → TokenRow
revoked_now reason now k = record k { revoked_at = some now; revoked_reason = some reason }

update_if-Revoked :
    (prefix reason : Bytes) (now : ℕ) (ks : List TokenRow)
    → All
        (λ (k : TokenRow). live_with prefix k ≡ false)
        (update_if (live_with prefix) (revoked_now reason now) ks)
update_if-Revoked prefix reason now [] = tt
update_if-Revoked prefix reason now (k ∷ ks) =
    let rest = update_if-Revoked prefix reason now ks in
    elim (Bool-cases (live_with prefix k)) [
      | inl live ↦ rw live (ground arith, rest)
      | inr dead ↦ rw dead (dead, rest)
    ]

All-find_if :
    (P : TokenRow → Type 0) (p : TokenRow → Bool) (ks : List TokenRow) (k : TokenRow)
    → All P ks
    → find_if p ks ≡ some k
    → P k × (p k ≡ true)
All-find_if P p [] k h e = absurd (cc)
All-find_if P p (x ∷ ks) k (first, h) e = elim (Bool-cases (p x)) [
  | inl here ↦
      let found : some x ≡ some k = rw here at e in
      let same : x ≡ k = cc in rw (sym same) (first, here)
  | inr deeper ↦ All-find_if P p ks k h (rw deeper at e)
]

revoke_token-Revoked :
    (prefix reason : Bytes) → Runs (λ t. Unit) (revoke_token prefix reason) (λ u. Revoked prefix)
unfolding revoke_token update_tokens
revoke_token-Revoked prefix reason =
    Runs-step (λ t. Unit) (Revoked prefix) (Revoked prefix)
      (update_tokens (live_with prefix) (revoked_now reason)) _
      (λ now t rows h e. update_if-Revoked prefix reason now t.tokens)
      (λ rows s u h e. check_rows_affected-Keeps (Revoked prefix) rows s h)

-- Once the tokens of a prefix have been revoked, no lookup by a raw token of that prefix succeeds on
-- the tokens that are left then, at whatever instant and whatever fails.
pub lookup_token_by_raw-revoke_token :
    (lib : Library) (raw reason : Bytes) (s after : Db) (token : ApiToken)
    → (revoke_token (token_prefix raw) reason s).0 ≡ ok tt
    → after.tables.tokens ≡ (revoke_token (token_prefix raw) reason s).1.tables.tokens
    → ¬ ((lookup_token_by_raw lib raw after).0 ≡ ok token)
unfolding is_active scan_token
lookup_token_by_raw-revoke_token lib raw reason s after token revoked same found =
    let (k, first, scanned, live) = lookup_token_by_raw_sound lib raw after token found in
    let dead = revoke_token-Revoked (token_prefix raw) reason s tt tt revoked in
    let (not_live, redeemed) =
      All-find_if (λ (j : TokenRow). live_with (token_prefix raw) j ≡ false) (redeems lib raw)
        (revoke_token (token_prefix raw) reason s).1.tables.tokens k dead
        (sym (ap (find_if (redeems lib raw)) same) ∙ first) in
    elim (Option-cases k.revoked_at) [
      | inl never ↦ absurd (ground (arith, never, not_live, redeemed))
      | inr (since, gone) ↦
          let active : is_active after.now (scan_token k) ≡ true = rw scanned at live in
          let wrong : false ≡ true = rw gone at active in absurd (ground (arith, wrong))
    ]
