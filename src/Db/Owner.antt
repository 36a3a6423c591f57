-- ===== src/Db/Owner.antt =====
-- The owner token of a resource: it is redeemed as long as its row is there, and it grants nothing
-- that no row grants.
use shortner.Shared.{
  ℕ, ◌+◌, ◌≡◌, refl, sym, ap, subst, ◌∙◌, inl, inr, Bool, true, false, not, ◌&&◌, none, some, List,
  [], ◌∷◌, ◌++◌, Bytes, codes, arith, if◌then◌else◌, Bool-cases, Option-cases, find_if, keep_if,
  eq_bytes, eq_bytes_iff, eq_bytes_refl,
}
use shortner.Library.{Library}
use shortner.Security.Token.{
  token_alphabet, token_length, prefixed, generate_token, token_prefix, compare_token_hash,
  compare_token_hash_iff,
}
use shortner.Security.Random.{RandomResult, random_string}
use shortner.Db.Rows.{Time, ApiToken, TokenRow, scan_token, is_active}
use shortner.Db.Exec.{Tables, Db, Result, ok, err, not_found, wrapped, raise, attempt, done, exec}
use shortner.Db.Exec.Runs.{Runs, Runs-bind, Runs-exec, Runs-attempt, Runs-pure}
use shortner.Db.Exec.Inverse.{exec_calm, exec-ok, >>=-ok, >>=_run}
use shortner.Db.Links.{is_some, drawn}
use shortner.Db.Tokens.{
  has_hash, has_prefix_of, new_token, draw_token, insert_tokens, select_by_prefix, get_token_by_id,
  create_resource_token, match_token, lookup_token_by_raw,
}
use shortner.Db.Consistent.TokenOps.{get_token_by_id-Keeps}
use shortner.Db.Stored.{find_last}

-- The row that a lookup of `raw` comes to.
abbrev pub redeems : Library → Bytes → TokenRow → Bool
redeems lib raw k =
    has_prefix_of (token_prefix raw) k && compare_token_hash lib.hash raw k.token_hash

-- The lookup of `raw` comes to a row of the resource that never expires and is not revoked.
pub record Redeemable (lib : Library) (raw kind id : Bytes) (t : Tables) : Type 0 where
  pub row : TokenRow
  pub by_value : find_if (redeems lib raw) t.tokens ≡ some row
  pub of_kind : row.resource_type ≡ kind
  pub of_resource : row.resource_id ≡ id
  pub never_expires : row.expires_at ≡ none
  pub not_revoked : row.revoked_at ≡ none
  pub not_blank : eq_bytes raw [] ≡ false

-- No stored hash is that of `raw`, so no row is redeemed by it.
nothing_redeems :
    (lib : Library) (raw : Bytes) (ks : List TokenRow)
    → is_some (find_if (has_hash (lib.hash raw)) ks) ≡ false
    → is_some (find_if (redeems lib raw) ks) ≡ false
nothing_redeems lib raw [] h = refl
nothing_redeems lib raw (k ∷ ks) h = ground (
  arith,
  nothing_redeems lib raw ks,
  eq_bytes_iff k.token_hash (lib.hash raw),
  compare_token_hash_iff lib.hash raw k.token_hash,
)

insert_tokens-Redeemable :
    (lib : Library) (raw kind id : Bytes) (now : ℕ) (t : Tables) (n : ℕ)
    → eq_bytes raw [] ≡ false
    → (insert_tokens (lib.hash raw) (token_prefix raw) kind id none now t).0 ≡ done n
    → Redeemable lib raw kind id
        (insert_tokens (lib.hash raw) (token_prefix raw) kind id none now t).1
unfolding insert_tokens
insert_tokens-Redeemable lib raw kind id now t n b e =
    elim (Bool-cases (is_some (find_if (has_hash (lib.hash raw)) t.tokens))) [
      | inl taken ↦ absurd (ground arith)
      | inr free ↦
          let row =
            new_token (t.last_token + 1) now (lib.hash raw) (token_prefix raw) kind id none in
          rw free (record {
            row = row;
            by_value =
                find_last (redeems lib raw) t.tokens row (nothing_redeems lib raw t.tokens free) (
                  ground (
                    arith,
                    eq_bytes_refl (token_prefix raw),
                    compare_token_hash_iff lib.hash raw (lib.hash raw),
                  ));
            of_kind = refl;
            of_resource = refl;
            never_expires = refl;
            not_revoked = refl;
            not_blank = b;
          })
    ]

drawn-not_blank :
    (s : Db) (r : RandomResult) (raw : Bytes)
    → (drawn (prefixed r) s).0 ≡ ok raw
    → eq_bytes raw [] ≡ false
unfolding eq_bytes
drawn-not_blank s (RandomResult.ok body rest) raw h =
    let same : codes "tok_" ++ body ≡ raw = cc in rw (← same) refl
drawn-not_blank s (RandomResult.size_out_of_range) raw h = absurd (cc)
drawn-not_blank s RandomResult.read_failed raw h = absurd (cc)
drawn-not_blank s RandomResult.out_of_fuel raw h = absurd (cc)

-- A created token can be redeemed for its resource.
pub create_resource_token-Redeemable :
    (lib : Library) (kind id : Bytes)
    → Runs
        (λ _. Unit {0})
        (create_resource_token lib kind id none)
        (λ q. Redeemable lib q.0 kind id)
unfolding create_resource_token generate_token
create_resource_token-Redeemable lib kind id =
    let Q : Bytes × ApiToken → Tables → Type 0 = λ q. Redeemable lib q.0 kind id in
    Runs-bind (λ _. Unit) (λ raw _. eq_bytes raw [] ≡ false) Q draw_token _
      (λ s raw h e. drawn-not_blank s (random_string token_alphabet token_length s.random) raw e)
      λ raw.
        let R = Redeemable lib raw kind id in
        let B : Tables → Type 0 = λ _. eq_bytes raw [] ≡ false in
        Runs-bind B (λ _. R) Q (exec _) _
          (Runs-exec B (λ _. R) _
            (λ now t n h e. insert_tokens-Redeemable lib raw kind id now t n h e))
          λ n.
            Runs-bind R (λ _. R) Q (attempt wrapped) _ (Runs-attempt R wrapped)
              λ _.
                Runs-bind R (λ _. R) Q (get_token_by_id n) _
                  (λ s token h e. get_token_by_id-Keeps R n s h)
                  λ token. Runs-pure R Q (raw, token) (λ t h. h)

if_pair :
    {A : Type 0} {s : Db} (b : Bool) (x y : Result A)
    → ◌≡◌ {A = Result A × Db} (if b then (x, s) else (y, s)) (if b then x else y, s)
if_pair true x y = refl
if_pair false x y = refl

module _ (lib : Library) (raw : Bytes) (s : Db) where
  abbrev verdict : TokenRow → Result ApiToken
  verdict k = if not (is_active s.now (scan_token k)) then err not_found else ok (scan_token k)

  -- The loop over the rows of the prefix decides by the first row that `raw` redeems.
  pub match_token-found :
      (ks : List TokenRow) (k : TokenRow)
      → find_if (redeems lib raw) ks ≡ some k
      → match_token lib raw (keep_if (has_prefix_of (token_prefix raw)) ks) s ≡ (verdict k, s)
  unfolding match_token scan_token
  match_token-found [] k h = absurd (cc)
  match_token-found (x ∷ ks) k h = elim (Bool-cases (has_prefix_of (token_prefix raw) x)) [
    | inr other ↦ rw other (match_token-found ks k (ground arith))
    | inl same ↦ rw same (elim (Bool-cases (compare_token_hash lib.hash raw x.token_hash)) [
      | inr differs ↦ rw differs (match_token-found ks k (ground arith))
      | inl matches ↦
          let first : x ≡ k = ground arith in
          rw matches (rw (← first) (if_pair (not (is_active s.now (scan_token x))) _ _))
    ])
  ]

  match_token-none :
      (ks : List TokenRow) (tok : ApiToken)
      → find_if (redeems lib raw) ks ≡ none
      → ¬ ((match_token lib raw (keep_if (has_prefix_of (token_prefix raw)) ks) s).0 ≡ ok tok)
  unfolding match_token scan_token
  match_token-none [] tok h e =
      let (a, p, q, r) = >>=-ok (attempt wrapped) (λ _. raise {A = ApiToken} not_found) s tok e in
      absurd (cc)
  match_token-none (x ∷ ks) tok h e = elim (Bool-cases (has_prefix_of (token_prefix raw) x)) [
    | inr other ↦ match_token-none ks tok (ground arith) (rw other at e)
    | inl same ↦ elim (Bool-cases (compare_token_hash lib.hash raw x.token_hash)) [
      | inr differs ↦ match_token-none ks tok (ground arith) (rw differs at (rw same at e))
      | inl matches ↦ absurd (ground arith)
    ]
  ]

  verdict-ok :
      (k : TokenRow) (tok : ApiToken)
      → verdict k ≡ ok tok
      → (tok ≡ scan_token k) × (is_active s.now tok ≡ true)
  verdict-ok k tok h = elim (Bool-cases (is_active s.now (scan_token k))) [
    | inl live ↦ let same : tok ≡ scan_token k = ground arith in (same, rw same live)
    | inr dead ↦ absurd (ground arith)
  ]

  -- A token that the loop returns is that of the first row, and is active.
  match_token_sound :
      (ks : List TokenRow) (tok : ApiToken)
      → (match_token lib raw (keep_if (has_prefix_of (token_prefix raw)) ks) s).0 ≡ ok tok
      → (k : TokenRow) × (find_if (redeems lib raw) ks ≡ some k)
        × (tok ≡ scan_token k)
        × (is_active s.now tok ≡ true)
  match_token_sound ks tok h = elim (Option-cases (find_if (redeems lib raw) ks)) [
    | inl missing ↦ absurd (match_token-none ks tok missing h)
    | inr (k, found) ↦
        let (same, live) =
          verdict-ok k tok (sym (ap (λ q. q.0) (match_token-found ks k found)) ∙ h) in
        (k, found, same, live)
  ]

-- Whatever fails: a lookup that succeeds returned the scan of the first row whose prefix and hash are
-- those of `raw`, and that token is active at the state's clock.
pub lookup_token_by_raw_sound :
    (lib : Library) (raw : Bytes) (s : Db) (tok : ApiToken)
    → (lookup_token_by_raw lib raw s).0 ≡ ok tok
    → (k : TokenRow) × (find_if (redeems lib raw) s.tables.tokens ≡ some k)
      × (tok ≡ scan_token k)
      × (is_active s.now tok ≡ true)
unfolding lookup_token_by_raw select_by_prefix
lookup_token_by_raw_sound lib raw s tok h =
    let prefix = token_prefix raw in
    let (rows, ran, rest, _) =
      >>=-ok (exec (select_by_prefix prefix)) (match_token lib raw) s tok h in
    let (got, same, clock) = exec-ok (select_by_prefix prefix) s rows ran in
    let kept : rows ≡ keep_if (has_prefix_of prefix) s.tables.tokens = cc in
    let s' = (exec (select_by_prefix prefix) s).1 in
    let (k, found, scanned, live) =
      match_token_sound lib raw s' s.tables.tokens tok
        (subst (λ ks. (match_token lib raw ks s').0 ≡ ok tok) kept rest) in
    (k, found, scanned, rw (← clock) live)

verdict_live :
    (lib : Library) (raw : Bytes) (s : Db) (k : TokenRow)
    → is_active s.now (scan_token k) ≡ true
    → verdict lib raw s k ≡ ok (scan_token k)
verdict_live lib raw s k h = rw h refl

live_row :
    (now : Time) (k : TokenRow)
    → k.revoked_at ≡ none
    → k.expires_at ≡ none
    → is_active now (scan_token k) ≡ true
unfolding is_active scan_token
live_row now k h e = rw (h, e)

-- With no fault to come, the lookup of a redeemable token succeeds.
pub lookup_token_by_raw-Redeemable :
    (lib : Library) (raw kind id : Bytes) (s : Db)
    → s.schedule ≡ []
    → (h : Redeemable lib raw kind id s.tables)
    → ((lookup_token_by_raw lib raw s).0 ≡ ok (scan_token h.row))
      × ((lookup_token_by_raw lib raw s).1.schedule ≡ [])
unfolding lookup_token_by_raw select_by_prefix
lookup_token_by_raw-Redeemable lib raw kind id s calm h =
    let run = select_by_prefix (token_prefix raw) in
    let (ran, same, clock, still) = exec_calm run s calm in
    let s' = (exec run s).1 in
    let found = match_token-found lib raw s' s.tables.tokens h.row h.by_value in
    let whole = >>=_run (exec run) (match_token lib raw) s _ ran ∙ found in
    (
      ap (λ q. q.0) whole
          ∙ verdict_live lib raw s' h.row (live_row s'.now h.row h.not_revoked h.never_expires),
      ap (λ (q : Result ApiToken × Db). q.1.schedule) whole ∙ still,
    )
