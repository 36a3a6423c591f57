-- ===== src/Db/Secrets/Stable.antt =====
-- A secret that was made stays (src/db/secret.go).
use shortner.Shared.{
  ℕ, ◌≡◌, refl, sym, ◌∙◌, Option, none, some, Bytes, get, put, get-put, eq_bytes_refl, Option-cases,
  inl, inr,
}
use shortner.Library.{Library}
use shortner.Db.Rows.{SecretRow}
use shortner.Db.Exec.{
  Fault, deadline_exceeded, canceled, busy, broken, Tables, Db, Result, ok, handle_query_error,
  next_fault, attempt, exec,
}
use shortner.Db.Exec.Runs.{Runs, Runs-exec, Runs-bind, Runs-pure}
use shortner.Db.Secrets.{
  get_secret, upsert_secret, set_secret, new_secret, generate_secret, create_secret, ensure_secret,
}

-- The tables hold the value under the name.
abbrev pub Holds : Bytes → Bytes → Tables → Type 0
Holds name value t = (row : SecretRow) × (get name t.secrets ≡ some row) × (row.value ≡ value)

-- An answer other than a failure is the value, and the tables are as before.
abbrev pub Gives : Bytes → Tables → Result Bytes × Db → Type 0
Gives value t q = ((w : Bytes) → q.0 ≡ ok w → w ≡ value) × (q.1.tables ≡ t)

new_secret_value :
    (now : ℕ) (value : Bytes) (o : Option SecretRow) → (new_secret now value o).value ≡ value
new_secret_value now value none = refl
new_secret_value now value (some row) = refl

module _ (lib : Library) (name : Bytes) where
  ensure_secret_holding :
      (value : Bytes) (s : Db)
      → Holds name value s.tables
      → Gives value s.tables (ensure_secret lib name s)
  unfolding ensure_secret get_secret exec attempt handle_query_error
  ensure_secret_holding value s (row, there, is) = by_fault (next_fault s.schedule) refl
    where
      by_fault :
          (f : Option Fault)
          → next_fault s.schedule ≡ f
          → Gives value s.tables (ensure_secret lib name s)
      by_fault none calm =
          rw (calm, there) ((λ w e. let same : row.value ≡ w = cc in sym same ∙ is), refl)
      by_fault (some deadline_exceeded) f = rw f ((λ w e. absurd (cc)), refl)
      by_fault (some canceled) f = rw f ((λ w e. absurd (cc)), refl)
      by_fault (some busy) f = rw f ((λ w e. absurd (cc)), refl)
      by_fault (some broken) f = rw f ((λ w e. absurd (cc)), refl)

  abbrev Anything : Tables → Type 0
  Anything t = Unit

  upsert_secret-Holds :
      (value : Bytes) (now : ℕ) (t : Tables) → Holds name value (upsert_secret name value now t).1
  upsert_secret-Holds value now t =
      let row = new_secret now value (get name t.secrets) in
      let there : get name (put name row t.secrets) ≡ some row =
        rw (get-put name name row t.secrets, eq_bytes_refl name) refl in
      (row, there, new_secret_value now value (get name t.secrets))

  generate_secret-Runs : (n : ℕ) → Runs Anything (generate_secret n) (λ a t. Unit)
  generate_secret-Runs n s a h e = tt

  -- A secret that is made is stored.
  create_secret-Runs : Runs Anything (create_secret lib name) (λ value. Holds name value)
  unfolding create_secret set_secret
  create_secret-Runs =
      Runs-bind Anything (λ a t. Unit) (λ value. Holds name value) (generate_secret 32) _
        (generate_secret-Runs 32)
        (λ raw.
          Runs-bind (λ t. Unit) (λ u. Holds name (lib.base64 raw)) (λ value. Holds name value)
            (exec (upsert_secret name (lib.base64 raw))) _
            (Runs-exec (λ t. Unit) (λ u. Holds name (lib.base64 raw))
              (upsert_secret name (lib.base64 raw))
              (λ now t u h e. upsert_secret-Holds (lib.base64 raw) now t))
            (λ u.
              Runs-pure (Holds name (lib.base64 raw)) (λ value. Holds name value) (lib.base64 raw)
                (λ t h. h)))

  ensure_secret_missing :
      (value : Bytes) (s : Db)
      → get name s.tables.secrets ≡ none
      → (ensure_secret lib name s).0 ≡ ok value
      → Holds name value (ensure_secret lib name s).1.tables
  unfolding ensure_secret get_secret exec attempt handle_query_error
  ensure_secret_missing value s missing = by_fault (next_fault s.schedule) refl
    where
      by_fault :
          (f : Option Fault)
          → next_fault s.schedule ≡ f
          → (ensure_secret lib name s).0 ≡ ok value
          → Holds name value (ensure_secret lib name s).1.tables
      by_fault none calm = rw (calm, missing) (λ e. create_secret-Runs _ value tt e)
      by_fault (some deadline_exceeded) f = rw f (λ e. absurd (cc))
      by_fault (some canceled) f = rw f (λ e. absurd (cc))
      by_fault (some busy) f = rw f (λ e. absurd (cc))
      by_fault (some broken) f = rw f (λ e. absurd (cc))

  ensure_secret-Holds :
      (value : Bytes) (s : Db)
      → (ensure_secret lib name s).0 ≡ ok value
      → Holds name value (ensure_secret lib name s).1.tables
  ensure_secret-Holds value s e = elim (Option-cases (get name s.tables.secrets)) [
    | inl missing ↦ ensure_secret_missing value s missing e
    | inr (row, there) ↦
        let (same, kept) = ensure_secret_holding row.value s (row, there, refl) in
        rw kept (row, there, sym (same value e))
  ]

  -- Once `EnsureSecret` has returned a secret, every later call for its name that returns one returns
  -- the same and leaves the tables as they are, and so does one that fails, whatever fails, whatever
  -- random bytes there are, and whatever else the tables hold by then, secrets of other names included,
  -- as long as the row of the name is the one that the first call left.
  pub ensure_secret_stable :
      (value : Bytes) (s after : Db)
      → (ensure_secret lib name s).0 ≡ ok value
      → get name after.tables.secrets ≡ get name (ensure_secret lib name s).1.tables.secrets
      → Gives value after.tables (ensure_secret lib name after)
  ensure_secret_stable value s after e same =
      let (row, there, is) = ensure_secret-Holds value s e in
      ensure_secret_holding value after (row, same ∙ there, is)
