-- ===== src/Db/Exec/Atomic.antt =====
-- What a transaction leaves behind.
use shortner.Shared.{◌≡◌, refl, sym, ap, Option, none, some}
use shortner.Db.Exec.{
  Fault, wrapped, Tables, Db, Result, ok, err, M, pure, ◌>>=◌, continue, attempt, commit, roll_back,
  outcome, next_fault, later_faults, with_transaction,
}

-- The state in which the body of a transaction starts: `BeginTx` was one call of the driver.
abbrev pub begun : Db → Db
begun s = record s { schedule = later_faults s.schedule }

module _ {A : Type 0} where
  -- A transaction failed and left the tables alone, or its body succeeded and its tables were kept.
  abbrev pub Ended : M A → Db → Result A → Tables → Type 0
  Ended fn s (err e) after = after ≡ s.tables
  Ended fn s (ok a) after = ((fn (begun s)).0 ≡ ok a) × (after ≡ (fn (begun s)).1.tables)

  Ended-commit :
      (fn : M A) (s : Db) (a : A) (u : Db) (o : Option Fault)
      → fn (begun s) ≡ (ok a, u)
      → let q = continue (outcome wrapped o) (λ _. pure a) (begun u) in
        let e = roll_back s.tables q.0 q.1 in Ended fn s e.0 e.1.tables
  Ended-commit fn s a u none h =
      (ap (λ (q : Result A × Db). q.0) h, ap (λ (q : Result A × Db). q.1.tables) (sym h))
  Ended-commit fn s a u (some f) h = refl

  Ended-close :
      (fn : M A) (s : Db) (r : Result A) (u : Db)
      → fn (begun s) ≡ (r, u)
      → let q = continue r commit u in
        let e = roll_back s.tables q.0 q.1 in Ended fn s e.0 e.1.tables
  unfolding attempt
  Ended-close fn s (err e) u h = refl
  Ended-close fn s (ok a) u h = Ended-commit fn s a u (next_fault u.schedule) h

  Ended-begin :
      (fn : M A) (s : Db) (o : Option Fault)
      → let body = λ (t : Db). let r = (fn >>= commit) t in roll_back t.tables r.0 r.1 in
        let e = continue (outcome wrapped o) (λ _. body) (begun s) in Ended fn s e.0 e.1.tables
  Ended-begin fn s none = Ended-close fn s (fn (begun s)).0 (fn (begun s)).1 refl
  Ended-begin fn s (some f) = refl

  -- Whatever the body and wherever it fails: a transaction that fails leaves the tables as they were
  -- before it; one that succeeds has its body's value, and leaves the tables that its body left.
  pub with_transaction-Ended :
      (fn : M A) (s : Db) → Ended fn s (with_transaction fn s).0 (with_transaction fn s).1.tables
  unfolding with_transaction attempt
  with_transaction-Ended fn s = Ended-begin fn s (next_fault s.schedule)
