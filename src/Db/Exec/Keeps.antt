-- ===== src/Db/Exec/Keeps.antt =====
-- Properties of the tables that an action keeps, whatever it returns: a rule for each way to build
-- an action.
use shortner.Shared.{ℕ, ◌/◌, ◌≡◌, Bool, true, false, if◌then◌else◌}
use shortner.Db.Exec.{
  Fault, DbError, Tables, Db, Result, ok, err, M, pure, raise, ◌>>=◌, continue, handle, rescue,
  attempt, outcome, next_fault, Statement, execute, exec, with_transaction,
}
use shortner.Db.Exec.Atomic.{begun, Ended, with_transaction-Ended}

module _ (P : Tables → Type 0) where
  abbrev pub Keeps : {A : Type 0} → M A → Type 0
  Keeps m = (s : Db) → P s.tables → P (m s).1.tables

  -- A statement that keeps the property, run with no fault.
  abbrev pub KeepsS : {A : Type 0} → Statement A → Type 0
  KeepsS run = (now : ℕ) (t : Tables) → P t → P (run now t).1

  module _ {A : Type 0} where
    pub Keeps-pure : (a : A) → Keeps (pure a)
    Keeps-pure a s h = h

  pub Keeps-raise : (A : Type 0) (e : DbError) → Keeps (raise {A = A} e)
  Keeps-raise A e s h = h

  pub Keeps-attempt : (wrap : Fault → DbError) → Keeps (attempt wrap)
  unfolding attempt
  Keeps-attempt wrap s h = h

  module _ {A B : Type 0} where
    Keeps-continue : (r : Result A) (f : A → M B) → ((a : A) → Keeps (f a)) → Keeps (continue r f)
    Keeps-continue (ok a) f k s h = k a s h
    Keeps-continue (err e) f k s h = h

    pub Keeps-bind : (m : M A) (f : A → M B) → Keeps m → ((a : A) → Keeps (f a)) → Keeps (m >>= f)
    Keeps-bind m f km kf s h = Keeps-continue (m s).0 f kf (m s).1 (km s h)

  module _ {A : Type 0} where
    Keeps-handle :
        (r : Result A) (f : DbError → M A) → ((e : DbError) → Keeps (f e)) → Keeps (handle r f)
    Keeps-handle (ok a) f k s h = h
    Keeps-handle (err e) f k s h = k e s h

    pub Keeps-rescue :
        (m : M A) (f : DbError → M A) → Keeps m → ((e : DbError) → Keeps (f e)) → Keeps (rescue m f)
    Keeps-rescue m f km kf s h = Keeps-handle (m s).0 f kf (m s).1 (km s h)

    pub Keeps-if : (b : Bool) (m n : M A) → Keeps m → Keeps n → Keeps (if b then m else n)
    Keeps-if true m n km kn = km
    Keeps-if false m n km kn = kn

    pub Keeps-exec : (run : Statement A) → KeepsS run → Keeps (exec run)
    unfolding exec attempt
    Keeps-exec run k s h =
        Keeps-continue (outcome _ (next_fault s.schedule)) (λ _. execute run)
          (λ _ t. k (t.now / 1_000_000_000) t.tables) (begun s) h

    Ended-keeps :
        (fn : M A) (s : Db) (r : Result A) (after : Tables)
        → ((a : A) → (fn (begun s)).0 ≡ ok a → P (fn (begun s)).1.tables)
        → P s.tables
        → Ended fn s r after
        → P after
    Ended-keeps fn s (err e) after k h ended = rw ended h
    Ended-keeps fn s (ok a) after k h (e, ended) = rw ended (k a e)

    -- The body may break the property on the way, and where it fails.
    pub Keeps-transaction :
        (fn : M A)
        → ((s : Db) (a : A) → P s.tables → (fn s).0 ≡ ok a → P (fn s).1.tables)
        → Keeps (with_transaction fn)
    Keeps-transaction fn k s h =
        Ended-keeps fn s (with_transaction fn s).0 _ (λ a. k (begun s) a h) h
          (with_transaction-Ended fn s)
