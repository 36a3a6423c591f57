-- ===== src/Db/Exec.antt =====
-- Statements, transactions and errors of src/db/db.go.
--
-- SQLite runs the statements one at a time. Whether one fails (a timeout, a cancelled request, a
-- busy or broken file) is decided by a schedule that the environment fixes: each call of the driver
-- takes its next entry, and no entry left means that nothing fails any more. A failed statement
-- changes nothing, and a rollback restores the tables that the transaction began with.
pub mod Keeps
pub mod Runs
pub mod Inverse
pub mod Atomic
pub mod Succeeds
pub mod Calm
use shortner.Shared.{ℕ, Bool, true, false, Option, none, some, List, [], ◌∷◌, Bytes}
use shortner.Db.Rows.{Time, LinkRow, ClickRow, TokenRow, SecretRow, TaskRow, HistoryRow, unix}

pub data Fault : Type 0 where
  deadline_exceeded canceled busy broken : Fault

-- What the driver reports.
pub data DriverError : Type 0 where
  fault : Fault → DriverError
  no_rows unique_failed foreign_key_failed : DriverError

-- What package db returns: the sentinels, the three texts of `HandleQueryError`, the errors that are
-- wrapped with a "db: ..." text only, and those of the functions that it calls.
pub data DbError : Type 0 where
  not_found slug_taken : DbError
  timeout canceled_request : DbError
  server_error : DriverError → DbError
  wrapped : Fault → DbError
  attempts_exhausted random_failed : DbError

unfoldable pub handle_query_error : DriverError → DbError
handle_query_error (fault deadline_exceeded) = timeout
handle_query_error no_rows = not_found
handle_query_error (fault canceled) = canceled_request
handle_query_error e = server_error e

-- The text of a `SERVER_ERROR` ends in that of the driver's error.
unfoldable pub is_unique_constraint_error : DbError → Bool
is_unique_constraint_error (server_error unique_failed) = true
is_unique_constraint_error _ = false

pub record Tables : Type 0 where
  pub links : List LinkRow
  pub clicks : List ClickRow
  pub tokens : List TokenRow
  -- AUTOINCREMENT: the largest ids ever given, which a rollback takes back.
  pub last_link : ℕ
  pub last_click : ℕ
  pub last_token : ℕ
  -- app_secrets, by name.
  pub secrets : List (Bytes × SecretRow)
  -- scheduler_tasks, by id, and scheduler_history with its largest id.
  pub tasks : List (Bytes × TaskRow)
  pub history : List HistoryRow
  pub last_history : ℕ

-- The process as package db sees it: the tables, the schedule of faults, the clock and the random
-- bytes to come.
pub record Db : Type 0 where
  pub tables : Tables
  pub schedule : List (Option Fault)
  pub now : Time
  pub random : Bytes

pub data Result {ℓ} (A : Type ℓ) : Type ℓ where
  ok : A → Result A
  err : DbError → Result A

abbrev pub M : Type 0 → Type 0
M A = Db → Result A × Db

module _ {A : Type 0} where
  abbrev pub pure : A → M A
  pure a s = (ok a, s)

  abbrev pub raise : DbError → M A
  raise e s = (err e, s)

module _ {A B : Type 0} where
  abbrev pub continue : Result A → (A → M B) → M B
  continue (ok a) f s = f a s
  continue (err e) f s = (err e, s)

  infixl 5 ◌>>=◌ ◌>>◌
  abbrev pub ◌>>=◌ : M A → (A → M B) → M B
  ◌>>=◌ m f s = continue (m s).0 f (m s).1

  abbrev pub ◌>>◌ : M A → M B → M B
  m >> n = m >>= λ _. n

module _ {A : Type 0} where
  abbrev pub handle : Result A → (DbError → M A) → M A
  handle (ok a) f s = (ok a, s)
  handle (err e) f s = f e s

  -- `if err != nil { ... }` that goes on.
  abbrev pub rescue : M A → (DbError → M A) → M A
  rescue m f s = handle (m s).0 f (m s).1

-- The next entry of the schedule.
abbrev pub next_fault : List (Option Fault) → Option Fault
next_fault [] = none
next_fault (f ∷ fs) = f

abbrev pub later_faults : List (Option Fault) → List (Option Fault)
later_faults [] = []
later_faults (f ∷ fs) = fs

abbrev pub outcome : (Fault → DbError) → Option Fault → Result (Unit {0})
outcome wrap none = ok tt
outcome wrap (some f) = err (wrap f)

-- One call of the driver.
unfoldable pub attempt : (Fault → DbError) → M (Unit {0})
attempt wrap s =
    (outcome wrap (next_fault s.schedule), record s { schedule = later_faults s.schedule })

pub data Answer (A : Type 0) : Type 0 where
  done : A → Answer A
  failed : DriverError → Answer A

abbrev pub answer : {A : Type 0} → Answer A → Result A
answer (done a) = ok a
answer (failed e) = err (handle_query_error e)

-- A statement: what it answers and the tables it leaves, at the clock's second.
abbrev pub Statement : Type 0 → Type 0
Statement A = ℕ → Tables → Answer A × Tables

abbrev pub execute : {A : Type 0} → Statement A → M A
execute run s =
    (answer (run (unix s.now) s.tables).0, record s { tables = (run (unix s.now) s.tables).1 })

-- A statement whose errors pass through `HandleQueryError`.
unfoldable pub exec : {A : Type 0} → Statement A → M A
unfolding attempt handle_query_error
exec run = do attempt (λ f. handle_query_error (fault f)); execute run

module _ {A : Type 0} where
  -- A failed transaction leaves the tables as they were at its beginning.
  abbrev pub roll_back : Tables → Result A → Db → Result A × Db
  roll_back before (ok a) s = (ok a, s)
  roll_back before (err e) s = (err e, record s { tables = before })

  abbrev pub commit : A → M A
  commit a = do attempt wrapped; pure a

  -- `WithTransaction`
  unfoldable pub with_transaction : M A → M A
  unfolding attempt
  with_transaction fn = do
    attempt wrapped
    λ s. let r = (fn >>= commit) s in roll_back s.tables r.0 r.1
