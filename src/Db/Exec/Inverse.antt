-- ===== src/Db/Exec/Inverse.antt =====
-- What a successful action did: inversions of bind, of a statement, and of a call of the driver.
use shortner.Shared.{◌≡◌, refl, []}
use shortner.Db.Rows.{unix}
use shortner.Db.Exec.{
  Fault, DbError, Db, Result, ok, err, M, ◌>>=◌, continue, attempt, outcome, next_fault, answer,
  Answer, done, failed, Statement, execute, exec,
}
use shortner.Db.Exec.Atomic.{begun}

-- The first action's value, its state, and that the rest went on from them.
module _ {A B : Type 0} where
  continue-ok :
      (r : Result A) (f : A → M B) (s : Db) (b : B)
      → (continue r f s).0 ≡ ok b
      → (a : A) × (r ≡ ok a) × ((f a s).0 ≡ ok b) × ((continue r f s).1 ≡ (f a s).1)
  continue-ok (ok a) f s b h = (a, refl, h, refl)
  continue-ok (err e) f s b h = absurd (cc)

  pub >>=-ok :
      (m : M A) (f : A → M B) (s : Db) (b : B)
      → ((m >>= f) s).0 ≡ ok b
      → (a : A) × ((m s).0 ≡ ok a) × ((f a (m s).1).0 ≡ ok b) × (((m >>= f) s).1 ≡ (f a (m s).1).1)
  >>=-ok m f s b h = continue-ok (m s).0 f (m s).1 b h

module _ {A : Type 0} where
  answer-ok : (r : Answer A) (a : A) → answer r ≡ ok a → r ≡ done a
  answer-ok (done b) a h = cc
  answer-ok (failed e) a h = absurd (cc)

  -- A statement that succeeded ran, on the tables and at the clock of the state.
  pub exec-ok :
      (run : Statement A) (s : Db) (a : A)
      → (exec run s).0 ≡ ok a
      → ((run (unix s.now) s.tables).0 ≡ done a)
        × ((exec run s).1.tables ≡ (run (unix s.now) s.tables).1)
        × ((exec run s).1.now ≡ s.now)
  unfolding exec attempt
  exec-ok run s a h = go (outcome _ (next_fault s.schedule)) h
    where
      go :
          (o : Result (Unit {0}))
          → (continue o (λ _. execute run) (begun s)).0 ≡ ok a
          → ((run (unix s.now) s.tables).0 ≡ done a)
            × ((continue o (λ _. execute run) (begun s)).1.tables ≡ (run (unix s.now) s.tables).1)
            × ((continue o (λ _. execute run) (begun s)).1.now ≡ s.now)
      go (ok tt) e = (answer-ok _ a e, refl, refl)
      go (err x) e = absurd (cc)

  -- With no fault left in the schedule a statement answers for itself, and leaves none.
  pub exec_calm :
      (run : Statement A) (s : Db)
      → s.schedule ≡ []
      → ((exec run s).0 ≡ answer (run (unix s.now) s.tables).0)
        × ((exec run s).1.tables ≡ (run (unix s.now) s.tables).1)
        × ((exec run s).1.now ≡ s.now)
        × ((exec run s).1.schedule ≡ [])
  unfolding exec attempt
  exec_calm run s h = (rw h, rw h, rw h, rw h)

pub attempt_state :
    (wrap : Fault → DbError) (s : Db)
    → ((attempt wrap s).1.tables ≡ s.tables) × ((attempt wrap s).1.now ≡ s.now)
unfolding attempt
attempt_state wrap s = (refl, refl)

-- Forwards: an action that succeeds goes on to the next.
module _ {A B : Type 0} where
  continue_run : (r : Result A) (f : A → M B) (s : Db) (a : A) → r ≡ ok a → continue r f s ≡ f a s
  continue_run r f s a h = rw h refl

  pub >>=_run :
      (m : M A) (f : A → M B) (s : Db) (a : A) → (m s).0 ≡ ok a → (m >>= f) s ≡ f a (m s).1
  >>=_run m f s a h = continue_run (m s).0 f (m s).1 a h
