-- ===== src/Db/Exec/Runs.antt =====
-- What holds of the tables after an action that succeeded.
use shortner.Shared.{ℕ, ◌/◌, ◌≡◌, refl}
use shortner.Db.Exec.{
  Fault, DbError, Tables, Db, Result, ok, err, M, pure, ◌>>=◌, continue, handle, rescue, attempt,
  outcome, next_fault, answer, Answer, done, failed, Statement, execute, exec,
}
use shortner.Db.Exec.Keeps.{Keeps}
use shortner.Db.Exec.Atomic.{begun}

abbrev pub Runs : {A : Type 0} → (Tables → Type 0) → M A → (A → Tables → Type 0) → Type 0
Runs {A} P m Q = (s : Db) (a : A) → P s.tables → (m s).0 ≡ ok a → Q a (m s).1.tables

module _ {A : Type 0} (P : Tables → Type 0) (Q : A → Tables → Type 0) where
  pub Runs-pure : (a : A) → ((t : Tables) → P t → Q a t) → Runs P (pure a) Q
  Runs-pure a k s b h e = let same : a ≡ b = cc in rw same at (k s.tables h)

  Runs-answer :
      (r : Answer A) (t : Tables)
      → ((a : A) → r ≡ done a → Q a t)
      → (a : A) → answer r ≡ ok a
      → Q a t
  Runs-answer (done b) t k a e = k a cc
  Runs-answer (failed x) t k a e = absurd (cc)

  Runs-execute :
      (run : Statement A) (o : Result (Unit {0})) (s : Db)
      → ((now : ℕ) (t : Tables) (a : A) → P t → (run now t).0 ≡ done a → Q a (run now t).1)
      → (a : A) → P s.tables
      → (continue o (λ _. execute run) s).0 ≡ ok a
      → Q a (continue o (λ _. execute run) s).1.tables
  Runs-execute run (ok tt) s k a h e =
      Runs-answer (run (s.now / 1_000_000_000) s.tables).0 _ (λ b. k _ s.tables b h) a e
  Runs-execute run (err x) s k a h e = absurd (cc)

  pub Runs-exec :
      (run : Statement A)
      → ((now : ℕ) (t : Tables) (a : A) → P t → (run now t).0 ≡ done a → Q a (run now t).1)
      → Runs P (exec run) Q
  unfolding exec attempt
  Runs-exec run k s a h e = Runs-execute run (outcome _ (next_fault s.schedule)) (begun s) k a h e

module _ {A B : Type 0} (P : Tables → Type 0) (R : A → Tables → Type 0)
    (Q : B → Tables → Type 0) where
  Runs-continue :
      (r : Result A) (f : A → M B) (s : Db)
      → ((a : A) → r ≡ ok a → R a s.tables)
      → ((a : A) → Runs (R a) (f a) Q)
      → (b : B) → (continue r f s).0 ≡ ok b
      → Q b (continue r f s).1.tables
  Runs-continue (ok a) f s k kf b e = kf a s b (k a refl) e
  Runs-continue (err x) f s k kf b e = absurd (cc)

  pub Runs-bind :
      (m : M A) (f : A → M B) → Runs P m R → ((a : A) → Runs (R a) (f a) Q) → Runs P (m >>= f) Q
  Runs-bind m f km kf s b h e = Runs-continue (m s).0 f (m s).1 (λ a. km s a h) kf b e

-- A call of the driver that succeeds changes no table.
pub Runs-attempt : (P : Tables → Type 0) (wrap : Fault → DbError) → Runs P (attempt wrap) (λ _. P)
unfolding attempt
Runs-attempt P wrap s a h e = h

-- A step of a block: from `P` to `Q` by one statement, and to `R` by the rest.
module _ {A B : Type 0} (P Q R : Tables → Type 0) where
  pub Runs-step :
      (run : Statement A) (f : A → M B)
      → ((now : ℕ) (t : Tables) (a : A) → P t → (run now t).0 ≡ done a → Q (run now t).1)
      → ((a : A) → Runs Q (f a) (λ _. R))
      → Runs P (exec run >>= f) (λ _. R)
  Runs-step run f k kf = Runs-bind P (λ _. Q) (λ _. R) (exec run) f (Runs-exec P (λ _. Q) run k) kf

-- Where the first action fails, what it kept is where the handler starts.
module _ {A : Type 0} (P : Tables → Type 0) (Q : A → Tables → Type 0) where
  Runs-handle :
      (r : Result A) (f : DbError → M A) (s : Db)
      → ((a : A) → r ≡ ok a → Q a s.tables)
      → P s.tables
      → ((e : DbError) → Runs P (f e) Q)
      → (a : A) → (handle r f s).0 ≡ ok a
      → Q a (handle r f s).1.tables
  Runs-handle (ok b) f s k p kf a h = k a h
  Runs-handle (err e) f s k p kf a h = kf e s a p h

  pub Runs-rescue :
      (m : M A) (f : DbError → M A)
      → Runs P m Q
      → Keeps P m
      → ((e : DbError) → Runs P (f e) Q)
      → Runs P (rescue m f) Q
  Runs-rescue m f km keep kf s a h e =
      Runs-handle (m s).0 f (m s).1 (λ b. km s b h) (keep s h) kf a e
