-- ===== src/Db/Exec/Calm.antt =====
-- Where no call of the driver fails, none fails later: the schedule of failures stays empty.
use shortner.Shared.{◌≡◌, Bool, true, false, [], if◌then◌else◌}
use shortner.Db.Exec.{
  Fault, DbError, Db, Result, ok, err, M, pure, raise, ◌>>=◌, continue, attempt, wrapped, Statement,
  exec, commit, roll_back, with_transaction, Tables,
}
use shortner.Db.Exec.Inverse.{exec_calm}

abbrev pub Calm : {A : Type 0} → M A → Type 0
Calm m = (s : Db) → s.schedule ≡ [] → (m s).1.schedule ≡ []

module _ {A : Type 0} where
  pub Calm-exec : (run : Statement A) → Calm (exec run)
  Calm-exec run s calm = let (ran, same, clock, still) = exec_calm run s calm in still

  Calm-roll_back :
      (before : Tables) (r : Result A) (s : Db)
      → s.schedule ≡ []
      → (roll_back before r s).1.schedule ≡ []
  Calm-roll_back before (ok a) s calm = calm
  Calm-roll_back before (err e) s calm = calm

module _ {A B : Type 0} where
  Calm-continue :
      (r : Result A) (f : A → M B) (s : Db)
      → ((a : A) → Calm (f a))
      → s.schedule ≡ []
      → (continue r f s).1.schedule ≡ []
  Calm-continue (ok a) f s k calm = k a s calm
  Calm-continue (err e) f s k calm = calm

  pub Calm-bind : (m : M A) (f : A → M B) → Calm m → ((a : A) → Calm (f a)) → Calm (m >>= f)
  Calm-bind m f km kf s calm = Calm-continue (m s).0 f (m s).1 kf (km s calm)

pub Calm-attempt : (wrap : Fault → DbError) → Calm (attempt wrap)
unfolding attempt
Calm-attempt wrap s calm = rw calm

module _ {A : Type 0} where
  pub Calm-if : (b : Bool) (m n : M A) → Calm m → Calm n → Calm (if b then m else n)
  Calm-if true m n km kn = km
  Calm-if false m n km kn = kn

  pub Calm-pure : (a : A) → Calm (pure a)
  Calm-pure a s calm = calm

  pub Calm-transaction : (fn : M A) → Calm fn → Calm (with_transaction fn)
  unfolding with_transaction
  Calm-transaction fn k = Calm-bind (attempt wrapped) _ (Calm-attempt wrapped) (λ u s calm.
      Calm-roll_back s.tables _ _ (
        Calm-bind fn commit k
          (λ a. Calm-bind (attempt wrapped) _ (Calm-attempt wrapped) (λ v. Calm-pure a)) s calm))

pub Calm-raise : (A : Type 0) (e : DbError) → Calm (raise {A = A} e)
Calm-raise A e s calm = calm
