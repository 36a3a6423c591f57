-- ===== src/Db/Exec/Succeeds.antt =====
-- Where no call of the driver fails: actions that succeed, and what holds of the tables after them.
use shortner.Shared.{ℕ, ◌≡◌, refl, sym, ap, subst, ◌∙◌, []}
use shortner.Db.Rows.{unix}
use shortner.Db.Exec.{
  Fault, DbError, wrapped, Tables, Db, Result, ok, err, M, pure, ◌>>=◌, attempt, answer, done,
  Statement, exec, commit, roll_back, with_transaction,
}
use shortner.Db.Exec.Inverse.{exec_calm, >>=_run}

-- A value, the state that is left, and that nothing fails after it either.
pub record Success {A : Type 0} (Q : A → Tables → Type 0) (q : Result A × Db) : Type 0 where
  pub value : A
  pub succeeds : q.0 ≡ ok value
  pub schedule : q.1.schedule ≡ []
  pub holds : Q value q.1.tables

abbrev pub Succeeds : {A : Type 0} → (Tables → Type 0) → M A → (A → Tables → Type 0) → Type 0
Succeeds P m Q = (s : Db) → s.schedule ≡ [] → P s.tables → Success Q (m s)

module _ {A : Type 0} (P : Tables → Type 0) (Q : A → Tables → Type 0) where
  pub Succeeds-pure : (a : A) → ((t : Tables) → P t → Q a t) → Succeeds P (pure a) Q
  Succeeds-pure a k s calm h = record {
    value = a;
    succeeds = refl;
    schedule = calm;
    holds = k s.tables h;
  }

  pub Succeeds-exec :
      (run : Statement A)
      → ((now : ℕ) (t : Tables) → P t → (a : A) × ((run now t).0 ≡ done a) × Q a (run now t).1)
      → Succeeds P (exec run) Q
  Succeeds-exec run k s calm h =
      let (ran, same, clock, still) = exec_calm run s calm in
      let (a, e, holds) = k (unix s.now) s.tables h in
      record {
        value = a;
        succeeds = ran ∙ ap answer e;
        schedule = still;
        holds = subst (Q a) (sym same) holds;
      }

module _ {A B : Type 0} (P : Tables → Type 0) (R : A → Tables → Type 0)
    (Q : B → Tables → Type 0) where
  pub Succeeds-bind :
      (m : M A) (f : A → M B)
      → Succeeds P m R
      → ((a : A) → Succeeds (R a) (f a) Q)
      → Succeeds P (m >>= f) Q
  Succeeds-bind m f km kf s calm h =
      let first = km s calm h in
      subst (Success Q) (sym (>>=_run m f s first.value first.succeeds))
        (kf first.value (m s).1 first.schedule first.holds)

pub Succeeds-attempt :
    (P : Tables → Type 0) (wrap : Fault → DbError) → Succeeds P (attempt wrap) (λ _. P)
unfolding attempt
Succeeds-attempt P wrap s calm h = record {
  value = tt;
  succeeds = rw calm;
  schedule = rw calm;
  holds = h;
}

-- A body that succeeds is committed.
module _ {A : Type 0} (P : Tables → Type 0) (Q : A → Tables → Type 0) where
  Success-kept :
      (before : Tables) (q : Result A × Db) → Success Q q → Success Q (roll_back before q.0 q.1)
  Success-kept before (ok a, u) k = record {
    value = k.value;
    succeeds = k.succeeds;
    schedule = k.schedule;
    holds = k.holds;
  }
  Success-kept before (err e, u) k = let wrong = k.succeeds in absurd (cc)

  pub Succeeds-with_transaction : (fn : M A) → Succeeds P fn Q → Succeeds P (with_transaction fn) Q
  unfolding with_transaction
  Succeeds-with_transaction fn k =
      Succeeds-bind P (λ _. P) Q (attempt wrapped) _ (Succeeds-attempt P wrapped)
        λ _ s calm h. Success-kept s.tables _ (
          Succeeds-bind P Q Q fn commit k
            (λ a.
              Succeeds-bind (Q a) (λ _. Q a) Q (attempt wrapped) (λ _. pure a)
                (Succeeds-attempt (Q a) wrapped) (λ _. Succeeds-pure (Q a) Q a (λ t x. x)))
            s calm h)
