-- ===== src/Scheduler/Disabled.antt =====
-- A disabled task is not run by the schedule (src/scheduler/scheduler.go).
use shortner.Shared.{
  ◌≡◌, refl, sym, ap, ◌∙◌, inl, inr, Bool, true, false, Option, none, some, Bytes, Bool-cases, ◌==◌,
  eq_bytes, eq_bytes_iff, get, put, get-put,
}
use shortner.Db.Rows.{TaskRow}
use shortner.Db.Exec.{Tables, M, attempt, wrapped, not_found, raise, exec, pure}
use shortner.Db.Exec.Keeps.{
  Keeps, KeepsS, Keeps-exec, Keeps-bind, Keeps-attempt, Keeps-if, Keeps-pure, Keeps-raise,
  Keeps-transaction,
}
use shortner.Db.Exec.Runs.{Runs, Runs-exec, Runs-step}
use shortner.Db.Exec.Calm.{
  Calm, Calm-exec, Calm-bind, Calm-attempt, Calm-if, Calm-pure, Calm-raise, Calm-transaction,
}
use shortner.Db.Scheduler.{
  Run, new_task, upsert_task, upsert_scheduler_task, get_scheduler_task, select_task, update_task,
  put_task, set_scheduler_task_enabled, after_run, insert_history, store_run, record_scheduler_run,
}

module _ (id : Bytes) where
  -- The task's row says that it is disabled.
  abbrev pub Off : Tables → Type 0
  Off t = (row : TaskRow) × (get id t.tasks ≡ some row) × (row.enabled ≡ false)

  put-Off :
      (other : Bytes) (new : TaskRow) (t : Tables)
      → (eq_bytes other id ≡ true → new.enabled ≡ false)
      → Off t
      → Off (record t { tasks = put other new t.tasks })
  put-Off other new t off (row, found, disabled) = elim (Bool-cases (eq_bytes other id)) [
    | inl same ↦ (new, rw (get-put id other new t.tasks, same) refl, off same)
    | inr apart ↦ (row, rw (get-put id other new t.tasks, apart) found, disabled)
  ]

  -- A change that does not enable the task.
  update-Off :
      (other : Bytes) (change : TaskRow → TaskRow)
      → ((row : TaskRow)
          → eq_bytes other id ≡ true
          → row.enabled ≡ false
          → (change row).enabled ≡ false)
      → KeepsS Off (update_task other change)
  update-Off other change off now t h = changed (get other t.tasks) refl
    where
      changed : (o : Option TaskRow) → get other t.tasks ≡ o → Off (put_task other change o t)
      changed none e = h
      changed (some old) e =
          put-Off other (change old) t
            (λ same.
              let here = (eq_bytes_iff other id).0 same in
              let one : some old ≡ some h.0 =
                sym e ∙ (ap (λ (k : Bytes). get k t.tasks) here ∙ h.1) in
              let row : old ≡ h.0 = cc in off old same (rw row h.2))
            h

  upsert-Off : (other name schedule : Bytes) → KeepsS Off (upsert_task other name schedule)
  upsert-Off other name schedule now t h = go (get other t.tasks) refl
    where
      go :
          (o : Option TaskRow)
          → get other t.tasks ≡ o
          → Off (record t { tasks = put other (new_task name schedule o) t.tasks })
      go none e =
          put-Off other (new_task name schedule none) t
            (λ same.
              let here = (eq_bytes_iff other id).0 same in
              let missing : none ≡ some h.0 =
                sym e ∙ (ap (λ (k : Bytes). get k t.tasks) here ∙ h.1) in
              absurd (cc))
            h
      go (some old) e =
          put-Off other (new_task name schedule (some old)) t
            (λ same.
              let here = (eq_bytes_iff other id).0 same in
              let one : some old ≡ some h.0 =
                sym e ∙ (ap (λ (k : Bytes). get k t.tasks) here ∙ h.1) in
              let row : old ≡ h.0 = cc in rw row h.2)
            h

  -- An action of the database that neither fails nor enables the task, where nothing fails.
  abbrev pub Harmless : {A : Type 0} → M A → Type 0
  Harmless m = Keeps Off m × Calm m

  pub upsert-Harmless :
      (other name schedule : Bytes) → Harmless (upsert_scheduler_task other name schedule)
  unfolding upsert_scheduler_task
  upsert-Harmless other name schedule = (
    Keeps-exec Off _ (upsert-Off other name schedule),
    Calm-exec (upsert_task other name schedule),
  )

  pub get-Harmless : (other : Bytes) → Harmless (get_scheduler_task other)
  unfolding get_scheduler_task
  get-Harmless other =
      (Keeps-exec Off (select_task other) (λ now t h. h), Calm-exec (select_task other))

  pub enable-Harmless :
      (other : Bytes) (enabled : Bool)
      → (eq_bytes other id ≡ true → enabled ≡ false)
      → Harmless (set_scheduler_task_enabled other enabled)
  unfolding set_scheduler_task_enabled
  enable-Harmless other enabled off = (
    Keeps-bind Off (exec (update_task other (λ row. record row { enabled = enabled }))) _
        (Keeps-exec Off _ (update-Off other _ (λ row same was. off same)))
        (λ rows. Keeps-bind Off (attempt wrapped) _ (Keeps-attempt Off wrapped) (λ u.
          Keeps-if Off (rows == 0) (raise not_found) (pure tt)
            (Keeps-raise Off (Unit {0}) not_found) (Keeps-pure Off tt))),
    Calm-bind (exec (update_task other (λ row. record row { enabled = enabled }))) _ (Calm-exec _)
        (λ rows. Calm-bind (attempt wrapped) _ (Calm-attempt wrapped) (λ u.
          Calm-if (rows == 0) (raise not_found) (pure tt) (Calm-raise (Unit {0}) not_found)
            (Calm-pure tt))),
  )

  store-Runs : (other : Bytes) (r : Run) → Runs Off (store_run other r) (λ u. Off)
  unfolding store_run
  store-Runs other r =
      Runs-step Off Off Off (update_task other (after_run r)) _
        (λ now t a h e. update-Off other (after_run r) (λ row same was. was) now t h)
        (λ rows. Runs-exec Off (λ u. Off) (insert_history other r) (λ now t a h e. h))

  pub record-Harmless : (other : Bytes) (r : Run) → Harmless (record_scheduler_run other r)
  unfolding record_scheduler_run store_run
  record-Harmless other r = (
    Keeps-transaction Off (store_run other r) (λ s a h e. store-Runs other r s a h e),
    Calm-transaction (store_run other r) (
        Calm-bind (exec (update_task other (after_run r))) _ (Calm-exec _)
          (λ rows. Calm-exec (insert_history other r))),
  )
