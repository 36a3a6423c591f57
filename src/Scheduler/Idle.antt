-- ===== src/Scheduler/Idle.antt =====
-- No event of the scheduler but RunNow calls the function of a disabled task (src/scheduler/scheduler.go).
use shortner.Shared.{
  ℕ, ◌≡◌, refl, sym, ap, subst, ◌∙◌, inl, inr, Bool, true, false, Option, none, some, List, [], ◌∷◌,
  ◌++◌, Bytes, arith, Bool-cases, eq_bytes, eq_bytes_iff, get, put, get-put, count_if, ℤ, All,
}
use mathlib.Core.Option.{some-injective}
use shortner.Db.Rows.{Time}
use shortner.Db.Exec.{Db, Result, ok, err}
use shortner.Db.Exec.Succeeds.{Succeeds-exec}
use shortner.Db.Scheduler.{get_scheduler_task, select_task}
use shortner.Library.{Library}
use shortner.Scheduler.{
  TaskFunc, TaskDef, JobDefinition, Scheduler, register, notify_scheduler_error, suppressed,
  recorded, record_run, finished_run, call, run_ended, run_if, enabled_flag, run_registered,
  run_task, is_due, due_tasks, run_all, catch_up, new_jobs, started_with, start, run_now_result,
  run_known, run_now, set_known, set_enabled,
}
use shortner.Scheduler.Disabled.{
  Off, upsert-Harmless, get-Harmless, enable-Harmless, record-Harmless,
}

module _ (id : Bytes) where
  -- A task's function that does not enable the task, nor makes the database fail.
  abbrev pub Gentle : TaskFunc → Type 0
  Gentle run =
      (s : Db)
      → s.schedule ≡ []
      → Off id s.tables
      → ((run s).1.schedule ≡ []) × Off id (run s).1.tables

  abbrev calls : Scheduler → ℕ
  calls e = count_if (λ k. eq_bytes k id) e.called

  -- The task is disabled, nothing fails, every function is gentle; so many calls of the task so far.
  abbrev pub Idle : ℕ → Scheduler → Type 0
  Idle n e =
      (e.db.schedule ≡ [])
      × Off id e.db.tables
      × ((k : Bytes) (t : TaskDef) → get k e.tasks ≡ some t → Gentle t.run)
      × (calls e ≡ n)

  record_run-Idle :
      (n : ℕ) (started : Time) (other status failure : Bytes) (e : Scheduler)
      → Idle n e
      → Idle n (record_run started other status failure e)
  record_run-Idle n started other status failure e (calm, off, gentle, count) =
      let r = finished_run started other status failure e in
      let (keeps, still) = record-Harmless id other r in
      by_result _ (still e.db calm) (keeps e.db off)
    where
      by_result :
          (q : Result (Unit {0}) × Db)
          → q.1.schedule ≡ []
          → Off id q.1.tables
          → Idle n (recorded q.0 other (record e { db = q.1 }))
      by_result (ok u, s) calm_s off_s = (calm_s, off_s, gentle, count)
      by_result (err x, s) calm_s off_s = (calm_s, off_s, gentle, count)

  notify-Idle :
      (n : ℕ) (other : Bytes) (e : Scheduler) → Idle n e → Idle n (notify_scheduler_error other e)
  unfolding notify_scheduler_error
  notify-Idle n other e h = elim (Bool-cases (suppressed other)) [
    | inl quiet ↦ rw quiet h
    | inr loud ↦ rw loud h
  ]

  call-Idle :
      (n : ℕ) (other : Bytes) (t : TaskDef) (e : Scheduler)
      → eq_bytes other id ≡ false
      → Gentle t.run
      → Idle n e
      → Idle n (call other t e).1
  call-Idle n other t e apart gentle_t (calm, off, gentle, count) =
      let (calm_s, off_s) = gentle_t e.db calm off in (calm_s, off_s, gentle, more e.called count)
    where
      more :
          (ks : List Bytes)
          → count_if (λ k. eq_bytes k id) ks ≡ n
          → count_if (λ k. eq_bytes k id) (ks ++ other ∷ []) ≡ n
      more ks h = sym (added ks) ∙ h
        where
          added :
              (ks : List Bytes)
              → count_if (λ k. eq_bytes k id) ks ≡ count_if (λ k. eq_bytes k id) (ks ++ other ∷ [])
          added [] = ground (arith, apart)
          added (k ∷ ks) = omega (arith, added ks)

  run_ended-Idle :
      (n : ℕ) (started : Time) (other : Bytes) (q : Option Bytes × Scheduler)
      → Idle n q.1
      → Idle n (run_ended started other q)
  run_ended-Idle n started other (none, e) h = record_run-Idle n started other _ _ e h
  run_ended-Idle n started other (some failure, e) h =
      record_run-Idle n started other _ _ (notify_scheduler_error other e) (notify-Idle n other e h)

  run_if-Idle :
      (n : ℕ) (enabled : Bool) (other : Bytes) (t : TaskDef) (e : Scheduler)
      → (eq_bytes other id ≡ true → enabled ≡ false)
      → Gentle t.run
      → Idle n e
      → Idle n (run_if enabled other t e)
  run_if-Idle n false other t e off gentle h = record_run-Idle n e.db.now other _ _ e h
  run_if-Idle n true other t e off gentle h = elim (Bool-cases (eq_bytes other id)) [
    | inl same ↦ let wrong : true ≡ false = off same in absurd (cc)
    | inr apart ↦
        run_ended-Idle n e.db.now other (call other t e) (call-Idle n other t e apart gentle h)
  ]

  -- Where nothing fails, the flag that is read is the row's.
  read_flag :
      (t : TaskDef) (s : Db)
      → s.schedule ≡ []
      → Off id s.tables
      → enabled_flag (get_scheduler_task id s).0 t ≡ false
  unfolding get_scheduler_task
  read_flag t s calm off =
      let read =
        Succeeds-exec (Off id) (λ row u. row.enabled ≡ false) (select_task id)
          (λ now u h. (h.0, rw h.1 refl, h.2)) s calm off in
      ap (λ r. enabled_flag r t) read.succeeds ∙ read.holds

  run_registered-Idle :
      (n : ℕ) (other : Bytes) (o : Option TaskDef) (e : Scheduler)
      → get other e.tasks ≡ o
      → Idle n e
      → Idle n (run_registered other o e)
  run_registered-Idle n other none e here h = h
  run_registered-Idle n other (some t) e here (calm, off, gentle, count) =
      let (keeps, still) = get-Harmless id other in
      run_if-Idle n (enabled_flag (get_scheduler_task other e.db).0 t) other t
        (record e { db = (get_scheduler_task other e.db).1 })
        (λ same.
          let it = (eq_bytes_iff other id).0 same in
          ap (λ (k : Bytes). enabled_flag (get_scheduler_task k e.db).0 t) it
          ∙ read_flag t e.db calm off)
        (gentle other t here) (still e.db calm, keeps e.db off, gentle, count)

  run_task-Idle : (n : ℕ) (other : Bytes) (e : Scheduler) → Idle n e → Idle n (run_task other e)
  unfolding run_task
  run_task-Idle n other e h = run_registered-Idle n other (get other e.tasks) e refl h

  run_all-Idle : (n : ℕ) (ids : List Bytes) (e : Scheduler) → Idle n e → Idle n (run_all ids e)
  run_all-Idle n [] e h = h
  run_all-Idle n (other ∷ ids) e h =
      run_all-Idle n ids (run_task other e) (run_task-Idle n other e h)

  due_tasks-Off :
      (window : ℤ) (now : Time) (tasks : List (Bytes × TaskDef)) (s : Db)
      → s.schedule ≡ []
      → Off id s.tables
      → ((due_tasks window now tasks s).1.schedule ≡ [])
        × Off id (due_tasks window now tasks s).1.tables
  due_tasks-Off window now [] s calm off = (calm, off)
  due_tasks-Off window now ((other, t) ∷ tasks) s calm off =
      let (keeps, still) = get-Harmless id other in
      let read = get_scheduler_task other s in
      let deeper = due_tasks-Off window now tasks read.1 (still s calm) (keeps s off) in
      elim (Bool-cases (is_due window now read.0)) [
        | inl due ↦ rw due deeper
        | inr other_one ↦ rw other_one deeper
      ]

  catch_up-Idle : (n : ℕ) (e : Scheduler) → Idle n e → Idle n (catch_up e)
  unfolding catch_up
  catch_up-Idle n e (calm, off, gentle, count) =
      let due = due_tasks e.catch_up_window e.db.now e.tasks e.db in
      let (calm_s, off_s) = due_tasks-Off e.catch_up_window e.db.now e.tasks e.db calm off in
      run_all-Idle n due.0 (record e { db = due.1 }) (calm_s, off_s, gentle, count)

  started_with-Idle :
      (n : ℕ) (jobs : Option (List (Bytes × Option Time))) (e : Scheduler)
      → Idle n e
      → Idle n (started_with jobs e).1
  started_with-Idle n none e h = h
  started_with-Idle n (some jobs) e h = catch_up-Idle n (record e { jobs = jobs }) h

  put-Gentle :
      (other : Bytes) (task : TaskDef) (tasks : List (Bytes × TaskDef))
      → Gentle task.run
      → ((k : Bytes) (t : TaskDef) → get k tasks ≡ some t → Gentle t.run)
      → (k : Bytes) (t : TaskDef) → get k (put other task tasks) ≡ some t
      → Gentle t.run
  put-Gentle other task tasks new old k t found = elim (Bool-cases (eq_bytes other k)) [
    | inl same ↦
        let here : get k (put other task tasks) ≡ some task =
          rw (get-put k other task tasks, same) refl in
        subst (λ (u : TaskDef). Gentle u.run) (some-injective _ _ (sym here ∙ found)) new
    | inr apart ↦
        let there : get k (put other task tasks) ≡ get k tasks =
          rw (get-put k other task tasks, apart) refl in
        old k t (sym there ∙ found)
  ]

  register-Idle :
      (n : ℕ) (other name schedule : Bytes) (enabled : Bool) (run : TaskFunc) (e : Scheduler)
      → Gentle run
      → Idle n e
      → Idle n (register other name schedule enabled (some run) e).1
  unfolding register
  register-Idle n other name schedule enabled run e gentle_run (calm, off, gentle, count) =
      let (keeps, still) = upsert-Harmless id other name schedule in
      let task : TaskDef = record {
        name = name;
        schedule = schedule;
        enabled = enabled;
        run = run;
      } in
      elim (Bool-cases (eq_bytes other [])) [
        | inl unnamed ↦ rw unnamed (calm, off, gentle, count)
        | inr named ↦ rw named (
          still e.db calm,
          keeps e.db off,
          put-Gentle other task e.tasks gentle_run gentle,
          count,
        )
      ]

  run_now-Idle :
      (n : ℕ) (other : Bytes) (e : Scheduler)
      → eq_bytes other id ≡ false
      → Idle n e
      → Idle n (run_now other e).1
  unfolding run_now
  run_now-Idle n other e apart h = known (get other e.tasks) refl
    where
      answered :
          (failure : Option Bytes) (q : Result (Unit {0}) × Db) (u : Scheduler)
          → q.1.schedule ≡ []
          → Off id q.1.tables
          → Idle n u
          → Idle n (run_now_result failure q u).1
      answered failure (err x, s) u calm off (c, o, gentle, count) = (calm, off, gentle, count)
      answered none (ok v, s) u calm off (c, o, gentle, count) = (calm, off, gentle, count)
      answered (some f) (ok v, s) u calm off (c, o, gentle, count) = (calm, off, gentle, count)

      known : (o : Option TaskDef) → get other e.tasks ≡ o → Idle n (run_known other o e).1
      known none there = h
      known (some t) there =
          let after = call-Idle n other t e apart (h.2 other t there) h in
          let u = (call other t e).1 in
          let (keeps, still) = record-Harmless id other _ in
          answered (call other t e).0 _ u (still u.db after.0) (keeps u.db after.1) after

  set_enabled-Idle :
      (n : ℕ) (other : Bytes) (enabled : Bool) (e : Scheduler)
      → (eq_bytes other id ≡ true → enabled ≡ false)
      → Idle n e
      → Idle n (set_enabled other enabled e).1
  unfolding set_enabled
  set_enabled-Idle n other enabled e off_only (calm, off, gentle, count) = known (get other e.tasks)
    where
      known : (o : Option TaskDef) → Idle n (set_known other enabled o e).1
      known none = (calm, off, gentle, count)
      known (some t) =
          let (keeps, still) = enable-Harmless id other enabled off_only in
          (still e.db calm, keeps e.db off, gentle, count)

-- What happens to the scheduler: the registration of a task, the start with its catch-up, the schedule
-- of a task, a run by hand, and the switch.
pub data Event : Type 0 where
  registering : Bytes → Bytes → Bytes → Bool → TaskFunc → Event
  starting : Library → (JobDefinition → Option (Option Time)) → Event
  ticking : Bytes → Event
  running : Bytes → Event
  switching : Bytes → Bool → Event

abbrev pub step : Event → Scheduler → Scheduler
step (registering id name schedule enabled run) e =
    (register id name schedule enabled (some run) e).1
step (starting lib new_job) e = (start lib new_job e).1
step (ticking id) e = run_task id e
step (running id) e = (run_now id e).1
step (switching id enabled) e = (set_enabled id enabled e).1

abbrev pub steps : List Event → Scheduler → Scheduler
steps [] e = e
steps (event ∷ events) e = steps events (step event e)

module _ (id : Bytes) where
  -- Nobody runs the task by hand or enables it.
  abbrev pub Spares : Event → Type 0
  Spares (registering other name schedule enabled run) = Gentle id run
  Spares (starting lib new_job) = Unit
  Spares (ticking other) = Unit
  Spares (running other) = eq_bytes other id ≡ false
  Spares (switching other enabled) = eq_bytes other id ≡ true → enabled ≡ false

  step-Idle :
      (n : ℕ) (event : Event) (e : Scheduler)
      → Spares event
      → Idle id n e
      → Idle id n (step event e)
  unfolding start
  step-Idle n (registering other name schedule enabled run) e gentle h =
      register-Idle id n other name schedule enabled run e gentle h
  step-Idle n (starting lib new_job) e spares h =
      started_with-Idle id n (new_jobs lib new_job e.tasks) e h
  step-Idle n (ticking other) e spares h = run_task-Idle id n other e h
  step-Idle n (running other) e apart h = run_now-Idle id n other e apart h
  step-Idle n (switching other enabled) e off h = set_enabled-Idle id n other enabled e off h

  steps-Idle :
      (n : ℕ) (events : List Event) (e : Scheduler)
      → All Spares events
      → Idle id n e
      → Idle id n (steps events e)
  steps-Idle n [] e spares h = h
  steps-Idle n (event ∷ events) e (here, spares) h =
      steps-Idle n events (step event e) spares (step-Idle n event e here h)

  -- A task whose row says that it is disabled stays so, and its function is not called, through any
  -- registrations, starts with their catch-up, scheduled runs, runs of other tasks by hand and switches,
  -- as long as nobody runs it by hand or enables it, no statement fails, and the functions of the tasks
  -- neither enable it nor make statements fail.
  pub steps_disabled :
      (events : List Event) (e : Scheduler)
      → e.db.schedule ≡ []
      → Off id e.db.tables
      → ((k : Bytes) (t : TaskDef) → get k e.tasks ≡ some t → Gentle id t.run)
      → All Spares events
      → Off id (steps events e).db.tables
        × (count_if (λ k. eq_bytes k id) (steps events e).called
            ≡ count_if (λ k. eq_bytes k id) e.called)
  steps_disabled events e calm off gentle spares =
      let after = steps-Idle _ events e spares (calm, off, gentle, refl) in (after.1, after.3)
