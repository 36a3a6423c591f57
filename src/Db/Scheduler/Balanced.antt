-- ===== src/Db/Scheduler/Balanced.antt =====
-- The counters of a task against its history (src/db/scheduler.go).
use shortner.Shared.{
  ℕ, ◌+◌, ◌≤◌, ◌≡◌, refl, sym, ap, ◌∙◌, Bool, false, inl, inr, not, ◌&&◌, Option, none, some, List,
  [], ◌∷◌, ◌++◌, Bytes, arith, Bool-cases, ltb, ◌==◌, if◌then◌else◌, eq_bytes, eq_bytes_iff,
  keep_if, count_if, get, put, get-put,
}
use shortner.Db.Rows.{TaskRow, HistoryRow}
use shortner.Db.Exec.{Tables, Db, M, attempt, wrapped, not_found, raise, exec, pure}
use shortner.Db.Exec.Keeps.{
  Keeps, KeepsS, Keeps-exec, Keeps-bind, Keeps-attempt, Keeps-if, Keeps-pure, Keeps-raise,
  Keeps-transaction,
}
use shortner.Db.Exec.Runs.{Runs, Runs-exec, Runs-step}
use shortner.Db.Scheduler.{
  new_task, upsert_task, upsert_scheduler_task, update_task, put_task, set_scheduler_task_enabled,
  Run, succeeded, has_failed, after_run, insert_history, store_run, record_scheduler_run, of_task,
  rank, delete_history, prune_scheduler_history,
}

abbrev pub success_of : Bytes → HistoryRow → Bool
success_of id row = of_task id row && succeeded row.status

abbrev pub failure_of : Bytes → HistoryRow → Bool
failure_of id row = of_task id row && (not (succeeded row.status) && has_failed row.status)

-- The task exists, and its counters, with so many runs that are not yet in the history, are no less
-- than the history's successes and failures of it.
abbrev Ahead : ℕ → ℕ → Bytes → Tables → Type 0
Ahead runs fails id t =
    (row : TaskRow) × (get id t.tasks ≡ some row)
    × (runs + count_if (success_of id) t.history ≤ row.run_count)
    × (fails + count_if (failure_of id) t.history ≤ row.fail_count)

abbrev pub Balanced : Bytes → Tables → Type 0
Balanced id = Ahead 0 0 id

count_if-keep_if :
    (p q : HistoryRow → Bool) (rows : List HistoryRow)
    → count_if p (keep_if q rows) ≤ count_if p rows
count_if-keep_if p q [] = omega arith
count_if-keep_if p q (a ∷ rows) = ground (arith, count_if-keep_if p q rows)

count_if-append :
    (p : HistoryRow → Bool) (rows : List HistoryRow) (a : HistoryRow)
    → count_if p (rows ++ a ∷ []) ≡ count_if p rows + (if p a then 1 else 0)
count_if-append p [] a = omega arith
count_if-append p (b ∷ rows) a = omega (arith, count_if-append p rows a)

module _ (id other : Bytes) (runs fails : ℕ) (t : Tables) where
  -- The new row counts so many runs more, if it is the task's.
  abbrev Counts : TaskRow → Type 0
  Counts new =
      (row : TaskRow)
      → get other t.tasks ≡ some row
      → (runs + row.run_count ≤ new.run_count) × (fails + row.fail_count ≤ new.fail_count)

  abbrev NoneElse : Type 0
  NoneElse = eq_bytes other id ≡ false → (runs ≡ 0) × (fails ≡ 0)

  put-Ahead :
      (new : TaskRow)
      → Counts new
      → NoneElse
      → Balanced id t
      → Ahead runs fails id (record t { tasks = put other new t.tasks })
  put-Ahead new more none_else (mine, found, enough, enough_fails) =
      elim (Bool-cases (eq_bytes other id)) [
        | inl same ↦
            let here = (eq_bytes_iff other id).0 same in
            let (r, f) = more mine (ap (λ (k : Bytes). get k t.tasks) here ∙ found) in
            (new, rw (get-put id other new t.tasks, same) refl, omega arith, omega arith)
        | inr apart ↦
            let (r, f) = none_else apart in
            (mine, rw (get-put id other new t.tasks, apart) found, omega arith, omega arith)
      ]

  put_task-Ahead :
      (change : TaskRow → TaskRow) (o : Option TaskRow)
      → get other t.tasks ≡ o
      → ((row : TaskRow)
          → (runs + row.run_count ≤ (change row).run_count)
            × (fails + row.fail_count ≤ (change row).fail_count))
      → NoneElse
      → Balanced id t
      → Ahead runs fails id (put_task other change o t)
  put_task-Ahead change none is more none_else (mine, found, enough, enough_fails) =
      elim (Bool-cases (eq_bytes other id)) [
        | inl same ↦
            let here = (eq_bytes_iff other id).0 same in
            let missing : none ≡ some mine =
              sym is ∙ (ap (λ (k : Bytes). get k t.tasks) here ∙ found) in
            absurd (cc)
        | inr apart ↦ let (r, f) = none_else apart in (mine, found, omega arith, omega arith)
      ]
  put_task-Ahead change (some old) is more none_else balanced =
      put-Ahead (change old)
        (λ row there.
          let one : some old ≡ some row = sym is ∙ there in
          let same : old ≡ row = cc in rw (sym same) (more old))
        none_else balanced

module _ (id : Bytes) where
  upsert-Balanced :
      (other name schedule : Bytes) → KeepsS (Balanced id) (upsert_task other name schedule)
  upsert-Balanced other name schedule now t balanced =
      put-Ahead id other 0 0 t (new_task name schedule (get other t.tasks))
        (λ row there. rw there (omega arith, omega arith)) (λ apart. (refl, refl)) balanced

  enable-Balanced :
      (other : Bytes) (enabled : Bool)
      → KeepsS (Balanced id) (update_task other (λ row. record row { enabled = enabled }))
  enable-Balanced other enabled now t balanced =
      put_task-Ahead id other 0 0 t (λ row. record row { enabled = enabled }) (get other t.tasks)
        refl (λ row. (omega arith, omega arith)) (λ apart. (refl, refl)) balanced

  prune-Balanced : (keep : ℕ) → KeepsS (Balanced id) (delete_history keep)
  prune-Balanced keep now t (mine, found, enough, enough_fails) =
      let kept = λ (a : HistoryRow). ltb (rank t.history a) keep in
      let runs = count_if-keep_if (success_of id) kept t.history in
      let fails = count_if-keep_if (failure_of id) kept t.history in
      (mine, found, omega arith, omega arith)

  -- What a run adds to the counters of the task.
  abbrev due : Bytes → Run → ℕ
  due other r = if eq_bytes other id && succeeded r.status then 1 else 0

  abbrev due_fails : Bytes → Run → ℕ
  due_fails other r =
      if eq_bytes other id && (not (succeeded r.status) && has_failed r.status) then 1 else 0

  after_run-Ahead :
      (other : Bytes) (r : Run) (now : ℕ) (t : Tables)
      → Balanced id t
      → Ahead (due other r) (due_fails other r) id (update_task other (after_run r) now t).1
  after_run-Ahead other r now t balanced =
      put_task-Ahead id other (due other r) (due_fails other r) t (after_run r) (get other t.tasks)
        refl (λ row. (ground arith, ground arith)) (λ apart. (rw apart refl, rw apart refl))
        balanced

  insert_history-Balanced :
      (other : Bytes) (r : Run) (now : ℕ) (t : Tables)
      → Ahead (due other r) (due_fails other r) id t
      → Balanced id (insert_history other r now t).1
  insert_history-Balanced other r now t (mine, found, enough, enough_fails) =
      let runs = count_if-append (success_of id) t.history in
      let fails = count_if-append (failure_of id) t.history in
      (
        mine,
        found,
        rw (runs _) (ground (arith, enough)),
        rw (fails _) (ground (arith, enough_fails)),
      )

-- The operations that change the tables.
pub data Operation : Type 0 where
  upserting : Bytes → Bytes → Bytes → Operation
  enabling : Bytes → Bool → Operation
  recording : Bytes → Run → Operation
  pruning : ℕ → Operation

abbrev pub operation : Operation → M (Unit {0})
operation (upserting id name schedule) = upsert_scheduler_task id name schedule
operation (enabling id enabled) = set_scheduler_task_enabled id enabled
operation (recording id r) = record_scheduler_run id r
operation (pruning keep) = prune_scheduler_history keep

-- The state after the operations, one after the other, whatever each returns.
abbrev pub operate : List Operation → Db → Db
operate [] s = s
operate (op ∷ ops) s = operate ops (operation op s).1

module _ (id : Bytes) where
  store_run-Runs :
      (other : Bytes) (r : Run) → Runs (Balanced id) (store_run other r) (λ u. Balanced id)
  unfolding store_run
  store_run-Runs other r =
      Runs-step (Balanced id) (Ahead (due id other r) (due_fails id other r) id) (Balanced id)
        (update_task other (after_run r)) _ (λ now t a h e. after_run-Ahead id other r now t h)
        (λ rows.
          Runs-exec (Ahead (due id other r) (due_fails id other r) id) (λ u. Balanced id)
            (insert_history other r) (λ now t a h e. insert_history-Balanced id other r now t h))

  operation-Balanced : (op : Operation) → Keeps (Balanced id) (operation op)
  unfolding upsert_scheduler_task set_scheduler_task_enabled record_scheduler_run
      prune_scheduler_history
  operation-Balanced (upserting other name schedule) =
      Keeps-exec (Balanced id) (upsert_task other name schedule)
        (upsert-Balanced id other name schedule)
  operation-Balanced (enabling other enabled) =
      Keeps-bind (Balanced id) (exec (update_task other (λ row. record row { enabled = enabled })))
        _ (Keeps-exec (Balanced id) _ (enable-Balanced id other enabled))
        (λ rows.
          Keeps-bind (Balanced id) (attempt wrapped) _ (Keeps-attempt (Balanced id) wrapped) (λ u.
            Keeps-if (Balanced id) (rows == 0) (raise not_found) (pure tt)
              (Keeps-raise (Balanced id) (Unit {0}) not_found) (Keeps-pure (Balanced id) tt)))
  operation-Balanced (recording other r) =
      Keeps-transaction (Balanced id) (store_run other r)
        (λ s a h e. store_run-Runs other r s a h e)
  operation-Balanced (pruning keep) =
      Keeps-exec (Balanced id) (delete_history keep) (prune-Balanced id keep)

  -- Once a task is in the tables with counters no less than the successes and the failures that its
  -- history shows, that stays so through any operations on any tasks, wherever the driver fails: a run
  -- is never in the history without being counted.
  pub operate-Balanced :
      (ops : List Operation) (s : Db) → Balanced id s.tables → Balanced id (operate ops s).tables
  operate-Balanced [] s h = h
  operate-Balanced (op ∷ ops) s h =
      operate-Balanced ops (operation op s).1 (operation-Balanced op s h)
