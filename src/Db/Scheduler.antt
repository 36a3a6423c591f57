-- ===== src/Db/Scheduler.antt =====
-- src/db/scheduler.go: the tasks of the scheduler and the history of their runs.
pub mod Balanced
pub mod Samples
use shortner.Shared.{
  ℕ, ◌+◌, ◌-◌, ◌/◌, Bool, true, false, not, ◌&&◌, ◌||◌, Option, none, some, List, [], ◌∷◌, ◌++◌,
  Bytes, codes, ltb, ◌==◌, if◌then◌else◌, eq_bytes, take, keep_if, count_if, get, put, is_some,
}
use shortner.Db.Rows.{Time, TaskRow, HistoryRow, unix, nullable_string, null_unix}
use shortner.Db.Exec.{
  M, pure, ◌>>=◌, ◌>>◌, attempt, wrapped, done, Statement, Tables, exec, with_transaction,
}
use shortner.Db.Links.{one_row, check_rows_affected}

abbrev pub new_task : Bytes → Bytes → Option TaskRow → TaskRow
new_task name schedule none = record {
  name = name;
  enabled = true;
  schedule = schedule;
  last_run = none;
  next_run = none;
  last_status = none;
  last_error = none;
  run_count = 0;
  fail_count = 0;
}
new_task name schedule (some row) = record row { name = name }

-- INSERT INTO scheduler_tasks ... ON CONFLICT(id) DO UPDATE SET name = excluded.name
abbrev pub upsert_task : Bytes → Bytes → Bytes → Statement (Unit {0})
upsert_task id name schedule now t =
    (done tt, record t { tasks = put id (new_task name schedule (get id t.tasks)) t.tasks })

unfoldable pub upsert_scheduler_task : Bytes → Bytes → Bytes → M (Unit {0})
upsert_scheduler_task id name schedule = exec (upsert_task id name schedule)

abbrev pub select_task : Bytes → Statement TaskRow
select_task id now t = (one_row (get id t.tasks), t)

unfoldable pub get_scheduler_task : Bytes → M TaskRow
get_scheduler_task id = exec (select_task id)

abbrev pub put_task : Bytes → (TaskRow → TaskRow) → Option TaskRow → Tables → Tables
put_task id f none t = t
put_task id f (some row) t = record t { tasks = put id (f row) t.tasks }

abbrev rows_of : Option TaskRow → ℕ
rows_of none = 0
rows_of (some row) = 1

-- UPDATE scheduler_tasks SET ... WHERE id = ?, with the number of rows.
abbrev pub update_task : Bytes → (TaskRow → TaskRow) → Statement ℕ
update_task id f now t = (done (rows_of (get id t.tasks)), put_task id f (get id t.tasks) t)

unfoldable pub set_scheduler_task_enabled : Bytes → Bool → M (Unit {0})
set_scheduler_task_enabled id enabled = do
  rows ← exec (update_task id (λ row. record row { enabled = enabled }))
  check_rows_affected rows

-- A run to be recorded.
pub record Run : Type 0 where
  pub started_at : Time
  pub finished_at : Time
  pub next_run : Option Time
  pub status : Bytes
  pub error : Bytes

abbrev pub succeeded : Bytes → Bool
succeeded status = eq_bytes status (codes "success")

abbrev pub has_failed : Bytes → Bool
has_failed status = eq_bytes status (codes "failed")

abbrev pub after_run : Run → TaskRow → TaskRow
after_run r row = record row {
  last_run = some (unix r.started_at);
  next_run = null_unix r.next_run;
  last_status = some r.status;
  last_error = nullable_string r.error;
  run_count = row.run_count + (if succeeded r.status then 1 else 0);
  fail_count =
      row.fail_count + (if succeeded r.status then 0 else if has_failed r.status then 1 else 0);
}

-- INSERT INTO scheduler_history (...) VALUES (...)
abbrev pub insert_history : Bytes → Run → Statement (Unit {0})
insert_history id r now t =
    let row : HistoryRow = record {
      id = t.last_history + 1;
      task_id = id;
      started_at = unix r.started_at;
      finished_at = some (unix r.finished_at);
      status = r.status;
      error = nullable_string r.error;
      duration_ms = (r.finished_at - r.started_at) / 1_000_000;
    } in
    (done tt, record t { history = t.history ++ row ∷ []; last_history = t.last_history + 1 })

-- The body of the transaction of `RecordSchedulerRun`.
unfoldable pub store_run : Bytes → Run → M (Unit {0})
store_run id r = do exec (update_task id (after_run r)); exec (insert_history id r)

unfoldable pub record_scheduler_run : Bytes → Run → M (Unit {0})
unfolding store_run
record_scheduler_run id r = with_transaction (store_run id r)

-- Newest first; rows of one second, which SQLite may give in any order, newest id first.
abbrev pub runs_later : HistoryRow → HistoryRow → Bool
runs_later a b = ltb b.started_at a.started_at || (b.started_at == a.started_at && ltb b.id a.id)

insert_newest : HistoryRow → List HistoryRow → List HistoryRow
insert_newest a [] = a ∷ []
insert_newest a (b ∷ rows) =
    let deeper = b ∷ insert_newest a rows in if runs_later a b then a ∷ b ∷ rows else deeper

newest : List HistoryRow → List HistoryRow
unfolding insert_newest
newest [] = []
newest (a ∷ rows) = insert_newest a (newest rows)

abbrev pub of_task : Bytes → HistoryRow → Bool
of_task id row = eq_bytes row.task_id id

-- SELECT ... FROM scheduler_history WHERE task_id = ? ORDER BY started_at DESC, id DESC LIMIT ?
unfoldable select_history : Bytes → ℕ → Statement (List HistoryRow)
unfolding newest
select_history id limit now t = (done (take limit (newest (keep_if (of_task id) t.history))), t)

unfoldable pub scheduler_history : Bytes → ℕ → M (List HistoryRow)
unfolding select_history
scheduler_history id limit = do rows ← exec (select_history id limit); attempt wrapped; pure rows

-- ROW_NUMBER() OVER (PARTITION BY task_id ORDER BY started_at DESC), less one.
abbrev pub rank : List HistoryRow → HistoryRow → ℕ
rank rows a = count_if (λ b. of_task a.task_id b && runs_later b a) rows

-- DELETE FROM scheduler_history WHERE id NOT IN (... WHERE rn <= ?)
abbrev pub delete_history : ℕ → Statement (Unit {0})
delete_history keep now t =
    (done tt, record t { history = keep_if (λ a. ltb (rank t.history a) keep) t.history })

unfoldable pub prune_scheduler_history : ℕ → M (Unit {0})
prune_scheduler_history keep = exec (delete_history keep)
