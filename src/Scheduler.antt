-- ===== src/Scheduler.antt =====
-- src/scheduler/scheduler.go: the registered tasks, their runs, and the scheduler's own operations.
--
-- What the job engine gocron decides is a parameter: whether it accepts a schedule, and when the next run
-- of the job will be. The calls are one after the other, as the tables see them; the metrics are left out.
pub mod Disabled
pub mod Idle
pub mod Tasks
pub mod Samples
use shortner.Shared.{
  ℕ, ◌*◌, ◌-◌, Bool, true, false, not, ◌&&◌, ◌||◌, Option, none, some, List, [], ◌∷◌, ◌++◌, Bytes,
  codes, ltb, leb, length, drop, if◌then◌else◌, eq_bytes, has_prefix, trim_space, get, put, ℤ, pos,
  negsuc,
}
use shortner.Db.Rows.{Time, TaskRow, from_unix}
use shortner.Db.Exec.{DbError, Db, Result, ok, err}
use shortner.Db.Scheduler.{
  Run, upsert_scheduler_task, get_scheduler_task, set_scheduler_task_enabled, record_scheduler_run,
}
use shortner.Library.{Library}

-- The work of a task on the database, with the text of its error.
abbrev pub TaskFunc : Type 0
TaskFunc = Db → Option Bytes × Db

-- `TaskDef` with its `Run`, under its ID.
pub record TaskDef : Type 0 where
  pub name : Bytes
  pub schedule : Bytes
  pub enabled : Bool
  pub run : TaskFunc

pub data JobDefinition : Type 0 where
  cron : Bytes → JobDefinition
  every : ℤ → JobDefinition

-- The lines of the log, by task.
pub data LogLine : Type 0 where
  failed skipped completed unrecorded : Bytes → LogLine

-- `jobs` holds what `NextRun` of each job answers. `called` are the tasks whose function was called, in
-- order, and `errors` those that raised the event scheduler_error.
pub record Scheduler : Type 0 where
  pub db : Db
  pub catch_up_window : ℤ
  pub tasks : List (Bytes × TaskDef)
  pub jobs : List (Bytes × Option Time)
  pub called : List Bytes
  pub errors : List Bytes
  pub log : List LogLine

-- `time.ParseDuration` of the window, or an hour.
unfoldable pub new_scheduler : Library → Db → Bytes → Scheduler
new_scheduler lib db window = record {
  db = db;
  catch_up_window = elim (lib.parse_duration window) [
    | none ↦ pos (3600 * 1_000_000_000)
    | some d ↦ d
  ];
  tasks = [];
  jobs = [];
  called = [];
  errors = [];
  log = [];
}

-- `none` is an error.
unfoldable pub parse_schedule : Library → Bytes → Option JobDefinition
parse_schedule lib s =
    let rest = trim_space (drop (length (codes "@every ")) s) in
    if eq_bytes s (codes "@hourly")
    then some (cron (codes "0 * * * *"))
    else if eq_bytes s (codes "@daily")
    then some (cron (codes "0 0 * * *"))
    else if eq_bytes s (codes "@weekly")
    then some (cron (codes "0 0 * * 0"))
    else if eq_bytes s (codes "@monthly")
    then some (cron (codes "0 0 1 * *"))
    else if has_prefix s (codes "@every ")
    then elim (lib.parse_duration rest) [ none ↦ none | some d ↦ some (every d) ]
    else some (cron s)

pub data SchedulerError : Type 0 where
  incomplete unknown_task bad_schedule : SchedulerError
  database : DbError → SchedulerError
  task_error : Bytes → SchedulerError

abbrev reported : Result (Unit {0}) → Option SchedulerError
reported (ok u) = none
reported (err e) = some (database e)

-- A task without a function is `none`.
unfoldable pub register :
    Bytes → Bytes → Bytes → Bool → Option TaskFunc → Scheduler → Option SchedulerError × Scheduler
register id name schedule enabled none e = (some incomplete, e)
register id name schedule enabled (some run) e =
    let task : TaskDef = record {
      name = name;
      schedule = schedule;
      enabled = enabled;
      run = run;
    } in
    let stored = upsert_scheduler_task id name schedule e.db in
    if eq_bytes id []
    then (some incomplete, e)
    else (reported stored.0, record e { tasks = put id task e.tasks; db = stored.1 })

-- suppressedSchedulerError
unfoldable pub suppressed : Bytes → Bool
suppressed id =
    eq_bytes id (codes "backup_daily")
    || (eq_bytes id (codes "backup_hourly") || eq_bytes id (codes "ssl_renewal"))

unfoldable pub notify_scheduler_error : Bytes → Scheduler → Scheduler
notify_scheduler_error id e = if suppressed id then e else record e { errors = e.errors ++ id ∷ [] }

-- `job.NextRun()`, where there is a job and it answers.
abbrev pub next_run : Bytes → Scheduler → Option Time
next_run id e = elim (get id e.jobs) [ none ↦ none | some answer ↦ answer ]

abbrev pub write_line : LogLine → Scheduler → Scheduler
write_line line e = record e { log = e.log ++ line ∷ [] }

-- A run to be recorded, with the instants before and after it.
abbrev pub finished_run : Time → Bytes → Bytes → Bytes → Scheduler → Run
finished_run started id status failure e = record {
  started_at = started;
  finished_at = e.db.now;
  next_run = next_run id e;
  status = status;
  error = failure;
}

-- `RecordSchedulerRun` with the line for its error.
abbrev pub recorded : Result (Unit {0}) → Bytes → Scheduler → Scheduler
recorded (ok u) id e = e
recorded (err x) id e = write_line (unrecorded id) e

abbrev pub record_run : Time → Bytes → Bytes → Bytes → Scheduler → Scheduler
record_run started id status failure e =
    let stored = record_scheduler_run id (finished_run started id status failure e) e.db in
    recorded stored.0 id (record e { db = stored.1 })

-- The function is called.
abbrev pub call : Bytes → TaskDef → Scheduler → Option Bytes × Scheduler
call id t e =
    let done = t.run e.db in (done.0, record e { db = done.1; called = e.called ++ id ∷ [] })

-- After the call, by its error.
abbrev pub run_ended : Time → Bytes → Option Bytes × Scheduler → Scheduler
run_ended started id (none, e) =
    write_line (completed id) (record_run started id (codes "success") [] e)
run_ended started id (some failure, e) =
    write_line (failed id)
      (record_run started id (codes "failed") failure (notify_scheduler_error id e))

abbrev pub run_if : Bool → Bytes → TaskDef → Scheduler → Scheduler
run_if true id t e = run_ended e.db.now id (call id t e)
run_if false id t e = write_line (skipped id) (record_run e.db.now id (codes "skipped") [] e)

-- The flag of the row, or of the definition where the row cannot be read.
abbrev pub enabled_flag : Result TaskRow → TaskDef → Bool
enabled_flag (ok row) t = row.enabled
enabled_flag (err e) t = t.enabled

abbrev pub run_registered : Bytes → Option TaskDef → Scheduler → Scheduler
run_registered id none e = e
run_registered id (some t) e =
    let read = get_scheduler_task id e.db in
    run_if (enabled_flag read.0 t) id t (record e { db = read.1 })

-- `runTask`
unfoldable pub run_task : Bytes → Scheduler → Scheduler
run_task id e = run_registered id (get id e.tasks) e

-- overdue > 0 && overdue <= s.catchUpWindow
abbrev pub within : ℤ → Time → Time → Bool
within (pos window) now next = ltb next now && leb (now - next) window
within (negsuc window) now next = false

abbrev pub is_due : ℤ → Time → Result TaskRow → Bool
is_due window now (err e) = false
is_due window now (ok row) = elim row.next_run [
  | none ↦ false
  | some next ↦ row.enabled && within window now (from_unix next)
]

-- The tasks to catch up on, and the database after the reads.
abbrev pub due_tasks : ℤ → Time → List (Bytes × TaskDef) → Db → List Bytes × Db
due_tasks window now [] s = ([], s)
due_tasks window now ((id, t) ∷ tasks) s =
    let read = get_scheduler_task id s in
    let rest = due_tasks window now tasks read.1 in
    if is_due window now read.0 then (id ∷ rest.0, rest.1) else rest

abbrev pub run_all : List Bytes → Scheduler → Scheduler
run_all [] e = e
run_all (id ∷ ids) e = run_all ids (run_task id e)

-- The goroutines of `catchUp`, in one of the orders they may take.
unfoldable pub catch_up : Scheduler → Scheduler
catch_up e =
    let due = due_tasks e.catch_up_window e.db.now e.tasks e.db in
    run_all due.0 (record e { db = due.1 })

abbrev job_of : (JobDefinition → Option (Option Time)) → Option JobDefinition → Option (Option Time)
job_of new_job none = none
job_of new_job (some definition) = new_job definition

abbrev with_job :
    Bytes
    → Option (Option Time)
    → Option (List (Bytes × Option Time))
    → Option (List (Bytes × Option Time))
with_job id (some job) (some jobs) = some ((id, job) ∷ jobs)
with_job id _ _ = none

-- The jobs, in order; `new_job` is the job engine: `none` where it refuses the definition.
abbrev pub new_jobs :
    Library
    → (JobDefinition → Option (Option Time))
    → List (Bytes × TaskDef)
    → Option (List (Bytes × Option Time))
new_jobs lib new_job [] = some []
new_jobs lib new_job ((id, t) ∷ tasks) =
    let rest = new_jobs lib new_job tasks in
    with_job id (job_of new_job (parse_schedule lib t.schedule)) rest

-- After an error the scheduler does not start; the jobs that were made before it are left out.
abbrev pub started_with :
    Option (List (Bytes × Option Time)) → Scheduler → Option SchedulerError × Scheduler
started_with none e = (some bad_schedule, e)
started_with (some jobs) e = (none, catch_up (record e { jobs = jobs }))

unfoldable pub start :
    Library → (JobDefinition → Option (Option Time)) → Scheduler → Option SchedulerError × Scheduler
start lib new_job e = started_with (new_jobs lib new_job e.tasks) e

-- What `RunNow` returns: the error of the record, or that of the task.
abbrev pub run_now_result :
    Option Bytes → Result (Unit {0}) × Db → Scheduler → Option SchedulerError × Scheduler
run_now_result failure (err x, s) e = (some (database x), record e { db = s })
run_now_result none (ok u, s) e = (none, record e { db = s })
run_now_result (some failure) (ok u, s) e = (some (task_error failure), record e { db = s })

abbrev pub status_of : Option Bytes → Bytes
status_of none = codes "success"
status_of (some failure) = codes "failed"

abbrev pub text_of : Option Bytes → Bytes
text_of none = []
text_of (some failure) = failure

abbrev pub run_called : Time → Bytes → Option Bytes × Scheduler → Option SchedulerError × Scheduler
run_called started id (failure, e) =
    run_now_result failure
      (record_scheduler_run id (finished_run started id (status_of failure) (text_of failure) e)
        e.db)
      e

abbrev pub run_known : Bytes → Option TaskDef → Scheduler → Option SchedulerError × Scheduler
run_known id none e = (some unknown_task, e)
run_known id (some t) e = run_called e.db.now id (call id t e)

unfoldable pub run_now : Bytes → Scheduler → Option SchedulerError × Scheduler
run_now id e = run_known id (get id e.tasks) e

abbrev pub set_known : Bytes → Bool → Option TaskDef → Scheduler → Option SchedulerError × Scheduler
set_known id enabled none e = (some unknown_task, e)
set_known id enabled (some t) e =
    let stored = set_scheduler_task_enabled id enabled e.db in
    (reported stored.0, record e { db = stored.1 })

unfoldable pub set_enabled : Bytes → Bool → Scheduler → Option SchedulerError × Scheduler
set_enabled id enabled e = set_known id enabled (get id e.tasks) e
