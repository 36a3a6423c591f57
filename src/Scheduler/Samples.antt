-- ===== src/Scheduler/Samples.antt =====
-- A sample scheduler with two of the tasks.
use shortner.Shared
use shortner.Db.Exec
use shortner.Db.Scheduler as Tables
use shortner.Http.Samples.{sample_library, start as start_db, empty_tables}
use shortner.Shared.{
  ℕ, ◌≡◌, refl, ◌*◌, Bool, true, false, Option, none, some, List, [], ◌∷◌, Bytes, codes, pos, get,
  eq_bytes, count_if, arith,
}
use shortner.Db.Exec.{Db}
use shortner.Db.Scheduler.{new_task}
use shortner.Scheduler.{Scheduler, register, run_task}
use shortner.Scheduler.Disabled.{Off}
use shortner.Scheduler.Idle.{Event, registering, starting, ticking, running, steps, steps_disabled}
use shortner.Scheduler.Tasks.{
  token_cleanup_task, healthcheck_self_task, token_cleanup_task-Gentle,
  healthcheck_self_task-Gentle,
}

abbrev cleanup : Bytes
cleanup = codes "token_cleanup"

abbrev health : Bytes
health = codes "healthcheck_self"

-- The clean-up is disabled in the tables.
abbrev scheduler : Scheduler
scheduler = record {
  db = record start_db {
    tables = record empty_tables {
      tasks =
          (
            cleanup,
            record (new_task (codes "Token Cleanup") (codes "@every 15m") none) { enabled = false },
          )
          ∷ [];
    };
  };
  catch_up_window = pos (3600 * 1_000_000_000);
  tasks = [];
  jobs = [];
  called = [];
  errors = [];
  log = [];
}

abbrev events : List Event
events =
    registering cleanup (codes "Token Cleanup") (codes "@every 15m") true token_cleanup_task
    ∷ registering health (codes "Self Health Check") (codes "@every 5m") true healthcheck_self_task
    ∷ starting sample_library (λ definition. some none)
    ∷ ticking cleanup
    ∷ ticking health
    ∷ running health
    ∷ []

steps_disabled_example :
    Off cleanup (steps events scheduler).db.tables
    × (count_if (λ k. eq_bytes k cleanup) (steps events scheduler).called
        ≡ count_if (λ k. eq_bytes k cleanup) scheduler.called)
unfolding Shared.eq_bytes
steps_disabled_example =
    steps_disabled cleanup events scheduler refl
      (
        record (new_task (codes "Token Cleanup") (codes "@every 15m") none) { enabled = false },
        refl,
        refl,
      )
      (λ k t found. absurd (ground (arith, found)))
      (
        token_cleanup_task-Gentle cleanup,
        (healthcheck_self_task-Gentle cleanup, (tt, (tt, (tt, (refl, tt))))),
      )

-- A task that the settings disable is registered as enabled, and runs.
registered_enabled :
    (run_task health
      (register health
        (codes "Self Health Check")
        (codes "@every 5m")
        false
        (some healthcheck_self_task)
        scheduler).1).called
    ≡ health ∷ []
unfolding run_task register healthcheck_self_task Tables.upsert_scheduler_task
    Tables.get_scheduler_task Tables.record_scheduler_run Exec.exec Exec.attempt
    Exec.with_transaction Shared.eq_bytes
registered_enabled = refl
