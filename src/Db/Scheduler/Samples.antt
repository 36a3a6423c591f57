-- ===== src/Db/Scheduler/Samples.antt =====
-- A sample task, run twice.
use shortner.Shared
use shortner.Shared.{ℕ, ◌≡◌, refl, ◌*◌, true, none, List, [], ◌∷◌, Bytes, codes, arith}
use shortner.Http.Samples.{start, empty_tables}
use shortner.Db.Exec.{Db}
use shortner.Db.Scheduler.{Run, new_task}
use shortner.Db.Scheduler.Balanced.{
  Operation, recording, pruning, operate, Balanced, operate-Balanced,
}

abbrev backup : Bytes
backup = codes "backup"

abbrev registered : Db
registered = record start {
  tables = record empty_tables {
    tasks = (backup, new_task (codes "Backup") (codes "@daily") none) ∷ [];
  };
}

abbrev run : Bytes → Run
run status = record {
  started_at = 5 * 1_000_000_000;
  finished_at = 6 * 1_000_000_000;
  next_run = none;
  status = status;
  error = [];
}

abbrev two_runs : List Operation
two_runs =
    recording backup (run (codes "success"))
    ∷ recording backup (run (codes "failed"))
    ∷ pruning 1
    ∷ []

operate-Balanced_example : Balanced backup (operate two_runs registered).tables
unfolding Shared.eq_bytes
operate-Balanced_example =
    operate-Balanced backup two_runs registered
      (new_task (codes "Backup") (codes "@daily") none, refl, omega arith, omega arith)
