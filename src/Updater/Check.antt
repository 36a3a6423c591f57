-- ===== src/Updater/Check.antt =====
-- `updateCheckTask` of src/scheduler/update.go, and the state file of src/updater/state.go.
use shortner.Shared.{
  ℕ, suc, Bool, not, ◌&&◌, Option, none, some, List, [], ◌∷◌, ◌++◌, Bytes, codes, if◌then◌else◌,
  eq_bytes,
}
use shortner.Db.Rows.{Time}
use shortner.Library.{Library}
use shortner.Updater.{Release, Answer, version, key, check_for_update}
use shortner.Updater.Install.{Reply, Calls, UpdateError, do_update}

-- `checked_at` is `none` where it is the zero time.
pub record State : Type 0 where
  pub branch : Bytes
  pub checked_at : Option Time
  pub available_version : Bytes
  pub notified_key : Bytes

-- `LoadState` of the file's contents: `none` is a file that is missing or unreadable.
unfoldable pub load_state : Option State → State
load_state none = record {
  branch = [];
  checked_at = none;
  available_version = [];
  notified_key = [];
}
load_state (some s) = s

pub record UpdateConfig : Type 0 where
  pub branch : Bytes
  pub auto_install : Bool
  pub defer_days : ℕ

pub record UpdateDeps : Type 0 where
  pub cfg : UpdateConfig
  pub current_version : Bytes
  pub build_epoch : ℕ
  pub state_path : Bytes

unfoldable pub configured : UpdateDeps → Bool
configured u =
    not (eq_bytes u.current_version [])
    && (not (eq_bytes u.current_version (codes "devel")) && not (eq_bytes u.state_path []))

-- What the task changes: the state file, the executable, the releases that were announced and those
-- that were reported as installed, and how often the program was started again.
pub record Host : Type 0 where
  pub state_file : Option State
  pub executable : Bytes
  pub announced : List Release
  pub installed : List Release
  pub restarts : ℕ

-- One run: the settings of the process, the instant, the answers of the network, and which calls
-- succeed.
pub record CheckRun : Type 0 where
  pub deps : UpdateDeps
  pub now : Time
  pub github : Bytes → Answer
  pub web : Bytes → Reply
  pub asset : Bytes
  pub calls : Calls
  pub save : Bool
  pub restart : Bool

pub data CheckError : Type 0 where
  check_failed save_failed restart_failed : CheckError
  install_failed : UpdateError → CheckError

unfoldable pub save_state : Bool → State → Host → Host
save_state save s h = if save then record h { state_file = some s } else h

abbrev pub checked : CheckRun → State → State
checked run s = record s { branch = run.deps.cfg.branch; checked_at = some run.now }

-- Nothing eligible: the marker is cleared, and an error of the file is dropped.
abbrev pub nothing_found : CheckRun → Host → Host
nothing_found run h =
    save_state run.save (record (checked run (load_state h.state_file)) { available_version = [] })
      h

-- From the installation on.
unfoldable pub auto_install : Library → CheckRun → Release → Host → Option CheckError × Host
auto_install lib run r h =
    let (failure, executable) = do_update lib run.calls run.web run.asset r h.executable in
    let replaced = record h { executable = executable } in
    elim failure [
      | some e ↦ (some (install_failed e), replaced)
      | none ↦
          let reported = record replaced { installed = h.installed ++ r ∷ [] } in
          if not run.restart
          then (some restart_failed, reported)
          else (none, record reported { restarts = suc h.restarts })
    ]

abbrev pub announce : Bool → Release → Host → Host
announce new r h = if new then record h { announced = h.announced ++ r ∷ [] } else h

abbrev pub found : Library → CheckRun → Release → Host → Option CheckError × Host
found lib run r h =
    let state = load_state h.state_file in
    let new = not (eq_bytes state.notified_key (key lib r)) in
    let marked = record (checked run state) { available_version = version lib r } in
    let told = if new then record marked { notified_key = key lib r } else marked in
    let saved = save_state run.save told (announce new r h) in
    if not run.save
    then (some save_failed, saved)
    else if not run.deps.cfg.auto_install
    then (none, saved)
    else auto_install lib run r saved

abbrev pub after_check :
    Library → CheckRun → Option (Option Release) → Host → Option CheckError × Host
after_check lib run none h = (some check_failed, h)
after_check lib run (some none) h = (none, nothing_found run h)
after_check lib run (some (some r)) h = found lib run r h

abbrev pub check_eligible : CheckRun → Option (Option Release)
check_eligible run =
    check_for_update run.github run.deps.current_version run.deps.cfg.branch run.deps.build_epoch
      run.deps.cfg.defer_days run.now

unfoldable pub update_check : Library → CheckRun → Host → Option CheckError × Host
update_check lib run h =
    if not (configured run.deps) then (none, h) else after_check lib run (check_eligible run) h

-- The runs one after the other, whatever each returns.
abbrev pub check_runs : Library → List CheckRun → Host → Host
check_runs lib [] h = h
check_runs lib (run ∷ runs) h = check_runs lib runs (update_check lib run h).1
