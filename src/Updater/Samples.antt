-- ===== src/Updater/Samples.antt =====
-- Sample releases, and the theorems on them.
use shortner.Shared
use shortner.Updater
use shortner.Updater.Install
use shortner.Updater.Check
use shortner.Http.Samples.{sample_library}
use shortner.Shared.{
  ℕ, ◌*◌, ◌≡◌, refl, Bool, true, false, Option, none, some, List, [], ◌∷◌, ◌++◌, Bytes, codes,
  arith, eq_bytes, if◌then◌else◌,
}
use shortner.Updater.{Asset, Release, Answer, answered, unreachable, select}
use shortner.Updater.Install.{Reply, replied, Calls, do_update, binary_name}
use shortner.Updater.Check.{State, UpdateConfig, UpdateDeps, Host, CheckRun, check_runs, load_state}
use shortner.Updater.Upgrade.{Upgrades, select-Upgrades}
use shortner.Updater.Verified.{Replaced, do_update-Replaced}
use shortner.Updater.Announced.{changes, found_by, announced-check_runs}

abbrev asset_name : Bytes
asset_name = codes "shortner-linux-amd64"

abbrev sums_url : Bytes
sums_url = codes "u/sums"

abbrev binary_url : Bytes
binary_url = codes "u/bin"

abbrev release : Bytes → Bool → ℕ → Release
release tag prerelease at = record {
  tag_name = tag;
  prerelease = prerelease;
  published_at = some at;
  assets =
      record { name = codes "sha256.txt"; browser_download_url = sums_url }
      ∷ record { name = asset_name; browser_download_url = binary_url }
      ∷ [];
}

abbrev v1 : Release
v1 = release (codes "v1") false 100

abbrev v2 : Release
v2 = release (codes "v2") false 200

abbrev v3_beta : Release
v3_beta = release (codes "v3-beta") true 300

abbrev listing : List Release
listing = v3_beta ∷ v2 ∷ v1 ∷ []

select_upgrades : select listing (codes "v1") (codes "stable") 0 0 500 ≡ some v2
unfolding select Updater.matches_branch Updater.eligible Shared.eq_bytes Shared.has_prefix
select_upgrades = refl

-- A beta version on the stable channel is passed by, and an older one is taken.
select_downgrades : select listing (codes "v3-beta") (codes "stable") 0 0 500 ≡ some v2
unfolding select Updater.matches_branch Updater.eligible Shared.eq_bytes Shared.has_prefix
select_downgrades = refl

select-Upgrades_example : Upgrades (codes "v1") (codes "stable") 0 0 500 listing v1 v2
unfolding Updater.matches_branch Shared.eq_bytes Shared.has_prefix
select-Upgrades_example =
    select-Upgrades (codes "v1") (codes "stable") 0 0 500 listing v1 v2 2
      ((omega arith, (omega arith, tt)), ((omega arith, tt), (tt, tt))) (refl, refl, refl) refl
      select_upgrades

-- The file is its own hash, which the list gives in capital letters.
abbrev web : Bytes → Reply
web url =
    if eq_bytes url binary_url
    then replied 200 (codes "abc") true
    else replied 200 (codes "ABC  shortner-linux-amd64") true

abbrev all_well : Calls
all_well = record {
  create_temp = true;
  close_temp = true;
  read_back = true;
  chmod = true;
  locate = true;
  eval_symlinks = true;
  stat = true;
  rename = true;
  restore_mode = true;
}

update_installs :
    do_update sample_library all_well web asset_name v2 (codes "old") ≡ (none, codes "abc")
unfolding do_update Install.download Install.asset_url Install.split_lines Shared.split_at
    Install.fields Install.fetch_expected_checksum Install.verify_checksum Install.replace_binary
    Shared.eq_bytes Shared.to_lower Shared.is_space
update_installs = refl

do_update-Replaced_example :
    Replaced sample_library web asset_name v2
      (codes "old")
      (do_update sample_library all_well web asset_name v2 (codes "old"))
do_update-Replaced_example =
    do_update-Replaced sample_library web asset_name v2 (codes "old") all_well

abbrev run : List Release → CheckRun
run found = record {
  deps = record {
    cfg = record { branch = codes "stable"; auto_install = false; defer_days = 0 };
    current_version = codes "v1";
    build_epoch = 0;
    state_path = codes "/data/update.json";
  };
  now = 500;
  github = λ url. answered 200 (some v2) (some found);
  web = web;
  asset = asset_name;
  calls = all_well;
  save = true;
  restart = true;
}

abbrev host : Host
host = record {
  state_file = none;
  executable = codes "old";
  announced = [];
  installed = [];
  restarts = 0;
}

announced-check_runs_example :
    (check_runs sample_library (run listing ∷ run listing ∷ []) host).announced
    ≡ []
      ++ changes sample_library
          (load_state none).notified_key
          (found_by (run listing ∷ run listing ∷ []))
unfolding Check.configured Shared.eq_bytes
announced-check_runs_example =
    announced-check_runs sample_library (run listing ∷ run listing ∷ []) host
      ((refl, refl), ((refl, refl), tt))

announced_once :
    []
      ++ changes sample_library
          (load_state none).notified_key
          (found_by (run listing ∷ run listing ∷ []))
    ≡ v2 ∷ []
unfolding load_state select Updater.matches_branch Updater.eligible Updater.key
    Updater.fetch_releases Updater.check_for_update Shared.eq_bytes Shared.has_prefix
announced_once = refl
