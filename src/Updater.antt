-- ===== src/Updater.antt =====
-- src/updater/updater.go: the releases of the three channels, and the one that an update takes.
--
-- Durations and defer_days are natural numbers: `Validate` of src/config/limits.go leaves a defer_days
-- from 0 to 365, for which the product in `Eligible` is far from the bounds of int64.
pub mod Install
pub mod Check
pub mod Upgrade
pub mod Verified
pub mod Announced
pub mod Samples
use shortner.Shared.{
  ℕ, ◌+◌, ◌*◌, Bool, true, false, not, ◌&&◌, ◌||◌, Option, none, some, List, [], ◌∷◌, ◌++◌, Bytes,
  codes, leb, ◌==◌, if◌then◌else◌, eq_bytes, has_suffix,
}
use shortner.Db.Rows.{Time, unix, nanoseconds}
use shortner.Library.{Library}

abbrev pub branch_stable : Bytes
branch_stable = codes "stable"

abbrev pub branch_beta : Bytes
branch_beta = codes "beta"

abbrev pub branch_daily : Bytes
branch_daily = codes "daily"

abbrev pub daily_tag : Bytes
daily_tag = codes "daily"

abbrev branches : List Bytes
branches = branch_stable ∷ branch_beta ∷ branch_daily ∷ []

abbrev any_branch : Bytes → List Bytes → Bool
any_branch name [] = false
any_branch name (b ∷ bs) = eq_bytes name b || any_branch name bs

unfoldable pub valid_branch : Bytes → Bool
valid_branch name = any_branch name branches

pub record Asset : Type 0 where
  pub name : Bytes
  pub browser_download_url : Bytes

-- `published_at` is `none` where it is the zero time.
pub record Release : Type 0 where
  pub tag_name : Bytes
  pub prerelease : Bool
  pub published_at : Option Time
  pub assets : List Asset

abbrev pub is_daily : Release → Bool
is_daily r = eq_bytes r.tag_name daily_tag

unfoldable pub version : Library → Release → Bytes
version lib r =
    if is_daily r
    then codes "daily (published " ++ (lib.utc_text r.published_at ++ codes ")")
    else r.tag_name

unfoldable pub key : Library → Release → Bytes
key lib r = if is_daily r then codes "daily@" ++ lib.utc_text r.published_at else r.tag_name

unfoldable pub matches_branch : Release → Bytes → Bool
matches_branch r branch =
    let is_beta = has_suffix r.tag_name (codes "-beta") in
    if not r.prerelease
    then true
    else if eq_bytes branch branch_beta
    then is_beta
    else if eq_bytes branch branch_daily
    then is_beta || is_daily r
    else false

unfoldable pub eligible : Release → ℕ → Time → Bool
eligible r defer_days now = elim r.published_at [
  | none ↦ true
  | some at ↦ defer_days == 0 || leb (at + defer_days * (24 * 3600 * nanoseconds)) now
]

-- r.PublishedAt.Unix() <= buildEpoch; the zero time is before every build.
unfoldable pub built_after : Release → ℕ → Bool
built_after r build_epoch = elim r.published_at [
  | none ↦ true
  | some at ↦ leb (unix at) build_epoch
]

-- The release that the walk returns; it ends at the running version.
unfoldable pub select : List Release → Bytes → Bytes → ℕ → ℕ → Time → Option Release
select [] current_version branch build_epoch defer_days now = none
select (r ∷ rs) current_version branch build_epoch defer_days now =
    let rest = select rs current_version branch build_epoch defer_days now in
    if not (matches_branch r branch)
    then rest
    else if is_daily r
    then (if built_after r build_epoch
        then rest
        else if not (eligible r defer_days now)
        then rest
        else some r)
    else if eq_bytes r.tag_name current_version
    then none
    else if not (eligible r defer_days now)
    then rest
    else some r

-- The answer of the GitHub API: its status, and its body decoded as one release and as a list.
pub data Answer : Type 0 where
  unreachable : Answer
  answered : ℕ → Option Release → Option (List Release) → Answer

abbrev decode : Bool → Answer → Option (List Release)
decode single unreachable = none
decode single (answered status one many) =
    if status == 404
    then some []
    else if not (status == 200)
    then none
    else if single
    then elim one [ none ↦ none | some r ↦ some (r ∷ []) ]
    else many

-- `none` is an error.
unfoldable pub fetch_releases : (Bytes → Answer) → Bytes → ℕ → Option (List Release)
fetch_releases github branch defer_days =
    let url = codes "https://api.github.com/repos/apimgr/shortner/releases" in
    let single = eq_bytes branch branch_stable && defer_days == 0 in
    decode single (github (if single then url ++ codes "/latest" else url))

-- `checkForUpdate`: `none` is an error, `some none` that nothing newer is there.
unfoldable pub check_for_update :
    (Bytes → Answer) → Bytes → Bytes → ℕ → ℕ → Time → Option (Option Release)
check_for_update github current_version branch build_epoch defer_days now =
    elim (fetch_releases github branch defer_days) [
      | none ↦ none
      | some releases ↦ some (select releases current_version branch build_epoch defer_days now)
    ]
