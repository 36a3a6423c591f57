-- ===== src/Updater/Install.antt =====
-- `DoUpdate` of src/updater/updater.go with the `replaceBinary` of update_unix.go: a release's binary is
-- downloaded, verified against the release's sha256.txt, and put in the place of the running one.
use shortner.Shared.{
  split_at, ℕ, Bool, not, ◌&&◌, Option, none, some, List, [], ◌∷◌, ◌++◌, map, Bytes, codes, ◌==◌,
  if◌then◌else◌, eq_bytes, to_lower, is_space, keep_if,
}
use shortner.Library.{Library}
use shortner.Updater.{Asset, Release}

-- The answer to a download: its status, what of the body arrived, and whether that is all of it.
pub data Reply : Type 0 where
  refused : Reply
  replied : ℕ → Bytes → Bool → Reply

-- `none` is an error.
unfoldable pub download : Reply → Option Bytes
download refused = none
download (replied status body complete) = if status == 200 && complete then some body else none

unfoldable pub binary_name : Bytes → Bytes → Bytes
binary_name goos goarch =
    let name = codes "shortner-" ++ (goos ++ (codes "-" ++ goarch)) in
    if eq_bytes goos (codes "windows") then name ++ codes ".exe" else name

-- The URL of the first asset of that name, empty where there is none.
unfoldable pub asset_url : Bytes → List Asset → Bytes
asset_url name [] = []
asset_url name (a ∷ assets) =
    let rest = asset_url name assets in
    if eq_bytes a.name name then a.browser_download_url else rest

-- strings.Split(s, "\n")
unfoldable pub split_lines : Bytes → List Bytes
unfolding split_at
split_lines s = split_at (λ c. c == 10) s

-- strings.Fields
unfoldable pub fields : Bytes → List Bytes
unfolding split_at is_space
fields s = keep_if (λ part. not (eq_bytes part [])) (split_at is_space s)

-- The hash of a line of two fields, of which the second is the asset's name.
abbrev pub entry_hash : Bytes → List Bytes → Option Bytes
entry_hash asset (hash ∷ name ∷ []) = if eq_bytes name asset then some hash else none
entry_hash asset _ = none

abbrev pub or_next : Option Bytes → Option Bytes → Option Bytes
or_next none next = next
or_next (some hash) next = some hash

abbrev pub first_entry : Bytes → List Bytes → Option Bytes
first_entry asset [] = none
first_entry asset (line ∷ lines) =
    or_next (entry_hash asset (fields line)) (first_entry asset lines)

unfoldable pub fetch_expected_checksum : (Bytes → Reply) → Release → Bytes → Option Bytes
fetch_expected_checksum web release asset =
    let url = asset_url (codes "sha256.txt") release.assets in
    if eq_bytes url [] then none else elim (download (web url)) [
      | none ↦ none
      | some body ↦ first_entry asset (split_lines body)
    ]

-- strings.EqualFold, on hexadecimal digits.
abbrev pub equal_fold : Bytes → Bytes → Bool
equal_fold a b = eq_bytes (map to_lower a) (map to_lower b)

-- Which of the calls of the operating system succeed.
pub record Calls : Type 0 where
  pub create_temp : Bool
  pub close_temp : Bool
  pub read_back : Bool
  -- Where the code does not make it, on Windows, it succeeds.
  pub chmod : Bool
  pub locate : Bool
  pub eval_symlinks : Bool
  pub stat : Bool
  pub rename : Bool
  pub restore_mode : Bool

pub data UpdateError : Type 0 where
  no_asset temp_file download_failed no_checksum checksum_mismatch permissions : UpdateError
  executable_path replacing : UpdateError

unfoldable pub verify_checksum : Library → Calls → Bytes → Bytes → Bool
verify_checksum lib calls file expected_hash =
    calls.read_back && equal_fold (lib.hash file) expected_hash

-- The error, and the executable afterwards.
unfoldable pub replace_binary : Calls → Bytes → Bytes → Option UpdateError × Bytes
replace_binary calls current new =
    if not (calls.stat && calls.rename)
    then (some replacing, current)
    else if not calls.restore_mode
    then (some replacing, new)
    else (none, new)

-- From the verification on.
abbrev pub install : Library → Calls → Bytes → Bytes → Bytes → Option UpdateError × Bytes
install lib calls current file expected_hash =
    if not (verify_checksum lib calls file expected_hash)
    then (some checksum_mismatch, current)
    else if not calls.chmod
    then (some permissions, current)
    else if not (calls.locate && calls.eval_symlinks)
    then (some executable_path, current)
    else replace_binary calls current file

abbrev pub install_checked :
    Library → Calls → Bytes → Bytes → Option Bytes → Option UpdateError × Bytes
install_checked lib calls current file none = (some no_checksum, current)
install_checked lib calls current file (some expected_hash) =
    install lib calls current file expected_hash

abbrev pub install_downloaded :
    Library
    → Calls
    → (Bytes → Reply)
    → Release
    → Bytes
    → Bytes
    → Option Bytes
    → Option UpdateError × Bytes
install_downloaded lib calls web release asset current none = (some download_failed, current)
install_downloaded lib calls web release asset current (some file) =
    if not calls.close_temp
    then (some temp_file, current)
    else install_checked lib calls current file (fetch_expected_checksum web release asset)

unfoldable pub do_update :
    Library → Calls → (Bytes → Reply) → Bytes → Release → Bytes → Option UpdateError × Bytes
do_update lib calls web asset release current =
    let url = asset_url asset release.assets in
    if eq_bytes url []
    then (some no_asset, current)
    else if not calls.create_temp
    then (some temp_file, current)
    else install_downloaded lib calls web release asset current (download (web url))
