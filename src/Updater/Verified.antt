-- ===== src/Updater/Verified.antt =====
-- What stands in the executable's place after `DoUpdate` (src/updater/updater.go).
use shortner.Shared.{
  ℕ, zero, suc, ◌≡◌, ◌≢◌, refl, ◌∙◌, ◌⊎◌, inl, inr, true, false, not, ◌&&◌, Option, none, some,
  List, [], ◌∷◌, Bytes, codes, arith, Bool-cases, Option-cases, if_intro, eq_bytes, eq_bytes_iff,
  get_elem?,
}
use shortner.Library.{Library}
use shortner.Updater.{Release}
use shortner.Updater.Install.{
  Reply, refused, replied, download, asset_url, split_lines, fields, entry_hash, first_entry,
  fetch_expected_checksum, equal_fold, Calls, UpdateError, no_asset, temp_file, download_failed,
  no_checksum, checksum_mismatch, permissions, executable_path, replacing, verify_checksum,
  replace_binary, install, install_checked, do_update,
}

-- A line of the file with the two fields.
abbrev pub Lists : List Bytes → Bytes → Bytes → Type 0
Lists lines hash name =
    (i : ℕ) × (line : Bytes) × (get_elem? lines i ≡ some line) × (fields line ≡ hash ∷ name ∷ [])

-- The bytes were served in full as the release's asset of that name, and their hash is one that the
-- release's sha256.txt, served in full, lists for the name, up to the case of its digits.
abbrev pub Vouched : Library → (Bytes → Reply) → Bytes → Release → Bytes → Type 0
Vouched lib web asset r file =
    (web (asset_url asset r.assets) ≡ replied 200 file true)
    × (sums : Bytes) × (hash : Bytes) × (web (asset_url (codes "sha256.txt") r.assets)
        ≡ replied 200 sums true)
    × Lists (split_lines sums) hash asset
    × (equal_fold (lib.hash file) hash ≡ true)

download_sound : (r : Reply) (file : Bytes) → download r ≡ some file → r ≡ replied 200 file true
unfolding download
download_sound refused file e = absurd (ground (arith, e))
download_sound (replied status body complete) file e = ground (arith, e)

entry_hash_sound :
    (asset hash : Bytes) (parts : List Bytes)
    → entry_hash asset parts ≡ some hash
    → parts ≡ hash ∷ asset ∷ []
entry_hash_sound asset hash [] e = absurd (ground (arith, e))
entry_hash_sound asset hash (a ∷ []) e = absurd (ground (arith, e))
entry_hash_sound asset hash (a ∷ b ∷ []) e = ground (arith, e, eq_bytes_iff b asset)
entry_hash_sound asset hash (a ∷ b ∷ c ∷ d) e = absurd (ground (arith, e))

first_entry_sound :
    (asset hash : Bytes) (lines : List Bytes)
    → first_entry asset lines ≡ some hash
    → Lists lines hash asset
first_entry_sound asset hash [] e = absurd (ground (arith, e))
first_entry_sound asset hash (line ∷ lines) e =
    elim (Option-cases (entry_hash asset (fields line))) [
      | inl other ↦
          let (i, l, there, parts) = first_entry_sound asset hash lines (rw other at e) in
          (suc i, l, there, parts)
      | inr (h, here) ↦
          let same : some h ≡ some hash = rw here at e in
          (zero, line, refl, entry_hash_sound asset hash (fields line) (here ∙ same))
    ]

module _ (lib : Library) (web : Bytes → Reply) (asset : Bytes) (r : Release) (current : Bytes) where
  -- The executable is the one before, and an error says so; or it is a new one that is vouched for.
  abbrev pub Replaced : Option UpdateError × Bytes → Type 0
  Replaced (failure, x) = ((x ≡ current) × (failure ≢ none)) ⊎ Vouched lib web asset r x

  kept : (e : UpdateError) → Replaced (some e, current)
  kept e = inl (refl, λ h. absurd (ground (arith, h)))

  replace_binary-Replaced :
      (calls : Calls) (file : Bytes)
      → Vouched lib web asset r file
      → Replaced (replace_binary calls current file)
  unfolding replace_binary
  replace_binary-Replaced calls file v =
      if_intro Replaced (not (calls.stat && calls.rename)) (kept replacing)
        (if_intro Replaced (not calls.restore_mode) (inr v) (inr v))

  install-Replaced :
      (calls : Calls) (file sums hash : Bytes)
      → web (asset_url asset r.assets) ≡ replied 200 file true
      → web (asset_url (codes "sha256.txt") r.assets) ≡ replied 200 sums true
      → Lists (split_lines sums) hash asset
      → Replaced (install lib calls current file hash)
  unfolding verify_checksum
  install-Replaced calls file sums hash served listed line =
      elim (Bool-cases (equal_fold (lib.hash file) hash)) [
        | inl equal ↦
            let v : Vouched lib web asset r file = (served, sums, hash, listed, line, equal) in
            if_intro Replaced (not (verify_checksum lib calls file hash)) (kept checksum_mismatch) (
              if_intro Replaced (not calls.chmod) (kept permissions) (
                if_intro Replaced (not (calls.locate && calls.eval_symlinks)) (kept executable_path)
                  (replace_binary-Replaced calls file v)))
        | inr different ↦
            let refused : verify_checksum lib calls file hash ≡ false = ground (arith, different) in
            rw refused (kept checksum_mismatch)
      ]

  install_checked-Replaced :
      (calls : Calls) (file : Bytes)
      → web (asset_url asset r.assets) ≡ replied 200 file true
      → Replaced (install_checked lib calls current file (fetch_expected_checksum web r asset))
  unfolding fetch_expected_checksum
  install_checked-Replaced calls file served =
      let url = asset_url (codes "sha256.txt") r.assets in
      elim (Bool-cases (eq_bytes url [])) [
        | inl missing ↦ rw missing (kept no_checksum)
        | inr there ↦ elim (Option-cases (download (web url))) [
          | inl failed ↦ rw (there, failed) (kept no_checksum)
          | inr (sums, arrived) ↦ elim (Option-cases (first_entry asset (split_lines sums))) [
            | inl unlisted ↦ rw (there, arrived, unlisted) (kept no_checksum)
            | inr (hash, listed) ↦
                rw (there, arrived, listed)
                  (install-Replaced calls file sums hash served
                    (download_sound (web url) sums arrived)
                    (first_entry_sound asset hash (split_lines sums) listed))
          ]
        ]
      ]

  -- `DoUpdate` puts no file in the executable's place but one that was served in full as the release's
  -- asset of the platform and whose SHA-256 hash the release's sha256.txt, also served in full, lists for
  -- that asset; wherever a download, the verification or a system call fails, the executable is either the
  -- one before, and an error is returned, or such a file.
  pub do_update-Replaced : (calls : Calls) → Replaced (do_update lib calls web asset r current)
  unfolding do_update
  do_update-Replaced calls =
      let url = asset_url asset r.assets in
      if_intro Replaced (eq_bytes url []) (kept no_asset) (
        if_intro Replaced (not calls.create_temp) (kept temp_file)
          (elim (Option-cases (download (web url))) [
            | inl failed ↦ rw failed (kept download_failed)
            | inr (file, arrived) ↦ rw arrived (
                if_intro Replaced (not calls.close_temp) (kept temp_file)
                  (install_checked-Replaced calls file (download_sound (web url) file arrived)))
          ]))
