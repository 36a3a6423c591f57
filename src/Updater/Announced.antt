-- ===== src/Updater/Announced.antt =====
-- When the task `update_check` announces a release (src/scheduler/update.go).
use shortner.Shared.{
  ◌≡◌, refl, sym, ap, ◌∙◌, inl, inr, Bool, true, false, not, Option, none, some, List, [], ◌∷◌,
  ◌++◌, Bytes, arith, Bool-cases, if◌then◌else◌, eq_bytes, eq_bytes_iff, All,
}
use shortner.Library.{Library}
use shortner.Updater.{Release, key}
use shortner.Updater.Check.{
  load_state, Host, CheckRun, configured, save_state, auto_install, announce, found, after_check,
  check_eligible, update_check, check_runs,
}

-- What a run finds.
abbrev pub release_of : Option (Option Release) → List Release
release_of none = []
release_of (some none) = []
release_of (some (some r)) = r ∷ []

abbrev pub found_by : List CheckRun → List Release
found_by [] = []
found_by (run ∷ runs) = release_of (check_eligible run) ++ found_by runs

module _ (lib : Library) where
  -- Of the releases, each whose key is not that of the one before it; the first, where its key is not
  -- the given one.
  abbrev pub changes : Bytes → List Release → List Release
  changes last [] = []
  changes last (r ∷ rs) =
      let same = changes last rs in
      let other = r ∷ changes (key lib r) rs in if eq_bytes last (key lib r) then same else other

  abbrev notified : Host → Bytes
  notified h = (load_state h.state_file).notified_key

  abbrev last_key : Bytes → List Release → Bytes
  last_key last [] = last
  last_key last (r ∷ rs) = last_key (key lib r) rs

  changes_concat :
      (last : Bytes) (rs rest : List Release)
      → changes last (rs ++ rest) ≡ changes last rs ++ changes (last_key last rs) rest
  changes_concat last [] rest = refl
  changes_concat last (r ∷ rs) rest = elim (Bool-cases (eq_bytes last (key lib r))) [
    | inl same ↦
        let here = (eq_bytes_iff last (key lib r)).0 same in
        rw (same) (
          ap (λ (k : Bytes). changes k (rs ++ rest)) here
          ∙ changes_concat (key lib r) rs rest
          ∙ ap (λ (k : Bytes). changes k rs ++ changes (last_key (key lib r) rs) rest) (sym here))
    | inr other ↦ rw other (ap (λ (t : List Release). r ∷ t) (changes_concat (key lib r) rs rest))
  ]

  -- What a run that can write its state file leaves, by what it finds.
  abbrev Told : List Release → Host → Host → Type 0
  Told rs h after =
      (after.announced ≡ h.announced ++ changes (notified h) rs)
      × (notified after ≡ last_key (notified h) rs)

  concat_nil : (rs : List Release) → rs ++ [] ≡ rs
  concat_nil [] = refl
  concat_nil (r ∷ rs) = ap (λ (t : List Release). r ∷ t) (concat_nil rs)

  concat_assoc : (a b c : List Release) → (a ++ b) ++ c ≡ a ++ (b ++ c)
  concat_assoc [] b c = refl
  concat_assoc (r ∷ a) b c = ap (λ (t : List Release). r ∷ t) (concat_assoc a b c)

  announced_later :
      (run : CheckRun) (r : Release) (h : Host)
      → (found lib run r h).1.announced
        ≡ (announce (not (eq_bytes (notified h) (key lib r))) r h).announced
  unfolding save_state auto_install
  announced_later run r h = ground arith

  notified_later :
      (run : CheckRun) (r : Release) (h : Host)
      → run.save ≡ true
      → notified (found lib run r h).1 ≡ key lib r
  unfolding save_state load_state auto_install
  notified_later run r h saved =
      ground (arith, saved, eq_bytes_iff (load_state h.state_file).notified_key (key lib r))

  found-Told :
      (run : CheckRun) (r : Release) (h : Host)
      → run.save ≡ true
      → Told (r ∷ []) h (found lib run r h).1
  found-Told run r h saved = (
    announced_later run r h ∙ told (eq_bytes (notified h) (key lib r)),
    notified_later run r h saved,
  )
    where
      told :
          (same : Bool)
          → (announce (not same) r h).announced ≡ h.announced ++ (if same then [] else r ∷ [])
      told true = sym (concat_nil h.announced)
      told false = refl

  after_check-Told :
      (run : CheckRun) (o : Option (Option Release)) (h : Host)
      → run.save ≡ true
      → Told (release_of o) h (after_check lib run o h).1
  unfolding save_state load_state
  after_check-Told run none h saved = (sym (concat_nil h.announced), refl)
  after_check-Told run (some none) h saved = rw saved (sym (concat_nil h.announced), refl)
  after_check-Told run (some (some r)) h saved = found-Told run r h saved

  -- A run of a program with a version and a state file.
  abbrev pub Working : CheckRun → Type 0
  Working run = (configured run.deps ≡ true) × (run.save ≡ true)

  update_check-Told :
      (run : CheckRun) (h : Host)
      → Working run
      → Told (release_of (check_eligible run)) h (update_check lib run h).1
  unfolding update_check
  update_check-Told run h (ready, saved) =
      rw ready (after_check-Told run (check_eligible run) h saved)

  -- Over any runs of the task that can write the state file, the releases announced are those that the
  -- runs find, in order, without each whose key is that of the one found before it: no release is
  -- announced again by the next runs that find it, none that differs from the last is left out, also
  -- across runs that find nothing, fail, install or start the program again.
  pub announced-check_runs :
      (runs : List CheckRun) (h : Host)
      → All Working runs
      → (check_runs lib runs h).announced
        ≡ h.announced ++ changes (load_state h.state_file).notified_key (found_by runs)
  announced-check_runs [] h working = sym (concat_nil h.announced)
  announced-check_runs (run ∷ runs) h (here, working) =
      let after = (update_check lib run h).1 in
      let rs = release_of (check_eligible run) in
      let (told, marked) = update_check-Told run h here in
      announced-check_runs runs after working
      ∙ ap (λ (t : List Release). t ++ changes (notified after) (found_by runs)) told
      ∙ concat_assoc h.announced (changes (notified h) rs)
          (changes (notified after) (found_by runs))
      ∙ ap (λ (k : Bytes). h.announced ++ (changes (notified h) rs ++ changes k (found_by runs)))
          marked
      ∙ ap (λ (t : List Release). h.announced ++ t)
          (sym (changes_concat (notified h) rs (found_by runs)))
