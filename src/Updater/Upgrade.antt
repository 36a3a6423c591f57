-- ===== src/Updater/Upgrade.antt =====
-- Which release `Select` takes (src/updater/updater.go).
use shortner.Shared.{
  ℕ, zero, suc, ◌≤◌, ◌≡◌, subst, inl, inr, true, false, Option, none, some, List, [], ◌∷◌, Bytes,
  arith, Bool-cases, eq_bytes, eq_bytes_iff, get_elem?, All-get_elem?, All,
}
use mathlib.Core.Option.{some-injective}
use shortner.Db.Rows.{Time}
use shortner.Updater.{Release, is_daily, matches_branch, eligible, built_after, select}

-- The instant of publication; a release without one stands before all others.
abbrev pub published : Release → ℕ
published r = elim r.published_at [ none ↦ 0 | some at ↦ at ]

-- The order of the API: no release before a newer one.
abbrev pub NewestFirst : List Release → Type 0
NewestFirst [] = Unit
NewestFirst (r ∷ rs) = All (λ s. published s ≤ published r) rs × NewestFirst rs

module _ (current branch : Bytes) (build_epoch defer_days : ℕ) (now : Time) where
  -- A release of the channel that has aged long enough, and, of the rolling tag, one that was
  -- published after the build.
  abbrev pub Adoptable : Release → Type 0
  Adoptable r =
      (matches_branch r branch ≡ true)
      × (eligible r defer_days now ≡ true)
      × (is_daily r ≡ true → built_after r build_epoch ≡ false)

  -- A release of the channel with a version tag, the running program's.
  abbrev pub Running : Release → Type 0
  Running r = (matches_branch r branch ≡ true) × (is_daily r ≡ false) × (r.tag_name ≡ current)

  abbrev chosen : List Release → Option Release
  chosen rs = select rs current branch build_epoch defer_days now

  -- The taken release: adoptable, not before the running one, and no other adoptable one is newer.
  abbrev pub Upgrades : List Release → Release → Release → Type 0
  Upgrades rs running r =
      Adoptable r
      × (published running ≤ published r)
      × ((i : ℕ) (s : Release) → get_elem? rs i ≡ some s → Adoptable s → published s ≤ published r)

  passed_over :
      (b r running : Release) (rs : List Release) (i : ℕ)
      → (Adoptable b → ⊥)
      → (Running b → ⊥)
      → Running running
      → get_elem? (b ∷ rs) i ≡ some running
      → ((j : ℕ) → get_elem? rs j ≡ some running → Upgrades rs running r)
      → Upgrades (b ∷ rs) running r
  passed_over b r running rs zero unfit other here e deeper =
      let one : b ≡ running = cc in absurd (other (rw one here))
  passed_over b r running rs (suc i) unfit other here e deeper =
      let (fit, no_older, first) = deeper i e in (fit, no_older, newest)
    where
      newest :
          (j : ℕ) (s : Release)
          → get_elem? (b ∷ rs) j ≡ some s
          → Adoptable s
          → published s ≤ published r
      newest zero s there fits = let one : b ≡ s = cc in absurd (unfit (rw one fits))
      newest (suc j) s there fits = (deeper i e).2 j s there fits

  taken :
      (r running : Release) (rs : List Release) (i : ℕ)
      → Adoptable r
      → NewestFirst (r ∷ rs)
      → get_elem? (r ∷ rs) i ≡ some running
      → Upgrades (r ∷ rs) running r
  taken r running rs i fit (newest, sorted) e =
      let older : All (λ t. published t ≤ published r) (r ∷ rs) = (omega arith, newest) in
      (
        fit,
        All-get_elem? (λ t. published t ≤ published r) (r ∷ rs) i running older e,
        λ j s there fits. All-get_elem? (λ t. published t ≤ published r) (r ∷ rs) j s older there,
      )

  -- On a list of releases in the API's order that holds the running version as a release of the channel,
  -- `Select` takes a release of the channel that has aged past the defer window and, where it has the
  -- rolling tag, was published after the build; it was not published before the running version, and no
  -- other release of the list that fulfils the same is newer.
  pub select-Upgrades :
      (rs : List Release) (running r : Release) (i : ℕ)
      → NewestFirst rs
      → Running running
      → get_elem? rs i ≡ some running
      → chosen rs ≡ some r
      → Upgrades rs running r
  unfolding select
  select-Upgrades [] running r i sorted here e took = absurd (ground (arith, took))
  select-Upgrades (b ∷ rs) running r i (newest, sorted) here e took =
      let deeper = λ (rest : chosen rs ≡ some r) (j : ℕ) (there : get_elem? rs j ≡ some running).
        select-Upgrades rs running r j sorted here there rest in
      let skip = λ (unfit : Adoptable b → ⊥) (other : Running b → ⊥) (rest : chosen rs ≡ some r).
        passed_over b r running rs i unfit other here e (deeper rest) in
      let take_it = λ (fit : Adoptable b) (took_b : some b ≡ some r).
        subst (λ x. Upgrades (b ∷ rs) running x) (some-injective _ _ took_b)
          (taken b running rs i fit (newest, sorted) e) in
      elim (Bool-cases (matches_branch b branch)) [
        | inr apart ↦ skip (λ h. cc) (λ h. cc) (rw apart at took)
        | inl matched ↦ elim (Bool-cases (is_daily b)) [
          | inl daily ↦ elim (Bool-cases (built_after b build_epoch)) [
            | inl old ↦
                skip (λ h. let fresh = h.2 daily in cc) (λ h. cc) (rw (matched, daily, old) at took)
            | inr fresh ↦ elim (Bool-cases (eligible b defer_days now)) [
              | inr young ↦ skip (λ h. cc) (λ h. cc) (rw (matched, daily, fresh, young) at took)
              | inl aged ↦
                  take_it (matched, aged, λ d. fresh) (rw (matched, daily, fresh, aged) at took)
            ]
          ]
          | inr tagged ↦ elim (Bool-cases (eq_bytes b.tag_name current)) [
            | inl same ↦
                let stop : none ≡ some r = rw (matched, tagged, same) at took in absurd (cc)
            | inr other ↦
                let not_running : Running b → ⊥ =
                  λ h. let same = (eq_bytes_iff b.tag_name current).1 h.2 in cc in
                elim (Bool-cases (eligible b defer_days now)) [
                  | inr young ↦
                      skip (λ h. cc) not_running (rw (matched, tagged, other, young) at took)
                  | inl aged ↦
                      take_it (matched, aged, λ d. absurd (cc))
                        (rw (matched, tagged, other, aged) at took)
                ]
          ]
        ]
      ]
