-- ===== src/Shared/Assoc.antt =====
-- A Go map with string keys as an association list that holds no key twice.
use mathlib.Core.Path.{◌≡◌, refl}
use mathlib.Core.Logic.{inl, inr}
use mathlib.Core.Bool.{Bool}
use mathlib.Core.Option.{Option, none, some}
use mathlib.Core.List.{List, [], ◌∷◌}
use native.Mathlib.Omega.{arith}
use shortner.Shared.Tests.{if◌then◌else◌, Bool-cases, if_intro}
use shortner.Shared.Text.{Bytes, eq_bytes, eq_bytes_iff, eq_bytes_refl}

module _ {V : Type 0} where
  abbrev pub get : Bytes → List (Bytes × V) → Option V
  get k [] = none
  get k ((j, v) ∷ m) = let rest = get k m in if eq_bytes j k then some v else rest

  -- delete(m, k)
  abbrev pub delete : Bytes → List (Bytes × V) → List (Bytes × V)
  delete k [] = []
  delete k ((j, v) ∷ m) = let rest = delete k m in if eq_bytes j k then rest else (j, v) ∷ rest

  -- m[k] = v
  abbrev pub put : Bytes → V → List (Bytes × V) → List (Bytes × V)
  put k v m = (k, v) ∷ delete k m

  -- `for k, v := range m { if !keep(k, v) { delete(m, k) } }`
  abbrev pub retain : (Bytes → V → Bool) → List (Bytes × V) → List (Bytes × V)
  retain keep [] = []
  retain keep ((j, v) ∷ m) = let rest = retain keep m in if keep j v then (j, v) ∷ rest else rest

  -- No key stands twice.
  abbrev pub Keyed : List (Bytes × V) → Type 0
  Keyed [] = Unit
  Keyed ((j, v) ∷ m) = (get j m ≡ none) × Keyed m

  abbrev pub if_kept : (V → Bool) → Option V → Option V
  if_kept keep none = none
  if_kept keep (some v) = if keep v then some v else none

  pub get-delete :
      (k j : Bytes) (m : List (Bytes × V))
      → get k (delete j m) ≡ (if eq_bytes j k then none else get k m)
  get-delete k j [] = ground arith
  get-delete k j ((i, v) ∷ m) =
      ground (arith, get-delete k j m, eq_bytes_iff i j, eq_bytes_iff i k, eq_bytes_iff j k)

  pub get-put :
      (k j : Bytes) (v : V) (m : List (Bytes × V))
      → get k (put j v m) ≡ (if eq_bytes j k then some v else get k m)
  get-put k j v m = ground (arith, get-delete k j m)

  absent-retain :
      (keep : Bytes → V → Bool) (k : Bytes) (m : List (Bytes × V))
      → get k m ≡ none
      → get k (retain keep m) ≡ none
  absent-retain keep k [] h = refl
  absent-retain keep k ((j, v) ∷ m) h = ground (arith, absent-retain keep k m)

  -- What is left under a key after the loop.
  pub get-retain :
      (keep : Bytes → V → Bool) (k : Bytes) (m : List (Bytes × V))
      → Keyed m
      → get k (retain keep m) ≡ if_kept (keep k) (get k m)
  get-retain keep k [] h = refl
  get-retain keep k ((j, v) ∷ m) (fresh, h) = elim (Bool-cases (eq_bytes j k)) [
    | inl same ↦
        let here = (eq_bytes_iff j k).0 same in
        let rest : get k (retain keep m) ≡ none = absent-retain keep k m (rw here at fresh) in
        rw here (ground (arith, rest, eq_bytes_refl k))
    | inr other ↦ let deeper = get-retain keep k m h in ground (arith, deeper)
  ]

  pub delete-Keyed : (k : Bytes) (m : List (Bytes × V)) → Keyed m → Keyed (delete k m)
  delete-Keyed k [] h = tt
  delete-Keyed k ((j, v) ∷ m) (fresh, h) =
      let gone : get j (delete k m) ≡ none = ground (arith, get-delete j k m) in
      if_intro Keyed (eq_bytes j k) (delete-Keyed k m h) (gone, delete-Keyed k m h)

  pub retain-Keyed :
      (keep : Bytes → V → Bool) (m : List (Bytes × V)) → Keyed m → Keyed (retain keep m)
  retain-Keyed keep [] h = tt
  retain-Keyed keep ((j, v) ∷ m) (fresh, h) =
      if_intro Keyed (keep j v) (absent-retain keep j m fresh, retain-Keyed keep m h)
        (retain-Keyed keep m h)

  pub put-Keyed : (k : Bytes) (v : V) (m : List (Bytes × V)) → Keyed m → Keyed (put k v m)
  put-Keyed k v m h =
      let gone : get k (delete k m) ≡ none = rw (get-delete k k m, eq_bytes_refl k) in
      (gone, delete-Keyed k m h)
