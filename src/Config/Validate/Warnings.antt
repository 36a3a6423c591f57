-- ===== src/Config/Validate/Warnings.antt =====
-- The warnings of src/config/limits.go, and `validateEnum`.
use shortner.Shared.{ℕ, Bool, false, not, ◌||◌, List, [], ◌∷◌, Bytes, if◌then◌else◌, eq_bytes}

-- A warning names its setting: one that was replaced or dropped, or one that was accepted all the same.
pub data Warning : Type 0 where
  replaced : Bytes → Warning
  noted : Bytes → Warning

-- A block of settings with the warnings so far.
abbrev pub Checked : Type 0 → Type 0
Checked A = A × List Warning

module _ {A : Type 0} where
  -- The setting, or its default with a warning where the test says that it is invalid.
  abbrev pub or_replace : Bool → Bytes → A → A → Checked A
  or_replace invalid name value default =
      if invalid then (default, replaced name ∷ []) else (value, [])

abbrev pub any_of : Bytes → List Bytes → Bool
any_of s [] = false
any_of s (w ∷ ws) = eq_bytes s w || any_of s ws

unfoldable pub validate_enum : Bytes → Bytes → Bytes → List Bytes → Checked Bytes
validate_enum name value default allowed =
    if eq_bytes value []
    then (default, [])
    else or_replace (not (any_of value allowed)) name value default

-- strings.ContainsAny
abbrev pub contains_any : (ℕ → Bool) → Bytes → Bool
contains_any found [] = false
contains_any found (c ∷ s) = found c || contains_any found s
