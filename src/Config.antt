-- ===== src/Config.antt =====
-- src/config: how settings are read. Booleans are bool.go; durations are `ParseDuration` of limits.go.
pub mod Words
pub mod Limits
pub mod Settings
pub mod Validate
pub mod Valid
pub mod Sizes
pub mod Overlay
pub mod Compliance
pub mod Samples
use shortner.Shared.{
  ℤ, Bool, true, false, not, ◌&&◌, ◌||◌, Option, none, some, List, [], ◌∷◌, map, Bytes, codes,
  if◌then◌else◌, eq_bytes, to_lower, trim_space,
}
use shortner.Library.{Library}

unfoldable pub truthy_values : List Bytes
truthy_values =
    codes "1"
    ∷ codes "y"
    ∷ codes "t"
    ∷ codes "yes"
    ∷ codes "true"
    ∷ codes "on"
    ∷ codes "ok"
    ∷ codes "enable"
    ∷ codes "enabled"
    ∷ codes "yep"
    ∷ codes "yup"
    ∷ codes "yeah"
    ∷ codes "aye"
    ∷ codes "si"
    ∷ codes "oui"
    ∷ codes "da"
    ∷ codes "hai"
    ∷ codes "affirmative"
    ∷ codes "accept"
    ∷ codes "allow"
    ∷ codes "grant"
    ∷ codes "sure"
    ∷ codes "totally"
    ∷ []

unfoldable pub falsy_values : List Bytes
falsy_values =
    codes "0"
    ∷ codes "n"
    ∷ codes "f"
    ∷ codes "no"
    ∷ codes "false"
    ∷ codes "off"
    ∷ codes "disable"
    ∷ codes "disabled"
    ∷ codes "nope"
    ∷ codes "nah"
    ∷ codes "nay"
    ∷ codes "nein"
    ∷ codes "non"
    ∷ codes "niet"
    ∷ codes "iie"
    ∷ codes "lie"
    ∷ codes "negative"
    ∷ codes "reject"
    ∷ codes "block"
    ∷ codes "revoke"
    ∷ codes "deny"
    ∷ codes "never"
    ∷ codes "noway"
    ∷ []

any_equal : Bytes → List Bytes → Bool
any_equal s [] = false
any_equal s (w ∷ ws) = eq_bytes s w || any_equal s ws

-- strings.TrimSpace(strings.ToLower(s))
abbrev pub normal : Bytes → Bytes
normal s = trim_space (map to_lower s)

unfoldable pub is_truthy : Bytes → Bool
unfolding any_equal truthy_values
is_truthy s = any_equal (normal s) truthy_values

unfoldable pub is_falsy : Bytes → Bool
unfolding any_equal falsy_values
is_falsy s = any_equal (normal s) falsy_values

-- `none` is the error.
unfoldable pub parse_bool : Bytes → Bool → Option Bool
unfolding any_equal truthy_values falsy_values
parse_bool s default =
    if eq_bytes (normal s) []
    then some default
    else if any_equal (normal s) truthy_values
    then some true
    else if any_equal (normal s) falsy_values
    then some false
    else none

-- The duration, and whether the text is valid.
unfoldable pub parse_duration : Library → Bytes → ℤ → ℤ × Bool
parse_duration lib s default =
    if eq_bytes (trim_space s) []
    then (default, true)
    else elim (lib.parse_duration (trim_space s)) [ none ↦ (default, false) | some d ↦ (d, true) ]
