-- ===== src/Config/Limits.antt =====
-- src/config/limits.go: byte sizes, the cap of the backups' size, and the entries of address lists.
use shortner.Shared.{
  ℕ, ◌-◌, ◌*◌, ◌^◌, Bool, true, false, not, ◌&&◌, ◌||◌, Option, none, some, List, [], ◌∷◌, ◌++◌,
  map, Bytes, codes, ltb, ◌==◌, if◌then◌else◌, length, take, eq_bytes, has_suffix, contains,
  to_upper, trim_space, ℤ, pos, negsuc, below, outside, wrap64, parse_int,
}
use shortner.Library.{Library, Ip, v4, v6}
use shortner.Config.{is_falsy}

pub record SizeUnit : Type 0 where
  pub suffix : Bytes
  pub mult : ℕ

abbrev pub size_units : List SizeUnit
size_units =
    record { suffix = codes "TB"; mult = 2 ^ 40 }
    ∷ record { suffix = codes "GB"; mult = 2 ^ 30 }
    ∷ record { suffix = codes "MB"; mult = 2 ^ 20 }
    ∷ record { suffix = codes "KB"; mult = 2 ^ 10 }
    ∷ record { suffix = codes "T"; mult = 2 ^ 40 }
    ∷ record { suffix = codes "G"; mult = 2 ^ 30 }
    ∷ record { suffix = codes "M"; mult = 2 ^ 20 }
    ∷ record { suffix = codes "K"; mult = 2 ^ 10 }
    ∷ record { suffix = codes "B"; mult = 1 }
    ∷ []

-- strings.TrimSuffix at a text that ends in the suffix.
abbrev pub without_suffix : Bytes → Bytes → Bytes
without_suffix s suffix = take (length s - length suffix) s

-- The number times the unit, as an int64; none where the text is no number or a negative one.
abbrev pub scaled : ℕ → Option ℤ → Option ℤ
scaled mult none = none
scaled mult (some (negsuc n)) = none
scaled mult (some (pos n)) = some (wrap64 (n * mult))

-- The size in the first unit of the list whose suffix the text has; without one, in bytes.
abbrev pub in_units : List SizeUnit → Bytes → Bytes → Option ℤ
in_units [] trimmed upper = scaled 1 (parse_int trimmed)
in_units (u ∷ units) trimmed upper =
    let rest = in_units units trimmed upper in
    if has_suffix upper u.suffix
    then scaled u.mult (parse_int (trim_space (without_suffix upper u.suffix)))
    else rest

-- The size, and whether the text is valid.
abbrev pub or_default : ℤ → Option ℤ → ℤ × Bool
or_default default none = (default, false)
or_default default (some n) = (n, true)

unfoldable pub parse_size : Bytes → ℤ → ℤ × Bool
parse_size s default =
    let trimmed = trim_space s in
    if eq_bytes trimmed []
    then (default, true)
    else or_default default (in_units size_units trimmed (map to_upper trimmed))

-- `Disabled`, `Percent` or `Bytes`.
pub data RetentionSize : Type 0 where
  disabled : RetentionSize
  percent : ℕ → RetentionSize
  bytes : ℤ → RetentionSize

abbrev percent_of : ℤ → Option ℤ → RetentionSize × Bool
percent_of default (some (pos n)) =
    if not (n == 0) && not (ltb 100 n) then (percent n, true) else (bytes default, false)
percent_of default _ = (bytes default, false)

abbrev cap_of : ℤ → ℤ × Bool → RetentionSize × Bool
cap_of default (n, valid) =
    if not valid || below 1 n then (bytes default, false) else (bytes n, true)

-- The cap, and whether the text is valid.
unfoldable pub parse_retention_size : Bytes → ℤ → RetentionSize × Bool
parse_retention_size s default =
    let trimmed = trim_space s in
    if eq_bytes trimmed [] || is_falsy trimmed
    then (disabled, true)
    else if has_suffix trimmed (codes "%")
    then percent_of default (parse_int (trim_space (without_suffix trimmed (codes "%"))))
    else cap_of default (parse_size trimmed (pos 0))

abbrev single_host : Library → Option Ip → Option Bytes
single_host lib none = none
single_host lib (some (v4 a b c d)) = some (lib.ip_string (v4 a b c d) ++ codes "/32")
single_host lib (some (v6 a b)) = some (lib.ip_string (v6 a b) ++ codes "/128")

-- `none` is an error.
unfoldable pub normalize_cidr : Library → Bytes → Option Bytes
normalize_cidr lib entry =
    let s = trim_space entry in
    if eq_bytes s []
    then none
    else if not (contains s (codes "/"))
    then single_host lib (lib.parse_ip s)
    else elim (lib.parse_cidr s) [
      | none ↦ none
      | some n ↦
          if (n.bits == 32 && ltb n.ones 8) || (n.bits == 128 && ltb n.ones 16)
          then none
          else some n.text
    ]

unfoldable pub valid_port : Bytes → Bool
valid_port s = elim (parse_int (trim_space s)) [ none ↦ false | some n ↦ not (outside 1 65535 n) ]
