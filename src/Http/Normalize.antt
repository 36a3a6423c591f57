-- ===== src/Http/Normalize.antt =====
-- `urlNormalizeMiddleware` and `pathSecurityMiddleware` of src/httpserver/middleware.go: the paths that
-- reach the later stages, and the redirects to the others.
pub mod Settled
use shortner.Shared.{
  ℕ, Bool, true, false, not, ◌&&◌, ◌||◌, List, [], ◌∷◌, ◌++◌, map, Bytes, codes, ◌==◌,
  if◌then◌else◌, eq_bytes, has_prefix, contains, to_lower,
}
use shortner.Library.{Library}

abbrev pub is_slash : ℕ → Bool
is_slash c = c == b'/'

-- strings.Contains(p, "//")
abbrev pub doubled : Bytes → Bool
doubled [] = false
doubled (c ∷ []) = false
doubled (c ∷ d ∷ s) = (is_slash c && is_slash d) || doubled (d ∷ s)

-- `repeatedSlashes.ReplaceAllString(p, "/")`
abbrev pub collapse : Bytes → Bytes
collapse [] = []
collapse (c ∷ []) = c ∷ []
collapse (c ∷ d ∷ s) =
    let rest = collapse (d ∷ s) in if is_slash c && is_slash d then rest else c ∷ rest

-- strings.HasSuffix(p, "/")
abbrev pub ends_in_slash : Bytes → Bool
ends_in_slash [] = false
ends_in_slash (c ∷ []) = is_slash c
ends_in_slash (c ∷ d ∷ s) = ends_in_slash (d ∷ s)

abbrev pub is_empty : Bytes → Bool
is_empty [] = true
is_empty (c ∷ s) = false

-- strings.TrimRight(p, "/")
abbrev pub trim_right_slashes : Bytes → Bytes
trim_right_slashes [] = []
trim_right_slashes (c ∷ s) =
    let rest = trim_right_slashes s in if is_slash c && is_empty rest then [] else c ∷ rest

has_slash : Bytes → Bool
has_slash [] = false
has_slash (c ∷ s) = is_slash c || has_slash s

-- What follows the last slash; the whole where there is none.
last_segment : Bytes → Bytes
unfolding has_slash
last_segment [] = []
last_segment (c ∷ s) =
    let rest = last_segment s in if has_slash s then rest else if is_slash c then s else c ∷ s

has_dot : Bytes → Bool
has_dot [] = false
has_dot (c ∷ s) = c == b'.' || has_dot s

-- A redirect with the status 301, or the path for the next handler.
pub data Normalized : Type 0 where
  moved : Bytes → Normalized
  next : Bytes → Normalized

abbrev or_root : Bytes → Bytes
or_root trimmed = if is_empty trimmed then codes "/" else trimmed

-- The path without doubled slashes.
abbrev pub single_slashes : Bytes → Bytes
single_slashes p =
    let cleaned = collapse p in
    if not (doubled p)
    then p
    else if not (eq_bytes cleaned (codes "/")) && (ends_in_slash p && not (ends_in_slash cleaned))
    then cleaned ++ codes "/"
    else cleaned

abbrev pub with_query : Bytes → Bytes → Bytes
with_query raw_query dest =
    if not (is_empty raw_query) then dest ++ (codes "?" ++ raw_query) else dest

-- The destination of `moved` is what the code hands to `http.Redirect`.
unfoldable pub url_normalize : Bytes → Bytes → Normalized
unfolding last_segment has_dot
url_normalize raw_query path =
    let p = single_slashes path in
    let trimmed = or_root (trim_right_slashes p) in
    if not (eq_bytes p (codes "/")) && ends_in_slash p
    then (if not (has_dot (last_segment trimmed))
        then moved (with_query raw_query trimmed)
        else next trimmed)
    else next p

-- The path for the next handler, or a refusal.
unfoldable pub path_security : Library → Bytes → Bytes → Bool × Bytes
path_security lib raw_path path =
    let raw = if is_empty raw_path then path else raw_path in
    let cleaned = lib.path_clean path in
    let rooted = if not (has_prefix cleaned (codes "/")) then codes "/" ++ cleaned else cleaned in
    if contains path (codes "..")
      || (contains raw (codes "..") || contains (map to_lower raw) (codes "%2e"))
    then (false, path)
    else (
      true,
      (if not (eq_bytes path (codes "/")) && (ends_in_slash path && not (ends_in_slash rooted))
          then rooted ++ codes "/"
          else rooted),
    )
