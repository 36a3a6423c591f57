-- ===== src/Cache.antt =====
-- src/cache/cache.go: the in-process cache. Instants and durations are nanoseconds, and each operation
-- takes the instant that `time.Now` gives it; the callback of `GetOrSet` is its result, `none` for an
-- error, and the time it takes.
pub mod Contract
pub mod Refine
pub mod Samples
use shortner.Shared.{
  ℕ, ◌+◌, Bool, true, false, not, ◌&&◌, Option, none, some, List, [], ◌∷◌, ◌++◌, map, Bytes, codes,
  ltb, ◌==◌, if◌then◌else◌, length, to_lower, get, put, delete, retain,
}

-- The lowered parts, with colons between them.
unfoldable pub key : List Bytes → Bytes
key [] = []
key (part ∷ []) = map to_lower part
key (part ∷ next ∷ parts) = map to_lower part ++ (codes ":" ++ key (next ∷ parts))

pub record Entry (V : Type 0) : Type 0 where
  pub value : V
  pub expires_at : ℕ
  pub no_expiry : Bool

abbrev pub Memory : Type 0 → Type 0
Memory V = List (Bytes × Entry V)

module _ {V : Type 0} where
  abbrev pub expired : ℕ → Entry V → Bool
  expired now e = not e.no_expiry && ltb e.expires_at now

  abbrev pub new_memory : Memory V
  new_memory = []

  abbrev found : ℕ → Bytes → Option (Entry V) → Memory V → Option V × Memory V
  found now k none m = (none, m)
  found now k (some e) m = if expired now e then (none, delete k m) else (some e.value, m)

  unfoldable pub cache_get : ℕ → Bytes → Memory V → Option V × Memory V
  cache_get now k m = found now k (get k m) m

  abbrev pub new_entry : ℕ → V → ℕ → Entry V
  new_entry now v ttl =
      if ttl == 0
      then record { value = v; expires_at = 0; no_expiry = true }
      else record { value = v; expires_at = now + ttl; no_expiry = false }

  unfoldable pub cache_set : ℕ → Bytes → V → ℕ → Memory V → Memory V
  cache_set now k v ttl m = put k (new_entry now v ttl) m

  unfoldable pub cache_delete : Bytes → Memory V → Memory V
  cache_delete k m = delete k m

  abbrev pub load : ℕ → Bytes → ℕ → Option V → Memory V → Option V × Memory V
  load later k ttl none m = (none, m)
  load later k ttl (some v) m = (some v, cache_set later k v ttl m)

  abbrev pub or_load : ℕ → Bytes → ℕ → Option V → Option V × Memory V → Option V × Memory V
  or_load later k ttl fn (none, m) = load later k ttl fn m
  or_load later k ttl fn (some v, m) = (some v, m)

  -- `GetOrSet` at an instant, whose callback gives `fn` and is done at a later one.
  unfoldable pub get_or_set : ℕ → ℕ → Bytes → ℕ → Option V → Memory V → Option V × Memory V
  get_or_set now later k ttl fn m = or_load later k ttl fn (cache_get now k m)

  unfoldable pub sweep : ℕ → Memory V → Memory V
  sweep now m = retain (λ k e. not (expired now e)) m

  unfoldable pub cache_len : Memory V → ℕ
  cache_len m = length m
