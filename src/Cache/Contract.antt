-- ===== src/Cache/Contract.antt =====
-- What the cache promises: a table that gives, for a key and an instant, the value to be found
-- (src/cache/cache.go).
use shortner.Shared.{
  ℕ, ◌+◌, ◌||◌, Option, none, some, List, [], ◌∷◌, Bytes, leb, ◌==◌, if◌then◌else◌, eq_bytes,
}
use shortner.Cache.{Memory, cache_get, cache_set, cache_delete, get_or_set, sweep}

-- An operation, less the instant.
pub data Op (V : Type 0) : Type 0 where
  getting : Bytes → Op V
  setting : Bytes → V → ℕ → Op V
  deleting : Bytes → Op V
  -- The callback's result and duration.
  loading : Bytes → ℕ → Option V → ℕ → Op V
  sweeping : Op V

abbrev pub Contract : Type 0 → Type 0
Contract V = Bytes → ℕ → Option V

module _ {V : Type 0} where
  -- How long it takes.
  abbrev pub length_of : Op V → ℕ
  length_of (loading k ttl fn took) = took
  length_of _ = 0

  unfoldable pub perform : ℕ → Op V → Memory V → Option V × Memory V
  unfolding cache_get cache_set cache_delete get_or_set sweep
  perform now (getting k) m = cache_get now k m
  perform now (setting k v ttl) m = (none, cache_set now k v ttl m)
  perform now (deleting k) m = (none, cache_delete k m)
  perform now (loading k ttl fn took) m = get_or_set now (now + took) k ttl fn m
  perform now sweeping m = (none, sweep now m)

  abbrev pub nothing : Contract V
  nothing k t = none

  abbrev pub stored : ℕ → Bytes → V → ℕ → Contract V → Contract V
  stored now k v ttl c j t =
      if eq_bytes k j then (if ttl == 0 || leb t (now + ttl) then some v else none) else c j t

  abbrev pub removed : Bytes → Contract V → Contract V
  removed k c j t = if eq_bytes k j then none else c j t

  abbrev pub promised_load :
      ℕ → Bytes → ℕ → Option V → Option V → Contract V → Option V × Contract V
  promised_load later k ttl fn (some v) c = (some v, c)
  promised_load later k ttl none none c = (none, c)
  promised_load later k ttl (some v) none c = (some v, stored later k v ttl c)

  -- Looking up and sweeping change nothing.
  unfoldable pub promised : ℕ → Op V → Contract V → Option V × Contract V
  promised now (getting k) c = (c k now, c)
  promised now (setting k v ttl) c = (none, stored now k v ttl c)
  promised now (deleting k) c = (none, removed k c)
  promised now (loading k ttl fn took) c = promised_load (now + took) k ttl fn (c k now) c
  promised now sweeping c = (none, c)

  -- The operations, each so long after the end of the one before it.
  unfoldable pub answers : ℕ → List (ℕ × Op V) → Memory V → List (Option V)
  answers now [] m = []
  answers now ((wait, op) ∷ ops) m =
      let q = perform (now + wait) op m in q.0 ∷ answers (now + wait + length_of op) ops q.1

  unfoldable pub promised_answers : ℕ → List (ℕ × Op V) → Contract V → List (Option V)
  promised_answers now [] c = []
  promised_answers now ((wait, op) ∷ ops) c =
      let q = promised (now + wait) op c in
      q.0 ∷ promised_answers (now + wait + length_of op) ops q.1
