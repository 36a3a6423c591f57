-- ===== src/Cache/Refine.antt =====
-- The cache keeps its contract (src/cache/cache.go).
use shortner.Shared.{
  ℕ, ◌+◌, ◌≤◌, ◌≡◌, refl, sym, ap, ◌∙◌, true, inl, inr, not, ◌||◌, Option, none, some, List, [],
  ◌∷◌, Bytes, arith, Bool-cases, leb, ◌==◌, if◌then◌else◌, eq_bytes, eq_bytes_iff, get, Keyed,
  get-put, get-delete, get-retain, put-Keyed, delete-Keyed, retain-Keyed, if_kept,
}
use shortner.Cache.{
  Entry, Memory, new_memory, expired, found, cache_get, new_entry, cache_set, cache_delete, load,
  or_load, sweep,
}
use shortner.Cache.Contract.{
  Op, getting, setting, deleting, loading, sweeping, length_of, perform, Contract, nothing, stored,
  removed, promised_load, promised, answers, promised_answers,
}

module _ {V : Type 0} where
  abbrev valid : ℕ → Option (Entry V) → Option V
  valid t none = none
  valid t (some e) = if expired t e then none else some e.value

  -- The cache holds what the contract says, from an instant on.
  abbrev Implements : ℕ → Memory V → Contract V → Type 0
  Implements now m c = Keyed m × ((k : Bytes) (t : ℕ) → now ≤ t → valid t (get k m) ≡ c k t)

  Implements-later :
      (now later : ℕ) (m : Memory V) (c : Contract V)
      → now ≤ later
      → Implements now m c
      → Implements later m c
  Implements-later now later m c h (keyed, agree) = (keyed, λ k t after. agree k t (omega arith))

  valid-new_entry :
      (now t : ℕ) (v : V) (ttl : ℕ)
      → valid t (some (new_entry now v ttl))
        ≡ (if ttl == 0 || leb t (now + ttl) then some v else none)
  valid-new_entry now t v ttl = elim (Bool-cases (ttl == 0)) [
    | inl never ↦ rw never refl
    | inr ending ↦ rw ending (ground arith)
  ]

  set-Implements :
      (now : ℕ) (k : Bytes) (v : V) (ttl : ℕ) (m : Memory V) (c : Contract V)
      → Implements now m c
      → Implements now (cache_set now k v ttl m) (stored now k v ttl c)
  unfolding cache_set
  set-Implements now k v ttl m c (keyed, agree) = (
    put-Keyed k (new_entry now v ttl) m keyed,
    λ j t after. elim (Bool-cases (eq_bytes k j)) [
      | inl here ↦ rw (get-put j k (new_entry now v ttl) m, here) (valid-new_entry now t v ttl)
      | inr other ↦ rw (get-put j k (new_entry now v ttl) m, other) (agree j t after)
    ],
  )

  delete-Implements :
      (now : ℕ) (k : Bytes) (m : Memory V) (c : Contract V)
      → Implements now m c
      → Implements now (cache_delete k m) (removed k c)
  unfolding cache_delete
  delete-Implements now k m c (keyed, agree) = (
    delete-Keyed k m keyed,
    λ j t after. elim (Bool-cases (eq_bytes k j)) [
      | inl here ↦ rw (get-delete j k m, here) refl
      | inr other ↦ rw (get-delete j k m, other) (agree j t after)
    ],
  )

  expired_later : (now t : ℕ) (e : Entry V) → now ≤ t → expired now e ≡ true → expired t e ≡ true
  expired_later now t e h over = ground arith

  -- Sweeping an entry away is not seen from then on.
  valid-if_kept :
      (now t : ℕ) (o : Option (Entry V))
      → now ≤ t
      → valid t (if_kept (λ e. not (expired now e)) o) ≡ valid t o
  valid-if_kept now t none h = refl
  valid-if_kept now t (some e) h = elim (Bool-cases (expired now e)) [
    | inl over ↦ rw (over, expired_later now t e h over) refl
    | inr fresh ↦ rw fresh refl
  ]

  sweep-Implements :
      (now : ℕ) (m : Memory V) (c : Contract V)
      → Implements now m c
      → Implements now (sweep now m) c
  unfolding sweep
  sweep-Implements now m c (keyed, agree) = (
    retain-Keyed (λ k e. not (expired now e)) m keyed,
    λ j t after.
        rw (get-retain (λ k e. not (expired now e)) j m keyed, valid-if_kept now t (get j m) after)
          (agree j t after),
  )

  found-Implements :
      (now : ℕ) (k : Bytes) (m : Memory V) (c : Contract V) (o : Option (Entry V))
      → get k m ≡ o
      → Implements now m c
      → ((found now k o m).0 ≡ c k now) × Implements now (found now k o m).1 c
  found-Implements now k m c none is (keyed, agree) =
      let missing : valid now none ≡ c k now =
        ap (valid now) (sym is) ∙ agree k now (omega arith) in
      (missing, (keyed, agree))
  found-Implements now k m c (some e) is (keyed, agree) =
      let value : (t : ℕ) → now ≤ t → valid t (some e) ≡ c k t =
        λ t h. ap (valid t) (sym is) ∙ agree k t h in
      elim (Bool-cases (expired now e)) [
        | inl over ↦
            let at_once = value now (omega arith) in
            rw over (
              (rw over at at_once),
              (
                delete-Keyed k m keyed,
                λ j t after. elim (Bool-cases (eq_bytes k j)) [
                  | inl here ↦
                      let gone = value t after in
                      let same = (eq_bytes_iff k j).0 here in
                      rw (get-delete j k m, here, sym same)
                        (rw (expired_later now t e after over) at gone)
                  | inr other ↦ rw (get-delete j k m, other) (agree j t after)
                ],
              ),
            )
        | inr fresh ↦ rw fresh ((rw fresh at (value now (omega arith))), (keyed, agree))
      ]

  get-Implements :
      (now : ℕ) (k : Bytes) (m : Memory V) (c : Contract V)
      → Implements now m c
      → ((cache_get now k m).0 ≡ c k now) × Implements now (cache_get now k m).1 c
  unfolding cache_get
  get-Implements now k m c h = found-Implements now k m c (get k m) refl h

  load-Implements :
      (later : ℕ) (k : Bytes) (ttl : ℕ) (fn : Option V) (m : Memory V) (c : Contract V)
      → Implements later m c
      → ((load later k ttl fn m).0 ≡ (promised_load later k ttl fn none c).0)
        × Implements later (load later k ttl fn m).1 (promised_load later k ttl fn none c).1
  load-Implements later k ttl none m c h = (refl, h)
  load-Implements later k ttl (some v) m c h = (refl, set-Implements later k v ttl m c h)

  or_load-Implements :
      (later : ℕ) (k : Bytes) (ttl : ℕ) (fn o : Option V) (m : Memory V) (c : Contract V)
      → Implements later m c
      → ((or_load later k ttl fn (o, m)).0 ≡ (promised_load later k ttl fn o c).0)
        × Implements later (or_load later k ttl fn (o, m)).1 (promised_load later k ttl fn o c).1
  or_load-Implements later k ttl fn none m c h = load-Implements later k ttl fn m c h
  or_load-Implements later k ttl fn (some v) m c h = (refl, h)

  -- An operation answers as the contract says, and the cache keeps to the contract.
  perform-Implements :
      (now : ℕ) (op : Op V) (m : Memory V) (c : Contract V)
      → Implements now m c
      → ((perform now op m).0 ≡ (promised now op c).0)
        × Implements (now + length_of op) (perform now op m).1 (promised now op c).1
  unfolding perform promised
  perform-Implements now (getting k) m c h =
      let q = get-Implements now k m c h in
      (q.0, Implements-later now (now + 0) (cache_get now k m).1 c (omega arith) q.1)
  perform-Implements now (setting k v ttl) m c h = (
    refl,
    Implements-later now (now + 0) (cache_set now k v ttl m) (stored now k v ttl c) (omega arith)
        (set-Implements now k v ttl m c h),
  )
  perform-Implements now (deleting k) m c h = (
    refl,
    Implements-later now (now + 0) (cache_delete k m) (removed k c) (omega arith)
        (delete-Implements now k m c h),
  )
  perform-Implements now (loading k ttl fn took) m c h =
      let q = get-Implements now k m c h in
      let later = Implements-later now (now + took) (cache_get now k m).1 c (omega arith) q.1 in
      let r =
        or_load-Implements (now + took) k ttl fn (cache_get now k m).0 (cache_get now k m).1 c
          later in
      rw (sym q.0) r
  perform-Implements now sweeping m c h = (
    refl,
    Implements-later now (now + 0) (sweep now m) c (omega arith) (sweep-Implements now m c h),
  )

  answers_promised :
      (now : ℕ) (ops : List (ℕ × Op V)) (m : Memory V) (c : Contract V)
      → Implements now m c
      → answers now ops m ≡ promised_answers now ops c
  unfolding answers promised_answers
  answers_promised now [] m c h = refl
  answers_promised now ((wait, op) ∷ ops) m c h =
      let q =
        perform-Implements (now + wait) op m c
          (Implements-later now (now + wait) m c (omega arith) h) in
      rw
        (
          q.0,
          answers_promised (now + wait + length_of op) ops (perform (now + wait) op m).1
              (promised (now + wait) op c).1 q.1,
        )
        refl

  -- A new cache answers any sequence of operations, at any instants in order, as a table would that
  -- holds each stored value up to the end of its time to live and forgets it on deletion: neither the
  -- sweep nor the removal on a lookup is seen.
  pub answers-promised_answers :
      (now : ℕ) (ops : List (ℕ × Op V))
      → answers now ops new_memory ≡ promised_answers now ops nothing
  answers-promised_answers now ops = answers_promised now ops new_memory nothing (tt, λ k t h. refl)
