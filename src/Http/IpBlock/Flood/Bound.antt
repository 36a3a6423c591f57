-- ===== src/Http/IpBlock/Flood/Bound.antt =====
-- No more requests of an address pass than its threshold leaves (src/httpserver/ipblock.go).
use shortner.Shared.{
  ℕ, zero, suc, ◌+◌, ◌-◌, ◌≤◌, ◌<◌, ◌≡◌, refl, sym, ap, ◌⊎◌, inl, inr, Bool, true, false, ◌&&◌,
  Option, none, some, List, [], ◌∷◌, Bytes, arith, Bool-cases, ltb, if◌then◌else◌, eq_bytes,
  eq_bytes_iff, eq_bytes_refl, All, get, get-delete, is_some,
}
use shortner.Library.{Library}
use shortner.Http.IpBlock.{
  IpBlock, BlockStore, AbuseDetector, Allowlist, allowlist_contains, is_live, blocked, or_permanent,
  flooded, block_temporarily, screen,
}
use shortner.Http.IpBlock.Flood.{
  Arrival, screen_all, let_through, counted, crosses, guard, screen_cases,
}

-- A temporary block of the address lasts beyond an instant.
abbrev live_at : ℕ → Option IpBlock → Bool
live_at end none = false
live_at end (some b) = is_live end b

abbrev held : Bytes → ℕ → BlockStore → Bool
held ip end s = live_at end (get ip s.temporary)

live_blocks :
    (now end : ℕ) (b o : Option IpBlock)
    → now ≤ end
    → live_at end b ≡ true
    → is_some (or_permanent now b o) ≡ true
live_blocks now end none o h live = ground arith
live_blocks now end (some b) o h live = still b.expires_at refl live
  where
    still :
        (e : Option ℕ)
        → b.expires_at ≡ e
        → is_live end b ≡ true
        → is_some (if is_live now b then some b else o) ≡ true
    still none has live = rw has refl
    still (some e) has live =
        let then_live : ltb end e ≡ true = rw has at live in
        let now_live : ltb now e ≡ true = ground arith in rw (has, now_live) refl

held-blocked :
    (lib : Library) (ip : Bytes) (now end : ℕ) (s : BlockStore)
    → now ≤ end
    → held ip end s ≡ true
    → is_some (blocked lib ip now s) ≡ true
unfolding blocked
held-blocked lib ip now end s h live = live_blocks now end (get ip s.temporary) _ h live

flooded-held :
    (ip : Bytes) (duration now end : ℕ) (s : BlockStore)
    → end < now + duration
    → held ip end (flooded ip duration now s) ≡ true
unfolding block_temporarily
flooded-held ip duration now end s h = rw (eq_bytes_refl ip) (ground arith)

flooded_other :
    (ip other : Bytes) (duration now end : ℕ) (s : BlockStore)
    → eq_bytes other ip ≡ false
    → held ip end (flooded other duration now s) ≡ held ip end s
unfolding block_temporarily
flooded_other ip other duration now end s h = rw (h, get-delete ip other s.temporary, h) refl

-- `k` further requests of the address may pass.
abbrev Room : Bytes → ℕ → BlockStore → AbuseDetector → Type 0
Room ip k s a = (held ip a.reset_at s ≡ true) ⊎ (a.counts ip + (k + 1) ≡ a.threshold)

-- The request comes while the detector's window runs.
abbrev pub InWindow : ℕ → ℕ → Arrival → Type 0
InWindow start end r = (start ≤ r.now) × (r.now ≤ end)

module _ (lib : Library) (allow : Allowlist) (ip : Bytes) (start : ℕ) where
  abbrev tally : List Arrival → BlockStore → AbuseDetector → ℕ
  tally arrivals s a = let_through ip arrivals (screen_all lib arrivals (guard allow s a))

  tally_step :
      (r : Arrival) (rest : List Arrival) (v : Bool) (s t : BlockStore) (a b : AbuseDetector)
      → screen lib r.ip r.now (guard allow s a) ≡ (v, guard allow t b)
      → tally (r ∷ rest) s a ≡ (if eq_bytes r.ip ip && v then 1 else 0) + tally rest t b
  unfolding let_through screen_all
  tally_step r rest v s t a b h = rw h refl

  allowed_apart :
      (other : Bytes)
      → allowlist_contains lib allow ip ≡ false
      → allowlist_contains lib allow other ≡ true
      → eq_bytes other ip && true ≡ false
  allowed_apart other outside inside = elim (Bool-cases (eq_bytes other ip)) [
    | inl own ↦
        let same = ap (allowlist_contains lib allow) ((eq_bytes_iff other ip).0 own) in
        absurd (ground (arith, same, inside, outside))
    | inr apart ↦ rw apart refl
  ]

  -- A request of another address, or one that is refused, is not counted.
  tally_uncounted :
      (r : Arrival) (rest : List Arrival) (k : ℕ) (v : Bool) (s t : BlockStore)
      (a b : AbuseDetector)
      → eq_bytes r.ip ip && v ≡ false
      → screen lib r.ip r.now (guard allow s a) ≡ (v, guard allow t b)
      → tally rest t b ≤ k
      → tally (r ∷ rest) s a ≤ k
  tally_uncounted r rest k v s t a b other is later =
      rw (tally_step r rest v s t a b is, other) (ground arith)

  Room-flooded_other :
      (other : Bytes) (duration now k : ℕ) (s : BlockStore) (a : AbuseDetector)
      → eq_bytes other ip ≡ false
      → Room ip k s a
      → Room ip k (flooded other duration now s) (counted other a)
  Room-flooded_other other duration now k s a h (inl shut) =
      inl (rw (flooded_other ip other duration now a.reset_at s h) shut)
  Room-flooded_other other duration now k s a h (inr left) = inr (rw h left)

  Room-flooded :
      (other : Bytes) (now k : ℕ) (s : BlockStore) (a : AbuseDetector)
      → start ≤ now
      → a.reset_at < start + a.duration
      → Room ip k s a
      → Room ip k (flooded other a.duration now s) (counted other a)
  Room-flooded other now k s a late long room = elim (Bool-cases (eq_bytes other ip)) [
    | inl own ↦
        let end = flooded-held other a.duration now a.reset_at s (ground arith) in
        inl (rw (sym ((eq_bytes_iff other ip).0 own)) end)
    | inr apart ↦ Room-flooded_other other a.duration now k s a apart room
  ]

  Room-counted_other :
      (other : Bytes) (k : ℕ) (s : BlockStore) (a : AbuseDetector)
      → eq_bytes other ip ≡ false
      → Room ip k s a
      → Room ip k s (counted other a)
  Room-counted_other other k s a h (inl shut) = inl shut
  Room-counted_other other k s a h (inr left) = inr (rw h left)

  -- A request of the address that passes takes one of the `k`.
  tally_passing :
      (r : Arrival) (rest : List Arrival) (s : BlockStore) (a : AbuseDetector) (k : ℕ)
      → r.now ≤ a.reset_at
      → Room ip k s a
      → r.ip ≡ ip
      → is_some (blocked lib r.ip r.now s) ≡ false
      → crosses r.ip a ≡ false
      → screen lib r.ip r.now (guard allow s a) ≡ (true, guard allow s (counted r.ip a))
      → ((left : ℕ) → Room ip left s (counted r.ip a) → tally rest s (counted r.ip a) ≤ left)
      → tally (r ∷ rest) s a ≤ k
  tally_passing r rest s a k now (inl shut) here passable early is later =
      let stopped = held-blocked lib ip r.now a.reset_at s now shut in
      absurd (ground (arith, here, stopped, passable))
  tally_passing r rest s a zero now (inr left) here passable early is later =
      absurd (ground (arith, left, ap a.counts here, early))
  tally_passing r rest s a (suc k) now (inr left) here passable early is later =
      let up : (counted r.ip a).counts ip ≡ a.counts ip + 1 = rw (here, eq_bytes_refl ip) refl in
      let after = later k (inr (ground (arith, up, left))) in
      let own = (eq_bytes_iff r.ip ip).1 here in
      rw (tally_step r rest true s s a (counted r.ip a) is, own) (ground (arith, after))

  tally_bound :
      (arrivals : List Arrival) (s : BlockStore) (a : AbuseDetector) (k : ℕ)
      → allowlist_contains lib allow ip ≡ false
      → All (InWindow start a.reset_at) arrivals
      → a.reset_at < start + a.duration
      → a.auto_block_ip ≡ true
      → Room ip k s a
      → tally arrivals s a ≤ k
  unfolding let_through
  tally_bound [] s a k outside times long auto room = omega arith
  tally_bound (r ∷ rest) s a k outside (now, times) long auto room =
      elim (screen_cases lib allow r.ip r.now s a now.1 auto) [
        | inl (allowed, is) ↦
            let apart = allowed_apart r.ip outside allowed in
            tally_uncounted r rest k true s s a a apart is
              (tally_bound rest s a k outside times long auto room)
        | inr (inl is) ↦
            tally_uncounted r rest k false s s a a (ground arith) is
              (tally_bound rest s a k outside times long auto room)
        | inr (inr (inl is)) ↦
            tally_uncounted r rest k false s (flooded r.ip a.duration r.now s) a (counted r.ip a)
              (ground arith) is
              (tally_bound rest (flooded r.ip a.duration r.now s) (counted r.ip a) k outside times
                long auto (Room-flooded r.ip r.now k s a now.0 long room))
        | inr (inr (inr (passable, early, is))) ↦ elim (Bool-cases (eq_bytes r.ip ip)) [
          | inl own ↦
              tally_passing r rest s a k now.1 room ((eq_bytes_iff r.ip ip).0 own) passable early is
                (λ left more. tally_bound rest s (counted r.ip a) left outside times long auto more)
          | inr other ↦ tally_uncounted r rest k true s s a (counted r.ip a) (rw other refl) is (
              tally_bound rest s (counted r.ip a) k outside times long auto
                (Room-counted_other r.ip k s a other room))
        ]
      ]

  -- Let the detector block addresses, for longer than its window runs on, and let the address be
  -- outside the allowlist. Of the requests that come before the window ends, in any order and among
  -- those of any other addresses, at most as many of the address pass as its count leaves below the
  -- threshold less one, whatever is in the store: the request that reaches the threshold is refused
  -- and so is each after it.
  pub let_through-screen_all :
      (arrivals : List Arrival) (s : BlockStore) (a : AbuseDetector)
      → allowlist_contains lib allow ip ≡ false
      → All (InWindow start a.reset_at) arrivals
      → a.reset_at < start + a.duration
      → a.auto_block_ip ≡ true
      → a.counts ip < a.threshold
      → let_through ip arrivals (screen_all lib arrivals (guard allow s a)) + a.counts ip
        < a.threshold
  let_through-screen_all arrivals s a outside times long auto room =
      let left : a.counts ip + (a.threshold - (a.counts ip + 1) + 1) ≡ a.threshold = omega arith in
      let few =
        tally_bound arrivals s a (a.threshold - (a.counts ip + 1)) outside times long auto
          (inr left) in
      ground (arith, few)
