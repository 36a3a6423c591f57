-- ===== src/Http/IpBlock/Release.antt =====
-- The loops that drop temporary blocks (src/httpserver/ipblock.go), and who is blocked after them.
use shortner.Shared.{
  ℕ, ◌≤◌, ◌≡◌, refl, Bool, true, inl, inr, Option, none, some, List, [], ◌∷◌, Bytes, arith,
  Bool-cases, ltb, get, Keyed, if_kept, get-retain, retain-Keyed, get-delete, delete-Keyed, is_some,
  if_intro, eq_bytes_refl,
}
use shortner.Library.{Library, Network}
use shortner.Http.IpBlock.{
  IpBlock, BlockStore, Allowlist, new_block_store, add_entries, add_permanent, is_live,
  or_permanent, blocked, block_temporarily, unblock, release_expired, release_allowlisted,
}

-- The stores that the operations lead to, at any instants and in any order.
pub data Reachable (lib : Library) : BlockStore → Type 0 where
  created : (entries : List (Bytes × Bytes)) → Reachable lib (new_block_store lib entries)
  blocking :
      {s : BlockStore} (ip reason : Bytes) (duration now : ℕ)
      → Reachable lib s
      → Reachable lib (block_temporarily ip reason duration now s)
  unblocking :
      {s : BlockStore} (ip reason : Bytes) → Reachable lib s → Reachable lib (unblock ip reason s).1
  expiring : {s : BlockStore} (now : ℕ) → Reachable lib s → Reachable lib (release_expired now s).1
  admitting :
      {s : BlockStore} (allow : Allowlist)
      → Reachable lib s
      → Reachable lib (release_allowlisted lib allow s).1

add_permanent-temporary :
    (n : Option Network) (reason : Bytes) (s : BlockStore)
    → (add_permanent n reason s).temporary ≡ s.temporary
add_permanent-temporary none reason s = refl
add_permanent-temporary (some n) reason s = refl

-- A block that lasts until an instant lasts until each before it.
is_live_earlier :
    (now later : ℕ) (b : IpBlock) → now ≤ later → is_live later b ≡ true → is_live now b ≡ true
is_live_earlier now later b h = by_end b.expires_at refl
  where
    by_end : (e : Option ℕ) → b.expires_at ≡ e → is_live later b ≡ true → is_live now b ≡ true
    by_end none has live = rw has refl
    by_end (some e) has live =
        let then_live : ltb later e ≡ true = rw has at live in rw has (ground arith)

module _ (lib : Library) where
  add_entries-Keyed :
      (entries : List (Bytes × Bytes)) (s : BlockStore)
      → Keyed s.temporary
      → Keyed (add_entries lib entries s).temporary
  add_entries-Keyed [] s h = h
  add_entries-Keyed ((cidr, reason) ∷ entries) s h =
      add_entries-Keyed entries (add_permanent (lib.parse_cidr cidr) reason s)
        (rw (add_permanent-temporary (lib.parse_cidr cidr) reason s) h)

  -- A reachable store has one block for an address at most.
  Reachable-Keyed : {s : BlockStore} → Reachable lib s → Keyed s.temporary
  unfolding new_block_store block_temporarily unblock release_expired release_allowlisted
  Reachable-Keyed (created entries) = add_entries-Keyed entries _ tt
  Reachable-Keyed (blocking {s} ip reason duration now r) = (
    rw (get-delete ip ip s.temporary, eq_bytes_refl ip) refl,
    delete-Keyed ip s.temporary (Reachable-Keyed r),
  )
  Reachable-Keyed (unblocking {s} ip reason r) =
      if_intro (λ (q : Bool × BlockStore). Keyed q.1.temporary) (is_some (get ip s.temporary))
        (delete-Keyed ip s.temporary (Reachable-Keyed r)) (Reachable-Keyed r)
  Reachable-Keyed (expiring now r) = retain-Keyed _ _ (Reachable-Keyed r)
  Reachable-Keyed (admitting allow r) = retain-Keyed _ _ (Reachable-Keyed r)

  or_permanent-if_kept :
      (now later : ℕ) (b o : Option IpBlock)
      → now ≤ later
      → or_permanent later (if_kept (is_live now) b) o ≡ or_permanent later b o
  or_permanent-if_kept now later none o h = refl
  or_permanent-if_kept now later (some b) o h =
      let lasts = is_live_earlier now later b h in
      elim (Bool-cases (is_live now b)) [
        | inl live ↦ rw live refl
        | inr ended ↦ elim (Bool-cases (is_live later b)) [
          | inl after ↦ absurd (ground (arith, lasts after, ended))
          | inr gone ↦ rw (ended, gone) refl
        ]
      ]

  -- On a store that any sequence of the operations leads to, the sweep of expired blocks is invisible:
  -- at its instant and at each later one, an address is blocked after it, and by the same block, if
  -- and only if it would have been without it.
  pub blocked-release_expired :
      {s : BlockStore} (ip : Bytes) (now later : ℕ)
      → Reachable lib s
      → now ≤ later
      → blocked lib ip later (release_expired now s).1 ≡ blocked lib ip later s
  unfolding blocked release_expired
  blocked-release_expired {s} ip now later r h =
      rw (get-retain (λ k b. is_live now b) ip s.temporary (Reachable-Keyed r))
        (or_permanent-if_kept now later (get ip s.temporary) _ h)
