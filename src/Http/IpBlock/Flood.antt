-- ===== src/Http/IpBlock/Flood.antt =====
-- How many requests of one address pass flood detection (src/httpserver/ipblock.go).
pub mod Bound
use shortner.Shared.{
  ℕ, zero, suc, ◌+◌, ◌-◌, ◌≤◌, ◌<◌, ◌≡◌, refl, sym, ap, ◌⊎◌, inl, inr, Bool, true, false, ◌&&◌,
  Option, none, some, List, [], ◌∷◌, Bytes, arith, Bool-cases, ltb, ◌==◌, if◌then◌else◌, eq_bytes,
  eq_bytes_iff, eq_bytes_refl, All, get, get-delete, is_some,
}
use shortner.Library.{Library}
use shortner.Http.IpBlock.{
  IpBlock, BlockStore, AbuseDetector, Allowlist, Guard, allowlist_contains, is_live, blocked,
  or_permanent, bump, record_request, flooded, block_temporarily, screen,
}

-- A request: its address and its time.
pub record Arrival : Type 0 where
  pub ip : Bytes
  pub now : ℕ

-- Which of the requests pass.
unfoldable pub screen_all : Library → List Arrival → Guard → List Bool
screen_all lib [] g = []
screen_all lib (a ∷ rest) g =
    (screen lib a.ip a.now g).0 ∷ screen_all lib rest (screen lib a.ip a.now g).1

-- How many requests of the address pass.
unfoldable pub let_through : Bytes → List Arrival → List Bool → ℕ
let_through ip [] verdicts = 0
let_through ip (a ∷ rest) [] = 0
let_through ip (a ∷ rest) (v ∷ vs) =
    (if eq_bytes a.ip ip && v then 1 else 0) + let_through ip rest vs

abbrev counted : Bytes → AbuseDetector → AbuseDetector
counted ip a = record a { counts = bump ip a.counts }

-- The count reaches the threshold with this request.
abbrev crosses : Bytes → AbuseDetector → Bool
crosses ip a = (a.counts ip + 1) == a.threshold

record_request-in_window :
    (ip : Bytes) (now : ℕ) (a : AbuseDetector)
    → now ≤ a.reset_at
    → a.auto_block_ip ≡ true
    → record_request ip now a ≡ (crosses ip a, counted ip a)
unfolding record_request
record_request-in_window ip now a h auto =
    let running : ltb a.reset_at now ≡ false = ground arith in
    rw (running, eq_bytes_refl ip)
      (elim (Bool-cases (crosses ip a)) [
        | inl yes_now ↦ rw (yes_now, auto) refl
        | inr not_yet ↦ rw not_yet refl
      ])

abbrev pub guard : Allowlist → BlockStore → AbuseDetector → Guard
guard allow s a = record { allowlist = allow; blocks = some s; abuse = some a }

-- What becomes of one request before the detector's window ends.
module _ (lib : Library) (allow : Allowlist) (ip : Bytes) (now : ℕ) (s : BlockStore)
    (a : AbuseDetector) where
  abbrev Screened : Type 0
  Screened =
      ((allowlist_contains lib allow ip ≡ true)
        × (screen lib ip now (guard allow s a) ≡ (true, guard allow s a)))
      ⊎ (screen lib ip now (guard allow s a) ≡ (false, guard allow s a))
      ⊎ (screen lib ip now (guard allow s a)
          ≡ (false, guard allow (flooded ip a.duration now s) (counted ip a)))
      ⊎ ((is_some (blocked lib ip now s) ≡ false)
          × (crosses ip a ≡ false)
          × (screen lib ip now (guard allow s a) ≡ (true, guard allow s (counted ip a))))

  screen_cases : now ≤ a.reset_at → a.auto_block_ip ≡ true → Screened
  unfolding screen
  screen_cases h auto = elim (Bool-cases (allowlist_contains lib allow ip)) [
    | inl allowed ↦ inl (allowed, rw allowed refl)
    | inr other ↦ elim (Bool-cases (is_some (blocked lib ip now s))) [
      | inl shut ↦ inr (inl (rw (other, shut) refl))
      | inr passable ↦
          let recorded = record_request-in_window ip now a h auto in
          elim (Bool-cases (crosses ip a)) [
            | inl last ↦ inr (inr (inl (rw (other, passable, recorded, last) refl)))
            | inr early ↦
                inr (inr (inr (passable, early, rw (other, passable, recorded, early) refl)))
          ]
    ]
  ]
