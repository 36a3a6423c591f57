-- ===== src/Http/Chain/Passed.antt =====
-- What the guards of the chain let through, told without them (src/httpserver/ipblock.go, ratelimit.go).
use shortner.Shared.{
  ℕ, ◌<◌, ◌≡◌, refl, ap, subst, ◌⊎◌, Bool, true, false, Option, none, some, inl, inr, Bytes,
  Bool-cases, ltb, ◌-◌, arith,
}
use shortner.Library.{Library}
use shortner.Http.IpBlock.{BlockStore, Guard, allowlist_contains, blocked, screen, screen_blocks}
use shortner.Http.RateLimit.{
  Class, Window, Config, Limiter, class_limit, span_of, minute, elapsed, current, unexpired,
  sweep_locked, decide, admit, allow, rl_sweep_interval,
}

abbrev is_none : {A : Type 0} → Option A → Bool
is_none none = true
is_none (some x) = false

-- No block is in force for the address; there is none without a block store.
abbrev pub unblocked : Library → Bytes → ℕ → Option BlockStore → Bool
unblocked lib ip now none = true
unblocked lib ip now (some s) = is_none (blocked lib ip now s)

screen_blocks-unblocked :
    (lib : Library) (ip : Bytes) (now : ℕ) (o : Option BlockStore) (g : Guard)
    → (screen_blocks lib ip now o g).0 ≡ true
    → unblocked lib ip now o ≡ true
screen_blocks-unblocked lib ip now none g h = refl
screen_blocks-unblocked lib ip now (some s) g h = by_block (blocked lib ip now s) refl
  where
    by_block : (b : Option _) → blocked lib ip now s ≡ b → is_none (blocked lib ip now s) ≡ true
    by_block none is = rw is refl
    by_block (some b) is = let wrong : false ≡ true = rw is at h in absurd (ground (arith, wrong))

pub screen-unblocked :
    (lib : Library) (ip : Bytes) (now : ℕ) (g : Guard)
    → (screen lib ip now g).0 ≡ true
    → (allowlist_contains lib g.allowlist ip ≡ true) ⊎ (unblocked lib ip now g.blocks ≡ true)
unfolding screen
screen-unblocked lib ip now g h = elim (Bool-cases (allowlist_contains lib g.allowlist ip)) [
  | inl listed ↦ inl listed
  | inr other ↦ inr (screen_blocks-unblocked lib ip now g.blocks g (rw other at h))
]

-- Limiting is off, or the windows that the request falls in, its class's and the global one, have
-- counted fewer requests than the limit and the burst.
abbrev pub Within : Config → ℕ → Bytes → Class → Limiter → Type 0
Within cfg now ip c rl =
    (cfg.enabled ≡ false)
    ⊎ (((current now (span_of cfg c) (rl.by_class c ip)).count < (class_limit cfg c).requests)
        × ((current now minute (rl.global ip)).count < cfg.global_burst))

current-unexpired :
    (now span : ℕ) (o : Option Window)
    → current now span (unexpired now span o) ≡ current now span o
current-unexpired now span none = refl
current-unexpired now span (some w) = elim (Bool-cases (elapsed now span w)) [
  | inl over ↦ rw over refl
  | inr live ↦ rw live (rw live refl)
]

module _ (cfg : Config) (now : ℕ) (ip : Bytes) (c : Class) where
  decide_below :
      (w gw : Window) (rl : Limiter)
      → (decide cfg now ip c w gw rl).0.0 ≡ true
      → (w.count < (class_limit cfg c).requests) × (gw.count < cfg.global_burst)
  unfolding decide
  decide_below w gw rl h = ground (arith, h)

  admit_below :
      (rl : Limiter)
      → (admit cfg now ip c rl).0.0 ≡ true
      → ((current now (span_of cfg c) (rl.by_class c ip)).count < (class_limit cfg c).requests)
        × ((current now minute (rl.global ip)).count < cfg.global_burst)
  unfolding admit
  admit_below rl h = decide_below _ _ rl h

  allow_on :
      (rl : Limiter)
      → cfg.enabled ≡ true
      → allow cfg now ip c rl ≡ admit cfg now ip c (sweep_locked cfg now rl)
  unfolding allow
  allow_on rl on = elim (Bool-cases cfg.enabled) [
    | inl same ↦ cc
    | inr off ↦ absurd (ground (arith, on, off))
  ]

  current-sweep_locked :
      (rl : Limiter)
      → (current now (span_of cfg c) ((sweep_locked cfg now rl).by_class c ip)
          ≡ current now (span_of cfg c) (rl.by_class c ip))
        × (current now minute ((sweep_locked cfg now rl).global ip)
            ≡ current now minute (rl.global ip))
  unfolding sweep_locked
  current-sweep_locked rl = elim (Bool-cases (ltb (now - rl.last_sweep) rl_sweep_interval)) [
    | inl soon ↦ rw soon (refl, refl)
    | inr due ↦ rw due (
      current-unexpired now (span_of cfg c) (rl.by_class c ip),
      current-unexpired now minute (rl.global ip),
    )
  ]

  pub allow-Within : (rl : Limiter) → (allow cfg now ip c rl).0.0 ≡ true → Within cfg now ip c rl
  allow-Within rl h = elim (Bool-cases cfg.enabled) [
    | inr off ↦ inl off
    | inl on ↦
        let passes = subst (λ (q : (Bool × ℕ) × Limiter). q.0.0 ≡ true) (allow_on rl on) h in
        let below = admit_below (sweep_locked cfg now rl) passes in
        let swept = current-sweep_locked rl in
        let in_class = ap (λ (w : Window). w.count) swept.0 in
        let in_all = ap (λ (w : Window). w.count) swept.1 in
        inr (omega (arith, below, in_class), omega (arith, below, in_all))
  ]
