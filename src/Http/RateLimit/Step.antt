-- ===== src/Http/RateLimit/Step.antt =====
-- What one request does to the window of a class and IP (src/httpserver/ratelimit.go).
use shortner.Shared.{
  ℕ, ◌+◌, ◌<◌, ◌≡◌, refl, ap, ◌∙◌, ◌⊎◌, inl, inr, Bool, true, false, ◌&&◌, Option, none, some, List,
  [], ◌∷◌, Bytes, arith, Bool-cases, leb, if◌then◌else◌, eq_bytes, eq_bytes_iff, eq_bytes_refl,
}
use shortner.Http.RateLimit.{
  Class, Window, read, write, health, Config, Limiter, Arrival, minute, class_limit, span_of,
  current, counted, same_class, stored, decide, admit,
}
use shortner.Http.RateLimit.Sweep.{unswept_answers}

-- The requests of one class and IP that passed.
unfoldable pub passed : Class → Bytes → List Arrival → List (Bool × ℕ) → ℕ
passed c ip [] answered = 0
passed c ip (a ∷ rest) [] = 0
passed c ip (a ∷ rest) (q ∷ qs) =
    (if (same_class a.kind c && eq_bytes a.ip ip) && q.0 then 1 else 0) + passed c ip rest qs

abbrev pub used : Option Window → ℕ
used none = 0
used (some w) = w.count

same_class_refl : (c : Class) → same_class c c ≡ true
same_class_refl read = refl
same_class_refl write = refl
same_class_refl health = refl

same_class_eq : (c d : Class) → same_class c d ≡ true → c ≡ d
same_class_eq read read h = refl
same_class_eq write write h = refl
same_class_eq health health h = refl
same_class_eq read write h = absurd (cc)
same_class_eq read health h = absurd (cc)
same_class_eq write read h = absurd (cc)
same_class_eq write health h = absurd (cc)
same_class_eq health read h = absurd (cc)
same_class_eq health write h = absurd (cc)

module _ (cfg : Config) (c : Class) (ip : Bytes) where
  abbrev pub most : ℕ
  most = (class_limit cfg c).requests

  abbrev pub span : ℕ
  span = span_of cfg c

  -- A request of another class or IP leaves the window alone.
  stored-other :
      (d : Class) (other : Bytes) (w gw : Window) (rl : Limiter)
      → (same_class d c && eq_bytes other ip) ≡ false
      → (stored d other w gw rl).by_class c ip ≡ rl.by_class c ip
  stored-other d other w gw rl h = elim (Bool-cases (same_class d c)) [
    | inl same ↦ let differs : eq_bytes other ip ≡ false = ground arith in rw (same, differs)
    | inr apart ↦ rw apart refl
  ]

  stored-own : (w gw : Window) (rl : Limiter) → (stored c ip w gw rl).by_class c ip ≡ some w
  stored-own w gw rl = rw (same_class_refl c, eq_bytes_refl ip)

  -- What a request does to the window that it is counted in.
  abbrev Outcome : Window → (Bool × ℕ) × Limiter → Type 0
  Outcome w q =
      ((q.0.0 ≡ false) × (q.1.by_class c ip ≡ some w))
      ⊎ ((q.0.0 ≡ true) × (w.count < most) × (q.1.by_class c ip ≡ some (counted w)))

  decide-Outcome :
      (now : ℕ) (w gw : Window) (rl : Limiter) → Outcome w (decide cfg now ip c w gw rl)
  unfolding decide
  decide-Outcome now w gw rl = elim (Bool-cases (leb most w.count)) [
    | inl full ↦ rw full (inl (refl, stored-own w gw rl))
    | inr free ↦ elim (Bool-cases (leb cfg.global_burst gw.count)) [
      | inl burst ↦ rw (free, burst) (inl (refl, stored-own w gw rl))
      | inr room ↦
          let below : w.count < most = ground arith in
          rw (free, room) (inr (refl, below, stored-own (counted w) (counted gw) rl))
    ]
  ]

  abbrev pub is_own : Class → Bytes → Bool
  is_own d other = same_class d c && eq_bytes other ip

  admit-Outcome :
      (now : ℕ) (d : Class) (other : Bytes) (rl : Limiter)
      → is_own d other ≡ true
      → Outcome (current now span (rl.by_class c ip)) (admit cfg now other d rl)
  unfolding admit
  admit-Outcome now d other rl h =
      let kind : same_class d c ≡ true = ground arith in
      let address : eq_bytes other ip ≡ true = ground arith in
      rw (same_class_eq d c kind, (eq_bytes_iff other ip).0 address)
        (decide-Outcome now (current now span (rl.by_class c ip))
          (current now minute (rl.global ip)) rl)

  pub admit-other :
      (now : ℕ) (d : Class) (other : Bytes) (rl : Limiter)
      → is_own d other ≡ false
      → (admit cfg now other d rl).1.by_class c ip ≡ rl.by_class c ip
  unfolding admit decide
  admit-other now d other rl h =
      let w = current now (span_of cfg d) (rl.by_class d other) in
      let gw = current now minute (rl.global other) in
      let kept = stored-other d other w gw rl h in
      elim (Bool-cases (leb (class_limit cfg d).requests w.count)) [
        | inl full ↦ rw full kept
        | inr free ↦ elim (Bool-cases (leb cfg.global_burst gw.count)) [
          | inl burst ↦ rw (free, burst) kept
          | inr room ↦ rw (free, room) (stored-other d other (counted w) (counted gw) rl h)
        ]
      ]

  abbrev pub passing : List Arrival → Limiter → ℕ
  passing arrivals rl = passed c ip arrivals (unswept_answers cfg arrivals rl)

  abbrev pub after_one : Arrival → Limiter → Limiter
  after_one a rl = (admit cfg a.now a.ip a.kind rl).1

  abbrev counts : Arrival → Limiter → Bool
  counts a rl = is_own a.kind a.ip && (admit cfg a.now a.ip a.kind rl).0.0

  pub skipped :
      (a : Arrival) (rest : List Arrival) (rl : Limiter)
      → counts a rl ≡ false
      → passing (a ∷ rest) rl ≡ passing rest (after_one a rl)
  unfolding passed unswept_answers
  skipped a rest rl h = rw h (omega arith)

  ticked :
      (a : Arrival) (rest : List Arrival) (rl : Limiter)
      → counts a rl ≡ true
      → passing (a ∷ rest) rl ≡ 1 + passing rest (after_one a rl)
  unfolding passed unswept_answers
  ticked a rest rl h = rw h refl

  -- A counted request leaves its window with one more, another one as it was.
  pub advanced :
      (a : Arrival) (rest : List Arrival) (rl : Limiter) (w : Window)
      → is_own a.kind a.ip ≡ true
      → current a.now span (rl.by_class c ip) ≡ w
      → ((passing (a ∷ rest) rl ≡ passing rest (after_one a rl))
          × ((after_one a rl).by_class c ip ≡ some w))
        ⊎ ((passing (a ∷ rest) rl ≡ 1 + passing rest (after_one a rl))
            × (w.count < most)
            × ((after_one a rl).by_class c ip ≡ some (counted w)))
  advanced a rest rl w own here = elim (admit-Outcome a.now a.kind a.ip rl own) [
    | inl (refused, after) ↦ inl (skipped a rest rl (rw (own, refused)), after ∙ ap some here)
    | inr (granted, below, after) ↦ inr (
      ticked a rest rl (rw (own, granted)),
      rw here at below,
      after ∙ ap (λ v. some (counted v)) here,
    )
  ]
