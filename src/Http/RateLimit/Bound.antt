-- ===== src/Http/RateLimit/Bound.antt =====
-- How many requests src/httpserver/ratelimit.go lets pass.
use shortner.Shared.{
  ℕ, ◌+◌, ◌-◌, ◌*◌, ◌≤◌, ◌<◌, ◌≡◌, refl, sym, subst, ap, ◌∙◌, inl, inr, Bool, true, false, some,
  List, [], ◌∷◌, Bytes, arith, ◌^◌, lt→ltb, Bool-cases, Option-cases, All, All-map,
}
use native.Mathlib.Nat.{mod-eq_of_lt}
use shortner.Http.RateLimit.{
  second, Class, Window, Config, Limiter, Arrival, class_limit, span_of, elapsed, current, counted,
}
use shortner.Http.RateLimit.Sweep.{answers, InOrder, answers-unswept_answers}
use shortner.Http.RateLimit.Step.{passed, used, skipped, admit-other, advanced}
use shortner.Http.RateLimit.Step

module _ (cfg : Config) (c : Class) (ip : Bytes) where
  abbrev most : ℕ
  most = (class_limit cfg c).requests

  abbrev span : ℕ
  span = span_of cfg c

  abbrev is_own : Class → Bytes → Bool
  is_own = Step.is_own cfg c ip

  abbrev after_one : Arrival → Limiter → Limiter
  after_one = Step.after_one cfg c ip

  abbrev passing : List Arrival → Limiter → ℕ
  passing = Step.passing cfg c ip

  -- While a window lasts, what is left of the limit passes at most.
  window_bound :
      (now : ℕ) (arrivals : List Arrival) (w : Window) (rl : Limiter)
      → rl.by_class c ip ≡ some w
      → w.window_start ≤ now
      → InOrder now arrivals
      → All (λ (a : Arrival). a.now < w.window_start + span) arrivals
      → passing arrivals rl ≤ most - w.count
  unfolding passed
  window_bound now [] w rl h begun order soon = omega arith
  window_bound now (a ∷ rest) w rl h begun (later, order) (soon, all) =
      elim (Bool-cases (is_own a.kind a.ip)) [
        | inr apart ↦
            let next =
              window_bound a.now rest w (after_one a rl)
                (admit-other cfg c ip a.now a.kind a.ip rl apart ∙ h) (omega arith) order all in
            omega (arith, next, skipped cfg c ip a rest rl (rw apart refl))
        | inl own ↦
            let live : elapsed a.now span w ≡ false = ground arith in
            elim (advanced cfg c ip a rest rl w own (rw h (rw live refl))) [
              | inl (same, after) ↦
                  let next =
                    window_bound a.now rest w (after_one a rl) after (omega arith) order all in
                  omega (arith, next, same)
              | inr (more, below, after) ↦
                  let next =
                    window_bound a.now rest (counted w) (after_one a rl) after (omega arith) order
                      all in
                  omega (arith, next, more, below)
            ]
      ]

  soon_after :
      (start now : ℕ) (arrivals : List Arrival)
      → start ≤ now
      → All (λ (a : Arrival). a.now < start + span) arrivals
      → All (λ (a : Arrival). a.now < now + span) arrivals
  soon_after start now arrivals h all =
      All-map (λ (a : Arrival). a.now < start + span) (λ (a : Arrival). a.now < now + span) arrivals
        (λ a soon. omega arith) all

  -- From a request that starts a window, the limit passes at most.
  fresh_bound :
      (start : ℕ) (a : Arrival) (rest : List Arrival) (rl : Limiter)
      → is_own a.kind a.ip ≡ true
      → current a.now span (rl.by_class c ip) ≡ record { count = 0; window_start = a.now }
      → start ≤ a.now
      → InOrder a.now rest
      → All (λ (b : Arrival). b.now < start + span) rest
      → passing (a ∷ rest) rl ≤ most
  fresh_bound start a rest rl own fresh begun order all =
      let w : Window = record { count = 0; window_start = a.now } in
      let soon = soon_after start a.now rest begun all in
      elim (advanced cfg c ip a rest rl w own fresh) [
        | inl (same, after) ↦
            let next = window_bound a.now rest w (after_one a rl) after (omega arith) order soon in
            omega (arith, next, same)
        | inr (more, below, after) ↦
            let next =
              window_bound a.now rest (counted w) (after_one a rl) after (omega arith) order soon in
            omega (arith, next, more, below)
      ]

  -- In a period shorter than the window, at most what is left of one window and the limit of the next.
  period_bound :
      (start now : ℕ) (arrivals : List Arrival) (rl : Limiter)
      → start ≤ now
      → InOrder now arrivals
      → All (λ (a : Arrival). a.now < start + span) arrivals
      → passing arrivals rl ≤ most + (most - used (rl.by_class c ip))
  unfolding passed
  period_bound start now [] rl begun order soon = omega arith
  period_bound start now (a ∷ rest) rl begun (later, order) (soon, all) =
      elim (Bool-cases (is_own a.kind a.ip)) [
        | inr apart ↦
            let next = period_bound start a.now rest (after_one a rl) (omega arith) order all in
            let same = ap used (admit-other cfg c ip a.now a.kind a.ip rl apart) in
            omega (arith, next, same, skipped cfg c ip a rest rl (rw apart refl))
        | inl own ↦ elim (Option-cases (rl.by_class c ip)) [
          | inl new ↦
              let bound = fresh_bound start a rest rl own (rw new refl) (omega arith) order all in
              omega (arith, bound)
          | inr (w, old) ↦ elim (Bool-cases (elapsed a.now span w)) [
            | inl over ↦
                let bound =
                  fresh_bound start a rest rl own (rw old (rw over refl)) (omega arith) order all in
                omega (arith, bound)
            | inr live ↦ elim (advanced cfg c ip a rest rl w own (rw old (rw live refl))) [
              | inl (same, after) ↦
                  let next =
                    period_bound start a.now rest (after_one a rl) (omega arith) order all in
                  omega (arith, next, same, ap used after, ap used old)
              | inr (more, below, after) ↦
                  let next =
                    period_bound start a.now rest (after_one a rl) (omega arith) order all in
                  omega (arith, next, more, below, ap used after, ap used old)
            ]
          ]
        ]
      ]

  abbrev nanoseconds : ℕ
  nanoseconds = (class_limit cfg c).window * second

  exact_span : nanoseconds < 2 ^ 63 → span ≡ nanoseconds
  unfolding span_of class_limit
  exact_span fits =
      let wide : nanoseconds < 2 ^ 64 = omega (arith, fits) in
      rw (mod-eq_of_lt wide, lt→ltb _ _ fits) refl

  soon_in_span :
      (start : ℕ) (arrivals : List Arrival)
      → nanoseconds < 2 ^ 63
      → All (λ (a : Arrival). a.now < start + nanoseconds) arrivals
      → All (λ (a : Arrival). a.now < start + span) arrivals
  soon_in_span start arrivals fits soon =
      subst (λ k. All (λ (a : Arrival). a.now < start + k) arrivals) (sym (exact_span fits)) soon

  -- Where limiting is on, the class's window is below 2^63 nanoseconds and the clock does not run
  -- backwards: of the requests of one class and IP that arrive in a period shorter than the window that
  -- is configured for the class, at most twice the limit pass, whatever other requests arrive between
  -- them and whatever the limiter has counted before.
  pub passed-answers :
      (start : ℕ) (arrivals : List Arrival) (rl : Limiter)
      → cfg.enabled ≡ true
      → (class_limit cfg c).window * second < 2 ^ 63
      → InOrder start arrivals
      → All (λ (a : Arrival). a.now < start + (class_limit cfg c).window * second) arrivals
      → passed c ip arrivals (answers cfg arrivals rl) ≤ 2 * most
  passed-answers start arrivals rl on fits order soon =
      let within = soon_in_span start arrivals fits soon in
      let bound = period_bound start start arrivals rl (omega arith) order within in
      rw (answers-unswept_answers cfg start arrivals rl on order) (omega (arith, bound))
