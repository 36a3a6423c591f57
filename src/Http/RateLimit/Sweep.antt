-- ===== src/Http/RateLimit/Sweep.antt =====
-- The sweep of src/httpserver/ratelimit.go changes no answer.
use shortner.Shared.{
  ℕ, ◌≤◌, ◌≡◌, refl, sym, ap, ◌∙◌, Bool, true, false, Option, none, some, List, [], ◌∷◌, Bytes,
  arith, Bool-cases, inl, inr, leb, leb→le, if◌then◌else◌, if_intro, eq_bytes, Bytes,
}
use shortner.Http.RateLimit.{
  Class, Window, Config, Limiter, Arrival, minute, span_of, elapsed, unexpired, current, put,
  stored, counted, class_limit, decide, same_class, Windows, sweep_locked, admit, allow,
}

-- The answers to a sequence of requests.
unfoldable pub answers : Config → List Arrival → Limiter → List (Bool × ℕ)
unfolding allow
answers cfg [] rl = []
answers cfg (a ∷ rest) rl =
    (allow cfg a.now a.ip a.kind rl).0 ∷ answers cfg rest (allow cfg a.now a.ip a.kind rl).1

-- The same without any sweep.
unfoldable pub unswept_answers : Config → List Arrival → Limiter → List (Bool × ℕ)
unfolding admit
unswept_answers cfg [] rl = []
unswept_answers cfg (a ∷ rest) rl =
    (admit cfg a.now a.ip a.kind rl).0 ∷ unswept_answers cfg rest (admit cfg a.now a.ip a.kind rl).1

-- From the instant on, no request is earlier than the one before it.
abbrev pub InOrder : ℕ → List Arrival → Type 0
InOrder now [] = Unit
InOrder now (a ∷ rest) = (now ≤ a.now) × InOrder a.now rest

-- The two limiters have the same windows, but for windows whose period has passed.
record Alike (cfg : Config) (now : ℕ) (r s : Limiter) : Type 0 where
  by_class :
      (c : Class) (ip : Bytes)
      → unexpired now (span_of cfg c) (r.by_class c ip)
        ≡ unexpired now (span_of cfg c) (s.by_class c ip)
  global : (ip : Bytes) → unexpired now minute (r.global ip) ≡ unexpired now minute (s.global ip)

current-unexpired :
    (now span : ℕ) (w : Option Window)
    → current now span (unexpired now span w) ≡ current now span w
current-unexpired now span none = refl
current-unexpired now span (some w) = elim (Bool-cases (elapsed now span w)) [
  | inl over ↦ rw over refl
  | inr live ↦ rw live (rw live refl)
]

-- What has expired stays expired.
unexpired_later :
    (now later span : ℕ) (w : Option Window)
    → now ≤ later
    → unexpired later span (unexpired now span w) ≡ unexpired later span w
unexpired_later now later span none h = refl
unexpired_later now later span (some w) h = elim (Bool-cases (elapsed now span w)) [
  | inl over ↦
      let past = leb→le _ _ over in
      let still : elapsed later span w ≡ true = ground (arith, past, h) in rw over (rw still refl)
  | inr live ↦ rw live refl
]

module _ (cfg : Config) where
  Alike-later :
      (now later : ℕ) (r s : Limiter) → now ≤ later → Alike cfg now r s → Alike cfg later r s
  Alike-later now later r s h a = record {
    by_class = λ c ip.
        sym (unexpired_later now later _ (r.by_class c ip) h)
        ∙ ap (unexpired later (span_of cfg c)) (a.by_class c ip)
        ∙ unexpired_later now later _ (s.by_class c ip) h;
    global = λ ip.
        sym (unexpired_later now later _ (r.global ip) h)
        ∙ ap (unexpired later minute) (a.global ip)
        ∙ unexpired_later now later _ (s.global ip) h;
  }

  Alike-sweep :
      (now : ℕ) (r s : Limiter) → Alike cfg now r s → Alike cfg now (sweep_locked cfg now r) s
  unfolding sweep_locked
  Alike-sweep now r s a =
      if_intro (λ x. Alike cfg now x s) _ a
        (record {
          by_class =
              λ c ip. unexpired_later now now _ (r.by_class c ip) (omega arith) ∙ a.by_class c ip;
          global = λ ip. unexpired_later now now _ (r.global ip) (omega arith) ∙ a.global ip;
        })

  Alike-put :
      (now span : ℕ) (ip : Bytes) (w : Window) (m n : Windows)
      → ((other : Bytes) → unexpired now span (m other) ≡ unexpired now span (n other))
      → (other : Bytes)
      → unexpired now span (put ip w m other) ≡ unexpired now span (put ip w n other)
  Alike-put now span ip w m n h other = elim (Bool-cases (eq_bytes ip other)) [
    | inl same ↦ rw same refl
    | inr differs ↦ rw differs (h other)
  ]

  Alike-stored :
      (now : ℕ) (c : Class) (ip : Bytes) (w gw : Window) (r s : Limiter)
      → Alike cfg now r s
      → Alike cfg now (stored c ip w gw r) (stored c ip w gw s)
  Alike-stored now c ip w gw r s a = record {
    by_class = λ d other. go (same_class c d) d other;
    global = Alike-put now minute ip gw r.global s.global a.global;
  }
    where
      go :
          (b : Bool) (d : Class) (other : Bytes)
          → unexpired now
              (span_of cfg d)
              ((if b then put ip w (r.by_class d) else r.by_class d) other)
            ≡ unexpired now
                (span_of cfg d)
                ((if b then put ip w (s.by_class d) else s.by_class d) other)
      go true d other =
          Alike-put now (span_of cfg d) ip w (r.by_class d) (s.by_class d) (a.by_class d) other
      go false d other = a.by_class d other

  -- The same answer, and limiters that are alike again.
  abbrev Agree : ℕ → (Bool × ℕ) × Limiter → (Bool × ℕ) × Limiter → Type 0
  Agree now p q = (p.0 ≡ q.0) × Alike cfg now p.1 q.1

  decide-Agree :
      (now : ℕ) (ip : Bytes) (c : Class) (w gw : Window) (r s : Limiter)
      → Alike cfg now r s
      → Agree now (decide cfg now ip c w gw r) (decide cfg now ip c w gw s)
  unfolding decide
  decide-Agree now ip c w gw r s a = elim (Bool-cases (leb (class_limit cfg c).requests w.count)) [
    | inl full ↦ rw full (refl, Alike-stored now c ip w gw r s a)
    | inr free ↦ elim (Bool-cases (leb cfg.global_burst gw.count)) [
      | inl burst ↦ rw (free, burst) (refl, Alike-stored now c ip w gw r s a)
      | inr room ↦ rw (free, room) (refl, Alike-stored now c ip (counted w) (counted gw) r s a)
    ]
  ]

  admit-Agree :
      (now : ℕ) (ip : Bytes) (c : Class) (r s : Limiter)
      → Alike cfg now r s
      → Agree now (admit cfg now ip c r) (admit cfg now ip c s)
  unfolding admit
  admit-Agree now ip c r s a =
      let here =
        current_same (span_of cfg c) (r.by_class c ip) (s.by_class c ip) (a.by_class c ip) in
      let there = current_same minute (r.global ip) (s.global ip) (a.global ip) in
      rw (here, there) (decide-Agree now ip c _ _ r s a)
    where
      current_same :
          (span : ℕ) (v w : Option Window)
          → unexpired now span v ≡ unexpired now span w
          → current now span v ≡ current now span w
      current_same span v w h =
          sym (current-unexpired now span v)
          ∙ ap (current now span) h
          ∙ current-unexpired now span w

  cons_same :
      {A : Type 0} {x y : A} {xs ys : List A} → x ≡ y → xs ≡ ys → ◌≡◌ {A = List A} (x ∷ xs) (y ∷ ys)
  cons_same h k = rw (h, k)

  answers-Alike :
      (now : ℕ) (arrivals : List Arrival) (r s : Limiter)
      → cfg.enabled ≡ true
      → InOrder now arrivals
      → Alike cfg now r s
      → answers cfg arrivals r ≡ unswept_answers cfg arrivals s
  unfolding answers allow unswept_answers span_of
  answers-Alike now [] r s on h a = refl
  answers-Alike now (x ∷ rest) r s on (h, hs) a =
      let b = Alike-sweep x.now r s (Alike-later now x.now r s h a) in
      let (same, after) = admit-Agree x.now x.ip x.kind (sweep_locked cfg x.now r) s b in
      rw on (cons_same same (answers-Alike x.now rest _ _ on hs after))

  -- Where limiting is on and the clock does not run backwards, the sweep changes no answer: every
  -- sequence of requests is answered as by a limiter that never drops a window.
  pub answers-unswept_answers :
      (now : ℕ) (arrivals : List Arrival) (rl : Limiter)
      → cfg.enabled ≡ true
      → InOrder now arrivals
      → answers cfg arrivals rl ≡ unswept_answers cfg arrivals rl
  answers-unswept_answers now arrivals rl on h =
      answers-Alike now arrivals rl rl on h
        (record { by_class = λ c ip. refl; global = λ ip. refl })
