-- ===== src/AppErr/Retry.antt =====
-- `WithRetry` and `IsRetryable` of src/apperr/apperr.go. Durations are nanoseconds. The function to
-- retry is the sequence of its results, from the call 0 on, with `none` for no error; the context is what
-- the wait before an attempt ends with, `none` where the time has passed.
use shortner.Shared.{
  ℕ, zero, suc, ◌+◌, ◌*◌, ◌≤◌, ◌<◌, ◌≡◌, refl, sym, ap, ◌∙◌, ◌⊎◌, Bool, true, false, inl, inr, ◌||◌,
  Option, none, some, List, [], ◌∷◌, Bytes, arith, Bool-cases, Option-cases, ltb, leb, ◌==◌,
  if◌then◌else◌, length,
}

-- An error with what it wraps. An `AppError` is its HTTP status, with or without an internal error.
pub data GoError : Type 0 where
  deadline_exceeded canceled : GoError
  app_error : ℕ → GoError
  app_error_of : ℕ → GoError → GoError
  wrapped : Bytes → GoError → GoError
  other_error : Bytes → GoError

-- errors.Is(err, context.DeadlineExceeded) || errors.Is(err, context.Canceled)
unfoldable is_context_error : GoError → Bool
is_context_error deadline_exceeded = true
is_context_error canceled = true
is_context_error (app_error status) = false
is_context_error (app_error_of status e) = is_context_error e
is_context_error (wrapped text e) = is_context_error e
is_context_error (other_error text) = false

-- The status of the `AppError` that `errors.As` finds.
unfoldable app_status : GoError → Option ℕ
app_status (app_error status) = some status
app_status (app_error_of status e) = some status
app_status (wrapped text e) = app_status e
app_status _ = none

unfoldable pub is_retryable : Option GoError → Bool
unfolding is_context_error app_status
is_retryable none = false
is_retryable (some e) =
    is_context_error e
    || elim (app_status e) [ none ↦ false | some status ↦ status == 0 || leb 500 status ]

abbrev seconds : ℕ → ℕ
seconds n = n * 1_000_000_000

abbrev pub backoff_schedule : List ℕ
backoff_schedule = 0 ∷ seconds 1 ∷ seconds 2 ∷ seconds 4 ∷ seconds 8 ∷ []

abbrev pub max_backoff : ℕ
max_backoff = seconds 30

-- What precedes the attempt: `context` at its number and the time to wait.
abbrev pub pause : (ℕ → ℕ → Option GoError) → ℕ → ℕ → Option GoError
pause context attempt wait =
    if ltb 0 attempt
    then context attempt (if ltb max_backoff wait then max_backoff else wait)
    else none

-- The result, and how often the function was called.
abbrev Outcome : Type 0
Outcome = Option GoError × ℕ

abbrev settle : Option GoError → ℕ → Outcome → Outcome
settle none attempt rest = (none, attempt + 1)
settle (some e) attempt rest = if is_retryable (some e) then rest else (some e, attempt + 1)

abbrev unless_interrupted : Option GoError → ℕ → Outcome → Outcome
unless_interrupted none attempt rest = rest
unless_interrupted (some e) attempt rest = (some e, attempt)

unfoldable attempts :
    (ℕ → Option GoError) → (ℕ → ℕ → Option GoError) → ℕ → Option GoError → List ℕ → Outcome
attempts fn context attempt last [] = (last, attempt)
attempts fn context attempt last (wait ∷ waits) =
    let rest = attempts fn context (attempt + 1) (fn attempt) waits in
    unless_interrupted (pause context attempt wait) attempt (settle (fn attempt) attempt rest)

unfoldable pub with_retry : (ℕ → Option GoError) → (ℕ → ℕ → Option GoError) → Outcome
unfolding attempts is_retryable
with_retry fn context = attempts fn context 0 none backoff_schedule

settle_retry :
    (r : Option GoError) (n : ℕ) (rest : Outcome) → is_retryable r ≡ true → settle r n rest ≡ rest
unfolding is_retryable
settle_retry none n rest h = absurd (ground (arith, h))
settle_retry (some e) n rest h = rw h refl

module _ (fn : ℕ → Option GoError) (context : ℕ → ℕ → Option GoError) where
  pause_calm : (n wait : ℕ) → ((d : ℕ) → context n d ≡ none) → pause context n wait ≡ none
  pause_calm n wait calm = elim (Bool-cases (ltb 0 n)) [
    | inl later ↦ rw later (calm _)
    | inr first ↦ rw first refl
  ]

  attempts_succeed :
      (n j : ℕ) (last : Option GoError) (waits : List ℕ)
      → j < length waits
      → ((i : ℕ) → i < n + j → is_retryable (fn i) ≡ true)
      → ((i d : ℕ) → i ≤ n + j → context i d ≡ none)
      → fn (n + j) ≡ none
      → attempts fn context n last waits ≡ (none, n + j + 1)
  unfolding attempts
  attempts_succeed n zero last (wait ∷ waits) h failures calm works =
      let here : fn n ≡ none = ap fn (ground arith) ∙ works in
      let ends : n + 1 ≡ n + 0 + 1 = omega arith in
      rw (pause_calm n wait (λ d. calm n d (omega arith)), here, ends) refl
  attempts_succeed n (suc j) last (wait ∷ waits) h failures calm works =
      let same : n + 1 + j ≡ n + suc j = omega arith in
      let fails =
        settle_retry (fn n) n (attempts fn context (n + 1) (fn n) waits)
          (failures n (omega arith)) in
      let later =
        attempts_succeed (n + 1) j (fn n) waits (omega arith) (λ i before. failures i (omega arith))
          (λ i d before. calm i d (omega arith)) (ap fn same ∙ works) in
      rw (pause_calm n wait (λ d. calm n d (omega arith)), fails, sym same) later
  attempts_succeed n j last [] h failures calm works = absurd (ground arith)

  -- Let the context interrupt no wait, let the function fail fewer than five times with errors that can
  -- be retried, and then succeed: `WithRetry` calls it just so often and returns no error.
  pub with_retry_succeeds :
      (k : ℕ)
      → k < 5
      → ((i : ℕ) → i < k → is_retryable (fn i) ≡ true)
      → ((i d : ℕ) → i ≤ k → context i d ≡ none)
      → fn k ≡ none
      → with_retry fn context ≡ (none, k + 1)
  unfolding with_retry
  with_retry_succeeds k few failures calm works =
      let found =
        attempts_succeed 0 k none backoff_schedule few (λ i h. failures i (omega arith))
          (λ i d h. calm i d (omega arith)) (ap fn (ground arith) ∙ works) in
      found ∙ ap (λ (n : ℕ). (none, n + 1)) (ground arith)

  -- Why an error is returned after so many calls.
  abbrev pub Final : GoError → ℕ → Type 0
  Final e calls =
      ((d : ℕ) × (0 < calls) × (calls < 5) × (context calls d ≡ some e))
      ⊎ ((i : ℕ) × (calls ≡ i + 1)
          × (fn i ≡ some e)
          × ((is_retryable (some e) ≡ false) ⊎ (calls ≡ 5)))

  pause_interrupted :
      (n wait : ℕ) (e : GoError)
      → pause context n wait ≡ some e
      → (d : ℕ) × (0 < n) × (context n d ≡ some e)
  pause_interrupted n wait e h = elim (Bool-cases (ltb 0 n)) [
    | inl later ↦ (_, ground arith, rw later at h)
    | inr first ↦ absurd (ground (arith, h, first))
  ]

  interrupted-Final :
      (n : ℕ) (e : GoError) (calls : ℕ)
      → n < 5
      → n ≡ calls
      → (d : ℕ) × (0 < n) × (context n d ≡ some e)
      → Final e calls
  interrupted-Final n e calls few here (d, later, got) =
      inl (d, (rw here at later), (rw here at few), (rw here at got))

  attempts-Final :
      (n : ℕ) (last : Option GoError) (waits : List ℕ) (e : GoError) (calls : ℕ)
      → n + length waits ≡ 5
      → ((i : ℕ) → n ≡ i + 1 → last ≡ fn i)
      → attempts fn context n last waits ≡ (some e, calls)
      → Final e calls
  unfolding attempts
  attempts-Final n last [] e calls h is_last is =
      let five : n ≡ 5 = ground (arith, h) in
      let end : calls ≡ 5 = sym (ap (λ (o : Outcome). o.1) is) ∙ five in
      inr (4, end, sym (is_last 4 five) ∙ ap (λ (o : Outcome). o.0) is, inr end)
  attempts-Final n last (wait ∷ waits) e calls h is_last is =
      elim (Option-cases (pause context n wait)) [
        | inr (e0, stopped) ↦
            let result : (some e0, n) ≡ (some e, calls) = rw stopped at is in
            let p = pause_interrupted n wait e (stopped ∙ ap (λ (o : Outcome). o.0) result) in
            let here : n ≡ calls = ap (λ (o : Outcome). o.1) result in
            interrupted-Final n e calls (omega arith) here p
        | inl calm ↦ elim (Option-cases (fn n)) [
          | inl works ↦
              let result : (none, n + 1) ≡ (some e, calls) = rw (calm, works) at is in
              let wrong : none ≡ some e = ap (λ (o : Outcome). o.0) result in
              absurd (ground (arith, wrong))
          | inr (e0, fails) ↦ elim (Bool-cases (is_retryable (some e0))) [
            | inl again ↦
                let result : attempts fn context (n + 1) (some e0) waits ≡ (some e, calls) =
                  rw (calm, fails, again) at is in
                attempts-Final (n + 1) (some e0) waits e calls (ground (arith, h))
                  (λ i next. sym fails ∙ ap fn (ground (arith, next))) result
            | inr never ↦
                let result : (some e0, n + 1) ≡ (some e, calls) = rw (calm, fails, never) at is in
                let same : some e0 ≡ some e = ap (λ (o : Outcome). o.0) result in
                inr
                  (n, sym (ap (λ (o : Outcome). o.1) result), fails ∙ same, inl (rw same at never))
          ]
        ]
      ]

  -- The errors that `WithRetry` returns, and only after five calls at most: the one that the context
  -- interrupts a wait with, or that of the last call, which cannot be retried or is the fifth.
  pub with_retry-Final :
      (e : GoError) (calls : ℕ) → with_retry fn context ≡ (some e, calls) → Final e calls
  unfolding with_retry
  with_retry-Final e calls is =
      attempts-Final 0 none backoff_schedule e calls (omega arith)
        (λ i h. absurd (ground (arith, h))) is
