-- ===== src/CircuitBreaker/Verdict.antt =====
-- The guard of plugins/circuit_breaker/runtime.py against a judge that keeps the whole execution.
use i_ja_for_u.Base.{
  ℕ, zero, suc, ◌+◌, ◌-◌, ◌*◌, ◌≤◌, length-drop, String, Bool, Option, none, some, List, [], ◌∷◌,
  ◌++◌, map, ◌≡◌, refl, leb, if◌then◌else◌, or_else, Option-cases, inl, inr, arith, last_n,
  push_bounded, last_n-last_n, push_bounded-last_n, length, sym, ap, ◌∙◌, drop-nil,
}
use mathlib.Core.List.{map-append}
use i_ja_for_u.CircuitBreaker.{
  CircuitBreakerSettings, ToolObservation, GuardViolation, CircuitBreakerGuard, create_guard,
  maxlen, failure_violation, find_cycle, is_repeated, digest, check, observe, run,
}

-- How many observations at the end of the list failed, counted from `n`.
unfoldable pub trailing_failures : ℕ → List ToolObservation → ℕ
trailing_failures n [] = n
trailing_failures n (o ∷ os) = trailing_failures (if o.succeeded then 0 else n + 1) os

trailing_failures-snoc :
    (n : ℕ) (os : List ToolObservation) (o : ToolObservation)
    → trailing_failures n (os ++ o ∷ []) ≡ (if o.succeeded then 0 else trailing_failures n os + 1)
unfolding trailing_failures
trailing_failures-snoc n [] o = refl
trailing_failures-snoc n (p ∷ os) o = trailing_failures-snoc (if p.succeeded then 0 else n + 1) os o

leb-window : (c n k m : ℕ) → m ≡ k - (k - n) → c ≤ n → leb c m ≡ leb c k
leb-window c n k m e h = ground arith

-- A window that is wide enough shows each cycle that the whole history shows.
is_repeated-last_n :
    (s : CircuitBreakerSettings) (n : ℕ) (ds : List ℕ) (cycle : ℕ)
    → 1 ≤ s.repetitions
    → cycle * s.repetitions ≤ n
    → is_repeated s (last_n n ds) cycle ≡ is_repeated s ds cycle
unfolding is_repeated
is_repeated-last_n s n ds cycle r h = cc (
  leb-window (cycle * s.repetitions) n (length ds) (length (last_n n ds))
      (length-drop (length ds - n) ds) h,
  last_n-last_n (cycle * s.repetitions) n ds h,
  last_n-last_n cycle n ds (grind arith),
)

find_cycle-last_n :
    (s : CircuitBreakerSettings) (ds : List ℕ) (cycle rounds : ℕ)
    → 1 ≤ s.repetitions
    → cycle + rounds ≤ suc s.max_cycle_length
    → find_cycle s (last_n (maxlen s) ds) cycle rounds ≡ find_cycle s ds cycle rounds
unfolding find_cycle
find_cycle-last_n s ds cycle zero r h = refl
find_cycle-last_n s ds cycle (suc rounds) r h = cc (
  is_repeated-last_n s (maxlen s) ds cycle r (grind arith),
  find_cycle-last_n s ds (suc cycle) rounds r (omega arith),
)

module _ {Value : Type 0} (loads : String → Option Value) (dumps : Value → String)
    (dumps_list : String → String → String → Bool → String) (sha256 : String → ℕ) where
  abbrev pub digests : List ToolObservation → List ℕ
  digests = map (digest loads dumps dumps_list sha256)

  -- What the settings say of an execution that just ended with these observations.
  unfoldable pub verdict : CircuitBreakerSettings → List ToolObservation → Option GuardViolation
  verdict s os =
      if leb s.consecutive_failures (trailing_failures 0 os)
      then some failure_violation
      else find_cycle s (digests os) 1 s.max_cycle_length

  -- The verdict on the shortest beginning of the execution that has one, past what was `seen`.
  unfoldable pub first_verdict :
      CircuitBreakerSettings → (seen rest : List ToolObservation) → Option GuardViolation
  first_verdict s seen [] = none
  first_verdict s seen (o ∷ os) =
      or_else (verdict s (seen ++ o ∷ [])) (first_verdict s (seen ++ o ∷ []) os)

  -- A guard that has not tripped on `seen`.
  record Watching (g : CircuitBreakerGuard) (seen : List ToolObservation) : Type 0 where
    quiet : g.violation ≡ none
    window : g.history ≡ last_n (maxlen g.settings) (digests seen)
    counted : g.failures ≡ trailing_failures 0 seen

  observe-latched :
      (g : CircuitBreakerGuard) (o : ToolObservation) (v : GuardViolation)
      → g.violation ≡ some v
      → observe loads dumps dumps_list sha256 g o ≡ g
  unfolding observe
  observe-latched g o v h = ground arith

  observe-quiet :
      (g : CircuitBreakerGuard) (o : ToolObservation)
      → g.violation ≡ none
      → observe loads dumps dumps_list sha256 g o ≡ check loads dumps dumps_list sha256 g o
  unfolding observe
  observe-quiet g o h = ground arith

  -- A violation is latched: whatever the guard observes after it, the guard stays as it is.
  pub run-latched :
      (g : CircuitBreakerGuard) (v : GuardViolation) (os : List ToolObservation)
      → g.violation ≡ some v
      → run loads dumps dumps_list sha256 g os ≡ g
  unfolding run
  run-latched g v [] h = refl
  run-latched g v (o ∷ os) h =
      ap (λ k. run loads dumps dumps_list sha256 k os) (observe-latched g o v h)
      ∙ run-latched g v os h

  digests-snoc :
      (os : List ToolObservation) (o : ToolObservation)
      → digests (os ++ o ∷ []) ≡ digests os ++ digest loads dumps dumps_list sha256 o ∷ []
  digests-snoc os o = map-append _ os (o ∷ [])

  module _ (g : CircuitBreakerGuard) (seen : List ToolObservation) (o : ToolObservation)
      (w : Watching g seen) (h : 1 ≤ g.settings.repetitions) where
    window_next :
        push_bounded (maxlen g.settings) g.history (digest loads dumps dumps_list sha256 o)
        ≡ last_n (maxlen g.settings) (digests (seen ++ o ∷ []))
    window_next =
        ap (λ ds. push_bounded (maxlen g.settings) ds (digest loads dumps dumps_list sha256 o))
          w.window
        ∙ push_bounded-last_n (maxlen g.settings) (digests seen) _
        ∙ ap (last_n (maxlen g.settings)) (sym (digests-snoc seen o))

    failures_next :
        (if o.succeeded then 0 else g.failures + 1) ≡ trailing_failures 0 (seen ++ o ∷ [])
    failures_next = ground (arith, w.counted, trailing_failures-snoc 0 seen o)

    cycle_next :
        find_cycle g.settings
          (push_bounded (maxlen g.settings) g.history (digest loads dumps dumps_list sha256 o))
          1
          g.settings.max_cycle_length
        ≡ find_cycle g.settings (digests (seen ++ o ∷ [])) 1 g.settings.max_cycle_length
    cycle_next =
        ap (λ ds. find_cycle g.settings ds 1 g.settings.max_cycle_length) window_next
        ∙ find_cycle-last_n g.settings (digests (seen ++ o ∷ [])) 1 g.settings.max_cycle_length h
            (omega arith)

    check-verdict :
        (check loads dumps dumps_list sha256 g o).violation ≡ verdict g.settings (seen ++ o ∷ [])
    unfolding check verdict
    check-verdict = ground (arith, failures_next, cycle_next)

    check-Watching :
        verdict g.settings (seen ++ o ∷ []) ≡ none
        → Watching (check loads dumps dumps_list sha256 g o) (seen ++ o ∷ [])
    unfolding check verdict
    check-Watching e = record {
      quiet = check-verdict ∙ e;
      window = ground (arith, failures_next, window_next);
      counted = ground (arith, failures_next);
    }

  settings-check :
      (g : CircuitBreakerGuard) (o : ToolObservation)
      → (check loads dumps dumps_list sha256 g o).settings ≡ g.settings
  unfolding check
  settings-check g o = ground arith

  run-Watching :
      (g : CircuitBreakerGuard) (seen os : List ToolObservation)
      → Watching g seen
      → 1 ≤ g.settings.repetitions
      → (run loads dumps dumps_list sha256 g os).violation ≡ first_verdict g.settings seen os
  unfolding run first_verdict
  run-Watching g seen [] w h = w.quiet
  run-Watching g seen (o ∷ os) w h =
      let next : CircuitBreakerGuard = check loads dumps dumps_list sha256 g o in
      let step : observe loads dumps dumps_list sha256 g o ≡ next = observe-quiet g o w.quiet in
      elim (Option-cases (verdict g.settings (seen ++ o ∷ []))) [
        | inl e ↦ ground (
          arith,
          step,
          e,
          settings-check g o,
          run-Watching next (seen ++ o ∷ []) os (check-Watching g seen o w h e)
              (rw (settings-check g o) h),
        )
        | inr (v, e) ↦ ground (
          arith,
          step,
          e,
          check-verdict g seen o w h,
          run-latched next v os (check-verdict g seen o w h ∙ e),
        )
      ]

  -- Where `repetitions` is not 0: the guard, which keeps a bounded window and a counter, has the
  -- violation that the judge of the
  -- whole execution gives on its shortest beginning that earns one, and none if there is none.
  pub run-first_verdict :
      (s : CircuitBreakerSettings) (os : List ToolObservation)
      → 1 ≤ s.repetitions
      → (run loads dumps dumps_list sha256 (create_guard s) os).violation ≡ first_verdict s [] os
  unfolding create_guard trailing_failures
  run-first_verdict s os h =
      run-Watching (create_guard s) [] os
        (record { quiet = refl; window = sym (drop-nil _); counted = refl }) h
