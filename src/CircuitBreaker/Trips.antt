-- ===== src/CircuitBreaker/Trips.antt =====
-- When the guard of plugins/circuit_breaker/runtime.py stops an execution, and when it does not.
use i_ja_for_u.Base.{
  ℕ, ◌≤◌, String, Bool, true, Option, some, is_some, List, [], ◌∷◌, ◌++◌, ◌≡◌, ◌≢◌, refl, sym, ap,
  ◌∙◌, inl, inr, leb, le→leb, leb→le, append_assoc, Bool-cases, Option-cases, arith,
}
use i_ja_for_u.CircuitBreaker.{
  CircuitBreakerSettings, ToolObservation, GuardViolation, create_guard, failure_violation,
  repeat_violation, run,
}
use i_ja_for_u.CircuitBreaker.Verdict.{
  trailing_failures, digests, verdict, first_verdict, run-first_verdict,
}
use i_ja_for_u.CircuitBreaker.Cycles.{
  EndsWithCycle, is_repeated_sound, is_repeated_complete, find_cycle_sound, find_cycle_complete,
}

module _ {Value : Type 0} (loads : String → Option Value) (dumps : Value → String)
    (dumps_list : String → String → String → Bool → String) (sha256 : String → ℕ)
    (s : CircuitBreakerSettings) where
  abbrev judge : List ToolObservation → Option GuardViolation
  judge = verdict loads dumps dumps_list sha256 s

  abbrev first : (seen rest : List ToolObservation) → Option GuardViolation
  first = first_verdict loads dumps dumps_list sha256 s

  abbrev stopped : List ToolObservation → Option GuardViolation
  stopped os = (run loads dumps dumps_list sha256 (create_guard s) os).violation

  first-is_some :
      (seen : List ToolObservation) (o : ToolObservation) (os : List ToolObservation)
      → is_some (judge (seen ++ o ∷ os)) ≡ true
      → is_some (first seen (o ∷ os)) ≡ true
  unfolding first_verdict
  first-is_some seen o [] h = ground arith
  first-is_some seen o (p ∷ os) h = ground (
    arith,
    first-is_some (seen ++ o ∷ []) p os
        (ap (λ xs. is_some (judge xs)) (append_assoc seen (o ∷ []) (p ∷ os)) ∙ h),
  )

  -- Why an execution may be stopped after these observations.
  pub data Cause (os : List ToolObservation) (v : GuardViolation) : Type 0 where
    failing : s.consecutive_failures ≤ trailing_failures 0 os → v ≡ failure_violation → Cause os v
    cycling :
        (c : ℕ)
        → 1 ≤ c
        → c ≤ s.max_cycle_length
        → EndsWithCycle s (digests loads dumps dumps_list sha256 os) c
        → v ≡ repeat_violation c
        → Cause os v

  judge-Cause :
      (os : List ToolObservation) (v : GuardViolation)
      → 1 ≤ s.repetitions
      → judge os ≡ some v
      → Cause os v
  unfolding verdict
  judge-Cause os v r h = elim (Bool-cases (leb s.consecutive_failures (trailing_failures 0 os))) [
    | inl e ↦ failing (leb→le _ _ e) (ground arith)
    | inr e ↦
        let (c, low, high, found, same) =
          find_cycle_sound s (digests loads dumps dumps_list sha256 os) 1 s.max_cycle_length v
            (ground arith) in
        cycling c low (omega arith) (is_repeated_sound s _ c r found) same
  ]

  record Begins (seen os : List ToolObservation) (v : GuardViolation) : Type 0 where
    start : List ToolObservation
    rest : List ToolObservation
    split : os ≡ start ++ rest
    judged : judge (seen ++ start) ≡ some v

  first_sound :
      (seen os : List ToolObservation) (v : GuardViolation)
      → first seen os ≡ some v
      → Begins seen os v
  unfolding first_verdict
  first_sound seen [] v h = absurd (ground arith)
  first_sound seen (o ∷ os) v h = elim (Option-cases (judge (seen ++ o ∷ []))) [
    | inl e ↦
        let later = first_sound (seen ++ o ∷ []) os v (ground arith) in
        record {
          start = o ∷ later.start;
          rest = later.rest;
          split = ap (λ xs. o ∷ xs) later.split;
          judged = ap judge (sym (append_assoc seen (o ∷ []) later.start)) ∙ later.judged;
        }
    | inr (w, e) ↦ record { start = o ∷ []; rest = os; split = refl; judged = ground arith }
  ]

  judge_cycle :
      (os : List ToolObservation) (c : ℕ)
      → 1 ≤ s.repetitions
      → 1 ≤ c
      → c ≤ s.max_cycle_length
      → EndsWithCycle s (digests loads dumps dumps_list sha256 os) c
      → is_some (judge os) ≡ true
  unfolding verdict
  judge_cycle os c r low high cycle = ground (
    arith,
    find_cycle_complete s (digests loads dumps dumps_list sha256 os) 1 s.max_cycle_length c low
        (omega arith) (is_repeated_complete s _ c r cycle),
  )

  judge_failures :
      (os : List ToolObservation)
      → s.consecutive_failures ≤ trailing_failures 0 os
      → is_some (judge os) ≡ true
  unfolding verdict
  judge_failures os h = ground (arith, le→leb _ _ h)

  stopped_of_judge :
      (os : List ToolObservation)
      → 1 ≤ s.repetitions
      → os ≢ []
      → is_some (judge os) ≡ true
      → is_some (stopped os) ≡ true
  stopped_of_judge [] r ne h = absurd (ne refl)
  stopped_of_judge (o ∷ os) r ne h =
      ap is_some (run-first_verdict loads dumps dumps_list sha256 s (o ∷ os) r)
      ∙ first-is_some [] o os h

  -- Where `repetitions` is not 0: an execution whose digests end with one block of at most
  -- `max_cycle_length` digests, and of one at least, repeated
  -- `repetitions` times, is stopped, though the guard keeps a bounded window.
  pub run-stops_on_cycle :
      (o : ToolObservation) (os : List ToolObservation) (c : ℕ)
      → 1 ≤ s.repetitions
      → 1 ≤ c
      → c ≤ s.max_cycle_length
      → EndsWithCycle s (digests loads dumps dumps_list sha256 (o ∷ os)) c
      → is_some (run loads dumps dumps_list sha256 (create_guard s) (o ∷ os)).violation ≡ true
  run-stops_on_cycle o os c r low high cycle =
      stopped_of_judge (o ∷ os) r (λ e. cc) (judge_cycle (o ∷ os) c r low high cycle)

  -- Where `repetitions` is not 0: an execution of a call or more that ends with
  -- `consecutive_failures` failed calls or more is stopped.
  pub run-stops_on_failures :
      (o : ToolObservation) (os : List ToolObservation)
      → 1 ≤ s.repetitions
      → s.consecutive_failures ≤ trailing_failures 0 (o ∷ os)
      → is_some (run loads dumps dumps_list sha256 (create_guard s) (o ∷ os)).violation ≡ true
  run-stops_on_failures o os r h = stopped_of_judge (o ∷ os) r (λ e. cc) (judge_failures (o ∷ os) h)

  -- Where `repetitions` is not 0: a guard with a violation `v` has seen a beginning of the execution that ends with enough
  -- failed calls, or with a repeated block of allowed length, and `v` names which.
  pub run-violation_sound :
      (os : List ToolObservation) (v : GuardViolation)
      → 1 ≤ s.repetitions
      → (run loads dumps dumps_list sha256 (create_guard s) os).violation ≡ some v
      → (start : List ToolObservation) × (rest : List ToolObservation) × (os ≡ start ++ rest)
        × Cause start v
  run-violation_sound os v r h =
      let b =
        first_sound [] os v (sym (run-first_verdict loads dumps dumps_list sha256 s os r) ∙ h) in
      (b.start, b.rest, b.split, judge-Cause b.start v r b.judged)
