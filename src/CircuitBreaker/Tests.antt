-- ===== src/CircuitBreaker/Tests.antt =====
-- Small executions under the guard of plugins/circuit_breaker/runtime.py.
use text.Mathlib.Text.{◌==◌ as str_eq}
use i_ja_for_u.Base.{
  ℕ, ◌≤◌, String, Bool, true, false, Option, none, some, is_some, List, [], ◌∷◌, ◌++◌, ◌≡◌, refl,
  if◌then◌else◌, push_bounded, eqb_list, arith,
}
use i_ja_for_u.CircuitBreaker.{
  CircuitBreakerSettings, ToolObservation, CircuitBreakerGuard, create_guard, failure_violation,
  repeat_violation, in_bounds, digest, canonical, check, run, observe, find_cycle, is_repeated,
}
use i_ja_for_u.CircuitBreaker.Verdict.{digests, first_verdict, trailing_failures, run-first_verdict}
use i_ja_for_u.CircuitBreaker.Cycles.{EndsWithCycle}
use i_ja_for_u.CircuitBreaker.Trips.{
  Cause, run-stops_on_cycle, run-stops_on_failures, run-violation_sound,
}

-- No argument is JSON, and a digest tells the names "a" and "b" apart.
abbrev loads : String → Option (Unit {0})
loads _ = none

abbrev dumps : Unit {0} → String
dumps _ = "{}"

abbrev dumps_list : String → String → String → Bool → String
dumps_list name _ _ _ = name

abbrev sha256 : String → ℕ
sha256 text = if str_eq text "a" then 1 else 2

abbrev settings : CircuitBreakerSettings
settings = record {
  repetitions = 2;
  max_cycle_length = 2;
  consecutive_failures = 3;
  timeout_seconds = 120000;
}

abbrev call : String → Bool → ToolObservation
call name succeeded = record { name = name; arguments = "{}"; result = "{}"; succeeded = succeeded }

program : Unit {0}
unfolding run create_guard observe check digest canonical find_cycle is_repeated push_bounded
    eqb_list
program = tt

abbrev final : List ToolObservation → CircuitBreakerGuard
final = run loads dumps dumps_list sha256 (create_guard settings)

settings_in_bounds : in_bounds settings ≡ true
settings_in_bounds = refl

-- Two calls by turns: the cycle is complete with the fourth.
abbrev cycling : List ToolObservation
cycling = call "a" true ∷ call "b" true ∷ call "a" true ∷ call "b" true ∷ []

final-cycling : (final cycling).violation ≡ some (repeat_violation 2)
unfolding program
final-cycling = refl

abbrev failing : List ToolObservation
failing = call "b" true ∷ call "a" false ∷ call "b" false ∷ call "a" false ∷ []

final-failing : (final failing).violation ≡ some failure_violation
unfolding program
final-failing = refl

run-first_verdict_example :
    (final cycling).violation ≡ first_verdict loads dumps dumps_list sha256 settings [] cycling
run-first_verdict_example =
    run-first_verdict loads dumps dumps_list sha256 settings cycling (omega arith)

cycle : EndsWithCycle settings (digests loads dumps dumps_list sha256 cycling) 2
unfolding program
cycle = record { before = []; block = 1 ∷ 2 ∷ []; long = refl; split = refl }

run-stops_on_cycle_example : is_some (final cycling).violation ≡ true
run-stops_on_cycle_example =
    run-stops_on_cycle loads dumps dumps_list sha256 settings (call "a" true)
      (call "b" true ∷ call "a" true ∷ call "b" true ∷ []) 2 (omega arith) (omega arith)
      (omega arith) cycle

enough_failures : 3 ≤ trailing_failures 0 failing
unfolding trailing_failures
enough_failures = omega arith

run-stops_on_failures_example : is_some (final failing).violation ≡ true
run-stops_on_failures_example =
    run-stops_on_failures loads dumps dumps_list sha256 settings (call "b" true)
      (call "a" false ∷ call "b" false ∷ call "a" false ∷ []) (omega arith) enough_failures

run-violation_sound_example :
    (start : List ToolObservation) × (rest : List ToolObservation) × (failing ≡ start ++ rest)
    × Cause loads dumps dumps_list sha256 settings start failure_violation
run-violation_sound_example =
    run-violation_sound loads dumps dumps_list sha256 settings failing failure_violation
      (omega arith) final-failing
