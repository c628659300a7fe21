-- ===== src/CircuitBreaker.antt =====
-- plugins/circuit_breaker/runtime.py: the guard that stops a tool loop which fails again and again
-- or repeats itself. `json` and `hashlib` are parameters; a digest is read as a number.
pub mod Verdict
pub mod Cycles
pub mod Trips
mod Tests
use i_ja_for_u.Base.{
  ℕ, zero, suc, ◌+◌, ◌*◌, String, Bool, ◌&&◌, Option, none, some, List, [], ◌∷◌, leb, ◌==◌,
  if◌then◌else◌, length, eqb_list, repeat_list, last_n, push_bounded,
}

-- `timeout_seconds` in milliseconds.
pub record CircuitBreakerSettings : Type 0 where
  pub repetitions : ℕ
  pub max_cycle_length : ℕ
  pub consecutive_failures : ℕ
  pub timeout_seconds : ℕ

-- The bounds of the `Field` declarations.
abbrev pub in_bounds : CircuitBreakerSettings → Bool
in_bounds s =
    leb 2 s.repetitions
    && leb s.repetitions 10
    && leb 1 s.max_cycle_length
    && leb s.max_cycle_length 16
    && leb 2 s.consecutive_failures
    && leb s.consecutive_failures 20
    && leb 100 s.timeout_seconds
    && leb s.timeout_seconds 3600000

-- ports/tool_guard.py
pub record ToolObservation : Type 0 where
  pub name : String
  pub arguments : String
  pub result : String
  pub succeeded : Bool

pub record GuardViolation : Type 0 where
  pub reason : String
  pub message : String

pub record CircuitBreakerGuard : Type 0 where
  pub settings : CircuitBreakerSettings
  pub history : List ℕ
  pub failures : ℕ
  pub violation : Option GuardViolation

-- `CircuitBreakerPlugin.create_guard`: every execution has a guard of its own.
unfoldable pub create_guard : CircuitBreakerSettings → CircuitBreakerGuard
create_guard s = record { settings = s; history = []; failures = 0; violation = none }

abbrev pub maxlen : CircuitBreakerSettings → ℕ
maxlen s = s.repetitions * s.max_cycle_length

abbrev pub failure_violation : GuardViolation
failure_violation = record { reason = "consecutive_failures"; message = "工具连续失败达到阈值，已停止本次任务" }

abbrev pub repeat_violation : ℕ → GuardViolation
repeat_violation length = record {
  reason = if length == 1 then "repeated_result" else "repeated_cycle";
  message = "工具调用及结果重复且无进展，已停止本次任务";
}

-- The test in the loop of `observe`, for one cycle length.
unfoldable pub is_repeated : CircuitBreakerSettings → List ℕ → ℕ → Bool
is_repeated s history cycle =
    let count = cycle * s.repetitions in
    leb count (length history)
    && eqb_list (last_n count history) (repeat_list s.repetitions (last_n cycle history))

-- `for length in range(cycle, cycle + rounds)`, up to the first cycle that is found.
unfoldable pub find_cycle :
    CircuitBreakerSettings → List ℕ → (cycle rounds : ℕ) → Option GuardViolation
find_cycle s history cycle zero = none
find_cycle s history cycle (suc rounds) =
    let rest = find_cycle s history (suc cycle) rounds in
    if is_repeated s history cycle then some (repeat_violation cycle) else rest

-- `json.loads` (`none` is `JSONDecodeError`), `json.dumps` with sorted keys, `json.dumps` of the
-- list, and the SHA-256 of its UTF-8 bytes. Texts with a lone surrogate, which have no such bytes, are
-- left out: `encode` raises there.
module _ {Value : Type 0} (loads : String → Option Value) (dumps : Value → String)
    (dumps_list : String → String → String → Bool → String) (sha256 : String → ℕ) where
  unfoldable pub canonical : String → String
  canonical value = elim (loads value) [ none ↦ value | some decoded ↦ dumps decoded ]

  unfoldable pub digest : ToolObservation → ℕ
  digest o = sha256 (dumps_list o.name (canonical o.arguments) (canonical o.result) o.succeeded)

  -- What `observe` does where no violation is latched.
  unfoldable pub check : CircuitBreakerGuard → ToolObservation → CircuitBreakerGuard
  check g o =
      let failures : ℕ = if o.succeeded then 0 else g.failures + 1 in
      let history : List ℕ = push_bounded (maxlen g.settings) g.history (digest o) in
      if leb g.settings.consecutive_failures failures
      then record g { failures = failures; violation = some failure_violation }
      else record g {
        failures = failures;
        history = history;
        violation = find_cycle g.settings history 1 g.settings.max_cycle_length;
      }

  unfoldable pub observe : CircuitBreakerGuard → ToolObservation → CircuitBreakerGuard
  observe g o = elim g.violation [ some v ↦ g | none ↦ check g o ]

  -- A guard over the observations of one execution. `observe` returns the violation that it keeps.
  unfoldable pub run : CircuitBreakerGuard → List ToolObservation → CircuitBreakerGuard
  run g [] = g
  run g (o ∷ os) = run (observe g o) os
