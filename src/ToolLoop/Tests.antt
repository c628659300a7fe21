-- ===== src/ToolLoop/Tests.antt =====
-- Runs of src/application/tool_loop.py with one tool, and the theorems applied to them.
use i_ja_for_u.Base.{
  ℕ, ◌≤◌, ◌<◌, String, true, false, none, some, List, [], ◌∷◌, ◌++◌, ◌≡◌, refl, All, length, ◌==◌,
  if◌then◌else◌, eqb_list, push_bounded, arith,
}
use i_ja_for_u.Domain.{ReplyDraft}
use i_ja_for_u.CircuitBreaker as Breaker
use i_ja_for_u.CircuitBreaker.{
  CircuitBreakerSettings, CircuitBreakerGuard, ToolObservation, create_guard,
}
use i_ja_for_u.CircuitBreaker.Verdict.{trailing_failures, digests}
use i_ja_for_u.CircuitBreaker.Cycles.{EndsWithCycle}
use i_ja_for_u.ToolRegistry.{
  contains, is_subset, difference, meets, insert_sorted, sorted, join_names, ToolContext,
  RegisteredTool, supports_context_egress, definition, find_tool, select, is_visible, visible,
  definitions, exposed_tool_names, valid, resolve, is_terminal,
}
use i_ja_for_u.ToolLoop.Effects.{
  ToolSettings, ModelToolCall, user, ModelMessage, ModelRequest, ToolExecutionStatus, running,
  ToolExecution, cancelled, tool_limit, object, returns, Completion, answers, Fate, completes,
  stops, Environment, ToolGuard, ToolRun, Outcome, done, raised, ◌>>=◌, query, modify, tick, effect,
  save_tool_execution, publish,
}
use i_ja_for_u.ToolLoop.Executions.{
  public_execution_payload, cut, tripped_payload, abort, check_budget, new_execution,
  fail_execution, refuse_arguments, call_handler, execute, complete_execution, settle_execution,
  start_execution, perform_call,
}
use i_ja_for_u.ToolLoop.Reports.{
  judge, act_on, dumps, show_guards, observe, append_result, report, conclude,
}
use i_ja_for_u.ToolLoop.Rounds.{
  hidden_names, has_terminal_call, run_call, run_calls, finish, check_calls, complete, append_calls,
  follow, run_round, run_rounds, run_loop, earliest, on_error, run_guarded, run,
}
use i_ja_for_u.ToolLoop.Tracking.{IsGranted}
use i_ja_for_u.ToolLoop.Limits.{run-limits, run-IsGranted}
use i_ja_for_u.ToolLoop.Guarded.{circuit_breaker, guarded_run, run-no_loops}
use i_ja_for_u.ToolLoop.Transcript.{IsAnswered, run-IsAnswered}
use i_ja_for_u.ToolLoop.Records.{Accounts}
use i_ja_for_u.ToolLoop.Audit.{run-Accounts}

program : Unit {0}
unfolding contains is_subset difference meets insert_sorted sorted join_names
    supports_context_egress definition find_tool select is_visible visible definitions
    exposed_tool_names resolve is_terminal ◌>>=◌ query modify tick effect save_tool_execution
    publish public_execution_payload cut tripped_payload abort check_budget new_execution
    fail_execution refuse_arguments call_handler execute complete_execution settle_execution
    start_execution perform_call judge act_on dumps show_guards observe append_result report
    conclude hidden_names has_terminal_call run_call run_calls finish check_calls complete
    append_calls follow run_round run_rounds run_loop earliest on_error run_guarded run
program = tt

breaker_program : Unit {0}
unfolding create_guard Breaker.is_repeated Breaker.find_cycle Breaker.canonical Breaker.digest
    Breaker.check Breaker.observe Breaker.run push_bounded eqb_list
breaker_program = tt

abbrev clock_tool : RegisteredTool
clock_tool = record {
  name = "clock";
  description = "";
  arguments_model = "{}";
  terminal = false;
  required_scopes = [];
  required_skill = none;
  required_any_egress_components = [];
}

abbrev draft : ReplyDraft
draft = record { components = []; follow_up_components = []; expression_id = none }

abbrev call : ModelToolCall
call = record { id = "c1"; name = "clock"; arguments = "{}" }

abbrev ask : Completion
ask = answers (record { content = none; tool_calls = call ∷ [] })

abbrev reply : Completion
reply = answers (record { content = some "noon"; tool_calls = [] })

-- The model calls the clock as long as no answer of a tool is in its messages.
abbrev complete_with : List ModelMessage → Completion
complete_with (m ∷ a ∷ t ∷ rest) = reply
complete_with _ = ask

abbrev environment : (ℕ → ModelRequest → Completion) → (ℕ → Fate) → Environment
environment model fate = record {
  Json = ℕ;
  empty_object = 0;
  loads = λ t. object 1;
  dumps = λ p. some "{}";
  registry = clock_tool ∷ [];
  model_validate = λ t n. valid n;
  handler = λ n t x c. (returns (record { value = 12; reply_draft = none }), []);
  complete = model;
  draft_from_model_text = λ t b. draft;
  fate = fate;
  clock = λ n. n;
  utc_now = λ n. n;
  new_id = λ n. "id";
  has_fired = λ n. false;
}

abbrev helpful : Environment
helpful = environment (λ n r. complete_with r.messages) (λ n. completes)

abbrev settings : ToolSettings
settings = record { max_rounds = 4; max_calls = 2 }

abbrev context : ToolContext
context = record {
  session_id = "s";
  turn_id = none;
  schedule_run_id = none;
  authorization_scopes = [];
  loaded_skills = [];
  supported_egress_components = [];
}

abbrev question : ModelMessage
question = record { role = user; content = some "time?"; tool_calls = []; tool_call_id = none }

abbrev breaker_settings : CircuitBreakerSettings
breaker_settings = record {
  repetitions = 2;
  max_cycle_length = 2;
  consecutive_failures = 2;
  timeout_seconds = 1000;
}

abbrev breaker : ToolGuard
breaker = circuit_breaker {Value = ℕ} (λ t. none) (λ n. "") (λ a b c d. a) (λ t. 7)

abbrev allowed : List String
allowed = "clock" ∷ []

-- One call of the clock, and a reply.
helped : (run helpful breaker settings (question ∷ []) context allowed []).0 ≡ done draft
unfolding program
helped = refl

helped_calls :
    (run helpful breaker settings (question ∷ []) context allowed []).1.called ≡ clock_tool ∷ []
unfolding program
helped_calls = refl

-- A model that never stops calling meets the limit on calls.
endless :
    (run
      (environment (λ n r. ask) (λ n. completes))
      breaker
      settings
      (question ∷ [])
      context
      allowed
      []).0
    ≡ raised (tool_limit "本轮工具调用次数超过上限")
unfolding program
endless = refl

-- A cancellation that meets the first save leaves a record that runs for ever.
abbrev cut_short : Environment
cut_short =
    environment (λ n r. complete_with r.messages)
      (λ n. if n == 2 then stops true (cancelled true) else completes)

abbrev statuses : List (ToolExecution ℕ) → List ToolExecutionStatus
statuses [] = []
statuses (e ∷ es) = e.status ∷ statuses es

left_running :
    statuses (run cut_short breaker settings (question ∷ []) context allowed []).1.saved
    ≡ running ∷ []
unfolding program
left_running = refl

run-limits_example :
    (length (run helpful breaker settings (question ∷ []) context allowed []).1.requests ≤ 4)
    × (length (run helpful breaker settings (question ∷ []) context allowed []).1.called ≤ 2)
run-limits_example = run-limits helpful breaker settings allowed context (question ∷ []) []

run-IsGranted_example :
    All
      (IsGranted helpful breaker settings allowed context)
      (run helpful breaker settings (question ∷ []) context allowed []).1.called
run-IsGranted_example = run-IsGranted helpful breaker settings allowed context (question ∷ []) []

run-IsAnswered_example :
    All
      (λ (r : ModelRequest). IsAnswered (question ∷ []) r.messages)
      (run helpful breaker settings (question ∷ []) context allowed []).1.requests
run-IsAnswered_example = run-IsAnswered helpful breaker settings allowed (question ∷ []) context []

always : (n : ℕ) → completes ≡ completes
always n = refl

run-Accounts_example :
    Accounts
      (run helpful breaker settings (question ∷ []) context allowed []).1.saved
      (run helpful breaker settings (question ∷ []) context allowed []).1.called
run-Accounts_example =
    run-Accounts helpful breaker always settings allowed (question ∷ []) context []

-- A run under the circuit breaker.
abbrev watched : Outcome ReplyDraft × ToolRun ℕ CircuitBreakerGuard
watched =
    guarded_run {Value = ℕ} (λ t. none) (λ n. "") (λ a b c d. a) (λ t. 7) helpful settings allowed
      "guard" breaker_settings (question ∷ []) context

abbrev observation : ToolObservation
observation = record { name = "clock"; arguments = "{}"; result = "{}"; succeeded = true }

watched_replies : watched.0 ≡ done draft
unfolding program breaker_program
watched_replies = refl

watched_observed : watched.1.observed ≡ (observation ∷ []) ++ []
unfolding program breaker_program
watched_observed = refl

run-no_loops_example :
    (trailing_failures 0 (observation ∷ []) < 2)
    × (¬ EndsWithCycle breaker_settings
        (digests {Value = ℕ} (λ t. none) (λ n. "") (λ a b c d. a) (λ t. 7) (observation ∷ []))
        1)
run-no_loops_example =
    run-no_loops {Value = ℕ} (λ t. none) (λ n. "") (λ a b c d. a) (λ t. 7) helpful settings allowed
      "guard" breaker_settings (question ∷ []) context draft observation [] [] 1 (omega arith)
      (omega arith) (omega arith) watched_replies watched_observed
