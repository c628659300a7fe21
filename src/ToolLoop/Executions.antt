-- ===== src/ToolLoop/Executions.antt =====
-- src/application/tool_loop.py: the execution of one call, with its audit record and its events.
use i_ja_for_u.Base.{ℕ, zero, suc, String, Option, none, some, List, ◌∷◌, leb, if◌then◌else◌}
use i_ja_for_u.Domain.{ReplyDraft}
use i_ja_for_u.CircuitBreaker.{GuardViolation}
use i_ja_for_u.ToolRegistry.{
  ToolContext, ToolOutcome, RegisteredTool, Checked, passed, refused, resolve,
}
use i_ja_for_u.ToolLoop.Effects.{
  ModelToolCall, running, completed, failed, ToolExecution, ExecutionPayload, TrippedPayload,
  tool_started, tool_failed, tool_completed, tool_loop_tripped, aborted, cancelled, fault, Payload,
  refusal, success, Loaded, object, unusable, breaks, HandlerResult, returns, raises, interrupted,
  Environment, ToolGuard, Action, pure, raise, ◌>>=◌, ◌>>◌, query, modify, Run, tick,
  save_tool_execution, publish,
}

unfoldable pub public_execution_payload : {Json : Type 0} → ToolExecution Json → ExecutionPayload
public_execution_payload e = record {
  execution_id = e.id;
  session_id = e.session_id;
  turn_id = e.turn_id;
  schedule_run_id = e.schedule_run_id;
  tool_call_id = e.tool_call_id;
  tool_name = e.tool_name;
  status = e.status;
  error_code = e.error_code;
  started_at = e.started_at;
  completed_at = e.completed_at;
}

-- `text[:n]`
unfoldable pub cut : ℕ → String → String
cut zero s = ""
cut (suc n) String.[] = ""
cut (suc n) (String.◌∷◌ c s) = String.◌∷◌ c (cut n s)

-- The owner and the end of the time of a run.
abbrev pub Budget : Type 0
Budget = Option (String × ℕ)

abbrev pub task_timeout : GuardViolation
task_timeout = record { reason = "task_timeout"; message = "任务执行时间达到上限，已停止本次任务" }

unfoldable pub tripped_payload : ToolContext → String → GuardViolation → TrippedPayload
tripped_payload c plugin_id v = record {
  session_id = c.session_id;
  turn_id = c.turn_id;
  schedule_run_id = c.schedule_run_id;
  plugin_id = plugin_id;
  reason = v.reason;
}

-- What became of one call: the audit record, what the model is told, and a reply that ends the loop.
pub record Ran (Json : Type 0) : Type 0 where
  pub execution : ToolExecution Json
  pub tool_result : Payload Json
  pub reply_draft : Option ReplyDraft

module _ (env : Environment) (g : ToolGuard) where
  unfoldable pub abort : {A : Type 0} → String → GuardViolation → Action (Run env g) A
  abort plugin_id v = do
    context ← query (λ s. s.context)
    publish env g (tool_loop_tripped (tripped_payload context plugin_id v))
    raise (aborted plugin_id v)

  unfoldable pub check_budget : Budget → Action (Run env g) (Unit {0})
  check_budget none = pure tt
  check_budget (some (owner, expires_at)) = do
    n ← tick env g
    if leb expires_at (env.clock n) then abort owner task_timeout else pure tt

  -- `ToolExecution(...)` of one call.
  unfoldable pub new_execution : ModelToolCall → Action (Run env g) (ToolExecution env.Json)
  new_execution call = do
    n ← tick env g
    context ← query (λ s. s.context)
    pure (record {
      id = env.new_id n;
      session_id = context.session_id;
      tool_call_id = call.id;
      tool_name = call.name;
      arguments = env.empty_object;
      result = none;
      status = running;
      turn_id = context.turn_id;
      schedule_run_id = context.schedule_run_id;
      error_code = none;
      error_message = none;
      started_at = env.utc_now n;
      completed_at = none;
    })

  -- A failed execution is saved and published.
  unfoldable pub fail_execution :
      ToolExecution env.Json
      → (error_code error_message : String) → Action (Run env g) (ToolExecution env.Json)
  fail_execution e error_code error_message = do
    n ← tick env g
    let e' : ToolExecution env.Json = record e {
      status = failed;
      error_code = some error_code;
      error_message = some error_message;
      completed_at = some (env.utc_now n);
    }
    save_tool_execution env g e'
    publish env g (tool_failed (public_execution_payload e'))
    pure e'

  unfoldable pub refuse_arguments :
      ToolExecution env.Json → String → Action (Run env g) (Ran env.Json)
  refuse_arguments e text = do
    e' ← fail_execution e "invalid_tool_arguments" (cut 500 text)
    pure (record {
      execution = e';
      tool_result = refusal "invalid_tool_arguments" "工具参数不是合法 JSON object";
      reply_draft = none;
    })

  -- The call of the handler. It sees the context, and may load skills.
  unfoldable pub call_handler :
      RegisteredTool → env.Json → Action (Run env g) (HandlerResult env.Json)
  call_handler t arguments = do
    n ← tick env g
    context ← query (λ s. s.context)
    let answer : HandlerResult env.Json × List String = env.handler n t arguments context
    modify (λ s. record s {
      called = t ∷ s.called;
      context = record (s.context) { loaded_skills = answer.1 };
    })
    pure answer.0

  abbrev pub execute_checked :
      Checked (RegisteredTool × env.Json) → Action (Run env g) (HandlerResult env.Json)
  execute_checked (refused e) = pure (raises e)
  execute_checked (passed (t, arguments)) = call_handler t arguments

  -- `registry.execute`
  unfoldable pub execute : String → env.Json → Action (Run env g) (HandlerResult env.Json)
  execute name arguments = do
    context ← query (λ s. s.context)
    execute_checked (resolve env.model_validate env.registry name arguments context)

  abbrev pub code_of : Option String → String
  code_of none = "tool_execution_failed"
  code_of (some code) = code

  unfoldable pub complete_execution :
      ToolExecution env.Json → ToolOutcome env.Json → Budget → Action (Run env g) (Ran env.Json)
  complete_execution e outcome budget = do
    n ← tick env g
    let e' : ToolExecution env.Json = record e {
      status = completed;
      result = some outcome.value;
      completed_at = some (env.utc_now n);
    }
    save_tool_execution env g e'
    publish env g (tool_completed (public_execution_payload e'))
    check_budget budget
    pure (record {
      execution = e';
      tool_result = success outcome.value;
      reply_draft = outcome.reply_draft;
    })

  -- The three ways in which `registry.execute` ends.
  unfoldable pub settle_execution :
      ToolExecution env.Json → Budget → HandlerResult env.Json → Action (Run env g) (Ran env.Json)
  settle_execution e budget (interrupted by_deadline) = do
    fail_execution e "tool_execution_cancelled" "工具执行被取消，外部副作用是否完成需核实"
    raise (cancelled by_deadline)
  settle_execution e budget (raises err) = do
    e' ← fail_execution e (code_of err.code) (cut 500 err.text)
    pure (record {
      execution = e';
      tool_result = refusal (code_of err.code) (cut 500 err.text);
      reply_draft = none;
    })
  settle_execution e budget (returns outcome) = complete_execution e outcome budget

  unfoldable pub start_execution :
      ToolExecution env.Json → String → env.Json → Budget → Action (Run env g) (Ran env.Json)
  start_execution e name arguments budget = do
    save_tool_execution env g e
    publish env g (tool_started (public_execution_payload e))
    answer ← execute name arguments
    settle_execution e budget answer

  unfoldable pub perform_call :
      ToolExecution env.Json
      → ModelToolCall
      → Budget
      → Loaded env.Json
      → Action (Run env g) (Ran env.Json)
  perform_call e call budget (object arguments) =
      start_execution (record e { arguments = arguments }) call.name arguments budget
  perform_call e call budget (unusable text) = refuse_arguments e text
  perform_call e call budget (breaks err) = raise (fault err)
