-- ===== src/ToolLoop/Rounds.antt =====
-- src/application/tool_loop.py: the rounds of the loop, with their limits, under the guards of one run.
use Prim.Native.String.{◌++◌ as str_append}
use text.Mathlib.Text.{◌==◌ as str_eq}
use i_ja_for_u.Base.{
  ℕ, zero, suc, ◌+◌, String, Bool, true, false, not, ◌&&◌, ◌||◌, Option, none, some, List, [], ◌∷◌,
  ◌++◌, ltb, if◌then◌else◌,
}
use i_ja_for_u.Domain.{ReplyDraft}
use i_ja_for_u.ToolRegistry.{
  contains, sorted, join_names, is_empty, ToolContext, ToolDefinition, definitions,
  exposed_tool_names, is_terminal,
}
use i_ja_for_u.ToolLoop.Effects.{
  ToolSettings, ModelToolCall, assistant, ModelMessage, ModelRequest, ModelResult, LoopError,
  tool_limit, invalid_model_response, cancelled, timeout_error, Completion, answers, fails,
  Environment, ToolGuard, Outcome, done, raised, Action, pure, raise, ◌>>=◌, ◌>>◌, query, modify,
  Run, tick,
}
use i_ja_for_u.ToolLoop.Executions.{
  Budget, task_timeout, abort, check_budget, new_execution, perform_call,
}
use i_ja_for_u.ToolLoop.Reports.{conclude}

-- The calls whose tools are not exposed, and their names once.
unfoldable pub hidden_names : List String → List ModelToolCall → List String
hidden_names exposed [] = []
hidden_names exposed (c ∷ cs) =
    let rest = hidden_names exposed cs in
    if contains exposed c.name then rest else if contains rest c.name then rest else c.name ∷ rest

unfoldable pub has_terminal_call : (String → Bool) → List ModelToolCall → Bool
has_terminal_call terminal [] = false
has_terminal_call terminal (c ∷ cs) = terminal c.name || has_terminal_call terminal cs

abbrev pub is_single : List ModelToolCall → Bool
is_single (c ∷ []) = true
is_single _ = false

module _ (env : Environment) (g : ToolGuard) (settings : ToolSettings) where
  -- One round of the inner loop; a draft ends the run.
  unfoldable pub run_call : Budget → ModelToolCall → Action (Run env g) (Option ReplyDraft)
  run_call budget call = do
    check_budget env g budget
    modify (λ s. record s { call_count = s.call_count + 1 })
    call_count ← query (λ s. s.call_count)
    if ltb settings.max_calls call_count then raise (tool_limit "本轮工具调用次数超过上限") else do
      e ← new_execution env g call
      ran ← perform_call env g e call budget (env.loads call.arguments)
      conclude env g call budget ran ran.reply_draft

  unfoldable pub run_calls : Budget → List ModelToolCall → Action (Run env g) (Option ReplyDraft)
  run_calls budget [] = pure none
  run_calls budget (call ∷ calls) = do
    reply ← run_call budget call
    elim reply [ some draft ↦ pure (some draft) | none ↦ run_calls budget calls ]

  abbrev pub is_empty_text : String → Bool
  is_empty_text text = str_eq text ""

  -- A result without calls ends the loop with its text.
  unfoldable pub finish :
      (allowed_tools : List String) → Option String → Action (Run env g) ReplyDraft
  finish allowed_tools none = raise (invalid_model_response "工具循环结束时模型没有返回最终文本")
  finish allowed_tools (some content) =
      if is_empty_text content
      then raise (invalid_model_response "工具循环结束时模型没有返回最终文本")
      else pure (env.draft_from_model_text content (contains allowed_tools "send_messages"))

  unfoldable pub check_calls :
      (exposed : List String) → List ModelToolCall → Action (Run env g) (Unit {0})
  check_calls exposed calls =
      if not (is_empty (hidden_names exposed calls))
      then raise (
          invalid_model_response
            (str_append "模型调用了本轮未授权或未下发的工具: " (join_names (sorted (hidden_names exposed calls)))))
      else if has_terminal_call (is_terminal env.registry) calls && not (is_single calls)
      then raise (invalid_model_response "终态回复工具必须是本轮唯一的工具调用")
      else pure tt

  abbrev pub answer_of : Completion → Action (Run env g) ModelResult
  answer_of (answers result) = pure result
  answer_of (fails e) = raise e

  unfoldable pub complete : List ToolDefinition → Action (Run env g) ModelResult
  complete tools = do
    n ← tick env g
    messages ← query (λ s. s.transcript)
    let request : ModelRequest = record { messages = messages; tools = tools }
    modify (λ s. record s { requests = request ∷ s.requests })
    answer_of (env.complete n request)

  unfoldable pub append_calls : Option String → List ModelToolCall → Action (Run env g) (Unit {0})
  append_calls content calls = modify (λ s. record s {
    transcript =
        s.transcript
        ++ (record { role = assistant; content = content; tool_calls = calls; tool_call_id = none })
          ∷ [];
  })

  unfoldable pub follow :
      (allowed_tools exposed : List String)
      → Budget
      → Option String
      → List ModelToolCall
      → Action (Run env g) (Option ReplyDraft)
  follow allowed exposed budget content [] = do draft ← finish allowed content; pure (some draft)
  follow allowed exposed budget content (call ∷ calls) = do
    check_calls exposed (call ∷ calls)
    append_calls content (call ∷ calls)
    run_calls budget (call ∷ calls)

  -- One round of the outer loop.
  unfoldable pub run_round :
      (allowed_tools : List String) → Budget → Action (Run env g) (Option ReplyDraft)
  run_round allowed budget = do
    check_budget env g budget
    context ← query (λ s. s.context)
    let tools : List ToolDefinition =
        definitions env.registry (some allowed) context.authorization_scopes
          (some context.loaded_skills)
    result ← complete tools
    check_budget env g budget
    follow allowed (exposed_tool_names tools) budget result.content result.tool_calls

  unfoldable pub run_rounds :
      (rounds : ℕ) → (allowed_tools : List String) → Budget → Action (Run env g) ReplyDraft
  run_rounds zero allowed budget = raise (tool_limit "模型工具循环超过最大轮次")
  run_rounds (suc n) allowed budget = do
    reply ← run_round allowed budget
    elim reply [ some draft ↦ pure draft | none ↦ run_rounds n allowed budget ]

  -- `_run`
  unfoldable pub run_loop : (allowed_tools : List String) → Budget → Action (Run env g) ReplyDraft
  run_loop allowed budget = run_rounds settings.max_rounds allowed budget

  -- `min(guards, key=...)`: the first guard with the shortest time.
  unfoldable pub earliest : String × g.Guard → List (String × g.Guard) → String × g.Guard
  earliest first [] = first
  earliest first (x ∷ xs) =
      earliest (if ltb (g.timeout_seconds x.1) (g.timeout_seconds first.1) then x else first) xs

  -- What `run` makes of an exception: one from its deadline stops the task.
  unfoldable pub on_error : String → LoopError → Action (Run env g) ReplyDraft
  on_error owner (cancelled true) = abort env g owner task_timeout
  on_error owner timeout_error = do
    n ← tick env g
    if env.has_fired n then abort env g owner task_timeout else raise timeout_error
  on_error owner e = raise e

  abbrev pub catch : String → Outcome ReplyDraft × Run env g → Outcome ReplyDraft × Run env g
  catch owner (done draft, s) = (done draft, s)
  catch owner (raised e, s) = on_error owner e s

  unfoldable pub run_guarded :
      (allowed_tools : List String) → String × g.Guard → Action (Run env g) ReplyDraft
  run_guarded allowed (owner, guard) = do
    n ← tick env g
    (λ s. catch owner (run_loop allowed (some (owner, env.clock n + g.timeout_seconds guard)) s))

  abbrev pub run_with :
      (allowed_tools : List String) → List (String × g.Guard) → Action (Run env g) ReplyDraft
  run_with allowed [] = run_loop allowed none
  run_with allowed (first ∷ others) = run_guarded allowed (earliest first others)

  -- The state in which a run begins.
  abbrev pub start : List ModelMessage → ToolContext → List (String × g.Guard) → Run env g
  start messages context guards = record {
    context = context;
    transcript = messages;
    call_count = 0;
    requests = [];
    saved = [];
    events = [];
    called = [];
    observed = [];
    guards = guards;
    ticks = 0;
  }

  -- `run`, with the guards of its lease.
  unfoldable pub run :
      List ModelMessage
      → ToolContext
      → (allowed_tools : List String) → List (String × g.Guard)
      → Outcome ReplyDraft × Run env g
  run messages context allowed guards = run_with allowed guards (start messages context guards)
