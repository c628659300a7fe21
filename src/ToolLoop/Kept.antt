-- ===== src/ToolLoop/Kept.antt =====
-- What the parts of a call in src/application/tool_loop.py leave as it is: a predicate that does not
-- depend on what a part writes.
use Prim.Native.String.{count}
use i_ja_for_u.Base.{ℕ, String, Option, none, some, List, leb, ltb}
use i_ja_for_u.Domain.{ReplyDraft}
use i_ja_for_u.CircuitBreaker.{ToolObservation, GuardViolation}
use i_ja_for_u.ToolRegistry.{ToolContext, ToolOutcome, RegisteredTool, Checked, passed, refused}
use i_ja_for_u.ToolLoop.Effects.{
  ModelToolCall, ModelMessage, ToolSettings, Loaded, object, unusable, breaks, ToolExecution,
  LoopEvent, truncated, Payload, HandlerResult, returns, raises, interrupted, Environment,
  ToolGuard, allows, violates, mistyped, crashes, Action, pure, raise, query, Run, tick,
  save_tool_execution, publish,
}
use i_ja_for_u.ToolLoop.Executions.{
  Budget, task_timeout, Ran, abort, check_budget, new_execution, fail_execution, refuse_arguments,
  complete_execution, settle_execution, call_handler, execute_checked, execute, start_execution,
  perform_call,
}
use i_ja_for_u.ToolLoop.Reports.{
  Judged, fine, stopped_by, act_on, text_or_raise, dumps, show_guards, observe, append_result,
  report, conclude, has_guards,
}
use i_ja_for_u.ToolLoop.Rounds.{run_call}
use i_ja_for_u.ToolLoop.Hoare.{
  Leads-weaken, Leads, Leads-bind, Keeps, Keeps-bind, Leads-pure, Leads-raise, Leads-if,
  Leads-query, Leads-modify, Leads-tick, Leads-effect,
}

module _ (env : Environment) (g : ToolGuard) where
  -- `P` does not depend on the clock and the events.
  pub record IsQuiet (P : Run env g → Type 0) : Type 0 where
    pub ticks : (s : Run env g) (n : ℕ) → P s → P (record s { ticks = n })
    pub events : (s : Run env g) (l : List LoopEvent) → P s → P (record s { events = l })

module _ (env : Environment) (g : ToolGuard) {P : Run env g → Type 0} (q : IsQuiet env g P) where
  pub Keeps-tick : Keeps P (tick env g)
  Keeps-tick = Leads-tick env g (λ s n p. q.ticks s n p)

  pub Keeps-query : {A : Type 0} (f : Run env g → A) → Keeps P (query f)
  Keeps-query f = Leads-query f (λ s p. p)

  pub Keeps-pure : {A : Type 0} (a : A) → Keeps P (pure {R = Run env g} a)
  Keeps-pure a = Leads-pure a (λ s p. p)

  pub publish-Keeps : (e : LoopEvent) → Keeps P (publish env g e)
  unfolding publish
  publish-Keeps e =
      Leads-effect env g _ (λ s n p. q.events _ _ (q.ticks s n p))
        (λ s n p. q.events _ _ (q.ticks s n p)) (λ s n p. q.ticks s n p)

  -- An abort does not return.
  pub abort-Leads :
      {A : Type 0} {Q : A → Run env g → Type 0} (owner : String) (v : GuardViolation)
      → Leads P (abort env g {A = A} owner v) Q P
  unfolding abort
  abort-Leads owner v =
      Leads-bind (λ _. P) _ _ (Keeps-query _)
        (λ c. Leads-bind (λ _. P) _ _ (publish-Keeps _) (λ _. Leads-raise _ (λ s p. p)))

  pub check_budget-Keeps : (budget : Budget) → Keeps P (check_budget env g budget)
  unfolding check_budget
  check_budget-Keeps none = Keeps-pure tt
  check_budget-Keeps (some (owner, expires_at)) = Keeps-bind _ _ Keeps-tick (λ n.
      Leads-if (leb expires_at (env.clock n)) (abort env g owner task_timeout) (pure tt)
        (λ _. abort-Leads owner task_timeout) (λ _. Keeps-pure tt))

  pub new_execution-Keeps : (call : ModelToolCall) → Keeps P (new_execution env g call)
  unfolding new_execution
  new_execution-Keeps call =
      Keeps-bind _ _ Keeps-tick (λ n. Keeps-bind _ _ (Keeps-query _) (λ c. Keeps-pure _))

  pub act_on-Keeps : (j : Judged) → Keeps P (act_on env g j)
  unfolding act_on
  act_on-Keeps fine = Keeps-pure tt
  act_on-Keeps (stopped_by plugin_id allows) = Keeps-pure tt
  act_on-Keeps (stopped_by plugin_id (violates v)) = abort-Leads plugin_id v
  act_on-Keeps (stopped_by plugin_id mistyped) = Leads-raise _ (λ s p. p)
  act_on-Keeps (stopped_by plugin_id (crashes err)) = Leads-raise _ (λ s p. p)

module _ (env : Environment) (g : ToolGuard) {P : Run env g → Type 0} (q : IsQuiet env g P) where
  text_or_raise-Keeps : (o : Option String) → Keeps P (text_or_raise env g o)
  text_or_raise-Keeps none = Leads-raise _ (λ s p. p)
  text_or_raise-Keeps (some text) = Leads-pure _ (λ s p. p)

  pub dumps-Keeps : (payload : Payload env.Json) → Keeps P (dumps env g payload)
  unfolding dumps
  dumps-Keeps payload = text_or_raise-Keeps (env.dumps payload)

  -- `P` does not depend on what the model is told.
  pub append_result-Keeps :
      ((s : Run env g) (l : List ModelMessage) → P s → P (record s { transcript = l }))
      → (call : ModelToolCall) (payload : Payload env.Json)
      → Keeps P (append_result env g call payload)
  unfolding append_result
  append_result-Keeps t call payload = Keeps-bind _ _ (dumps-Keeps payload) (λ text.
      Keeps-bind _ _
        (Leads-if (ltb 32000 (count text)) (dumps env g (truncated call.id)) (pure text)
          (λ _. dumps-Keeps _) (λ _. Leads-pure _ (λ s p. p)))
        (λ encoded. Leads-modify _ (λ s p. t s _ p)))

  -- `P` does not depend on the guards and on what they saw.
  pub show_guards-Keeps :
      ((s : Run env g) (l : List (String × g.Guard)) (o : List ToolObservation)
        → P s
        → P (record s { guards = l; observed = o }))
      → (o : ToolObservation) → Keeps P (show_guards env g o)
  unfolding show_guards
  show_guards-Keeps h o =
      Keeps-bind _ _ (Keeps-query env g q _)
        (λ guards. Keeps-bind _ _ (Leads-modify _ (λ s p. h s _ _ p)) (λ _. act_on-Keeps env g q _))

  pub observe-Keeps :
      ((o : ToolObservation) → Keeps P (show_guards env g o))
      → (call : ModelToolCall) (e : ToolExecution env.Json) → Keeps P (observe env g call e)
  unfolding observe
  observe-Keeps h call e = Keeps-bind _ _ (Keeps-query env g q _) (λ guards.
      Leads-if (has_guards env g guards) _ (pure tt)
        (λ _. Keeps-bind _ _ (dumps-Keeps _) (λ text. h _)) (λ _. Leads-pure tt (λ s p. p)))

  pub report-Keeps :
      ((o : ToolObservation) → Keeps P (show_guards env g o))
      → ((call : ModelToolCall) (payload : Payload env.Json)
          → Keeps P (append_result env g call payload))
      → (call : ModelToolCall) (budget : Budget) (ran : Ran env.Json)
      → Keeps P (report env g call budget ran)
  unfolding report
  report-Keeps h t call budget ran =
      Keeps-bind _ _ (check_budget-Keeps env g q budget)
        (λ _. Keeps-bind _ _ (observe-Keeps h call _) (λ _. t call _))

  pub conclude-Keeps :
      ((o : ToolObservation) → Keeps P (show_guards env g o))
      → ((call : ModelToolCall) (payload : Payload env.Json)
          → Keeps P (append_result env g call payload))
      → (call : ModelToolCall) (budget : Budget) (ran : Ran env.Json) (reply : Option ReplyDraft)
      → Keeps P (conclude env g call budget ran reply)
  unfolding conclude
  conclude-Keeps h t call budget ran (some draft) = Leads-pure _ (λ s p. p)
  conclude-Keeps h t call budget ran none =
      Keeps-bind _ _ (report-Keeps h t call budget ran) (λ _. Leads-pure _ (λ s p. p))

module _ (env : Environment) (g : ToolGuard) {P : Run env g → Type 0} (q : IsQuiet env g P)
    (saves : (s : Run env g) (l : List (ToolExecution env.Json))
      → P s
      → P (record s { saved = l })) where
  -- `P` does not depend on the audit log.
  pub save_tool_execution-Keeps :
      (e : ToolExecution env.Json) → Keeps P (save_tool_execution env g e)
  unfolding save_tool_execution
  save_tool_execution-Keeps e =
      Leads-effect env g _ (λ s n p. saves _ _ (q.ticks s n p)) (λ s n p. saves _ _ (q.ticks s n p))
        (λ s n p. q.ticks s n p)

  pub fail_execution-Keeps :
      (e : ToolExecution env.Json) (code message : String)
      → Keeps P (fail_execution env g e code message)
  unfolding fail_execution
  fail_execution-Keeps e code message = Keeps-bind _ _ (Keeps-tick env g q) (λ n.
      Keeps-bind _ _ (save_tool_execution-Keeps _)
        (λ _. Keeps-bind _ _ (publish-Keeps env g q _) (λ _. Keeps-pure env g q _)))

  pub refuse_arguments-Keeps :
      (e : ToolExecution env.Json) (text : String) → Keeps P (refuse_arguments env g e text)
  unfolding refuse_arguments
  refuse_arguments-Keeps e text =
      Keeps-bind _ _ (fail_execution-Keeps e _ _) (λ _. Keeps-pure env g q _)

  complete_execution-Keeps :
      (e : ToolExecution env.Json) (outcome : ToolOutcome env.Json) (budget : Budget)
      → Keeps P (complete_execution env g e outcome budget)
  unfolding complete_execution
  complete_execution-Keeps e outcome budget = Keeps-bind _ _ (Keeps-tick env g q) (λ n.
      Keeps-bind _ _ (save_tool_execution-Keeps _) (λ _.
        Keeps-bind _ _ (publish-Keeps env g q _)
          (λ _. Keeps-bind _ _ (check_budget-Keeps env g q budget) (λ _. Keeps-pure env g q _))))

  pub settle_execution-Keeps :
      (e : ToolExecution env.Json) (budget : Budget) (r : HandlerResult env.Json)
      → Keeps P (settle_execution env g e budget r)
  unfolding settle_execution
  settle_execution-Keeps e budget (interrupted by_deadline) =
      Keeps-bind _ _ (fail_execution-Keeps e _ _) (λ _. Leads-raise _ (λ s p. p))
  settle_execution-Keeps e budget (raises err) =
      Keeps-bind _ _ (fail_execution-Keeps e _ _) (λ _. Keeps-pure env g q _)
  settle_execution-Keeps e budget (returns outcome) = complete_execution-Keeps e outcome budget

module _ (env : Environment) (g : ToolGuard) {P : Run env g → Type 0} (q : IsQuiet env g P)
    (saves : (s : Run env g) (l : List (ToolExecution env.Json)) → P s → P (record s { saved = l }))
    (handled : (s : Run env g) (l : List RegisteredTool) (c : ToolContext)
      → P s
      → P (record s { called = l; context = c })) where
  -- `P` does not depend on the handlers that were called, and on the context.
  call_handler-Keeps :
      (t : RegisteredTool) (arguments : env.Json) → Keeps P (call_handler env g t arguments)
  unfolding call_handler
  call_handler-Keeps t arguments = Keeps-bind _ _ (Keeps-tick env g q) (λ n.
      Keeps-bind _ _ (Keeps-query env g q _) (λ c.
        Keeps-bind _ _ (Leads-modify _ (λ s p. handled s _ _ p)) (λ _. Leads-pure _ (λ s p. p))))

  checked-Keeps : (r : Checked (RegisteredTool × env.Json)) → Keeps P (execute_checked env g r)
  checked-Keeps (refused e) = Leads-pure _ (λ s p. p)
  checked-Keeps (passed (t, arguments)) = call_handler-Keeps t arguments

  pub execute-Keeps :
      (name : String) (arguments : env.Json) → Keeps P (execute env g name arguments)
  unfolding execute
  execute-Keeps name arguments = Keeps-bind _ _ (Keeps-query env g q _) (λ c. checked-Keeps _)

  start_execution-Keeps :
      (e : ToolExecution env.Json) (name : String) (arguments : env.Json) (budget : Budget)
      → Keeps P (start_execution env g e name arguments budget)
  unfolding start_execution
  start_execution-Keeps e name arguments budget =
      Keeps-bind _ _ (save_tool_execution-Keeps env g q saves e) (λ _.
        Keeps-bind _ _ (publish-Keeps env g q _) (λ _.
          Keeps-bind _ _ (execute-Keeps name arguments)
            (λ answer. settle_execution-Keeps env g q saves e budget answer)))

  pub perform_call-Keeps :
      (e : ToolExecution env.Json) (call : ModelToolCall) (budget : Budget) (l : Loaded env.Json)
      → Keeps P (perform_call env g e call budget l)
  unfolding perform_call
  perform_call-Keeps e call budget (object arguments) =
      start_execution-Keeps _ call.name arguments budget
  perform_call-Keeps e call budget (unusable text) = refuse_arguments-Keeps env g q saves e text
  perform_call-Keeps e call budget (breaks err) = Leads-raise _ (λ s p. p)

  -- A call up to what guards and the model are told of it.
  module _ (counted : (s : Run env g) (n : ℕ) → P s → P (record s { call_count = n }))
      {S : Option ReplyDraft → Run env g → Type 0} {E : Run env g → Type 0}
      (fails : (s : Run env g) → P s → E s) where
    pub run_call-Leads :
        (settings : ToolSettings) (budget : Budget) (call : ModelToolCall)
        → ((ran : Ran env.Json) → Leads P (conclude env g call budget ran ran.reply_draft) S E)
        → Leads P (run_call env g settings budget call) S E
    unfolding run_call
    run_call-Leads settings budget call h =
        Leads-bind (λ _. P) _ _ (kept (check_budget-Keeps env g q budget))
          (λ _.
            Leads-bind (λ _. P) _ _ (Leads-modify _ (λ s p. counted s _ p))
              (λ _.
                Leads-bind (λ _. P) _ _ (Leads-query _ (λ s p. p))
                  (λ count.
                    Leads-if (ltb settings.max_calls count) (raise _) _ (λ _. Leads-raise _ fails)
                      (λ _.
                        Leads-bind (λ _. P) _ _ (kept (new_execution-Keeps env g q call))
                          (λ e.
                            Leads-bind (λ _. P) _ _ (kept (perform_call-Keeps e call budget _))
                              h)))))
      where
        kept : {A : Type 0} {m : Action (Run env g) A} → Keeps P m → Leads P m (λ _. P) E
        kept k = Leads-weaken _ (λ s p. p) (λ a s p. p) fails k
