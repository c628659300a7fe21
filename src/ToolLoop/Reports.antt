-- ===== src/ToolLoop/Reports.antt =====
-- src/application/tool_loop.py: what guards and the model are told of a call.
use Prim.Native.String.{◌++◌ as str_append, count}
use i_ja_for_u.Base.{
  String, Bool, true, false, Option, none, some, List, [], ◌∷◌, ◌++◌, ltb, if◌then◌else◌,
}
use i_ja_for_u.Domain.{ReplyDraft}
use i_ja_for_u.CircuitBreaker.{ToolObservation}
use i_ja_for_u.ToolLoop.Effects.{
  ModelToolCall, tool, running, completed, failed, ToolExecution, type_error, fault, Payload,
  result_only, error_only, truncated, Environment, GuardAnswer, allows, violates, mistyped, crashes,
  ToolGuard, Action, pure, raise, ◌>>=◌, ◌>>◌, query, modify, Run,
}
use i_ja_for_u.ToolLoop.Executions.{Budget, Ran, abort, check_budget}

-- What the guards say, up to the first that does not allow to go on.
pub data Judged : Type 0 where
  fine : Judged
  stopped_by : (plugin_id : String) → GuardAnswer → Judged

module _ (env : Environment) (g : ToolGuard) where
  -- What one guard answers, before the others are asked.
  abbrev pub judged_by :
      String
      → g.Guard
      → GuardAnswer
      → List (String × g.Guard)
      → List (String × g.Guard) × Judged
      → List (String × g.Guard) × Judged
  judged_by plugin_id guard allows others rest = ((plugin_id, guard) ∷ rest.0, rest.1)
  judged_by plugin_id guard (violates v) others rest =
      ((plugin_id, guard) ∷ others, stopped_by plugin_id (violates v))
  judged_by plugin_id guard mistyped others rest =
      ((plugin_id, guard) ∷ others, stopped_by plugin_id mistyped)
  judged_by plugin_id guard (crashes err) others rest =
      ((plugin_id, guard) ∷ others, stopped_by plugin_id (crashes err))

  unfoldable pub judge :
      List (String × g.Guard) → ToolObservation → List (String × g.Guard) × Judged
  judge [] o = ([], fine)
  judge ((plugin_id, guard) ∷ others) o =
      judged_by plugin_id (g.observe guard o).0 (g.observe guard o).1 others (judge others o)

  unfoldable pub act_on : Judged → Action (Run env g) (Unit {0})
  act_on fine = pure tt
  act_on (stopped_by plugin_id allows) = pure tt
  act_on (stopped_by plugin_id (violates v)) = abort env g plugin_id v
  act_on (stopped_by plugin_id mistyped) =
      raise (type_error (str_append "执行守卫必须返回 GuardViolation: " plugin_id))
  act_on (stopped_by plugin_id (crashes err)) = raise (fault err)

  abbrev pub text_or_raise : Option String → Action (Run env g) String
  text_or_raise none = raise (type_error "json")
  text_or_raise (some text) = pure text

  unfoldable pub dumps : Payload env.Json → Action (Run env g) String
  dumps payload = text_or_raise (env.dumps payload)

  -- What guards are shown of an execution.
  abbrev pub observed_payload : ToolExecution env.Json → Payload env.Json
  observed_payload e = elim e.status [
    | completed ↦ result_only e.result
    | failed ↦ error_only e.error_code
    | running ↦ error_only e.error_code
  ]

  abbrev pub has_succeeded : ToolExecution env.Json → Bool
  has_succeeded e = elim e.status [ completed ↦ true | failed ↦ false | running ↦ false ]

  unfoldable pub show_guards : ToolObservation → Action (Run env g) (Unit {0})
  show_guards o = do
    guards ← query (λ s. s.guards)
    let judged : List (String × g.Guard) × Judged = judge guards o
    modify (λ s. record s { guards = judged.0; observed = s.observed ++ o ∷ [] })
    act_on judged.1

  abbrev pub has_guards : List (String × g.Guard) → Bool
  has_guards [] = false
  has_guards (x ∷ xs) = true

  unfoldable pub observe : ModelToolCall → ToolExecution env.Json → Action (Run env g) (Unit {0})
  observe call e = do
    guards ← query (λ s. s.guards)
    if has_guards guards
        then (dumps (observed_payload e) >>= λ text. show_guards (record {
          name = call.name;
          arguments = call.arguments;
          result = text;
          succeeded = has_succeeded e;
        }))
        else pure tt

  -- A result of more than 32,000 characters is replaced by a note.
  unfoldable pub append_result : ModelToolCall → Payload env.Json → Action (Run env g) (Unit {0})
  append_result call payload = do
    text ← dumps payload
    encoded ← if ltb 32000 (count text) then dumps (truncated call.id) else pure text
    modify (λ s. record s {
      transcript =
          s.transcript
          ++ (record {
            role = tool;
            content = some encoded;
            tool_calls = [];
            tool_call_id = some call.id;
          })
            ∷ [];
    })

  -- The rest of a call, where it brought no reply.
  unfoldable pub report : ModelToolCall → Budget → Ran env.Json → Action (Run env g) (Unit {0})
  report call budget ran = do
    check_budget env g budget
    observe call ran.execution
    append_result call ran.tool_result

  unfoldable pub conclude :
      ModelToolCall
      → Budget
      → Ran env.Json
      → Option ReplyDraft
      → Action (Run env g) (Option ReplyDraft)
  conclude call budget ran (some draft) = pure (some draft)
  conclude call budget ran none = do report call budget ran; pure none
