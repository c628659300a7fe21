-- ===== src/ToolLoop/Effects.antt =====
-- What src/application/tool_loop.py keeps while it runs, and what it calls: the model, the store,
-- the hub, the clocks, JSON and the handlers, all parameters. Lists of what was done hold the latest
-- first, save the transcript and the observations.
use i_ja_for_u.Base.{ℕ, ◌+◌, String, Bool, Option, List, ◌∷◌, if◌then◌else◌}
use i_ja_for_u.Domain.{ReplyDraft}
use i_ja_for_u.CircuitBreaker.{ToolObservation, GuardViolation}
use i_ja_for_u.ToolRegistry.{
  ToolContext, ToolOutcome, ToolDefinition, RegisteredTool, ToolRegistry, Fault, Validation,
}

pub record ToolSettings : Type 0 where
  pub max_rounds : ℕ
  pub max_calls : ℕ

pub record ModelToolCall : Type 0 where
  pub id : String
  pub name : String
  pub arguments : String

pub data ModelRole : Type 0 where
  system user assistant tool : ModelRole

-- The loop makes no messages with images.
pub record ModelMessage : Type 0 where
  pub role : ModelRole
  pub content : Option String
  pub tool_calls : List ModelToolCall
  pub tool_call_id : Option String

-- Without the settings of the model, which are the same in each request.
pub record ModelRequest : Type 0 where
  pub messages : List ModelMessage
  pub tools : List ToolDefinition

pub record ModelResult : Type 0 where
  pub content : Option String
  pub tool_calls : List ModelToolCall

pub data ToolExecutionStatus : Type 0 where
  running completed failed : ToolExecutionStatus

pub record ToolExecution (Json : Type 0) : Type 0 where
  pub id : String
  pub session_id : String
  pub tool_call_id : String
  pub tool_name : String
  pub arguments : Json
  pub result : Option Json
  pub status : ToolExecutionStatus
  pub turn_id : Option String
  pub schedule_run_id : Option String
  pub error_code : Option String
  pub error_message : Option String
  pub started_at : ℕ
  pub completed_at : Option ℕ

-- `_public_execution_payload`, without the constant `schema_version`.
pub record ExecutionPayload : Type 0 where
  pub execution_id : String
  pub session_id : String
  pub turn_id : Option String
  pub schedule_run_id : Option String
  pub tool_call_id : String
  pub tool_name : String
  pub status : ToolExecutionStatus
  pub error_code : Option String
  pub started_at : ℕ
  pub completed_at : Option ℕ

pub record TrippedPayload : Type 0 where
  pub session_id : String
  pub turn_id : Option String
  pub schedule_run_id : Option String
  pub plugin_id : String
  pub reason : String

pub data LoopEvent : Type 0 where
  tool_started tool_failed tool_completed : ExecutionPayload → LoopEvent
  tool_loop_tripped : TrippedPayload → LoopEvent

-- What a run may raise. A cancellation comes from the deadline of the run or from outside.
pub data LoopError : Type 0 where
  tool_limit : String → LoopError
  aborted : (plugin_id : String) → GuardViolation → LoopError
  invalid_model_response : String → LoopError
  cancelled : (by_deadline : Bool) → LoopError
  timeout_error : LoopError
  type_error : String → LoopError
  fault : Fault → LoopError

-- What `json.dumps` is given: the result that the model sees, and the one that guards see.
pub data Payload (Json : Type 0) : Type 0 where
  refusal : (error_code message : String) → Payload Json
  success : Json → Payload Json
  result_only : Option Json → Payload Json
  error_only : Option String → Payload Json
  truncated : (tool_call_id : String) → Payload Json

-- `json.loads` gives an object, raises a `ValueError` or gives another value (with the text), or
-- raises another exception.
pub data Loaded (Json : Type 0) : Type 0 where
  object : Json → Loaded Json
  unusable : String → Loaded Json
  breaks : Fault → Loaded Json

pub data HandlerResult (Json : Type 0) : Type 0 where
  returns : ToolOutcome Json → HandlerResult Json
  raises : Fault → HandlerResult Json
  interrupted : (by_deadline : Bool) → HandlerResult Json

pub data Completion : Type 0 where
  answers : ModelResult → Completion
  fails : LoopError → Completion

-- How an awaited call of the store or the hub ends.
pub data Fate : Type 0 where
  completes : Fate
  stops : (took_effect : Bool) → LoopError → Fate

-- A number says which call it is, or which reading of a clock. A handler returns the skills that are
-- loaded after it.
pub record Environment : Type 1 where
  pub Json : Type 0
  pub empty_object : Json
  pub loads : String → Loaded Json
  pub dumps : Payload Json → Option String
  pub registry : ToolRegistry
  pub model_validate : RegisteredTool → Json → Validation Json
  pub handler : ℕ → RegisteredTool → Json → ToolContext → HandlerResult Json × List String
  pub complete : ℕ → ModelRequest → Completion
  pub draft_from_model_text : String → (split_short_lines : Bool) → ReplyDraft
  pub fate : ℕ → Fate
  pub clock : ℕ → ℕ
  pub utc_now : ℕ → ℕ
  pub new_id : ℕ → String
  pub has_fired : ℕ → Bool

-- `ToolGuard.observe` allows to go on, reports a violation, returns something else, or raises.
pub data GuardAnswer : Type 0 where
  allows : GuardAnswer
  violates : GuardViolation → GuardAnswer
  mistyped : GuardAnswer
  crashes : Fault → GuardAnswer

-- What the loop asks of a guard (src/ports/tool_guard.py).
pub record ToolGuard : Type 1 where
  pub Guard : Type 0
  pub timeout_seconds : Guard → ℕ
  pub observe : Guard → ToolObservation → Guard × GuardAnswer

pub record ToolRun (Json Guard : Type 0) : Type 0 where
  pub context : ToolContext
  pub transcript : List ModelMessage
  pub call_count : ℕ
  pub requests : List ModelRequest
  pub saved : List (ToolExecution Json)
  pub events : List LoopEvent
  pub called : List RegisteredTool
  pub observed : List ToolObservation
  pub guards : List (String × Guard)
  pub ticks : ℕ

pub data Outcome {ℓ} (A : Type ℓ) : Type ℓ where
  done : A → Outcome A
  raised : LoopError → Outcome A

-- An action of a run with state `R`.
abbrev pub Action : Type 0 → Type 0 → Type 0
Action R A = R → Outcome A × R

module _ {R A : Type 0} where
  abbrev pub pure : A → Action R A
  pure a s = (done a, s)

  abbrev pub raise : LoopError → Action R A
  raise e s = (raised e, s)

module _ {R A B : Type 0} where
  abbrev pub continue : Outcome A × R → (A → Action R B) → Outcome B × R
  continue (done a, s) f = f a s
  continue (raised e, s) f = (raised e, s)

  infixl 10 ◌>>=◌ ◌>>◌
  unfoldable pub ◌>>=◌ : Action R A → (A → Action R B) → Action R B
  ◌>>=◌ m f s = continue (m s) f

  abbrev pub ◌>>◌ : Action R A → Action R B → Action R B
  m >> n = m >>= λ _. n

module _ {R : Type 0} where
  unfoldable pub query : {A : Type 0} → (R → A) → Action R A
  query f s = (done (f s), s)

  unfoldable pub modify : (R → R) → Action R (Unit {0})
  modify f s = (done tt, f s)

module _ (env : Environment) (g : ToolGuard) where
  abbrev pub Run : Type 0
  Run = ToolRun env.Json g.Guard

  -- The number of the next call or reading.
  unfoldable pub tick : Action Run ℕ
  tick s = (done s.ticks, record s { ticks = s.ticks + 1 })

  abbrev pub settle : Fate → (Run → Run) → Action Run (Unit {0})
  settle completes f s = (done tt, f s)
  settle (stops took_effect e) f s = (raised e, if took_effect then f s else s)

  -- An awaited call of the store or the hub.
  unfoldable pub effect : (Run → Run) → Action Run (Unit {0})
  unfolding ◌>>=◌ tick
  effect f = tick >>= λ n. settle (env.fate n) f

  unfoldable pub save_tool_execution : ToolExecution env.Json → Action Run (Unit {0})
  unfolding effect
  save_tool_execution e = effect (λ s. record s { saved = e ∷ s.saved })

  unfoldable pub publish : LoopEvent → Action Run (Unit {0})
  unfolding effect
  publish e = effect (λ s. record s { events = e ∷ s.events })
