-- ===== src/Lib.antt =====
-- iJA for u: a chat agent that answers in private and group chats over several channels. This
-- library models the parts of it that decide what is sent, what observers see and when a tool loop
-- is stopped, and proves what they promise.
--
-- The program. A channel hands messages to the conversation service, those of a private chat by way
-- of the `DelayedReplyPlugin`, which joins what a user sends in pieces. The service plans an answer
-- with language models and tools. Each answer becomes outbound messages, and `OutboundCoordinator` is
-- the only part that sends them: it saves the state of a delivery before and after the send, commits a
-- sent message to the history, and publishes events on the `EventHub`. The control plane follows
-- the hub by queues and cursors. A `CircuitBreakerGuard` watches the calls of one tool loop.
--
-- The files.
-- - Domain: src/domain/models.py and src/domain/errors.py, the shared data. A point in time is a
--   number of microseconds.
-- - Outbound: src/application/outbound.py. A method is an action: a sequence of transactions,
--   events and sends (Outbound/Effects), in a process that may stop before each of them. Below it,
--   Outbound/Store, Outbound/Batches and Outbound/Commit are the transactions of
--   src/adapters/persistence/repositories/outbound.py, and `record_expression_usage` of assets.py
--   beside it. A table is a list of rows, and a transaction that raises changes nothing.
--   Outbound/Hoare has the rules for actions, Outbound/Moves the moves of a delivery, and
--   Outbound/AtMostOnce and Outbound/Delivery the theorems. The channel and the persona names are
--   parameters; of the channel the theorems use that a receipt that it returns is `sent`, `failed`,
--   `dropped` or `unknown`.
-- - EventHub: src/application/events.py. EventHub/Cursor has the cursors, EventHub/Steps the hub
--   and its operations. What `call_soon_threadsafe` leaves on another event loop is a list of
--   callbacks, and running one is a step of its own, so that every order of threads and loops is a
--   list of operations.
-- - CircuitBreaker: plugins/circuit_breaker/runtime.py and src/ports/tool_guard.py. JSON and the
--   hash are parameters, so that the theorems speak of digests. Texts with a lone surrogate are left
--   out; `encode` raises on them.
-- - DelayedReply: plugins/delayed_reply/runtime.py, with the envelopes of plugins/_host/contracts.py.
--   A timer is a task with a number. What the event loop runs between two waits is one step, so
--   that every order of messages, timers and calls of the core is a list of steps, and a call of
--   the core may raise. The log lines are left out.
-- - PromptBudget: src/prompting/budget.py. A text is the list of its code points; a loop that is still
--   running is `none`, or `runs_on` in PromptBudget/Required, which has the histories with required
--   messages. The tokens that can be shared out are the fuel of the loop that shares them, and each
--   round takes one or more.
-- - GroupParticipation: src/domain/group_participation.py. Floating-point numbers are a parameter, of
--   which the theorems use that a length of time is not negative, and that a weighted sum of numbers
--   that are not negative is not.
-- - ToolRegistry: src/tools/registry.py, the tools and what is checked before one runs. What pydantic
--   makes of arguments, and the handlers, are parameters.
-- - ToolLoop: src/application/tool_loop.py. A run is an action on its state (ToolLoop/Effects):
--   ToolLoop/Executions is one call, ToolLoop/Reports what guards and the model are told of it, and
--   ToolLoop/Rounds the rounds under the guards of one run. The model, the store, the hub, the clocks,
--   JSON and the handlers are the fields of an environment, which may answer, raise or be cancelled
--   at each call. A guard is an interface, which ToolLoop/Guarded fills by the circuit breaker.
--   ToolLoop/Hoare has the rules for actions, ToolLoop/Kept what the parts of a call leave as it is,
--   and ToolLoop/Stages the argument over the rounds that the theorems share.
-- - Schedules: the tables and transactions of src/adapters/persistence/repositories/schedule.py,
--   with Schedules/Recurrence, Schedules/Service and Schedules/Scheduler for the files of
--   src/scheduling. The rules of dateutil and the times of a time zone are parameters. A call of
--   the service is one step; the theorems on revisions and runs hold for every order of the
--   transactions, each with whatever its caller had read; the deletion of a session
--   (repositories/lifecycle.py) is not among them.
-- - ControlPlaneSecurity: src/api/security.py, every method. A text is the list of its code points;
--   `urlsplit` and `str.lower` are parameters, and a call that raises is `value_error` or `type_error`.
-- - Base: lists, windows and tests on the native numbers.
--
-- Bounds. The digits of a number are computed with its successor as fuel, which is enough, since
-- each digit divides it by ten. A process has a number of effects left; `restarts` gives it a new
-- one, and the theorems hold for every number, save that a delivery that is to end has the eight
-- effects that it takes. The loop that clips a text has its first `half` as fuel, and since `half`
-- shrinks in each round, this is enough from a budget of seven tokens on. A stored revision or count
-- is not bounded, as in the source.
--
-- Not modelled: calls of the coordinator that overlap, the validators of settings and messages other
-- than those of the circuit breaker, the strategies, the loop of the scheduler, the assembly of prompts,
-- memory, the handlers of tools, the plugin host, the channels, language model providers, HTTP routes,
-- migrations and the front end.
pub mod Base
pub mod Domain
pub mod CircuitBreaker
pub mod EventHub
pub mod Outbound
pub mod DelayedReply
pub mod PromptBudget
pub mod GroupParticipation
pub mod ControlPlaneSecurity
pub mod ToolRegistry
pub mod ToolLoop
pub mod Schedules
