-- ===== src/ToolLoop/Records.antt =====
-- The records that one call of src/application/tool_loop.py leaves, where the store and the hub
-- never fail.
use i_ja_for_u.Base.{
  ℕ, ◌+◌, ◌≤◌, String, List, [], ◌∷◌, ◌≡◌, ◌⊎◌, inl, inr, refl, ap, length, arith,
}
use i_ja_for_u.ToolRegistry.{ToolOutcome, RegisteredTool, Checked, passed, refused}
use i_ja_for_u.ToolLoop.Effects.{
  ModelToolCall, running, completed, failed, ToolExecution, HandlerResult, returns, raises,
  interrupted, Loaded, object, unusable, breaks, completes, Environment, ToolGuard, Run,
  save_tool_execution, publish,
}
use i_ja_for_u.ToolLoop.Executions.{
  Budget, fail_execution, refuse_arguments, call_handler, execute_checked, execute,
  complete_execution, settle_execution, start_execution, perform_call,
}
use i_ja_for_u.ToolLoop.Hoare.{
  Leads, Leads-bind, Leads-pure, Leads-raise, Leads-query, Leads-modify, Leads-tick,
  Leads-effect_done,
}
use i_ja_for_u.ToolLoop.Kept.{IsQuiet, check_budget-Keeps, publish-Keeps}

-- An audit log, the latest record first, with `n` calls that ran: each was saved as running, and then
-- once more as completed or failed. The other calls were saved once, as failed.
pub data IsAudited {Json : Type 0} : ℕ → List (ToolExecution Json) → Type 0 where
  empty : {n : ℕ} {l : List (ToolExecution Json)} → n ≡ 0 → l ≡ [] → IsAudited n l
  turned_away :
      {n : ℕ} {l before : List (ToolExecution Json)} (e : ToolExecution Json)
      → IsAudited n before
      → e.status ≡ failed
      → l ≡ e ∷ before
      → IsAudited n l
  ran :
      {k n : ℕ} {l before : List (ToolExecution Json)} (e e' : ToolExecution Json)
      → IsAudited k before
      → e.status ≡ running
      → (e'.status ≡ completed) ⊎ (e'.status ≡ failed)
      → e'.id ≡ e.id
      → e'.tool_call_id ≡ e.tool_call_id
      → e'.arguments ≡ e.arguments
      → n ≡ k + 1
      → l ≡ e' ∷ e ∷ before
      → IsAudited n l

-- The handlers that were called all have their records.
pub record Accounts {Json : Type 0} (saved : List (ToolExecution Json))
    (called : List RegisteredTool) : Type 0 where
  pub runs : ℕ
  pub audited : IsAudited runs saved
  pub enough : length called ≤ runs

-- The record of a call that runs is saved, and up to `k` of its handlers were called.
record Begun {Json : Type 0} (k : ℕ) (e : ToolExecution Json) (saved : List (ToolExecution Json))
    (called : List RegisteredTool) : Type 0 where
  runs : ℕ
  before : List (ToolExecution Json)
  audited : IsAudited runs before
  is_running : e.status ≡ running
  latest : saved ≡ e ∷ before
  enough : length called ≤ runs + k

module _ (env : Environment) (g : ToolGuard) where
  abbrev Fine : Run env g → Type 0
  Fine s = Accounts s.saved s.called

  abbrev Going : ℕ → ToolExecution env.Json → Run env g → Type 0
  Going k e s = Begun k e s.saved s.called

  pub Fine-quiet : IsQuiet env g Fine
  Fine-quiet = record { ticks = λ s n p. p; events = λ s l p. p }

  Going-quiet : (k : ℕ) (e : ToolExecution env.Json) → IsQuiet env g (Going k e)
  Going-quiet k e = record { ticks = λ s n p. p; events = λ s l p. p }

  Begun-ends :
      (e e' : ToolExecution env.Json) (saved : List (ToolExecution env.Json))
      (called : List RegisteredTool)
      → (e'.status ≡ completed) ⊎ (e'.status ≡ failed)
      → e'.id ≡ e.id
      → e'.tool_call_id ≡ e.tool_call_id
      → e'.arguments ≡ e.arguments
      → Begun 1 e saved called
      → Accounts (e' ∷ saved) called
  Begun-ends e e' saved called ended id call arguments b = record {
    runs = b.runs + 1;
    audited =
        ran e e' b.audited b.is_running ended id call arguments refl (ap (λ l. e' ∷ l) b.latest);
    enough = b.enough;
  }

  -- What is assumed of the store and the hub.
  module _ (up : (n : ℕ) → env.fate n ≡ completes) where
    -- A record that ends the call that runs.
    fail_execution-Leads :
        (e : ToolExecution env.Json) (code message : String)
        → Leads (Going 1 e) (fail_execution env g e code message) (λ _. Fine) Fine
    unfolding fail_execution save_tool_execution
    fail_execution-Leads e code message =
        Leads-bind (λ _. Going 1 e) _ _ (Leads-tick env g (λ s n p. p))
          (λ n.
            Leads-bind (λ _. Fine) _ _
              (Leads-effect_done env g _ up
                (λ s k p. Begun-ends e _ s.saved s.called (inr refl) refl refl refl p))
              (λ _.
                Leads-bind (λ _. Fine) _ _ (publish-Keeps env g Fine-quiet _)
                  (λ _. Leads-pure _ (λ s p. p))))

    complete_execution-Leads :
        (e : ToolExecution env.Json) (outcome : ToolOutcome env.Json) (budget : Budget)
        → Leads (Going 1 e) (complete_execution env g e outcome budget) (λ _. Fine) Fine
    unfolding complete_execution save_tool_execution
    complete_execution-Leads e outcome budget =
        Leads-bind (λ _. Going 1 e) _ _ (Leads-tick env g (λ s n p. p))
          (λ n.
            Leads-bind (λ _. Fine) _ _
              (Leads-effect_done env g _ up
                (λ s k p. Begun-ends e _ s.saved s.called (inl refl) refl refl refl p))
              (λ _.
                Leads-bind (λ _. Fine) _ _ (publish-Keeps env g Fine-quiet _)
                  (λ _.
                    Leads-bind (λ _. Fine) _ _ (check_budget-Keeps env g Fine-quiet budget)
                      (λ _. Leads-pure _ (λ s p. p)))))

    settle_execution-Leads :
        (e : ToolExecution env.Json) (budget : Budget) (r : HandlerResult env.Json)
        → Leads (Going 1 e) (settle_execution env g e budget r) (λ _. Fine) Fine
    unfolding settle_execution
    settle_execution-Leads e budget (interrupted by_deadline) =
        Leads-bind (λ _. Fine) _ _ (fail_execution-Leads e _ _) (λ _. Leads-raise _ (λ s p. p))
    settle_execution-Leads e budget (raises err) =
        Leads-bind (λ _. Fine) _ _ (fail_execution-Leads e _ _) (λ _. Leads-pure _ (λ s p. p))
    settle_execution-Leads e budget (returns outcome) = complete_execution-Leads e outcome budget

    call_handler-Leads :
        (e : ToolExecution env.Json) (t : RegisteredTool) (arguments : env.Json)
        → Leads (Going 0 e) (call_handler env g t arguments) (λ _. Going 1 e) Fine
    unfolding call_handler
    call_handler-Leads e t arguments =
        Leads-bind (λ _. Going 0 e) _ _ (Leads-tick env g (λ s n p. p))
          (λ n.
            Leads-bind (λ _. Going 0 e) _ _ (Leads-query _ (λ s p. p))
              (λ c.
                Leads-bind (λ _. Going 1 e) _ _ (Leads-modify _ (λ s p. called_one s p))
                  (λ _. Leads-pure _ (λ s p. p))))
      where
        called_one : (s : Run env g) → Going 0 e s → Begun 1 e s.saved (t ∷ s.called)
        called_one s b = record {
          runs = b.runs;
          before = b.before;
          audited = b.audited;
          is_running = b.is_running;
          latest = b.latest;
          enough = omega (arith, b.enough);
        }

    checked-Leads :
        (e : ToolExecution env.Json) (r : Checked (RegisteredTool × env.Json))
        → Leads (Going 0 e) (execute_checked env g r) (λ _. Going 1 e) Fine
    checked-Leads e (passed (t, arguments)) = call_handler-Leads e t arguments
    checked-Leads e (refused err) = Leads-pure _ (λ s p. not_called s p)
      where
        not_called : (s : Run env g) → Going 0 e s → Going 1 e s
        not_called s b = record {
          runs = b.runs;
          before = b.before;
          audited = b.audited;
          is_running = b.is_running;
          latest = b.latest;
          enough = omega (arith, b.enough);
        }

    execute-Leads :
        (e : ToolExecution env.Json) (name : String) (arguments : env.Json)
        → Leads (Going 0 e) (execute env g name arguments) (λ _. Going 1 e) Fine
    unfolding execute
    execute-Leads e name arguments =
        Leads-bind (λ _. Going 0 e) _ _ (Leads-query _ (λ s p. p)) (λ c. checked-Leads e _)

    begin :
        (e : ToolExecution env.Json) (s : Run env g)
        → e.status ≡ running
        → Fine s
        → Begun 0 e (e ∷ s.saved) s.called
    begin e s r a = record {
      runs = a.runs;
      before = s.saved;
      audited = a.audited;
      is_running = r;
      latest = refl;
      enough = omega (arith, a.enough);
    }

    start_execution-Leads :
        (e : ToolExecution env.Json) (name : String) (arguments : env.Json) (budget : Budget)
        → e.status ≡ running
        → Leads Fine (start_execution env g e name arguments budget) (λ _. Fine) Fine
    unfolding start_execution save_tool_execution publish
    start_execution-Leads e name arguments budget r =
        Leads-bind (λ _. Going 0 e) _ _ (Leads-effect_done env g _ up (λ s n p. begin e s r p))
          (λ _.
            Leads-bind (λ _. Going 0 e) _ _ (Leads-effect_done env g _ up (λ s n p. p))
              (λ _.
                Leads-bind (λ _. Going 1 e) _ _ (execute-Leads e name arguments)
                  (λ answer. settle_execution-Leads e budget answer)))

    refuse_arguments-Leads :
        (e : ToolExecution env.Json) (text : String)
        → Leads Fine (refuse_arguments env g e text) (λ _. Fine) Fine
    unfolding refuse_arguments fail_execution save_tool_execution
    refuse_arguments-Leads e text =
        Leads-bind (λ _. Fine) _ _
          (Leads-bind (λ _. Fine) _ _ (Leads-tick env g (λ s n p. p))
            (λ n.
              Leads-bind (λ _. Fine) _ _
                (Leads-effect_done env g _ up (λ s k p. turn_away s _ refl p))
                (λ _.
                  Leads-bind (λ _. Fine) _ _ (publish-Keeps env g Fine-quiet _)
                    (λ _. Leads-pure _ (λ s p. p)))))
          (λ _. Leads-pure _ (λ s p. p))
      where
        turn_away :
            (s : Run env g) (e' : ToolExecution env.Json)
            → e'.status ≡ failed
            → Fine s
            → Accounts (e' ∷ s.saved) s.called
        turn_away s e' f a = record {
          runs = a.runs;
          audited = turned_away e' a.audited f refl;
          enough = a.enough;
        }

    pub perform_call-Leads :
        (e : ToolExecution env.Json) (call : ModelToolCall) (budget : Budget) (l : Loaded env.Json)
        → e.status ≡ running
        → Leads Fine (perform_call env g e call budget l) (λ _. Fine) Fine
    unfolding perform_call
    perform_call-Leads e call budget (object arguments) r =
        start_execution-Leads (record e { arguments = arguments }) call.name arguments budget r
    perform_call-Leads e call budget (unusable text) r = refuse_arguments-Leads e text
    perform_call-Leads e call budget (breaks err) r = Leads-raise _ (λ s p. p)
