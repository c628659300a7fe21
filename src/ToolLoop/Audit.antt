-- ===== src/ToolLoop/Audit.antt =====
-- The audit log that src/application/tool_loop.py leaves, where the store and the hub never fail.
use i_ja_for_u.Base.{ℕ, String, Option, none, some, List, ◌≡◌, refl, ltb, arith}
use i_ja_for_u.Domain.{ReplyDraft}
use i_ja_for_u.ToolRegistry.{ToolContext}
use i_ja_for_u.ToolLoop.Effects.{
  ToolSettings, ModelToolCall, ModelMessage, running, ToolExecution, completes, Environment,
  ToolGuard, raise, ◌>>=◌, Run,
}
use i_ja_for_u.ToolLoop.Executions.{Budget, new_execution, perform_call}
use i_ja_for_u.ToolLoop.Reports.{conclude}
use i_ja_for_u.ToolLoop.Rounds.{run_call, run}
use i_ja_for_u.ToolLoop.Hoare.{
  Ends-state, Leads, Leads-bind, Leads-pure, Leads-raise, Leads-if, Leads-given, Leads-query,
  Leads-modify, Leads-weaken, Leads-tick,
}
use i_ja_for_u.ToolLoop.Kept.{
  check_budget-Keeps, conclude-Keeps, show_guards-Keeps, append_result-Keeps,
}
use i_ja_for_u.ToolLoop.Stages.{Stages, After, run-Ends}
use i_ja_for_u.ToolLoop.Records.{empty, Accounts, Fine-quiet, perform_call-Leads}

module _ (env : Environment) (g : ToolGuard) where
  abbrev Fine : Run env g → Type 0
  Fine s = Accounts s.saved s.called

  -- What is assumed of the store and the hub.
  module _ (up : (n : ℕ) → env.fate n ≡ completes) where
    new_execution-Leads :
        (call : ModelToolCall)
        → Leads Fine (new_execution env g call) (λ e s. Fine s × (e.status ≡ running)) Fine
    unfolding new_execution
    new_execution-Leads call =
        Leads-bind (λ _. Fine) _ _ (Leads-tick env g (λ s n p. p))
          (λ n.
            Leads-bind (λ _. Fine) _ _ (Leads-query _ (λ s p. p))
              (λ c. Leads-pure _ (λ s p. (p, refl))))

    run_call-Leads :
        (settings : ToolSettings) (budget : Budget) (call : ModelToolCall)
        → Leads Fine (run_call env g settings budget call) (λ _. Fine) Fine
    unfolding run_call
    run_call-Leads settings budget call =
        Leads-bind (λ _. Fine) _ _ (check_budget-Keeps env g (Fine-quiet env g) budget)
          (λ _.
            Leads-bind (λ _. Fine) _ _ (Leads-modify _ (λ s p. p))
              (λ _.
                Leads-bind (λ _. Fine) _ _ (Leads-query _ (λ s p. p))
                  (λ count.
                    Leads-if (ltb settings.max_calls count) (raise _) _
                      (λ _. Leads-raise _ (λ s p. p))
                      (λ _.
                        Leads-bind (λ e s. Fine s × (e.status ≡ running)) _ _
                          (new_execution-Leads call)
                          (λ e. Leads-given (e.status ≡ running) _ (λ r. call_begun e r))))))
      where
        call_begun :
            (e : ToolExecution env.Json)
            → e.status ≡ running
            → Leads Fine
                (perform_call env g e call budget (env.loads call.arguments) >>= λ ran.
                  conclude env g call budget ran ran.reply_draft)
                (λ _. Fine)
                Fine
        call_begun e r =
            Leads-bind (λ _. Fine) _ _ (perform_call-Leads env g up e call budget _ r)
              (λ ran.
                conclude-Keeps env g (Fine-quiet env g)
                  (show_guards-Keeps env g (Fine-quiet env g) (λ s l o p. p))
                  (append_result-Keeps env g (Fine-quiet env g) (λ s l p. p)) call budget ran
                  ran.reply_draft)

    any_reply :
        (settings : ToolSettings) (allowed : List String) (reply : Option ReplyDraft)
        (s : Run env g)
        → Fine s
        → After env g settings allowed Fine Fine reply s
    any_reply settings allowed none s p = p
    any_reply settings allowed (some draft) s p = p

    audit_stages : (settings : ToolSettings) (allowed : List String) → Stages env g settings allowed
    audit_stages settings allowed = record {
      Outer = λ _. Fine;
      Asked = λ _. Fine;
      Inner = λ _ _. Fine;
      Final = Fine;
      Failed = Fine;
      Outer-quiet = λ _. Fine-quiet env g;
      Asked-quiet = λ _. Fine-quiet env g;
      Failed-quiet = Fine-quiet env g;
      Outer-fails = λ n s p. p;
      Asked-fails = λ n s p. p;
      asks = λ n tools s p. p;
      opens = λ n content cs s p. p;
      finishes = λ n s p. p;
      closes = λ n s p. p;
      calls = λ n budget call cs known.
          Leads-weaken _ (λ s p. p) (any_reply settings allowed) (λ s p. p)
            (run_call-Leads settings budget call);
    }

    -- Where the store and the hub do what they are asked: however a run ends, also where a tool is
    -- cancelled, raises, or is stopped by a guard or the deadline, each call that was saved as running
    -- was saved right after as completed or failed, with its id and its arguments, every other saved
    -- call failed, and there is a pair of such records for each handler that was called.
    pub run-Accounts :
        (settings : ToolSettings) (allowed : List String) (messages : List ModelMessage)
        (context : ToolContext) (guards : List (String × g.Guard))
        → Accounts
            (run env g settings messages context allowed guards).1.saved
            (run env g settings messages context allowed guards).1.called
    unfolding audit_stages
    run-Accounts settings allowed messages context guards = Ends-state Fine _ (
        run-Ends env g settings allowed (audit_stages settings allowed) messages context guards
          (record { runs = 0; audited = empty refl refl; enough = omega arith }))
