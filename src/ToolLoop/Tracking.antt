-- ===== src/ToolLoop/Tracking.antt =====
-- One call of src/application/tool_loop.py: what it adds to the count of the calls, and the tool that
-- it may reach.
use i_ja_for_u.Base.{
  ℕ, ◌+◌, ◌≤◌, String, true, some, List, ◌∷◌, ◌≡◌, refl, ap, ◌∙◌, subst, All, length, arith,
}
use i_ja_for_u.ToolRegistry.{
  contains, is_subset, ToolContext, RegisteredTool, Checked, passed, refused, find_tool, resolve,
  supports_context_egress,
}
use i_ja_for_u.ToolRegistry.Permits.{MayRun, resolve-MayRun, name-find_tool}
use i_ja_for_u.ToolLoop.Effects.{
  ToolSettings, ModelToolCall, ModelRequest, ToolExecution, Loaded, object, unusable, breaks,
  Environment, ToolGuard, Action, Run,
}
use i_ja_for_u.ToolLoop.Executions.{
  Budget, call_handler, execute_checked, execute, start_execution, perform_call,
}
use i_ja_for_u.ToolLoop.Hoare.{
  Leads, Keeps, Leads-bind, Leads-pure, Leads-raise, Leads-given, Leads-query, Leads-modify,
  Leads-tick, Leads-weaken,
}
use i_ja_for_u.ToolLoop.Kept.{
  IsQuiet, save_tool_execution-Keeps, publish-Keeps, refuse_arguments-Keeps, settle_execution-Keeps,
}

module _ (env : Environment) (g : ToolGuard) (settings : ToolSettings) (allowed : List String)
    (context : ToolContext) where
  -- A tool that a run in this context may call.
  pub record IsGranted (t : RegisteredTool) : Type 0 where
    pub allowed_name : contains allowed t.name ≡ true
    pub registered : find_tool t.name env.registry ≡ some t
    pub scoped : is_subset t.required_scopes context.authorization_scopes ≡ true
    pub sendable : supports_context_egress t context.supported_egress_components ≡ true

  -- `extra` calls are counted and not made, `spare` may still be made, and `n` rounds are left.
  pub record Tracks (extra spare n : ℕ) (called : List RegisteredTool) (call_count : ℕ)
      (requests : List ModelRequest) (c : ToolContext) : Type 0 where
    pub counted : length called + extra ≤ call_count
    pub limited : length called + spare ≤ settings.max_calls
    pub rounds : length requests + n ≤ settings.max_rounds
    pub same_scopes : c.authorization_scopes ≡ context.authorization_scopes
    pub same_egress : c.supported_egress_components ≡ context.supported_egress_components
    pub granted : All IsGranted called

  abbrev pub Holds : (extra spare n : ℕ) → Run env g → Type 0
  Holds extra spare n s = Tracks extra spare n s.called s.call_count s.requests s.context

  pub quiet : (extra spare n : ℕ) → IsQuiet env g (Holds extra spare n)
  quiet extra spare n = record { ticks = λ s k p. p; events = λ s l p. p }

  -- Fewer calls and rounds are left.
  fewer :
      (extra spare n m : ℕ) (called : List RegisteredTool) (call_count : ℕ)
      (requests : List ModelRequest) (c : ToolContext)
      → m ≤ n
      → Tracks extra spare n called call_count requests c
      → Tracks 0 0 m called call_count requests c
  fewer extra spare n m called call_count requests c h t = record {
    counted = omega arith;
    limited = omega arith;
    rounds = omega arith;
    same_scopes = t.same_scopes;
    same_egress = t.same_egress;
    granted = t.granted;
  }

  pub fails : (extra spare n : ℕ) (s : Run env g) → Holds extra spare n s → Holds 0 0 0 s
  fails extra spare n s t =
      fewer extra spare n 0 s.called s.call_count s.requests s.context (omega arith) t

  pub rests : (extra spare n : ℕ) (s : Run env g) → Holds extra spare n s → Holds 0 0 n s
  rests extra spare n s t =
      fewer extra spare n n s.called s.call_count s.requests s.context (omega arith) t

  MayRun-IsGranted :
      (name : String) (c : ToolContext) (t : RegisteredTool)
      → contains allowed name ≡ true
      → c.authorization_scopes ≡ context.authorization_scopes
      → c.supported_egress_components ≡ context.supported_egress_components
      → MayRun env.model_validate env.registry name c t
      → IsGranted t
  MayRun-IsGranted name c t known scopes egress m =
      let same : t.name ≡ name = name-find_tool name env.registry t m.0 in
      record {
        allowed_name = ap (contains allowed) same ∙ known;
        registered = ap (λ k. find_tool k env.registry) same ∙ m.0;
        scoped = subst (λ x. is_subset t.required_scopes x ≡ true) scopes m.1;
        sendable = subst (λ x. supports_context_egress t x ≡ true) egress m.3;
      }

  call_handler-Leads :
      (n : ℕ) (t : RegisteredTool) (arguments : env.Json)
      → IsGranted t
      → Leads (Holds 1 1 n) (call_handler env g t arguments) (λ _. Holds 0 0 n) (Holds 0 0 0)
  unfolding call_handler
  call_handler-Leads n t arguments ok =
      Leads-bind (λ _. Holds 1 1 n) _ _ (Leads-tick env g (λ s k p. p))
        (λ k.
          Leads-bind (λ c s. Holds 1 1 n s × (s.context ≡ c)) _ _ (Leads-query _ (λ s p. (p, refl)))
            (λ c.
              Leads-bind (λ _. Holds 0 0 n) _ _ (Leads-modify _ (λ s p. add s (p.0)))
                (λ _. Leads-pure _ (λ s p. p))))
    where
      add :
          (s : Run env g) {loaded : List String}
          → Holds 1 1 n s
          → Tracks 0 0 n
              (t ∷ s.called)
              s.call_count
              s.requests
              (record (s.context) { loaded_skills = loaded })
      add s p = record {
        counted = omega arith;
        limited = omega arith;
        rounds = p.rounds;
        same_scopes = p.same_scopes;
        same_egress = p.same_egress;
        granted = (ok, p.granted);
      }

  checked-Leads :
      (n : ℕ) (name : String) (arguments : env.Json) (c : ToolContext)
      (r : Checked (RegisteredTool × env.Json))
      → contains allowed name ≡ true
      → resolve env.model_validate env.registry name arguments c ≡ r
      → Leads
          (λ s. Holds 1 1 n s × (s.context ≡ c))
          (execute_checked env g r)
          (λ _. Holds 0 0 n)
          (Holds 0 0 0)
  checked-Leads n name arguments c (refused e) known r = Leads-pure _ (λ s p. rests 1 1 n s p.0)
  checked-Leads n name arguments c (passed (t, given)) known r =
      Leads-weaken {P = λ s. Holds 1 1 n s × IsGranted t} _ (λ s p. (p.0, grant s p.0 p.1))
        (λ a s p. p) (λ s p. p) (Leads-given (IsGranted t) _ (call_handler-Leads n t given))
    where
      grant : (s : Run env g) → Holds 1 1 n s → s.context ≡ c → IsGranted t
      grant s p e =
          MayRun-IsGranted name c t known
            (subst (λ x. x.authorization_scopes ≡ context.authorization_scopes) e p.same_scopes)
            (subst (λ x. x.supported_egress_components ≡ context.supported_egress_components) e
              p.same_egress)
            (resolve-MayRun env.model_validate env.registry name arguments c t given r)

  execute-Leads :
      (n : ℕ) (name : String) (arguments : env.Json)
      → contains allowed name ≡ true
      → Leads (Holds 1 1 n) (execute env g name arguments) (λ _. Holds 0 0 n) (Holds 0 0 0)
  unfolding execute
  execute-Leads n name arguments known =
      Leads-bind (λ c s. Holds 1 1 n s × (s.context ≡ c)) _ _ (Leads-query _ (λ s p. (p, refl)))
        (λ c. checked-Leads n name arguments c _ known refl)

  -- What keeps `Holds` as it is may raise.
  pub keeps :
      {A : Type 0} (extra spare n : ℕ) (m : Action (Run env g) A)
      → Keeps (Holds extra spare n) m
      → Leads (Holds extra spare n) m (λ _. Holds extra spare n) (Holds 0 0 0)
  keeps extra spare n m h = Leads-weaken _ (λ s p. p) (λ a s p. p) (fails extra spare n) h

  start_execution-Leads :
      (n : ℕ) (e : ToolExecution env.Json) (name : String) (arguments : env.Json) (budget : Budget)
      → contains allowed name ≡ true
      → Leads
          (Holds 1 1 n)
          (start_execution env g e name arguments budget)
          (λ _. Holds 0 0 n)
          (Holds 0 0 0)
  unfolding start_execution
  start_execution-Leads n e name arguments budget known =
      Leads-bind (λ _. Holds 1 1 n) _ _
        (keeps 1 1 n _ (save_tool_execution-Keeps env g (quiet 1 1 n) (λ s l p. p) e))
        (λ _.
          Leads-bind (λ _. Holds 1 1 n) _ _ (keeps 1 1 n _ (publish-Keeps env g (quiet 1 1 n) _))
            (λ _.
              Leads-bind (λ _. Holds 0 0 n) _ _ (execute-Leads n name arguments known)
                (λ answer.
                  keeps 0 0 n _
                    (settle_execution-Keeps env g (quiet 0 0 n) (λ s l p. p) e budget answer))))

  pub perform_call-Leads :
      (n : ℕ) (e : ToolExecution env.Json) (call : ModelToolCall) (budget : Budget)
      (l : Loaded env.Json)
      → contains allowed call.name ≡ true
      → Leads (Holds 1 1 n) (perform_call env g e call budget l) (λ _. Holds 0 0 n) (Holds 0 0 0)
  unfolding perform_call
  perform_call-Leads n e call budget (object arguments) known =
      start_execution-Leads n _ call.name arguments budget known
  perform_call-Leads n e call budget (unusable text) known =
      Leads-weaken _ (λ s p. p) (λ a s p. rests 1 1 n s p) (fails 1 1 n)
        (refuse_arguments-Keeps env g (quiet 1 1 n) (λ s l p. p) e text)
  perform_call-Leads n e call budget (breaks err) known = Leads-raise _ (fails 1 1 n)
