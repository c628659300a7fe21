-- ===== src/ToolLoop/Stages.antt =====
-- The rounds of src/application/tool_loop.py in stages: what a theorem has to say of a request, of
-- a round that begins, and of one call, to hold of the whole run.
use i_ja_for_u.Base.{
  ℕ, zero, suc, String, true, false, not, ◌&&◌, Option, none, some, List, [], ◌∷◌, ◌++◌, ◌≡◌, refl,
  All, All-map, subst, arith,
}
use i_ja_for_u.Domain.{ReplyDraft}
use i_ja_for_u.ToolRegistry.{
  contains, is_empty, ToolContext, ToolDefinition, definitions, exposed_tool_names, is_terminal,
}
use i_ja_for_u.ToolRegistry.Permits.{definitions-permits}
use i_ja_for_u.ToolLoop.Effects.{
  ToolSettings, ModelToolCall, assistant, ModelMessage, LoopError, cancelled, timeout_error,
  tool_limit, aborted, invalid_model_response, type_error, fault, Completion, answers, fails,
  Environment, ToolGuard, Outcome, done, raised, Action, pure, raise, Run,
}
use i_ja_for_u.ToolLoop.Executions.{Budget, task_timeout, abort}
use i_ja_for_u.ToolLoop.Rounds.{
  hidden_names, has_terminal_call, is_single, run_call, run_calls, finish, check_calls, answer_of,
  complete, append_calls, follow, run_round, run_rounds, run_loop, on_error, catch, run_guarded,
  run_with, start, run, is_empty_text,
}
use i_ja_for_u.ToolLoop.Hoare.{
  Ends, Leads, Leads-bind, Leads-pure, Leads-raise, Leads-if, Leads-given, Leads-query,
  Leads-modify, Leads-tick, Leads-weaken,
}
use i_ja_for_u.ToolLoop.Kept.{IsQuiet, abort-Leads, check_budget-Keeps}

-- Every call is for a tool of `allowed_tools`.
abbrev pub AllAllowed : List String → List ModelToolCall → Type 0
AllAllowed allowed = All (λ (c : ModelToolCall). contains allowed c.name ≡ true)

contains-is_empty : (xs : List String) (n : String) → contains xs n ≡ true → is_empty xs ≡ false
unfolding contains
contains-is_empty [] n h = ground arith
contains-is_empty (x ∷ xs) n h = refl

hidden_names-none :
    (exposed : List String) (calls : List ModelToolCall)
    → is_empty (hidden_names exposed calls) ≡ true
    → AllAllowed exposed calls
unfolding hidden_names contains
hidden_names-none exposed [] h = tt
hidden_names-none exposed (c ∷ cs) h =
    ground (arith, contains-is_empty (hidden_names exposed cs) c.name, hidden_names-none exposed cs)

module _ (env : Environment) (g : ToolGuard) (settings : ToolSettings) (allowed : List String) where
  -- The request that a round makes, and the message that the calls of its answer add.
  abbrev pub ask : List ToolDefinition → Run env g → Run env g
  ask tools s = record s {
    requests = (record { messages = s.transcript; tools = tools }) ∷ s.requests;
  }

  abbrev pub open_round : Option String → List ModelToolCall → Run env g → Run env g
  open_round content calls s = record s {
    transcript =
        s.transcript
        ++ (record { role = assistant; content = content; tool_calls = calls; tool_call_id = none })
          ∷ [];
  }

  -- After a call: a reply ends the run, or the rest of the round follows.
  abbrev pub After :
      (Run env g → Type 0) → (Run env g → Type 0) → Option ReplyDraft → Run env g → Type 0
  After F I none = I
  After F I (some draft) = F

  -- `Outer n` holds where `n` rounds are left, `Asked n` after a request, `Inner n calls` where
  -- `calls` are still to be made, `Final` with a reply, and `Failed` with an exception.
  pub record Stages : Type 1 where
    pub Outer : ℕ → Run env g → Type 0
    pub Asked : ℕ → Run env g → Type 0
    pub Inner : ℕ → List ModelToolCall → Run env g → Type 0
    pub Final : Run env g → Type 0
    pub Failed : Run env g → Type 0
    pub Outer-quiet : (n : ℕ) → IsQuiet env g (Outer n)
    pub Asked-quiet : (n : ℕ) → IsQuiet env g (Asked n)
    pub Failed-quiet : IsQuiet env g Failed
    pub Outer-fails : (n : ℕ) (s : Run env g) → Outer n s → Failed s
    pub Asked-fails : (n : ℕ) (s : Run env g) → Asked n s → Failed s
    pub asks :
        (n : ℕ) (tools : List ToolDefinition) (s : Run env g)
        → Outer (suc n) s
        → Asked n (ask tools s)
    pub opens :
        (n : ℕ) (content : Option String) (calls : List ModelToolCall) (s : Run env g)
        → Asked n s
        → Inner n calls (open_round content calls s)
    pub finishes : (n : ℕ) (s : Run env g) → Asked n s → Final s
    pub closes : (n : ℕ) (s : Run env g) → Inner n [] s → Outer n s
    pub calls :
        (n : ℕ) (budget : Budget) (call : ModelToolCall) (calls : List ModelToolCall)
        → contains allowed call.name ≡ true
        → Leads
            (Inner n (call ∷ calls))
            (run_call env g settings budget call)
            (After Final (Inner n calls))
            Failed

module _ (env : Environment) (g : ToolGuard) (settings : ToolSettings) (allowed : List String)
    (st : Stages env g settings allowed) where
  open st use {
    Outer, Asked, Inner, Final, Failed, Outer-quiet, Asked-quiet, Failed-quiet, Outer-fails,
    Asked-fails, asks, opens, finishes, closes, calls,
  }

  abbrev Follows : ℕ → Option ReplyDraft → Run env g → Type 0
  Follows n = After env g settings allowed Final (Outer n)

  -- What follows a reply or its absence.
  module _ {A : Type 0} {I : Run env g → Type 0} {Q : A → Run env g → Type 0} where
    reply-Leads :
        (reply : Option ReplyDraft) (f : ReplyDraft → Action (Run env g) A)
        (m : Action (Run env g) A)
        → ((draft : ReplyDraft) → Leads Final (f draft) Q Failed)
        → Leads I m Q Failed
        → Leads
            (After env g settings allowed Final I reply)
            (elim reply [ some draft ↦ f draft | none ↦ m ])
            Q
            Failed
    reply-Leads none f m hf hm = hm
    reply-Leads (some draft) f m hf hm = hf draft

  run_calls-Leads :
      (n : ℕ) (budget : Budget) (cs : List ModelToolCall)
      → AllAllowed allowed cs
      → Leads (Inner n cs) (run_calls env g settings budget cs) (Follows n) Failed
  unfolding run_calls
  run_calls-Leads n budget [] h = Leads-pure none (closes n)
  run_calls-Leads n budget (c ∷ cs) h =
      Leads-bind (After env g settings allowed Final (Inner n cs)) _ _ (calls n budget c cs h.0)
        (λ reply.
          reply-Leads reply (λ draft. pure (some draft)) (run_calls env g settings budget cs)
            (λ draft. Leads-pure (some draft) (λ s p. p)) (run_calls-Leads n budget cs h.1))

  finish-Leads :
      (n : ℕ) (content : Option String)
      → Leads (Asked n) (finish env g settings allowed content) (λ _. Final) Failed
  unfolding finish
  finish-Leads n none = Leads-raise _ (Asked-fails n)
  finish-Leads n (some content) =
      Leads-if (is_empty_text env g settings content) (raise _) (pure _)
        (λ _. Leads-raise _ (Asked-fails n)) (λ _. Leads-pure _ (finishes n))

  check_calls-Leads :
      (n : ℕ) (exposed : List String) (cs : List ModelToolCall)
      → Leads
          (Asked n)
          (check_calls env g settings exposed cs)
          (λ _ s. Asked n s × AllAllowed exposed cs)
          Failed
  unfolding check_calls
  check_calls-Leads n exposed cs =
      Leads-if (not (is_empty (hidden_names exposed cs))) (raise _) _
        (λ _. Leads-raise _ (Asked-fails n))
        (λ h.
          Leads-if (has_terminal_call (is_terminal env.registry) cs && not (is_single cs)) (raise _)
            (pure tt) (λ _. Leads-raise _ (Asked-fails n))
            (λ _. Leads-pure tt (λ s p. (p, hidden_names-none exposed cs (ground arith)))))

  append_calls-Leads :
      (n : ℕ) (content : Option String) (cs : List ModelToolCall)
      → Leads (Asked n) (append_calls env g settings content cs) (λ _. Inner n cs) Failed
  unfolding append_calls
  append_calls-Leads n content cs = Leads-modify _ (opens n content cs)

  follow-Leads :
      (n : ℕ) (exposed : List String) (budget : Budget) (content : Option String)
      (cs : List ModelToolCall)
      → ((name : String) → contains exposed name ≡ true → contains allowed name ≡ true)
      → Leads (Asked n) (follow env g settings allowed exposed budget content cs) (Follows n) Failed
  unfolding follow
  follow-Leads n exposed budget content [] h =
      Leads-bind (λ _. Final) _ _ (finish-Leads n content)
        (λ draft. Leads-pure (some draft) (λ s p. p))
  follow-Leads n exposed budget content (c ∷ cs) h =
      Leads-bind (λ _ s. Asked n s × AllAllowed exposed (c ∷ cs)) _ _
        (check_calls-Leads n exposed (c ∷ cs))
        (λ _. Leads-given (AllAllowed exposed (c ∷ cs)) _ (λ found.
          Leads-bind (λ _. Inner n (c ∷ cs)) _ _ (append_calls-Leads n content (c ∷ cs))
            (λ _.
              run_calls-Leads n budget (c ∷ cs)
                (All-map _ _ (c ∷ cs) (λ call k. h call.name k) found))))

  complete-Leads :
      (n : ℕ) (tools : List ToolDefinition)
      → Leads (Outer (suc n)) (complete env g settings tools) (λ _. Asked n) Failed
  unfolding complete
  complete-Leads n tools =
      Leads-bind (λ _. Outer (suc n)) _ _
        (Leads-tick env g (λ s k p. (Outer-quiet (suc n)).ticks s k p))
        (λ k.
          Leads-bind (λ messages s. Outer (suc n) s × (s.transcript ≡ messages)) _ _
            (Leads-query _ (λ s p. (p, refl)))
            (λ messages.
              Leads-bind (λ _. Asked n) _ _ (Leads-modify _ (λ s p. asked messages s p))
                (λ _. answer_of-Leads _)))
    where
      asked :
          (messages : List ModelMessage) (s : Run env g)
          → Outer (suc n) s × (s.transcript ≡ messages)
          → Asked n
              (record s { requests = (record { messages = messages; tools = tools }) ∷ s.requests })
      asked messages s (p, e) =
          subst
            (λ m.
              Asked n
                (record s { requests = (record { messages = m; tools = tools }) ∷ s.requests }))
            e (asks n tools s p)

      answer_of-Leads :
          (a : Completion) → Leads (Asked n) (answer_of env g settings a) (λ _. Asked n) Failed
      answer_of-Leads (answers result) = Leads-pure result (λ s p. p)
      answer_of-Leads (fails e) = Leads-raise e (Asked-fails n)

  exposed-allowed :
      (c : ToolContext) (name : String)
      → contains
          (exposed_tool_names
            (definitions env.registry (some allowed) c.authorization_scopes (some c.loaded_skills)))
          name
        ≡ true
      → contains allowed name ≡ true
  exposed-allowed c name h = ground (
    arith,
    definitions-permits env.registry c.authorization_scopes c.loaded_skills allowed name,
    h,
  )

  run_round-Leads :
      (n : ℕ) (budget : Budget)
      → Leads (Outer (suc n)) (run_round env g settings allowed budget) (Follows n) Failed
  unfolding run_round
  run_round-Leads n budget =
      Leads-bind (λ _. Outer (suc n)) _ _
        (Leads-weaken _ (λ s p. p) (λ _ s p. p) (Outer-fails (suc n))
          (check_budget-Keeps env g (Outer-quiet (suc n)) budget))
        (λ _.
          Leads-bind (λ _. Outer (suc n)) _ _ (Leads-query _ (λ s p. p))
            (λ context.
              Leads-bind (λ _. Asked n) _ _ (complete-Leads n _)
                (λ result.
                  Leads-bind (λ _. Asked n) _ _
                    (Leads-weaken _ (λ s p. p) (λ _ s p. p) (Asked-fails n)
                      (check_budget-Keeps env g (Asked-quiet n) budget))
                    (λ _.
                      follow-Leads n _ budget result.content result.tool_calls
                        (exposed-allowed context)))))

  pub run_rounds-Leads :
      (n : ℕ) (budget : Budget)
      → Leads (Outer n) (run_rounds env g settings n allowed budget) (λ _. Final) Failed
  unfolding run_rounds
  run_rounds-Leads zero budget = Leads-raise _ (Outer-fails zero)
  run_rounds-Leads (suc n) budget = Leads-bind (Follows n) _ _ (run_round-Leads n budget) (λ reply.
      reply-Leads reply (λ draft. pure draft) (run_rounds env g settings n allowed budget)
        (λ draft. Leads-pure draft (λ s p. p)) (run_rounds-Leads n budget))

  on_error-Leads :
      (owner : String) (e : LoopError)
      → Leads Failed (on_error env g settings owner e) (λ _. Final) Failed
  unfolding on_error
  on_error-Leads owner (cancelled true) = abort-Leads env g Failed-quiet owner task_timeout
  on_error-Leads owner (cancelled false) = Leads-raise _ (λ s p. p)
  on_error-Leads owner timeout_error =
      Leads-bind (λ _. Failed) _ _ (Leads-tick env g (λ s k p. Failed-quiet.ticks s k p))
        (λ n.
          Leads-if (env.has_fired n) (abort env g owner task_timeout) (raise timeout_error)
            (λ _. abort-Leads env g Failed-quiet owner task_timeout)
            (λ _. Leads-raise _ (λ s p. p)))
  on_error-Leads owner (tool_limit t) = Leads-raise _ (λ s p. p)
  on_error-Leads owner (aborted o v) = Leads-raise _ (λ s p. p)
  on_error-Leads owner (invalid_model_response t) = Leads-raise _ (λ s p. p)
  on_error-Leads owner (type_error t) = Leads-raise _ (λ s p. p)
  on_error-Leads owner (fault f) = Leads-raise _ (λ s p. p)

  catch-Ends :
      (owner : String) (r : Outcome ReplyDraft × Run env g)
      → Ends (λ _. Final) Failed r
      → Ends (λ _. Final) Failed (catch env g settings owner r)
  catch-Ends owner (done draft, s) h = h
  catch-Ends owner (raised e, s) h = (on_error-Leads owner e).at s h

  run_with-Leads :
      (guards : List (String × g.Guard))
      → Leads
          (Outer settings.max_rounds)
          (run_with env g settings allowed guards)
          (λ _. Final)
          Failed
  unfolding run_guarded run_loop
  run_with-Leads [] = run_rounds-Leads settings.max_rounds none
  run_with-Leads (first ∷ others) =
      Leads-bind (λ _. Outer settings.max_rounds) _ _
        (Leads-tick env g (λ s k p. (Outer-quiet settings.max_rounds).ticks s k p))
        (λ n. record {
          at = λ s p. catch-Ends _ _ ((run_rounds-Leads settings.max_rounds (some _)).at s p);
        })

  -- What holds of a run that begins well.
  pub run-Ends :
      (messages : List ModelMessage) (context : ToolContext) (guards : List (String × g.Guard))
      → Outer settings.max_rounds (start env g settings messages context guards)
      → Ends (λ _. Final) Failed (run env g settings messages context allowed guards)
  unfolding run
  run-Ends messages context guards h = (run_with-Leads guards).at _ h
