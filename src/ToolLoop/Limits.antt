-- ===== src/ToolLoop/Limits.antt =====
-- How many tools a run of src/application/tool_loop.py calls, and which.
use i_ja_for_u.Base.{
  ℕ, suc, ◌+◌, ◌≤◌, String, true, false, Option, none, some, List, ◌∷◌, ◌≡◌, refl, All, length, ltb,
  arith,
}
use i_ja_for_u.Domain.{ReplyDraft}
use i_ja_for_u.ToolRegistry.{contains, ToolContext}
use i_ja_for_u.ToolLoop.Effects.{
  ToolSettings, ModelToolCall, ModelMessage, ModelRequest, Environment, ToolGuard, raise, ◌>>=◌,
  Run,
}
use i_ja_for_u.ToolLoop.Executions.{Budget, Ran, new_execution, perform_call}
use i_ja_for_u.ToolLoop.Reports.{conclude}
use i_ja_for_u.ToolLoop.Rounds.{run_call, run}
use i_ja_for_u.ToolLoop.Hoare.{
  Ends-state, Leads, Keeps, Leads-bind, Leads-raise, Leads-if, Leads-query, Leads-modify,
  Leads-weaken,
}
use i_ja_for_u.ToolLoop.Kept.{
  check_budget-Keeps, new_execution-Keeps, conclude-Keeps, show_guards-Keeps, append_result-Keeps,
}
use i_ja_for_u.ToolLoop.Stages.{Stages, After, run-Ends}
use i_ja_for_u.ToolLoop.Tracking.{IsGranted, Holds, fails, quiet, keeps, perform_call-Leads}

module _ (env : Environment) (g : ToolGuard) (settings : ToolSettings) (allowed : List String)
    (context : ToolContext) where
  admitted :
      (n : ℕ) (s : Run env g) (count : ℕ)
      → Holds env g settings allowed context 1 0 n s
      → s.call_count ≡ count
      → ltb settings.max_calls count ≡ false
      → Holds env g settings allowed context 1 1 n s
  admitted n s count p e h = record {
    counted = p.counted;
    limited = ground (arith, p.counted, e, h);
    rounds = p.rounds;
    same_scopes = p.same_scopes;
    same_egress = p.same_egress;
    granted = p.granted;
  }

  counts :
      (n : ℕ) (s : Run env g)
      → Holds env g settings allowed context 0 0 n s
      → Holds env g settings allowed context 1 0 n (record s { call_count = s.call_count + 1 })
  counts n s p = record {
    counted = omega (arith, p.counted);
    limited = p.limited;
    rounds = p.rounds;
    same_scopes = p.same_scopes;
    same_egress = p.same_egress;
    granted = p.granted;
  }

  concludes :
      (n : ℕ) (call : ModelToolCall) (budget : Budget) (ran : Ran env.Json)
      (reply : Option ReplyDraft)
      → Keeps (Holds env g settings allowed context 0 0 n) (conclude env g call budget ran reply)
  concludes n =
      conclude-Keeps env g (quiet env g settings allowed context 0 0 n)
        (show_guards-Keeps env g (quiet env g settings allowed context 0 0 n) (λ s l o p. p))
        (append_result-Keeps env g (quiet env g settings allowed context 0 0 n) (λ s l p. p))

  run_call-Leads :
      (n : ℕ) (budget : Budget) (call : ModelToolCall)
      → contains allowed call.name ≡ true
      → Leads
          (Holds env g settings allowed context 0 0 n)
          (run_call env g settings budget call)
          (λ _. Holds env g settings allowed context 0 0 n)
          (Holds env g settings allowed context 0 0 0)
  unfolding run_call
  run_call-Leads n budget call known =
      Leads-bind (λ _. Holds env g settings allowed context 0 0 n) _ _
        (keeps env g settings allowed context 0 0 n _
          (check_budget-Keeps env g (quiet env g settings allowed context 0 0 n) budget))
        (λ _.
          Leads-bind (λ _. Holds env g settings allowed context 1 0 n) _ _
            (Leads-modify _ (counts n))
            (λ _.
              Leads-bind
                (λ count s. Holds env g settings allowed context 1 0 n s × (s.call_count ≡ count)) _
                _ (Leads-query _ (λ s p. (p, refl)))
                (λ count.
                  Leads-if (ltb settings.max_calls count) (raise _) _
                    (λ _. Leads-raise _ (λ s p. fails env g settings allowed context 1 0 n s p.0))
                    (λ below.
                      Leads-weaken {P = Holds env g settings allowed context 1 1 n} _
                        (λ s p. admitted n s count p.0 p.1 below) (λ a s p. p) (λ s p. p)
                        (call_admitted n)))))
    where
      call_admitted :
          (n : ℕ)
          → Leads
              (Holds env g settings allowed context 1 1 n)
              (new_execution env g call >>= λ e.
                perform_call env g e call budget (env.loads call.arguments) >>= λ ran.
                conclude env g call budget ran ran.reply_draft)
              (λ _. Holds env g settings allowed context 0 0 n)
              (Holds env g settings allowed context 0 0 0)
      call_admitted n =
          Leads-bind (λ _. Holds env g settings allowed context 1 1 n) _ _
            (keeps env g settings allowed context 1 1 n _
              (new_execution-Keeps env g (quiet env g settings allowed context 1 1 n) call))
            (λ e.
              Leads-bind (λ _. Holds env g settings allowed context 0 0 n) _ _
                (perform_call-Leads env g settings allowed context n e call budget _ known)
                (λ ran.
                  keeps env g settings allowed context 0 0 n _
                    (concludes n call budget ran ran.reply_draft)))

  any_reply :
      (n : ℕ) (reply : Option ReplyDraft) (s : Run env g)
      → Holds env g settings allowed context 0 0 n s
      → After env g settings allowed
          (Holds env g settings allowed context 0 0 0)
          (Holds env g settings allowed context 0 0 n)
          reply
          s
  any_reply n none s p = p
  any_reply n (some draft) s p = fails env g settings allowed context 0 0 n s p

  asks :
      (n : ℕ) (r : ModelRequest) (s : Run env g)
      → Holds env g settings allowed context 0 0 (suc n) s
      → Holds env g settings allowed context 0 0 n (record s { requests = r ∷ s.requests })
  asks n r s p = record {
    counted = p.counted;
    limited = p.limited;
    rounds = omega (arith, p.rounds);
    same_scopes = p.same_scopes;
    same_egress = p.same_egress;
    granted = p.granted;
  }

  stages : Stages env g settings allowed
  stages = record {
    Outer = Holds env g settings allowed context 0 0;
    Asked = Holds env g settings allowed context 0 0;
    Inner = λ n cs. Holds env g settings allowed context 0 0 n;
    Final = Holds env g settings allowed context 0 0 0;
    Failed = Holds env g settings allowed context 0 0 0;
    Outer-quiet = quiet env g settings allowed context 0 0;
    Asked-quiet = quiet env g settings allowed context 0 0;
    Failed-quiet = quiet env g settings allowed context 0 0 0;
    Outer-fails = fails env g settings allowed context 0 0;
    Asked-fails = fails env g settings allowed context 0 0;
    asks = λ n tools s p. asks n _ s p;
    opens = λ n content cs s p. p;
    finishes = fails env g settings allowed context 0 0;
    closes = λ n s p. p;
    calls = λ n budget call cs known.
        Leads-weaken _ (λ s p. p) (any_reply n) (λ s p. p) (run_call-Leads n budget call known);
  }

  final :
      (messages : List ModelMessage) (guards : List (String × g.Guard))
      → Holds env g settings allowed context 0 0 0
          (run env g settings messages context allowed guards).1
  unfolding stages
  final messages guards = Ends-state (Holds env g settings allowed context 0 0 0) _ (
      run-Ends env g settings allowed stages messages context guards (record {
        counted = omega arith;
        limited = omega arith;
        rounds = omega arith;
        same_scopes = refl;
        same_egress = refl;
        granted = tt;
      }))

  -- However a run ends, it has made at most `max_rounds` requests, and called at most `max_calls`
  -- handlers of tools.
  pub run-limits :
      (messages : List ModelMessage) (guards : List (String × g.Guard))
      → (length (run env g settings messages context allowed guards).1.requests
          ≤ settings.max_rounds)
        × (length (run env g settings messages context allowed guards).1.called
            ≤ settings.max_calls)
  run-limits messages guards = (
    omega (arith, (final messages guards).rounds),
    omega (arith, (final messages guards).limited),
  )

  -- Whatever the model asks for, and whatever skills handlers load: each tool whose handler a run
  -- calls is one of `allowed_tools`, is the registered tool of its name, has all of its scopes granted
  -- in the context of the run, and can be used on its channel.
  pub run-IsGranted :
      (messages : List ModelMessage) (guards : List (String × g.Guard))
      → All
          (IsGranted env g settings allowed context)
          (run env g settings messages context allowed guards).1.called
  run-IsGranted messages guards = (final messages guards).granted
