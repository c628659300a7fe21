-- ===== src/ToolLoop/Guarded.antt =====
-- The loop of src/application/tool_loop.py under the guard of plugins/circuit_breaker/runtime.py.
use native.Mathlib.Decide.{dec_lt}
use i_ja_for_u.Base.{
  ℕ, ◌≤◌, ◌<◌, String, Bool, true, Option, none, some, is_some, List, [], ◌∷◌, ◌++◌, ◌≡◌, refl, sym,
  ap, ◌∙◌, subst, Option-cases, inl, inr, arith,
}
use i_ja_for_u.Domain.{ReplyDraft}
use i_ja_for_u.CircuitBreaker as Breaker
use i_ja_for_u.CircuitBreaker.{
  CircuitBreakerSettings, CircuitBreakerGuard, ToolObservation, GuardViolation, create_guard,
}
use i_ja_for_u.CircuitBreaker.Verdict.{trailing_failures, digests, run-latched}
use i_ja_for_u.CircuitBreaker.Cycles.{EndsWithCycle}
use i_ja_for_u.CircuitBreaker.Trips.{run-stops_on_cycle, run-stops_on_failures}
use i_ja_for_u.ToolRegistry.{ToolContext}
use i_ja_for_u.ToolLoop.Effects.{
  ToolSettings, ModelToolCall, ModelMessage, Environment, ToolGuard, GuardAnswer, allows, violates,
  ToolRun, Outcome, done, raised, Action, pure, ◌>>=◌, query, modify, Run,
}
use i_ja_for_u.ToolLoop.Executions.{Budget, Ran}
use i_ja_for_u.ToolLoop.Reports.{
  Judged, fine, stopped_by, judged_by, judge, act_on, show_guards, has_guards, observe, report,
  conclude,
}
use i_ja_for_u.ToolLoop.Rounds.{run}
use i_ja_for_u.ToolLoop.Hoare.{
  Ends, Leads, Keeps, Leads-bind, Leads-pure, Leads-if, Leads-query, Leads-weaken,
}
use i_ja_for_u.ToolLoop.Kept.{
  IsQuiet, check_budget-Keeps, dumps-Keeps, append_result-Keeps, abort-Leads, run_call-Leads,
}
use i_ja_for_u.ToolLoop.Stages.{Stages, After, run-Ends}

module _ {Value : Type 0} (loads : String → Option Value) (write : Value → String)
    (dumps_list : String → String → String → Bool → String) (sha256 : String → ℕ) where
  abbrev pub watch : CircuitBreakerGuard → List ToolObservation → CircuitBreakerGuard
  watch = Breaker.run loads write dumps_list sha256

  abbrev pub answer : Option GuardViolation → GuardAnswer
  answer none = allows
  answer (some v) = violates v

  -- `CircuitBreakerGuard` as a guard of the loop: `observe` returns the violation that it keeps.
  abbrev pub circuit_breaker : ToolGuard
  circuit_breaker = record {
    Guard = CircuitBreakerGuard;
    timeout_seconds = λ k. k.settings.timeout_seconds;
    observe = λ k o.
        let k' = Breaker.observe loads write dumps_list sha256 k o in (k', answer k'.violation);
  }

  run-snoc :
      (k : CircuitBreakerGuard) (os : List ToolObservation) (o : ToolObservation)
      → watch k (os ++ o ∷ []) ≡ Breaker.observe loads write dumps_list sha256 (watch k os) o
  unfolding Breaker.run
  run-snoc k [] o = refl
  run-snoc k (p ∷ os) o = run-snoc (Breaker.observe loads write dumps_list sha256 k p) os o

  run-append :
      (k : CircuitBreakerGuard) (os later : List ToolObservation)
      → watch k (os ++ later) ≡ watch (watch k os) later
  unfolding Breaker.run
  run-append k [] later = refl
  run-append k (o ∷ os) later =
      run-append (Breaker.observe loads write dumps_list sha256 k o) os later

  module _ (env : Environment) (settings : ToolSettings) (allowed : List String) (id : String)
      (k : CircuitBreakerGuard) where
    -- The one guard of the run has seen all that was observed.
    abbrev Watched : Run env circuit_breaker → Type 0
    Watched s = s.guards ≡ (id, watch k s.observed) ∷ []

    -- It has not reported a violation.
    abbrev Calm : Run env circuit_breaker → Type 0
    Calm s = Watched s × ((watch k s.observed).violation ≡ none)

    Watched-quiet : IsQuiet env circuit_breaker Watched
    Watched-quiet = record { ticks = λ s n p. p; events = λ s l p. p }

    Calm-quiet : IsQuiet env circuit_breaker Calm
    Calm-quiet = record { ticks = λ s n p. p; events = λ s l p. p }

    Calm-Watched : (s : Run env circuit_breaker) → Calm s → Watched s
    Calm-Watched s p = p.0

    keeps :
        {A : Type 0} {m : Action (Run env circuit_breaker) A}
        → Keeps Calm m
        → Leads Calm m (λ _. Calm) Watched
    keeps h = Leads-weaken _ (λ s p. p) (λ a s p. p) Calm-Watched h

    judge-calm :
        (os : List ToolObservation) (o : ToolObservation)
        → (watch k (os ++ o ∷ [])).violation ≡ none
        → judge env circuit_breaker ((id, watch k os) ∷ []) o
          ≡ ((id, watch k (os ++ o ∷ [])) ∷ [], fine)
    unfolding judge
    judge-calm os o h =
        ap (λ b. judged_by env circuit_breaker id b (answer b.violation) [] ([], fine))
          (sym (run-snoc k os o))
        ∙ ap
            (λ x.
              judged_by env circuit_breaker id (watch k (os ++ o ∷ [])) (answer x) [] ([], fine))
            h

    judge-trips :
        (os : List ToolObservation) (o : ToolObservation) (v : GuardViolation)
        → (watch k (os ++ o ∷ [])).violation ≡ some v
        → judge env circuit_breaker ((id, watch k os) ∷ []) o
          ≡ ((id, watch k (os ++ o ∷ [])) ∷ [], stopped_by id (violates v))
    unfolding judge
    judge-trips os o v h =
        ap (λ b. judged_by env circuit_breaker id b (answer b.violation) [] ([], fine))
          (sym (run-snoc k os o))
        ∙ ap
            (λ x.
              judged_by env circuit_breaker id (watch k (os ++ o ∷ [])) (answer x) [] ([], fine))
            h

    -- The state after `o` was shown, with what the guards said.
    abbrev after_judging :
        Run env circuit_breaker
        → ToolObservation
        → List (String × CircuitBreakerGuard) × Judged
        → Outcome (Unit {0}) × Run env circuit_breaker
    after_judging s o j =
        act_on env circuit_breaker j.1 (record s { guards = j.0; observed = s.observed ++ o ∷ [] })

    judging :
        (s : Run env circuit_breaker) (o : ToolObservation)
        → Calm s
        → Ends (λ _. Calm) Watched (after_judging s o (judge env circuit_breaker s.guards o))
    unfolding act_on
    judging s o p = elim (Option-cases (watch k (s.observed ++ o ∷ [])).violation) [
      | inl none_found ↦
          subst (λ j. Ends (λ _. Calm) Watched (after_judging s o j))
            (sym
              (ap (λ gs. judge env circuit_breaker gs o) p.0 ∙ judge-calm s.observed o none_found))
            (refl, none_found)
      | inr (v, found) ↦
          subst (λ j. Ends (λ _. Calm) Watched (after_judging s o j))
            (sym (ap (λ gs. judge env circuit_breaker gs o) p.0 ∙ judge-trips s.observed o v found))
            ((abort-Leads env circuit_breaker Watched-quiet id v).at _ refl)
    ]

    show_guards-Leads :
        (o : ToolObservation) → Leads Calm (show_guards env circuit_breaker o) (λ _. Calm) Watched
    unfolding show_guards ◌>>=◌ query modify
    show_guards-Leads o = record { at = λ s p. judging s o p }

    observe-Leads :
        (call : ModelToolCall) (ran : Ran env.Json)
        → Leads Calm (observe env circuit_breaker call ran.execution) (λ _. Calm) Watched
    unfolding observe
    observe-Leads call ran =
        Leads-bind (λ _. Calm) _ _ (Leads-query _ (λ s p. p))
          (λ guards.
            Leads-if (has_guards env circuit_breaker guards) _ (pure tt)
              (λ _.
                Leads-bind (λ _. Calm) _ _ (keeps (dumps-Keeps env circuit_breaker Calm-quiet _))
                  (λ text. show_guards-Leads _))
              (λ _. Leads-pure tt (λ s p. p)))

    conclude-Leads :
        (call : ModelToolCall) (budget : Budget) (ran : Ran env.Json) (reply : Option ReplyDraft)
        → Leads Calm (conclude env circuit_breaker call budget ran reply) (λ _. Calm) Watched
    unfolding conclude report
    conclude-Leads call budget ran (some draft) = Leads-pure _ (λ s p. p)
    conclude-Leads call budget ran none =
        Leads-bind (λ _. Calm) _ _
          (Leads-bind (λ _. Calm) _ _
            (keeps (check_budget-Keeps env circuit_breaker Calm-quiet budget))
            (λ _.
              Leads-bind (λ _. Calm) _ _ (observe-Leads call ran)
                (λ _.
                  keeps (append_result-Keeps env circuit_breaker Calm-quiet (λ s l p. p) call _))))
          (λ _. Leads-pure none (λ s p. p))

    any_reply :
        (reply : Option ReplyDraft) (s : Run env circuit_breaker)
        → Calm s
        → After env circuit_breaker settings allowed Calm Calm reply s
    any_reply none s p = p
    any_reply (some draft) s p = p

    calm_stages : Stages env circuit_breaker settings allowed
    calm_stages = record {
      Outer = λ _. Calm;
      Asked = λ _. Calm;
      Inner = λ _ _. Calm;
      Final = Calm;
      Failed = Watched;
      Outer-quiet = λ _. Calm-quiet;
      Asked-quiet = λ _. Calm-quiet;
      Failed-quiet = Watched-quiet;
      Outer-fails = λ _. Calm-Watched;
      Asked-fails = λ _. Calm-Watched;
      asks = λ n tools s p. p;
      opens = λ n content cs s p. p;
      finishes = λ n s p. p;
      closes = λ n s p. p;
      calls = λ n budget call cs known.
          Leads-weaken _ (λ s p. p) any_reply (λ s p. p)
            (run_call-Leads env circuit_breaker Calm-quiet (λ s l p. p) (λ s l c p. p) (λ s m p. p)
              Calm-Watched settings budget call
              (λ ran. conclude-Leads call budget ran ran.reply_draft));
    }

module _ {Value : Type 0} (loads : String → Option Value) (write : Value → String)
    (dumps_list : String → String → String → Bool → String) (sha256 : String → ℕ)
    (env : Environment) (settings : ToolSettings) (allowed : List String) (id : String)
    (cs : CircuitBreakerSettings) where
  abbrev breaker : ToolGuard
  breaker = circuit_breaker loads write dumps_list sha256

  -- A run whose lease is this one circuit breaker.
  abbrev pub guarded_run :
      List ModelMessage → ToolContext → Outcome ReplyDraft × ToolRun env.Json CircuitBreakerGuard
  guarded_run messages context =
      run env breaker settings messages context allowed ((id, create_guard cs) ∷ [])

  guarded_run-Ends :
      (messages : List ModelMessage) (context : ToolContext)
      → Ends
          (λ _. Calm loads write dumps_list sha256 env settings allowed id (create_guard cs))
          (Watched loads write dumps_list sha256 env settings allowed id (create_guard cs))
          (guarded_run messages context)
  unfolding calm_stages Breaker.run create_guard
  guarded_run-Ends messages context =
      run-Ends env breaker settings allowed
        (calm_stages loads write dumps_list sha256 env settings allowed id (create_guard cs))
        messages context ((id, create_guard cs) ∷ []) (refl, refl)

  no_violation_at_reply :
      (r : Outcome ReplyDraft × ToolRun env.Json CircuitBreakerGuard) (draft : ReplyDraft)
      → Ends
          (λ _. Calm loads write dumps_list sha256 env settings allowed id (create_guard cs))
          (Watched loads write dumps_list sha256 env settings allowed id (create_guard cs))
          r
      → r.0 ≡ done draft
      → (watch loads write dumps_list sha256 (create_guard cs) r.1.observed).violation ≡ none
  no_violation_at_reply (done d, s) draft h e = h.1
  no_violation_at_reply (raised x, s) draft h e = absurd (ground arith)

  -- No violation at the end means none before.
  none_before :
      (k : CircuitBreakerGuard) (os later : List ToolObservation)
      → (watch loads write dumps_list sha256 k (os ++ later)).violation ≡ none
      → is_some (watch loads write dumps_list sha256 k os).violation ≡ true
      → ⊥
  none_before k os later h t =
      elim (Option-cases (watch loads write dumps_list sha256 k os).violation) [
        | inl e ↦ ground (arith, e, t)
        | inr (v, e) ↦
            let same =
              run-append loads write dumps_list sha256 k os later
              ∙ run-latched loads write dumps_list sha256 (watch loads write dumps_list sha256 k os)
                  v later e in
            ground (arith, e, sym (ap (λ b. b.violation) same) ∙ h)
      ]

  -- Where `repetitions` is not 0, and the run ends with a reply: of the calls that were observed, no
  -- beginning ends with `consecutive_failures` failed calls or more, and none ends with one block of
  -- at most `max_cycle_length` digests, and of one at least, repeated `repetitions` times.
  pub run-no_loops :
      (messages : List ModelMessage) (context : ToolContext) (draft : ReplyDraft)
      (o : ToolObservation) (os later : List ToolObservation) (c : ℕ)
      → 1 ≤ cs.repetitions
      → 1 ≤ c
      → c ≤ cs.max_cycle_length
      → (guarded_run messages context).0 ≡ done draft
      → (guarded_run messages context).1.observed ≡ (o ∷ os) ++ later
      → (trailing_failures 0 (o ∷ os) < cs.consecutive_failures)
        × (¬ EndsWithCycle cs (digests loads write dumps_list sha256 (o ∷ os)) c)
  run-no_loops messages context draft o os later c r low high e seen =
      let calm =
        subst (λ xs. (watch loads write dumps_list sha256 (create_guard cs) xs).violation ≡ none)
          seen
          (no_violation_at_reply (guarded_run messages context) draft
            (guarded_run-Ends messages context) e) in
      (
        few calm,
        λ cycle.
            none_before (create_guard cs) (o ∷ os) later calm
              (run-stops_on_cycle loads write dumps_list sha256 cs o os c r low high cycle),
      )
    where
      few :
          (watch loads write dumps_list sha256 (create_guard cs) ((o ∷ os) ++ later)).violation
            ≡ none
          → trailing_failures 0 (o ∷ os) < cs.consecutive_failures
      few calm = elim (dec_lt (trailing_failures 0 (o ∷ os)) cs.consecutive_failures) [
        | yes h ↦ h
        | no h ↦ absurd (
            none_before (create_guard cs) (o ∷ os) later calm
              (run-stops_on_failures loads write dumps_list sha256 cs o os r (omega arith)))
      ]
