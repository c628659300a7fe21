-- ===== src/ToolLoop/Transcript.antt =====
-- What src/application/tool_loop.py sends to the model: the answers to the calls of each round.
use i_ja_for_u.Base.{
  String, Option, none, some, List, [], ◌∷◌, ◌++◌, ◌≡◌, refl, sym, ap, ◌∙◌, subst, All, append-nil,
  append_assoc, ltb,
}
use Prim.Native.String.{count}
use i_ja_for_u.Domain.{ReplyDraft}
use i_ja_for_u.ToolRegistry.{ToolContext}
use i_ja_for_u.ToolLoop.Effects.{
  ToolSettings, ModelToolCall, assistant, tool, ModelMessage, ModelRequest, Payload, truncated,
  Environment, ToolGuard, Action, pure, Run,
}
use i_ja_for_u.ToolLoop.Executions.{Budget, Ran}
use i_ja_for_u.ToolLoop.Reports.{dumps, append_result, report, conclude}
use i_ja_for_u.ToolLoop.Rounds.{run}
use i_ja_for_u.ToolLoop.Hoare.{
  Ends-state, Leads, Keeps, Leads-bind, Leads-pure, Leads-if, Leads-modify, Leads-weaken,
}
use i_ja_for_u.ToolLoop.Kept.{
  IsQuiet, check_budget-Keeps, dumps-Keeps, show_guards-Keeps, observe-Keeps, run_call-Leads,
}
use i_ja_for_u.ToolLoop.Stages.{Stages, After, run-Ends}

-- One answer for each call, in their order.
abbrev pub Answers : List ModelToolCall → List ModelMessage → Type 0
Answers [] [] = Unit
Answers [] (m ∷ ms) = ⊥
Answers (c ∷ cs) [] = ⊥
Answers (c ∷ cs) (m ∷ ms) = ((m.role ≡ tool) × (m.tool_call_id ≡ some c.id)) × Answers cs ms

-- The messages of the run, and rounds of calls that are all answered.
pub data IsAnswered (messages : List ModelMessage) : List ModelMessage → Type 0 where
  begins : {t : List ModelMessage} → t ≡ messages → IsAnswered messages t
  goes_on :
      {t before : List ModelMessage} (asked : ModelMessage) (answers : List ModelMessage)
      → IsAnswered messages before
      → asked.role ≡ assistant
      → Answers asked.tool_calls answers
      → t ≡ before ++ asked ∷ answers
      → IsAnswered messages t

Answers-snoc :
    (cs : List ModelToolCall) (ms : List ModelMessage) (c : ModelToolCall) (m : ModelMessage)
    → Answers cs ms
    → m.role ≡ tool
    → m.tool_call_id ≡ some c.id
    → Answers (cs ++ c ∷ []) (ms ++ m ∷ [])
Answers-snoc [] [] c m h r i = ((r, i), tt)
Answers-snoc [] (x ∷ xs) c m h r i = absurd h
Answers-snoc (d ∷ cs) [] c m h r i = absurd h
Answers-snoc (d ∷ cs) (x ∷ xs) c m h r i = (h.0, Answers-snoc cs xs c m h.1 r i)

module _ (env : Environment) (g : ToolGuard) (settings : ToolSettings) (allowed : List String)
    (messages : List ModelMessage) where
  -- A round in which the calls of `left` are still to be answered.
  record IsOpen (left : List ModelToolCall) (t : List ModelMessage) : Type 0 where
    before : List ModelMessage
    asked : ModelMessage
    answered : List ModelToolCall
    answers : List ModelMessage
    well : IsAnswered messages before
    asks : asked.role ≡ assistant
    calls : asked.tool_calls ≡ answered ++ left
    matches : Answers answered answers
    all : t ≡ before ++ asked ∷ answers

  abbrev Sent : List ModelRequest → Type 0
  Sent = All (λ (r : ModelRequest). IsAnswered messages r.messages)

  abbrev Closed : Run env g → Type 0
  Closed s = IsAnswered messages s.transcript × Sent s.requests

  abbrev Open : List ModelToolCall → Run env g → Type 0
  Open left s = IsOpen left s.transcript × Sent s.requests

  abbrev Asked : Run env g → Type 0
  Asked s = Sent s.requests

  Closed-quiet : IsQuiet env g Closed
  Closed-quiet = record { ticks = λ s n p. p; events = λ s l p. p }

  Open-quiet : (left : List ModelToolCall) → IsQuiet env g (Open left)
  Open-quiet left = record { ticks = λ s n p. p; events = λ s l p. p }

  Asked-quiet : IsQuiet env g Asked
  Asked-quiet = record { ticks = λ s n p. p; events = λ s l p. p }

  IsOpen-opens :
      (content : Option String) (calls : List ModelToolCall) (t : List ModelMessage)
      → IsAnswered messages t
      → IsOpen calls (
          t
          ++ (record {
            role = assistant;
            content = content;
            tool_calls = calls;
            tool_call_id = none;
          })
            ∷ [])
  IsOpen-opens content calls t h = record {
    before = t;
    asked = record { role = assistant; content = content; tool_calls = calls; tool_call_id = none };
    answered = [];
    answers = [];
    well = h;
    asks = refl;
    calls = refl;
    matches = tt;
    all = refl;
  }

  IsOpen-answers :
      (c : ModelToolCall) (left : List ModelToolCall) (t : List ModelMessage) (m : ModelMessage)
      → m.role ≡ tool
      → m.tool_call_id ≡ some c.id
      → IsOpen (c ∷ left) t
      → IsOpen left (t ++ m ∷ [])
  IsOpen-answers c left t m r i o = record {
    before = o.before;
    asked = o.asked;
    answered = o.answered ++ c ∷ [];
    answers = o.answers ++ m ∷ [];
    well = o.well;
    asks = o.asks;
    calls = o.calls ∙ sym (append_assoc o.answered (c ∷ []) left);
    matches = Answers-snoc o.answered o.answers c m o.matches r i;
    all = ap (λ x. x ++ m ∷ []) o.all ∙ append_assoc o.before (o.asked ∷ o.answers) (m ∷ []);
  }

  IsOpen-closes : (t : List ModelMessage) → IsOpen [] t → IsAnswered messages t
  IsOpen-closes t o =
      goes_on o.asked o.answers o.well o.asks
        (subst (λ cs. Answers cs o.answers) (sym (o.calls ∙ append-nil o.answered)) o.matches) o.all

  kept :
      {A : Type 0} {left : List ModelToolCall} {m : Action (Run env g) A}
      → Keeps (Open left) m
      → Leads (Open left) m (λ _. Open left) Asked
  kept h = Leads-weaken _ (λ s p. p) (λ a s p. p) (λ s p. p.1) h

  append_result-Leads :
      (c : ModelToolCall) (left : List ModelToolCall) (payload : Payload env.Json)
      → Leads (Open (c ∷ left)) (append_result env g c payload) (λ _. Open left) Asked
  unfolding append_result
  append_result-Leads c left payload =
      Leads-bind (λ _. Open (c ∷ left)) _ _
        (kept (dumps-Keeps env g (Open-quiet (c ∷ left)) payload))
        (λ text.
          Leads-bind (λ _. Open (c ∷ left)) _ _
            (kept (
              Leads-if (ltb 32000 (count text)) (dumps env g (truncated c.id)) (pure text)
                (λ _. dumps-Keeps env g (Open-quiet (c ∷ left)) _) (λ _. Leads-pure _ (λ s p. p))))
            (λ encoded.
              Leads-modify _ (λ s p. (IsOpen-answers c left s.transcript _ refl refl p.0, p.1))))

  conclude-Leads :
      (c : ModelToolCall) (left : List ModelToolCall) (budget : Budget) (ran : Ran env.Json)
      (reply : Option ReplyDraft)
      → Leads
          (Open (c ∷ left))
          (conclude env g c budget ran reply)
          (After env g settings allowed Asked (Open left))
          Asked
  unfolding conclude report
  conclude-Leads c left budget ran (some draft) = Leads-pure (some draft) (λ s p. p.1)
  conclude-Leads c left budget ran none =
      Leads-bind (λ _. Open left) _ _
        (Leads-bind (λ _. Open (c ∷ left)) _ _
          (kept (check_budget-Keeps env g (Open-quiet (c ∷ left)) budget))
          (λ _.
            Leads-bind (λ _. Open (c ∷ left)) _ _
              (kept (
                observe-Keeps env g (Open-quiet (c ∷ left))
                  (show_guards-Keeps env g (Open-quiet (c ∷ left)) (λ s l o p. p)) c ran.execution))
              (λ _. append_result-Leads c left ran.tool_result)))
        (λ _. Leads-pure none (λ s p. p))

  answered_stages : Stages env g settings allowed
  answered_stages = record {
    Outer = λ _. Closed;
    Asked = λ _. Closed;
    Inner = λ _. Open;
    Final = Asked;
    Failed = Asked;
    Outer-quiet = λ _. Closed-quiet;
    Asked-quiet = λ _. Closed-quiet;
    Failed-quiet = Asked-quiet;
    Outer-fails = λ n s p. p.1;
    Asked-fails = λ n s p. p.1;
    asks = λ n tools s p. (p.0, (p.0, p.1));
    opens = λ n content cs s p. (IsOpen-opens content cs s.transcript p.0, p.1);
    finishes = λ n s p. p.1;
    closes = λ n s p. (IsOpen-closes s.transcript p.0, p.1);
    calls = λ n budget call cs known.
        run_call-Leads env g (Open-quiet (call ∷ cs)) (λ s l p. p) (λ s l c p. p) (λ s m p. p)
          (λ s p. p.1) settings budget call
          (λ ran. conclude-Leads call cs budget ran ran.reply_draft);
  }

module _ (env : Environment) (g : ToolGuard) (settings : ToolSettings) (allowed : List String) where
  -- The messages of each request are those of the run, followed by rounds: each is an assistant
  -- message with calls, and one message of role `tool` for each of them, in their order, with its id.
  pub run-IsAnswered :
      (messages : List ModelMessage) (context : ToolContext) (guards : List (String × g.Guard))
      → All
          (λ (r : ModelRequest). IsAnswered messages r.messages)
          (run env g settings messages context allowed guards).1.requests
  unfolding answered_stages
  run-IsAnswered messages context guards = Ends-state (Asked env g settings allowed messages) _ (
      run-Ends env g settings allowed (answered_stages env g settings allowed messages) messages
        context guards (begins refl, tt))
