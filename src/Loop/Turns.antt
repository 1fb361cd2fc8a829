-- ===== src/Loop/Turns.antt =====
-- That a run of the loop reports the turns it took.
use creance.Prelude.{
  ℕ, zero, suc, ◌+◌, ◌≤◌, String, false, Option, none, some, List, [], ◌∷◌, ◌≡◌, ◌≢◌, refl, sym, ap,
  subst, ◌∙◌, inl, inr, arith, length, All, Bool-cases, str_eq, eq_iff,
}
use creance.Prelude.Outcome.{Outcome, returned, thrown, Action, Ends, resume-Ends, Ends-weaken}
use creance.Ports.{ToolCall, ToolResult, AssistantTurn, GuardVerdict}
use creance.Loop.{
  LoopStatus, completed, stuck, RunResult, AgentTool, Opts, State, signature, opening, result, said,
  answered, passed_on, find_tool, caught, run_tool, run_calls, after_turn, step_limit, loop,
  screened, run_on_session,
}
use creance.Loop.Conversation.{Answers, IsConversation, IsConversation-append, signature-ne-empty}
use creance.Loop.Trace.{Follows, Reports, Ports, Kept, newest, input_total, output_total}

module _ {E W : Type 0} (o : Opts E W) (P : List AssistantTurn → W → Type 0)
    (Screened : String → Type 0) (prompt : String) (ports : Ports o P Screened prompt) where
  open ports use {asks, screens, runs, tells}

  caught-Kept :
      (turns : List AssistantTurn) (r : Outcome String String × W)
      → P turns r.1
      → Kept o P Screened prompt turns (caught o r)
  unfolding caught
  caught-Kept turns (returned output, w) h = h
  caught-Kept turns (thrown message, w) h = h

  run_tool-Kept :
      (found : Option (AgentTool W)) (call : ToolCall) (turns : List AssistantTurn) (w : W)
      → find_tool o call.name ≡ found
      → P turns w
      → Kept o P Screened prompt turns (run_tool o found call w)
  unfolding run_tool
  run_tool-Kept none call turns w e h = h
  run_tool-Kept (some t) call turns w e h =
      caught-Kept turns (t.run call.input w) (runs call.name t call.input turns w e h)

  run_calls-Answers :
      (calls : List ToolCall) (turns : List AssistantTurn) (w : W)
      → P turns w
      → Ends (λ rs w'. P turns w' × Answers Screened calls rs) (λ _. P turns) (run_calls o calls w)
  unfolding run_calls
  run_calls-Answers [] turns w h = (h, tt)
  run_calls-Answers (c ∷ cs) turns w h =
      let Later : List ToolResult → W → Type 0 =
        λ rs w'. P turns w' × Answers Screened (c ∷ cs) rs in
      resume-Ends (λ _. P turns) Later (λ _. P turns) _ _
        (run_tool-Kept (find_tool o c.name) c turns w refl h)
        λ output w₁ h₁.
          resume-Ends (λ v w'. P turns w' × Screened (passed_on v output)) Later (λ _. P turns) _ _
            (screens output turns w₁ h₁)
            λ v w₂ h₂.
              resume-Ends (λ rs w'. P turns w' × Answers Screened cs rs) Later (λ _. P turns) _ _
                (run_calls-Answers cs turns w₂ h₂.0) λ rs w₃ h₃. (h₃.0, (refl, h₂.1, h₃.1))

  -- The variables of the loop against the turns taken.
  record Inv (st : State) (turns : List AssistantTurn) : Type 0 where
    talk : IsConversation Screened prompt st.messages
    input : st.input_tokens ≡ input_total turns
    output : st.output_tokens ≡ output_total turns
    calls : All (λ t. t.tool_calls ≢ []) turns
    sig : st.last_sig ≡ newest turns

  abbrev Finished : RunResult → W → Type 0
  Finished r w = (turns : List AssistantTurn) × P turns w × Reports o r turns

  abbrev Ended : E → W → Type 0
  Ended _ w = (turns : List AssistantTurn) × P turns w × (length turns ≤ step_limit o)

  abbrev Done : Outcome E RunResult × W → Type 0
  Done = Ends Finished Ended

  -- The state once a turn is taken in, before its calls are run.
  module _ (st : State) (t : AssistantTurn) (turns : List AssistantTurn) (inv : Inv st turns)
      (room : length turns + 1 ≤ step_limit o) where
    Reports-last :
        (status : LoopStatus)
        → Follows status t.text (step_limit o) (t ∷ turns)
        → Reports o (result o.run_id status t.text (said t st)) (t ∷ turns)
    unfolding result said
    Reports-last status follows = record {
      same_run = refl;
      usage = rw (inv.input, inv.output);
      bounded = omega arith;
      follows = follows;
    }

    stuck-Follows :
        signature t.tool_calls ≡ st.last_sig
        → t.tool_calls ≢ []
        → Follows stuck t.text (step_limit o) (t ∷ turns)
    stuck-Follows e some_call = go turns inv.sig inv.calls
      where
        go :
            (ts : List AssistantTurn)
            → st.last_sig ≡ newest ts
            → All (λ u. u.tool_calls ≢ []) ts
            → Follows stuck t.text (step_limit o) (t ∷ ts)
        go [] n all_call = absurd (signature-ne-empty t.tool_calls (e ∙ n))
        go (u ∷ older) n all_call = (e ∙ n, refl, (some_call, all_call))

    answered-Inv :
        (results : List ToolResult)
        → t.tool_calls ≢ []
        → Answers Screened t.tool_calls results
        → Inv (answered (signature t.tool_calls) results (said t st)) (t ∷ turns)
    unfolding answered said
    answered-Inv results some_call answers = record {
      talk =
          IsConversation-append Screened prompt st.messages t.text t.tool_calls results inv.talk
            some_call answers;
      input = rw inv.input;
      output = rw inv.output;
      calls = (some_call, inv.calls);
      sig = refl;
    }

    after_turn-Done :
        (calls : List ToolCall) (next : State → Action E W RunResult) (w : W)
        → t.tool_calls ≡ calls
        → P (t ∷ turns) w
        → ((st' : State) (w' : W) → Inv st' (t ∷ turns) → P (t ∷ turns) w' → Done (next st' w'))
        → Done (after_turn o calls t.text (said t st) next w)
    unfolding after_turn said
    after_turn-Done [] next w e h k = (t ∷ turns, h, Reports-last completed (e, refl, inv.calls))
    after_turn-Done (c ∷ cs) next w e h k =
        let some_call : t.tool_calls ≢ [] = λ z. cc in
        let rounds_left : length (t ∷ turns) ≤ step_limit o = omega arith in
        elim (Bool-cases (str_eq (signature (c ∷ cs)) st.last_sig)) [
          | inl same ↦ rw same (
            t ∷ turns,
            h,
            Reports-last stuck (stuck-Follows (ap signature e ∙ (eq_iff _ _).0 same) some_call),
          )
          | inr fresh ↦ rw fresh (
              resume-Ends (λ rs w'. P (t ∷ turns) w' × Answers Screened (c ∷ cs) rs) Finished Ended
                (λ results. next (answered (signature (c ∷ cs)) results (said t st)))
                (run_calls o (c ∷ cs) w)
                (Ends-weaken (λ rs w'. P (t ∷ turns) w' × Answers Screened (c ∷ cs) rs)
                  (λ _. P (t ∷ turns)) Ended _ (run_calls-Answers (c ∷ cs) (t ∷ turns) w h)
                  (λ _ w' p. (t ∷ turns, p, rounds_left)))
                λ rs w' a.
                  k (answered (signature (c ∷ cs)) rs (said t st)) w'
                    (subst (λ calls. Inv (answered (signature calls) rs (said t st)) (t ∷ turns)) e
                      (answered-Inv rs some_call
                        (subst (λ calls. Answers Screened calls rs) (sym e) a.1)))
                    a.0)
        ]

  loop-Done :
      (n : ℕ) (st : State) (turns : List AssistantTurn) (w : W)
      → Inv st turns
      → P turns w
      → length turns + n ≡ step_limit o
      → Done (loop o n st w)
  unfolding loop result said
  loop-Done zero st turns w inv h limit = (
    turns,
    h,
    record {
      same_run = refl;
      usage = rw (inv.input, inv.output);
      bounded = omega arith;
      follows = (omega arith, refl, inv.calls);
    },
  )
  loop-Done (suc n) st turns w inv h limit =
      let room : length turns + 1 ≤ step_limit o = omega arith in
      resume-Ends (λ t. P (t ∷ turns)) Finished Ended _ _
        (Ends-weaken (λ t. P (t ∷ turns)) (λ _. P turns) Ended _
          (asks st.messages turns w inv.talk h) (λ _ w' p. (turns, p, omega arith)))
        λ t w₁ h₁.
          resume-Ends (λ _. P (t ∷ turns)) Finished Ended _ _
            (Ends-weaken (λ _. P (t ∷ turns)) (λ _. P (t ∷ turns)) Ended _
              (tells (said t st).messages (t ∷ turns) w₁ h₁)
              (λ _ w' p. (t ∷ turns, p, omega arith)))
            λ _ w₂ h₂.
              after_turn-Done st t turns inv room t.tool_calls (loop o n) w₂ refl h₂
                λ st' w' inv' p. loop-Done n st' (t ∷ turns) w' inv' p (omega arith)

  screened-Done :
      (v : GuardVerdict) (w : W)
      → (v.blocked ≡ false → prompt ≡ opening o.system_prompt v.text)
      → P [] w
      → Done (screened o v w)
  unfolding screened result
  screened-Done v w same h = elim (Bool-cases v.blocked) [
    | inl stop ↦ rw stop (
      [],
      h,
      record { same_run = refl; usage = refl; bounded = omega arith; follows = (refl, refl) },
    )
    | inr go_on ↦ rw go_on (
        loop-Done (step_limit o) _ [] w
          (record {
            talk = (sym (same go_on), tt);
            input = refl;
            output = refl;
            calls = tt;
            sig = refl;
          })
          h (omega arith))
  ]

-- Once the guard has answered on the task, the run ends with a result that accounts for the turns
-- taken, or throws within the step limit. The model is only asked over well-formed conversations
-- that open with the guard's text, and every tool output in them passed the guard: `P` is any log
-- of the turns and the world that the ports keep under this promise.
pub run_on_session-Reports :
    {E W : Type 0} (o : Opts E W) (P : List AssistantTurn → W → Type 0) (Screened : String → Type 0)
    (v : GuardVerdict) (w w₁ : W)
    → o.screen o.task w ≡ (returned v, w₁)
    → Ports o P Screened (opening o.system_prompt v.text)
    → P [] w₁
    → Ends
        (λ r w'. (turns : List AssistantTurn) × P turns w' × Reports o r turns)
        (λ _ w'. (turns : List AssistantTurn) × P turns w' × (length turns ≤ step_limit o))
        (run_on_session o w)
unfolding run_on_session
run_on_session-Reports o P Screened v w w₁ e ports h =
    rw e (screened-Done o P Screened (opening o.system_prompt v.text) ports v w₁ (λ _. refl) h)
