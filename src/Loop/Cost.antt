-- ===== src/Loop/Cost.antt =====
-- What a run may cost, by its limit on steps.
use creance.Prelude.{ℕ, ◌+◌, ◌*◌, ◌≤◌, String, some, List, ◌∷◌, ◌≡◌, refl, arith, length}
use creance.Prelude.Outcome.{Outcome, returned, thrown, Ends, world_of_Ends, Ends-of_world}
use creance.Ports.{Message, AssistantTurn, GuardVerdict}
use creance.Ports.Json.{Json}
use creance.Loop.{
  AgentTool, Opts, tool_defs, find_tool, progress, token_cap, step_limit, run_on_session,
}
use creance.Loop.Trace.{Ports}
use creance.Loop.Turns.{run_on_session-Reports}

-- A run raises a measure of the world by at most the step limit times what one turn of the model
-- raises it, where a call of the model that throws raises it by nothing, and no other port does;
-- also where the run throws.
pub run_on_session_cost :
    {E W : Type 0} (o : Opts E W) (cost : W → ℕ) (k : ℕ) (w : W)
    → ((ms : List Message) (w : W)
        → Ends
            (λ _ w'. cost w' ≤ cost w + k)
            (λ _ w'. cost w' ≤ cost w)
            (o.generate ms (tool_defs o) (token_cap o) w))
    → ((text : String) (w : W) → cost (o.screen text w).1 ≤ cost w)
    → ((name : String) (t : AgentTool W) (input : Json) (w : W)
        → find_tool o name ≡ some t
        → cost (t.run input w).1 ≤ cost w)
    → ((ms : List Message) (w : W) → cost (progress o ms w).1 ≤ cost w)
    → cost (run_on_session o w).1 ≤ cost w + step_limit o * k
unfolding run_on_session
run_on_session_cost {E} {W} o cost k w asks screens runs tells =
    whole (o.screen o.task w) refl (screens o.task w)
  where
    P : List AssistantTurn → W → Type 0
    P turns w' = cost w' ≤ cost w + length turns * k

    Bound : W → Type 0
    Bound w' = cost w' ≤ cost w + step_limit o * k

    within :
        (turns : List AssistantTurn) (w' : W) → P turns w' → length turns ≤ step_limit o → Bound w'
    within turns w' h less = grind arith

    asked :
        (turns : List AssistantTurn) (w' : W) (r : Outcome E AssistantTurn × W)
        → Ends (λ _ w''. cost w'' ≤ cost w' + k) (λ _ w''. cost w'' ≤ cost w') r
        → P turns w'
        → Ends (λ t. P (t ∷ turns)) (λ _. P turns) r
    asked turns w' (returned t, w'') h p = grind arith
    asked turns w' (thrown e, w'') h p = omega arith

    guarded :
        (text : String) (turns : List AssistantTurn) (r : Outcome E GuardVerdict × W)
        → P turns r.1
        → Ends (λ v w'. P turns w' × Unit {0}) (λ _. P turns) r
    guarded text turns (returned v, w') h = (h, tt)
    guarded text turns (thrown e, w') h = h

    ports : (prompt : String) → Ports o P (λ _. Unit) prompt
    ports prompt = record {
      asks = λ ms turns w' talk p. asked turns w' _ (asks ms w') p;
      screens = λ text turns w' p.
          let less = screens text w' in
          guarded text turns (o.screen text w') (omega (arith, p, less));
      runs =
          λ name t input turns w' e p. let less = runs name t input w' e in omega (arith, p, less);
      tells = λ ms turns w' p.
          let less = tells ms w' in
          Ends-of_world (P turns) (progress o ms w') (omega (arith, p, less));
    }

    whole :
        (r : Outcome E GuardVerdict × W)
        → o.screen o.task w ≡ r
        → cost r.1 ≤ cost w
        → Bound (run_on_session o w).1
    whole (returned v, w₁) e less =
        world_of_Ends _ _ Bound (run_on_session o w)
          (run_on_session-Reports o P (λ _. Unit) v w w₁ e (ports _) (omega arith))
          (λ _ w' h. within h.0 w' h.1 h.2.bounded) (λ _ w' h. within h.0 w' h.1 h.2)
    whole (thrown err, w₁) e less = rw e (omega arith)
