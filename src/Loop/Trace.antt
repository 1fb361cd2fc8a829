-- ===== src/Loop/Trace.antt =====
-- The loop against a description of the run: which turns it took, and how its result follows.
use creance.Prelude.{ℕ, ◌+◌, ◌≤◌, String, Option, none, some, List, [], ◌∷◌, ◌≡◌, ◌≢◌, length, All}
use creance.Prelude.Outcome.{Outcome, Ends}
use creance.Ports.{Message, AssistantTurn}
use creance.Ports.Json.{Json}
use creance.Loop.{
  LoopStatus, completed, blocked, max_steps, stuck, RunResult, AgentTool, Opts, input_of, output_of,
  signature, passed_on, tool_defs, find_tool, progress, token_cap, step_limit,
}
use creance.Loop.Conversation.{IsConversation}

abbrev pub input_total : List AssistantTurn → ℕ
input_total [] = 0
input_total (t ∷ ts) = input_total ts + input_of t.usage

abbrev pub output_total : List AssistantTurn → ℕ
output_total [] = 0
output_total (t ∷ ts) = output_total ts + output_of t.usage

-- How the result follows from the turns taken, the newest first, under a limit on steps.
abbrev pub Follows : LoopStatus → Option String → ℕ → List AssistantTurn → Type 0
Follows blocked output limit turns = (turns ≡ []) × (output ≡ none)
Follows completed output limit (t ∷ older) =
    (t.tool_calls ≡ []) × (output ≡ t.text) × All (λ u. u.tool_calls ≢ []) older
Follows stuck output limit (t ∷ u ∷ older) =
    (signature t.tool_calls ≡ signature u.tool_calls)
    × (output ≡ t.text)
    × All (λ v. v.tool_calls ≢ []) (t ∷ u ∷ older)
Follows max_steps output limit turns =
    (length turns ≡ limit) × (output ≡ none) × All (λ v. v.tool_calls ≢ []) turns
Follows _ _ _ _ = ⊥

abbrev pub newest : List AssistantTurn → String
newest [] = ""
newest (t ∷ ts) = signature t.tool_calls

module _ {E W : Type 0} (o : Opts E W) where
  -- The result reports the run's id and the sum of the turns' usage, and follows from them.
  pub record Reports (r : RunResult) (turns : List AssistantTurn) : Type 0 where
    pub same_run : r.run_id ≡ o.run_id
    pub usage :
        r.usage
        ≡ some (record {
          input_tokens = some (input_total turns);
          output_tokens = some (output_total turns);
        })
    pub bounded : length turns ≤ step_limit o
    pub follows : Follows r.status r.output (step_limit o) turns

  module _ (P : List AssistantTurn → W → Type 0) (Screened : String → Type 0)
      (prompt : String) where
    abbrev pub Kept : List AssistantTurn → {A : Type 0} → Outcome E A × W → Type 0
    Kept turns r = Ends (λ _. P turns) (λ _. P turns) r

    -- What each port does to the world and to the log `P` of the turns taken so far. The model is
    -- only asked to go on from a conversation that is well formed and whose outputs are screened.
    pub record Ports : Type 0 where
      pub asks :
          (ms : List Message) (turns : List AssistantTurn) (w : W)
          → IsConversation Screened prompt ms
          → P turns w
          → Ends (λ t. P (t ∷ turns)) (λ _. P turns) (o.generate ms (tool_defs o) (token_cap o) w)
      pub screens :
          (text : String) (turns : List AssistantTurn) (w : W)
          → P turns w
          → Ends (λ v w'. P turns w' × Screened (passed_on v text)) (λ _. P turns) (o.screen text w)
      pub runs :
          (name : String) (t : AgentTool W) (input : Json) (turns : List AssistantTurn) (w : W)
          → find_tool o name ≡ some t
          → P turns w
          → P turns (t.run input w).1
      pub tells :
          (ms : List Message) (turns : List AssistantTurn) (w : W)
          → P turns w
          → Kept turns (progress o ms w)
