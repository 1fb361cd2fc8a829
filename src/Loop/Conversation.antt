-- ===== src/Loop/Conversation.antt =====
-- The shape of a conversation that the loop shows the model.
use text.Mathlib.TextLemmas.{cons-append, nil≢cons}
use creance.Prelude.{String, Option, List, [], ◌∷◌, ◌++◌, ◌≡◌, ◌≢◌, sym, ◌∙◌}
use creance.Ports.{ToolCall, ToolResult, Message, user, assistant, tool}
use creance.Ports.Json.{stringify}
use creance.Loop.{signature, signature_items}

module _ (Screened : String → Type 0) where
  -- One result for each call, in order, under its id, with an output that passed the guard.
  abbrev pub Answers : List ToolCall → List ToolResult → Type 0
  Answers [] [] = Unit
  Answers (c ∷ cs) (r ∷ rs) = (r.tool_call_id ≡ c.id) × Screened r.output × Answers cs rs
  Answers _ _ = ⊥

  -- Rounds of an assistant that calls tools and of their answers.
  abbrev pub AreRounds : List Message → Type 0
  AreRounds [] = Unit
  AreRounds (assistant text calls ∷ tool results ∷ rest) =
      (calls ≢ []) × Answers calls results × AreRounds rest
  AreRounds _ = ⊥

  -- The opening prompt, then rounds.
  abbrev pub IsConversation : String → List Message → Type 0
  IsConversation prompt (user text ∷ rest) = (text ≡ prompt) × AreRounds rest
  IsConversation prompt _ = ⊥

  AreRounds-append :
      (rounds : List Message) (text : Option String) (calls : List ToolCall)
      (results : List ToolResult)
      → AreRounds rounds
      → calls ≢ []
      → Answers calls results
      → AreRounds ((rounds ++ assistant text calls ∷ []) ++ tool results ∷ [])
  AreRounds-append [] text calls results h some_call answers = (some_call, answers, tt)
  AreRounds-append (assistant t cs ∷ tool rs ∷ rest) text calls results h some_call answers =
      (h.0, h.1, AreRounds-append rest text calls results h.2 some_call answers)
  AreRounds-append (user t ∷ rest) text calls results h some_call answers = absurd h
  AreRounds-append (tool rs ∷ rest) text calls results h some_call answers = absurd h
  AreRounds-append (assistant t cs ∷ []) text calls results h some_call answers = absurd h
  AreRounds-append (assistant t cs ∷ user u ∷ rest) text calls results h some_call answers =
      absurd h
  AreRounds-append (assistant t cs ∷ assistant u ds ∷ rest) text calls results h some_call answers =
      absurd h

  pub IsConversation-append :
      (prompt : String) (messages : List Message) (text : Option String) (calls : List ToolCall)
      (results : List ToolResult)
      → IsConversation prompt messages
      → calls ≢ []
      → Answers calls results
      → IsConversation prompt ((messages ++ assistant text calls ∷ []) ++ tool results ∷ [])
  IsConversation-append prompt (user t ∷ rest) text calls results h some_call answers =
      (h.0, AreRounds-append rest text calls results h.1 some_call answers)
  IsConversation-append prompt [] text calls results h some_call answers = absurd h
  IsConversation-append prompt (assistant t cs ∷ rest) text calls results h some_call answers =
      absurd h
  IsConversation-append prompt (tool rs ∷ rest) text calls results h some_call answers = absurd h

-- A signature is never the empty text, with which the loop starts.
pub signature-ne-empty : (calls : List ToolCall) → signature calls ≢ ""
unfolding signature signature_items stringify
signature-ne-empty [] e = nil≢cons (sym e)
signature-ne-empty (c ∷ cs) e = nil≢cons (sym e ∙ cons-append _ _ _)
