-- ===== src/Admission.antt =====
-- `AdmissionInferenceProvider` (packages/core/src/adapters/admission-inference.ts): each turn is
-- priced at its worst case, reserved, run, and settled to what it cost.
pub mod Laws
mod Tests
use creance.Prelude.{
  ℕ, ◌+◌, ◌/◌, String, Bool, true, false, Option, none, some, List, [], ◌∷◌, if◌then◌else◌,
}
use creance.Prelude.Int.{ℤ, pos, ◌-ℤ◌}
use creance.Prelude.Text.{utf16_length}
use creance.Prelude.Outcome.{Outcome, returned, thrown}
use creance.Ports.{ToolCall, ToolResult, Message, user, assistant, tool, ToolDef, AssistantTurn}
use creance.Ports.Json.{stringify}
use creance.Gate.{SpendStore, BudgetStatus, BudgetScopes}
use creance.Gate.Price.{price_tokens, estimate_cost}
use creance.Gate.Local.{Config, reserve, settle}

-- What a call may throw: the budget's refusal, or an error with its name and message.
pub data Failure : Type 0 where
  budget_exceeded : BudgetStatus → Failure
  error : (name message : String) → Failure

unfoldable pub text_chars : Option String → ℕ
unfolding utf16_length
text_chars none = 0
text_chars (some t) = utf16_length t

unfoldable pub call_chars : List ToolCall → ℕ
unfolding utf16_length
call_chars [] = 0
call_chars (c ∷ cs) = utf16_length c.name + utf16_length (stringify c.input) + call_chars cs

unfoldable pub result_chars : List ToolResult → ℕ
unfolding utf16_length
result_chars [] = 0
result_chars (r ∷ rs) = utf16_length r.output + result_chars rs

unfoldable pub message_chars : Message → ℕ
unfolding text_chars call_chars result_chars
message_chars (user text) = utf16_length text
message_chars (assistant text calls) = text_chars text + call_chars calls
message_chars (tool results) = result_chars results

unfoldable pub messages_chars : List Message → ℕ
unfolding message_chars
messages_chars [] = 0
messages_chars (m ∷ ms) = message_chars m + messages_chars ms

unfoldable pub tool_chars : List ToolDef → ℕ
unfolding utf16_length
tool_chars [] = 0
tool_chars (t ∷ ts) =
    utf16_length t.name
    + utf16_length t.description
    + utf16_length (stringify t.input_schema)
    + tool_chars ts

-- `Math.ceil(chars / 4)`
unfoldable pub estimate_input_tokens : List Message → List ToolDef → ℕ
unfolding messages_chars tool_chars
estimate_input_tokens messages tools = (messages_chars messages + tool_chars tools + 3) / 4

-- The worst case in units of 1e-8 USD.
unfoldable pub worst_case : String → List Message → List ToolDef → ℕ → ℤ
worst_case model messages tools max_tokens =
    pos (price_tokens model (estimate_input_tokens messages tools) max_tokens)

-- The wrapped provider is outside code: it may change the world `W`, and others may use the gate
-- while it is awaited.
module _ (S : SpendStore) (W : Type 0) where
  open S use {Store}

  abbrev pub Generate : Type 0
  Generate =
      List Message → List ToolDef → ℕ → W × Store → Outcome Failure AssistantTurn × (W × Store)

  -- The fields that the constructor sets.
  pub record Admission : Type 0 where
    pub inner : Generate
    pub model : String
    pub gate : Config
    pub tenant : String
    pub scope_id : Option String

  abbrev pub scopes_of : Admission → BudgetScopes
  scopes_of a = record { session_id = a.scope_id }

  -- The rest of `generate` once the wrapped call has ended.
  pub settled :
      Admission
      → String
      → ℤ
      → Outcome Failure AssistantTurn × (W × Store)
      → Outcome Failure AssistantTurn × (W × Store)
  settled a later worst (returned turn, (w, s)) =
      let actual = pos (estimate_cost a.model turn.usage) in
      (returned turn, (w, settle S a.gate later a.tenant (actual -ℤ worst) (scopes_of a) s))
  settled a later worst (thrown e, (w, s)) =
      (thrown e, (w, settle S a.gate later a.tenant (pos 0 -ℤ worst) (scopes_of a) s))

  pub reserved :
      Admission
      → String
      → ℤ
      → List Message
      → List ToolDef
      → ℕ
      → W
      → BudgetStatus × Store
      → Outcome Failure AssistantTurn × (W × Store)
  unfolding settled
  reserved a later worst messages tools max_tokens w (reservation, s) =
      if reservation.ok
      then settled a later worst (a.inner messages tools max_tokens (w, s))
      else (thrown (budget_exceeded reservation), (w, s))

  -- The gate reads the clock at the reservation, `now`, and again at the settlement, `later`.
  pub generate : Admission → String → String → Generate
  unfolding reserved
  generate a now later messages tools max_tokens (w, s) =
      let worst = worst_case a.model messages tools max_tokens in
      reserved a later worst messages tools max_tokens w
        (reserve S a.gate now a.tenant worst (scopes_of a) s)
