-- ===== src/Ports.antt =====
-- packages/core/src/ports.ts: the neutral conversation types, and what the ports answer.
pub mod Json
pub mod Fields
use creance.Prelude.{ℕ, String, Bool, Option, List}
use creance.Ports.Json.{Json as Value}

pub record ToolCall : Type 0 where
  pub id : String
  pub name : String
  pub input : Value

pub record ToolResult : Type 0 where
  pub tool_call_id : String
  pub output : String

pub data Message : Type 0 where
  user : (text : String) → Message
  assistant : (text : Option String) (tool_calls : List ToolCall) → Message
  tool : (results : List ToolResult) → Message

pub record ToolDef : Type 0 where
  pub name : String
  pub description : String
  pub input_schema : Value

pub record TokenUsage : Type 0 where
  pub input_tokens : Option ℕ
  pub output_tokens : Option ℕ

pub record AssistantTurn : Type 0 where
  pub text : Option String
  pub tool_calls : List ToolCall
  pub usage : Option TokenUsage

pub record GuardVerdict : Type 0 where
  pub intervened : Bool
  pub blocked : Bool
  pub text : String
