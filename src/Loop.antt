-- ===== src/Loop.antt =====
-- The L1 agent loop (packages/core/src/loop.ts). The ports are outside code: calls on a world `W`
-- that return or throw. Spans and log lines pass on what they wrap, and are left out.
pub mod Conversation
pub mod Cost
pub mod Tools
pub mod Trace
pub mod Turns
mod Tests
use Prim.Native.String
use creance.Prelude.{
  ℕ, zero, suc, ◌+◌, String, Bool, true, false, Option, none, some, List, [], ◌∷◌, ◌++◌, map,
  str_eq, if◌then◌else◌,
}
use creance.Prelude.Dict.{Dict, lookup, insert}
use creance.Prelude.Outcome.{Outcome, returned, thrown, Action, ◌>>=◌, ◌>>◌, return}
use creance.Ports.{
  ToolCall, ToolResult, Message, user, assistant, tool, ToolDef, TokenUsage, AssistantTurn,
  GuardVerdict,
}
use creance.Ports.Json.{Json, str, arr, Items, nil, item, stringify}

pub data LoopStatus : Type 0 where
  completed blocked max_steps stuck : LoopStatus

pub record RunResult : Type 0 where
  pub run_id : String
  pub status : LoopStatus
  pub output : Option String
  pub usage : Option TokenUsage

-- A tool; what it throws is the text `e?.message ?? String(e)`.
pub record AgentTool (W : Type 0) : Type 0 where
  pub spec : ToolDef
  pub run : Json → Action String W String

-- `RunOnSessionOpts`, with the tools that `opts.tools(session)` gives and the fresh run id.
pub record Opts (E W : Type 0) : Type 0 where
  pub generate : List Message → List ToolDef → ℕ → Action E W AssistantTurn
  pub screen : String → Action E W GuardVerdict
  pub tools : List (AgentTool W)
  pub task : String
  pub system_prompt : Option String
  pub max_steps : Option ℕ
  pub max_output_tokens : Option ℕ
  pub on_progress : Option (List Message → Action E W (Unit {0}))
  pub run_id : String

-- The variables of the loop.
pub record State : Type 0 where
  pub messages : List Message
  pub last_sig : String
  pub input_tokens : ℕ
  pub output_tokens : ℕ

abbrev pub or_default {ℓ} : {A : Type ℓ} → Option A → A → A
or_default none d = d
or_default (some a) d = a

-- `turn.usage?.inputTokens ?? 0`
abbrev pub input_of : Option TokenUsage → ℕ
input_of none = 0
input_of (some u) = or_default u.input_tokens 0

abbrev pub output_of : Option TokenUsage → ℕ
output_of none = 0
output_of (some u) = or_default u.output_tokens 0

signature_items : List ToolCall → Items
signature_items [] = nil
signature_items (c ∷ cs) = item (arr (item (str c.name) (item c.input nil))) (signature_items cs)

-- `JSON.stringify(turn.toolCalls.map((c) => [c.name, c.input]))`
pub signature : List ToolCall → String
unfolding signature_items
signature calls = stringify (arr (signature_items calls))

-- `systemPrompt ? … : inputCheck.text`: the empty prompt counts as none.
pub opening : Option String → String → String
opening none text = text
opening (some prompt) text =
    if str_eq prompt "" then text else String.◌++◌ prompt (String.◌++◌ "\n\n" text)

pub result : String → LoopStatus → Option String → State → RunResult
result run_id status output st = record {
  run_id = run_id;
  status = status;
  output = output;
  usage =
      some (record { input_tokens = some st.input_tokens; output_tokens = some st.output_tokens });
}

-- The turn's usage and message are taken in.
pub said : AssistantTurn → State → State
said turn st = record {
  messages = st.messages ++ assistant turn.text turn.tool_calls ∷ [];
  last_sig = st.last_sig;
  input_tokens = st.input_tokens + input_of turn.usage;
  output_tokens = st.output_tokens + output_of turn.usage;
}

-- What the tools answered is taken in, with the signature of the calls.
pub answered : String → List ToolResult → State → State
answered sig results st = record st { messages = st.messages ++ tool results ∷ []; last_sig = sig }

-- The output that the conversation takes: the guard's text where it intervened.
abbrev pub passed_on : GuardVerdict → String → String
passed_on v output = if v.intervened then v.text else output

module _ {E W : Type 0} (o : Opts E W) where
  abbrev pub tool_defs : List ToolDef
  tool_defs = map (λ t. t.spec) o.tools

  -- `new Map(tools.map((t) => [t.spec.name, t]))`: of two tools with one name the later stays.
  by_name : List (AgentTool W) → Dict (AgentTool W) → Dict (AgentTool W)
  by_name [] m = m
  by_name (t ∷ ts) m = by_name ts (insert t.spec.name t m)

  pub find_tool : String → Option (AgentTool W)
  unfolding by_name lookup insert
  find_tool name = lookup name (by_name o.tools [])

  -- A tool that throws is feedback for the model.
  caught : Outcome String String × W → Outcome E String × W
  caught (returned output, w) = (returned output, w)
  caught (thrown message, w) = (returned (String.◌++◌ "error: " message), w)

  pub run_tool : Option (AgentTool W) → ToolCall → Action E W String
  unfolding caught
  run_tool none call w =
      (returned (String.◌++◌ "error: unknown tool \"" (String.◌++◌ call.name "\"")), w)
  run_tool (some t) call w = caught (t.run call.input w)

  pub run_calls : List ToolCall → Action E W (List ToolResult)
  unfolding run_tool find_tool
  run_calls [] = return []
  run_calls (call ∷ calls) = do
    output ← run_tool (find_tool call.name) call
    verdict ← o.screen output
    rest ← run_calls calls
    return (record { tool_call_id = call.id; output = passed_on verdict output } ∷ rest)

  unfoldable pub progress : List Message → Action E W (Unit {0})
  progress messages = elim o.on_progress [ none ↦ return tt | some f ↦ f messages ]

  -- The rest of a round, once the turn is in the conversation; `next` is the next round.
  pub after_turn :
      List ToolCall → Option String → State → (State → Action E W RunResult) → Action E W RunResult
  unfolding run_calls
  after_turn [] text st next = return (result o.run_id completed text st)
  after_turn (c ∷ cs) text st next =
      if str_eq (signature (c ∷ cs)) st.last_sig
      then return (result o.run_id stuck text st)
      else run_calls (c ∷ cs) >>= λ results. next (answered (signature (c ∷ cs)) results st)

  abbrev pub token_cap : ℕ
  token_cap = or_default o.max_output_tokens 4096

  abbrev pub step_limit : ℕ
  step_limit = or_default o.max_steps 20

  -- The `for` loop, with the rounds that are left.
  pub loop : ℕ → State → Action E W RunResult
  unfolding after_turn progress
  loop zero st = return (result o.run_id max_steps none st)
  loop (suc n) st = do
    turn ← o.generate st.messages tool_defs token_cap
    progress (said turn st).messages
    after_turn turn.tool_calls turn.text (said turn st) (loop n)

  abbrev pub start : String → State
  start text = record {
    messages = user text ∷ [];
    last_sig = "";
    input_tokens = 0;
    output_tokens = 0;
  }

  pub screened : GuardVerdict → Action E W RunResult
  unfolding loop
  screened v =
      if v.blocked
      then return (result o.run_id blocked none (start ""))
      else loop step_limit (start (opening o.system_prompt v.text))

  -- `runOnSession`
  pub run_on_session : Action E W RunResult
  unfolding screened
  run_on_session = o.screen o.task >>= screened
