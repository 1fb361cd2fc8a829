-- ===== src/Agents/Spec.antt =====
-- `validateAgentSpec` of services/agent-runtime/app.ts: the schema of an agent that a caller writes.
use Prim.Native.Char.{code}
use Prim.Native.String
use creance.Prelude.{
  ℕ, suc, String, Bool, true, false, not, ◌&&◌, ◌||◌, Option, none, some, List, [], ◌∷◌, ltb, leb,
  ◌==◌, str_eq, if◌then◌else◌,
}
use creance.Prelude.Int.{pos}
use creance.Prelude.Text.{utf16_length}
use creance.Ports.Json.{Json, null, num, str, arr, obj, Items, nil, item, Fields, end, integer}
use creance.Ports.Fields.{find, text_of}
use creance.Runs.{AgentSpec, AgentKind, loop, sandboxed, claude_code, coder}

-- The clean spec, which has no tenant, or why it is refused.
pub data Validation : Type 0 where
  valid : AgentSpec → Validation
  invalid : String → Validation

abbrev is_slug_start : ℕ → Bool
is_slug_start c = (leb 97 c && leb c 122) || (leb 48 c && leb c 57)

slug_rest : ℕ → String → Bool
slug_rest n String.[] = true
slug_rest ℕ.zero (String.◌∷◌ c s) = false
slug_rest (suc n) (String.◌∷◌ c s) = (is_slug_start (code c) || code c == 45) && slug_rest n s

-- `/^[a-z0-9][a-z0-9-]{0,62}$/`
unfoldable pub is_slug : String → Bool
unfolding slug_rest
is_slug String.[] = false
is_slug (String.◌∷◌ c s) = is_slug_start (code c) && slug_rest 62 s

abbrev pub slug_at : Option Json → Option String
slug_at (some (str s)) = if is_slug s then some s else none
slug_at _ = none

abbrev kind_named : String → Option AgentKind
kind_named s =
    if str_eq s "loop"
    then some loop
    else if str_eq s "sandboxed"
    then some sandboxed
    else if str_eq s "claude-code"
    then some claude_code
    else if str_eq s "coder"
    then some coder
    else none

abbrev pub word_of : AgentKind → String
word_of loop = "loop"
word_of sandboxed = "sandboxed"
word_of claude_code = "claude-code"
word_of coder = "coder"

-- `body.kind ?? "loop"`, where it is one of the kinds
abbrev pub kind_at : Option Json → Option AgentKind
kind_at none = some loop
kind_at (some null) = some loop
kind_at (some (str s)) = kind_named s
kind_at (some _) = none

-- The tests of the guards: the field is there and is not as it should be.
abbrev pub bad_text : ℕ → Option Json → Bool
bad_text most none = false
bad_text most (some null) = false
bad_text most (some (str s)) = ltb most (utf16_length s)
bad_text most (some _) = true

abbrev pub bad_steps : Option Json → Bool
bad_steps none = false
bad_steps (some null) = false
bad_steps (some (num (integer (pos n)))) = ltb n 1 || ltb 50 n
bad_steps (some _) = true

unfoldable pub all_texts : Items → Bool
all_texts nil = true
all_texts (item (str s) more) = all_texts more
all_texts (item _ more) = false

abbrev pub bad_tools : Option Json → Bool
bad_tools none = false
bad_tools (some null) = false
bad_tools (some (arr items)) = not (all_texts items)
bad_tools (some _) = true

abbrev pub is_sandboxed : AgentKind → Bool
is_sandboxed sandboxed = true
is_sandboxed _ = false

abbrev pub bad_command : AgentKind → Option Json → Bool
bad_command kind none = false
bad_command kind (some null) = false
bad_command kind (some (str s)) = not (is_sandboxed kind)
bad_command kind (some _) = true

-- The fields of the clean spec.
abbrev pub text_at : Option Json → Option String
text_at (some (str s)) = some s
text_at _ = none

unfoldable pub texts : Items → List String
texts nil = []
texts (item (str s) more) = s ∷ texts more
texts (item _ more) = texts more

abbrev pub tools_at : Option Json → Option (List String)
tools_at (some (arr items)) = some (texts items)
tools_at _ = none

abbrev pub steps_at : Option Json → Option ℕ
steps_at (some (num (integer (pos n)))) = some n
steps_at _ = none

abbrev pub clean_spec : String → AgentKind → Fields → AgentSpec
clean_spec name kind body = record {
  name = name;
  tenant = none;
  description = text_at (find "description" body);
  model = text_at (find "model" body);
  system_prompt = text_at (find "systemPrompt" body);
  tools = tools_at (find "tools" body);
  max_steps = steps_at (find "maxSteps" body);
  command = text_at (find "command" body);
  kind = kind;
}

-- The guards after that on the kind.
unfoldable pub checked : String → AgentKind → Fields → Validation
checked name kind body =
    if bad_text 280 (find "description" body)
    then invalid "invalid 'description' (string, max 280 chars)"
    else if bad_text 8000 (find "systemPrompt" body)
    then invalid "invalid 'systemPrompt' (string, max 8000 chars)"
    else if bad_text 128 (find "model" body)
    then invalid "invalid 'model'"
    else if bad_steps (find "maxSteps" body)
    then invalid "invalid 'maxSteps' (integer 1-50)"
    else if bad_tools (find "tools" body)
    then invalid "invalid 'tools' (array of strings)"
    else if bad_command kind (find "command" body)
    then invalid "'command' is only valid for kind=sandboxed"
    else valid (clean_spec name kind body)

unfoldable pub of_kind : String → Option AgentKind → Fields → Validation
unfolding checked
of_kind name (some kind) body = checked name kind body
of_kind name none body =
    invalid (String.◌++◌ "unknown 'kind' '" (String.◌++◌ (text_of (find "kind" body)) "'"))

unfoldable pub of_name : Option String → Fields → Validation
unfolding of_kind
of_name none body = invalid "invalid 'name' (lowercase slug, max 63 chars)"
of_name (some name) body = of_kind name (kind_at (find "kind" body)) body

-- An array is an object with no name.
unfoldable pub validate_agent_spec : Json → Validation
unfolding of_name
validate_agent_spec (obj body) = of_name (slug_at (find "name" body)) body
validate_agent_spec (arr items) = of_name none end
validate_agent_spec _ = invalid "body must be an AgentSpec object"
