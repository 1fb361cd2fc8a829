-- ===== src/Gateway/Body.antt =====
-- The Anthropic body of a call (services/inference-gateway/messages.ts): its translation for Bedrock and
-- the estimate of its input.
use creance.Prelude.{ℕ, ◌+◌, ◌/◌, String, Option, none, some, str_eq, if◌then◌else◌}
use creance.Prelude.Text.{utf16_length}
use creance.Ports.Json.{Json, null, str, arr, obj, Items, nil, item, Fields, end, field, stringify}
use creance.Ports.Fields.{member}

-- `{ [key]: _, ...rest } = fields`, or `delete fields[key]`
unfoldable pub without : String → Fields → Fields
without key end = end
without key (field at v rest) =
    let more = without key rest in if str_eq at key then more else field at v more

-- `out[key] = v`
unfoldable pub set : String → Json → Fields → Fields
set key v end = field key v end
set key v (field at old rest) =
    let more = set key v rest in if str_eq at key then field at v rest else field at old more

-- A tool without the field that Bedrock rejects; null cannot be taken apart. (The spread of a text or
-- of a list, by its indexes, is left out: they stay as they are.)
scrub_tool : Json → Option Json
unfolding without
scrub_tool null = none
scrub_tool (obj fields) = some (obj (without "eager_input_streaming" fields))
scrub_tool (str s) = some (str s)
scrub_tool (arr items) = some (arr items)
scrub_tool _ = some (obj end)

put_before : Option Json → Option Items → Option Items
put_before (some v) (some more) = some (item v more)
put_before _ _ = none

scrub_tools : Items → Option Items
unfolding scrub_tool put_before
scrub_tools nil = some nil
scrub_tools (item v more) = put_before (scrub_tool v) (scrub_tools more)

with_tools : Fields → Option Items → Option Json
unfolding set
with_tools out none = none
with_tools out (some tools) = some (obj (set "tools" (arr tools) out))

with_scrubbed : Fields → Option Json → Option Json
unfolding scrub_tools with_tools
with_scrubbed out (some (arr tools)) = with_tools out (scrub_tools tools)
with_scrubbed out _ = some (obj out)

fields_of : Json → Fields
fields_of (obj fields) = fields
fields_of _ = end

-- `none` where it throws.
unfoldable pub to_bedrock_body : Json → Option Json
unfolding with_scrubbed without set fields_of member
to_bedrock_body body =
    let rest = without "model" (without "stream" (without "metadata" (fields_of body))) in
    let versioned = set "anthropic_version" (str "bedrock-2023-05-31") rest in
    let out = without "output_config" (without "context_management" versioned) in
    with_scrubbed out (member "tools" (obj out))

chars : Option Json → ℕ
unfolding utf16_length
chars none = 0
chars (some null) = 0
chars (some v) = utf16_length (stringify v)

-- `Math.ceil(chars / 4)`
unfoldable pub estimate_anthropic_input_tokens : Json → ℕ
unfolding chars member
estimate_anthropic_input_tokens body =
    (chars (member "system" body)
      + chars (member "messages" body)
      + chars (member "tools" body)
      + 3)
    / 4
