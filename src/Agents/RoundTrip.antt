-- ===== src/Agents/RoundTrip.antt =====
-- A spec written as JSON is read back as it was, and nothing else is accepted.
use creance.Prelude.{
  subst, if◌then◌else◌, ℕ, String, Bool, true, false, Option, none, some, List, [], ◌∷◌, ◌≡◌, refl,
  inl, inr, arith, ◌≤◌, Bool-cases, ap,
}
use creance.Prelude.Int.{pos}
use creance.Prelude.Text.{utf16_length}
use creance.Ports.Json.{Json, num, str, arr, obj, Items, nil, item, Fields, end, field, integer}
use creance.Ports.Fields.{find, optional, find-optional, find-field, find-end, or_else-none}
use creance.Runs.{AgentSpec, AgentKind, loop, sandboxed, claude_code, coder}
use creance.Agents.Spec.{
  Validation, valid, invalid, is_slug, slug_at, kind_at, bad_text, bad_steps, all_texts, bad_tools,
  is_sandboxed, bad_command, text_at, texts, tools_at, steps_at, clean_spec, checked, of_kind,
  of_name, validate_agent_spec, word_of,
}

abbrev pub Fits : ℕ → Option String → Type 0
Fits most none = Unit
Fits most (some s) = utf16_length s ≤ most

abbrev pub AreSteps : Option ℕ → Type 0
AreSteps none = Unit
AreSteps (some n) = (1 ≤ n) × (n ≤ 50)

abbrev pub IsCommand : AgentKind → Option String → Type 0
IsCommand kind none = Unit
IsCommand kind (some s) = is_sandboxed kind ≡ true

pub record IsSpec (s : AgentSpec) : Type 0 where
  pub slug : is_slug s.name ≡ true
  pub description_fits : Fits 280 s.description
  pub prompt_fits : Fits 8000 s.system_prompt
  pub model_fits : Fits 128 s.model
  pub steps : AreSteps s.max_steps
  pub commands : IsCommand s.kind s.command

abbrev text_json : Option String → Option Json
text_json none = none
text_json (some s) = some (str s)

items_of : List String → Items
items_of [] = nil
items_of (s ∷ more) = item (str s) (items_of more)

abbrev tools_json : Option (List String) → Option Json
tools_json none = none
tools_json (some ss) = some (arr (items_of ss))

abbrev steps_json : Option ℕ → Option Json
steps_json none = none
steps_json (some n) = some (num (integer (pos n)))

fields_of : AgentSpec → Fields
unfolding optional
fields_of s = field "name" (str s.name) (
    field "kind" (str (word_of s.kind)) (
      optional "description" (text_json s.description) (
        optional "model" (text_json s.model) (
          optional "systemPrompt" (text_json s.system_prompt) (
            optional "tools" (tools_json s.tools) (
              optional "maxSteps" (steps_json s.max_steps) (
                optional "command" (text_json s.command)
                  (optional "tenant" (text_json s.tenant) end))))))))

-- What `JSON.stringify` writes of a spec.
pub json_of : AgentSpec → Json
unfolding fields_of
json_of s = obj (fields_of s)

kind_at-word_of : (k : AgentKind) → kind_at (some (str (word_of k))) ≡ some k
kind_at-word_of loop = refl
kind_at-word_of sandboxed = refl
kind_at-word_of claude_code = refl
kind_at-word_of coder = refl

text_at-text_json : (t : Option String) → text_at (text_json t) ≡ t
text_at-text_json none = refl
text_at-text_json (some s) = refl

bad_text-text_json :
    (most : ℕ) (t : Option String) → Fits most t → bad_text most (text_json t) ≡ false
bad_text-text_json most none h = refl
bad_text-text_json most (some s) h = ground arith

steps_at-steps_json : (n : Option ℕ) → steps_at (steps_json n) ≡ n
steps_at-steps_json none = refl
steps_at-steps_json (some n) = refl

bad_steps-steps_json : (n : Option ℕ) → AreSteps n → bad_steps (steps_json n) ≡ false
bad_steps-steps_json none h = refl
bad_steps-steps_json (some n) (least, most) = ground arith

texts-items_of : (ss : List String) → texts (items_of ss) ≡ ss
unfolding texts items_of
texts-items_of [] = refl
texts-items_of (s ∷ ss) = ap (λ more. s ∷ more) (texts-items_of ss)

all_texts-items_of : (ss : List String) → all_texts (items_of ss) ≡ true
unfolding all_texts items_of
all_texts-items_of [] = refl
all_texts-items_of (s ∷ ss) = all_texts-items_of ss

tools_at-tools_json : (t : Option (List String)) → tools_at (tools_json t) ≡ t
tools_at-tools_json none = refl
tools_at-tools_json (some ss) = ap some (texts-items_of ss)

bad_tools-tools_json : (t : Option (List String)) → bad_tools (tools_json t) ≡ false
bad_tools-tools_json none = refl
bad_tools-tools_json (some ss) = rw all_texts-items_of refl

bad_command-text_json :
    (k : AgentKind) (t : Option String) → IsCommand k t → bad_command k (text_json t) ≡ false
bad_command-text_json k none h = refl
bad_command-text_json k (some s) h = rw h refl

slug_at-str : (s : String) → is_slug s ≡ true → slug_at (some (str s)) ≡ some s
slug_at-str s h = rw h refl

ruleset fields = (fields_of, find-field, find-optional, find-end, or_else-none)

checked-fields_of :
    (s : AgentSpec)
    → IsSpec s
    → checked s.name s.kind (fields_of s) ≡ valid (record s { tenant = none })
unfolding checked fields_of
checked-fields_of s h = simp (
  fields,
  checked,
  bad_text-text_json 280 s.description h.description_fits,
  bad_text-text_json 8000 s.system_prompt h.prompt_fits,
  bad_text-text_json 128 s.model h.model_fits,
  bad_steps-steps_json s.max_steps h.steps,
  bad_tools-tools_json,
  bad_command-text_json s.kind s.command h.commands,
  text_at-text_json,
  steps_at-steps_json,
  tools_at-tools_json,
)

find_name : (s : AgentSpec) → find "name" (fields_of s) ≡ some (str s.name)
unfolding fields_of
find_name s = simp fields

find_kind : (s : AgentSpec) → find "kind" (fields_of s) ≡ some (str (word_of s.kind))
unfolding fields_of
find_kind s = simp fields

-- A spec whose fields are within the schema's bounds is read back from its JSON as it was, but for
-- its tenant, which a caller cannot set.
pub validate_agent_spec-json_of :
    (s : AgentSpec)
    → IsSpec s
    → validate_agent_spec (json_of s) ≡ valid (record s { tenant = none })
unfolding validate_agent_spec of_name of_kind json_of
validate_agent_spec-json_of s h =
    rw (json_of, validate_agent_spec, find_name s, slug_at-str s.name h.slug, of_name, find_kind s)
      (rw (kind_at-word_of s.kind, of_kind) (checked-fields_of s h))

Sound : Validation → Type 0
Sound (valid s) = IsSpec s × (s.tenant ≡ none)
Sound (invalid why) = Unit

unless-Sound :
    (bad : Bool) (why : String) (rest : Validation)
    → (bad ≡ false → Sound rest)
    → Sound (if bad then invalid why else rest)
unfolding Sound
unless-Sound true why rest k = tt
unless-Sound false why rest k = k refl

Fits-of_text : (most : ℕ) (v : Option Json) → bad_text most v ≡ false → Fits most (text_at v)
Fits-of_text most none h = tt
Fits-of_text most (some (str s)) h = ground arith
Fits-of_text most (some _) h = tt

AreSteps-of_json : (v : Option Json) → bad_steps v ≡ false → AreSteps (steps_at v)
AreSteps-of_json none h = tt
AreSteps-of_json (some (num (integer (pos n)))) h = (ground arith, ground arith)
AreSteps-of_json (some _) h = tt

IsCommand-of_json :
    (k : AgentKind) (v : Option Json) → bad_command k v ≡ false → IsCommand k (text_at v)
IsCommand-of_json k none h = tt
IsCommand-of_json k (some (str s)) h = ground arith
IsCommand-of_json k (some _) h = tt

clean_spec-Sound :
    (name : String) (kind : AgentKind) (body : Fields)
    → is_slug name ≡ true
    → bad_text 280 (find "description" body) ≡ false
    → bad_text 8000 (find "systemPrompt" body) ≡ false
    → bad_text 128 (find "model" body) ≡ false
    → bad_steps (find "maxSteps" body) ≡ false
    → bad_command kind (find "command" body) ≡ false
    → Sound (valid (clean_spec name kind body))
unfolding Sound
clean_spec-Sound name kind body slug description prompt model steps command = (
  record {
    slug = slug;
    description_fits = Fits-of_text 280 _ description;
    prompt_fits = Fits-of_text 8000 _ prompt;
    model_fits = Fits-of_text 128 _ model;
    steps = AreSteps-of_json _ steps;
    commands = IsCommand-of_json kind _ command;
  },
  refl,
)

checked-Sound :
    (name : String) (kind : AgentKind) (body : Fields)
    → is_slug name ≡ true
    → Sound (checked name kind body)
unfolding checked
checked-Sound name kind body slug = unless-Sound _ _ _ λ description. unless-Sound _ _ _ λ prompt.
    unless-Sound _ _ _ λ model. unless-Sound _ _ _ λ steps.
      unless-Sound (bad_tools (find "tools" body)) _ _ λ tools.
        unless-Sound _ _ _
          λ command. clean_spec-Sound name kind body slug description prompt model steps command

of_kind-Sound :
    (name : String) (kind : Option AgentKind) (body : Fields)
    → is_slug name ≡ true
    → Sound (of_kind name kind body)
unfolding of_kind Sound
of_kind-Sound name none body slug = tt
of_kind-Sound name (some kind) body slug = checked-Sound name kind body slug

of_name-Sound : (v : Option Json) (body : Fields) → Sound (of_name (slug_at v) body)
unfolding of_name Sound
of_name-Sound (some (str s)) body = elim (Bool-cases (is_slug s)) [
  | inl slug ↦ rw slug (of_kind-Sound s _ body slug)
  | inr other ↦ rw other tt
]
of_name-Sound _ body = tt

validate_agent_spec-Sound : (j : Json) → Sound (validate_agent_spec j)
unfolding validate_agent_spec of_name Sound
validate_agent_spec-Sound (obj body) = of_name-Sound (find "name" body) body
validate_agent_spec-Sound _ = tt

-- What is accepted has a slug for its name, texts and steps within the schema's bounds, a command
-- only where it is sandboxed, and no tenant.
pub validate_agent_spec-IsSpec :
    (j : Json) (s : AgentSpec) → validate_agent_spec j ≡ valid s → IsSpec s × (s.tenant ≡ none)
unfolding Sound
validate_agent_spec-IsSpec j s e = subst Sound e (validate_agent_spec-Sound j)
