-- ===== src/Agents/Tests.antt =====
-- Specs that a caller writes, and a registry of one of them.
use creance.Prelude.{none, some, [], ◌∷◌, ◌≡◌, refl, arith}
use creance.Prelude.Int.{pos}
use creance.Prelude.Text.{utf16_length}
use creance.Ports.Json.{num, str, obj, end, field, integer}
use creance.Ports.Fields.{find, text_of, json_text}
use creance.Runs.{AgentSpec, sandboxed}
use creance.Agents.Spec.{
  valid, invalid, is_slug, all_texts, texts, checked, of_kind, of_name, validate_agent_spec,
}
use creance.Agents.RoundTrip.{
  IsSpec, json_of, validate_agent_spec-json_of, validate_agent_spec-IsSpec,
}

abbrev fixer : AgentSpec
fixer = record {
  name = "fix-it";
  tenant = some "acme";
  description = some "repairs";
  model = none;
  system_prompt = none;
  tools = some ("web" ∷ []);
  max_steps = some 50;
  command = some "run";
  kind = sandboxed;
}

fixer-IsSpec : IsSpec fixer
unfolding is_slug utf16_length
fixer-IsSpec = record {
  slug = refl;
  description_fits = omega arith;
  prompt_fits = tt;
  model_fits = tt;
  steps = (omega arith, omega arith);
  commands = refl;
}

checks : Unit {0}
unfolding find text_of json_text is_slug all_texts texts checked of_kind of_name validate_agent_spec
    utf16_length
checks = tt

refusals :
    (validate_agent_spec (str "x") ≡ invalid "body must be an AgentSpec object")
    × (validate_agent_spec (obj (field "name" (str "-x") end))
        ≡ invalid "invalid 'name' (lowercase slug, max 63 chars)")
    × (validate_agent_spec (obj (field "name" (str "x") (field "kind" (str "robot") end)))
        ≡ invalid "unknown 'kind' 'robot'")
    × (validate_agent_spec
          (obj (field "name" (str "x") (field "maxSteps" (num (integer (pos 51))) end)))
        ≡ invalid "invalid 'maxSteps' (integer 1-50)")
    × (validate_agent_spec (obj (field "name" (str "x") (field "command" (str "ls") end)))
        ≡ invalid "'command' is only valid for kind=sandboxed")
unfolding checks
refusals = (refl, refl, refl, refl, refl)

abbrev clean : AgentSpec
clean = record fixer { tenant = none }

validate_agent_spec-json_of_example : validate_agent_spec (json_of fixer) ≡ valid clean
validate_agent_spec-json_of_example = validate_agent_spec-json_of fixer fixer-IsSpec

reads_back : validate_agent_spec (json_of fixer) ≡ valid clean
reads_back = validate_agent_spec-json_of fixer fixer-IsSpec

validate_agent_spec-IsSpec_example : IsSpec clean × (clean.tenant ≡ none)
validate_agent_spec-IsSpec_example = validate_agent_spec-IsSpec (json_of fixer) clean reads_back
