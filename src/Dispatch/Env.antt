-- ===== src/Dispatch/Env.antt =====
-- The wiring that the dispatchers read of the environment (services/agent-runtime/dispatch.ts).
use Prim.Native.Char.{code}
use creance.Prelude.{
  ℕ, ◌+◌, String, Bool, true, false, ◌&&◌, Option, none, some, List, [], ◌∷◌, leb, ◌==◌, str_eq,
  if◌then◌else◌,
}
use creance.Prelude.Dict.{Dict, lookup}
pub use creance.Prelude.Text.{◌<>◌}
use creance.Prelude.Text.{split_on}
use creance.Prelude.Outcome.{Outcome, returned, thrown}
use creance.Executor.Texts.{truthy, trim}

pub record Target : Type 0 where
  pub task_definition : String
  pub container : String
  pub sidecar_container : Option String

pub record RunTaskConfig : Type 0 where
  pub cluster : String
  pub task_definition : String
  pub container : String
  pub subnets : List String
  pub security_groups : List String
  pub assign_public_ip : Bool
  pub region : Option String
  pub claude_code : Option Target

pub record AgentCoreConfig : Type 0 where
  pub runtime_arn : String
  pub qualifier : Option String
  pub region : Option String

pub record AgentEngineConfig : Type 0 where
  pub project : String
  pub location : String
  pub engine_id : String
  pub endpoint : Option String

abbrev pub and_then : {A B : Type 0} → Outcome String A → (A → Outcome String B) → Outcome String B
and_then (returned a) f = f a
and_then (thrown e) f = thrown e

-- `req(k)`: an empty variable counts as missing.
unfoldable pub require : String → Dict String → String → Outcome String String
unfolding lookup
require prefix env key = elim (truthy (lookup key env)) [
  | none ↦ thrown (prefix <> " requires " <> key)
  | some v ↦ returned v
]

unfoldable pub or_value : Option String → String → String
or_value none other = other
or_value (some v) other = v

-- `.map((s) => s.trim()).filter(Boolean)`
trimmed : List String → List String
unfolding trim
trimmed [] = []
trimmed (s ∷ more) = let rest = trimmed more in if str_eq (trim s) "" then rest else trim s ∷ rest

unfoldable pub words : String → List String
unfolding split_on trimmed
words s = trimmed (split_on 44 s)

abbrev lower : ℕ → ℕ
lower c = if leb 65 c && leb c 90 then c + 32 else c

-- `s.toLowerCase() === t`
is_in_lower_case : String → String → Bool
is_in_lower_case String.[] String.[] = true
is_in_lower_case (String.◌∷◌ c t) (String.◌∷◌ d s) =
    (lower (code d) == code c) && is_in_lower_case t s
is_in_lower_case _ _ = false

claude_code_target : Dict String → Option Target
unfolding or_value lookup
claude_code_target env = elim (truthy (lookup "ECS_CC_TASK_DEFINITION" env)) [
  | none ↦ none
  | some definition ↦ some (record {
    task_definition = definition;
    container = or_value (lookup "ECS_CC_CONTAINER_NAME" env) "claude-code-runner";
    sidecar_container = lookup "ECS_CC_SIDECAR_CONTAINER_NAME" env;
  })
]

unfoldable pub run_task_config_from_env : Dict String → Outcome String RunTaskConfig
unfolding require words or_value is_in_lower_case claude_code_target lookup
run_task_config_from_env env = and_then (require "DISPATCH=runtask" env "ECS_CLUSTER") λ cluster.
    and_then (require "DISPATCH=runtask" env "ECS_TASK_DEFINITION") λ definition.
      and_then (require "DISPATCH=runtask" env "ECS_SUBNETS") λ subnets.
        and_then (require "DISPATCH=runtask" env "ECS_SECURITY_GROUPS") λ groups. returned (record {
          cluster = cluster;
          task_definition = definition;
          container = or_value (lookup "ECS_CONTAINER_NAME" env) "agent-runtime-task";
          subnets = words subnets;
          security_groups = words groups;
          assign_public_ip =
              is_in_lower_case "true" (or_value (lookup "ECS_ASSIGN_PUBLIC_IP" env) "false");
          region = lookup "REGION" env;
          claude_code = claude_code_target env;
        })

unfoldable pub agent_core_config_from_env : Dict String → Outcome String AgentCoreConfig
unfolding require lookup
agent_core_config_from_env env =
    and_then (require "DISPATCH=agentcore" env "AGENTCORE_RUNTIME_ARN") λ arn. returned (record {
      runtime_arn = arn;
      qualifier = lookup "AGENTCORE_QUALIFIER" env;
      region = lookup "REGION" env;
    })

unfoldable pub agent_engine_config_from_env : Dict String → Outcome String AgentEngineConfig
unfolding require or_value lookup
agent_engine_config_from_env env =
    and_then (require "DISPATCH=agentengine" env "GCP_PROJECT") λ project.
      and_then (require "DISPATCH=agentengine" env "AGENT_ENGINE_ID") λ engine. returned (record {
        project = project;
        location = or_value (lookup "GCP_LOCATION" env) "europe-west2";
        engine_id = engine;
        endpoint = lookup "AGENT_ENGINE_ENDPOINT" env;
      })
