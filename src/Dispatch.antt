-- ===== src/Dispatch.antt =====
-- services/agent-runtime/dispatch.ts: how a queued run is handed to what executes it. The ports act on
-- the world and on the stored runs, which others may change meanwhile.
pub mod Env
pub mod Table
pub mod Launches
pub mod Entries
pub mod Modes
mod Tests
use Prim.Native.String
use creance.Prelude.{
  ℕ, String, Bool, true, false, not, ◌&&◌, Option, none, some, List, [], ◌∷◌, map, str_eq, ltb,
  if◌then◌else◌,
}
use creance.Prelude.Dict.{Dict}
use creance.Prelude.Outcome.{Outcome, returned, thrown, Action, return, throw, ◌>>=◌}
use creance.Ports.Json.{Json, str, arr, obj, Items, nil, item, Fields, field, end, stringify}
use creance.Executor.Texts.{truthy}
use creance.Runs
use creance.Runs.{Run, RunStatus, AgentSpec, claude_code}
use creance.FrontDoor.{is_metered_by_runs}
use creance.Dispatch.Env.{Target, RunTaskConfig, AgentCoreConfig, AgentEngineConfig, ◌<>◌}

-- What `RunTaskCommand` is sent with: one Fargate task, and for each container its environment.
pub record Override : Type 0 where
  pub name : String
  pub environment : List (String × String)

pub record RunTask : Type 0 where
  pub cluster : String
  pub task_definition : String
  pub subnets : List String
  pub security_groups : List String
  pub assign_public_ip : Bool
  pub overrides : List Override

-- What `InvokeAgentRuntimeCommand` is sent with.
pub record Invocation : Type 0 where
  pub runtime_arn : String
  pub qualifier : Option String
  pub session_id : String
  pub payload : String

pub record Call : Type 0 where
  pub url : String
  pub post : Bool
  pub headers : Dict String
  pub body : Option String

-- `json` is `none` where the body is no JSON.
pub record HttpAnswer : Type 0 where
  pub ok : Bool
  pub status : ℕ
  pub text : String
  pub json : Option Json

unfoldable pub token_variable : Bool → Option String → List (String × String)
token_variable true (some token) = ("GITHUB_TOKEN", token) ∷ []
token_variable _ _ = []

-- The container's environment; the token reaches the executor's container only.
unfoldable pub override_of : Run → String → Option String → String → Override
unfolding token_variable
override_of run executor token name = record {
  name = name;
  environment = ("RUN_ID", run.id) ∷ token_variable (str_eq name executor) (truthy token);
}

unfoldable pub sidecars : Option String → List String
sidecars none = []
sidecars (some name) = if str_eq name "" then [] else name ∷ []

unfoldable pub overrides_of : Run → Option String → Target → List Override
unfolding override_of sidecars
overrides_of run token target =
    map (override_of run target.container token)
      (target.container ∷ sidecars target.sidecar_container)

unfoldable pub run_task_of : RunTaskConfig → Run → Option String → Target → RunTask
unfolding overrides_of
run_task_of config run token target = record {
  cluster = config.cluster;
  task_definition = target.task_definition;
  subnets = config.subnets;
  security_groups = config.security_groups;
  assign_public_ip = config.assign_public_ip;
  overrides = overrides_of run token target;
}

agent_text : Run → String
agent_text run = elim run.agent [ none ↦ "undefined" | some name ↦ name ]

target_for : RunTaskConfig → Run → Bool → Outcome String Target
unfolding agent_text
target_for config run false = returned (record {
  task_definition = config.task_definition;
  container = config.container;
  sidecar_container = none;
})
target_for config run true = elim config.claude_code [
  | none ↦ thrown (
      "agent '"
      <> agent_text run
      <> "' is kind=claude-code but ECS_CC_TASK_DEFINITION is not configured")
  | some target ↦ returned target
]

token_field : Option String → Fields
token_field none = end
token_field (some token) = if str_eq token "" then end else field "githubToken" (str token) end

-- `{ runId, ...(githubToken ? { githubToken } : {}) }`
unfoldable pub envelope : Run → Option String → Json
unfolding token_field
envelope run token = obj (field "runId" (str run.id) (token_field token))

unfoldable pub invocation_of : AgentCoreConfig → Run → Option String → Invocation
unfolding envelope stringify
invocation_of config run token = record {
  runtime_arn = config.runtime_arn;
  qualifier = truthy config.qualifier;
  session_id = run.id;
  payload = stringify (envelope run token);
}

-- The state, and a dispatch, whose own errors end in the stored run.
abbrev pub State : Type 0 → Type 0
State W = W × Dict Run

abbrev pub DispatchFn : Type 0 → Type 0
DispatchFn W = Run → Option String → State W → State W

pub record Ports (W : Type 0) : Type 0 where
  pub clock : W → String
  pub get_agent : String → Action String (State W) (Option AgentSpec)
  pub process : Option String → String → Action String (State W) Unit
  pub send_run_task : RunTask → Action String (State W) (Option Items)
  pub invoke : Invocation → Action String (State W) Unit
  pub fetch : Call → Action String (State W) HttpAnswer

module _ (W : Type 0) (p : Ports W) where
  unfoldable pub with_error : String → Run → Run
  with_error why run = record run {
    status = RunStatus.failed;
    error = some ("dispatch failed: " <> why);
  }

  -- `runStore.update(run.id, { status: "failed", error }).catch(() => {})`
  unfoldable pub fail_run : Run → String → State W → State W
  unfolding Runs.update with_error
  fail_run run why (w, runs) = (w, (Runs.update run.id (with_error why) (p.clock w) runs).1)

  -- The launch of a run; where it throws, the run is marked failed.
  unfoldable pub or_failed : Run → Outcome String Unit × State W → State W
  unfolding fail_run
  or_failed run (returned _, st) = st
  or_failed run (thrown why, st) = fail_run run why st

  unfoldable pub spec_of : Run → Action String (State W) (Option AgentSpec)
  spec_of run = elim (truthy run.agent) [ none ↦ return none | some name ↦ p.get_agent name ]

  abbrev pub settled : {A : Type 0} → Outcome String A → Action String (State W) A
  settled r st = (r, st)

  unfoldable pub in_process_dispatch : DispatchFn W
  in_process_dispatch run token st = (p.process token run.id st).1

  unfoldable pub no_failures : Option Items → Action String (State W) Unit
  unfolding stringify
  no_failures none = return tt
  no_failures (some nil) = return tt
  no_failures (some failures) = throw ("RunTask failures: " <> stringify (arr failures))

  unfoldable pub launch : RunTaskConfig → Run → Option String → Action String (State W) Unit
  unfolding spec_of target_for run_task_of no_failures
  launch config run token = (spec_of run) >>= (λ spec.
      (settled (target_for config run (is_metered_by_runs spec)))
      >>= (λ target. (p.send_run_task (run_task_of config run token target)) >>= no_failures))

  unfoldable pub run_task_dispatch : RunTaskConfig → DispatchFn W
  unfolding launch or_failed
  run_task_dispatch config run token st = or_failed run (launch config run token st)

  -- A claude-code run goes to the fallback, which marks its own failures.
  unfoldable pub invoke_or_fall_back :
      AgentCoreConfig
      → Option (DispatchFn W)
      → Run
      → Option String
      → Bool
      → Action String (State W) Unit
  unfolding invocation_of agent_text
  invoke_or_fall_back config fallback run token false = p.invoke (invocation_of config run token)
  invoke_or_fall_back config none run token true = throw (
      "agent '"
      <> agent_text run
      <> "' is kind=claude-code but no Fargate fallback is configured (ECS_CC_TASK_DEFINITION)")
  invoke_or_fall_back config (some fallback) run token true =
      λ st. (returned tt, fallback run token st)

  abbrev is_queued : RunStatus → Bool
  is_queued RunStatus.queued = true
  is_queued _ = false

  -- `!(current && current.status !== "queued")`
  abbrev pub is_unclaimed : Option Run → Bool
  is_unclaimed none = true
  is_unclaimed (some current) = is_queued current.status

  -- A lost response fails only a run that nobody has claimed.
  unfoldable pub or_lost : Run → Outcome String Unit × State W → State W
  or_lost run (returned _, st) = st
  or_lost run (thrown why, st) =
      if is_unclaimed (Runs.get run.id st.1) then fail_run run why st else st

  unfoldable pub agent_core_dispatch : AgentCoreConfig → Option (DispatchFn W) → DispatchFn W
  unfolding spec_of invoke_or_fall_back or_lost
  agent_core_dispatch config fallback run token st = or_lost run (
      (spec_of run
          >>= (λ spec. invoke_or_fall_back config fallback run token (is_metered_by_runs spec)))
        st)
