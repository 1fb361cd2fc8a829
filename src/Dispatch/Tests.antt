-- ===== src/Dispatch/Tests.antt =====
-- Dispatches of a run, by substrates that answer at once.
use creance.Prelude.{ℕ, suc, false, none, some, [], ◌∷◌, ◌≡◌, refl, All, map}
use creance.Prelude.Dict.{lookup, insert}
use creance.Prelude.Outcome.{returned, thrown}
use creance.Ports.Json.{nil, item, str, stringify, quote}
use creance.Runs
use creance.Runs.{Run, RunStatus, AgentSpec, claude_code, create}
use creance.Executor.Tests.{waiting}
use creance.FrontDoor
use creance.FrontDoor.Tests.{coder}
use creance.Dispatch.Env.{
  Target, RunTaskConfig, AgentCoreConfig, require, or_value, words, run_task_config_from_env,
}
use creance.Dispatch.{
  State, Ports, run_task_of, spec_of, no_failures, launch, or_failed, fail_run, with_error,
  run_task_dispatch, agent_core_dispatch, in_process_dispatch,
}
use creance.Dispatch.Table.{
  Dispatcher, keys_but, modes_of, fill, rows, table_of, dispatcher_of, from_mode,
}
use creance.Dispatch.Launches.{
  IsSettled, IsCared, IsFitted, AreContainers, invocation, run_task_dispatch-IsSettled,
  agent_core_dispatch-IsCared, run_task_of-IsFitted,
}
use creance.Dispatch.Modes.{IsHanded, from_mode-IsHanded}

-- ECS refuses every task, and the managed runtime every invocation.
abbrev ports : Ports ℕ
ports = record {
  clock = λ w. "2026-05-19";
  get_agent = λ name st. (returned (some coder), st);
  process = λ token id (w, runs). (returned tt, (suc w, runs));
  send_run_task = λ task st. (returned (some (item (str "no capacity") nil)), st);
  invoke = λ i st. (thrown "no route", st);
  fetch = λ call st. (thrown "offline", st);
}

abbrev config : RunTaskConfig
config = record {
  cluster = "c";
  task_definition = "loop:1";
  container = "loop";
  subnets = "s" ∷ [];
  security_groups = "g" ∷ [];
  assign_public_ip = false;
  region = none;
  claude_code =
      some
        (record { task_definition = "cc:1"; container = "cc"; sidecar_container = some "egress" });
}

abbrev managed : AgentCoreConfig
managed = record { runtime_arn = "arn"; qualifier = none; region = none }

abbrev target : Target
target = record { task_definition = "cc:1"; container = "cc"; sidecar_container = some "egress" }

abbrev stored : State ℕ
stored = (0, create waiting [])

-- The list of subnets is cut at commas and trimmed.
reads_subnets : words "a, b,,c " ≡ "a" ∷ "b" ∷ "c" ∷ []
unfolding words
reads_subnets = refl

missing : run_task_config_from_env [] ≡ thrown "DISPATCH=runtask requires ECS_CLUSTER"
unfolding run_task_config_from_env require lookup
missing = refl

-- The run of a refused task is stored as failed.
refused_task :
    (run_task_dispatch ℕ ports config waiting none stored).1
    ≡ (
      "r1",
      record waiting {
        status = RunStatus.failed;
        error = some "dispatch failed: RunTask failures: [\"no capacity\"]";
        updated_at = "2026-05-19";
      },
    )
      ∷ []
unfolding run_task_dispatch launch spec_of no_failures or_failed fail_run with_error create insert
    lookup Runs.update Runs.update_found stringify quote
refused_task = refl

run_task_dispatch-IsSettled_example :
    IsSettled ℕ ports config waiting
      (some "t")
      stored
      (run_task_dispatch ℕ ports config waiting (some "t") stored)
run_task_dispatch-IsSettled_example =
    run_task_dispatch-IsSettled ℕ ports config waiting (some "t") stored

agent_core_dispatch-IsCared_example :
    IsCared ℕ ports waiting
      (agent_core_dispatch ℕ ports managed none waiting none stored)
      (invocation ℕ ports managed none waiting none stored)
agent_core_dispatch-IsCared_example =
    agent_core_dispatch-IsCared ℕ ports managed none waiting none stored

run_task_of-IsFitted_example :
    AreContainers target
      (map (λ o. o.name) (run_task_of config waiting (some "t") target).overrides)
    × All
        (IsFitted waiting target (some "t"))
        (run_task_of config waiting (some "t") target).overrides
run_task_of-IsFitted_example = run_task_of-IsFitted config waiting (some "t") target

abbrev by_inprocess : Dispatcher ℕ
by_inprocess =
    dispatcher_of ℕ ports [] none "inprocess" (("inprocess", in_process_dispatch ℕ ports) ∷ [])

is_built : from_mode ℕ ports [] none "inprocess" ≡ returned by_inprocess
unfolding from_mode table_of rows fill dispatcher_of lookup
is_built = refl

admits : FrontDoor.unknown_mode (some "inprocess") by_inprocess.modes ≡ none
unfolding dispatcher_of modes_of keys_but
admits = refl

names_none : or_value waiting.dispatch "inprocess" ≡ "inprocess"
unfolding or_value
names_none = refl

from_mode-IsHanded_example : IsHanded ℕ ports [] none "inprocess" by_inprocess waiting stored
from_mode-IsHanded_example =
    from_mode-IsHanded ℕ ports [] none "inprocess" "inprocess" by_inprocess waiting stored is_built
      admits names_none
