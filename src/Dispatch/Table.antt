-- ===== src/Dispatch/Table.antt =====
-- `agentEngineDispatch` and `dispatchFromEnv` (services/agent-runtime/dispatch.ts): the substrates that
-- the environment wires, and the dispatch of a run to the one that it names.
use creance.Prelude.{
  String, Bool, true, false, ◌&&◌, ◌||◌, Option, none, some, List, [], ◌∷◌, ◌++◌, str_eq,
  if◌then◌else◌,
}
use creance.Prelude.Dict.{Dict, lookup}
use creance.Prelude.Outcome.{Outcome, returned, thrown, Action, return, throw, ◌>>=◌}
use creance.Ports.Json.{obj, field, end, stringify, number_text, integer}
use creance.Ports.Fields.{member, text_of}
use creance.Prelude.Int.{pos}
use creance.Executor.Texts.{truthy}
use creance.Runs.{Run, AgentSpec}
use creance.FrontDoor.{has}
use creance.Executor.{is_kind_coder}
use creance.Dispatch.Env.{
  AgentEngineConfig, ◌<>◌, and_then, or_value, run_task_config_from_env, agent_core_config_from_env,
  agent_engine_config_from_env,
}
use creance.Dispatch.{
  Call, HttpAnswer, State, DispatchFn, Ports, envelope, fail_run, or_failed, spec_of,
  in_process_dispatch, run_task_dispatch, agent_core_dispatch,
}

metadata_call : Call
metadata_call = record {
  url =
      "http://metadata.google.internal/computeMetadata/v1/instance/service-accounts/default/token";
  post = false;
  headers = ("Metadata-Flavor", "Google") ∷ [];
  body = none;
}

query_url : AgentEngineConfig → String
unfolding or_value
query_url config =
    or_value config.endpoint ("https://" <> config.location <> "-aiplatform.googleapis.com/v1")
    <> "/projects/"
    <> config.project
    <> "/locations/"
    <> config.location
    <> "/reasoningEngines/"
    <> config.engine_id
    <> ":query"

query_call : AgentEngineConfig → Run → Option String → String → Call
unfolding query_url envelope stringify
query_call config run github token = record {
  url = query_url config;
  post = true;
  headers = ("authorization", "Bearer " <> token) ∷ ("content-type", "application/json") ∷ [];
  body = some (stringify (obj (field "input" (envelope run github) end)));
}

status_text : HttpAnswer → String
status_text answer = number_text (integer (pos answer.status))

unfoldable pub is_wired : Option String → Bool
is_wired v = elim (truthy v) [ none ↦ false | some _ ↦ true ]

-- The answer to a substrate of the table: its word, and its dispatch.
abbrev pub Table : Type 0 → Type 0
Table W = Dict (DispatchFn W)

pub record Dispatcher (W : Type 0) : Type 0 where
  pub default_mode : String
  pub modes : List String
  pub dispatch : Run → State W → State W

unfoldable pub keys_but : {W : Type 0} → String → Table W → List String
keys_but mode [] = []
keys_but mode ((at, impl) ∷ rest) =
    let more = keys_but mode rest in if str_eq at mode then more else at ∷ more

-- `[defaultMode, ...[...table.keys()].filter((m) => m !== defaultMode)]`
unfoldable pub modes_of : {W : Type 0} → String → Table W → List String
unfolding keys_but
modes_of mode table = mode ∷ keys_but mode table

-- The next entry of the table, where its condition holds; a wiring that is incomplete is an error.
abbrev pub entry_if :
    {W : Type 0}
    → Bool
    → String
    → Outcome String (DispatchFn W)
    → Table W
    → Outcome String (Table W)
entry_if false mode impl rest = returned rest
entry_if true mode (returned impl) rest = returned (rest ++ ((mode, impl) ∷ []))
entry_if true mode (thrown e) rest = thrown e

abbrev pub Row : Type 0 → Type 0
Row W = Bool × (String × Outcome String (DispatchFn W))

unfoldable pub fill : {W : Type 0} → List (Row W) → Table W → Outcome String (Table W)
fill [] table = returned table
fill ((wired, (mode, impl)) ∷ more) table = and_then (entry_if wired mode impl table) (fill more)

abbrev pub all_modes : List String
all_modes = "inprocess" ∷ "runtask" ∷ "agentcore" ∷ "agentengine" ∷ []

abbrev mode_text : Option String → String
mode_text none = "undefined"
mode_text (some mode) = mode

-- The repository of a coder's run.
abbrev pub coder_repo : Run → Option AgentSpec → Option String
coder_repo run spec = if is_kind_coder spec then truthy run.repo else none

-- The environment, and the GitHub App's minting of a token for a repository, where it is wired.
module _ (W : Type 0) (p : Ports W) (env : Dict String)
    (mint : Option (String → Action String (State W) String)) where
  token_of : HttpAnswer → Action String (State W) String
  unfolding text_of member
  token_of answer = elim answer.json [
    | none ↦ throw "invalid JSON"
    | some body ↦ return (text_of (member "access_token" body))
  ]

  metadata_token : HttpAnswer → Action String (State W) String
  unfolding token_of status_text
  metadata_token answer =
      if answer.ok
      then token_of answer
      else throw ("GCP metadata token fetch failed: " <> status_text answer)

  unfoldable pub gcp_access_token : Action String (State W) String
  unfolding lookup metadata_call metadata_token
  gcp_access_token = elim (truthy (lookup "GCP_ACCESS_TOKEN" env)) [
    | some token ↦ return token
    | none ↦ p.fetch metadata_call >>= metadata_token
  ]

  queried : HttpAnswer → Action String (State W) Unit
  unfolding status_text
  queried answer =
      if answer.ok
      then return tt
      else throw ("reasoningEngine :query " <> status_text answer <> ": " <> answer.text)

  unfoldable pub query : AgentEngineConfig → Run → Option String → Action String (State W) Unit
  unfolding gcp_access_token query_call queried
  query config run github =
      gcp_access_token >>= (λ token. p.fetch (query_call config run github token) >>= queried)

  unfoldable pub agent_engine_dispatch : AgentEngineConfig → DispatchFn W
  unfolding query or_failed
  agent_engine_dispatch config run github st = or_failed W p run (query config run github st)

  unfoldable pub get_run_task : Outcome String (DispatchFn W)
  unfolding run_task_config_from_env run_task_dispatch
  get_run_task =
      and_then (run_task_config_from_env env) λ config. returned (run_task_dispatch W p config)

  -- The lane of claude-code runs is the RunTask wiring, where it has a task for them.
  unfoldable pub fallback : Outcome String (Option (DispatchFn W))
  unfolding is_wired lookup get_run_task
  fallback =
      if is_wired (lookup "ECS_CC_TASK_DEFINITION" env)
      then (and_then get_run_task λ impl. returned (some impl))
      else returned none

  unfoldable pub get_agent_core : Outcome String (DispatchFn W)
  unfolding fallback agent_core_config_from_env agent_core_dispatch
  get_agent_core = and_then fallback λ lane.
      and_then (agent_core_config_from_env env)
        λ config. returned (agent_core_dispatch W p config lane)

  unfoldable pub get_agent_engine : Outcome String (DispatchFn W)
  unfolding agent_engine_config_from_env agent_engine_dispatch
  get_agent_engine =
      and_then (agent_engine_config_from_env env) λ config. returned (agent_engine_dispatch config)

  -- The substrates in their order, each with the condition under which it is entered.
  unfoldable pub rows : String → List (Row W)
  unfolding get_run_task get_agent_core get_agent_engine is_wired lookup in_process_dispatch
  rows mode =
      (str_eq mode "inprocess", ("inprocess", returned (in_process_dispatch W p)))
      ∷ (
        str_eq mode "runtask" || is_wired (lookup "ECS_TASK_DEFINITION" env),
        ("runtask", get_run_task),
      )
      ∷ (
        str_eq mode "agentcore" || is_wired (lookup "AGENTCORE_RUNTIME_ARN" env),
        ("agentcore", get_agent_core),
      )
      ∷ (
        str_eq mode "agentengine"
            || (is_wired (lookup "AGENT_ENGINE_ID" env) && is_wired (lookup "GCP_PROJECT" env)),
        ("agentengine", get_agent_engine),
      )
      ∷ []

  unfoldable pub table_of : String → Outcome String (Table W)
  unfolding rows fill
  table_of mode = fill (rows mode) []

  unfoldable pub minted : Run → Option AgentSpec → Action String (State W) (Option String)
  minted run spec = elim (coder_repo run spec) [
    | none ↦ return none
    | some repo ↦ elim mint [
      | none ↦ throw (
          "coder run targets " <> repo
          <> " but the GitHub App is not wired (GITHUB_APP_ID/_INSTALLATION_ID/_PRIVATE_KEY[_PARAM])")
      | some token_for ↦ token_for repo >>= (λ token. return (some token))
    ]
  ]

  -- The run goes to its substrate with what was minted, or is marked failed.
  unfoldable pub handed : Run → DispatchFn W → Outcome String (Option String) × State W → State W
  unfolding fail_run
  handed run impl (returned token, st) = impl run token st
  handed run impl (thrown why, st) = fail_run W p run why st

  unfoldable pub prepare : Run → Action String (State W) (Option String)
  unfolding spec_of minted
  prepare run = spec_of W p run >>= minted run

  unfoldable pub dispatch_to : Run → Option (DispatchFn W) → State W → State W
  unfolding handed prepare fail_run
  dispatch_to run none st =
      fail_run W p run ("substrate '" <> mode_text run.dispatch <> "' not available") st
  dispatch_to run (some impl) st = handed run impl (prepare run st)

  unfoldable pub dispatcher_of : String → Table W → Dispatcher W
  unfolding modes_of dispatch_to lookup or_value
  dispatcher_of mode table = record {
    default_mode = mode;
    modes = modes_of mode table;
    dispatch = λ run st. dispatch_to run (lookup (or_value run.dispatch mode) table) st;
  }

  unfoldable pub from_mode : String → Outcome String (Dispatcher W)
  unfolding table_of dispatcher_of
  from_mode mode =
      if has mode all_modes
      then (and_then (table_of mode) λ table. returned (dispatcher_of mode table))
      else thrown
          ("unknown DISPATCH: " <> mode <> " (expected inprocess|runtask|agentcore|agentengine)")

  unfoldable pub dispatch_from_env : Outcome String (Dispatcher W)
  unfolding from_mode lookup or_value
  dispatch_from_env = from_mode (or_value (lookup "DISPATCH" env) "inprocess")
