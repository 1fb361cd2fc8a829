-- ===== src/App/Reads.antt =====
-- The routes of services/agent-runtime/app.ts that read: the documents that anyone may have, and the
-- runs, agents, budgets and usage that need an identity.
use Prim.Native.String
use creance.Prelude.{String, Bool, Option, none, some, List, [], ◌∷◌, map}
use creance.Prelude.Dict.{Dict}
use creance.Prelude.Outcome.{Outcome, returned, thrown}
use creance.Ports.Json.{Json, str, arr, obj, Items, nil, item, field, end}
use creance.Gate.{Principal, SpendStore, current_period}
use creance.Gate.Local.{check_budget, check_quota}
use creance.Runs
use creance.Runs.{Run, AgentSpec}
use creance.FrontDoor.{AuthFailure, State}
use creance.A2a.{build_agent_card}
use creance.App.Http.{HttpRequest, bearer}
use creance.App.{
  failure, one_run, many_runs, many_agents, budget_of, usage_of, redact, summary, Services, Answer,
  answer,
}

or_name : Option String → String → String
or_name (some name) other = name
or_name none other = other

texts_json : List String → Items
texts_json [] = nil
texts_json (s ∷ more) = item (str s) (texts_json more)

module _ (S : SpendStore) (W : Type 0) (d : Services S W) (clock : String) (q : HttpRequest) where
  open S use {Store}

  unfoldable pub card : Json
  unfolding or_name build_agent_card
  card =
      build_agent_card (or_name d.a2a_agent "agent-os-runtime")
        (String.◌++◌ "agent-os runtime hosting '" (String.◌++◌ (or_name d.a2a_agent "agents") "'"))
        (String.◌++◌ q.protocol (String.◌++◌ "//" (String.◌++◌ q.host "/a2a")))

  unfoldable pub health : Json
  health = obj (field "status" (str "ok") end)

  unfoldable pub root : Json
  root = obj (
      field "service" (str "agent-os-runtime")
        (field "ui" (str "apps/console (ADR-0032)") (field "health" (str "/healthz") end)))

  unfoldable pub info : Json
  unfolding or_name texts_json
  info = obj (
      field "inference" (str d.names.inference) (
        field "model" (str d.names.model) (
          field "sandbox" (str d.names.sandbox) (
            field "store" (str d.names.store) (
              field "gate" (str d.names.gate) (
                field "authn" (str d.names.authn) (
                  field "authz" (str d.names.authz) (
                    field "guard" (str d.names.guard) (
                      field "agentRegistry" (str d.registry.name) (
                        field "memory" (str (or_name d.names.memory "off")) (
                          field "dispatch"
                            (obj (
                              field "default" (str d.default_mode)
                                (field "modes" (arr (texts_json d.modes)) end)))
                            end)))))))))))

  -- `if (!(await authenticated(req))) return unauthorized()`, before a read.
  unfoldable pub reads :
      (W → Store → Dict Run → Answer S W)
      → Store
      → Dict Run
      → Outcome AuthFailure Principal × W
      → Answer S W
  reads read s runs (returned principal, w) = read w s runs
  reads read s runs (thrown e, w) = answer S W 401 (failure "unauthorized" none) (w, (s, runs))

  unfoldable pub reading : (W → Store → Dict Run → Answer S W) → State S W → Answer S W
  unfolding reads
  reading read (w, (s, runs)) = reads read s runs (d.authenticate (bearer q) q.headers w)

  unfoldable pub list_runs : (String → String → Bool) → W → Store → Dict Run → Answer S W
  unfolding Runs.list summary
  list_runs not_after w s runs =
      answer S W 200 (many_runs (map summary (Runs.list not_after 100 runs))) (w, (s, runs))

  unfoldable pub shown_run : Option Run → W → Store → Dict Run → Answer S W
  unfolding redact
  shown_run (some run) w s runs = answer S W 200 (one_run (redact run)) (w, (s, runs))
  shown_run none w s runs = answer S W 404 (failure "run not found" none) (w, (s, runs))

  unfoldable pub get_run : String → W → Store → Dict Run → Answer S W
  unfolding shown_run Runs.get
  get_run id w s runs = shown_run (Runs.get id runs) w s runs

  unfoldable pub listed : Store → Dict Run → Outcome String (List AgentSpec) × W → Answer S W
  listed s runs (returned agents, w) = answer S W 200 (many_agents agents) (w, (s, runs))
  listed s runs (thrown e, w) = (thrown e, (w, (s, runs)))

  unfoldable pub list_agents : W → Store → Dict Run → Answer S W
  unfolding listed
  list_agents w s runs = listed s runs (d.registry.list w)

  unfoldable pub get_budget : String → W → Store → Dict Run → Answer S W
  get_budget tenant w s runs =
      answer S W 200 (budget_of (check_budget S d.gate clock tenant s)) (w, (s, runs))

  unfoldable pub get_usage : String → W → Store → Dict Run → Answer S W
  unfolding current_period
  get_usage tenant w s runs =
      answer S W 200
        (usage_of (record {
          tenant = tenant;
          period = current_period clock;
          budget = check_budget S d.gate clock tenant s;
          quota = check_quota S d.gate clock tenant s;
        }))
        (w, (s, runs))
