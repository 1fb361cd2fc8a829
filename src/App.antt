-- ===== src/App.antt =====
-- `createApp` (services/agent-runtime/app.ts): what the runtime's HTTP handler is built over, and what
-- it replies. App/Reads, App/Writes and App/Handler are its routes.
pub mod Http
pub mod Reads
pub mod Writes
pub mod Handler
pub mod Routes
pub mod Answers
pub mod Identity
pub mod Isolation
mod Tests
use creance.Prelude.{ℕ, String, Option, none, some, List, [], ◌∷◌, map}
use creance.Prelude.Dict.{Dict, insert}
use creance.Prelude.Outcome.{Outcome, returned, Action}
use creance.Ports.{TokenUsage}
use creance.Ports.Json.{Json}
use creance.Gate.{Principal, SpendStore, BudgetStatus, QuotaStatus}
use creance.Gate.Local.{Config}
use creance.Runs.{Run, RunStatus, AgentSpec}
use creance.Agents.{AgentRegistry}
use creance.FrontDoor.{AuthFailure, PolicyDecision, Providers, State}
use creance.App.Http.{HttpRequest}

-- A run in a list, which omits the conversation.
pub record Summary : Type 0 where
  pub id : String
  pub status : RunStatus
  pub task : String
  pub agent : Option String
  pub repo : Option String
  pub principal : Option Principal
  pub dispatch : Option String
  pub output : Option String
  pub error : Option String
  pub usage : Option TokenUsage
  pub cost_usd : Option ℕ
  pub created_at : String
  pub updated_at : String

pub record Created : Type 0 where
  pub run_id : String
  pub status : RunStatus
  pub agent : Option String
  pub repo : Option String
  pub dispatch : Option String
  pub tenant : Option String

pub record Usage : Type 0 where
  pub tenant : String
  pub period : String
  pub budget : BudgetStatus
  pub quota : QuotaStatus

-- What the body of a reply is made of, before it is printed.
pub data Body : Type 0 where
  empty not_found : Body
  document : Json → Body
  failure : (error : String) (reason : Option String) → Body
  one_run : Run → Body
  many_runs : List Summary → Body
  new_run : Created → Body
  one_agent : AgentSpec → Body
  many_agents : List AgentSpec → Body
  budget_of : BudgetStatus → Body
  usage_of : Usage → Body

pub record Reply : Type 0 where
  pub status : ℕ
  pub headers : Dict String
  pub body : Body

abbrev pub reply : ℕ → Body → Reply
reply status body = record { status = status; headers = []; body = body }

-- The names that the runtime's providers show.
pub record Names : Type 0 where
  pub inference : String
  pub model : String
  pub sandbox : String
  pub store : String
  pub gate : String
  pub authn : String
  pub authz : String
  pub guard : String
  pub memory : Option String

-- `redact`: the run without its caller's token.
abbrev pub without_token : Principal → Principal
without_token p = record p { token = none }

abbrev pub redacted_principal : Option Principal → Option Principal
redacted_principal none = none
redacted_principal (some p) = some (without_token p)

unfoldable pub redact : Run → Run
redact run = record run { principal = redacted_principal run.principal }

-- `({ messages, ...slim }) => redact(slim)`
unfoldable pub summary : Run → Summary
summary run = record {
  id = run.id;
  status = run.status;
  task = run.task;
  agent = run.agent;
  repo = run.repo;
  principal = redacted_principal run.principal;
  dispatch = run.dispatch;
  output = run.output;
  error = run.error;
  usage = run.usage;
  cost_usd = run.cost_usd;
  created_at = run.created_at;
  updated_at = run.updated_at;
}

cors_headers : Dict String
cors_headers =
    ("access-control-allow-origin", "*")
    ∷ ("access-control-allow-methods", "GET,POST,DELETE,OPTIONS")
    ∷ ("access-control-allow-headers", "authorization,content-type")
    ∷ ("access-control-max-age", "3600")
    ∷ []

set_all : Dict String → Dict String → Dict String
set_all [] headers = headers
set_all ((key, value) ∷ rest) headers = set_all rest (insert key value headers)

unfoldable pub with_cors : Reply → Reply
unfolding cors_headers set_all
with_cors r = record r { headers = set_all cors_headers r.headers }

unfoldable pub preflight : Reply
unfolding cors_headers
preflight = record { status = 204; headers = cors_headers; body = empty }

module _ (S : SpendStore) (W : Type 0) where
  pub record Services : Type 0 where
    pub authenticate : Option String → Dict String → W → Outcome AuthFailure Principal × W
    pub authorize :
        Principal → String → Option String → Option (Dict String) → Action String W PolicyDecision
    pub registry : AgentRegistry W
    pub gate : Config
    pub modes : List String
    pub default_mode : String
    pub dispatch : Run → W → W
    pub a2a_agent : Option String
    pub names : Names

  -- The gate sequence reads the same registry.
  abbrev pub front : Services → Providers S W
  front d = record {
    authenticate = d.authenticate;
    authorize = d.authorize;
    get_agent = d.registry.get;
    gate = d.gate;
    modes = d.modes;
    default_mode = d.default_mode;
    dispatch = d.dispatch;
  }

  abbrev pub Answer : Type 0
  Answer = Outcome String Reply × State S W

  abbrev pub answer : ℕ → Body → State S W → Answer
  answer status body st = (returned (reply status body), st)
