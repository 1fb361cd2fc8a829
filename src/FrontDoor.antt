-- ===== src/FrontDoor.antt =====
-- `makeAuthorizeAndCreate` (services/agent-runtime/router.ts): the gate sequence that every request for
-- a run goes through, and the outcome that it answers with (`GateOutcome` of
-- services/agent-runtime/a2a.ts).
pub mod Laws
pub mod Texts
pub mod World
pub mod Tests
use creance.Prelude.{
  ℕ, String, Bool, true, false, not, ◌||◌, Option, none, some, List, [], ◌∷◌, str_eq, if◌then◌else◌,
}
use creance.Prelude.Dict.{Dict}
use creance.Prelude.Outcome.{Outcome, returned, thrown, Action}
use creance.Gate.{Principal, SpendStore, QuotaStatus, BudgetStatus}
use creance.Gate.Local.{Config, reserve_run, check_budget}
use creance.Runs
use creance.Runs.{Run, RunStatus, queued, AgentSpec, AgentKind, claude_code, loop}

-- What `authenticate` may throw: an `UnauthorizedError`, or anything else.
pub data AuthFailure : Type 0 where
  unauthorized : AuthFailure
  other : String → AuthFailure

pub record PolicyDecision : Type 0 where
  pub allow : Bool
  pub reason : Option String

pub record Request : Type 0 where
  pub credential : Option String
  pub headers : Dict String
  pub agent : Option String
  pub task : String
  pub repo : Option String
  pub dispatch_mode : Option String

-- Why a request is refused, with what its texts are made of.
pub data Refusal : Type 0 where
  unknown_dispatch : String → List String → Refusal
  no_identity : Refusal
  forbidden : Option String → Refusal
  unknown_agent : String → Refusal
  quota_exhausted : QuotaStatus → Refusal
  budget_exceeded : Refusal

-- A refusal carries the HTTP status.
pub data GateOutcome : Type 0 where
  accepted : Run → GateOutcome
  refused : ℕ → Refusal → GateOutcome

abbrev pub has : String → List String → Bool
has m [] = false
has m (x ∷ xs) = str_eq m x || has m xs

-- `dispatchMode !== undefined && !dispatcher.modes.includes(dispatchMode)`
abbrev pub unknown_mode : Option String → List String → Option String
unknown_mode none modes = none
unknown_mode (some m) modes = if has m modes then none else some m

abbrev pub or_default : Option String → String → String
or_default none d = d
or_default (some m) d = m

-- `repo ? { repo } : undefined`
abbrev pub attributes : Option String → Option (Dict String)
attributes none = none
attributes (some repo) = if str_eq repo "" then none else some (("repo", repo) ∷ [])

abbrev is_claude_code : AgentKind → Bool
is_claude_code claude_code = true
is_claude_code _ = false

-- `spec?.kind === "claude-code"`
abbrev pub is_metered_by_runs : Option AgentSpec → Bool
is_metered_by_runs none = false
is_metered_by_runs (some spec) = is_claude_code spec.kind

-- The clock of the gate, that of the run's record, its fresh id, and the request. Authentication,
-- policy, registry and dispatch are other parts' code, over a world `W`.
module _ (S : SpendStore) (W : Type 0) where
  open S use {Store}

  abbrev pub State : Type 0
  State = W × (Store × Dict Run)

  pub record Providers : Type 0 where
    pub authenticate : Option String → Dict String → W → Outcome AuthFailure Principal × W
    pub authorize :
        Principal → String → Option String → Option (Dict String) → Action String W PolicyDecision
    pub get_agent : String → Action String W (Option AgentSpec)
    pub gate : Config
    pub modes : List String
    pub default_mode : String
    pub dispatch : Run → W → W

  module _ (d : Providers) (clock now id : String) (q : Request) where
    abbrev Answer : Type 0
    Answer = Outcome String GateOutcome × State

    abbrev refuse : ℕ → Refusal → W → Store → Dict Run → Answer
    refuse status why w s runs = (returned (refused status why), (w, (s, runs)))

    abbrev pub new_run : Principal → Run
    new_run principal = record {
      id = id;
      status = queued;
      task = q.task;
      agent = q.agent;
      repo = q.repo;
      principal = some principal;
      dispatch = some (or_default q.dispatch_mode d.default_mode);
      messages = [];
      output = none;
      error = none;
      usage = none;
      cost_usd = none;
      created_at = now;
      updated_at = now;
    }

    -- The run is stored, then handed to the dispatcher.
    admit : Principal → W → Store → Dict Run → Answer
    unfolding Runs.create
    admit principal w s runs =
        let run = new_run principal in
        (returned (accepted run), (d.dispatch run w, (s, Runs.create run runs)))

    by_quota : Principal → W → Dict Run → QuotaStatus × Store → Answer
    unfolding admit
    by_quota principal w runs (quota, s) =
        if quota.ok then admit principal w s runs else refuse 429 (quota_exhausted quota) w s runs

    by_budget : Principal → W → Store → Dict Run → BudgetStatus → Answer
    unfolding admit
    by_budget principal w s runs budget =
        if budget.ok then admit principal w s runs else refuse 402 budget_exceeded w s runs

    -- Admission control by execution model.
    gated : Principal → Option AgentSpec → W → Store → Dict Run → Answer
    unfolding by_quota by_budget
    gated principal spec w s runs =
        if is_metered_by_runs spec
        then by_quota principal w runs (reserve_run S d.gate clock principal.tenant s)
        else by_budget principal w s runs (check_budget S d.gate clock principal.tenant s)

    found : Principal → String → Store → Dict Run → Outcome String (Option AgentSpec) × W → Answer
    unfolding gated
    found principal name s runs (thrown e, w) = (thrown e, (w, (s, runs)))
    found principal name s runs (returned none, w) = refuse 404 (unknown_agent name) w s runs
    found principal name s runs (returned (some spec), w) = gated principal (some spec) w s runs

    resolved : Principal → Option String → W → Store → Dict Run → Answer
    unfolding found
    resolved principal none w s runs = gated principal none w s runs
    resolved principal (some name) w s runs = found principal name s runs (d.get_agent name w)

    decided : Principal → Store → Dict Run → Outcome String PolicyDecision × W → Answer
    unfolding resolved
    decided principal s runs (thrown e, w) = (thrown e, (w, (s, runs)))
    decided principal s runs (returned decision, w) =
        if decision.allow
        then resolved principal q.agent w s runs
        else refuse 403 (forbidden decision.reason) w s runs

    authenticated : Store → Dict Run → Outcome AuthFailure Principal × W → Answer
    unfolding decided
    authenticated s runs (thrown unauthorized, w) = refuse 401 no_identity w s runs
    authenticated s runs (thrown (other e), w) = (thrown e, (w, (s, runs)))
    authenticated s runs (returned principal, w) =
        decided principal s runs (d.authorize principal "run:create" q.agent (attributes q.repo) w)

    checked : Option String → State → Answer
    unfolding authenticated
    checked (some mode) (w, (s, runs)) = refuse 400 (unknown_dispatch mode d.modes) w s runs
    checked none (w, (s, runs)) = authenticated s runs (d.authenticate q.credential q.headers w)

    pub authorize_and_create : State → Answer
    unfolding checked
    authorize_and_create st = checked (unknown_mode q.dispatch_mode d.modes) st
