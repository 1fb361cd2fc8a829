-- ===== src/App/Writes.antt =====
-- The routes of services/agent-runtime/app.ts that write: a new run, and the governed writes of the
-- registry of agents.
use Prim.Native.String
use creance.Prelude.{
  ℕ, String, Bool, false, not, Option, none, some, [], ◌∷◌, str_eq, if◌then◌else◌,
}
use creance.Prelude.Dict.{Dict}
use creance.Prelude.Outcome.{Outcome, returned, thrown, Action}
use creance.Ports.Json.{Json, str, obj, field, end}
use creance.Ports.Fields.{member, optional_text}
use creance.Executor.Texts.{truthy, trim}
use creance.Gate.{Principal, SpendStore}
use creance.Runs.{Run, AgentSpec}
use creance.Agents.Spec.{Validation, valid, invalid, validate_agent_spec, word_of}
use creance.FrontDoor.{
  AuthFailure, unauthorized, other, PolicyDecision, Request, GateOutcome, accepted, refused, State,
  authorize_and_create,
}
use creance.FrontDoor.Texts.{error_text, reason_text}
use creance.App.Http.{HttpRequest, bearer, is_repo}
use creance.App.{document, failure, new_run, one_agent, Services, front, Answer, answer}

-- `typeof task === "string" && task.trim()`
unfoldable pub task_at : Option Json → Option String
unfolding trim
task_at (some (str s)) = if str_eq (trim s) "" then none else some s
task_at _ = none

unfoldable pub bad_repo : Option String → Bool
unfolding is_repo
bad_repo none = false
bad_repo (some repo) = not (is_repo repo)

tenant_of : Option Principal → Option String
tenant_of none = none
tenant_of (some p) = some p.tenant

-- `existing?.tenant && existing.tenant !== principal.tenant`
abbrev pub is_another : Option String → String → Bool
is_another none tenant = false
is_another (some owner) tenant = not (str_eq owner tenant)

abbrev pub owner_of : Option AgentSpec → Option String
owner_of none = none
owner_of (some agent) = truthy agent.tenant

abbrev pub has_other_owner : Option AgentSpec → Principal → Bool
has_other_owner existing principal = is_another (owner_of existing) principal.tenant

module _ (S : SpendStore) (W : Type 0) (d : Services S W) (clock now run_id : String)
    (q : HttpRequest) where
  open S use {Store}

  abbrev pub run_request :
      (agent : Option String) (task : String) (repo mode : Option String) → Request
  run_request agent task repo mode = record {
    credential = bearer q;
    headers = q.headers;
    agent = agent;
    task = task;
    repo = repo;
    dispatch_mode = mode;
  }

  -- What the gate sequence answers, as a reply.
  unfoldable pub created :
      Option String → Option String → Outcome String GateOutcome × State S W → Answer S W
  unfolding error_text reason_text tenant_of
  created agent repo (thrown e, st) = (thrown e, st)
  created agent repo (returned (refused status why), st) =
      answer S W status (failure (error_text why) (reason_text why)) st
  created agent repo (returned (accepted run), st) =
      answer S W 202
        (new_run (record {
          run_id = run.id;
          status = run.status;
          agent = agent;
          repo = repo;
          dispatch = run.dispatch;
          tenant = tenant_of run.principal;
        }))
        st

  unfoldable pub run_of : (task agent repo mode : Option String) → State S W → Answer S W
  unfolding created bad_repo
  run_of none agent repo mode st = answer S W 400 (failure "missing 'task' (string)" none) st
  run_of (some task) agent repo mode st =
      if bad_repo repo
      then answer S W 400 (failure "invalid 'repo' (expected owner/name)" none) st
      else created agent repo (
          authorize_and_create S W (front S W d) clock now run_id (run_request agent task repo mode)
            st)

  unfoldable pub post_run : Option Json → State S W → Answer S W
  unfolding run_of task_at
  post_run none st = answer S W 400 (failure "invalid JSON body" none) st
  post_run (some body) st =
      run_of (task_at (member "task" body)) (optional_text (member "agent" body))
        (optional_text (member "repo" body)) (optional_text (member "dispatch" body)) st

  -- The principal of a governed write; another failure than a missing identity is thrown on.
  unfoldable pub identified :
      (Principal → W → Store → Dict Run → Answer S W)
      → Store
      → Dict Run
      → Outcome AuthFailure Principal × W
      → Answer S W
  identified write s runs (returned principal, w) = write principal w s runs
  identified write s runs (thrown unauthorized, w) =
      answer S W 401 (failure "unauthorized" none) (w, (s, runs))
  identified write s runs (thrown (other e), w) = (thrown e, (w, (s, runs)))

  unfoldable pub writing : (Principal → W → Store → Dict Run → Answer S W) → State S W → Answer S W
  unfolding identified
  writing write (w, (s, runs)) = identified write s runs (d.authenticate (bearer q) q.headers w)

  abbrev pub read_only : W → Store → Dict Run → Answer S W
  read_only w s runs =
      answer S W 501
        (failure (String.◌++◌ "registry '" (String.◌++◌ d.registry.name "' is not writable here"))
          none)
        (w, (s, runs))

  abbrev pub forbidden : Option String → W → Store → Dict Run → Answer S W
  forbidden reason w s runs = answer S W 403 (failure "forbidden" reason) (w, (s, runs))

  abbrev of_another : Option String
  of_another = some "agent is owned by another tenant"

  abbrev status_of : Option AgentSpec → ℕ
  status_of none = 201
  status_of (some agent) = 200

  abbrev pub stamped : Principal → AgentSpec → AgentSpec
  stamped principal spec = record spec { tenant = some principal.tenant }

  unfoldable pub put_done :
      AgentSpec → Option AgentSpec → Store → Dict Run → Outcome String Unit × W → Answer S W
  put_done spec existing s runs (thrown e, w) = (thrown e, (w, (s, runs)))
  put_done spec existing s runs (returned _, w) =
      answer S W (status_of existing) (one_agent spec) (w, (s, runs))

  module _ (put : AgentSpec → Action String W Unit) (principal : Principal) where
    unfoldable pub put_found :
        AgentSpec → Store → Dict Run → Outcome String (Option AgentSpec) × W → Answer S W
    unfolding put_done
    put_found spec s runs (thrown e, w) = (thrown e, (w, (s, runs)))
    put_found spec s runs (returned existing, w) =
        if has_other_owner existing principal
        then forbidden of_another w s runs
        else put_done (stamped principal spec) existing s runs (put (stamped principal spec) w)

    unfoldable pub put_decided :
        AgentSpec → Store → Dict Run → Outcome String PolicyDecision × W → Answer S W
    unfolding put_found
    put_decided spec s runs (thrown e, w) = (thrown e, (w, (s, runs)))
    put_decided spec s runs (returned decision, w) =
        if decision.allow
        then put_found spec s runs (d.registry.get spec.name w)
        else forbidden decision.reason w s runs

    unfoldable pub put_valid : Validation → W → Store → Dict Run → Answer S W
    unfolding put_decided
    put_valid (invalid error) w s runs = answer S W 400 (failure error none) (w, (s, runs))
    put_valid (valid spec) w s runs = put_decided spec s runs (
        d.authorize principal "agent:register" (some spec.name)
          (some (("kind", word_of spec.kind) ∷ [])) w)

    unfoldable pub put_body : Option Json → W → Store → Dict Run → Answer S W
    unfolding put_valid
    put_body none w s runs = answer S W 400 (failure "invalid JSON body" none) (w, (s, runs))
    put_body (some body) w s runs = put_valid (validate_agent_spec body) w s runs

  unfoldable pub put_agent :
      Option (AgentSpec → Action String W Unit) → Principal → W → Store → Dict Run → Answer S W
  unfolding put_body
  put_agent none principal w s runs = read_only w s runs
  put_agent (some put) principal w s runs = put_body put principal q.body w s runs

  module _ (delete : String → Action String W Unit) (principal : Principal) (name : String) where
    unfoldable pub delete_done : Store → Dict Run → Outcome String Unit × W → Answer S W
    delete_done s runs (thrown e, w) = (thrown e, (w, (s, runs)))
    delete_done s runs (returned _, w) =
        answer S W 200 (document (obj (field "deleted" (str name) end))) (w, (s, runs))

    unfoldable pub delete_found :
        Store → Dict Run → Outcome String (Option AgentSpec) × W → Answer S W
    unfolding delete_done
    delete_found s runs (thrown e, w) = (thrown e, (w, (s, runs)))
    delete_found s runs (returned none, w) =
        answer S W 404 (failure "agent not found" none) (w, (s, runs))
    delete_found s runs (returned (some existing), w) =
        if has_other_owner (some existing) principal
        then forbidden of_another w s runs
        else delete_done s runs (delete name w)

    unfoldable pub delete_decided :
        Store → Dict Run → Outcome String PolicyDecision × W → Answer S W
    unfolding delete_found
    delete_decided s runs (thrown e, w) = (thrown e, (w, (s, runs)))
    delete_decided s runs (returned decision, w) =
        if decision.allow
        then delete_found s runs (d.registry.get name w)
        else forbidden decision.reason w s runs

  unfoldable pub delete_agent :
      Option (String → Action String W Unit)
      → String
      → Principal
      → W
      → Store
      → Dict Run
      → Answer S W
  unfolding delete_decided
  delete_agent none name principal w s runs = read_only w s runs
  delete_agent (some delete) name principal w s runs =
      delete_decided delete principal name s runs
        (d.authorize principal "agent:delete" (some name) none w)
