-- ===== src/Executor.antt =====
-- `processRun` (services/agent-runtime/process-run.ts): a queued run is executed to its end. The
-- services are outside code over a world `W`; the runs are the in-memory store, beside it.
pub mod Outcomes
pub mod Presence
pub mod Texts
pub mod Tests
use Prim.Native.Char.{code}
use Prim.Native.String
use creance.Prelude.{
  ℕ, String, Bool, true, false, ◌&&◌, ◌||◌, Option, none, some, List, [], ◌∷◌, ◌++◌, map, leb, ◌==◌,
  str_eq, if◌then◌else◌,
}
use creance.Prelude.Dict.{Dict}
use creance.Prelude.Outcome.{Outcome, returned, thrown, Action, ◌>>=◌, ◌>>◌, return, throw}
use creance.Ports.{Message, ToolDef, AssistantTurn, GuardVerdict}
use creance.Ports.Json.{Json}
use creance.Gate.{Principal}
use creance.Gate.Price.{estimate_cost}
use creance.Loop.{
  LoopStatus, completed, blocked, max_steps, stuck, RunResult, AgentTool, Opts, run_on_session,
}
use Texts.{truthy, text_or_empty, with_memory, trim}
use creance.Runs
use creance.Runs.{Run, RunStatus, AgentSpec, AgentKind, coder, sandboxed, get, update}

-- The status that the record takes from the result.
abbrev pub status_of : LoopStatus → RunStatus
status_of completed = Runs.completed
status_of blocked = Runs.blocked
status_of stuck = Runs.stuck
status_of max_steps = Runs.max_steps

abbrev anonymous : Principal
anonymous = record {
  tenant = "default";
  subject = "anonymous";
  groups = none;
  token = none;
  actors = none;
}

abbrev pub principal_of : Option Principal → Principal
principal_of none = anonymous
principal_of (some p) = p

abbrev pub is_kind_coder : Option AgentSpec → Bool
is_kind_coder none = false
is_kind_coder (some spec) = elim spec.kind [ coder ↦ true | _ ↦ false ]

-- `spec?.kind === "sandboxed"`
abbrev sandboxed_spec : Option AgentSpec → Option AgentSpec
sandboxed_spec none = none
sandboxed_spec (some spec) = elim spec.kind [ sandboxed ↦ some spec | _ ↦ none ]

module _ (W Session Toolset Workspace : Type 0) where
  pub record Memory : Type 0 where
    pub tools : String → List (AgentTool W)
    pub recall : String → Action String W String

  pub record Services : Type 0 where
    pub clock : W → String
    pub get_agent : String → Action String W (Option AgentSpec)
    pub start_session : Action String W Session
    pub resolve : Principal → Session → Action String W Toolset
    pub tools_of : Toolset → List (AgentTool W)
    pub clone : Session → String → String → String → Action String W Workspace
    pub finalize : Workspace → Action String W String
    pub run_sandboxed :
        Session → String → AgentSpec → String → Option String → Action String W RunResult
    pub gateway_url : Option String
    pub inference_for_tenant :
        String
        → Option String
        → String
        → Option String
        → Action String W (List Message → List ToolDef → ℕ → Action String W AssistantTurn)
    pub memory : Option Memory
    pub screen : String → Action String W GuardVerdict
    pub close_toolset : Toolset → Action String W (Unit {0})
    pub close_session : Session → Action String W (Unit {0})
    pub fresh_id : String
    pub model : String

  pub record ProcessRunOpts : Type 0 where
    pub max_output_tokens : Option ℕ
    pub github_token : Option String

  abbrev pub State : Type 0
  State = W × Dict Run

  abbrev pub beside : {A : Type 0} → Dict Run → Outcome String A × W → Outcome String A × State
  beside runs (r, w) = (r, (w, runs))

  -- A service leaves the runs alone.
  abbrev pub on_world : {A : Type 0} → Action String W A → Action String State A
  on_world f (w, runs) = beside runs (f w)

  abbrev pub tool_on_world : AgentTool W → AgentTool State
  tool_on_world t = record { spec = t.spec; run = λ input. on_world (t.run input) }

  -- `.catch(() => {})`
  abbrev pub quiet : {A : Type 0} → Outcome String A × State → State
  quiet (r, st) = st

  module _ (v : Services) (o : ProcessRunOpts) (id : String) where
    unfoldable pub update_run : (Run → Run) → Action String State Run
    update_run patch (w, runs) =
        let (r, runs') = update id patch (v.clock w) runs in (r, (w, runs'))

    -- Durable per-turn state; a failing store does not stop the run.
    unfoldable pub on_progress : List Message → Action String State (Unit {0})
    on_progress messages st =
        (returned tt, quiet (update_run (λ run. record run { messages = messages }) st))

    abbrev memory_tools : Option Memory → String → List (AgentTool W)
    memory_tools none tenant = []
    memory_tools (some m) tenant = m.tools tenant

    unfoldable pub recalled : Option Memory → String → Action String State (Option String)
    recalled none tenant = return none
    recalled (some m) tenant = on_world (m.recall tenant) >>= λ text. return (some text)

    abbrev model_of : Option AgentSpec → Option String
    model_of none = none
    model_of (some spec) = spec.model

    abbrev prompt_of : Option AgentSpec → Option String
    prompt_of none = none
    prompt_of (some spec) = spec.system_prompt

    abbrev steps_of : Option AgentSpec → Option ℕ
    steps_of none = none
    steps_of (some spec) = spec.max_steps

    -- What the loop is given.
    abbrev pub loop_opts :
        Toolset
        → Run
        → Option AgentSpec
        → (List Message → List ToolDef → ℕ → Action String W AssistantTurn)
        → Option String
        → Opts String State
    loop_opts toolset existing spec generate memories = record {
      generate = λ messages tools max_tokens. on_world (generate messages tools max_tokens);
      screen = λ text. on_world (v.screen text);
      tools =
          map tool_on_world
            (v.tools_of toolset ++ memory_tools v.memory (principal_of existing.principal).tenant);
      task = existing.task;
      system_prompt = with_memory (prompt_of spec) memories;
      max_steps = steps_of spec;
      max_output_tokens = o.max_output_tokens;
      on_progress = some on_progress;
      run_id = v.fresh_id;
    }

    -- Model A: the runtime drives the loop.
    unfoldable pub by_loop : Toolset → Run → Option AgentSpec → Action String State RunResult
    unfolding recalled
    by_loop toolset existing spec = do
      generate ← on_world (
          v.inference_for_tenant (principal_of existing.principal).tenant
            (principal_of existing.principal).token id (model_of spec))
      memories ← recalled v.memory (principal_of existing.principal).tenant
      run_on_session (loop_opts toolset existing spec generate memories)

    -- Model B: a delegated agent runs in the sandbox, over the gateway.
    unfoldable pub by_sandbox :
        Option String → Session → Run → AgentSpec → Action String State RunResult
    by_sandbox none session existing spec =
        throw
          "sandboxed agents require AGENT_GATEWAY_URL (the gateway is their only sanctioned model egress)"
    by_sandbox (some url) session existing spec =
        on_world
          (v.run_sandboxed session existing.task spec url (principal_of existing.principal).token)

    unfoldable pub executed :
        Option AgentSpec
        → Session
        → Toolset
        → Run
        → Option AgentSpec
        → Action String State RunResult
    unfolding by_loop by_sandbox
    executed none session toolset existing spec = by_loop toolset existing spec
    executed (some delegated) session toolset existing spec =
        by_sandbox (truthy v.gateway_url) session existing delegated

    abbrev pub done : RunResult → Run → Run
    done result run = record run {
      status = status_of result.status;
      output = result.output;
      usage = result.usage;
      cost_usd = some (estimate_cost v.model result.usage);
    }

    abbrev pub lost : String → Run → Run
    lost message run = record run { status = Runs.failed; error = some message }

    unfoldable pub dropped : Outcome String Run × State → Outcome String (Unit {0}) × State
    dropped (returned run, st) = (returned tt, st)
    dropped (thrown e, st) = (thrown e, st)

    -- The `catch` block.
    unfoldable pub fail : String → Action String State (Unit {0})
    unfolding dropped
    fail message st = dropped (update_run (lost message) st)

    unfoldable pub stored : Outcome String Run × State → Outcome String (Unit {0}) × State
    unfolding fail
    stored (returned run, st) = (returned tt, st)
    stored (thrown e, st) = fail e st

    -- The end of the `try` block, with the `catch` block.
    unfoldable pub finish : Outcome String RunResult × State → Outcome String (Unit {0}) × State
    unfolding stored
    finish (returned result, st) = stored (update_run (done result) st)
    finish (thrown e, st) = fail e st

    -- The repository that a coder run clones.
    abbrev pub clone_of : Option AgentSpec → Option String → Option String
    clone_of spec repo = if is_kind_coder spec then truthy repo else none

    unfoldable pub cloned :
        Session
        → Toolset
        → Run
        → Option AgentSpec
        → Outcome String Workspace × State
        → Option Workspace × (Outcome String (Unit {0}) × State)
    unfolding executed finish fail
    cloned session toolset existing spec (returned ws, st) =
        (some ws, finish (executed (sandboxed_spec spec) session toolset existing spec st))
    cloned session toolset existing spec (thrown e, st) = (none, fail e st)

    unfoldable pub with_credential :
        Option String
        → String
        → Session
        → Toolset
        → Run
        → Option AgentSpec
        → State
        → Option Workspace × (Outcome String (Unit {0}) × State)
    unfolding cloned
    with_credential none repo session toolset existing spec st = (
      none,
      fail
          (String.◌++◌ "coder run targets " (
            String.◌++◌ repo
              " but no workspace credential arrived (GITHUB_APP_* unwired at dispatch?)"))
          st,
    )
    with_credential (some token) repo session toolset existing spec st =
        cloned session toolset existing spec (on_world (v.clone session repo token id) st)

    -- The `try` and the `catch` block, with the workspace that the `finally` block finds.
    unfoldable pub attempt :
        Option String
        → Session
        → Toolset
        → Run
        → Option AgentSpec
        → State
        → Option Workspace × (Outcome String (Unit {0}) × State)
    unfolding with_credential
    attempt none session toolset existing spec st =
        (none, finish (executed (sandboxed_spec spec) session toolset existing spec st))
    attempt (some repo) session toolset existing spec st =
        with_credential (truthy o.github_token) repo session toolset existing spec st

    abbrev output_of : Option Run → String
    output_of none = ""
    output_of (some run) = text_or_empty run.output

    unfoldable pub note_run : String → State → State
    unfolding trim
    note_run note (w, runs) =
        let text =
          trim (String.◌++◌ (output_of (get id runs)) (String.◌++◌ "\n\n[workspace] " note)) in
        quiet (update_run (λ run. record run { output = some text }) (w, runs))

    unfoldable pub noted : Outcome String String × State → State
    unfolding note_run
    noted (returned note, st) = note_run note st
    noted (thrown e, st) = note_run (String.◌++◌ "workspace push FAILED: " e) st

    unfoldable pub pushed : Option Workspace → State → State
    unfolding noted
    pushed none st = st
    pushed (some ws) st = noted (on_world (v.finalize ws) st)

    -- The `finally` block.
    unfoldable pub closing :
        Session
        → Toolset
        → Option Workspace × (Outcome String (Unit {0}) × State)
        → Outcome String (Unit {0}) × State
    unfolding pushed
    closing session toolset (ws, (r, st)) = (
      r,
      quiet (
          on_world (v.close_session session)
            (quiet (on_world (v.close_toolset toolset) (pushed ws st)))),
    )

    unfoldable pub spec_of : Option String → Action String State (Option AgentSpec)
    spec_of none = return none
    spec_of (some name) = on_world (v.get_agent name)

    -- From the start of the session on.
    unfoldable pub worked : Run → Option AgentSpec → Action String State (Unit {0})
    unfolding attempt closing
    worked existing spec = do
      session ← on_world v.start_session
      toolset ← on_world (v.resolve (principal_of existing.principal) session)
      λ st.
          closing session toolset
            (attempt (clone_of spec existing.repo) session toolset existing spec st)

    unfoldable pub marked : Run → Option AgentSpec → Action String State (Unit {0})
    unfolding worked
    marked existing spec = do
      update_run (λ run. record run { status = Runs.running })
      worked existing spec

    unfoldable pub found : Option Run → Action String State (Unit {0})
    unfolding spec_of marked
    found none = return tt
    found (some existing) = do spec ← spec_of (truthy existing.agent); marked existing spec

    unfoldable pub process_run : Action String State (Unit {0})
    unfolding found
    process_run (w, runs) = found (get id runs) (w, runs)
