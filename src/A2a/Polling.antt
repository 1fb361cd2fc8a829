-- ===== src/A2a/Polling.antt =====
-- What a caller that polls `tasks/get` sees of a run that the executor has ended
-- (services/agent-runtime/process-run.ts, services/agent-runtime/a2a.ts).
use creance.Prelude.{String, Option, none, some, ◌≡◌, refl, ◌⊎◌, inl, inr}
use creance.Prelude.Dict.{Dict}
use creance.Prelude.Outcome.{returned}
use creance.Ports.Json.{Json, str}
use creance.Ports.Fields.{member, member_of}
use creance.Gate.{Principal, SpendStore}
use creance.Runs.{Run, RunStatus}
use creance.FrontDoor.{Providers}
use creance.Executor.{Services, ProcessRunOpts, process_run}
use creance.Executor.Presence.{IsPresent}
use creance.Executor.Outcomes.{IsTerminal, Returns, process_run-IsOver}
use creance.A2a.{TaskState, state_of, rpc, rpc_ok, run_to_task}
use creance.A2a.Handler.{handle_a2a}
use creance.A2a.Laws.{handle_a2a-tasks_get}

-- The state is a final one, or it is missing, and then the run has stopped at the step limit.
abbrev pub IsFinal : RunStatus → Option TaskState → Type 0
IsFinal status none = status ≡ RunStatus.max_steps
IsFinal status (some state) = (state ≡ TaskState.completed) ⊎ (state ≡ TaskState.failed)

IsFinal-state_of : (status : RunStatus) → IsTerminal status → IsFinal status (state_of status)
unfolding state_of
IsFinal-state_of RunStatus.queued h = elim h [ ]
IsFinal-state_of RunStatus.running h = elim h [ ]
IsFinal-state_of RunStatus.completed h = inl refl
IsFinal-state_of RunStatus.failed h = inr refl
IsFinal-state_of RunStatus.blocked h = inr refl
IsFinal-state_of RunStatus.stuck h = inr refl
IsFinal-state_of RunStatus.max_steps h = refl

module _ (W Session Toolset Workspace : Type 0) (v : Services W Session Toolset Workspace)
    (o : ProcessRunOpts W Session Toolset Workspace) where
  module _ (S : SpendStore) (V : Type 0) (d : Providers S V) (clock now run_id : String)
      (default_agent credential : Option String) (headers : Dict String) where
    open S use {Store}

    -- What `tasks/get` answers of these runs: the task of a run, in a final state, or in none where
    -- the run has stopped at the step limit.
    abbrev pub IsPolled : Json → V → Store → Dict Run → Type 0
    IsPolled body x s runs =
        (run : Run) × (handle_a2a S V d clock now run_id default_agent credential headers
            (some body) (x, (s, runs))
          ≡ (returned (rpc (rpc_ok (member "id" body) (run_to_task run))), (x, (s, runs))))
        × IsFinal run.status (run_to_task run).state

    -- Once the executor has processed a stored run, where the registry, the start of the session and
    -- the toolset do not throw, `tasks/get` answers its task in the state `completed` or `failed`,
    -- but with no state where the run has stopped at the step limit.
    pub process_run-IsPolled :
        (id : String) (body : Json) (w : W) (runs : Dict Run) (x : V) (s : Store)
        → member "method" body ≡ some (str "tasks/get")
        → member_of "id" (member "params" body) ≡ some (str id)
        → IsPresent W Session Toolset Workspace v o id runs
        → ((name : String) → Returns W Session Toolset Workspace v o id (v.get_agent name))
        → Returns W Session Toolset Workspace v o id v.start_session
        → ((p : Principal) (session : Session)
            → Returns W Session Toolset Workspace v o id (v.resolve p session))
        → IsPolled body x s (process_run W Session Toolset Workspace v o id (w, runs)).1.1
    unfolding run_to_task
    process_run-IsPolled id body w runs x s method params here agents starts resolves =
        let (out, (run, stored, over)) =
          process_run-IsOver W Session Toolset Workspace v o id w runs here agents starts
            resolves in
        (
          run,
          handle_a2a-tasks_get S V d clock now run_id default_agent credential headers body id run _
              method params stored,
          IsFinal-state_of run.status over,
        )
