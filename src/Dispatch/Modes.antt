-- ===== src/Dispatch/Modes.antt =====
-- The modes that the front door admits are those that the dispatcher can execute
-- (services/agent-runtime/dispatch.ts, services/agent-runtime/router.ts).
use creance.Prelude.{
  String, true, Option, none, some, [], ◌≡◌, refl, ◌∙◌, sym, subst, inl, inr, Bool-cases, str_eq,
  eq_iff, arith, if-both,
}
use creance.Prelude.Dict.{Dict, lookup}
use creance.Prelude.Outcome.{Outcome, returned, thrown, Action}
use creance.Runs.{Run}
use creance.FrontDoor.{has, unknown_mode}
use creance.Dispatch.Env.{
  ◌<>◌, and_then, or_value, RunTaskConfig, AgentCoreConfig, AgentEngineConfig,
  run_task_config_from_env, agent_core_config_from_env, agent_engine_config_from_env,
}
use creance.Dispatch.{
  State, DispatchFn, Ports, in_process_dispatch, run_task_dispatch, agent_core_dispatch, fail_run,
}
use creance.Dispatch.Table.{
  Table, Dispatcher, all_modes, rows, modes_of, keys_but, table_of, dispatch_to, dispatcher_of,
  from_mode, prepare, handed, fallback, is_wired, get_run_task, get_agent_core, get_agent_engine,
  agent_engine_dispatch,
}
use creance.Dispatch.Entries.{
  HasMode, HasMode-keys, Builds, Enters, fill-new, AllEntries, IsEntry, AllRows, Built, fill-Built,
  AllEntries-lookup,
}

module _ (W : Type 0) where
  module _ (p : Ports W) (env : Dict String)
      (mint : Option (String → Action String (State W) String)) where
    -- The substrate of each mode, by its configuration; a lane for Claude Code is an ECS task.
    pub data IsLane : Option (DispatchFn W) → Type 0 where
      no_lane : IsLane none
      ecs_lane :
          (config : RunTaskConfig)
          → run_task_config_from_env env ≡ returned config
          → IsLane (some (run_task_dispatch W p config))

    pub data IsSubstrate : String → DispatchFn W → Type 0 where
      process_substrate : IsSubstrate "inprocess" (in_process_dispatch W p)
      ecs_substrate :
          (config : RunTaskConfig)
          → run_task_config_from_env env ≡ returned config
          → IsSubstrate "runtask" (run_task_dispatch W p config)
      runtime_substrate :
          (config : AgentCoreConfig) (lane : Option (DispatchFn W))
          → agent_core_config_from_env env ≡ returned config
          → IsLane lane
          → IsSubstrate "agentcore" (agent_core_dispatch W p config lane)
      engine_substrate :
          (config : AgentEngineConfig)
          → agent_engine_config_from_env env ≡ returned config
          → IsSubstrate "agentengine" (agent_engine_dispatch W p env mint config)

    ecs-IsEntry :
        (o : Outcome String RunTaskConfig)
        → run_task_config_from_env env ≡ o
        → IsEntry IsSubstrate "runtask"
            (and_then o (λ config. returned (run_task_dispatch W p config)))
    ecs-IsEntry (returned config) e = ecs_substrate config e
    ecs-IsEntry (thrown why) e = tt

    engine-IsEntry :
        (o : Outcome String AgentEngineConfig)
        → agent_engine_config_from_env env ≡ o
        → IsEntry IsSubstrate "agentengine"
            (and_then o (λ config. returned (agent_engine_dispatch W p env mint config)))
    engine-IsEntry (returned config) e = engine_substrate config e
    engine-IsEntry (thrown why) e = tt

    abbrev HasLane : Outcome String (Option (DispatchFn W)) → Type 0
    HasLane (returned lane) = IsLane lane
    HasLane (thrown why) = Unit

    ecs-HasLane :
        (o : Outcome String RunTaskConfig)
        → run_task_config_from_env env ≡ o
        → HasLane (
            and_then
              (and_then o (λ config. returned (run_task_dispatch W p config)))
              (λ impl. returned (some impl)))
    ecs-HasLane (returned config) e = ecs_lane config e
    ecs-HasLane (thrown why) e = tt

    fallback-HasLane : HasLane (fallback W p env mint)
    unfolding fallback get_run_task
    fallback-HasLane =
        if-both HasLane (is_wired (lookup "ECS_CC_TASK_DEFINITION" env)) _ _ (ecs-HasLane _ refl)
          no_lane

    runtime-IsEntry :
        (l : Outcome String (Option (DispatchFn W))) (o : Outcome String AgentCoreConfig)
        → HasLane l
        → agent_core_config_from_env env ≡ o
        → IsEntry IsSubstrate "agentcore" (
            and_then l
              (λ lane. and_then o (λ config. returned (agent_core_dispatch W p config lane))))
    runtime-IsEntry (returned lane) (returned config) h e = runtime_substrate config lane e h
    runtime-IsEntry (returned lane) (thrown why) h e = tt
    runtime-IsEntry (thrown why) o h e = tt

    rows-AreSubstrates : (mode : String) → AllRows IsSubstrate (rows W p env mint mode)
    unfolding rows get_run_task get_agent_core get_agent_engine
    rows-AreSubstrates mode = (
      process_substrate,
      (
        ecs-IsEntry _ refl,
        (
          runtime-IsEntry (fallback W p env mint) _ fallback-HasLane refl,
          (engine-IsEntry _ refl, tt),
        ),
      ),
    )

    table_of-Built : (mode : String) → Built IsSubstrate (table_of W p env mint mode)
    unfolding table_of
    table_of-Built mode =
        fill-Built IsSubstrate (rows W p env mint mode) [] (rows-AreSubstrates mode) tt

    rows-Enters : (mode : String) → has mode all_modes ≡ true → Enters mode (rows W p env mint mode)
    unfolding rows
    rows-Enters mode known = elim (Bool-cases (str_eq mode "inprocess")) [
      | inl e ↦ inl (e, sym ((eq_iff mode "inprocess").0 e))
      | inr e ↦ inr (elim (Bool-cases (str_eq mode "runtask")) [
        | inl f ↦ inl (rw f refl, sym ((eq_iff mode "runtask").0 f))
        | inr f ↦ inr (elim (Bool-cases (str_eq mode "agentcore")) [
          | inl g ↦ inl (rw g refl, sym ((eq_iff mode "agentcore").0 g))
          | inr g ↦
              let last : str_eq mode "agentengine" ≡ true = ground arith in
              inr (inl (rw last refl, sym ((eq_iff mode "agentengine").0 last)))
        ])
      ])
    ]

    table_of-Builds :
        (mode : String) → has mode all_modes ≡ true → Builds mode (table_of W p env mint mode)
    unfolding table_of
    table_of-Builds mode known = fill-new mode (rows W p env mint mode) [] (rows-Enters mode known)

    -- The dispatcher is that of a table with its default mode.
    abbrev IsOfTable : String → Dispatcher W → Type 0
    IsOfTable mode d =
        (t : Table W) × HasMode mode t
        × AllEntries IsSubstrate t
        × (dispatcher_of W p env mint mode t ≡ d)

    of_table :
        (mode : String) (d : Dispatcher W) (r : Outcome String (Table W))
        → Builds mode r
        → Built IsSubstrate r
        → and_then r (λ t. returned (dispatcher_of W p env mint mode t)) ≡ returned d
        → IsOfTable mode d
    of_table mode d (returned t) h all e = (t, h, all, cc)
    of_table mode d (thrown why) h all e = absurd cc

    from_mode-IsOfTable :
        (mode : String) (d : Dispatcher W)
        → from_mode W p env mint mode ≡ returned d
        → IsOfTable mode d
    unfolding from_mode
    from_mode-IsOfTable mode d e = elim (Bool-cases (has mode all_modes)) [
      | inl known ↦
          let built : (from_mode W p env mint mode
              ≡ and_then (table_of W p env mint mode)
                  (λ t. returned (dispatcher_of W p env mint mode t))) =
            rw known refl in
          of_table mode d (table_of W p env mint mode) (table_of-Builds mode known)
            (table_of-Built mode) (sym built ∙ e)
      | inr unknown ↦
          let refused : (from_mode W p env mint mode
              ≡ thrown (
                  "unknown DISPATCH: " <> mode
                  <> " (expected inprocess|runtask|agentcore|agentengine)")) =
            rw unknown refl in
          absurd cc
    ]

    HasMode-admitted :
        (mode m : String) (t : Table W)
        → HasMode mode t
        → unknown_mode (some m) (modes_of mode t) ≡ none
        → HasMode m t
    unfolding modes_of
    HasMode-admitted mode m t default admitted = elim (Bool-cases (str_eq m mode)) [
      | inl same ↦ subst (λ x. HasMode x t) (sym ((eq_iff m mode).0 same)) default
      | inr differs ↦ HasMode-keys mode m t (elim (Bool-cases (has m (keys_but mode t))) [
        | inl here ↦ here
        | inr missing ↦
            let refused : unknown_mode (some m) (modes_of mode t) ≡ some m =
              rw (differs, missing) refl in
            absurd cc
      ])
    ]

    -- The substrate's dispatch is given the run with what was minted for it; where that fails, the run is
    -- marked failed.
    unfoldable pub Hands :
        Run → DispatchFn W → Outcome String (Option String) × State W → State W → Type 0
    Hands run impl (returned token, st) after = after ≡ impl run token st
    Hands run impl (thrown why, st) after = after ≡ fail_run W p run why st

    pub record IsHanded (m : String) (d : Dispatcher W) (run : Run) (st : State W) : Type 0 where
      pub impl : DispatchFn W
      pub of_mode : IsSubstrate m impl
      pub hands : Hands run impl (prepare W p env mint run st) (d.dispatch run st)

    handed-Hands :
        (run : Run) (impl : DispatchFn W) (o : Outcome String (Option String) × State W)
        → Hands run impl o (handed W p env mint run impl o)
    unfolding Hands handed
    handed-Hands run impl (returned token, st) = refl
    handed-Hands run impl (thrown why, st) = refl

    -- Where the dispatcher is built from the environment, a mode that the front door admits against
    -- its modes is one that it executes: it hands a run of that mode, or of no mode where that is the
    -- default, to the substrate of this very mode with its configuration of the environment, once the
    -- run's token is minted; where the minting fails, it marks the run failed.
    pub from_mode-IsHanded :
        (mode m : String) (d : Dispatcher W) (run : Run) (st : State W)
        → from_mode W p env mint mode ≡ returned d
        → unknown_mode (some m) d.modes ≡ none
        → or_value run.dispatch mode ≡ m
        → IsHanded m d run st
    unfolding dispatcher_of dispatch_to
    from_mode-IsHanded mode m d run st built admitted named =
        let (t, default, all, same) = from_mode-IsOfTable mode d built in
        let (impl, at) =
          HasMode-admitted mode m t default
            (subst (λ x. unknown_mode (some m) x.modes ≡ none) (sym same) admitted) in
        record {
          impl = impl;
          of_mode = AllEntries-lookup IsSubstrate m t impl all at;
          hands =
              subst (λ x. Hands run impl (prepare W p env mint run st) (x.dispatch run st)) same
                (rw (named, at) (handed-Hands run impl (prepare W p env mint run st)));
        }
