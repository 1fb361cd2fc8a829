-- ===== src/Executor/Outcomes.antt =====
-- How an executed run ends.
use creance.Prelude.{String, Option, none, some, ◌≡◌, refl, arith}
use creance.Prelude.Dict.{Dict}
use creance.Prelude.Outcome.{Outcome, returned, thrown, Action, resume}
use creance.Gate.{Principal}
use creance.Loop.{LoopStatus, completed, blocked, max_steps, stuck, RunResult}
use creance.Runs
use creance.Runs.{Run, RunStatus, AgentSpec, get, update, update_found, patched}
use creance.Executor.Texts.{truthy}
use creance.Executor.{
  State, Services, ProcessRunOpts, beside, executed, done, lost, dropped, fail, stored, finish,
  clone_of, cloned, with_credential, attempt, note_run, noted, pushed, closing, spec_of, worked,
  marked, found, process_run, status_of, principal_of, sandboxed_spec,
}
use creance.Executor.Presence.{
  IsPresent, IsPresent-of, missing, get_inserted, update_run_present, executed-missing,
}

-- A run at its end.
abbrev pub IsTerminal : RunStatus → Type 0
IsTerminal Runs.queued = ⊥
IsTerminal Runs.running = ⊥
IsTerminal _ = Unit

module _ (W Session Toolset Workspace : Type 0) (v : Services W Session Toolset Workspace)
    (o : ProcessRunOpts W Session Toolset Workspace) (id : String) where
  -- The run is stored, at its end.
  abbrev pub IsOver : Dict Run → Type 0
  IsOver runs = (run : Run) × (get id runs ≡ some run) × IsTerminal run.status

  fail-IsOver :
      (message : String) (w : W) (runs : Dict Run)
      → IsPresent W Session Toolset Workspace v o id runs
      → let (r, (w', runs')) = fail W Session Toolset Workspace v o id message (w, runs) in
        (r ≡ returned tt) × IsOver runs'
  unfolding fail dropped
  fail-IsOver message w runs (run, e) =
      rw
        (
          (update_run_present W Session Toolset Workspace v o id)
              (lost W Session Toolset Workspace v o id message) w runs run e,
          dropped,
        )
        (refl, (_, (get_inserted W Session Toolset Workspace v o id) _ runs, tt))

  status_of-IsTerminal : (s : LoopStatus) → IsTerminal (status_of s)
  status_of-IsTerminal completed = tt
  status_of-IsTerminal blocked = tt
  status_of-IsTerminal max_steps = tt
  status_of-IsTerminal stuck = tt

  finish-IsOver :
      (r : Outcome String RunResult × State W Session Toolset Workspace)
      → IsPresent W Session Toolset Workspace v o id r.1.1
      → let (out, (w', runs')) = finish W Session Toolset Workspace v o id r in
        (out ≡ returned tt) × IsOver runs'
  unfolding finish stored
  finish-IsOver (returned result, (w, runs)) (run, e) =
      rw
        (
          (update_run_present W Session Toolset Workspace v o id)
              (done W Session Toolset Workspace v o id result) w runs run e,
          stored,
        )
        (
          refl,
          (
            _,
            (get_inserted W Session Toolset Workspace v o id) _ runs,
            status_of-IsTerminal result.status,
          ),
        )
  finish-IsOver (thrown message, (w, runs)) here = fail-IsOver message w runs here

  -- What the `try` and the `catch` block leave.
  abbrev Closes :
      Option Workspace × (Outcome String (Unit {0}) × State W Session Toolset Workspace) → Type 0
  Closes (ws, (out, (w, runs))) = (out ≡ returned tt) × IsOver runs

  run_to_end :
      (session : Session) (toolset : Toolset) (existing : Run) (spec : Option AgentSpec)
      (st : State W Session Toolset Workspace)
      → IsPresent W Session Toolset Workspace v o id st.1
      → let (out, (w', runs')) = finish W Session Toolset Workspace v o id (
          executed W Session Toolset Workspace v o id
            (sandboxed_spec spec)
            session
            toolset
            existing
            spec
            st) in
        (out ≡ returned tt) × IsOver runs'
  run_to_end session toolset existing spec st (run, e) =
      let less =
        executed-missing W Session Toolset Workspace v o id (sandboxed_spec spec) session toolset
          existing spec st in
      let zero : missing W Session Toolset Workspace v o id st ≡ 0 = rw e in
      finish-IsOver _
        ((IsPresent-of W Session Toolset Workspace v o id) _ (omega (arith, less, zero)))

  cloned-Closes :
      (session : Session) (toolset : Toolset) (existing : Run) (spec : Option AgentSpec)
      (runs : Dict Run) (r : Outcome String Workspace × W)
      → IsPresent W Session Toolset Workspace v o id runs
      → Closes (
          cloned W Session Toolset Workspace v o id session toolset existing spec
            (beside W Session Toolset Workspace runs r))
  unfolding cloned
  cloned-Closes session toolset existing spec runs (returned ws, w) here =
      run_to_end session toolset existing spec (w, runs) here
  cloned-Closes session toolset existing spec runs (thrown e, w) here = fail-IsOver e w runs here

  with_credential-Closes :
      (token : Option String) (repo : String) (session : Session) (toolset : Toolset)
      (existing : Run) (spec : Option AgentSpec) (st : State W Session Toolset Workspace)
      → IsPresent W Session Toolset Workspace v o id st.1
      → Closes (
          with_credential W Session Toolset Workspace v o id token repo session toolset existing
            spec st)
  unfolding with_credential
  with_credential-Closes none repo session toolset existing spec st here =
      fail-IsOver _ st.0 st.1 here
  with_credential-Closes (some token) repo session toolset existing spec st here =
      cloned-Closes session toolset existing spec st.1 (v.clone session repo token id st.0) here

  attempt-Closes :
      (repo : Option String) (session : Session) (toolset : Toolset) (existing : Run)
      (spec : Option AgentSpec) (st : State W Session Toolset Workspace)
      → IsPresent W Session Toolset Workspace v o id st.1
      → Closes (attempt W Session Toolset Workspace v o id repo session toolset existing spec st)
  unfolding attempt
  attempt-Closes none session toolset existing spec st here =
      run_to_end session toolset existing spec st here
  attempt-Closes (some repo) session toolset existing spec st here =
      with_credential-Closes (truthy o.github_token) repo session toolset existing spec st here

  note_run-IsOver :
      (note : String) (st : State W Session Toolset Workspace)
      → IsOver st.1
      → IsOver (note_run W Session Toolset Workspace v o id note st).1
  unfolding note_run
  note_run-IsOver note (w, runs) (run, e, over) =
      rw ((update_run_present W Session Toolset Workspace v o id) _ w runs run e)
        (_, (get_inserted W Session Toolset Workspace v o id) _ runs, over)

  noted-IsOver :
      (runs : Dict Run) (r : Outcome String String × W)
      → IsOver runs
      → IsOver
          (noted W Session Toolset Workspace v o id (beside W Session Toolset Workspace runs r)).1
  unfolding noted
  noted-IsOver runs (returned note, w) over = note_run-IsOver note (w, runs) over
  noted-IsOver runs (thrown e, w) over = note_run-IsOver _ (w, runs) over

  pushed-IsOver :
      (ws : Option Workspace) (st : State W Session Toolset Workspace)
      → IsOver st.1
      → IsOver (pushed W Session Toolset Workspace v o id ws st).1
  unfolding pushed
  pushed-IsOver none st over = over
  pushed-IsOver (some ws) st over = noted-IsOver st.1 (v.finalize ws st.0) over

  closing-IsOver :
      (session : Session) (toolset : Toolset)
      (tried : Option Workspace × (Outcome String (Unit {0}) × State W Session Toolset Workspace))
      → Closes tried
      → let (out, (w, runs)) = closing W Session Toolset Workspace v o id session toolset tried in
        (out ≡ returned tt) × IsOver runs
  unfolding closing
  closing-IsOver session toolset (ws, (out, st)) (same, over) = (same, pushed-IsOver ws st over)

  -- A call that does not throw.
  abbrev pub Returns : {A : Type 0} → Action String W A → Type 0
  Returns {A} f = (w : W) → (a : A) × (w' : W) × (f w ≡ (returned a, w'))

  abbrev Ended : Outcome String (Unit {0}) × (State W Session Toolset Workspace) → Type 0
  Ended (out, (w, runs)) = (out ≡ returned tt) × IsOver runs

  worked-IsOver :
      (existing : Run) (spec : Option AgentSpec) (w : W) (runs : Dict Run)
      → IsPresent W Session Toolset Workspace v o id runs
      → Returns v.start_session
      → ((p : Principal) (session : Session) → Returns (v.resolve p session))
      → Ended (worked W Session Toolset Workspace v o id existing spec (w, runs))
  unfolding worked
  worked-IsOver existing spec w runs here starts resolves =
      let (session, w₁, started) = starts w in
      let (toolset, w₂, at) = resolves (principal_of existing.principal) session w₁ in
      rw started (
        rw at (
          closing-IsOver session toolset _ (
            attempt-Closes (clone_of W Session Toolset Workspace v o id spec existing.repo) session
              toolset existing spec (w₂, runs) here)))

  marked-IsOver :
      (existing : Run) (spec : Option AgentSpec) (w : W) (runs : Dict Run)
      → IsPresent W Session Toolset Workspace v o id runs
      → Returns v.start_session
      → ((p : Principal) (session : Session) → Returns (v.resolve p session))
      → Ended (marked W Session Toolset Workspace v o id existing spec (w, runs))
  unfolding marked
  marked-IsOver existing spec w runs (run, e) starts resolves =
      rw
        ((update_run_present W Session Toolset Workspace v o id)
          (λ run'. record run' { status = Runs.running }) w runs run e)
        (worked-IsOver existing spec w _
          (_, (get_inserted W Session Toolset Workspace v o id) _ runs) starts resolves)

  specified :
      (existing : Run) (name : Option String) (w : W) (runs : Dict Run)
      → IsPresent W Session Toolset Workspace v o id runs
      → ((name' : String) → Returns (v.get_agent name'))
      → Returns v.start_session
      → ((p : Principal) (session : Session) → Returns (v.resolve p session))
      → Ended (
          resume
            (λ spec. marked W Session Toolset Workspace v o id existing spec)
            (spec_of W Session Toolset Workspace v o id name (w, runs)))
  unfolding spec_of
  specified existing none w runs here agents starts resolves =
      marked-IsOver existing none w runs here starts resolves
  specified existing (some name) w runs here agents starts resolves =
      let (spec, w₁, at) = agents name w in
      rw at (marked-IsOver existing spec w₁ runs here starts resolves)

  -- A stored run that is processed ends: the call returns, and the run is then stored in a terminal
  -- status, whatever the model, the guard, the tools, the clone, the push and the sandboxed agent
  -- return or throw; the registry, the start of the session and the toolset do not throw.
  pub process_run-IsOver :
      (w : W) (runs : Dict Run)
      → IsPresent W Session Toolset Workspace v o id runs
      → ((name : String) → Returns (v.get_agent name))
      → Returns v.start_session
      → ((p : Principal) (session : Session) → Returns (v.resolve p session))
      → let (out, (w', runs')) = process_run W Session Toolset Workspace v o id (w, runs) in
        (out ≡ returned tt) × IsOver runs'
  unfolding process_run found
  process_run-IsOver w runs (existing, e) agents starts resolves =
      rw e (specified existing (truthy existing.agent) w runs (existing, e) agents starts resolves)
