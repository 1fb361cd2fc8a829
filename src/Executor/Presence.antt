-- ===== src/Executor/Presence.antt =====
-- A stored run stays stored while it is executed.
use creance.Prelude.{
  ℕ, ◌+◌, ◌≤◌, String, Option, none, some, List, [], ◌∷◌, map, ◌≡◌, ◌∙◌, inl, inr, arith, All,
  Option-cases, eq_iff,
}
use creance.Prelude.Dict.{Dict, insert, lookup-insert}
use creance.Prelude.Outcome.{Outcome, returned, thrown, Action, resume, return, Ends}
use creance.Ports.{Message, ToolDef, AssistantTurn}
use creance.Ports.Json.{Json}
use creance.Loop.{RunResult, AgentTool, run_on_session, progress, tool_defs, token_cap}
use creance.Loop.Tools.{find_tool-All}
use creance.Loop.Cost.{run_on_session_cost}
use creance.Runs.{Run, AgentSpec, get, update, update_found, patched}
use creance.Executor.Texts.{truthy}
use creance.Executor.{
  Services, ProcessRunOpts, Memory, State, beside, tool_on_world, update_run, on_progress, recalled,
  loop_opts, by_loop, by_sandbox, executed, principal_of,
}

module _ (W Session Toolset Workspace : Type 0) (v : Services W Session Toolset Workspace)
    (o : ProcessRunOpts W Session Toolset Workspace) (id : String) where
  abbrev pub Here : Type 0
  Here = State W Session Toolset Workspace

  abbrev pub IsPresent : Dict Run → Type 0
  IsPresent runs = (run : Run) × (get id runs ≡ some run)

  pub get_inserted : (run : Run) (runs : Dict Run) → get id (insert id run runs) ≡ some run
  unfolding get
  get_inserted run runs = lookup-insert id id run runs ∙ ground (arith, eq_iff id id)

  pub update_run_present :
      (patch : Run → Run) (w : W) (runs : Dict Run) (run : Run)
      → get id runs ≡ some run
      → update_run W Session Toolset Workspace v o id patch (w, runs) ≡ (
        returned (patched patch (v.clock w) run),
        (w, insert id (patched patch (v.clock w) run) runs),
      )
  unfolding update_run update update_found get
  update_run_present patch w runs run e = rw e

  -- Whether the run is missing, as a measure.
  abbrev pub absent : Option Run → ℕ
  absent none = 1
  absent (some run) = 0

  abbrev pub missing : Here → ℕ
  missing (w, runs) = absent (get id runs)

  pub IsPresent-of : (runs : Dict Run) → absent (get id runs) ≤ 0 → IsPresent runs
  IsPresent-of runs h = elim (Option-cases (get id runs)) [
    | inl e ↦ let one : absent (get id runs) ≡ 1 = rw e in absurd (omega (arith, one, h))
    | inr (run, e) ↦ (run, e)
  ]

  update_run-missing :
      (patch : Run → Run) (w : W) (runs : Dict Run)
      → missing (update_run W Session Toolset Workspace v o id patch (w, runs)).1
        ≤ absent (get id runs)
  update_run-missing patch w runs = elim (Option-cases (get id runs)) [
    | inl e ↦
        let same : missing (update_run W Session Toolset Workspace v o id patch (w, runs)).1
            ≡ absent (get id runs) =
          unfold update_run update update_found get in rw (e, update_found) (rw e) in
        omega (arith, same)
    | inr (run, e) ↦
        rw
          (update_run_present patch w runs run e, get_inserted (patched patch (v.clock w) run) runs)
          (omega arith)
  ]

  abbrev Leaves : AgentTool Here → Type 0
  Leaves t = (input : Json) (st : Here) → missing (t.run input st).1 ≤ missing st

  tools-Leave :
      (ts : List (AgentTool W)) → All Leaves (map (tool_on_world W Session Toolset Workspace) ts)
  tools-Leave [] = tt
  tools-Leave (t ∷ ts) = ((λ input st. omega arith), tools-Leave ts)

  asked :
      (runs : Dict Run) (r : Outcome String AssistantTurn × W)
      → Ends {W = Here}
          (λ _ st. missing st ≤ absent (get id runs) + 0)
          (λ _ st. missing st ≤ absent (get id runs))
          (beside W Session Toolset Workspace runs r)
  asked runs (returned t, w) = omega arith
  asked runs (thrown e, w) = omega arith

  -- The loop, with the executor's ports, keeps the run in the store.
  run_on_session-missing :
      (toolset : Toolset) (existing : Run) (spec : Option AgentSpec)
      (generate : List Message → List ToolDef → ℕ → Action String W AssistantTurn)
      (memories : Option String) (st : Here)
      → let opts =
          loop_opts W Session Toolset Workspace v o id toolset existing spec generate memories in
        missing (run_on_session opts st).1 ≤ missing st
  run_on_session-missing toolset existing spec generate memories st =
      let opts =
        loop_opts W Session Toolset Workspace v o id toolset existing spec generate memories in
      let bound =
        run_on_session_cost opts missing 0 st
          (λ ms st'. asked st'.1 (generate ms (tool_defs opts) (token_cap opts) st'.0))
          (λ text st'. omega arith)
          (λ name t input st' e. find_tool-All Leaves opts name t (tools-Leave _) e input st')
          (λ ms st'.
            unfold progress on_progress in
            update_run-missing (λ run. record run { messages = ms }) st'.0 st'.1) in
      omega (arith, bound)

  recalled-missing :
      (m : Option (Memory W Session Toolset Workspace)) (tenant : String) (st : Here)
      → missing (recalled W Session Toolset Workspace v o id m tenant st).1 ≤ missing st
  unfolding recalled
  recalled-missing none tenant st = omega arith
  recalled-missing (some m) tenant (w, runs) = kept (m.recall tenant w)
    where
      kept :
          (r : Outcome String String × W)
          → missing
              (resume {W = Here}
                (λ text. return (some text))
                (beside W Session Toolset Workspace runs r)).1
            ≤ absent (get id runs)
      kept (returned text, w') = omega arith
      kept (thrown e, w') = omega arith

  by_loop-missing :
      (toolset : Toolset) (existing : Run) (spec : Option AgentSpec) (st : Here)
      → missing (by_loop W Session Toolset Workspace v o id toolset existing spec st).1 ≤ missing st
  unfolding by_loop
  by_loop-missing toolset existing spec (w, runs) = given _
    where
      run :
          (List Message → List ToolDef → ℕ → Action String W AssistantTurn)
          → Option String
          → Action String Here RunResult
      run generate memories =
          run_on_session
            (loop_opts W Session Toolset Workspace v o id toolset existing spec generate memories)

      remembered :
          (generate : List Message → List ToolDef → ℕ → Action String W AssistantTurn)
          (r : Outcome String (Option String) × Here)
          → missing r.1 ≤ absent (get id runs)
          → missing (resume (λ memories. run generate memories) r).1 ≤ absent (get id runs)
      remembered generate (returned memories, st) h =
          let less = run_on_session-missing toolset existing spec generate memories st in
          omega (arith, less, h)
      remembered generate (thrown e, st) h = h

      given :
          (r : Outcome String (List Message → List ToolDef → ℕ → Action String W AssistantTurn) × W)
          → missing
              (resume {W = Here}
                (λ generate st.
                  resume
                    (λ memories. run generate memories)
                    (recalled W Session Toolset Workspace v o id v.memory
                      (principal_of existing.principal).tenant
                      st))
                (beside W Session Toolset Workspace runs r)).1
            ≤ absent (get id runs)
      given (returned generate, w') =
          remembered generate _
            (recalled-missing v.memory (principal_of existing.principal).tenant (w', runs))
      given (thrown e, w') = omega arith

  by_sandbox-missing :
      (url : Option String) (session : Session) (existing : Run) (spec : AgentSpec) (st : Here)
      → missing (by_sandbox W Session Toolset Workspace v o id url session existing spec st).1
        ≤ missing st
  unfolding by_sandbox
  by_sandbox-missing none session existing spec st = omega arith
  by_sandbox-missing (some url) session existing spec st = omega arith

  pub executed-missing :
      (delegated : Option AgentSpec) (session : Session) (toolset : Toolset) (existing : Run)
      (spec : Option AgentSpec) (st : Here)
      → missing
          (executed W Session Toolset Workspace v o id delegated session toolset existing spec st).1
        ≤ missing st
  unfolding executed
  executed-missing none session toolset existing spec st = by_loop-missing toolset existing spec st
  executed-missing (some a) session toolset existing spec st =
      by_sandbox-missing (truthy v.gateway_url) session existing a st
