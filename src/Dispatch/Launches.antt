-- ===== src/Dispatch/Launches.antt =====
-- What becomes of a run whose dispatch fails, and what a launched container is given
-- (services/agent-runtime/dispatch.ts).
use creance.Prelude.{
  String, true, false, Option, none, some, List, [], ◌∷◌, map, ◌≡◌, refl, ◌≢◌, ◌⊎◌, inl, inr, ◌∙◌,
  All, ap, sym, subst, Bool-cases, str_eq, eq_iff, arith,
}
use creance.Prelude.Dict.{lookup}
use creance.Prelude.Outcome.{
  Outcome, returned, thrown, Action, Ends, resume, resume-Ends, Ends-of_world,
}
use creance.Ports.Json.{Items, nil, item}
use creance.Executor.Texts.{truthy}
use creance.Runs
use creance.Runs.{Run, RunStatus, AgentSpec, patched, get-update}
use creance.FrontDoor.{is_metered_by_runs}
use creance.Dispatch.Env.{◌<>◌, Target, RunTaskConfig, AgentCoreConfig}
use creance.Dispatch.{
  Override, token_variable, sidecars, State, DispatchFn, Ports, override_of, overrides_of,
  run_task_of, target_for, with_error, fail_run, or_failed, spec_of, settled, no_failures, launch,
  run_task_dispatch, is_unclaimed, or_lost, invoke_or_fall_back, agent_core_dispatch,
}

module _ (W : Type 0) (p : Ports W) where
  -- The run is stored as failed, with the reason.
  abbrev pub IsFailedFor : Run → String → State W → Type 0
  IsFailedFor run why st =
      (r : Run) × (Runs.get run.id st.1 ≡ some r)
      × (r.status ≡ RunStatus.failed)
      × (r.error ≡ some ("dispatch failed: " <> why))

  fail_run-IsFailedFor :
      (run here : Run) (why : String) (st : State W)
      → Runs.get run.id st.1 ≡ some here
      → IsFailedFor run why (fail_run W p run why st)
  unfolding fail_run with_error
  fail_run-IsFailedFor run here why (w, runs) at =
      let next : Run = patched (with_error W p why) (p.clock w) here in
      let stored : Runs.get run.id (fail_run W p run why (w, runs)).1 ≡ some next =
        get-update run.id run.id (with_error W p why) (p.clock w) runs
        ∙ rw ((eq_iff run.id run.id).1 refl, at) refl in
      (next, stored, refl, refl)

  -- The task was sent to a target, and the answer tells of no failure.
  abbrev pub IsLaunched : RunTaskConfig → Run → Option String → State W → Type 0
  IsLaunched config run token st' =
      (target : Target) × (st : State W) × (failures : Option Items) × (p.send_run_task
          (run_task_of config run token target) st
        ≡ (returned failures, st'))
      × ((failures ≡ none) ⊎ (failures ≡ some nil))

  sent-IsLaunched :
      (config : RunTaskConfig) (run : Run) (token : Option String) (target : Target) (st : State W)
      (r : Outcome String (Option Items) × State W)
      → p.send_run_task (run_task_of config run token target) st ≡ r
      → Ends (λ _ st'. IsLaunched config run token st') (λ _ _. Unit) (resume (no_failures W p) r)
  unfolding no_failures
  sent-IsLaunched config run token target st (thrown e, st') at = tt
  sent-IsLaunched config run token target st (returned none, st') at =
      (target, st, none, at, inl refl)
  sent-IsLaunched config run token target st (returned (some nil), st') at =
      (target, st, some nil, at, inr refl)
  sent-IsLaunched config run token target st (returned (some (item f fs)), st') at = tt

  launch-IsLaunched :
      (config : RunTaskConfig) (run : Run) (token : Option String) (st : State W)
      → Ends
          (λ _ st'. IsLaunched config run token st')
          (λ _ _. Unit)
          (launch W p config run token st)
  unfolding launch
  launch-IsLaunched config run token st =
      resume-Ends (λ _ _. Unit) (λ _ st'. IsLaunched config run token st') (λ _ _. Unit) _
        (spec_of W p run st) (Ends-of_world (λ _. Unit) (spec_of W p run st) tt)
        λ spec st₁ _.
          resume-Ends (λ _ _. Unit) (λ _ st'. IsLaunched config run token st') (λ _ _. Unit) _
            (settled W p (target_for config run (is_metered_by_runs spec)) st₁)
            (Ends-of_world (λ _. Unit)
              (settled W p (target_for config run (is_metered_by_runs spec)) st₁) tt)
            λ target st₂ _. sent-IsLaunched config run token target st₂ _ refl

  abbrev pub IsSettled : RunTaskConfig → Run → Option String → State W → State W → Type 0
  IsSettled config run token st st' =
      IsLaunched config run token st'
      ⊎ ((why : String) × (st₁ : State W) × (launch W p config run token st ≡ (thrown why, st₁))
          × ((here : Run) → Runs.get run.id st₁.1 ≡ some here → IsFailedFor run why st'))

  or_failed-IsSettled :
      (config : RunTaskConfig) (run : Run) (token : Option String) (st : State W)
      (r : Outcome String Unit × State W)
      → launch W p config run token st ≡ r
      → Ends (λ _ st'. IsLaunched config run token st') (λ _ _. Unit) r
      → IsSettled config run token st (or_failed W p run r)
  unfolding or_failed
  or_failed-IsSettled config run token st (returned _, st') at h = inl h
  or_failed-IsSettled config run token st (thrown why, st₁) at h =
      inr (why, st₁, at, λ here stored. fail_run-IsFailedFor run here why st₁ stored)

  -- A dispatch by RunTask ends in one of two ways: ECS has been sent the task of this run and has
  -- answered with no failure; or the launch has thrown, and then the run, where the store still has it,
  -- is stored as failed with "dispatch failed: " and the reason.
  pub run_task_dispatch-IsSettled :
      (config : RunTaskConfig) (run : Run) (token : Option String) (st : State W)
      → IsSettled config run token st (run_task_dispatch W p config run token st)
  unfolding run_task_dispatch
  run_task_dispatch-IsSettled config run token st =
      or_failed-IsSettled config run token st _ refl (launch-IsLaunched config run token st)

  -- The invocation, or what stands in for it.
  abbrev pub invocation :
      AgentCoreConfig → Option (DispatchFn W) → Run → Option String → Action String (State W) Unit
  invocation config fallback run token st =
      resume (λ spec. invoke_or_fall_back W p config fallback run token (is_metered_by_runs spec))
        (spec_of W p run st)

  -- What becomes of a run whose invocation ends so.
  abbrev pub IsCared : Run → State W → Outcome String Unit × State W → Type 0
  IsCared run st' (returned _, st₁) = st' ≡ st₁
  IsCared run st' (thrown why, st₁) =
      (here : Run)
      → Runs.get run.id st₁.1 ≡ some here
      → ((here.status ≡ RunStatus.queued) × IsFailedFor run why st')
        ⊎ ((here.status ≢ RunStatus.queued) × (st' ≡ st₁))

  unclaimed-cases :
      (s : RunStatus)
      → ((s ≡ RunStatus.queued) × ((r : Run) → r.status ≡ s → is_unclaimed W p (some r) ≡ true))
        ⊎ ((s ≢ RunStatus.queued) × ((r : Run) → r.status ≡ s → is_unclaimed W p (some r) ≡ false))
  unclaimed-cases RunStatus.queued = inl (refl, λ r e. rw e refl)
  unclaimed-cases RunStatus.running = inr ((λ e. absurd cc), λ r e. rw e refl)
  unclaimed-cases RunStatus.completed = inr ((λ e. absurd cc), λ r e. rw e refl)
  unclaimed-cases RunStatus.failed = inr ((λ e. absurd cc), λ r e. rw e refl)
  unclaimed-cases RunStatus.blocked = inr ((λ e. absurd cc), λ r e. rw e refl)
  unclaimed-cases RunStatus.stuck = inr ((λ e. absurd cc), λ r e. rw e refl)
  unclaimed-cases RunStatus.max_steps = inr ((λ e. absurd cc), λ r e. rw e refl)

  or_lost-IsCared :
      (run : Run) (r : Outcome String Unit × State W) → IsCared run (or_lost W p run r) r
  unfolding or_lost
  or_lost-IsCared run (returned _, st₁) = refl
  or_lost-IsCared run (thrown why, st₁) = λ here at. elim (unclaimed-cases here.status) [
    | inl (queued, unclaimed) ↦
        inl (queued, rw (at, unclaimed here refl) (fail_run-IsFailedFor run here why st₁ at))
    | inr (claimed, kept) ↦ inr (claimed, rw (at, kept here refl) refl)
  ]

  -- A dispatch to the managed runtime whose invocation returns leaves what it left. Where the
  -- invocation throws, a run that is still queued is stored as failed with "dispatch failed: " and the
  -- reason, and a run that has been claimed meanwhile stays as it is.
  pub agent_core_dispatch-IsCared :
      (config : AgentCoreConfig) (fallback : Option (DispatchFn W)) (run : Run)
      (token : Option String) (st : State W)
      → IsCared run
          (agent_core_dispatch W p config fallback run token st)
          (invocation config fallback run token st)
  unfolding agent_core_dispatch
  agent_core_dispatch-IsCared config fallback run token st = or_lost-IsCared run _

-- The container is given the id of the run, and the token of the workspace, where there is one that is
-- not empty, if it is the executor's.
abbrev pub IsFitted : Run → Target → Option String → Override → Type 0
IsFitted run target token o =
    (lookup "RUN_ID" o.environment ≡ some run.id)
    × (o.name ≢ target.container → lookup "GITHUB_TOKEN" o.environment ≡ none)
    × (o.name ≡ target.container → lookup "GITHUB_TOKEN" o.environment ≡ truthy token)

-- The executor's container, and the sidecar's where the target names one.
abbrev pub AreContainers : Target → List String → Type 0
AreContainers target names =
    (target.sidecar_container ≡ none × (names ≡ target.container ∷ []))
    ⊎ ((sidecar : String) × (target.sidecar_container ≡ some sidecar)
        × (((sidecar ≡ "") × (names ≡ target.container ∷ []))
            ⊎ ((sidecar ≢ "") × (names ≡ target.container ∷ sidecar ∷ []))))

token_variable-none :
    (token : Option String) → lookup "GITHUB_TOKEN" (token_variable false token) ≡ none
unfolding token_variable lookup
token_variable-none none = refl
token_variable-none (some token) = refl

token_variable-some :
    (token : Option String) → lookup "GITHUB_TOKEN" (token_variable true token) ≡ token
unfolding token_variable lookup
token_variable-some none = refl
token_variable-some (some token) = refl

override_of-IsFitted :
    (run : Run) (target : Target) (token : Option String) (name : String)
    → IsFitted run target token (override_of run target.container token name)
unfolding override_of lookup
override_of-IsFitted run target token name = (
  refl,
  (λ sidecar.
      let differs : str_eq name target.container ≡ false =
        ground (arith, eq_iff name target.container) in
      rw differs (token_variable-none (truthy token))),
  λ executor. rw ((eq_iff name target.container).1 executor) (token_variable-some (truthy token)),
)

all-IsFitted :
    (run : Run) (token : Option String) (target : Target) (names : List String)
    → All (IsFitted run target token) (map (override_of run target.container token) names)
all-IsFitted run token target [] = tt
all-IsFitted run token target (name ∷ names) =
    (override_of-IsFitted run target token name, all-IsFitted run token target names)

names_of-map :
    (run : Run) (token : Option String) (target : Target) (names : List String)
    → map (λ o. o.name) (map (override_of run target.container token) names) ≡ names
unfolding override_of
names_of-map run token target [] = refl
names_of-map run token target (name ∷ names) =
    ap (λ more. name ∷ more) (names_of-map run token target names)

sidecars-AreContainers :
    (target : Target) (sidecar : Option String)
    → target.sidecar_container ≡ sidecar
    → AreContainers target (target.container ∷ sidecars sidecar)
unfolding sidecars
sidecars-AreContainers target none e = inl (e, refl)
sidecars-AreContainers target (some name) e = inr (
  name,
  e,
  elim (Bool-cases (str_eq name "")) [
    | inl empty ↦ inl ((eq_iff name "").0 empty, rw empty refl)
    | inr named ↦ inr ((λ same. absurd (ground (arith, eq_iff name ""))), rw named refl)
  ],
)

-- The task that is sent has an override for each of its containers, the executor's and the sidecar's
-- where one is named, and no other; each gives its container the id of the run, and the executor's alone
-- is given the token of the workspace.
pub run_task_of-IsFitted :
    (config : RunTaskConfig) (run : Run) (token : Option String) (target : Target)
    → let overrides = (run_task_of config run token target).overrides in
      AreContainers target (map (λ o. o.name) overrides) × All (IsFitted run target token) overrides
unfolding run_task_of overrides_of
run_task_of-IsFitted config run token target = (
  subst (AreContainers target)
      (sym (names_of-map run token target (target.container ∷ sidecars target.sidecar_container)))
      (sidecars-AreContainers target target.sidecar_container refl),
  all-IsFitted run token target (target.container ∷ sidecars target.sidecar_container),
)
