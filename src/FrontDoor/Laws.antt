-- ===== src/FrontDoor/Laws.antt =====
-- What the gate sequence admits, and what a refusal leaves behind.
use creance.Prelude.{
  String, true, false, Option, none, some, [], ◌∷◌, ◌≡◌, ◌≢◌, ◌⊎◌, refl, inl, inr, arith,
  Bool-cases, str_eq, eq_iff,
}
use creance.Prelude.Dict.{Dict}
use creance.Prelude.Outcome.{Outcome, returned, thrown, Ends}
use creance.Gate.{Principal, SpendStore}
use creance.Gate.Local.{reserve_run, check_budget}
use creance.Gate.Local.Quota.{reserve_run-refused}
use creance.Runs
use creance.Runs.{Run, AgentSpec, get-create}
use creance.FrontDoor.{
  AuthFailure, unauthorized, other, PolicyDecision, Request, GateOutcome, accepted, refused,
  unknown_mode, attributes, is_metered_by_runs, State, Providers, admit, by_quota, by_budget, gated,
  found, resolved, decided, authenticated, checked, authorize_and_create,
}

module _ (S : SpendStore) (W : Type 0) (d : Providers S W) (clock now id : String)
    (q : Request) where
  open S use {Store}

  -- The agent that the request names is registered.
  abbrev pub IsResolved : Option String → W → Option AgentSpec → W → Type 0
  IsResolved none w spec w' = (spec ≡ none) × (w' ≡ w)
  IsResolved (some name) w spec w' =
      (a : AgentSpec) × (spec ≡ some a) × (d.get_agent name w ≡ (returned (some a), w'))

  -- The gate has let the run through: by a run of the quota, which is taken, where the agent is
  -- Claude Code, else by the budget.
  abbrev pub IsCleared : Principal → Option AgentSpec → Store → Store → Type 0
  IsCleared principal spec s s' =
      (is_metered_by_runs spec ≡ true
        → ((reserve_run S d.gate clock principal.tenant s).0.ok ≡ true)
          × (s' ≡ (reserve_run S d.gate clock principal.tenant s).1))
      × (is_metered_by_runs spec ≡ false
          → ((check_budget S d.gate clock principal.tenant s).ok ≡ true) × (s' ≡ s))

  -- A run that waits, of this request and this caller.
  pub record IsQueued (principal : Principal) (run : Run) : Type 0 where
    pub of_id : run.id ≡ id
    pub of_status : run.status ≡ Runs.queued
    pub of_task : run.task ≡ q.task
    pub of_agent : run.agent ≡ q.agent
    pub of_repo : run.repo ≡ q.repo
    pub of_caller : run.principal ≡ some principal
    pub at_start : (run.output ≡ none) × (run.error ≡ none) × (run.cost_usd ≡ none)
    pub since : (run.created_at ≡ now) × (run.updated_at ≡ now)

  -- What the policy is told of the repository: its name, where there is one that is not empty.
  abbrev pub Tells : Option String → Option (Dict String) → Type 0
  Tells none told = told ≡ none
  Tells (some repo) told =
      ((repo ≡ "") × (told ≡ none)) ⊎ ((repo ≢ "") × (told ≡ some (("repo", repo) ∷ [])))

  attributes-Tells : (repo : Option String) → Tells repo (attributes repo)
  attributes-Tells none = refl
  attributes-Tells (some repo) = elim (Bool-cases (str_eq repo "")) [
    | inl empty ↦ inl ((eq_iff repo "").0 empty, rw empty refl)
    | inr named ↦ inr ((λ same. absurd (ground (arith, eq_iff repo ""))), rw named refl)
  ]

  -- From the end of the sequence back to its beginning, what an admitted run has passed.
  pub record IsStored (principal : Principal) (spec : Option AgentSpec) (w : W) (s : Store)
      (runs : Dict Run) (run : Run) (st : State S W) : Type 0 where
    pub s' : Store
    pub cleared : IsCleared principal spec s s'
    pub queued : IsQueued principal run
    pub stored : st ≡ (d.dispatch run w, (s', Runs.create run runs))

  pub record IsAdmitted (w : W) (s : Store) (runs : Dict Run) (run : Run) (st : State S W)
      : Type 0 where
    pub mode_known : unknown_mode q.dispatch_mode d.modes ≡ none
    pub principal : Principal
    pub w₁ : W
    pub identified : d.authenticate q.credential q.headers w ≡ (returned principal, w₁)
    pub decision : PolicyDecision
    pub w₂ : W
    pub told : Option (Dict String)
    pub of_repository : Tells q.repo told
    pub ruled : d.authorize principal "run:create" q.agent told w₁ ≡ (returned decision, w₂)
    pub allowed : decision.allow ≡ true
    pub spec : Option AgentSpec
    pub w₃ : W
    pub resolves : IsResolved q.agent w₂ spec w₃
    pub last : IsStored principal spec w₃ s runs run st

  -- No tally and no run has changed.
  abbrev pub IsUntouched : Store → Dict Run → State S W → Type 0
  IsUntouched s runs st = (st.1.0 ≡ s) × (st.1.1 ≡ runs)

  abbrev pub Judged :
      (Run → State S W → Type 0) → Store → Dict Run → GateOutcome → State S W → Type 0
  Judged Q s runs (accepted run) st = Q run st
  Judged Q s runs (refused status why) st = IsUntouched s runs st

  abbrev pub Answers :
      (Run → State S W → Type 0)
      → Store
      → Dict Run
      → Outcome String GateOutcome × State S W
      → Type 0
  Answers Q s runs r = Ends (Judged Q s runs) (λ _. IsUntouched s runs) r

  Answers-map :
      (Q Q' : Run → State S W → Type 0) (s : Store) (runs : Dict Run)
      (r : Outcome String GateOutcome × State S W)
      → ((run : Run) (st : State S W) → Q run st → Q' run st)
      → Answers Q s runs r
      → Answers Q' s runs r
  Answers-map Q Q' s runs (returned (accepted run), st) k h = k run st h
  Answers-map Q Q' s runs (returned (refused status why), st) k h = h
  Answers-map Q Q' s runs (thrown e, st) k h = h

  admit-IsStored :
      (principal : Principal) (spec : Option AgentSpec) (w : W) (s s' : Store) (runs : Dict Run)
      → IsCleared principal spec s s'
      → Answers
          (IsStored principal spec w s runs)
          s
          runs
          (admit S W d clock now id q principal w s' runs)
  unfolding admit
  admit-IsStored principal spec w s s' runs c = record {
    s' = s';
    cleared = c;
    queued = record {
      of_id = refl;
      of_status = refl;
      of_task = refl;
      of_agent = refl;
      of_repo = refl;
      of_caller = refl;
      at_start = (refl, refl, refl);
      since = (refl, refl);
    };
    stored = refl;
  }

  gated-IsStored :
      (principal : Principal) (spec : Option AgentSpec) (w : W) (s : Store) (runs : Dict Run)
      → Answers
          (IsStored principal spec w s runs)
          s
          runs
          (gated S W d clock now id q principal spec w s runs)
  unfolding gated by_quota by_budget
  gated-IsStored principal spec w s runs = elim (Bool-cases (is_metered_by_runs spec)) [
    | inl foreign ↦
        let (quota, s') = reserve_run S d.gate clock principal.tenant s in
        elim (Bool-cases (reserve_run S d.gate clock principal.tenant s).0.ok) [
          | inl ok ↦
              rw (foreign, ok, by_quota)
                (admit-IsStored principal spec w s _ runs
                  ((λ e. (ok, refl)), λ e. absurd (ground arith)))
          | inr spent ↦
              rw (foreign, spent, by_quota)
                (reserve_run-refused S d.gate clock principal.tenant s spent, refl)
        ]
    | inr own ↦ elim (Bool-cases (check_budget S d.gate clock principal.tenant s).ok) [
      | inl ok ↦
          rw (own, ok, by_budget)
            (admit-IsStored principal spec w s s runs
              ((λ e. absurd (ground arith)), λ e. (ok, refl)))
      | inr spent ↦ rw (own, spent, by_budget) (refl, refl)
    ]
  ]

  abbrev IsFound : Principal → Option String → W → Store → Dict Run → Run → State S W → Type 0
  IsFound principal agent w s runs run st =
      (spec : Option AgentSpec) × (w' : W) × IsResolved agent w spec w'
      × IsStored principal spec w' s runs run st

  found-IsFound :
      (principal : Principal) (name : String) (w : W) (s : Store) (runs : Dict Run)
      (r : Outcome String (Option AgentSpec) × W)
      → d.get_agent name w ≡ r
      → Answers
          (IsFound principal (some name) w s runs)
          s
          runs
          (found S W d clock now id q principal name s runs r)
  unfolding found
  found-IsFound principal name w s runs (thrown e, w') at = (refl, refl)
  found-IsFound principal name w s runs (returned none, w') at = (refl, refl)
  found-IsFound principal name w s runs (returned (some a), w') at =
      Answers-map (IsStored principal (some a) w' s runs) (IsFound principal (some name) w s runs) s
        runs _ (λ run st h. (some a, w', (a, refl, at), h))
        (gated-IsStored principal (some a) w' s runs)

  resolved-IsFound :
      (principal : Principal) (agent : Option String) (w : W) (s : Store) (runs : Dict Run)
      → Answers
          (IsFound principal agent w s runs)
          s
          runs
          (resolved S W d clock now id q principal agent w s runs)
  unfolding resolved
  resolved-IsFound principal none w s runs =
      Answers-map (IsStored principal none w s runs) (IsFound principal none w s runs) s runs _
        (λ run st h. (none, w, (refl, refl), h)) (gated-IsStored principal none w s runs)
  resolved-IsFound principal (some name) w s runs = found-IsFound principal name w s runs _ refl

  abbrev IsRuled : Principal → W → Store → Dict Run → Run → State S W → Type 0
  IsRuled principal w s runs run st =
      (decision : PolicyDecision) × (w' : W) × (d.authorize principal "run:create" q.agent
          (attributes q.repo) w
        ≡ (returned decision, w'))
      × (decision.allow ≡ true)
      × IsFound principal q.agent w' s runs run st

  decided-IsRuled :
      (principal : Principal) (w : W) (s : Store) (runs : Dict Run)
      (r : Outcome String PolicyDecision × W)
      → d.authorize principal "run:create" q.agent (attributes q.repo) w ≡ r
      → Answers
          (IsRuled principal w s runs)
          s
          runs
          (decided S W d clock now id q principal s runs r)
  unfolding decided
  decided-IsRuled principal w s runs (thrown e, w') at = (refl, refl)
  decided-IsRuled principal w s runs (returned decision, w') at = elim (Bool-cases decision.allow) [
    | inl granted ↦ rw granted (
        Answers-map (IsFound principal q.agent w' s runs) (IsRuled principal w s runs) s runs _
          (λ run st h. (decision, w', at, granted, h))
          (resolved-IsFound principal q.agent w' s runs))
    | inr denied ↦ rw denied (refl, refl)
  ]

  authenticated-IsAdmitted :
      (w : W) (s : Store) (runs : Dict Run) (r : Outcome AuthFailure Principal × W)
      → unknown_mode q.dispatch_mode d.modes ≡ none
      → d.authenticate q.credential q.headers w ≡ r
      → Answers (IsAdmitted w s runs) s runs (authenticated S W d clock now id q s runs r)
  unfolding authenticated
  authenticated-IsAdmitted w s runs (thrown unauthorized, w₁) known at = (refl, refl)
  authenticated-IsAdmitted w s runs (thrown (other e), w₁) known at = (refl, refl)
  authenticated-IsAdmitted w s runs (returned principal, w₁) known at =
      Answers-map (IsRuled principal w₁ s runs) (IsAdmitted w s runs) s runs _
        (λ run st (decision, w₂, ruled, granted, (spec, w₃, resolves, last)). record {
          mode_known = known;
          principal = principal;
          w₁ = w₁;
          identified = at;
          decision = decision;
          w₂ = w₂;
          told = attributes q.repo;
          of_repository = attributes-Tells q.repo;
          ruled = ruled;
          allowed = granted;
          spec = spec;
          w₃ = w₃;
          resolves = resolves;
          last = last;
        })
        (decided-IsRuled principal w₁ s runs _ refl)

  checked-IsAdmitted :
      (mode : Option String) (w : W) (s : Store) (runs : Dict Run)
      → unknown_mode q.dispatch_mode d.modes ≡ mode
      → Answers (IsAdmitted w s runs) s runs (checked S W d clock now id q mode (w, (s, runs)))
  unfolding checked
  checked-IsAdmitted (some mode) w s runs e = (refl, refl)
  checked-IsAdmitted none w s runs e = authenticated-IsAdmitted w s runs _ e refl

  -- A run is accepted only for a caller that authenticates, whom the policy allows this action on
  -- this agent and, where one is named, this repository, for a registered agent and an available dispatch mode, and once the
  -- quota or the budget has cleared it; it is then stored as queued under that caller and handed to
  -- the dispatcher. Where the request is refused or a call throws, no tally and no run has changed.
  pub authorize_and_create-IsAdmitted :
      (w : W) (s : Store) (runs : Dict Run)
      → Answers
          (IsAdmitted w s runs)
          s
          runs
          (authorize_and_create S W d clock now id q (w, (s, runs)))
  unfolding authorize_and_create
  authorize_and_create-IsAdmitted w s runs = checked-IsAdmitted _ w s runs refl

  pub get-IsAdmitted :
      (w : W) (s : Store) (runs : Dict Run) (run : Run) (st : State S W)
      → IsAdmitted w s runs run st
      → Runs.get run.id st.1.1 ≡ some run
  get-IsAdmitted w s runs run st h = rw h.last.stored (get-create run runs)
