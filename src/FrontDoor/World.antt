-- ===== src/FrontDoor/World.antt =====
-- What the authenticator, the authorizer, the registry and the dispatcher keep of their world, the
-- gate sequence keeps.
use creance.Prelude.{String, Option, none, some, ◌≡◌, refl, ◌⊎◌, inl, inr, if-both}
use creance.Prelude.Dict.{Dict}
use creance.Prelude.Outcome.{Outcome, returned, thrown}
use creance.Gate.{Principal, SpendStore, QuotaStatus, BudgetStatus}
use creance.Gate.Local.{reserve_run, check_budget}
use creance.Runs.{Run, AgentSpec}
use creance.FrontDoor.{
  AuthFailure, unauthorized, other, PolicyDecision, Request, GateOutcome, refused, unknown_mode,
  attributes, is_metered_by_runs, State, Providers, admit, by_quota, by_budget, gated, found,
  resolved, decided, authenticated, checked, authorize_and_create, new_run, quota_exhausted,
  budget_exceeded, forbidden,
}

module _ (S : SpendStore) (W : Type 0) (d : Providers S W) (B : W → Type 0) where
  open S use {Store}

  pub record KeepsWorld : Type 0 where
    pub authenticates :
        (credential : Option String) (headers : Dict String) (w : W)
        → B w
        → B (d.authenticate credential headers w).1
    pub authorizes :
        (p : Principal) (action : String) (resource : Option String)
        (attributes : Option (Dict String)) (w : W)
        → B w
        → B (d.authorize p action resource attributes w).1
    pub gets_agent : (name : String) (w : W) → B w → B (d.get_agent name w).1
    pub dispatches : (run : Run) (w : W) → B w → B (d.dispatch run w)

  module _ (clock now id : String) (q : Request) (k : KeepsWorld) where
    abbrev IsKept : Outcome String GateOutcome × State S W → Type 0
    IsKept r = B r.1.0

    admit-IsKept :
        (p : Principal) (w : W) (s : Store) (runs : Dict Run)
        → B w
        → IsKept (admit S W d clock now id q p w s runs)
    unfolding admit
    admit-IsKept p w s runs b = k.dispatches (new_run S W d clock now id q p) w b

    by_quota-IsKept :
        (p : Principal) (w : W) (runs : Dict Run) (r : QuotaStatus × Store)
        → B w
        → IsKept (by_quota S W d clock now id q p w runs r)
    unfolding by_quota
    by_quota-IsKept p w runs (quota, s) b =
        if-both IsKept quota.ok (admit S W d clock now id q p w s runs)
          (returned (refused 429 (quota_exhausted quota)), (w, (s, runs)))
          (admit-IsKept p w s runs b) b

    by_budget-IsKept :
        (p : Principal) (w : W) (s : Store) (runs : Dict Run) (budget : BudgetStatus)
        → B w
        → IsKept (by_budget S W d clock now id q p w s runs budget)
    unfolding by_budget
    by_budget-IsKept p w s runs budget b =
        if-both IsKept budget.ok (admit S W d clock now id q p w s runs)
          (returned (refused 402 budget_exceeded), (w, (s, runs))) (admit-IsKept p w s runs b) b

    gated-IsKept :
        (p : Principal) (spec : Option AgentSpec) (w : W) (s : Store) (runs : Dict Run)
        → B w
        → IsKept (gated S W d clock now id q p spec w s runs)
    unfolding gated
    gated-IsKept p spec w s runs b =
        if-both IsKept (is_metered_by_runs spec)
          (by_quota S W d clock now id q p w runs (reserve_run S d.gate clock p.tenant s))
          (by_budget S W d clock now id q p w s runs (check_budget S d.gate clock p.tenant s))
          (by_quota-IsKept p w runs (reserve_run S d.gate clock p.tenant s) b)
          (by_budget-IsKept p w s runs (check_budget S d.gate clock p.tenant s) b)

    found-IsKept :
        (p : Principal) (name : String) (s : Store) (runs : Dict Run)
        (r : Outcome String (Option AgentSpec) × W)
        → B r.1
        → IsKept (found S W d clock now id q p name s runs r)
    unfolding found
    found-IsKept p name s runs (thrown e, w) b = b
    found-IsKept p name s runs (returned none, w) b = b
    found-IsKept p name s runs (returned (some spec), w) b = gated-IsKept p (some spec) w s runs b

    resolved-IsKept :
        (p : Principal) (agent : Option String) (w : W) (s : Store) (runs : Dict Run)
        → B w
        → IsKept (resolved S W d clock now id q p agent w s runs)
    unfolding resolved
    resolved-IsKept p none w s runs b = gated-IsKept p none w s runs b
    resolved-IsKept p (some name) w s runs b =
        found-IsKept p name s runs (d.get_agent name w) (k.gets_agent name w b)

    decided-IsKept :
        (p : Principal) (s : Store) (runs : Dict Run) (r : Outcome String PolicyDecision × W)
        → B r.1
        → IsKept (decided S W d clock now id q p s runs r)
    unfolding decided
    decided-IsKept p s runs (thrown e, w) b = b
    decided-IsKept p s runs (returned decision, w) b =
        if-both IsKept decision.allow (resolved S W d clock now id q p q.agent w s runs)
          (returned (refused 403 (forbidden decision.reason)), (w, (s, runs)))
          (resolved-IsKept p q.agent w s runs b) b

    authenticated-IsKept :
        (s : Store) (runs : Dict Run) (r : Outcome AuthFailure Principal × W)
        → B r.1
        → IsKept (authenticated S W d clock now id q s runs r)
    unfolding authenticated
    authenticated-IsKept s runs (thrown unauthorized, w) b = b
    authenticated-IsKept s runs (thrown (other e), w) b = b
    authenticated-IsKept s runs (returned p, w) b =
        decided-IsKept p s runs _ (k.authorizes p "run:create" q.agent (attributes q.repo) w b)

    checked-IsKept :
        (mode : Option String) (w : W) (s : Store) (runs : Dict Run)
        → B w
        → IsKept (checked S W d clock now id q mode (w, (s, runs)))
    unfolding checked
    checked-IsKept (some mode) w s runs b = b
    checked-IsKept none w s runs b =
        authenticated-IsKept s runs _ (k.authenticates q.credential q.headers w b)

    pub authorize_and_create-IsKept :
        (w : W) (s : Store) (runs : Dict Run)
        → B w
        → IsKept (authorize_and_create S W d clock now id q (w, (s, runs)))
    unfolding authorize_and_create
    authorize_and_create-IsKept w s runs b =
        checked-IsKept (unknown_mode q.dispatch_mode d.modes) w s runs b

-- A caller that does not authenticate leaves the world as it was, or as authenticating leaves it.
module _ (S : SpendStore) (W : Type 0) (d : Providers S W) (clock now id : String) (q : Request)
    (e : AuthFailure) (w w₁ : W) (s : S.Store) (runs : Dict Run)
    (unknown : d.authenticate q.credential q.headers w ≡ (thrown e, w₁)) where
  authenticated_world :
      (why : AuthFailure) → (authenticated S W d clock now id q s runs (thrown why, w₁)).1.0 ≡ w₁
  unfolding authenticated
  authenticated_world unauthorized = refl
  authenticated_world (other why) = refl

  checked_world :
      (mode : Option String)
      → ((checked S W d clock now id q mode (w, (s, runs))).1.0 ≡ w)
        ⊎ ((checked S W d clock now id q mode (w, (s, runs))).1.0 ≡ w₁)
  unfolding checked
  checked_world (some mode) = inl refl
  checked_world none = inr (rw unknown (authenticated_world e))

  pub authorize_and_create_world :
      ((authorize_and_create S W d clock now id q (w, (s, runs))).1.0 ≡ w)
      ⊎ ((authorize_and_create S W d clock now id q (w, (s, runs))).1.0 ≡ w₁)
  unfolding authorize_and_create
  authorize_and_create_world = checked_world (unknown_mode q.dispatch_mode d.modes)
