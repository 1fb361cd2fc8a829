-- ===== src/App/Isolation/Held.antt =====
-- What holding the agents means for the answers of the runtime's handler (services/agent-runtime/app.ts).
use creance.Prelude.{
  ℕ, String, Bool, true, false, Option, none, some, [], ◌∷◌, ◌≡◌, ◌≢◌, refl, not, str_eq, eq_iff,
  arith, sym, ap, ◌∙◌, ◌⊎◌, inl,
}
use creance.Prelude.Dict.{Dict}
use creance.Prelude.Outcome.{Outcome, returned, thrown, world_of_Ends}
use creance.Gate.{Principal, SpendStore}
use creance.Runs.{Run, AgentSpec}
use creance.Agents.{IsRegistry}
use creance.FrontDoor.{AuthFailure, PolicyDecision}
use creance.FrontDoor.World.{KeepsWorld}
use creance.App.Http.{HttpRequest, bearer, is_route}
use creance.App.{failure, Services, front, Answer, answer}
use creance.App.Writes.{has_other_owner}
use creance.App.Routes.{Replies}

-- `entry n w` is the agent that the world holds under the name `n`. The authenticator, the policy and
-- the dispatcher keep the agents.
pub record KeepsAgents (S : SpendStore) (W : Type 0) (d : Services S W)
    (entry : String → W → Option AgentSpec) : Type 0 where
  pub is_registry : IsRegistry W entry d.registry
  pub authenticates :
      (credential : Option String) (headers : Dict String) (w : W) (n : String)
      → entry n (d.authenticate credential headers w).1 ≡ entry n w
  pub authorizes :
      (p : Principal) (action : String) (resource : Option String)
      (attributes : Option (Dict String)) (w : W) (n : String)
      → entry n (d.authorize p action resource attributes w).1 ≡ entry n w
  pub dispatches : (run : Run) (w : W) (n : String) → entry n (d.dispatch run w) ≡ entry n w

-- An agent that is stored with a tenant, which is not the empty text, has this one.
abbrev pub Owns : String → Option AgentSpec → Type 0
Owns tenant none = Unit
Owns tenant (some agent) =
    (owner : String) → agent.tenant ≡ some owner → owner ≢ "" → owner ≡ tenant

pub has_other_owner-Owns :
    (existing : Option AgentSpec) (p : Principal)
    → has_other_owner existing p ≡ false
    → Owns p.tenant existing
has_other_owner-Owns none p own = tt
has_other_owner-Owns (some agent) p own = λ owner is_owner written.
    let named : str_eq owner "" ≡ false = ground (arith, eq_iff owner "", written) in
    let held : has_other_owner (some agent) p ≡ not (str_eq owner p.tenant) =
      rw is_owner (rw named refl) in
    let same : str_eq owner p.tenant ≡ true = ground (arith, sym held ∙ own) in
    (eq_iff owner p.tenant).0 same

module _ (S : SpendStore) (W : Type 0) (d : Services S W) (not_after : String → String → Bool)
    (clock now run_id : String) (q : HttpRequest) (entry : String → W → Option AgentSpec)
    (k : KeepsAgents S W d entry) (n : String) (w : W) where
  open S use {Store}

  -- The change that the request's route makes, as the policy is asked for it: a registration, with the
  -- kind of the agent, or a deletion.
  pub data IsChange : String → Option (Dict String) → Type 0 where
    registers :
        (kind : String)
        → is_route "POST" "/agents" q ≡ true
        → IsChange "agent:register" (some (("kind", kind) ∷ []))
    deletes : str_eq q.method "DELETE" ≡ true → IsChange "agent:delete" none

  -- The caller is authenticated, the policy allows this change of this agent, and no other tenant owns
  -- it.
  pub record MayChange : Type 0 where
    pub principal : Principal
    pub w₁ : W
    pub identified : d.authenticate (bearer q) q.headers w ≡ (returned principal, w₁)
    pub action : String
    pub attributes : Option (Dict String)
    pub change : IsChange action attributes
    pub decision : PolicyDecision
    pub w₂ : W
    pub ruled : d.authorize principal action (some n) attributes w₁ ≡ (returned decision, w₂)
    pub allowed : decision.allow ≡ true
    pub owned : Owns principal.tenant (entry n w)

  -- The agent of this name is as it was, or the caller may change it.
  abbrev pub IsHeld : W → Type 0
  IsHeld w' = (entry n w' ≡ entry n w) ⊎ MayChange

  abbrev pub Holds : Answer S W → Type 0
  Holds r =
      Replies S W d not_after clock now run_id q (λ body st. IsHeld st.0) (λ st. IsHeld st.0) r

  pub get_keeps : (name : String) (w' : W) → entry n (d.registry.get name w').1 ≡ entry n w'
  get_keeps name w' =
      world_of_Ends _ _ (λ w''. entry n w'' ≡ entry n w') (d.registry.get name w')
        (k.is_registry.get_entry name w') (λ a w'' h. h.1 n) (λ e w'' h. h n)

  pub keeps_world : KeepsWorld S W (front S W d) (λ w'. entry n w' ≡ entry n w)
  keeps_world = record {
    authenticates = λ credential headers w' h. k.authenticates credential headers w' n ∙ h;
    authorizes =
        λ p action resource attributes w' h. k.authorizes p action resource attributes w' n ∙ h;
    gets_agent = λ name w' h. get_keeps name w' ∙ h;
    dispatches = λ run w' h. k.dispatches run w' n ∙ h;
  }

  pub identified_keeps :
      (o : Outcome AuthFailure Principal) (w' : W)
      → d.authenticate (bearer q) q.headers w ≡ (o, w')
      → entry n w' ≡ entry n w
  identified_keeps o w' at =
      ap (λ x. entry n x.1) (sym at) ∙ k.authenticates (bearer q) q.headers w n

  module _ (s : Store) (runs : Dict Run) where
    pub fails-Holds :
        (status : ℕ) (error : String) (reason : Option String) (w' : W)
        → entry n w' ≡ entry n w
        → Holds (answer S W status (failure error reason) (w', (s, runs)))
    unfolding Replies
    fails-Holds status error reason w' h = inl h

    pub throws-Holds :
        (e : String) (w' : W) → entry n w' ≡ entry n w → Holds (thrown e, (w', (s, runs)))
    unfolding Replies
    throws-Holds e w' h = inl h
