-- ===== src/Gateway/Turns.antt =====
-- Whose provider answers `POST /v1/generate` (services/inference-gateway/generate.ts).
use creance.Prelude.{String, Option, some, ◌≡◌, ◌≢◌}
use creance.Prelude.Dict.{Dict}
use creance.Prelude.Outcome.{Outcome, returned, thrown}
use creance.Ports.Json.{Json}
use creance.Gate.{Principal}
use creance.Gateway.{Fault}
use creance.Gateway.Generate.{
  GenerateFault, over, fault, GenerateReply, refused, over_budget, invalid, failed, turned, Ask,
  ask_of, bearer_in, Provider, GenerateDeps, provided, model_named,
}

module _ (W : Type 0) (d : GenerateDeps W) (headers : Dict String) (w : W) where
  -- The caller's own calls, up to the provider of its tenant, with its token, for the body's session and
  -- the model of its claim.
  pub record IsProvided (ask : Ask) (provider : Provider W) (at : W) : Type 0 where
    pub principal : Principal
    pub known : W
    pub authenticated : d.authenticate (bearer_in headers) headers w ≡ (returned principal, known)
    pub model : Option String
    pub named : W
    pub modelled : model_named W d principal.subject known ≡ (returned model, named)
    pub resolved :
        d.inference_for_tenant principal.tenant principal.token ask.session model named
        ≡ (returned provider, at)

  pub record IsTurned (body : Option Json) (turn : Json) (w' : W) : Type 0 where
    pub parsed : Json
    pub sent : body ≡ some parsed
    pub ask : Ask
    pub asked : ask_of parsed ≡ some ask
    pub provider : Provider W
    pub at : W
    pub provided : IsProvided ask provider at
    pub generated : provider ask.messages ask.tools ask.max_tokens at ≡ (returned turn, w')

  -- What a call has thrown once the body was read: looking up the caller's model, resolving the
  -- provider, or its turn; the world is then as this call leaves it.
  pub data IsBroken (ask : Ask) (e : GenerateFault) (w' : W) : Type 0 where
    model_broke :
        (p : Principal) (known : W)
        → d.authenticate (bearer_in headers) headers w ≡ (returned p, known)
        → model_named W d p.subject known ≡ (thrown e, w')
        → IsBroken ask e w'
    provider_broke :
        (p : Principal) (known : W) (model : Option String) (named : W)
        → d.authenticate (bearer_in headers) headers w ≡ (returned p, known)
        → model_named W d p.subject known ≡ (returned model, named)
        → d.inference_for_tenant p.tenant p.token ask.session model named ≡ (thrown e, w')
        → IsBroken ask e w'
    turn_broke :
        (provider : Provider W) (at : W)
        → IsProvided ask provider at
        → provider ask.messages ask.tools ask.max_tokens at ≡ (thrown e, w')
        → IsBroken ask e w'

  pub record IsFaulted (body : Option Json) (e : GenerateFault) (w' : W) : Type 0 where
    pub parsed : Json
    pub sent : body ≡ some parsed
    pub ask : Ask
    pub asked : ask_of parsed ≡ some ask
    pub broken : IsBroken ask e w'

  -- A refusal leaves the world as authenticating the caller leaves it; the other failures name what was
  -- thrown.
  unfoldable pub Serves : Option Json → Outcome String GenerateReply × W → Type 0
  Serves body (thrown e, w') = w' ≡ (d.authenticate (bearer_in headers) headers w).1
  Serves body (returned (refused status error), w') =
      w' ≡ (d.authenticate (bearer_in headers) headers w).1
  Serves body (returned (turned turn), w') = IsTurned body turn w'
  Serves body (returned (over_budget status), w') = IsFaulted body (over status) w'
  Serves body (returned (invalid detail), w') =
      (e : Fault) × (e.name ≡ "ValidationException")
      × (e.message ≡ detail)
      × IsFaulted body (fault e) w'
  Serves body (returned (failed detail), w') =
      (e : Fault) × (e.name ≢ "ValidationException")
      × (e.message ≡ detail)
      × IsFaulted body (fault e) w'
