-- ===== src/Gateway/Generate.antt =====
-- services/inference-gateway/generate.ts: `POST /v1/generate`, one turn of a tenant's provider.
use creance.Prelude.{ℕ, String, Option, none, some, str_eq, if◌then◌else◌}
use creance.Prelude.Dict.{Dict, lookup}
use creance.Prelude.Outcome.{Outcome, returned, thrown, Action}
use creance.Ports.Json.{Json, null, num, arr, Items, nil, Number}
use creance.Ports.Fields.{member}
use creance.Gate.{Principal, BudgetStatus}
use creance.FrontDoor.{AuthFailure, unauthorized, other}
use creance.App.Http.{without_bearer}
use creance.Gateway.{Fault}

-- What an awaited call throws: a `BudgetExceededError`, or another error.
pub data GenerateFault : Type 0 where
  over : BudgetStatus → GenerateFault
  fault : Fault → GenerateFault

pub data GenerateReply : Type 0 where
  refused : (status : ℕ) (error : String) → GenerateReply
  over_budget : BudgetStatus → GenerateReply
  invalid : (detail : String) → GenerateReply
  failed : (detail : String) → GenerateReply
  turned : Json → GenerateReply

-- What the body asks: its messages, its tools, its session and its bound on tokens.
pub record Ask : Type 0 where
  pub messages : Items
  pub tools : Json
  pub session : Option Json
  pub max_tokens : Number

-- `body.tools ?? []`
tools_or : Option Json → Json
tools_or none = arr nil
tools_or (some null) = arr nil
tools_or (some v) = v

asked_of : Json → Option Json → Option Json → Option Ask
unfolding tools_or member
asked_of body (some (arr messages)) (some (num max_tokens)) = some (record {
  messages = messages;
  tools = tools_or (member "tools" body);
  session = member "sessionId" body;
  max_tokens = max_tokens;
})
asked_of body _ _ = none

unfoldable pub ask_of : Json → Option Ask
unfolding asked_of member
ask_of body = asked_of body (member "messages" body) (member "maxTokens" body)

unfoldable pub reply_to : GenerateFault → GenerateReply
reply_to (over status) = over_budget status
reply_to (fault e) =
    if str_eq e.name "ValidationException" then invalid e.message else failed e.message

bearer_text : Option String → Option String
unfolding without_bearer
bearer_text none = none
bearer_text (some s) = some (without_bearer s)

unfoldable pub bearer_in : Dict String → Option String
unfolding bearer_text lookup
bearer_in headers = bearer_text (lookup "authorization" headers)

module _ (W : Type 0) where
  abbrev pub Provider : Type 0
  Provider = Items → Json → Number → Action GenerateFault W Json

  pub record GenerateDeps : Type 0 where
    pub authenticate : Option String → Dict String → W → Outcome AuthFailure Principal × W
    pub inference_for_tenant :
        String → Option String → Option Json → Option String → Action GenerateFault W Provider
    pub model_for : Option (String → Action GenerateFault W (Option String))

  module _ (d : GenerateDeps) where
    unfoldable pub replied : Outcome GenerateFault Json × W → Outcome String GenerateReply × W
    unfolding reply_to
    replied (returned turn, w) = (returned (turned turn), w)
    replied (thrown e, w) = (returned (reply_to e), w)

    unfoldable pub provided :
        Ask → Outcome GenerateFault Provider × W → Outcome String GenerateReply × W
    unfolding replied reply_to
    provided ask (returned provider, w) = replied (provider ask.messages ask.tools ask.max_tokens w)
    provided ask (thrown e, w) = (returned (reply_to e), w)

    unfoldable pub routed :
        Principal
        → Ask
        → Outcome GenerateFault (Option String) × W
        → Outcome String GenerateReply × W
    unfolding provided reply_to
    routed p ask (returned model, w) =
        provided ask (d.inference_for_tenant p.tenant p.token ask.session model w)
    routed p ask (thrown e, w) = (returned (reply_to e), w)

    -- Without a lookup of claims no model is named.
    model_by :
        Option (String → Action GenerateFault W (Option String))
        → String
        → Action GenerateFault W (Option String)
    model_by none subject w = (returned none, w)
    model_by (some find) subject w = find subject w

    unfoldable pub model_named : String → Action GenerateFault W (Option String)
    unfolding model_by
    model_named subject w = model_by d.model_for subject w

    unfoldable pub run_turn : Principal → Option Ask → Action String W GenerateReply
    unfolding routed model_named
    run_turn p none w =
        (returned (refused 400 "missing 'messages' (array) / 'maxTokens' (number)"), w)
    run_turn p (some ask) w = routed p ask (model_named p.subject w)

    unfoldable pub read_ask : Principal → Option Json → Action String W GenerateReply
    unfolding run_turn ask_of
    read_ask p none w = (returned (refused 400 "invalid JSON body"), w)
    read_ask p (some null) w = (thrown "the body is null", w)
    read_ask p (some body) w = run_turn p (ask_of body) w

    unfoldable pub admitted :
        Option Json → Outcome AuthFailure Principal × W → Outcome String GenerateReply × W
    unfolding read_ask
    admitted body (returned p, w) = read_ask p body w
    admitted body (thrown unauthorized, w) = (returned (refused 401 "unauthorized"), w)
    admitted body (thrown (other e), w) = (thrown e, w)

    unfoldable pub handle_generate : Dict String → Option Json → Action String W GenerateReply
    unfolding admitted bearer_in
    handle_generate headers body w = admitted body (d.authenticate (bearer_in headers) headers w)
