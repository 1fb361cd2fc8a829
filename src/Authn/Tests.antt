-- ===== src/Authn/Tests.antt =====
-- Callers of a composite of two lists of tokens, and a policy engine that answers at once.
use creance.Prelude.{ℕ, suc, String, true, some, none, [], ◌∷◌, ◌≡◌, refl}
use creance.Prelude.Outcome.{returned, Action}
use creance.Ports.Json.{bool, obj, field, end}
use creance.Gate.{Principal}
use creance.Executor.Texts.{trim}
use creance.Dispatch.Env.{words, or_value}
use creance.Authn.{AuthnContext, Authenticator, composite, try_all}
use creance.Authn.First.{Composes, composite-Composes}
use creance.Authn.Opa.{
  PolicyInput, PolicyAnswer, opa_authorize, IsFailClosed, opa_authorize-IsFailClosed,
}
use creance.Authn.Tokens.{static_tokens}
use creance.Authn.Tokens.Listed.{Answers, static_tokens-Answers}

abbrev asked : AuthnContext
asked = record { credential = some "tok-b"; headers = [] }

abbrev people : Authenticator ℕ
people = static_tokens (some "tok-a:teamA:alice")

abbrev machines : Authenticator ℕ
machines = static_tokens (some "tok-b:old, tok-b:teamB:bot")

abbrev bot : Principal
bot = record { tenant = "teamB"; subject = "bot"; groups = none; token = none; actors = none }

abbrev post : PolicyInput → Action String ℕ PolicyAnswer
post input w = (
  returned (record {
    ok = true;
    status = 200;
    json = returned (obj (field "result" (obj (field "allow" (bool true) end)) end));
  }),
  suc w,
)

composite-Composes_example :
    Composes asked (people ∷ machines ∷ []) 0 (composite (people ∷ machines ∷ []))
composite-Composes_example = composite-Composes asked (people ∷ machines ∷ []) 0

second_decides : try_all (people ∷ machines ∷ []) asked none 0 ≡ (returned bot, 0)
unfolding try_all static_tokens trim or_value
second_decides = refl

static_tokens-Answers_example :
    Answers {W = ℕ}
      (words (or_value (some "tok-b:old, tok-b:teamB:bot") ""))
      (some "tok-b")
      0
      (machines.authenticate asked 0)
static_tokens-Answers_example =
    static_tokens-Answers {W = ℕ} (some "tok-b:old, tok-b:teamB:bot") asked 0

opa_authorize-IsFailClosed_example :
    IsFailClosed
      (post
        (record {
          principal = bot;
          action = "run:create";
          resource = some "coder";
          attributes = none;
        })
        0)
      (opa_authorize "null" post bot "run:create" (some "coder") none 0)
opa_authorize-IsFailClosed_example =
    opa_authorize-IsFailClosed "null" post bot "run:create" (some "coder") none 0
