-- ===== src/FrontDoor/Texts.antt =====
-- The texts of a refusal by the gate sequence (services/agent-runtime/router.ts): `error` and
-- `reason`.
use Prim.Native.String
use creance.Prelude.{String, Option, none, some, List, [], ◌∷◌}
use creance.Ports.Json.{number_text, integer}
use creance.Gate.Caps.{Amount, finite, infinite, not_a_number}
use creance.FrontDoor.{
  Refusal, unknown_dispatch, no_identity, forbidden, unknown_agent, quota_exhausted,
  budget_exceeded,
}

infixr 65 ◌<>◌
abbrev ◌<>◌ : String → String → String
s <> t = String.◌++◌ s t

-- `xs.join(separator)`
unfoldable pub joined : String → List String → String
joined separator [] = ""
joined separator (s ∷ []) = s
joined separator (s ∷ t ∷ more) = s <> separator <> joined separator (t ∷ more)

amount_text : Amount → String
amount_text (finite n) = number_text (integer n)
amount_text infinite = "Infinity"
amount_text not_a_number = "NaN"

unfoldable pub error_text : Refusal → String
unfolding joined
error_text (unknown_dispatch mode modes) =
    "unknown dispatch '" <> mode <> "' (available: " <> joined ", " modes <> ")"
error_text no_identity = "unauthorized"
error_text (forbidden reason) = "forbidden"
error_text (unknown_agent name) = "unknown agent '" <> name <> "'"
error_text (quota_exhausted quota) = "run quota exhausted"
error_text budget_exceeded = "budget exceeded"

unfoldable pub reason_text : Refusal → Option String
unfolding amount_text
reason_text (forbidden reason) = reason
reason_text (quota_exhausted quota) = some (
    number_text (integer quota.used)
    <> "/"
    <> amount_text quota.limit
    <> " claude-code runs this period")
reason_text _ = none
