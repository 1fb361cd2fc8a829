-- ===== src/Gateway/Claims.antt =====
-- Self-service grants: `validateClaim` (packages/core/src/claims.ts) and `POST /claims`
-- (services/inference-gateway/claims.ts). An amount is in units of 1e-8 USD; `Number(v)`, in these units,
-- is a parameter.
use creance.Prelude.{
  ℕ, zero, String, Bool, true, false, Option, none, some, List, str_eq, if◌then◌else◌,
}
use creance.Prelude.Int.{ℤ, pos, ltb_ℤ}
use creance.Prelude.Dict.{Dict, lookup}
use creance.Prelude.Outcome.{Outcome, returned, thrown, Action}
use creance.Ports.Json.{Json, null, bool, num, str, integer}
use creance.Ports.Fields.{member}
use creance.Executor.Texts.{truthy}
use creance.Gate.Caps.{Amount, finite, infinite, not_a_number, exceeds}
use creance.FrontDoor.{has}
use creance.App.Http.{without_bearer}

pub record InferenceClaim : Type 0 where
  pub tenant : String
  pub service_account : Option String
  pub model : Option Json
  pub monthly_budget : Option Amount
  pub session_budget : Option Amount

pub record Allowance : Type 0 where
  pub max_monthly : Amount
  pub allowed_models : List String

-- Why a claim is rejected.
pub data ClaimFault : Type 0 where
  monthly_not_a_budget session_over_monthly no_model monthly_over_allowance model_not_allowed :
      ClaimFault

-- A finite budget that is not negative.
abbrev pub budget_of : Option Amount → Option ℤ
budget_of (some (finite n)) = if ltb_ℤ n (pos 0) then none else some n
budget_of _ = none

-- `session != null && session > monthly`
abbrev pub is_over : Option Amount → ℤ → Bool
is_over none monthly = false
is_over (some (finite n)) monthly = ltb_ℤ monthly n
is_over (some infinite) monthly = true
is_over (some not_a_number) monthly = false

-- The model of a claim, which may be any JSON, where it is truthy.
unfoldable pub given_model : Option Json → Option Json
given_model none = none
given_model (some null) = none
given_model (some (bool false)) = none
given_model (some (num (integer (pos zero)))) = none
given_model (some (str s)) = if str_eq s "" then none else some (str s)
given_model (some model) = some model

-- `allowedModels.includes(model)`
abbrev pub lists_model : Json → List String → Bool
lists_model (str model) names = has model names
lists_model _ names = false

unfoldable pub fault_of_model : Option Json → ℤ → Allowance → Option ClaimFault
fault_of_model none monthly allowance = some no_model
fault_of_model (some model) monthly allowance =
    if exceeds monthly allowance.max_monthly
    then some monthly_over_allowance
    else if lists_model model allowance.allowed_models
    then none
    else some model_not_allowed

unfoldable pub fault_of_budget : InferenceClaim → Option ℤ → Allowance → Option ClaimFault
unfolding fault_of_model given_model
fault_of_budget claim none allowance = some monthly_not_a_budget
fault_of_budget claim (some monthly) allowance =
    if is_over claim.session_budget monthly
    then some session_over_monthly
    else fault_of_model (given_model claim.model) monthly allowance

-- `none` where the claim is ok.
unfoldable pub validate_claim : InferenceClaim → Allowance → Option ClaimFault
unfolding fault_of_budget
validate_claim claim allowance = fault_of_budget claim (budget_of claim.monthly_budget) allowance

pub data ClaimReply : Type 0 where
  refused : (status : ℕ) (error : String) → ClaimReply
  rejected : ClaimFault → ClaimReply
  created : InferenceClaim → ClaimReply

bearer_text : Option String → Option String
bearer_text none = none
bearer_text (some s) = truthy (some (without_bearer s))

unfoldable pub bearer_of : Dict String → Option String
unfolding bearer_text without_bearer lookup
bearer_of headers = bearer_text (lookup "authorization" headers)

module _ (W : Type 0) (number_of : Json → Amount) where
  pub record ClaimWrite : Type 0 where
    pub verify_identity : String → Action String W (Option String)
    pub allowance : Allowance
    pub put_claim : InferenceClaim → Action String W Unit

  -- `v == null ? undefined : Number(v)`
  number_at : Option Json → Option Amount
  number_at none = none
  number_at (some null) = none
  number_at (some v) = some (number_of v)

  -- The tenant is the verified identity, and so is the account.
  unfoldable pub claim_of : String → Json → InferenceClaim
  unfolding number_at member
  claim_of subject body = record {
    tenant = subject;
    service_account = some subject;
    model = member "model" body;
    monthly_budget = number_at (member "monthlyBudgetUsd" body);
    session_budget = number_at (member "sessionBudgetUsd" body);
  }

  module _ (d : ClaimWrite) where
    unfoldable pub stored : InferenceClaim → Outcome String Unit × W → Outcome String ClaimReply × W
    stored claim (returned _, w) = (returned (created claim), w)
    stored claim (thrown e, w) = (thrown e, w)

    unfoldable pub judged : InferenceClaim → Option ClaimFault → Action String W ClaimReply
    unfolding stored
    judged claim (some fault) w = (returned (rejected fault), w)
    judged claim none w = stored claim (d.put_claim claim w)

    unfoldable pub read : String → Option Json → Action String W ClaimReply
    unfolding judged claim_of validate_claim
    read subject none w = (returned (refused 400 "invalid JSON body"), w)
    read subject (some null) w = (thrown "the body is null", w)
    read subject (some body) w =
        let claim = claim_of subject body in judged claim (validate_claim claim d.allowance) w

    unfoldable pub by_subject : Option Json → Option String → Action String W ClaimReply
    unfolding read
    by_subject body none w = (returned (refused 401 "unauthorized"), w)
    by_subject body (some subject) w = read subject body w

    unfoldable pub verified :
        Option Json → Outcome String (Option String) × W → Outcome String ClaimReply × W
    unfolding by_subject
    verified body (thrown e, w) = (thrown e, w)
    verified body (returned subject, w) = by_subject body (truthy subject) w

    unfoldable pub by_token : Option Json → Option String → Action String W ClaimReply
    unfolding verified
    by_token body none w = (returned (refused 401 "missing bearer token"), w)
    by_token body (some token) w = verified body (d.verify_identity token w)

    unfoldable pub handle_create_claim : Dict String → Option Json → Action String W ClaimReply
    unfolding by_token bearer_of
    handle_create_claim headers body w = by_token body (bearer_of headers) w
