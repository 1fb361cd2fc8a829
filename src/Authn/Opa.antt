-- ===== src/Authn/Opa.antt =====
-- The policy engine's decision (packages/core/src/adapters/opa-authorizer.ts). The call of the engine is
-- a parameter, and so is the text of the runtime's error on a null result.
use creance.Prelude.{
  ℕ, String, Bool, true, false, Option, none, some, ◌≡◌, ◌⊎◌, inl, inr, refl, if◌then◌else◌,
}
use creance.Prelude.Text.{◌<>◌}
use creance.Prelude.Dict.{Dict}
use creance.Prelude.Outcome.{Outcome, returned, thrown, Action}
use creance.Ports.Json.{Json, null, bool, num, str, arr, obj, decimal}
use creance.Ports.Fields.{member}
use creance.Gate.{Principal}
use creance.FrontDoor.{PolicyDecision}

pub record PolicyInput : Type 0 where
  pub principal : Principal
  pub action : String
  pub resource : Option String
  pub attributes : Option (Dict String)

-- The engine's answer; reading its body may throw.
pub record PolicyAnswer : Type 0 where
  pub ok : Bool
  pub status : ℕ
  pub json : Outcome String Json

denied : String → PolicyDecision
denied reason = record { allow = false; reason = some reason }

-- `v === true`
allows : Option Json → Bool
allows (some (bool true)) = true
allows _ = false

-- A reason that is no text is left out.
reason_at : Option Json → Option String
reason_at (some (str s)) = some s
reason_at _ = none

-- Reading a field of null throws; the text of that error is the runtime's.
unfoldable pub decision_of : String → Option Json → PolicyDecision
unfolding denied allows reason_at member
decision_of null_error none = denied "opa: no decision (undefined result)"
decision_of null_error (some (bool b)) = record { allow = b; reason = none }
decision_of null_error (some null) = denied ("opa unreachable: " <> null_error)
decision_of null_error (some v) = record {
  allow = allows (member "allow" v);
  reason = reason_at (member "reason" v);
}

unfoldable pub decision_in : String → Outcome String Json → PolicyDecision
unfolding decision_of denied member
decision_in null_error (returned body) = decision_of null_error (member "result" body)
decision_in null_error (thrown e) = denied ("opa unreachable: " <> e)

unfoldable pub decision_by : String → Outcome String PolicyAnswer → PolicyDecision
unfolding decision_in denied decimal
decision_by null_error (thrown e) = denied ("opa unreachable: " <> e)
decision_by null_error (returned answer) =
    if answer.ok
    then decision_in null_error answer.json
    else denied ("opa http " <> decimal answer.status)

module _ {W : Type 0} (null_error : String)
    (post : PolicyInput → Action String W PolicyAnswer) where
  unfoldable pub decided_by : Outcome String PolicyAnswer × W → Outcome String PolicyDecision × W
  unfolding decision_by
  decided_by (o, w) = (returned (decision_by null_error o), w)

  unfoldable pub opa_authorize :
      Principal → String → Option String → Option (Dict String) → Action String W PolicyDecision
  unfolding decided_by
  opa_authorize principal action resource attributes w = decided_by (
      post
        (record {
          principal = principal;
          action = action;
          resource = resource;
          attributes = attributes;
        })
        w)

-- The engine has answered, its body is read, and its result allows the action.
pub record IsBacked (o : Outcome String PolicyAnswer) : Type 0 where
  pub answer : PolicyAnswer
  pub body : Json
  pub result : Json
  pub came : o ≡ returned answer
  pub fine : answer.ok ≡ true
  pub parsed : answer.json ≡ returned body
  pub held : member "result" body ≡ some result
  pub allowed : (result ≡ bool true) ⊎ (member "allow" result ≡ some (bool true))

unfoldable pub Backs : Bool → Outcome String PolicyAnswer → Type 0
Backs true o = IsBacked o
Backs false o = Unit

-- What an allowing result says.
abbrev Says : Json → Bool → Type 0
Says result true = (result ≡ bool true) ⊎ (member "allow" result ≡ some (bool true))
Says result false = Unit

allows-Says : (result : Json) (v : Option Json) → member "allow" result ≡ v → Says result (allows v)
unfolding allows
allows-Says result none e = tt
allows-Says result (some (bool true)) e = inr e
allows-Says result (some (bool false)) e = tt
allows-Says result (some null) e = tt
allows-Says result (some (num n)) e = tt
allows-Says result (some (str s)) e = tt
allows-Says result (some (arr items)) e = tt
allows-Says result (some (obj fields)) e = tt

decision_of-Says :
    (null_error : String) (result : Json) → Says result (decision_of null_error (some result)).allow
unfolding decision_of allows-Says
decision_of-Says null_error null = tt
decision_of-Says null_error (bool true) = inl refl
decision_of-Says null_error (bool false) = tt
decision_of-Says null_error (num n) = allows-Says (num n) _ refl
decision_of-Says null_error (str s) = allows-Says (str s) _ refl
decision_of-Says null_error (arr items) = allows-Says (arr items) _ refl
decision_of-Says null_error (obj fields) = allows-Says (obj fields) _ refl

backed :
    (b : Bool) (answer : PolicyAnswer) (body result : Json)
    → answer.ok ≡ true
    → answer.json ≡ returned body
    → member "result" body ≡ some result
    → Says result b
    → Backs b (returned answer)
unfolding Backs
backed false answer body result fine parsed held said = tt
backed true answer body result fine parsed held said = record {
  answer = answer;
  body = body;
  result = result;
  came = refl;
  fine = fine;
  parsed = parsed;
  held = held;
  allowed = said;
}

decision_of-Backs :
    (null_error : String) (answer : PolicyAnswer) (body : Json) (v : Option Json)
    → answer.ok ≡ true
    → answer.json ≡ returned body
    → member "result" body ≡ v
    → Backs (decision_of null_error v).allow (returned answer)
unfolding Backs denied decision_of
decision_of-Backs null_error answer body none fine parsed held = tt
decision_of-Backs null_error answer body (some result) fine parsed held =
    backed _ answer body result fine parsed held (decision_of-Says null_error result)

decision_in-Backs :
    (null_error : String) (answer : PolicyAnswer) (json : Outcome String Json)
    → answer.ok ≡ true
    → answer.json ≡ json
    → Backs (decision_in null_error json).allow (returned answer)
unfolding Backs decision_in denied
decision_in-Backs null_error answer (thrown e) fine parsed = tt
decision_in-Backs null_error answer (returned body) fine parsed =
    decision_of-Backs null_error answer body _ fine parsed refl

answered-Backs :
    (null_error : String) (answer : PolicyAnswer) (ok : Bool) (refusal : String)
    → answer.ok ≡ ok
    → Backs
        (if ok then decision_in null_error answer.json else denied refusal).allow
        (returned answer)
unfolding Backs denied
answered-Backs null_error answer true refusal fine = decision_in-Backs null_error answer _ fine refl
answered-Backs null_error answer false refusal fine = tt

decision_by-Backs :
    (null_error : String) (o : Outcome String PolicyAnswer)
    → Backs (decision_by null_error o).allow o
unfolding Backs decision_by denied
decision_by-Backs null_error (thrown e) = tt
decision_by-Backs null_error (returned answer) = answered-Backs null_error answer answer.ok _ refl

pub record IsFailClosed {W : Type 0} (o : Outcome String PolicyAnswer × W)
    (r : Outcome String PolicyDecision × W) : Type 0 where
  pub decision : PolicyDecision
  pub answers : r ≡ (returned decision, o.1)
  pub backs : Backs decision.allow o.0

module _ {W : Type 0} (null_error : String)
    (post : PolicyInput → Action String W PolicyAnswer) where
  decided_by-IsFailClosed :
      (o : Outcome String PolicyAnswer × W) → IsFailClosed o (decided_by null_error post o)
  unfolding decided_by
  decided_by-IsFailClosed o = record {
    decision = decision_by null_error o.0;
    answers = refl;
    backs = decision_by-Backs null_error o.0;
  }

  -- The authorizer asks the engine once and always answers with a decision; it allows an action only
  -- where the engine has answered with a good status and a body whose result is true, or allows it.
  pub opa_authorize-IsFailClosed :
      (principal : Principal) (action : String) (resource : Option String)
      (attributes : Option (Dict String)) (w : W)
      → IsFailClosed
          (post
            (record {
              principal = principal;
              action = action;
              resource = resource;
              attributes = attributes;
            })
            w)
          (opa_authorize null_error post principal action resource attributes w)
  unfolding opa_authorize
  opa_authorize-IsFailClosed principal action resource attributes w = decided_by-IsFailClosed _
