-- ===== src/Gateway/Allowed.antt =====
-- When a claim is within its allowance (validateClaim of packages/core/src/claims.ts).
use creance.Prelude.{
  zero, suc, String, true, false, List, [], ◌∷◌, ◌≢◌, ◌⊎◌, str_eq, eq_iff, arith, subst, Option,
  none, some, ◌≡◌, refl, ap, ◌∙◌, inl, inr, Bool-cases,
}
use creance.Prelude.Int.{negsuc, ℤ, pos, ◌≤ℤ◌, ltb_ℤ}
use creance.Ports.Json.{Json, null, bool, num, str, arr, obj, integer, fractional}
use creance.Gate.Caps.{Amount, finite, infinite, not_a_number, exceeds}
use creance.FrontDoor.{has}
use creance.Gateway.Claims.{
  given_model, lists_model, InferenceClaim, Allowance, ClaimFault, budget_of, is_over,
  fault_of_model, fault_of_budget, validate_claim,
}

le-of_ltb : (a b : ℤ) → ltb_ℤ a b ≡ false → b ≤ℤ a
le-of_ltb a b e = ground arith

-- A session budget that is given is not infinite and not over the monthly one; one that is no number
-- passes.
abbrev pub IsUnderMonthly : Option Amount → ℤ → Type 0
IsUnderMonthly none monthly = Unit
IsUnderMonthly (some (finite session)) monthly = session ≤ℤ monthly
IsUnderMonthly (some infinite) monthly = ⊥
IsUnderMonthly (some not_a_number) monthly = Unit

-- An allowance may be infinite; one that is no number bounds nothing.
abbrev pub IsUnderMost : ℤ → Amount → Type 0
IsUnderMost monthly (finite most) = monthly ≤ℤ most
IsUnderMost monthly infinite = Unit
IsUnderMost monthly not_a_number = Unit

abbrev pub IsAmong : String → List String → Type 0
IsAmong model [] = ⊥
IsAmong model (name ∷ names) = (model ≡ name) ⊎ IsAmong model names

-- What a claim within its allowance is.
pub record IsAllowed (claim : InferenceClaim) (allowance : Allowance) : Type 0 where
  pub monthly : ℤ
  pub budgeted : claim.monthly_budget ≡ some (finite monthly)
  pub not_negative : pos 0 ≤ℤ monthly
  pub session_under : IsUnderMonthly claim.session_budget monthly
  pub model : String
  pub named : claim.model ≡ some (str model)
  pub not_empty : model ≢ ""
  pub under : IsUnderMost monthly allowance.max_monthly
  pub known : IsAmong model allowance.allowed_models

budget_of-finite :
    (budget : Option Amount) (monthly : ℤ)
    → budget_of budget ≡ some monthly
    → (budget ≡ some (finite monthly)) × (pos 0 ≤ℤ monthly)
budget_of-finite none monthly e = absurd cc
budget_of-finite (some infinite) monthly e = absurd cc
budget_of-finite (some not_a_number) monthly e = absurd cc
budget_of-finite (some (finite n)) monthly e = elim (Bool-cases (ltb_ℤ n (pos 0))) [
  | inl negative ↦ let refusal : budget_of (some (finite n)) ≡ none = rw negative refl in absurd cc
  | inr fine ↦
      let kept : budget_of (some (finite n)) ≡ some n = rw fine refl in
      let same : n ≡ monthly = cc in
      (ap (λ k. some (finite k)) same, subst (λ k. pos 0 ≤ℤ k) same (le-of_ltb n (pos 0) fine))
]

is_over-IsUnderMonthly :
    (session : Option Amount) (monthly : ℤ)
    → is_over session monthly ≡ false
    → IsUnderMonthly session monthly
is_over-IsUnderMonthly none monthly e = tt
is_over-IsUnderMonthly (some (finite n)) monthly e = le-of_ltb monthly n e
is_over-IsUnderMonthly (some infinite) monthly e = absurd cc
is_over-IsUnderMonthly (some not_a_number) monthly e = tt

exceeds-IsUnderMost :
    (monthly : ℤ) (most : Amount) → exceeds monthly most ≡ false → IsUnderMost monthly most
exceeds-IsUnderMost monthly (finite most) e = le-of_ltb most monthly e
exceeds-IsUnderMost monthly infinite e = tt
exceeds-IsUnderMost monthly not_a_number e = tt

has-IsAmong : (model : String) (names : List String) → has model names ≡ true → IsAmong model names
has-IsAmong model [] e = absurd cc
has-IsAmong model (name ∷ names) e = elim (Bool-cases (str_eq model name)) [
  | inl same ↦ inl ((eq_iff model name).0 same)
  | inr other ↦ inr (has-IsAmong model names (ground arith))
]

lists_model-str :
    (model : Json) (names : List String)
    → lists_model model names ≡ true
    → (s : String) × (model ≡ str s) × IsAmong s names
lists_model-str null names e = absurd cc
lists_model-str (bool b) names e = absurd cc
lists_model-str (num n) names e = absurd cc
lists_model-str (str s) names e = (s, refl, has-IsAmong s names e)
lists_model-str (arr items) names e = absurd cc
lists_model-str (obj fields) names e = absurd cc

-- A text that is a claim's model is the one that the claim names, and not empty.
given_model-str :
    (o : Option Json) (s : String) → given_model o ≡ some (str s) → (o ≡ some (str s)) × (s ≢ "")
unfolding given_model
given_model-str none s e = absurd cc
given_model-str (some null) s e = absurd cc
given_model-str (some (bool true)) s e = absurd cc
given_model-str (some (bool false)) s e = absurd cc
given_model-str (some (num (integer (pos zero)))) s e = absurd cc
given_model-str (some (num (integer (pos (suc n))))) s e = absurd cc
given_model-str (some (num (integer (negsuc n)))) s e = absurd cc
given_model-str (some (num (fractional below text))) s e = absurd cc
given_model-str (some (arr items)) s e = absurd cc
given_model-str (some (obj fields)) s e = absurd cc
given_model-str (some (str t)) s e = elim (Bool-cases (str_eq t "")) [
  | inl empty ↦ let nothing : given_model (some (str t)) ≡ none = rw empty refl in absurd cc
  | inr written ↦
      let kept : given_model (some (str t)) ≡ some (str t) = rw written refl in
      let same : t ≡ s = cc in
      (
        ap (λ x. some (str x)) same,
        λ empty. let e' : t ≡ "" = same ∙ empty in absurd (ground (arith, eq_iff t "")),
      )
]

unfoldable pub Allows : InferenceClaim → Allowance → Option ClaimFault → Type 0
Allows claim allowance none = IsAllowed claim allowance
Allows claim allowance (some fault) = Unit

fault_of_model-Allows :
    (claim : InferenceClaim) (allowance : Allowance) (monthly : ℤ) (model : Option Json)
    → budget_of claim.monthly_budget ≡ some monthly
    → is_over claim.session_budget monthly ≡ false
    → given_model claim.model ≡ model
    → Allows claim allowance (fault_of_model model monthly allowance)
unfolding Allows fault_of_model
fault_of_model-Allows claim allowance monthly none budgeted session_under named = tt
fault_of_model-Allows claim allowance monthly (some model) budgeted session_under named =
    elim (Bool-cases (exceeds monthly allowance.max_monthly)) [
      | inl over ↦ rw over tt
      | inr under ↦ elim (Bool-cases (lists_model model allowance.allowed_models)) [
        | inl known ↦
            let (text, is_text, among) = lists_model-str model allowance.allowed_models known in
            let written = given_model-str claim.model text (named ∙ ap some is_text) in
            rw (under, known)
              (record {
                monthly = monthly;
                budgeted = (budget_of-finite claim.monthly_budget monthly budgeted).0;
                not_negative = (budget_of-finite claim.monthly_budget monthly budgeted).1;
                session_under = is_over-IsUnderMonthly claim.session_budget monthly session_under;
                model = text;
                named = written.0;
                not_empty = written.1;
                under = exceeds-IsUnderMost monthly allowance.max_monthly under;
                known = among;
              })
        | inr unknown ↦ rw (under, unknown) tt
      ]
    ]

fault_of_budget-Allows :
    (claim : InferenceClaim) (allowance : Allowance) (budget : Option ℤ)
    → budget_of claim.monthly_budget ≡ budget
    → Allows claim allowance (fault_of_budget claim budget allowance)
unfolding Allows fault_of_budget
fault_of_budget-Allows claim allowance none e = tt
fault_of_budget-Allows claim allowance (some monthly) e =
    elim (Bool-cases (is_over claim.session_budget monthly)) [
      | inl over ↦ rw over tt
      | inr session_under ↦
          rw session_under (fault_of_model-Allows claim allowance monthly _ e session_under refl)
    ]

pub validate_claim-Allows :
    (claim : InferenceClaim) (allowance : Allowance)
    → Allows claim allowance (validate_claim claim allowance)
unfolding validate_claim
validate_claim-Allows claim allowance = fault_of_budget-Allows claim allowance _ refl
