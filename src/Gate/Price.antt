-- ===== src/Gate/Price.antt =====
-- `priceTokensUsd` and `estimateCostUsd` (packages/core/src/gate.ts). A price per million tokens is a
-- whole number of cents, so a cost is a whole number of units of 1e-8 USD.
use creance.Prelude.{
  ℕ, ◌+◌, ◌*◌, ◌≤◌, String, Option, none, some, [], ◌∷◌, ◌&&◌, not, str_eq, arith, if◌then◌else◌,
}
use creance.Prelude.Text.{includes}
use creance.Prelude.Dict.{Dict, lookup}
use creance.Ports.{TokenUsage}

pub record Price : Type 0 where
  pub input : ℕ
  pub output : ℕ

abbrev default_price : Price
default_price = record { input = 50; output = 150 }

abbrev price_per_mtok : Dict Price
price_per_mtok =
    ("amazon.nova-lite-v1:0", record { input = 6; output = 24 })
    ∷ ("amazon.nova-pro-v1:0", record { input = 80; output = 320 })
    ∷ ("claude-haiku", record { input = 100; output = 500 })
    ∷ ("claude-sonnet", record { input = 300; output = 1500 })
    ∷ ("gemini-2.5-flash", record { input = 30; output = 250 })
    ∷ ("gemini-2.5-pro", record { input = 125; output = 1000 })
    ∷ ("default", default_price)
    ∷ []

-- `Object.entries(…).find(([k]) => k !== "default" && model.includes(k))?.[1]`
unfoldable pub find_included : String → Dict Price → Option Price
unfolding includes
find_included model [] = none
find_included model ((k, p) ∷ table) =
    if not (str_eq k "default") && includes k model then some p else find_included model table

abbrev or_else : Option Price → Price → Price
or_else none p = p
or_else (some q) p = q

unfoldable pub price_of : String → Price
unfolding find_included lookup
price_of model =
    or_else (lookup model price_per_mtok)
      (or_else (find_included model price_per_mtok) default_price)

unfoldable pub price_tokens : String → ℕ → ℕ → ℕ
price_tokens model input output = let p = price_of model in input * p.input + output * p.output

abbrev or_zero : Option ℕ → ℕ
or_zero none = 0
or_zero (some n) = n

unfoldable pub estimate_cost : String → Option TokenUsage → ℕ
estimate_cost model none = 0
estimate_cost model (some u) = price_tokens model (or_zero u.input_tokens) (or_zero u.output_tokens)

-- A reported usage stays under a bound on either side.
abbrev pub IsUnder : ℕ → ℕ → Option TokenUsage → Type 0
IsUnder input output none = Unit
IsUnder input output (some u) =
    (or_zero u.input_tokens ≤ input) × (or_zero u.output_tokens ≤ output)

-- For every model, the price of a bound on the input and the output tokens covers the cost of a
-- reported usage within that bound.
pub estimate_cost-le-price_tokens :
    (model : String) (input output : ℕ) (usage : Option TokenUsage)
    → IsUnder input output usage
    → estimate_cost model usage ≤ price_tokens model input output
unfolding estimate_cost price_tokens
estimate_cost-le-price_tokens model input output none h = omega arith
estimate_cost-le-price_tokens model input output (some u) h = grind arith
