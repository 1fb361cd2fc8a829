-- ===== src/Claims.antt =====
-- services/claims-controller/evaluate.ts: which claims of a namespace fit its allowance together.
-- Amounts are exact, in units of 1e-8 USD.
pub mod Laws
pub mod Order
mod Tests
use creance.Prelude.{
  String, Bool, true, false, not, Option, none, some, List, [], ◌∷◌, if◌then◌else◌,
}
use creance.Prelude.Int.{ℤ, pos, ◌+ℤ◌, ltb_ℤ}
use creance.Prelude.Dict.{Dict, insert}

pub record ClaimLite : Type 0 where
  pub name : String
  pub monthly_budget : ℤ
  pub creation_timestamp : Option String

-- A verdict with what its message is made of; it is ready where it is `within_allowance`.
pub data Verdict : Type 0 where
  no_allowance : Verdict
  within_allowance : ℤ → ℤ → Verdict
  allowance_exceeded : ℤ → ℤ → Verdict

abbrev pub created : ClaimLite → String
created c = elim c.creation_timestamp [ none ↦ "" | some t ↦ t ]

mark_all : List ClaimLite → Dict Verdict → Dict Verdict
mark_all [] out = out
mark_all (c ∷ cs) out = mark_all cs (insert c.name no_allowance out)

abbrev pub verdict : ℤ → ℤ → Verdict
verdict most sum =
    if not (ltb_ℤ most sum) then within_allowance sum most else allowance_exceeded sum most

-- The loop over the sorted claims.
unfoldable pub judge : ℤ → ℤ → List ClaimLite → Dict Verdict → Dict Verdict
judge most sum [] out = out
judge most sum (c ∷ cs) out =
    let next = sum +ℤ c.monthly_budget in judge most next cs (insert c.name (verdict most next) out)

-- `a.localeCompare(b) <= 0`
module _ (not_after : String → String → Bool) where
  unfoldable pub place : ClaimLite → List ClaimLite → List ClaimLite
  place c [] = c ∷ []
  place c (d ∷ ds) =
      let rest = place c ds in if not_after (created c) (created d) then c ∷ d ∷ ds else d ∷ rest

  -- The stable sort by the time of creation.
  unfoldable pub sorted : List ClaimLite → List ClaimLite
  unfolding place
  sorted [] = []
  sorted (c ∷ cs) = place c (sorted cs)

  unfoldable pub evaluate : List ClaimLite → Option ℤ → Dict Verdict
  unfolding mark_all
  evaluate claims none = mark_all claims []
  evaluate claims (some most) = judge most (pos 0) (sorted claims) []
