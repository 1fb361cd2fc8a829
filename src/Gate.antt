-- ===== src/Gate.antt =====
-- packages/core/src/gate.ts: principals, budget and quota statuses, and the port to the spend tally.
-- Amounts are exact, in units of 1e-8 USD (counts, for a run quota).
pub mod Caps
pub mod Memory
pub mod Price
pub mod Local
mod Tests
use Caps.{Amount, exceeds}
use creance.Prelude.{
  ℕ, String, Bool, false, Option, none, some, List, ◌≡◌, ◌&&◌, str_eq, if◌then◌else◌,
}
use creance.Prelude.Int.{ℤ, ◌+ℤ◌}
use creance.Prelude.Text.{Lacks, take_text}

pub record Principal : Type 0 where
  pub tenant : String
  pub subject : String
  pub groups : Option (List String)
  pub token : Option String
  pub actors : Option (List String)

pub record BudgetStatus : Type 0 where
  pub tenant : String
  pub limit_usd : Amount
  pub spent_usd : ℤ
  pub remaining_usd : Amount
  pub ok : Bool

pub record QuotaStatus : Type 0 where
  pub tenant : String
  pub limit : Amount
  pub used : ℤ
  pub remaining : Amount
  pub ok : Bool

pub record BudgetScopes : Type 0 where
  pub session_id : Option String

-- `currentPeriod(now)`, where `now` is the clock's `toISOString()`
unfoldable pub current_period : String → String
unfolding take_text
current_period now = take_text 7 now

-- Two tallies are the same one.
abbrev pub same_key : String → String → String → String → Bool
same_key t p t' p' = str_eq t t' && str_eq p p'

-- The port `SpendStore` with what its comments promise. A tenant holds no NUL, the character that
-- the in-process store joins its keys with; `reserve` is only asked where `delta <= ceiling`.
pub record SpendStore : Type 1 where
  pub Store : Type 0
  pub get : String → String → Store → ℤ
  pub add : String → String → ℤ → Store → ℤ × Store
  pub reserve : String → String → ℤ → Amount → Store → Option ℤ × Store
  pub add_total : (t p : String) (d : ℤ) (s : Store) → (add t p d s).0 ≡ get t p s +ℤ d
  pub get-add :
      (t p t' p' : String) (d : ℤ) (s : Store)
      → Lacks 0 t
      → Lacks 0 t'
      → get t' p' (add t p d s).1 ≡ (if same_key t p t' p' then get t p s +ℤ d else get t' p' s)
  pub reserve_lem :
      (t p : String) (d : ℤ) (c : Amount) (s : Store)
      → exceeds d c ≡ false
      → reserve t p d c s ≡ (
          if exceeds (get t p s +ℤ d) c
          then (none, s)
          else (some (get t p s +ℤ d), (add t p d s).1))
