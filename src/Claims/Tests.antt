-- ===== src/Claims/Tests.antt =====
-- Three claims on an allowance, by the order of their dates' texts.
use creance.Prelude.{
  String, Bool, true, false, not, leb, arith, eq_iff, ◌≢◌, some, [], ◌∷◌, ◌++◌, ◌≡◌, refl, str_eq,
  ◌||◌,
}
use creance.Prelude.Int.{pos, ◌+ℤ◌}
use creance.Prelude.Text.{utf16_length}
use creance.Prelude.Dict.{lookup, insert}
use creance.Claims.{ClaimLite, allowance_exceeded, created, judge, place, sorted, evaluate}
use creance.Claims.Order.{total_if}
use creance.Claims.Laws.{IsJudged, lookup-evaluate}

abbrev first : ClaimLite
first = record { name = "a"; monthly_budget = pos 60; creation_timestamp = some "1" }

abbrev second : ClaimLite
second = record { name = "b"; monthly_budget = pos 30; creation_timestamp = some "2" }

abbrev third : ClaimLite
third = record { name = "c"; monthly_budget = pos 20; creation_timestamp = some "3" }

-- The order of three one-digit texts.
abbrev not_after : String → String → Bool
not_after s t = str_eq s "1" || str_eq s t || str_eq t "3"

in_order : sorted not_after (third ∷ first ∷ second ∷ []) ≡ (first ∷ second ∷ []) ++ third ∷ []
unfolding sorted place
in_order = refl

overflow :
    lookup "c" (evaluate not_after (third ∷ first ∷ second ∷ []) (some (pos 100)))
    ≡ some (allowance_exceeded (pos 110) (pos 100))
unfolding evaluate judge sorted place lookup insert ◌+ℤ◌
overflow = refl

-- Timestamps by their lengths.
abbrev shorter : String → String → Bool
shorter s t = leb (utf16_length s) (utf16_length t)

shorter_total : (a b : String) → shorter a b ≡ false → shorter b a ≡ true
shorter_total a b h = ground arith

shorter_transitive : (a b c : String) → shorter a b ≡ true → shorter b c ≡ true → shorter a c ≡ true
shorter_transitive a b c h k = ground arith

apart : (s t : String) → str_eq s t ≡ false → s ≢ t
apart s t differs same = absurd (ground (arith, eq_iff s t))

lookup-evaluate_example :
    IsJudged
      (pos 100)
      (total_if (λ d. shorter (created d) (created third)) (second ∷ [])
        +ℤ total_if (λ d. not (shorter (created third) (created d))) (first ∷ [])
        +ℤ pos 20)
      (lookup "c" (evaluate shorter (second ∷ third ∷ first ∷ []) (some (pos 100))))
lookup-evaluate_example =
    lookup-evaluate shorter shorter_total shorter_transitive (second ∷ []) third (first ∷ [])
      (pos 100) (apart "b" "c" refl, tt) (apart "a" "c" refl, tt)
