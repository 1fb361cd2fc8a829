-- ===== src/Prelude/Text.antt =====
-- Texts walked by character: prefixes, occurrences, and a character that a text lacks.
use Prim.Native.Nat.{ℕ, zero, suc, ◌+◌}
use Prim.Native.Char.{code}
use Prim.Native.String
use Prim.Native.String.{String}
use mathlib.Core.Path.{◌≡◌, refl}
use mathlib.Core.Logic.{◌≢◌}
use mathlib.Core.List.{List, [], ◌∷◌}
use mathlib.Core.Bool.{Bool, true, false, not, ◌&&◌, ◌||◌}
use native.Mathlib.Omega.{arith}
use creance.Prelude.Tests.{◌==◌, ltb, if◌then◌else◌}

infixr 65 ◌<>◌
abbrev pub ◌<>◌ : String → String → String
s <> t = String.◌++◌ s t

abbrev first_longer : String → List String → List String
first_longer s [] = s ∷ []
first_longer s (part ∷ parts) = (s <> part) ∷ parts

-- `s.split(c)`, by the code of the character
unfoldable pub split_on : ℕ → String → List String
split_on c String.[] = "" ∷ []
split_on c (String.◌∷◌ d s) =
    let rest = split_on c s in
    if code d == c then "" ∷ rest else first_longer (String.◌∷◌ d "") rest

-- `"abc" starts with p`, character by character
unfoldable pub has_prefix : String → String → Bool
has_prefix String.[] s = true
has_prefix (String.◌∷◌ c p) String.[] = false
has_prefix (String.◌∷◌ c p) (String.◌∷◌ d s) = (code c == code d) && has_prefix p s

-- `s.includes(p)`
unfoldable pub includes : String → String → Bool
unfolding has_prefix
includes p String.[] = has_prefix p String.[]
includes p (String.◌∷◌ d s) = has_prefix p (String.◌∷◌ d s) || includes p s

-- `s.slice(0, n)`
unfoldable pub take_text : ℕ → String → String
take_text zero s = String.[]
take_text (suc n) String.[] = String.[]
take_text (suc n) (String.◌∷◌ c s) = String.◌∷◌ c (take_text n s)

-- `s.length`: UTF-16 code units
unfoldable pub utf16_length : String → ℕ
utf16_length String.[] = 0
utf16_length (String.◌∷◌ c s) = (if ltb (code c) 65536 then 1 else 2) + utf16_length s

-- The text does not hold the character with this number.
abbrev pub Lacks : ℕ → String → Type 0
Lacks n String.[] = Unit
Lacks n (String.◌∷◌ c s) = (code c ≢ n) × Lacks n s

abbrev pub lacks : ℕ → String → Bool
lacks n String.[] = true
lacks n (String.◌∷◌ c s) = not (code c == n) && lacks n s

pub Lacks-of_test : (n : ℕ) (s : String) → lacks n s ≡ true → Lacks n s
Lacks-of_test n String.[] e = tt
Lacks-of_test n (String.◌∷◌ c s) e = (ground arith, Lacks-of_test n s (ground arith))

prefix_tests :
    (has_prefix "ab" "abc" ≡ true)
    × (has_prefix "b" "abc" ≡ false)
    × (includes "bc" "abcd" ≡ true)
    × (includes "bd" "abcd" ≡ false)
    × (take_text 2 "abc" ≡ "ab")
unfolding has_prefix includes take_text
prefix_tests = (refl, refl, refl, refl, refl)
