-- ===== src/Sidecar/Bytes.antt =====
-- The operations on text and bytes that the sidecar uses, over lists of codes.
use Prim.Native.Char.{code}
use Prim.Native.Nat.{min}
use creance.Prelude.Int.{ℤ, pos, negsuc}
use creance.Prelude.{
  ℕ, zero, suc, ◌+◌, ◌-◌, ◌*◌, String, Bool, true, false, ◌&&◌, ◌||◌, Option, none, some, List, [],
  ◌∷◌, leb, ◌==◌, if◌then◌else◌, length, take, drop,
}

-- The codes of a text.
abbrev pub codes : String → List ℕ
codes String.[] = []
codes (String.◌∷◌ c s) = code c ∷ codes s

-- `a === b`
unfoldable pub same : List ℕ → List ℕ → Bool
same [] [] = true
same (a ∷ s) (b ∷ t) = (a == b) && same s t
same _ _ = false

-- `s.startsWith(p)`
unfoldable pub starts : List ℕ → List ℕ → Bool
starts [] s = true
starts (a ∷ p) [] = false
starts (a ∷ p) (b ∷ s) = (a == b) && starts p s

-- `s.endsWith(p)`
unfoldable pub ends : List ℕ → List ℕ → Bool
unfolding same
ends p [] = same p []
ends p (b ∷ s) = same p (b ∷ s) || ends p s

-- The white space of ASCII.
abbrev pub is_space : ℕ → Bool
is_space c = (leb 9 c && leb c 13) || c == 32

unfoldable pub trim_start : List ℕ → List ℕ
trim_start [] = []
trim_start (c ∷ s) = elim (is_space c) [ true ↦ trim_start s | false ↦ c ∷ s ]

unfoldable pub all_space : List ℕ → Bool
all_space [] = true
all_space (c ∷ s) = is_space c && all_space s

unfoldable pub trim_end : List ℕ → List ℕ
unfolding all_space
trim_end [] = []
trim_end (c ∷ s) = if all_space (c ∷ s) then [] else c ∷ trim_end s

-- `s.trim()`
unfoldable pub trim : List ℕ → List ℕ
unfolding trim_start trim_end
trim s = trim_end (trim_start s)

-- The text up to a separator, and what follows it.
unfoldable pub cut : ℕ → List ℕ → List ℕ × Option (List ℕ)
cut sep [] = ([], none)
cut sep (c ∷ s) =
    let (before, after) = cut sep s in if c == sep then ([], some s) else (c ∷ before, after)

-- The value of a hexadecimal digit.
unfoldable pub hex_value : ℕ → Option ℕ
hex_value c =
    if leb 48 c && leb c 57
    then some (c - 48)
    else if leb 97 c && leb c 102
    then some (c - 87)
    else if leb 65 c && leb c 70
    then some (c - 55)
    else none

-- The longest run of hexadecimal digits, added to what stands before it.
unfoldable pub hex_digits : ℕ → List ℕ → ℕ
unfolding hex_value
hex_digits acc [] = acc
hex_digits acc (c ∷ s) = elim (hex_value c) [ none ↦ acc | some d ↦ hex_digits (acc * 16 + d) s ]

-- `none` is NaN: there is no digit.
unfoldable pub hex_number : List ℕ → Option ℕ
unfolding hex_digits
hex_number [] = none
hex_number (c ∷ s) = elim (hex_value c) [ none ↦ none | some d ↦ some (hex_digits d s) ]

-- A leading "0x" is skipped.
unfoldable pub hex_prefixed : List ℕ → Option ℕ
unfolding hex_number
hex_prefixed (a ∷ b ∷ s) =
    if a == 48 && (b == 120 || b == 88) then hex_number s else hex_number (a ∷ b ∷ s)
hex_prefixed s = hex_number s

abbrev pub negative : ℕ → ℤ
negative zero = pos 0
negative (suc n) = negsuc n

unfoldable pub signed : (ℕ → ℤ) → Option ℕ → Option ℤ
signed sign none = none
signed sign (some n) = some (sign n)

-- `parseInt(s, 16)`; `none` is NaN.
unfoldable pub hex_signed : List ℕ → Option ℤ
unfolding hex_prefixed signed
hex_signed [] = none
hex_signed (c ∷ s) =
    if c == 45
    then signed negative (hex_prefixed s)
    else if c == 43
    then signed pos (hex_prefixed s)
    else signed pos (hex_prefixed (c ∷ s))

unfoldable pub parse_hex : List ℕ → Option ℤ
unfolding hex_signed trim_start
parse_hex s = hex_signed (trim_start s)

-- An index of `subarray`: a negative one counts from the end.
abbrev pub index : ℕ → ℤ → ℕ
index size (pos n) = min n size
index size (negsuc n) = size - suc n

-- `body.subarray(a, b)`
unfoldable pub subarray : List ℕ → ℤ → ℤ → List ℕ
subarray body a b =
    let from = index (length body) a in take (index (length body) b - from) (drop from body)
