-- ===== src/Ports/Json.antt =====
-- JSON values, and `JSON.stringify` on them with no indentation.
use Prim.Native.Char.{Char, code}
use Prim.Native.String
use creance.Prelude.{
  ℕ, zero, suc, ◌/◌, ◌%◌, String, Bool, true, false, ◌≡◌, refl, ltb, ◌==◌, if◌then◌else◌,
}
use creance.Prelude.Int.{ℤ, pos, negsuc}

-- A number is an integer, or has a fractional part: then it is the integer below it with the text
-- that JavaScript prints for it.
pub data Number : Type 0 where
  integer : ℤ → Number
  fractional : (below : ℤ) (text : String) → Number

mutual
  pub data Json : Type 0 where
    null : Json
    bool : Bool → Json
    num : Number → Json
    str : String → Json
    arr : Items → Json
    obj : Fields → Json

  pub data Items : Type 0 where
    nil : Items
    item : Json → Items → Items

  pub data Fields : Type 0 where
    end : Fields
    field : String → Json → Fields → Fields

infixr 65 ◌<>◌
abbrev ◌<>◌ : String → String → String
s <> t = String.◌++◌ s t

digit : ℕ → String
digit d =
    if d == 0
    then "0"
    else if d == 1
    then "1"
    else if d == 2
    then "2"
    else if d == 3
    then "3"
    else if d == 4
    then "4"
    else if d == 5
    then "5"
    else if d == 6
    then "6"
    else if d == 7
    then "7"
    else if d == 8
    then "8"
    else "9"

-- The decimal digits, most significant first; `n` rounds are enough for a number below 10 ^ n.
decimal_fuel : ℕ → ℕ → String
decimal_fuel zero n = ""
decimal_fuel (suc f) n =
    let more = decimal_fuel f (n / 10) <> digit (n % 10) in if ltb n 10 then digit n else more

unfoldable pub decimal : ℕ → String
unfolding decimal_fuel digit
decimal n = decimal_fuel (suc n) n

unfoldable pub number_text : Number → String
unfolding decimal
number_text (integer (pos n)) = decimal n
number_text (integer (negsuc n)) = "-" <> decimal (suc n)
number_text (fractional below text) = text

hex : ℕ → String
unfolding digit
hex d =
    if ltb d 10
    then digit d
    else if d == 10
    then "a"
    else if d == 11
    then "b"
    else if d == 12
    then "c"
    else if d == 13
    then "d"
    else if d == 14
    then "e"
    else "f"

escape_char : Char → String
unfolding hex
escape_char c =
    let n = code c in
    if n == 34
    then "\\\""
    else if n == 92
    then "\\\\"
    else if n == 8
    then "\\b"
    else if n == 12
    then "\\f"
    else if n == 10
    then "\\n"
    else if n == 13
    then "\\r"
    else if n == 9
    then "\\t"
    else if ltb n 32
    then "\\u00" <> hex (n / 16) <> hex (n % 16)
    else String.◌∷◌ c String.[]

escape : String → String
unfolding escape_char
escape String.[] = ""
escape (String.◌∷◌ c s) = escape_char c <> escape s

unfoldable pub quote : String → String
unfolding escape
quote s = "\"" <> escape s <> "\""

unfoldable mutual
  pub stringify : Json → String
  stringify null = "null"
  stringify (bool true) = "true"
  stringify (bool false) = "false"
  stringify (num n) = number_text n
  stringify (str s) = quote s
  stringify (arr nil) = "[]"
  stringify (arr (item x xs)) = "[" <> stringify x <> stringify_items xs <> "]"
  stringify (obj end) = "{}"
  stringify (obj (field k x fs)) =
      "{" <> quote k <> ":" <> stringify x <> stringify_fields fs <> "}"

  pub stringify_items : Items → String
  stringify_items nil = ""
  stringify_items (item x xs) = "," <> stringify x <> stringify_items xs

  pub stringify_fields : Fields → String
  stringify_fields end = ""
  stringify_fields (field k x fs) = "," <> quote k <> ":" <> stringify x <> stringify_fields fs

stringify_sample :
    stringify (obj (field "a\"b" (arr (item (num (integer (negsuc 11))) (item null nil))) end))
    ≡ "{\"a\\\"b\":[-12,null]}"
unfolding stringify quote number_text
stringify_sample = refl
