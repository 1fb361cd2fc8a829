-- ===== src/Ports/Fields.antt =====
-- How the code reads a parsed JSON body: `v?.key`, `v ?? w` and `String(v)`. A missing key reads as
-- `none`, which is `undefined`.
use Prim.Native.String
use creance.Prelude.{String, Bool, true, false, Option, none, some, ◌≡◌, refl, str_eq}
use creance.Ports.Json.{
  Json, null, bool, num, str, arr, obj, Items, nil, item, Fields, end, field, number_text,
}

abbrev pub or_else : Option Json → Option Json → Option Json
or_else none w = w
or_else (some v) w = some v

abbrev pub only_if : Bool → Option Json → Option Json
only_if true v = v
only_if false v = none

-- A key that is written twice has its last value.
unfoldable pub find : String → Fields → Option Json
find key end = none
find key (field at v rest) = or_else (find key rest) (only_if (str_eq at key) (some v))

unfoldable pub member : String → Json → Option Json
unfolding find
member key (obj fields) = find key fields
member key _ = none

unfoldable pub member_of : String → Option Json → Option Json
unfolding member
member_of key none = none
member_of key (some v) = member key v

-- `v == null`
unfoldable pub is_nullish : Option Json → Bool
is_nullish none = true
is_nullish (some null) = true
is_nullish (some _) = false

unfoldable mutual
  pub json_text : Json → String
  json_text null = "null"
  json_text (bool true) = "true"
  json_text (bool false) = "false"
  json_text (num n) = number_text n
  json_text (str s) = s
  json_text (arr nil) = ""
  json_text (arr (item null vs)) = rest_text vs
  json_text (arr (item v vs)) = String.◌++◌ (json_text v) (rest_text vs)
  json_text (obj fields) = "[object Object]"

  rest_text : Items → String
  rest_text nil = ""
  rest_text (item null vs) = String.◌++◌ "," (rest_text vs)
  rest_text (item v vs) = String.◌++◌ "," (String.◌++◌ (json_text v) (rest_text vs))

unfoldable pub text_of : Option Json → String
text_of none = "undefined"
text_of (some v) = json_text v

-- `v != null ? String(v) : undefined`
unfoldable pub optional_text : Option Json → Option String
optional_text none = none
optional_text (some null) = none
optional_text (some v) = some (json_text v)

-- `...(v !== undefined ? { key: v } : {})` before the other fields
unfoldable pub optional : String → Option Json → Fields → Fields
optional key none rest = rest
optional key (some v) rest = field key v rest

pub or_else-none : (v : Option Json) → or_else v none ≡ v
or_else-none none = refl
or_else-none (some v) = refl

pub find-field :
    (key at : String) (v : Json) (rest : Fields)
    → find key (field at v rest) ≡ or_else (find key rest) (only_if (str_eq at key) (some v))
unfolding find
find-field key at v rest = refl

pub find-end : (key : String) → find key end ≡ none
unfolding find
find-end key = refl

pub find-optional :
    (key at : String) (v : Option Json) (rest : Fields)
    → find key (optional at v rest) ≡ or_else (find key rest) (only_if (str_eq at key) v)
unfolding find optional
find-optional key at (some v) rest = refl
find-optional key at none rest = absorb (find key rest) (str_eq at key)
  where
    absorb : (v : Option Json) (b : Bool) → v ≡ or_else v (only_if b none)
    absorb none true = refl
    absorb none false = refl
    absorb (some v) b = refl
