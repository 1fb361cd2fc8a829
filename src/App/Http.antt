-- ===== src/App/Http.antt =====
-- HTTP requests as the runtime's handler reads them (services/agent-runtime/app.ts): the bearer
-- credential and the paths; and `withCors` (packages/core/src/http.ts).
use Prim.Native.Char.{code}
use creance.Prelude.{
  ℕ, ◌+◌, ◌≡◌, refl, String, Bool, true, false, not, ◌&&◌, ◌||◌, Option, none, some, leb, ◌==◌,
  str_eq, if◌then◌else◌,
}
use creance.Prelude.Dict.{Dict, lookup}
use creance.Ports.Json.{Json}
use creance.Executor.Texts.{is_space, trim_start}

-- The header names are in lower case. The body is `none` where it is no JSON.
pub record HttpRequest : Type 0 where
  pub method : String
  pub protocol : String
  pub host : String
  pub pathname : String
  pub headers : Dict String
  pub body : Option Json

abbrev lower : ℕ → ℕ
lower c = if leb 65 c && leb c 90 then c + 32 else c

-- What follows a prefix, whose letters are compared in lower case.
after_word : String → String → Option String
after_word String.[] s = some s
after_word (String.◌∷◌ c p) String.[] = none
after_word (String.◌∷◌ c p) (String.◌∷◌ d s) =
    let rest = after_word p s in if lower (code c) == lower (code d) then rest else none

-- At least one space follows.
spaced : String → String → String
unfolding trim_start
spaced whole String.[] = whole
spaced whole (String.◌∷◌ c s) = if is_space (code c) then trim_start s else whole

-- `replace(/^Bearer\s+/i, "")`
unfoldable pub without_bearer : String → String
unfolding after_word spaced
without_bearer s = elim (after_word "bearer" s) [ none ↦ s | some rest ↦ spaced s rest ]

unfoldable pub bearer : HttpRequest → Option String
unfolding lookup without_bearer
bearer q = elim (lookup "authorization" q.headers) [
  | none ↦ none
  | some s ↦ some (without_bearer s)
]

after_prefix : String → String → Option String
after_prefix String.[] s = some s
after_prefix (String.◌∷◌ c p) String.[] = none
after_prefix (String.◌∷◌ c p) (String.◌∷◌ d s) =
    let rest = after_prefix p s in if code c == code d then rest else none

-- The part of a text before the first slash, and what follows from there on.
up_to_slash : String → String × String
up_to_slash String.[] = ("", "")
up_to_slash (String.◌∷◌ c s) =
    let (head, tail) = up_to_slash s in
    if◌then◌else◌ {A = String × String} (code c == 47) ("", String.◌∷◌ c s)
      (String.◌∷◌ c head, tail)

cut_segment : String → Option String → Option String
unfolding up_to_slash
cut_segment suffix none = none
cut_segment suffix (some s) =
    let (head, tail) = up_to_slash s in
    if not (str_eq head "") && str_eq tail suffix then some head else none

-- The segment of `/^<prefix>([^/]+)<suffix>$/`, where the suffix is empty or begins with a slash.
unfoldable pub segment : (prefix suffix path : String) → Option String
unfolding cut_segment after_prefix
segment prefix suffix path = cut_segment suffix (after_prefix prefix path)

abbrev is_name_char : ℕ → Bool
is_name_char c =
    (leb 48 c && leb c 57)
    || (leb 65 c && leb c 90)
    || (leb 97 c && leb c 122)
    || c == 95
    || c == 46
    || c == 45

repo_name : Bool → String → Bool
repo_name any String.[] = any
repo_name any (String.◌∷◌ c s) = is_name_char (code c) && repo_name true s

repo_owner : Bool → String → Bool
unfolding repo_name
repo_owner any String.[] = false
repo_owner any (String.◌∷◌ c s) =
    let more = is_name_char (code c) && repo_owner true s in
    if code c == 47 then any && repo_name false s else more

-- `/^[\w.-]+\/[\w.-]+$/`
unfoldable pub is_repo : String → Bool
unfolding repo_owner
is_repo s = repo_owner false s

abbrev pub is_route : String → String → HttpRequest → Bool
is_route method path q = str_eq q.method method && str_eq q.pathname path

paths :
    (segment "/runs/" "" "/runs/r1" ≡ some "r1")
    × (segment "/runs/" "" "/runs/" ≡ none)
    × (segment "/runs/" "" "/runs/a/b" ≡ none)
    × (segment "/tenants/" "/budget" "/tenants/acme/budget" ≡ some "acme")
    × (segment "/tenants/" "/budget" "/tenants/acme/usage" ≡ none)
    × (is_repo "o/r.js" ≡ true)
    × (is_repo "o/r/s" ≡ false)
    × (without_bearer "BEARER  t1" ≡ "t1")
    × (without_bearer "Bearert1" ≡ "Bearert1")
unfolding segment is_repo without_bearer
paths = (refl, refl, refl, refl, refl, refl, refl, refl, refl)
