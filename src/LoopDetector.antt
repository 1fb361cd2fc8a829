-- ===== src/LoopDetector.antt =====
-- services/claude-code-runner/loop-detector.ts: a run that repeats one tool call is stuck.
pub mod Streaks
mod Tests
use Prim.Native.Char.{code}
use Prim.Native.String
use creance.Prelude.{
  ℕ, suc, ◌+◌, ◌-◌, ◌/◌, ◌%◌, String, Bool, true, false, ◌&&◌, ◌||◌, Option, none, some, List, [],
  ◌∷◌, ltb, leb, ◌==◌, str_eq, if◌then◌else◌,
}
use creance.Ports.Json.{
  Json, null, bool, num, str, arr, obj, Items, nil, item, Fields, end, field, stringify, quote,
}

abbrev ◌<>◌ : String → String → String

infixr 60 ◌<>◌
s <> t = String.◌++◌ s t

-- The UTF-16 code units of a text, by which JavaScript orders texts.
units : String → List ℕ
units String.[] = []
units (String.◌∷◌ c s) =
    let n = code c in
    let rest = units s in
    if ltb n 65536
    then n ∷ rest
    else (55296 + (n - 65536) / 1024) ∷ (56320 + (n - 65536) % 1024) ∷ rest

not_after : List ℕ → List ℕ → Bool
not_after [] t = true
not_after (a ∷ s) [] = false
not_after (a ∷ s) (b ∷ t) = ltb a b || ((a == b) && not_after s t)

-- A field among sorted ones; no two fields of an object have one key.
sort_in : String × String → List (String × String) → List (String × String)
unfolding not_after units
sort_in f [] = f ∷ []
sort_in f (g ∷ gs) =
    let rest = sort_in f gs in if not_after (units f.0) (units g.0) then f ∷ g ∷ gs else g ∷ rest

join : List String → String
join [] = ""
join (s ∷ []) = s
join (s ∷ t ∷ ts) = s <> "," <> join (t ∷ ts)

field_texts : List (String × String) → List String
field_texts [] = []
field_texts ((k, v) ∷ fs) = (quote k <> ":" <> v) ∷ field_texts fs

-- `stableStringify`
mutual
  unfolding join field_texts sort_in

  pub stable_stringify : Json → String
  stable_stringify null = stringify null
  stable_stringify (bool b) = stringify (bool b)
  stable_stringify (num n) = stringify (num n)
  stable_stringify (str s) = stringify (str s)
  stable_stringify (arr xs) = "[" <> join (stable_items xs) <> "]"
  stable_stringify (obj fs) = "{" <> join (field_texts (stable_fields fs)) <> "}"

  pub stable_items : Items → List String
  stable_items nil = []
  stable_items (item x xs) = stable_stringify x ∷ stable_items xs

  pub stable_fields : Fields → List (String × String)
  stable_fields end = []
  stable_fields (field k v fs) = sort_in (k, stable_stringify v) (stable_fields fs)

unfoldable pub tool_signature : String → Json → String
tool_signature name input = name <> ":" <> stable_stringify input

pub record Detector : Type 0 where
  pub threshold : ℕ
  pub last : Option String
  pub count : ℕ

-- The constructor throws on a threshold below two.
unfoldable pub new_detector : ℕ → Option Detector
new_detector threshold =
    if ltb threshold 2
    then none
    else some (record { threshold = threshold; last = none; count = 0 })

abbrev repeats : String → Option String → Bool
repeats sig none = false
repeats sig (some last) = str_eq sig last

-- The reason is made of the tool's name and the count.
unfoldable pub record_call : String → Json → Detector → Option (String × ℕ) × Detector
record_call name input d =
    let sig = tool_signature name input in
    let count = if repeats sig d.last then suc d.count else 1 in
    (
      (if leb d.threshold count then some (name, count) else none),
      record { threshold = d.threshold; last = some sig; count = count },
    )
