-- ===== src/LoopDetector/Tests.antt =====
-- Runs that repeat themselves.
use creance.Prelude.{
  ◌≤◌, true, String, none, some, [], ◌∷◌, ◌≡◌, ◌≢◌, ◌↔◌, refl, All, length, take, map,
}
use creance.Ports.Json.{Json, null, bool, str, obj, end, field, stringify, quote}
use creance.LoopDetector.{
  Detector, units, not_after, sort_in, join, field_texts, stable_stringify, tool_signature,
  new_detector, record_call,
}
use creance.LoopDetector.Streaks.{after, sign, record_call_iff}

abbrev detector : Detector
detector = record { threshold = 2; last = none; count = 0 }

abbrev list_files : String × Json
list_files = ("bash", str "ls")

abbrev read_file : String × Json
read_file = ("read", str "a")

runs : Unit {0}
unfolding units not_after sort_in join field_texts stable_stringify tool_signature new_detector
    record_call stringify quote after
runs = tt

-- The order of an object's keys is no part of the signature.
keys :
    tool_signature "t" (obj (field "b" null (field "a" (bool true) end)))
    ≡ "t:{\"a\":true,\"b\":null}"
unfolding runs
keys = refl

trips : (record_call "bash" (str "ls") (after (list_files ∷ []) detector)).0 ≡ some ("bash", 2)
unfolding runs
trips = refl

-- A tripped detector that sees another call gives no reason any more.
forgets : (record_call "read" (str "a") (after (list_files ∷ list_files ∷ []) detector)).0 ≡ none
unfolding runs
forgets = refl

made : new_detector 2 ≡ some detector
unfolding new_detector
made = refl

record_call_iff_example :
    let signs = map sign (list_files ∷ list_files ∷ read_file ∷ []) in
    ((record_call "bash" (str "ls") (after (list_files ∷ read_file ∷ []) detector)).0 ≢ none)
    ↔ ((2 ≤ length signs) × All (λ t. t ≡ tool_signature "bash" (str "ls")) (take 2 signs))
record_call_iff_example =
    record_call_iff 2 detector "bash" (str "ls") (list_files ∷ read_file ∷ []) made
