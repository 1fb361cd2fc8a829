-- ===== src/Gate/Local/Keys.antt =====
-- The keys that `LocalGate` uses on one store: no month's key is a session's key, or the run quota's key of
-- that time.
use Prim.Native.String.{count}
use text.Mathlib.TextLemmas.{length-append, length-nil, length-cons}
use creance.Prelude.{ℕ, zero, suc, ◌+◌, ◌≤◌, String, ◌≢◌, ◌≡◌, ap, arith}
use creance.Prelude.Text.{take_text}
use creance.Gate.{current_period}
use creance.Gate.Local.{run_period, session_key}

count-take_text : (n : ℕ) (s : String) → count (take_text n s) ≤ n
unfolding take_text
count-take_text zero s = omega (arith, length-nil)
count-take_text (suc n) String.[] = omega (arith, length-nil)
count-take_text (suc n) (String.◌∷◌ c s) =
    omega (arith, length-cons c (take_text n s), count-take_text n s)

count-current_period : (now : String) → count (current_period now) ≤ 7
unfolding current_period
count-current_period now = count-take_text 7 now

count-session_key : (id : String) → count (session_key id) ≡ 8 + count id
unfolding session_key
count-session_key id = length-append "session#" id

pub period-ne-session_key : (now id : String) → current_period now ≢ session_key id
period-ne-session_key now id e =
    omega (arith, ap count e, count-current_period now, count-session_key id)

count-run_period : (now : String) → count (run_period now) ≡ 5 + count (current_period now)
unfolding run_period
count-run_period now = length-append "runs#" (current_period now)

pub period-ne-run_period : (now : String) → current_period now ≢ run_period now
period-ne-run_period now e = omega (arith, ap count e, count-run_period now)
