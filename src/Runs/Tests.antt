-- ===== src/Runs/Tests.antt =====
-- A run that is stored and updated.
use mathlib.Core.Option
use creance.Prelude.{none, some, [], ◌≡◌, refl, str_eq, if◌then◌else◌}
use creance.Prelude.Dict.{lookup, insert}
use creance.Prelude.Outcome.{returned}
use creance.Runs.{Run, queued, failed, create, get, update, update_found, patched, get-update}

abbrev sample : Run
sample = record {
  id = "r1";
  status = queued;
  task = "look";
  agent = none;
  repo = none;
  principal = none;
  dispatch = none;
  messages = [];
  output = none;
  error = none;
  usage = none;
  cost_usd = none;
  created_at = "2026-05-17";
  updated_at = "2026-05-17";
}

abbrev fail : Run → Run
fail run = record run { status = failed; error = some "lost" }

updated :
    (update "r1" fail "2026-05-18" (create sample [])).0
    ≡ returned (patched fail "2026-05-18" sample)
unfolding update update_found create lookup insert
updated = refl

get-update_example : get "r1" (update "r1" fail "2026-05-18" (create sample [])).1 ≡ (
    if str_eq "r1" "r1"
    then Option.map
        (λ run. record (fail run) { updated_at = "2026-05-18" })
        (get "r1" (create sample []))
    else get "r1" (create sample []))
get-update_example = get-update "r1" "r1" fail "2026-05-18" (create sample [])
