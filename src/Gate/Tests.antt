-- ===== src/Gate/Tests.antt =====
-- The gate over the in-process store: runs at concrete amounts.
use creance.Prelude.{
  false, String, none, some, List, [], ◌∷◌, ◌≡◌, refl, not, ◌&&◌, ◌+◌, ◌-◌, arith, if◌then◌else◌,
}
use Prim.Native.Nat.{min}
use creance.Prelude.Int.{pos, negsuc, ◌+ℤ◌, ◌-ℤ◌}
use creance.Prelude.Text.{Lacks, Lacks-of_test, take_text}
use creance.Prelude.Dict.{lookup, insert}
use creance.Gate.{BudgetScopes, current_period, same_key}
use creance.Gate.Caps.{finite}
use creance.Gate.Memory
use creance.Gate.Memory.{memory_store, new_store, key, get-add, get, add}
use creance.Gate.Local.{
  reserve_run, reserve_under, reserve_optional, reserve_tenant, session_reserve, session_reserved,
  reserve_session, settle_session, settle, Config, limit_for, session_on, session_key, run_period,
  reserve,
}
use creance.Gate.Local.Laws.{Booked, charge, session_charge, breaks, reserve-Booked, get-settle}
use creance.Gate.Local.Limits.{
  Call, reserves, settles, IsWithinCaps, step, run, reserve-ok, session_breaks, run-IsWithinCaps,
}
use creance.Gate.Local.Quota.{reserve_runs, reserve_runs-min, reserve_run-refused}

abbrev now : String
now = "2026-05-17T08:00:00.000Z"

-- A cap of 1000 for a tenant, 600 for a session and two runs.
abbrev config : Config
config = record {
  fallback_limit = finite (pos 1000);
  limit_source = none;
  session_limit = some (finite (pos 600));
  run_quota = some (finite (pos 2));
}

abbrev in_session : BudgetScopes
in_session = record { session_id = some "r1" }

abbrev outside_session : BudgetScopes
outside_session = record { session_id = none }

acme-Lacks : Lacks 0 "acme"
acme-Lacks = Lacks-of_test 0 "acme" refl

globex-Lacks : Lacks 0 "globex"
globex-Lacks = Lacks-of_test 0 "globex" refl

-- A call of 500 that cost 200, one of 700 that the session refuses, and one of 400 elsewhere.
abbrev calls : List Call
calls =
    reserves "acme" (pos 500) in_session
    ∷ settles "acme" (negsuc 299) in_session
    ∷ reserves "acme" (pos 700) in_session
    ∷ reserves "globex" (pos 400) outside_session
    ∷ []

run_sample :
    let s = run memory_store config now calls new_store in
    (memory_store.get "acme" "2026-05" s ≡ pos 200)
    × (memory_store.get "globex" "2026-05" s ≡ pos 400)
unfolding run step reserve reserve_tenant reserve_session session_reserve session_reserved settle
    settle_session memory_store new_store get add Memory.reserve key current_period take_text
    session_on session_key limit_for lookup insert ◌+ℤ◌ ◌-ℤ◌
run_sample = (refl, refl)

get-add_example : get "acme" "2026-05" (add "acme" "2026-05" (pos 5) []).1 ≡ (
    if same_key "acme" "2026-05" "acme" "2026-05"
    then get "acme" "2026-05" [] +ℤ pos 5
    else get "acme" "2026-05" [])
get-add_example = get-add "acme" "2026-05" "acme" "2026-05" (pos 5) [] acme-Lacks acme-Lacks

reserve-Booked_example :
    let r = reserve memory_store config now "acme" (pos 500) in_session new_store in
    Booked memory_store r.0
      (memory_store.get "acme" "session#r1" new_store)
      (memory_store.get "acme" "session#r1" r.1)
      (charge "acme" (current_period now) "acme" "session#r1" (pos 500)
        +ℤ session_charge "acme" (session_on config in_session) "acme" "session#r1" (pos 500))
reserve-Booked_example =
    reserve-Booked memory_store config now "acme" "acme" "session#r1" (pos 500) in_session new_store
      acme-Lacks acme-Lacks

reserve-ok_example :
    (reserve memory_store config now "acme" (pos 700) in_session new_store).0.ok ≡ (
      not (
        breaks memory_store "acme"
          (current_period now)
          (pos 700)
          (limit_for config "acme")
          new_store)
      && not
          (session_breaks memory_store "acme" (pos 700) (session_on config in_session) new_store))
reserve-ok_example =
    reserve-ok memory_store config now "acme" (pos 700) in_session new_store acme-Lacks

empty-IsWithinCaps : IsWithinCaps memory_store config now new_store
unfolding memory_store new_store get limit_for lookup
empty-IsWithinCaps t h = refl

run-IsWithinCaps_example :
    IsWithinCaps memory_store config now (run memory_store config now calls new_store)
run-IsWithinCaps_example =
    run-IsWithinCaps memory_store config now calls new_store
      (acme-Lacks, ((acme-Lacks, omega arith), (acme-Lacks, (globex-Lacks, tt)))) empty-IsWithinCaps

none_taken : memory_store.get "acme" (run_period now) new_store ≡ pos 0
unfolding memory_store new_store get lookup
none_taken = refl

reserve_runs-min_example :
    let (admitted, s') = reserve_runs memory_store config now "acme" 3 new_store in
    (admitted ≡ min 3 (2 - 0)) × (memory_store.get "acme" (run_period now) s' ≡ pos (0 + admitted))
reserve_runs-min_example =
    reserve_runs-min memory_store config now "acme" 3 2 0 new_store acme-Lacks refl none_taken

get-settle_example :
    memory_store.get "acme" "session#r1"
      (settle memory_store config now "acme" (negsuc 4) in_session new_store)
    ≡ memory_store.get "acme" "session#r1" new_store
      +ℤ (charge "acme" (current_period now) "acme" "session#r1" (negsuc 4)
          +ℤ session_charge "acme" (session_on config in_session) "acme" "session#r1" (negsuc 4))
get-settle_example =
    get-settle memory_store config now "acme" "acme" "session#r1" (negsuc 4) in_session new_store
      acme-Lacks acme-Lacks

-- A quota of none.
abbrev closed : Config
closed = record config { run_quota = some (finite (pos 0)) }

closed_refuses : (reserve_run memory_store closed now "acme" new_store).0.ok ≡ false
unfolding reserve_run reserve_under reserve_optional
closed_refuses = refl

reserve_run-refused_example : (reserve_run memory_store closed now "acme" new_store).1 ≡ new_store
reserve_run-refused_example =
    reserve_run-refused memory_store closed now "acme" new_store closed_refuses
