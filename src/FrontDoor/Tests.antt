-- ===== src/FrontDoor/Tests.antt =====
-- Requests through the gate sequence, with one agent, one token and a policy on one repository.
use creance.Prelude.{
  ℕ, String, true, false, Option, none, some, [], ◌∷◌, ◌≡◌, refl, str_eq, if◌then◌else◌,
}
use creance.Prelude.Int.{pos, ◌+ℤ◌, ◌-ℤ◌}
use creance.Prelude.Text.{take_text}
use creance.Prelude.Dict.{lookup, insert}
use creance.Prelude.Outcome.{Outcome, returned, thrown}
use creance.Gate.{Principal, current_period}
use creance.Gate.Caps.{finite}
use creance.Gate.Memory
use creance.Gate.Memory.{memory_store, new_store, key, get, add}
use creance.Gate.Local.{
  limit_for, run_period, reserve_run, reserve_under, reserve_optional, quota_reserved, check_budget,
  status,
}
use creance.Runs
use creance.Runs.{AgentSpec, claude_code}
use creance.FrontDoor.{
  AuthFailure, unauthorized, Request, accepted, refused, quota_exhausted, no_identity, Providers,
  new_run, admit, by_quota, by_budget, gated, found, resolved, decided, authenticated, checked,
  authorize_and_create,
}
use creance.FrontDoor.Laws.{Answers, IsAdmitted, authorize_and_create-IsAdmitted}

abbrev pub ann : Principal
ann = record { tenant = "acme"; subject = "ann"; groups = none; token = some "t1"; actors = none }

abbrev pub coder : AgentSpec
coder = record {
  name = "cc";
  tenant = none;
  model = none;
  description = none;
  system_prompt = none;
  tools = none;
  max_steps = none;
  command = none;
  kind = claude_code;
}

abbrev pub identify : Option String → Outcome AuthFailure Principal
identify none = thrown unauthorized
identify (some t) = if str_eq t "t1" then returned ann else thrown unauthorized

-- The world counts the dispatched runs.
abbrev pub providers : Providers memory_store ℕ
providers = record {
  authenticate = λ credential _ w. (identify credential, w);
  authorize = λ _ _ _ _ w. (returned (record { allow = true; reason = none }), w);
  get_agent = λ name w. (returned (if str_eq name "cc" then some coder else none), w);
  gate = record {
    fallback_limit = finite (pos 100);
    limit_source = none;
    session_limit = none;
    run_quota = some (finite (pos 1));
  };
  modes = "inprocess" ∷ [];
  default_mode = "inprocess";
  dispatch = λ _ w. ℕ.suc w;
}

abbrev request : Option String → Request
request credential = record {
  credential = credential;
  headers = [];
  agent = some "cc";
  task = "fix it";
  repo = some "o/r";
  dispatch_mode = none;
}

abbrev pub now : String
now = "2026-05-17T08:00:00.000Z"

runs : Unit {0}
unfolding memory_store new_store get add Memory.reserve key lookup insert take_text current_period
    run_period limit_for reserve_run reserve_under reserve_optional quota_reserved check_budget
    status Runs.create admit by_quota by_budget gated found resolved decided authenticated checked
    authorize_and_create ◌+ℤ◌ ◌-ℤ◌
runs = tt

admits :
    (authorize_and_create memory_store ℕ providers now now "r1"
      (request (some "t1"))
      (0, (new_store, []))).0
    ≡ returned (accepted (new_run memory_store ℕ providers now now "r1" (request (some "t1")) ann))
unfolding runs
admits = refl

-- The second run of the period is over the quota, and is not dispatched.
second :
    let first =
      authorize_and_create memory_store ℕ providers now now "r1"
        (request (some "t1"))
        (0, (new_store, [])) in
    let (answer, after) =
      authorize_and_create memory_store ℕ providers now now "r2" (request (some "t1")) first.1 in
    (answer
      ≡ returned (
          refused 429 (
            quota_exhausted (record {
              tenant = "acme";
              limit = finite (pos 1);
              used = pos 1;
              remaining = finite (pos 0);
              ok = false;
            }))))
    × (after.0 ≡ 1)
unfolding runs
second = (refl, refl)

stranger :
    (authorize_and_create memory_store ℕ providers now now "r1"
      (request none)
      (0, (new_store, []))).0
    ≡ returned (refused 401 no_identity)
unfolding runs
stranger = refl

authorize_and_create-IsAdmitted_example :
    Answers memory_store ℕ providers now now "r1"
      (request (some "t1"))
      (IsAdmitted memory_store ℕ providers now now "r1" (request (some "t1")) 0 new_store [])
      new_store
      []
      (authorize_and_create memory_store ℕ providers now now "r1"
        (request (some "t1"))
        (0, (new_store, [])))
authorize_and_create-IsAdmitted_example =
    authorize_and_create-IsAdmitted memory_store ℕ providers now now "r1" (request (some "t1")) 0
      new_store []
