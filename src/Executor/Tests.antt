-- ===== src/Executor/Tests.antt =====
-- A run whose model is down.
use creance.Prelude.{ℕ, suc, false, none, some, [], ◌≡◌, refl}
use creance.Prelude.Dict.{lookup, insert}
use creance.Prelude.Outcome.{returned, thrown}
use creance.Runs.{Run, queued, create, get}
use creance.Executor.{Services, ProcessRunOpts, process_run}
use creance.Executor.Outcomes.{IsOver, process_run-IsOver}

abbrev pub waiting : Run
waiting = record {
  id = "r1";
  status = queued;
  task = "look";
  agent = none;
  repo = none;
  principal = none;
  dispatch = none;
  messages = [];
  output = none;
  error = none;
  usage = none;
  cost_usd = none;
  created_at = "2026-05-17";
  updated_at = "2026-05-17";
}

abbrev pub services : Services ℕ ℕ ℕ ℕ
services = record {
  clock = λ w. "2026-05-18";
  get_agent = λ name w. (returned none, w);
  start_session = λ w. (returned 7, suc w);
  resolve = λ p s w. (returned 8, w);
  tools_of = λ t. [];
  clone = λ s repo token id w. (thrown "no", w);
  finalize = λ ws w. (returned "pushed", w);
  run_sandboxed = λ s task spec url token w. (thrown "no", w);
  gateway_url = none;
  inference_for_tenant =
      λ t token id model w. (returned (λ ms ts n w'. (thrown "model is down", w')), w);
  memory = none;
  screen = λ text w. (returned (record { intervened = false; blocked = false; text = text }), w);
  close_toolset = λ t w. (returned tt, w);
  close_session = λ s w. (returned tt, w);
  fresh_id = "x";
  model = "claude-haiku";
}

abbrev pub opts : ProcessRunOpts ℕ ℕ ℕ ℕ
opts = record { max_output_tokens = none; github_token = none }

pub stored : get "r1" (create waiting []) ≡ some waiting
unfolding get create lookup insert
stored = refl

process_run-IsOver_example :
    let r = process_run ℕ ℕ ℕ ℕ services opts "r1" (0, create waiting []) in
    (r.0 ≡ returned tt) × IsOver ℕ ℕ ℕ ℕ services opts "r1" r.1.1
process_run-IsOver_example =
    process_run-IsOver ℕ ℕ ℕ ℕ services opts "r1" 0 (create waiting []) (waiting, stored)
      (λ name w. (none, w, refl)) (λ w. (7, suc w, refl)) (λ p s w. (8, w, refl))
