-- ===== src/Loop/Tests.antt =====
-- Runs of the loop with a scripted model, a guard that masks one word and one tool.
use creance.Prelude.{
  ℕ, suc, ◌+◌, ◌*◌, ◌≤◌, String, true, false, Option, none, some, List, [], ◌∷◌, ◌≡◌, ◌≢◌, refl,
  arith, length, str_eq, eq_iff, if◌then◌else◌, Bool-cases, inl, inr, ap, sym, ◌∙◌, Bool,
}
use creance.Prelude.Outcome.{returned, Ends}
use creance.Ports.{ToolCall, AssistantTurn, GuardVerdict}
use creance.Ports.Json.{Json, null, stringify, quote, number_text}
use creance.Loop.{
  Opts, AgentTool, completed, max_steps, run_on_session, screened, loop, after_turn, run_calls,
  run_tool, find_tool, progress, result, said, answered, signature, opening, step_limit, passed_on,
}
use creance.Loop.Trace.{Reports, Ports}
use creance.Loop.Turns.{run_on_session-Reports}
use creance.Loop.Cost.{run_on_session_cost}

-- The world counts the turns that the model has answered.
abbrev call_of : String → ToolCall
call_of id = record { id = id; name = "peek"; input = null }

abbrev script : ℕ → AssistantTurn
script n = record {
  text = some "done";
  tool_calls = elim n [ ℕ.zero ↦ call_of "c0" ∷ [] | _ ↦ [] ];
  usage = some (record { input_tokens = some 7; output_tokens = none });
}

abbrev mask : String → GuardVerdict
mask text =
    if str_eq text "secret"
    then record { intervened = true; blocked = false; text = "[masked]" }
    else record { intervened = false; blocked = false; text = text }

abbrev peek : AgentTool ℕ
peek = record {
  spec = record { name = "peek"; description = ""; input_schema = null };
  run = λ _ w. (returned "secret", w);
}

abbrev sample : Opts String ℕ
sample = record {
  generate = λ _ _ _ w. (returned (script w), suc w);
  screen = λ text w. (returned (mask text), w);
  tools = peek ∷ [];
  task = "look";
  system_prompt = some "be brief";
  max_steps = some 5;
  max_output_tokens = none;
  on_progress = none;
  run_id = "r1";
}

-- The same model with one step: it stops at the limit.
abbrev hasty : Opts String ℕ
hasty = record sample { max_steps = some 1 }

runs : Unit {0}
unfolding run_on_session screened loop after_turn run_calls run_tool find_tool progress result said
    answered signature opening stringify quote number_text
runs = tt

run_sample :
    (run_on_session sample 0).0
    ≡ returned (record {
      run_id = "r1";
      status = completed;
      output = some "done";
      usage = some (record { input_tokens = some 14; output_tokens = some 0 });
    })
unfolding runs
run_sample = refl

run_hasty :
    (run_on_session hasty 0).0
    ≡ returned (record {
      run_id = "r1";
      status = max_steps;
      output = none;
      usage = some (record { input_tokens = some 7; output_tokens = some 0 });
    })
unfolding runs
run_hasty = refl

abbrev Log : List AssistantTurn → ℕ → Type 0
Log turns w = w ≡ length turns

abbrev IsMasked : String → Type 0
IsMasked text = text ≢ "secret"

mask-IsMasked : (text : String) → IsMasked (passed_on (mask text) text)
mask-IsMasked text = elim (Bool-cases (str_eq text "secret")) [
  | inl e ↦ rw e (λ p. ground (arith, eq_iff "[masked]" "secret"))
  | inr e ↦ rw e (λ p. ground (arith, eq_iff text "secret"))
]

abbrev ran : Json → ℕ → Option (AgentTool ℕ) → ℕ
ran input w none = w
ran input w (some t) = (t.run input w).1

only_peek_world :
    (b : Bool) (t : AgentTool ℕ) (input : Json) (w : ℕ)
    → (if b then some peek else none) ≡ some t
    → (t.run input w).1 ≡ w
only_peek_world true t input w e = sym (ap (ran input w) e)
only_peek_world false t input w e = cc

sample_ports : Ports sample Log IsMasked (opening (some "be brief") "look")
unfolding find_tool progress
sample_ports = record {
  asks = λ ms turns w talk p. omega (arith, p);
  screens = λ text turns w p. (p, mask-IsMasked text);
  runs = λ name t input turns w e p. only_peek_world (str_eq "peek" name) t input w e ∙ p;
  tells = λ ms turns w p. p;
}

run_on_session-Reports_example :
    Ends
      (λ r w'. (turns : List AssistantTurn) × Log turns w' × Reports sample r turns)
      (λ _ w'. (turns : List AssistantTurn) × Log turns w' × (length turns ≤ step_limit sample))
      (run_on_session sample 0)
run_on_session-Reports_example =
    run_on_session-Reports sample Log IsMasked (mask "look") 0 0 refl sample_ports refl

run_on_session_cost_example : (run_on_session sample 0).1 ≤ 0 + 5 * 1
unfolding find_tool progress
run_on_session_cost_example =
    run_on_session_cost sample (λ w. w) 1 0 (λ ms w. omega arith) (λ text w. omega arith)
      (λ name t input w e.
        let same = only_peek_world (str_eq "peek" name) t input w e in omega (arith, same))
      (λ ms w. omega arith)
