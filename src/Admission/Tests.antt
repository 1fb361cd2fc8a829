-- ===== src/Admission/Tests.antt =====
-- Metered turns of a scripted model over the in-process store.
use creance.Prelude.{
  ℕ, suc, String, true, none, some, List, [], ◌∷◌, ◌≡◌, refl, ◌||◌, arith, subst, ap,
}
use creance.Prelude.Int.{ℤ, pos, ◌+ℤ◌}
use creance.Prelude.Text.{Lacks, Lacks-of_test, utf16_length}
use creance.Prelude.Dict.{lookup}
use creance.Prelude.Outcome.{Outcome, returned, thrown}
use creance.Ports.{Message, user, AssistantTurn}
use creance.Gate.{BudgetStatus, current_period}
use creance.Gate.Caps.{finite}
use creance.Gate.Memory.{memory_store, new_store, get}
use creance.Gate.Price.{IsUnder, price_of, find_included, price_tokens}
use creance.Gate.Local.{limit_for, session_on}
use creance.Gate.Local.Laws.{breaks}
use creance.Gate.Local.Limits.{IsWithinCaps, session_breaks}
use creance.Admission.{
  Failure, budget_exceeded, Admission, scopes_of, worst_case, generate, estimate_input_tokens,
  messages_chars, message_chars, tool_chars,
}
use creance.Admission.Laws.{
  spent, entry, held_for, Keeps, get-generate, generate_refuses, IsHonest, generate-IsWithinCaps,
}

abbrev now : String
now = "2026-05-17T08:00:00.000Z"

-- A call that ends in the next month.
abbrev later : String
later = "2026-06-01T00:00:02.000Z"

abbrev reply : AssistantTurn
reply = record {
  text = some "ok";
  tool_calls = [];
  usage = some (record { input_tokens = some 0; output_tokens = none });
}

abbrev metered : ℤ → Admission memory_store ℕ
metered ceiling = record {
  inner = λ _ _ _ ws. (returned reply, (suc ws.0, ws.1));
  model = "claude-sonnet";
  gate = record {
    fallback_limit = finite ceiling;
    limit_source = none;
    session_limit = some (finite (pos 100000000));
    run_quota = none;
  };
  tenant = "acme";
  scope_id = some "r1";
}

abbrev ask : List Message
ask = user "hello" ∷ []

acme-Lacks : Lacks 0 "acme"
acme-Lacks = Lacks-of_test 0 "acme" refl

-- What is held for the call: eleven tokens in, 64 out.
ask_worst : worst_case "claude-sonnet" ask [] 64 ≡ pos 96600
unfolding worst_case estimate_input_tokens messages_chars message_chars tool_chars price_tokens
    price_of find_included lookup utf16_length
ask_worst = refl

kept : (ceiling : ℤ) → Keeps memory_store ℕ (metered ceiling) now later
kept ceiling ms ts n w s t' p' h = refl

get-generate_example :
    let r = generate memory_store ℕ (metered (pos 100000000)) now later ask [] 64 (0, new_store) in
    memory_store.get "acme" "session#r1" r.1.1
    ≡ memory_store.get "acme" "session#r1" new_store
      +ℤ entry memory_store ℕ
          (metered (pos 100000000))
          now
          later
          "acme"
          "session#r1"
          (held_for memory_store ℕ (metered (pos 100000000)) now later ask [] 64 new_store)
          (spent "claude-sonnet" r.0)
get-generate_example =
    get-generate memory_store ℕ (metered (pos 100000000)) now later ask [] 64 0 new_store "acme"
      "session#r1" acme-Lacks acme-Lacks (kept (pos 100000000))

-- A cap of 500 is below what the call may cost.
ask-breaks :
    (breaks memory_store "acme"
        (current_period now)
        (worst_case "claude-sonnet" ask [] 64)
        (limit_for (metered (pos 500)).gate "acme")
        new_store
      || session_breaks memory_store "acme"
          (worst_case "claude-sonnet" ask [] 64)
          (session_on (metered (pos 500)).gate (scopes_of memory_store ℕ (metered (pos 500))))
          new_store)
    ≡ true
unfolding limit_for
ask-breaks = rw ask_worst

generate_refuses_example :
    let r = generate memory_store ℕ (metered (pos 500)) now later ask [] 64 (0, new_store) in
    ((b : BudgetStatus) × (r.0 ≡ thrown (budget_exceeded b)))
    × (r.1.0 ≡ 0)
    × ((t' p' : String)
        → Lacks 0 t'
        → memory_store.get t' p' r.1.1 ≡ memory_store.get t' p' new_store)
generate_refuses_example =
    generate_refuses memory_store ℕ (metered (pos 500)) now later ask [] 64 0 new_store acme-Lacks
      ask-breaks

abbrev turn_of : Outcome Failure AssistantTurn → AssistantTurn
turn_of (returned t) = t
turn_of (thrown e) = reply

metered-IsHonest : (ceiling : ℤ) → IsHonest memory_store ℕ (metered ceiling) now later
metered-IsHonest ceiling ms ts n ws turn e =
    subst (λ t. IsUnder (estimate_input_tokens ms ts) n t.usage) (ap turn_of e)
      (omega arith, omega arith)

within_before : IsWithinCaps memory_store (metered (pos 500)).gate now new_store
unfolding memory_store new_store get limit_for lookup
within_before t h = refl

generate-IsWithinCaps_example :
    IsWithinCaps memory_store
      (metered (pos 500)).gate
      now
      (generate memory_store ℕ (metered (pos 500)) now later ask [] 64 (0, new_store)).1.1
generate-IsWithinCaps_example =
    generate-IsWithinCaps memory_store ℕ (metered (pos 500)) now later ask [] 64 0 new_store
      acme-Lacks (metered-IsHonest (pos 500)) (λ s₁ h. h) within_before
