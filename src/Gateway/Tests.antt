-- ===== src/Gateway/Tests.antt =====
-- Calls of the gateway and claims, over the in-process store and upstreams that answer at once.
use creance.Prelude.{
  ℕ, suc, String, true, false, none, some, [], ◌∷◌, ◌≡◌, refl, str_eq, if◌then◌else◌,
}
use creance.Prelude.Int.{pos, ◌+ℤ◌, ◌-ℤ◌}
use creance.Prelude.Text.{Lacks, Lacks-of_test}
use creance.Prelude.Dict.{lookup, insert}
use creance.Prelude.Outcome.{returned, thrown}
use creance.Ports.Json.{
  Json, null, bool, num, str, arr, obj, nil, item, end, field, integer, stringify, quote,
}
use creance.Gate.{Principal, current_period}
use creance.Gate.Price.{price_of, price_tokens, estimate_cost}
use creance.Gate.Local.{reserve, settle, limit_for, session_on, session_key}
use creance.Gate.Caps.{finite}
use creance.Gate.Memory.{memory_store, new_store}
use creance.Gateway.{MessagesDeps, parsed}
use creance.Gateway.Body.{to_bedrock_body, estimate_anthropic_input_tokens}
use creance.Gateway.Laws.{KeepsTally, IsBilled, parsed-IsBilled}
use creance.Gateway.Claims.{ClaimWrite, refused, rejected, model_not_allowed, handle_create_claim}
use creance.Gateway.Generate.{GenerateDeps, turned, handle_generate}
use creance.Gateway.Grants.{Grants, handle_create_claim-Grants}

abbrev now : String
now = "2026-05-17T08:00:00.000Z"

abbrev later : String
later = "2026-05-17T08:00:09.000Z"

abbrev acme : Principal
acme = record { tenant = "acme"; subject = "ada"; groups = none; token = none; actors = none }

-- Its usage is a thousand tokens in and a hundred out; it streams nothing.
abbrev deps : MessagesDeps memory_store ℕ
deps = record {
  authenticate = λ credential headers st. (returned acme, st);
  gate = record {
    fallback_limit = finite (pos 100000000);
    limit_source = none;
    session_limit = some (finite (pos 100000000));
    run_quota = none;
  };
  claim_model_for = none;
  resolve_model = λ requested. some "claude-sonnet";
  invoke = λ model tenant body (w, s). (
    returned (record {
      json = null;
      usage = some (record { input_tokens = some 1000; output_tokens = some 100 });
    }),
    (suc w, s),
  );
  invoke_stream = λ model tenant body (w, s).
      (thrown (record { name = "ThrottlingException"; message = "slow down" }), (suc w, s));
}

abbrev streaming : MessagesDeps memory_store ℕ
streaming = record deps {
  invoke_stream = λ model tenant body (w, s). (
    returned (record {
      events =
          record { kind = "message_start"; json = null; tokens = some 1000 }
          ∷ record { kind = "message_delta"; json = null; tokens = some 40 }
          ∷ [];
      fault = none;
      meanwhile = λ st. st;
      close_throws = true;
    }),
    (suc w, s),
  );
}

abbrev body_of : Json → Json
body_of streams = obj (
    field "model" (str "claude-sonnet") (
      field "stream" streams (
        field "max_tokens" (num (integer (pos 200))) (
          field "messages" (arr (item (str "hello") nil))
            (field "metadata" (obj (field "user_id" (str "r1") end)) end)))))

acme-Lacks : Lacks 0 "acme"
acme-Lacks = Lacks-of_test 0 "acme" refl

kept : (t' p' : String) → KeepsTally memory_store ℕ deps now later acme t' p'
kept t' p' = record {
  invokes = λ model tenant body st. refl;
  opens = λ model tenant body st. refl;
  finds = λ find e subject st. absurd cc;
}

in_a_month : current_period later ≡ current_period now
unfolding current_period
in_a_month = refl

-- The body goes to Bedrock without its model, its metadata and whether it streams.
body-sendable : (b : Json) × (to_bedrock_body (body_of (bool false)) ≡ some b)
unfolding to_bedrock_body
body-sendable = (_, refl)

parsed-IsBilled_example :
    IsBilled memory_store ℕ deps now later acme
      (body_of (bool false))
      "acme"
      "2026-05"
      (kept "acme" "2026-05")
      acme-Lacks
      acme-Lacks
      in_a_month
      body-sendable
      (memory_store.get "acme" "2026-05" new_store)
      (parsed memory_store ℕ deps now later acme (some (body_of (bool false))) (0, new_store))
parsed-IsBilled_example =
    parsed-IsBilled memory_store ℕ deps now later acme (body_of (bool false)) "acme" "2026-05"
      (kept "acme" "2026-05") acme-Lacks acme-Lacks in_a_month body-sendable (0, new_store)

-- It grants what is asked for to the holder of the one token that it knows.
abbrev write : ClaimWrite ℕ (λ v. finite (pos 5000000000))
write = record {
  verify_identity = λ token w. (returned (if str_eq token "t" then some "ada" else none), w);
  allowance = record {
    max_monthly = finite (pos 10000000000);
    allowed_models = "claude-sonnet" ∷ [];
  };
  put_claim = λ claim w. (returned tt, suc w);
}

abbrev asked : Json
asked = obj (field "model" (str "claude-sonnet") (field "monthlyBudgetUsd" (str "50") end))

handle_create_claim-Grants_example :
    Grants ℕ
      (λ v. finite (pos 5000000000))
      write
      (insert "authorization" "Bearer t" [])
      0
      (handle_create_claim ℕ
        (λ v. finite (pos 5000000000))
        write
        (insert "authorization" "Bearer t" [])
        (some asked)
        0)
handle_create_claim-Grants_example =
    handle_create_claim-Grants ℕ (λ v. finite (pos 5000000000)) write
      (insert "authorization" "Bearer t" []) (some asked) 0

-- Without an allowed model the claim is rejected, and nothing is put.
claim_rejected :
    handle_create_claim ℕ
      (λ v. finite (pos 5000000000))
      write
      (insert "authorization" "Bearer t" [])
      (some (obj (field "model" (str "gpt") (field "monthlyBudgetUsd" (str "50") end))))
      0
    ≡ (returned (rejected model_not_allowed), 0)
unfolding handle_create_claim insert
claim_rejected = refl

claim_created :
    (handle_create_claim ℕ
      (λ v. finite (pos 5000000000))
      write
      (insert "authorization" "Bearer t" [])
      (some asked)
      0).1
    ≡ 1
unfolding handle_create_claim insert
claim_created = refl

unknown_token :
    handle_create_claim ℕ
      (λ v. finite (pos 5000000000))
      write
      (insert "authorization" "Bearer u" [])
      (some asked)
      0
    ≡ (returned (refused 401 "unauthorized"), 0)
unfolding handle_create_claim insert
unknown_token = refl

-- Two calls: a thousand tokens in and a hundred out, and then forty out, by what a stream reports.
tally_of_calls :
    memory_store.get "acme" "2026-05"
      (parsed memory_store ℕ streaming now later acme
        (some (body_of (bool true)))
        (parsed memory_store ℕ deps now later acme
          (some (body_of (bool false)))
          (0, new_store)).1).1.1
    ≡ pos 810000
unfolding parsed memory_store new_store estimate_anthropic_input_tokens to_bedrock_body lookup
    insert reserve settle limit_for session_on session_key stringify quote price_of price_tokens
    estimate_cost current_period ◌+ℤ◌ ◌-ℤ◌
tally_of_calls = refl

-- Its provider answers with the text of the tenant.
abbrev serving : GenerateDeps ℕ
serving = record {
  authenticate = λ credential headers w. (returned acme, w);
  inference_for_tenant = λ tenant token session model w.
      (returned (λ messages tools max_tokens at. (returned (str tenant), suc at)), suc w);
  model_for = none;
}

abbrev prompt : Json
prompt = obj (
    field "messages" (arr (item (str "hello") nil))
      (field "maxTokens" (num (integer (pos 64))) end))

turn_of_acme : handle_generate ℕ serving [] (some prompt) 0 ≡ (returned (turned (str "acme")), 2)
unfolding handle_generate
turn_of_acme = refl
