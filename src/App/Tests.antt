-- ===== src/App/Tests.antt =====
-- Requests to the runtime's handler, with the in-memory registry of agents.
use creance.Prelude.{ℕ, suc, String, Bool, true, Option, none, some, [], ◌∷◌, ◌≡◌, refl}
use creance.Prelude.Dict.{lookup, insert, erase}
use creance.Prelude.Outcome.{returned, thrown}
use creance.Gate.Memory.{memory_store, new_store}
use creance.Runs.{AgentSpec, loop}
use creance.Agents.{World, memory_registry, get, list, put, delete}
use creance.FrontDoor.{unauthorized}
use creance.FrontDoor.Tests
use creance.App.Http.{HttpRequest, bearer, without_bearer, segment}
use creance.App.{Services, with_cors, preflight}
use creance.App.Writes.{
  writing, identified, delete_agent, delete_decided, delete_found, delete_done,
}
use creance.App.Handler.{by_agent, route, with_headers, handle}
use creance.App.Answers.{Governs, handle-Governs}
use creance.App.Identity.{ShowsNothing, handle-ShowsNothing}

abbrev rival : AgentSpec
rival = record {
  name = "r";
  tenant = some "rival";
  description = none;
  model = none;
  system_prompt = none;
  tools = none;
  max_steps = none;
  command = none;
  kind = loop;
}

abbrev services : Services memory_store (World ℕ)
services = record {
  authenticate = λ credential _ w. (Tests.identify credential, w);
  authorize = λ _ _ _ _ w. (returned (record { allow = true; reason = none }), w);
  registry = memory_registry ℕ;
  gate = Tests.providers.gate;
  modes = "inprocess" ∷ [];
  default_mode = "inprocess";
  dispatch = λ _ (v, agents). (suc v, agents);
  a2a_agent = none;
  names = record {
    inference = "bedrock";
    model = "claude-haiku";
    sandbox = "local";
    store = "memory";
    gate = "local";
    authn = "static";
    authz = "allow";
    guard = "none";
    memory = none;
  };
}

abbrev request : Option String → HttpRequest
request credential = record {
  method = "DELETE";
  protocol = "http:";
  host = "localhost";
  pathname = "/agents/r";
  headers = elim credential [ none ↦ [] | some t ↦ ("authorization", t) ∷ [] ];
  body = none;
}

abbrev start : World ℕ
start = (0, insert "r" rival [])

abbrev alphabetic : String → String → Bool
alphabetic a b = true

opens : Unit {0}
unfolding handle route with_headers by_agent writing identified delete_agent delete_decided
    delete_found delete_done bearer without_bearer segment memory_registry get list put delete
    with_cors preflight lookup insert erase
opens = tt

-- The agent of another tenant is not deleted.
forbidden :
    let (answer, (w, rest)) =
      handle memory_store
        (World ℕ)
        services
        alphabetic
        "2026"
        "2026"
        "r1"
        (request (some "Bearer t1"))
        (start, (new_store, [])) in
    w ≡ start
unfolding opens
forbidden = refl

stranger : services.authenticate (bearer (request none)) [] start ≡ (thrown unauthorized, start)
unfolding bearer lookup
stranger = refl

handle-Governs_example :
    Governs memory_store
      (World ℕ)
      services
      alphabetic
      "2026"
      "2026"
      "r1"
      (request (some "Bearer t1"))
      (start, (new_store, []))
      (handle memory_store
        (World ℕ)
        services
        alphabetic
        "2026"
        "2026"
        "r1"
        (request (some "Bearer t1"))
        (start, (new_store, [])))
handle-Governs_example =
    handle-Governs memory_store (World ℕ) services alphabetic "2026" "2026" "r1"
      (request (some "Bearer t1")) (start, (new_store, []))

handle-ShowsNothing_example :
    ShowsNothing memory_store
      (World ℕ)
      services
      alphabetic
      "2026"
      "2026"
      "r1"
      (request none)
      unauthorized
      start
      start
      new_store
      []
      (handle memory_store
        (World ℕ)
        services
        alphabetic
        "2026"
        "2026"
        "r1"
        (request none)
        (start, (new_store, [])))
handle-ShowsNothing_example =
    handle-ShowsNothing memory_store (World ℕ) services alphabetic "2026" "2026" "r1" (request none)
      unauthorized start start new_store [] stranger refl
