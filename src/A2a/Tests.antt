-- ===== src/A2a/Tests.antt =====
-- Calls of the A2A surface.
use creance.Prelude.{ℕ, suc, String, none, some, [], ◌≡◌, refl}
use creance.Prelude.Outcome.{returned}
use creance.Ports.Json.{Json, str, obj, arr, item, nil, field, end}
use creance.Ports.Fields.{find, member, member_of}
use creance.Gate.Memory.{memory_store, new_store}
use creance.Runs.{create}
use creance.FrontDoor.Tests.{providers, now}
use creance.Executor.{process_run}
use creance.Executor.Tests.{waiting, services, opts, stored}
use creance.A2a.{rpc, rpc_error, no_text}
use creance.A2a.Handler.{is_text, task_of, send, by_method, handle_a2a}
use creance.A2a.Laws.{Handles, handle_a2a-Handles}
use creance.A2a.Polling.{IsPolled, process_run-IsPolled}

abbrev call : String → Json → Json
call method params =
    obj (field "id" (str "c1") (field "method" (str method) (field "params" params end)))

abbrev poll : Json
poll = call "tasks/get" (obj (field "id" (str "r1") end))

abbrev message : Json → Json
message parts = call "message/send" (obj (field "message" (obj (field "parts" parts end)) end))

poll_method : member "method" poll ≡ some (str "tasks/get")
unfolding member find
poll_method = refl

poll_id : member_of "id" (member "params" poll) ≡ some (str "r1")
unfolding member member_of find
poll_id = refl

blank :
    (handle_a2a memory_store ℕ providers now now "r2" none
      (some "t1")
      []
      (some
        (message (arr (item (obj (field "kind" (str "text") (field "text" (str " ") end))) nil))))
      (0, (new_store, []))).0
    ≡ returned (rpc (rpc_error (some (str "c1")) no_text))
unfolding handle_a2a by_method send is_text task_of member member_of find
blank = refl

handle_a2a-Handles_example :
    Handles memory_store ℕ providers now now "r2"
      (some "cc")
      (some "t1")
      []
      (0, (new_store, []))
      (handle_a2a memory_store ℕ providers now now "r2"
        (some "cc")
        (some "t1")
        []
        (some poll)
        (0, (new_store, [])))
handle_a2a-Handles_example =
    handle_a2a-Handles memory_store ℕ providers now now "r2" (some "cc") (some "t1") [] (some poll)
      (0, (new_store, []))

process_run-IsPolled_example :
    IsPolled ℕ ℕ ℕ ℕ services opts memory_store ℕ providers now now "r2" none none [] poll 0
      new_store
      (process_run ℕ ℕ ℕ ℕ services opts "r1" (0, create waiting [])).1.1
process_run-IsPolled_example =
    process_run-IsPolled ℕ ℕ ℕ ℕ services opts memory_store ℕ providers now now "r2" none none []
      "r1" poll 0 (create waiting []) 0 new_store poll_method poll_id (waiting, stored)
      (λ name w. (none, w, refl)) (λ w. (7, suc w, refl)) (λ p s w. (8, w, refl))
