-- ===== src/A2a/Handler.antt =====
-- `handleA2A` (services/agent-runtime/a2a.ts): `message/send` and `tasks/get`, over the gate sequence
-- of the front door and the run store.
use creance.Prelude.{
  String, Bool, false, Option, none, some, List, [], ◌∷◌, ◌==◌, str_eq, if◌then◌else◌,
}
use creance.Prelude.Dict.{Dict}
use creance.Prelude.Outcome.{Outcome, returned, thrown}
use creance.Ports.Json.{Json, null, str, arr, Items, nil, item}
use creance.Ports.Fields.{member, member_of, text_of, optional_text, json_text}
use creance.Executor.Texts.{trim}
use creance.Gate.{SpendStore}
use creance.Runs
use creance.Runs.{Run}
use creance.FrontDoor.{
  Request, GateOutcome, accepted, refused, State, Providers, authorize_and_create,
}
use creance.FrontDoor.Texts.{joined}
use creance.A2a.{
  Rpc, rpc_error, rpc_ok, parse_error, no_text, refused_run, task_not_found, no_method, A2aReply,
  rpc, bearer_required, run_to_task,
}

unfoldable pub is_text : String → Option Json → Bool
is_text s (some (str t)) = str_eq t s
is_text s _ = false

-- `p.text ?? ""`, as `join` writes it.
part_text : Option Json → String
unfolding json_text
part_text none = ""
part_text (some null) = ""
part_text (some v) = json_text v

pub text_parts : Items → List String
unfolding is_text part_text member
text_parts nil = []
text_parts (item p more) =
    let rest = text_parts more in
    if is_text "text" (member "kind" p) then part_text (member "text" p) ∷ rest else rest

-- The text of a message; a `parts` that is no list has no `filter`.
unfoldable pub task_of : Option Json → Option String
unfolding text_parts joined trim
task_of none = some ""
task_of (some null) = some ""
task_of (some (arr items)) = some (trim (joined "\n" (text_parts items)))
task_of (some _) = none

or_agent : Option String → Option String → Option String
or_agent (some agent) fallback = some agent
or_agent none fallback = fallback

-- An agent that is no text stands for its text.
unfoldable pub agent_of : Option Json → Option String → Option String
unfolding optional_text or_agent member_of
agent_of params fallback =
    or_agent (optional_text (member_of "agent" (member_of "metadata" params))) fallback

-- `String(params?.id ?? "")`
unfoldable pub asked_id : Option Json → String
unfolding json_text
asked_id none = ""
asked_id (some null) = ""
asked_id (some v) = json_text v

-- The request's credential and headers, the clocks and the fresh id of the run that it may create.
module _ (S : SpendStore) (W : Type 0) (d : Providers S W) (clock now run_id : String)
    (default_agent : Option String) (credential : Option String) (headers : Dict String) where
  abbrev Answer : Type 0
  Answer = Outcome String A2aReply × State S W

  abbrev reply : Rpc → State S W → Answer
  reply r st = (returned (rpc r), st)

  abbrev pub sent_request : Option String → String → Request
  sent_request agent task = record {
    credential = credential;
    headers = headers;
    agent = agent;
    task = task;
    repo = none;
    dispatch_mode = none;
  }

  unfoldable pub answered : Option Json → Outcome String GateOutcome × State S W → Answer
  answered id (thrown e, st) = (thrown e, st)
  answered id (returned (accepted run), st) = reply (rpc_ok id (run_to_task run)) st
  answered id (returned (refused status why), st) =
      if status == 401
      then (returned bearer_required, st)
      else reply (rpc_error id (refused_run status why)) st

  unfoldable pub send : Option Json → Option Json → Option String → State S W → Answer
  unfolding answered
  send id params none st = (thrown "parts.filter is not a function", st)
  send id params (some task) st =
      if str_eq task ""
      then reply (rpc_error id no_text) st
      else answered id (
          authorize_and_create S W d clock now run_id
            (sent_request (agent_of params default_agent) task) st)

  unfoldable pub got : Option Json → Option Run → State S W → Answer
  got id none st = reply (rpc_error id task_not_found) st
  got id (some run) st = reply (rpc_ok id (run_to_task run)) st

  unfoldable pub by_method : Option Json → Option Json → Option Json → State S W → Answer
  unfolding send got Runs.get
  by_method id method params st =
      if is_text "message/send" method
      then send id params (task_of (member_of "parts" (member_of "message" params))) st
      else if is_text "tasks/get" method
      then got id (Runs.get (asked_id (member_of "id" params)) st.1.1) st
      else reply (rpc_error id (no_method (text_of method))) st

  -- The body is `none` where it is no JSON.
  unfoldable pub handle_a2a : Option Json → State S W → Answer
  unfolding by_method
  handle_a2a none st = reply (rpc_error none parse_error) st
  handle_a2a (some body) st =
      by_method (member "id" body) (member "method" body) (member "params" body) st
