-- ===== src/A2a.antt =====
-- The A2A surface of the runtime (services/agent-runtime/a2a.ts): a run as an A2A task, the agent
-- card, and the replies of JSON-RPC.
pub mod Handler
pub mod Laws
pub mod Polling
mod Tests
use Prim.Native.String
use creance.Prelude.{ℕ, String, false, Option, none, some}
use creance.Prelude.Int.{ℤ, negsuc, pos}
use creance.Ports.Json.{
  Json, null, bool, num, str, arr, obj, nil, item, Fields, end, field, integer,
}
use creance.Ports.Fields.{optional}
use creance.Runs.{Run, RunStatus}
use creance.FrontDoor.{Refusal}
use creance.FrontDoor.Texts.{error_text, reason_text}

pub data TaskState : Type 0 where
  submitted working completed failed canceled : TaskState

-- `STATE[status]`, which has no entry for `max_steps`.
unfoldable pub state_of : RunStatus → Option TaskState
state_of RunStatus.queued = some submitted
state_of RunStatus.running = some working
state_of RunStatus.completed = some completed
state_of RunStatus.failed = some failed
state_of RunStatus.blocked = some failed
state_of RunStatus.stuck = some failed
state_of RunStatus.max_steps = none

-- An artifact has one part, its text, and the name "result".
pub record Artifact : Type 0 where
  pub artifact_id : String
  pub text : String

pub record Task : Type 0 where
  pub id : String
  pub context_id : String
  pub state : Option TaskState
  pub artifact : Option Artifact

result_of : String → RunStatus → Option String → Option Artifact
result_of id RunStatus.completed (some output) =
    some (record { artifact_id = String.◌++◌ id "-result"; text = output })
result_of id _ _ = none

unfoldable pub run_to_task : Run → Task
unfolding state_of result_of
run_to_task run = record {
  id = run.id;
  context_id = run.id;
  state = state_of run.status;
  artifact = result_of run.id run.status run.output;
}

abbrev only : Json → Json
only v = arr (item v nil)

unfoldable pub build_agent_card : (name description url : String) → Json
build_agent_card name description url = obj (
    field "protocolVersion" (str "0.3.0") (
      field "name" (str name) (
        field "description" (str description) (
          field "url" (str url) (
            field "version" (str "1.0.0") (
              field "capabilities"
                (obj (field "streaming" (bool false) (field "pushNotifications" (bool false) end)))
                (field "defaultInputModes" (only (str "text/plain")) (
                  field "defaultOutputModes" (only (str "text/plain")) (
                    field "skills"
                      (only (
                        obj (
                          field "id" (str name) (
                            field "name" (str name) (
                              field "description" (str description)
                                (field "tags" (only (str "agent-os")) end))))))
                      (field "securitySchemes"
                        (obj (
                          field "bearer"
                            (obj (
                              field "type" (str "http") (
                                field "scheme" (str "bearer")
                                  (field "bearerFormat" (str "JWT") end))))
                            end))
                        (field "security" (only (obj (field "bearer" (arr nil) end))) end)))))))))))

-- Why JSON-RPC answers an error.
pub data RpcFailure : Type 0 where
  parse_error : RpcFailure
  no_text : RpcFailure
  refused_run : (status : ℕ) → Refusal → RpcFailure
  task_not_found : RpcFailure
  no_method : String → RpcFailure

pub data Rpc : Type 0 where
  rpc_error : (id : Option Json) → RpcFailure → Rpc
  rpc_ok : (id : Option Json) → Task → Rpc

-- Without an identity the answer is HTTP 401, and no JSON-RPC.
pub data A2aReply : Type 0 where
  rpc : Rpc → A2aReply
  bearer_required : A2aReply

code_of : RpcFailure → ℤ
code_of parse_error = negsuc 32699
code_of no_text = negsuc 32601
code_of (refused_run status why) = negsuc 31999
code_of task_not_found = negsuc 32000
code_of (no_method name) = negsuc 32600

message_of : RpcFailure → String
unfolding error_text
message_of parse_error = "parse error"
message_of no_text = "message has no text parts"
message_of (refused_run status why) = error_text why
message_of task_not_found = "task not found"
message_of (no_method name) = String.◌++◌ "method not found: " name

abbrev text_json : Option String → Option Json
text_json none = none
text_json (some s) = some (str s)

data_of : RpcFailure → Option Json
unfolding reason_text optional
data_of (refused_run status why) = some (
    obj (
      field "status" (num (integer (pos status)))
        (optional "reason" (text_json (reason_text why)) end)))
data_of _ = none

-- `id ?? null`
abbrev id_json : Option Json → Json
id_json none = null
id_json (some v) = v

word_of : TaskState → String
word_of submitted = "submitted"
word_of working = "working"
word_of completed = "completed"
word_of failed = "failed"
word_of canceled = "canceled"

state_json : Option TaskState → Option Json
unfolding word_of
state_json none = none
state_json (some s) = some (str (word_of s))

artifacts_json : Option Artifact → Option Json
artifacts_json none = none
artifacts_json (some a) = some (
    only (
      obj (
        field "artifactId" (str a.artifact_id) (
          field "name" (str "result") (
            field "parts" (only (obj (field "kind" (str "text") (field "text" (str a.text) end))))
              end)))))

task_json : Task → Json
unfolding state_json artifacts_json optional
task_json t = obj (
    field "id" (str t.id) (
      field "contextId" (str t.context_id) (
        field "status" (obj (optional "state" (state_json t.state) end))
          (field "kind" (str "task") (optional "artifacts" (artifacts_json t.artifact) end)))))

-- The body of a JSON-RPC answer.
unfoldable pub rpc_json : Rpc → Json
unfolding code_of message_of data_of task_json optional
rpc_json (rpc_error id why) = obj (
    field "jsonrpc" (str "2.0") (
      field "id" (id_json id) (
        field "error"
          (obj (
            field "code" (num (integer (code_of why)))
              (field "message" (str (message_of why)) (optional "data" (data_of why) end))))
          end)))
rpc_json (rpc_ok id task) =
    obj
      (field "jsonrpc" (str "2.0") (field "id" (id_json id) (field "result" (task_json task) end)))
