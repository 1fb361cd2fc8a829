-- ===== src/App/Isolation.antt =====
-- Who may change an agent through the runtime's handler (services/agent-runtime/app.ts).
pub mod Deletes
pub mod Held
pub mod Puts
use creance.Prelude.{ℕ, true, false, sym, subst, ◌⊎◌, str_eq, eq_iff, Bool-cases}
use creance.Prelude.Dict.{Dict}
use creance.Prelude.Outcome.{Outcome, Action, Ends, world_of_Ends}
use creance.Ports.Json.{Json}
use creance.Agents.{IsRegistry}
use creance.Agents.Spec.{Validation, valid, invalid, validate_agent_spec}
use creance.FrontDoor.{AuthFailure, PolicyDecision}
use creance.FrontDoor.World.{KeepsWorld}
use creance.App.{failure}
use creance.App.Writes.{
  has_other_owner, stamped, put_done, put_found, put_decided, put_valid, put_body, put_agent,
  delete_done, delete_found, delete_decided, delete_agent,
}
use creance.App.Isolation.Held.{MayChange, get_keeps, throws-Holds}
