-- ===== src/App/Handler.antt =====
-- The handler that `createApp` returns (services/agent-runtime/app.ts): its routes in their order, and
-- the CORS headers around them.
use creance.Prelude.{String, Bool, Option, none, some, [], ◌∷◌, str_eq, if◌then◌else◌}
use creance.Prelude.Outcome.{Outcome, returned, thrown}
use creance.Gate.{SpendStore}
use creance.FrontDoor.{State}
use creance.A2a.{A2aReply, rpc, bearer_required, rpc_json}
use creance.A2a.Handler.{handle_a2a}
use creance.App.Http.{HttpRequest, bearer, segment, is_route}
use creance.App.{
  document, failure, not_found, Services, front, Answer, answer, with_cors, preflight,
}
use creance.App.Reads.{
  card, health, root, info, reading, list_runs, get_run, list_agents, get_budget, get_usage,
}
use creance.App.Writes.{post_run, writing, put_agent, delete_agent}

module _ (S : SpendStore) (W : Type 0) (d : Services S W) (not_after : String → String → Bool)
    (clock now run_id : String) (q : HttpRequest) where
  unfoldable pub from_a2a : Outcome String A2aReply × State S W → Answer S W
  unfolding rpc_json
  from_a2a (thrown e, st) = (thrown e, st)
  from_a2a (returned (rpc r), st) = answer S W 200 (document (rpc_json r)) st
  from_a2a (returned bearer_required, st) = (
    returned (record {
      status = 401;
      headers = ("www-authenticate", "Bearer") ∷ [];
      body = failure "unauthorized" none;
    }),
    st,
  )

  -- The routes whose path has a parameter.
  unfoldable pub by_usage : Option String → State S W → Answer S W
  unfolding get_usage reading
  by_usage none st = answer S W 404 not_found st
  by_usage (some tenant) st =
      if str_eq q.method "GET"
      then reading S W d clock q (get_usage S W d clock q tenant) st
      else answer S W 404 not_found st

  unfoldable pub by_budget : Option String → State S W → Answer S W
  unfolding by_usage
  by_budget none st = by_usage (segment "/tenants/" "/usage" q.pathname) st
  by_budget (some tenant) st =
      if str_eq q.method "GET"
      then reading S W d clock q (get_budget S W d clock q tenant) st
      else by_usage (segment "/tenants/" "/usage" q.pathname) st

  unfoldable pub by_run : Option String → State S W → Answer S W
  unfolding by_budget
  by_run none st = by_budget (segment "/tenants/" "/budget" q.pathname) st
  by_run (some id) st =
      if str_eq q.method "GET"
      then reading S W d clock q (get_run S W d clock q id) st
      else by_budget (segment "/tenants/" "/budget" q.pathname) st

  unfoldable pub by_agent : Option String → State S W → Answer S W
  unfolding by_run
  by_agent none st = by_run (segment "/runs/" "" q.pathname) st
  by_agent (some name) st =
      if str_eq q.method "DELETE"
      then writing S W d clock now run_id q
          (delete_agent S W d clock now run_id q d.registry.delete name) st
      else by_run (segment "/runs/" "" q.pathname) st

  unfoldable pub route : State S W → Answer S W
  unfolding by_agent
  route st =
      if is_route "GET" "/.well-known/agent-card.json" q
      then answer S W 200 (document (card S W d clock q)) st
      else if is_route "POST" "/a2a" q
      then from_a2a
          (handle_a2a S W (front S W d) clock now run_id d.a2a_agent (bearer q) q.headers q.body st)
      else if is_route "GET" "/healthz" q
      then answer S W 200 (document (health S W d clock q)) st
      else if is_route "GET" "/" q
      then answer S W 200 (document (root S W d clock q)) st
      else if is_route "GET" "/info" q
      then answer S W 200 (document (info S W d clock q)) st
      else if is_route "GET" "/runs" q
      then reading S W d clock q (list_runs S W d clock q not_after) st
      else if is_route "POST" "/runs" q
      then post_run S W d clock now run_id q q.body st
      else if is_route "GET" "/agents" q
      then reading S W d clock q (list_agents S W d clock q) st
      else if is_route "POST" "/agents" q
      then writing S W d clock now run_id q (put_agent S W d clock now run_id q d.registry.put) st
      else by_agent (segment "/agents/" "" q.pathname) st

  unfoldable pub with_headers : Answer S W → Answer S W
  unfolding with_cors
  with_headers (returned r, st) = (returned (with_cors r), st)
  with_headers (thrown e, st) = (thrown e, st)

  unfoldable pub handle : State S W → Answer S W
  unfolding route with_headers preflight
  handle st =
      if str_eq q.method "OPTIONS" then (returned preflight, st) else with_headers (route st)
