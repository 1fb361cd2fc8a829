-- ===== src/App/Routes.antt =====
-- A predicate that holds of the answer of every route holds of the handler's answer, whose CORS
-- headers aside.
use creance.Prelude.{String, Bool, true, Option, none, some, ◌≡◌, refl, if-holds, str_eq}
use creance.Prelude.Dict.{Dict}
use creance.Prelude.Outcome.{Outcome, returned, thrown, Ends}
use creance.Ports.Json.{Json}
use creance.Gate.{Principal, SpendStore}
use creance.Runs.{Run}
use creance.FrontDoor.{AuthFailure, unauthorized, other, State}
use creance.A2a.Handler.{handle_a2a}
use creance.App.Http.{HttpRequest, bearer, segment, is_route}
use creance.App.{
  Body, document, failure, not_found, Services, front, Answer, answer, with_cors, preflight,
}
use creance.App.Reads.{
  card, health, root, info, reads, reading, list_runs, get_run, list_agents, get_budget, get_usage,
}
use creance.App.Writes.{post_run, identified, writing, put_agent, delete_agent}
use creance.App.Handler.{
  from_a2a, by_usage, by_budget, by_run, by_agent, route, with_headers, handle,
}

module _ (S : SpendStore) (W : Type 0) (d : Services S W) (not_after : String → String → Bool)
    (clock now run_id : String) (q : HttpRequest) where
  open S use {Store}

  -- A document of the deployment: its agent card, its health, its name, or its wiring.
  pub data IsDocument : Json → Type 0 where
    is_card : IsDocument (card S W d clock q)
    is_health : IsDocument (health S W d clock q)
    is_root : IsDocument (root S W d clock q)
    is_info : IsDocument (info S W d clock q)

  -- `Q` holds of the body that is replied and the state after it, `R` of the state after a throw.
  unfoldable pub Replies : (Body → State S W → Type 0) → (State S W → Type 0) → Answer S W → Type 0
  Replies Q R r = Ends (λ reply st. Q reply.body st) (λ e st. R st) r

  module _ (Q : Body → State S W → Type 0) (R : State S W → Type 0) where
    pub record EachRoute (st : State S W) : Type 0 where
      pub preflights : Replies Q R (returned preflight, st)
      pub documents : (j : Json) → IsDocument j → Replies Q R (answer S W 200 (document j) st)
      pub misses : Replies Q R (answer S W 404 not_found st)
      pub calls :
          is_route "POST" "/a2a" q ≡ true
          → Replies Q R (
              from_a2a S W d not_after clock now run_id q (
                handle_a2a S W
                  (front S W d)
                  clock
                  now
                  run_id
                  d.a2a_agent
                  (bearer q)
                  q.headers
                  q.body
                  st))
      pub lists_runs : Replies Q R (reading S W d clock q (list_runs S W d clock q not_after) st)
      pub gets_run :
          (id : String) → Replies Q R (reading S W d clock q (get_run S W d clock q id) st)
      pub lists_agents : Replies Q R (reading S W d clock q (list_agents S W d clock q) st)
      pub gets_budget :
          (tenant : String)
          → Replies Q R (reading S W d clock q (get_budget S W d clock q tenant) st)
      pub gets_usage :
          (tenant : String)
          → Replies Q R (reading S W d clock q (get_usage S W d clock q tenant) st)
      pub posts_run : Replies Q R (post_run S W d clock now run_id q q.body st)
      pub puts_agent :
          is_route "POST" "/agents" q ≡ true
          → Replies Q R (
              writing S W d clock now run_id q
                (put_agent S W d clock now run_id q d.registry.put)
                st)
      pub deletes_agent :
          (name : String)
          → str_eq q.method "DELETE" ≡ true
          → Replies Q R (
              writing S W d clock now run_id q
                (delete_agent S W d clock now run_id q d.registry.delete name)
                st)

    module _ (st : State S W) (h : EachRoute st) where
      by_usage-Replies :
          (tenant : Option String)
          → Replies Q R (by_usage S W d not_after clock now run_id q tenant st)
      unfolding by_usage
      by_usage-Replies none = h.misses
      by_usage-Replies (some tenant) =
          if-holds (Replies Q R) _ _ _ (λ e. h.gets_usage tenant) h.misses

      by_budget-Replies :
          (tenant : Option String)
          → Replies Q R (by_budget S W d not_after clock now run_id q tenant st)
      unfolding by_budget
      by_budget-Replies none = by_usage-Replies _
      by_budget-Replies (some tenant) =
          if-holds (Replies Q R) _ _ _ (λ e. h.gets_budget tenant)
            (by_usage-Replies (segment "/tenants/" "/usage" q.pathname))

      by_run-Replies :
          (id : Option String) → Replies Q R (by_run S W d not_after clock now run_id q id st)
      unfolding by_run
      by_run-Replies none = by_budget-Replies _
      by_run-Replies (some id) =
          if-holds (Replies Q R) _ _ _ (λ e. h.gets_run id)
            (by_budget-Replies (segment "/tenants/" "/budget" q.pathname))

      by_agent-Replies :
          (name : Option String) → Replies Q R (by_agent S W d not_after clock now run_id q name st)
      unfolding by_agent
      by_agent-Replies none = by_run-Replies _
      by_agent-Replies (some name) =
          if-holds (Replies Q R) _ _ _ (λ e. h.deletes_agent name e)
            (by_run-Replies (segment "/runs/" "" q.pathname))

      route-Replies : Replies Q R (route S W d not_after clock now run_id q st)
      unfolding route
      route-Replies =
          if-holds (Replies Q R) _ _ _ (λ e. h.documents (card S W d clock q) is_card)
            (if-holds (Replies Q R) _ _ _ (λ e. h.calls e)
              (if-holds (Replies Q R) _ _ _ (λ e. h.documents (health S W d clock q) is_health)
                (if-holds (Replies Q R) _ _ _ (λ e. h.documents (root S W d clock q) is_root)
                  (if-holds (Replies Q R) _ _ _ (λ e. h.documents (info S W d clock q) is_info)
                    (if-holds (Replies Q R) _ _ _ (λ e. h.lists_runs)
                      (if-holds (Replies Q R) _ _ _ (λ e. h.posts_run)
                        (if-holds (Replies Q R) _ _ _ (λ e. h.lists_agents)
                          (if-holds (Replies Q R) _ _ _ (λ e. h.puts_agent e)
                            (by_agent-Replies (segment "/agents/" "" q.pathname))))))))))

      with_headers-Replies :
          (r : Answer S W)
          → Replies Q R r
          → Replies Q R (with_headers S W d not_after clock now run_id q r)
      unfolding with_headers with_cors Replies
      with_headers-Replies (returned r, st') k = k
      with_headers-Replies (thrown e, st') k = k

      pub handle-Replies : Replies Q R (handle S W d not_after clock now run_id q st)
      unfolding handle
      handle-Replies =
          if-holds (Replies Q R) _ _ _ (λ e. h.preflights)
            (with_headers-Replies (route S W d not_after clock now run_id q st) route-Replies)

    pub reading-Replies :
        (read : W → Store → Dict Run → Answer S W) (w : W) (s : Store) (runs : Dict Run)
        → ((principal : Principal) (w' : W)
            → d.authenticate (bearer q) q.headers w ≡ (returned principal, w')
            → Replies Q R (read w' s runs))
        → ((e : AuthFailure) (w' : W)
            → d.authenticate (bearer q) q.headers w ≡ (thrown e, w')
            → Q (failure "unauthorized" none) (w', (s, runs)))
        → Replies Q R (reading S W d clock q read (w, (s, runs)))
    unfolding reading reads Replies
    reading-Replies read w s runs h k = after _ refl
      where
        after :
            (r : Outcome AuthFailure Principal × W)
            → d.authenticate (bearer q) q.headers w ≡ r
            → Replies Q R (reads S W d clock q read s runs r)
        after (returned principal, w') at = h principal w' at
        after (thrown e, w') at = k e w' at

    pub writing-Replies :
        (write : Principal → W → Store → Dict Run → Answer S W) (w : W) (s : Store)
        (runs : Dict Run)
        → ((principal : Principal) (w' : W)
            → d.authenticate (bearer q) q.headers w ≡ (returned principal, w')
            → Replies Q R (write principal w' s runs))
        → ((w' : W)
            → d.authenticate (bearer q) q.headers w ≡ (thrown unauthorized, w')
            → Q (failure "unauthorized" none) (w', (s, runs)))
        → ((e : String) (w' : W)
            → d.authenticate (bearer q) q.headers w ≡ (thrown (other e), w')
            → R (w', (s, runs)))
        → Replies Q R (writing S W d clock now run_id q write (w, (s, runs)))
    unfolding writing identified Replies
    writing-Replies write w s runs h k l = after _ refl
      where
        after :
            (r : Outcome AuthFailure Principal × W)
            → d.authenticate (bearer q) q.headers w ≡ r
            → Replies Q R (identified S W d clock now run_id q write s runs r)
        after (returned principal, w') at = h principal w' at
        after (thrown unauthorized, w') at = k w' at
        after (thrown (other e), w') at = l e w' at
