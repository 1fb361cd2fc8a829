-- ===== src/App/Answers.antt =====
-- What the runtime's handler may show and change (services/agent-runtime/app.ts): no token of a run's
-- caller, and runs and tallies only by the gate sequence.
use creance.Prelude.{
  ℕ, String, Bool, Option, none, some, List, [], ◌∷◌, map, ◌≡◌, refl, sym, ap, ◌⊎◌, inl, inr, All,
  if-both,
}
use creance.Prelude.Dict.{Dict}
use creance.Prelude.Outcome.{Outcome, returned, thrown, Action}
use creance.Ports.Json.{Json}
use creance.Ports.Fields.{member, optional_text}
use creance.Gate.{Principal, SpendStore}
use creance.Runs.{Run, AgentSpec}
use creance.Agents.Spec.{Validation, valid, invalid}
use creance.FrontDoor.{
  Request, GateOutcome, accepted, refused, PolicyDecision, State, authorize_and_create,
}
use creance.A2a.{A2aReply, rpc, bearer_required}
use creance.A2a.Laws.{IsGated, Handles, handle_a2a-Handles}
use creance.App.Http.{HttpRequest, bearer}
use creance.App.{
  Body, document, not_found, preflight, failure, answer, one_run, many_runs, Services, front,
  Answer, redacted_principal, redact, summary,
}
use creance.App.Reads.{
  reading, list_runs, shown_run, get_run, listed, list_agents, get_budget, get_usage,
}
use creance.App.Writes.{
  task_at, writing, created, bad_repo, run_request, run_of, post_run, has_other_owner, put_done,
  put_found, put_decided, put_valid, put_body, put_agent, delete_done, delete_found, delete_decided,
  delete_agent,
}
use creance.App.Handler.{from_a2a, handle}
use creance.App.Routes.{Replies, handle-Replies, reading-Replies, writing-Replies}

abbrev pub HasNoToken : Option Principal → Type 0
HasNoToken none = Unit
HasNoToken (some p) = p.token ≡ none

-- The runs that a body shows have no token.
abbrev pub IsRedacted : Body → Type 0
IsRedacted (one_run run) = HasNoToken run.principal
IsRedacted (many_runs runs) = All (λ r. HasNoToken r.principal) runs
IsRedacted _ = Unit

HasNoToken-redacted : (p : Option Principal) → HasNoToken (redacted_principal p)
HasNoToken-redacted none = tt
HasNoToken-redacted (some p) = refl

All-summary : (runs : List Run) → All (λ r. HasNoToken r.principal) (map summary runs)
unfolding summary
All-summary [] = tt
All-summary (run ∷ runs) = (HasNoToken-redacted run.principal, All-summary runs)

module _ (S : SpendStore) (W : Type 0) (d : Services S W) (not_after : String → String → Bool)
    (clock now run_id : String) (q : HttpRequest) where
  open S use {Store}

  -- The runs and the tallies are as they were, or as the gate sequence leaves them for a request with
  -- this credential and these headers.
  abbrev pub IsGoverned : State S W → State S W → Type 0
  IsGoverned st st' =
      (st'.1 ≡ st.1)
      ⊎ ((r : Request) × (r.credential ≡ bearer q)
          × (r.headers ≡ q.headers)
          × (st' ≡ (authorize_and_create S W (front S W d) clock now run_id r st).1))

  abbrev pub Governs : State S W → Answer S W → Type 0
  Governs st r =
      Replies S W d not_after clock now run_id q (λ body st'. IsRedacted body × IsGoverned st st')
        (λ st'. IsGoverned st st') r

  module _ (w₀ w : W) (s : Store) (runs : Dict Run) where
    abbrev Before : State S W
    Before = (w₀, (s, runs))

    shown_run-Governs : (run : Option Run) → Governs Before (shown_run S W d clock q run w s runs)
    unfolding shown_run redact Replies
    shown_run-Governs none = (tt, inl refl)
    shown_run-Governs (some run) = (HasNoToken-redacted run.principal, inl refl)

    list_runs-Governs : Governs Before (list_runs S W d clock q not_after w s runs)
    unfolding list_runs Replies
    list_runs-Governs = (All-summary _, inl refl)

    get_run-Governs : (id : String) → Governs Before (get_run S W d clock q id w s runs)
    unfolding get_run
    get_run-Governs id = shown_run-Governs _

    get_budget-Governs :
        (tenant : String) → Governs Before (get_budget S W d clock q tenant w s runs)
    unfolding get_budget Replies
    get_budget-Governs tenant = (tt, inl refl)

    get_usage-Governs : (tenant : String) → Governs Before (get_usage S W d clock q tenant w s runs)
    unfolding get_usage Replies
    get_usage-Governs tenant = (tt, inl refl)

  module _ (w₀ : W) (s : Store) (runs : Dict Run) where
    abbrev Start : State S W
    Start = (w₀, (s, runs))

    listed-Governs :
        (r : Outcome String (List AgentSpec) × W) → Governs Start (listed S W d clock q s runs r)
    unfolding listed Replies
    listed-Governs (thrown e, w) = inl refl
    listed-Governs (returned agents, w) = (tt, inl refl)

    list_agents-Governs : (w : W) → Governs Start (list_agents S W d clock q w s runs)
    unfolding list_agents
    list_agents-Governs w = listed-Governs (d.registry.list w)

    put_done-Governs :
        (spec : AgentSpec) (existing : Option AgentSpec) (r : Outcome String Unit × W)
        → Governs Start (put_done S W d clock now run_id q spec existing s runs r)
    unfolding put_done Replies
    put_done-Governs spec existing (thrown e, w) = inl refl
    put_done-Governs spec existing (returned _, w) = (tt, inl refl)

    throws-Governs : (e : String) (w : W) → Governs Start (thrown e, (w, (s, runs)))
    unfolding Replies
    throws-Governs e w = inl refl

    fails-Governs :
        (status : ℕ) (error : String) (reason : Option String) (w : W)
        → Governs Start (answer S W status (failure error reason) (w, (s, runs)))
    unfolding Replies
    fails-Governs status error reason w = (tt, inl refl)

    module _ (put : AgentSpec → Action String W Unit) (p : Principal) where
      put_found-Governs :
          (spec : AgentSpec) (r : Outcome String (Option AgentSpec) × W)
          → Governs Start (put_found S W d clock now run_id q put p spec s runs r)
      unfolding put_found
      put_found-Governs spec (thrown e, w) = throws-Governs e w
      put_found-Governs spec (returned existing, w) =
          if-both (Governs Start) (has_other_owner existing p) _ _ (fails-Governs _ _ _ w)
            (put_done-Governs _ existing _)

      put_decided-Governs :
          (spec : AgentSpec) (r : Outcome String PolicyDecision × W)
          → Governs Start (put_decided S W d clock now run_id q put p spec s runs r)
      unfolding put_decided
      put_decided-Governs spec (thrown e, w) = throws-Governs e w
      put_decided-Governs spec (returned decision, w) =
          if-both (Governs Start) decision.allow _ _
            (put_found-Governs spec (d.registry.get spec.name w))
            (fails-Governs 403 "forbidden" decision.reason w)

      put_valid-Governs :
          (v : Validation) (w : W)
          → Governs Start (put_valid S W d clock now run_id q put p v w s runs)
      unfolding put_valid
      put_valid-Governs (invalid error) w = fails-Governs _ _ _ w
      put_valid-Governs (valid spec) w = put_decided-Governs spec _

      put_body-Governs :
          (body : Option Json) (w : W)
          → Governs Start (put_body S W d clock now run_id q put p body w s runs)
      unfolding put_body
      put_body-Governs none w = fails-Governs _ _ _ w
      put_body-Governs (some body) w = put_valid-Governs _ w

    put_agent-Governs :
        (put : Option (AgentSpec → Action String W Unit)) (p : Principal) (w : W)
        → Governs Start (put_agent S W d clock now run_id q put p w s runs)
    unfolding put_agent
    put_agent-Governs none p w = fails-Governs _ _ _ w
    put_agent-Governs (some put) p w = put_body-Governs put p q.body w

    module _ (delete : String → Action String W Unit) (p : Principal) (name : String) where
      delete_done-Governs :
          (r : Outcome String Unit × W)
          → Governs Start (delete_done S W d clock now run_id q delete p name s runs r)
      unfolding delete_done Replies
      delete_done-Governs (thrown e, w) = inl refl
      delete_done-Governs (returned _, w) = (tt, inl refl)

      delete_found-Governs :
          (r : Outcome String (Option AgentSpec) × W)
          → Governs Start (delete_found S W d clock now run_id q delete p name s runs r)
      unfolding delete_found
      delete_found-Governs (thrown e, w) = throws-Governs e w
      delete_found-Governs (returned none, w) = fails-Governs _ _ _ w
      delete_found-Governs (returned (some existing), w) =
          if-both (Governs Start) (has_other_owner (some existing) p) _ _ (fails-Governs _ _ _ w)
            (delete_done-Governs _)

      delete_decided-Governs :
          (r : Outcome String PolicyDecision × W)
          → Governs Start (delete_decided S W d clock now run_id q delete p name s runs r)
      unfolding delete_decided
      delete_decided-Governs (thrown e, w) = throws-Governs e w
      delete_decided-Governs (returned decision, w) =
          if-both (Governs Start) decision.allow _ _ (delete_found-Governs (d.registry.get name w))
            (fails-Governs 403 "forbidden" decision.reason w)

    delete_agent-Governs :
        (delete : Option (String → Action String W Unit)) (name : String) (p : Principal) (w : W)
        → Governs Start (delete_agent S W d clock now run_id q delete name p w s runs)
    unfolding delete_agent
    delete_agent-Governs none name p w = fails-Governs _ _ _ w
    delete_agent-Governs (some delete) name p w = delete_decided-Governs delete p name _

  module _ (st : State S W) where
    created-Governs :
        (r : Request) (agent repo : Option String) (out : Outcome String GateOutcome × State S W)
        → (r.credential ≡ bearer q)
        → (r.headers ≡ q.headers)
        → authorize_and_create S W (front S W d) clock now run_id r st ≡ out
        → Governs st (created S W d clock now run_id q agent repo out)
    unfolding created Replies
    created-Governs r agent repo (thrown e, st') c h at = inr (r, c, h, ap (λ x. x.1) (sym at))
    created-Governs r agent repo (returned (accepted run), st') c h at =
        (tt, inr (r, c, h, ap (λ x. x.1) (sym at)))
    created-Governs r agent repo (returned (refused status why), st') c h at =
        (tt, inr (r, c, h, ap (λ x. x.1) (sym at)))

    run_of-Governs :
        (task agent repo mode : Option String)
        → Governs st (run_of S W d clock now run_id q task agent repo mode st)
    unfolding run_of
    run_of-Governs none agent repo mode = fails-Governs st.0 st.1.0 st.1.1 _ _ _ st.0
    run_of-Governs (some task) agent repo mode =
        if-both (Governs st) (bad_repo repo) _ _ (fails-Governs st.0 st.1.0 st.1.1 _ _ _ st.0) (
          created-Governs (run_request S W d clock now run_id q agent task repo mode) agent repo _
            refl refl refl)

    post_run-Governs : (body : Option Json) → Governs st (post_run S W d clock now run_id q body st)
    unfolding post_run
    post_run-Governs none = fails-Governs st.0 st.1.0 st.1.1 _ _ _ st.0
    post_run-Governs (some body) =
        run_of-Governs (task_at (member "task" body)) (optional_text (member "agent" body))
          (optional_text (member "repo" body)) (optional_text (member "dispatch" body))

    IsGoverned-of_call :
        (st' : State S W)
        → IsGated S W (front S W d) clock now run_id d.a2a_agent (bearer q) q.headers st st'
        → IsGoverned st st'
    IsGoverned-of_call st' (inl same) = inl (ap (λ x. x.1) same)
    IsGoverned-of_call st' (inr (agent, task, some_text, at)) = inr (_, refl, refl, at)

    from_a2a-Governs :
        (r : Outcome String A2aReply × State S W)
        → Handles S W (front S W d) clock now run_id d.a2a_agent (bearer q) q.headers st r
        → Governs st (from_a2a S W d not_after clock now run_id q r)
    unfolding from_a2a Replies
    from_a2a-Governs (thrown e, st') h = IsGoverned-of_call st' h
    from_a2a-Governs (returned (rpc r), st') h = (tt, IsGoverned-of_call st' h.1)
    from_a2a-Governs (returned bearer_required, st') h = (tt, IsGoverned-of_call st' h.1)

  reads-Governs :
      (read : W → Store → Dict Run → Answer S W) (w : W) (s : Store) (runs : Dict Run)
      → ((w' : W) → Governs (w, (s, runs)) (read w' s runs))
      → Governs (w, (s, runs)) (reading S W d clock q read (w, (s, runs)))
  reads-Governs read w s runs h =
      reading-Replies S W d not_after clock now run_id q _ _ read w s runs (λ p w' at. h w')
        (λ e w' at. (tt, inl refl))

  writes-Governs :
      (write : Principal → W → Store → Dict Run → Answer S W) (w : W) (s : Store) (runs : Dict Run)
      → ((p : Principal) (w' : W) → Governs (w, (s, runs)) (write p w' s runs))
      → Governs (w, (s, runs)) (writing S W d clock now run_id q write (w, (s, runs)))
  writes-Governs write w s runs h =
      writing-Replies S W d not_after clock now run_id q _ _ write w s runs (λ p w' at. h p w')
        (λ w' at. (tt, inl refl)) (λ e w' at. inl refl)

  document-Governs : (j : Json) (st : State S W) → Governs st (answer S W 200 (document j) st)
  unfolding Replies
  document-Governs j st = (tt, inl refl)

  miss-Governs : (st : State S W) → Governs st (answer S W 404 not_found st)
  unfolding Replies
  miss-Governs st = (tt, inl refl)

  preflight-Governs : (st : State S W) → Governs st (returned preflight, st)
  unfolding Replies preflight
  preflight-Governs st = (tt, inl refl)

  -- Whatever the request, its reply shows no run with its caller's token; and the runs and the tallies
  -- are then as they were, or as the gate sequence leaves them for a request with the same credential
  -- and headers, also where the handler throws.
  pub handle-Governs : (st : State S W) → Governs st (handle S W d not_after clock now run_id q st)
  handle-Governs (w, (s, runs)) =
      handle-Replies S W d not_after clock now run_id q _ _ (w, (s, runs))
        (record {
          preflights = preflight-Governs (w, (s, runs));
          documents = λ j known. document-Governs j (w, (s, runs));
          misses = miss-Governs (w, (s, runs));
          calls = λ e.
              from_a2a-Governs (w, (s, runs)) _
                (handle_a2a-Handles S W (front S W d) clock now run_id d.a2a_agent (bearer q)
                  q.headers q.body (w, (s, runs)));
          lists_runs = reads-Governs _ w s runs (λ w'. list_runs-Governs w w' s runs);
          gets_run = λ id. reads-Governs _ w s runs (λ w'. get_run-Governs w w' s runs id);
          lists_agents = reads-Governs _ w s runs (λ w'. list_agents-Governs w s runs w');
          gets_budget =
              λ tenant. reads-Governs _ w s runs (λ w'. get_budget-Governs w w' s runs tenant);
          gets_usage =
              λ tenant. reads-Governs _ w s runs (λ w'. get_usage-Governs w w' s runs tenant);
          posts_run = post_run-Governs (w, (s, runs)) q.body;
          puts_agent = λ at_route.
              writes-Governs _ w s runs (λ p w'. put_agent-Governs w s runs d.registry.put p w');
          deletes_agent = λ name at_route.
              writes-Governs _ w s runs
                (λ p w'. delete_agent-Governs w s runs d.registry.delete name p w');
        })
