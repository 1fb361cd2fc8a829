-- ===== src/App/Identity.antt =====
-- What a caller without an identity gets of the runtime's handler (services/agent-runtime/app.ts).
use creance.Prelude.{
  ℕ, String, Bool, false, Option, none, some, ◌≡◌, refl, sym, ap, ◌∙◌, ◌⊎◌, inl, inr, if-both,
}
use creance.Prelude.Dict.{Dict}
use creance.Prelude.Outcome.{Outcome, returned, thrown}
use creance.Ports.Json.{Json}
use creance.Ports.Fields.{member, optional_text}
use creance.Gate.{Principal, SpendStore}
use creance.Runs.{Run}
use creance.FrontDoor.{
  AuthFailure, Request, GateOutcome, accepted, refused, State, authorize_and_create,
}
use creance.FrontDoor.World.{authorize_and_create_world}
use creance.FrontDoor.Laws.{Answers, IsAdmitted, authorize_and_create-IsAdmitted}
use creance.App.Http.{HttpRequest, bearer, is_route}
use creance.App.{
  Body, empty, document, not_found, failure, Services, front, Answer, answer, preflight,
}
use creance.App.Reads.{reading}
use creance.App.Writes.{task_at, created, bad_repo, run_request, run_of, post_run, writing}
use creance.App.Handler.{handle}
use creance.App.Routes.{Replies, IsDocument, handle-Replies, reading-Replies, writing-Replies}

module _ (S : SpendStore) (W : Type 0) (d : Services S W) (not_after : String → String → Bool)
    (clock now run_id : String) (q : HttpRequest) (e : AuthFailure) (w w₁ : W) where
  open S use {Store}

  -- Nothing that is stored: an error, or a document of the deployment.
  abbrev pub IsPublic : Body → Type 0
  IsPublic empty = Unit
  IsPublic not_found = Unit
  IsPublic (document j) = IsDocument S W d not_after clock now run_id q j
  IsPublic (failure error reason) = Unit
  IsPublic _ = ⊥

  module _ (s : Store) (runs : Dict Run) where
    -- The runs and the tallies are as they were, and the world is, or is as authenticating leaves it.
    abbrev pub IsUnchanged : State S W → Type 0
    IsUnchanged st = ((st.0 ≡ w) ⊎ (st.0 ≡ w₁)) × (st.1 ≡ (s, runs))

    abbrev pub ShowsNothing : Answer S W → Type 0
    ShowsNothing r =
        Replies S W d not_after clock now run_id q (λ body st. IsPublic body × IsUnchanged st)
          IsUnchanged r

    fails-ShowsNothing :
        (status : ℕ) (error : String) (reason : Option String)
        → ShowsNothing (answer S W status (failure error reason) (w, (s, runs)))
    unfolding Replies
    fails-ShowsNothing status error reason = (tt, (inl refl, refl))

    created-ShowsNothing :
        (r : Request) (agent repo : Option String) (out : Outcome String GateOutcome × State S W)
        → (d.authenticate r.credential r.headers w ≡ (thrown e, w₁))
        → Answers S W
            (front S W d)
            clock
            now
            run_id
            r
            (IsAdmitted S W (front S W d) clock now run_id r w s runs)
            s
            runs
            out
        → ((out.1.0 ≡ w) ⊎ (out.1.0 ≡ w₁))
        → ShowsNothing (created S W d clock now run_id q agent repo out)
    unfolding created Replies
    created-ShowsNothing r agent repo (thrown why, (w', (s', runs'))) none_known h at =
        (at, rw (h.0, h.1) refl)
    created-ShowsNothing r agent repo (returned (refused status why), (w', (s', runs'))) none_known
          h at =
        (tt, (at, rw (h.0, h.1) refl))
    created-ShowsNothing r agent repo (returned (accepted run), st) none_known h at =
        let known = h.identified in absurd cc

    run_of-ShowsNothing :
        (task agent repo mode : Option String)
        → (d.authenticate (bearer q) q.headers w ≡ (thrown e, w₁))
        → ShowsNothing (run_of S W d clock now run_id q task agent repo mode (w, (s, runs)))
    unfolding run_of
    run_of-ShowsNothing none agent repo mode none_known = fails-ShowsNothing _ _ _
    run_of-ShowsNothing (some task) agent repo mode none_known =
        let r = run_request S W d clock now run_id q agent task repo mode in
        if-both ShowsNothing (bad_repo repo) _ _
          (fails-ShowsNothing 400 "invalid 'repo' (expected owner/name)" none)
          (created-ShowsNothing r agent repo
            (authorize_and_create S W (front S W d) clock now run_id r (w, (s, runs))) none_known
            (authorize_and_create-IsAdmitted S W (front S W d) clock now run_id r w s runs)
            (authorize_and_create_world S W (front S W d) clock now run_id r e w w₁ s runs
              none_known))

    post_run-ShowsNothing :
        (body : Option Json)
        → (d.authenticate (bearer q) q.headers w ≡ (thrown e, w₁))
        → ShowsNothing (post_run S W d clock now run_id q body (w, (s, runs)))
    unfolding post_run
    post_run-ShowsNothing none none_known = fails-ShowsNothing _ _ _
    post_run-ShowsNothing (some body) none_known =
        run_of-ShowsNothing (task_at (member "task" body)) (optional_text (member "agent" body))
          (optional_text (member "repo" body)) (optional_text (member "dispatch" body)) none_known

    reads-ShowsNothing :
        (read : W → Store → Dict Run → Answer S W)
        → (d.authenticate (bearer q) q.headers w ≡ (thrown e, w₁))
        → ShowsNothing (reading S W d clock q read (w, (s, runs)))
    reads-ShowsNothing read none_known =
        reading-Replies S W d not_after clock now run_id q _ _ read w s runs (λ p w' at. absurd cc)
          (λ e' w' at. (tt, (inr (ap (λ x. x.1) (sym at ∙ none_known)), refl)))

    writes-ShowsNothing :
        (write : Principal → W → Store → Dict Run → Answer S W)
        → (d.authenticate (bearer q) q.headers w ≡ (thrown e, w₁))
        → ShowsNothing (writing S W d clock now run_id q write (w, (s, runs)))
    writes-ShowsNothing write none_known =
        writing-Replies S W d not_after clock now run_id q _ _ write w s runs (λ p w' at. absurd cc)
          (λ w' at. (tt, (inr (ap (λ x. x.1) (sym at ∙ none_known)), refl)))
          (λ e' w' at. (inr (ap (λ x. x.1) (sym at ∙ none_known)), refl))

    document-ShowsNothing :
        (j : Json)
        → IsDocument S W d not_after clock now run_id q j
        → ShowsNothing (answer S W 200 (document j) (w, (s, runs)))
    unfolding Replies
    document-ShowsNothing j known = (known, (inl refl, refl))

    miss-ShowsNothing : ShowsNothing (answer S W 404 not_found (w, (s, runs)))
    unfolding Replies
    miss-ShowsNothing = (tt, (inl refl, refl))

    preflight-ShowsNothing : ShowsNothing (returned preflight, (w, (s, runs)))
    unfolding Replies preflight
    preflight-ShowsNothing = (tt, (inl refl, refl))

    -- Where the caller of another route than `POST /a2a` does not authenticate, the reply is an error or
    -- a document of the deployment: its agent card, its health, its name or its wiring. No run and no
    -- tally has changed, and the world, with its agents, is as it was or as authenticating leaves it, also
    -- where the handler throws.
    pub handle-ShowsNothing :
        (d.authenticate (bearer q) q.headers w ≡ (thrown e, w₁))
        → (is_route "POST" "/a2a" q ≡ false)
        → ShowsNothing (handle S W d not_after clock now run_id q (w, (s, runs)))
    handle-ShowsNothing none_known no_call =
        handle-Replies S W d not_after clock now run_id q _ _ (w, (s, runs))
          (record {
            preflights = preflight-ShowsNothing;
            documents = document-ShowsNothing;
            misses = miss-ShowsNothing;
            calls = λ call. absurd cc;
            lists_runs = reads-ShowsNothing _ none_known;
            gets_run = λ id. reads-ShowsNothing _ none_known;
            lists_agents = reads-ShowsNothing _ none_known;
            gets_budget = λ tenant. reads-ShowsNothing _ none_known;
            gets_usage = λ tenant. reads-ShowsNothing _ none_known;
            posts_run = post_run-ShowsNothing q.body none_known;
            puts_agent = λ at_route. writes-ShowsNothing _ none_known;
            deletes_agent = λ name at_route. writes-ShowsNothing _ none_known;
          })
