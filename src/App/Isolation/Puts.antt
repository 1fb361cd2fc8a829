-- ===== src/App/Isolation/Puts.antt =====
-- Who may register an agent (services/agent-runtime/app.ts).
use creance.Prelude.{
  String, Bool, true, false, [], ◌∷◌, Option, none, some, ◌≡◌, refl, ap, ◌∙◌, subst, inl, inr,
  str_eq, eq_iff, Bool-cases,
}
use creance.Prelude.Dict.{Dict}
use creance.Prelude.Outcome.{Outcome, returned, thrown, Action, Ends}
use creance.Ports.Json.{Json}
use creance.Gate.{Principal, SpendStore}
use creance.Runs.{Run, AgentSpec}
use creance.Agents.Spec.{word_of, Validation, valid, invalid, validate_agent_spec}
use creance.FrontDoor.{PolicyDecision}
use creance.App.Http.{HttpRequest, bearer, is_route}
use creance.App.{Services}
use creance.App.Writes.{
  has_other_owner, stamped, put_done, put_found, put_decided, put_valid, put_body, put_agent,
}
use creance.App.Routes.{Replies}
use creance.App.Isolation.Held.{
  KeepsAgents, has_other_owner-Owns, registers, MayChange, IsHeld, Holds, identified_keeps,
  fails-Holds, throws-Holds,
}

module _ (S : SpendStore) (W : Type 0) (d : Services S W) (not_after : String → String → Bool)
    (clock now run_id : String) (q : HttpRequest) (entry : String → W → Option AgentSpec)
    (k : KeepsAgents S W d entry) (n : String) (w : W) where
  open S use {Store}

  module _ (s : Store) (runs : Dict Run) where
    put_done-Holds :
        (spec : AgentSpec) (existing : Option AgentSpec) (r : Outcome String Unit × W)
        → IsHeld S W d not_after clock now run_id q entry k n w r.1
        → Holds S W d not_after clock now run_id q entry k n w
            (put_done S W d clock now run_id q spec existing s runs r)
    unfolding put_done Replies
    put_done-Holds spec existing (returned _, w') h = h
    put_done-Holds spec existing (thrown e, w') h = h

    module _ (put : AgentSpec → Action String W Unit) (is_put : d.registry.put ≡ some put)
        (p : Principal) (at_route : is_route "POST" "/agents" q ≡ true) where
      put_changes :
          (spec : AgentSpec) (existing : Option AgentSpec) (w₂ w₃ : W)
          → entry n w₃ ≡ entry n w
          → entry n w₂ ≡ entry n w
          → existing ≡ entry spec.name w₂
          → has_other_owner existing p ≡ false
          → (spec.name ≡ n
              → has_other_owner (entry n w) p ≡ false
              → MayChange S W d not_after clock now run_id q entry k n w)
          → IsHeld S W d not_after clock now run_id q entry k n w
              (put (stamped S W d clock now run_id q p spec) w₃).1
      put_changes spec existing w₂ w₃ keep keep₂ is_entry own permit =
          elim (Bool-cases (str_eq spec.name n)) [
            | inl same ↦
                let named : spec.name ≡ n = (eq_iff spec.name n).0 same in
                let here : existing ≡ entry n w =
                  is_entry ∙ ap (λ name. entry name w₂) named ∙ keep₂ in
                inr (permit named (subst (λ a. has_other_owner a p ≡ false) here own))
            | inr differs ↦ inl (k.is_registry.put_entry put is_put _ w₃ n differs ∙ keep)
          ]

      put_found-Holds :
          (spec : AgentSpec) (w₂ : W) (r : Outcome String (Option AgentSpec) × W)
          → entry n w₂ ≡ entry n w
          → Ends
              (λ found w₃. (found ≡ entry spec.name w₂) × ((m : String) → entry m w₃ ≡ entry m w₂))
              (λ e w₃. (m : String) → entry m w₃ ≡ entry m w₂)
              r
          → (spec.name ≡ n
              → has_other_owner (entry n w) p ≡ false
              → MayChange S W d not_after clock now run_id q entry k n w)
          → Holds S W d not_after clock now run_id q entry k n w
              (put_found S W d clock now run_id q put p spec s runs r)
      unfolding put_found
      put_found-Holds spec w₂ (thrown e, w₃) keep law permit =
          throws-Holds S W d not_after clock now run_id q entry k n w s runs e w₃ (law n ∙ keep)
      put_found-Holds spec w₂ (returned existing, w₃) keep law permit =
          elim (Bool-cases (has_other_owner existing p)) [
            | inl owned ↦ rw owned (
                (fails-Holds S W d not_after clock now run_id q entry k n w s runs) _ _ _ w₃
                  (law.1 n ∙ keep))
            | inr own ↦ rw own (
                put_done-Holds _ existing _
                  (put_changes spec existing w₂ w₃ (law.1 n ∙ keep) keep law.0 own permit))
          ]

      put_decided-Holds :
          (w₁ : W)
          → d.authenticate (bearer q) q.headers w ≡ (returned p, w₁)
          → (spec : AgentSpec) (kind : String) → (r : Outcome String PolicyDecision × W)
          → d.authorize p "agent:register" (some spec.name) (some (("kind", kind) ∷ [])) w₁ ≡ r
          → entry n r.1 ≡ entry n w
          → Holds S W d not_after clock now run_id q entry k n w
              (put_decided S W d clock now run_id q put p spec s runs r)
      unfolding put_decided
      put_decided-Holds w₁ known spec kind (thrown e, w₂) ruled keep =
          throws-Holds S W d not_after clock now run_id q entry k n w s runs e w₂ keep
      put_decided-Holds w₁ known spec kind (returned decision, w₂) ruled keep =
          elim (Bool-cases decision.allow) [
            | inl allowed ↦ rw allowed (
                put_found-Holds spec w₂ _ keep (k.is_registry.get_entry spec.name w₂) (λ named own.
                  record {
                    principal = p;
                    w₁ = w₁;
                    identified = known;
                    action = "agent:register";
                    attributes = some (("kind", kind) ∷ []);
                    change = registers kind at_route;
                    decision = decision;
                    w₂ = w₂;
                    ruled = rw (← named) ruled;
                    allowed = allowed;
                    owned = has_other_owner-Owns (entry n w) p own;
                  }))
            | inr denied ↦
                rw denied (
                  (fails-Holds S W d not_after clock now run_id q entry k n w s runs) _ _ _ w₂ keep)
          ]

      put_valid-Holds :
          (v : Validation) (w₁ : W)
          → d.authenticate (bearer q) q.headers w ≡ (returned p, w₁)
          → Holds S W d not_after clock now run_id q entry k n w
              (put_valid S W d clock now run_id q put p v w₁ s runs)
      unfolding put_valid
      put_valid-Holds (invalid error) w₁ known =
          fails-Holds S W d not_after clock now run_id q entry k n w s runs _ _ _ w₁
            ((identified_keeps S W d not_after clock now run_id q entry k n w) _ w₁ known)
      put_valid-Holds (valid spec) w₁ known =
          put_decided-Holds w₁ known spec (word_of spec.kind) _ refl (
            k.authorizes p _ _ _ w₁ n
            ∙ (identified_keeps S W d not_after clock now run_id q entry k n w) _ w₁ known)

      put_body-Holds :
          (body : Option Json) (w₁ : W)
          → d.authenticate (bearer q) q.headers w ≡ (returned p, w₁)
          → Holds S W d not_after clock now run_id q entry k n w
              (put_body S W d clock now run_id q put p body w₁ s runs)
      unfolding put_body
      put_body-Holds none w₁ known =
          fails-Holds S W d not_after clock now run_id q entry k n w s runs _ _ _ w₁
            ((identified_keeps S W d not_after clock now run_id q entry k n w) _ w₁ known)
      put_body-Holds (some body) w₁ known = put_valid-Holds (validate_agent_spec body) w₁ known

    pub put_agent-Holds :
        (put : Option (AgentSpec → Action String W Unit))
        → d.registry.put ≡ put
        → is_route "POST" "/agents" q ≡ true
        → (p : Principal) (w₁ : W) → d.authenticate (bearer q) q.headers w ≡ (returned p, w₁)
        → Holds S W d not_after clock now run_id q entry k n w
            (put_agent S W d clock now run_id q put p w₁ s runs)
    unfolding put_agent
    put_agent-Holds none is_put at_route p w₁ known =
        fails-Holds S W d not_after clock now run_id q entry k n w s runs _ _ _ w₁
          ((identified_keeps S W d not_after clock now run_id q entry k n w) _ w₁ known)
    put_agent-Holds (some put) is_put at_route p w₁ known =
        put_body-Holds put is_put p at_route q.body w₁ known
