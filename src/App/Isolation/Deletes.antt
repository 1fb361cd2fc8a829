-- ===== src/App/Isolation/Deletes.antt =====
-- Who may delete an agent (services/agent-runtime/app.ts).
use creance.Prelude.{
  String, Bool, true, false, Option, none, some, ◌≡◌, refl, ap, ◌∙◌, subst, inl, inr, str_eq,
  eq_iff, Bool-cases,
}
use creance.Prelude.Dict.{Dict}
use creance.Prelude.Outcome.{Outcome, returned, thrown, Action, Ends}
use creance.Gate.{Principal, SpendStore}
use creance.Runs.{Run, AgentSpec}
use creance.FrontDoor.{PolicyDecision}
use creance.App.Http.{HttpRequest, bearer}
use creance.App.{Services}
use creance.App.Writes.{has_other_owner, delete_done, delete_found, delete_decided, delete_agent}
use creance.App.Routes.{Replies}
use creance.App.Isolation.Held.{
  KeepsAgents, has_other_owner-Owns, deletes, MayChange, IsHeld, Holds, identified_keeps,
  fails-Holds, throws-Holds,
}

module _ (S : SpendStore) (W : Type 0) (d : Services S W) (not_after : String → String → Bool)
    (clock now run_id : String) (q : HttpRequest) (entry : String → W → Option AgentSpec)
    (k : KeepsAgents S W d entry) (n : String) (w : W) where
  open S use {Store}

  module _ (s : Store) (runs : Dict Run) where
    module _ (delete : String → Action String W Unit) (is_delete : d.registry.delete ≡ some delete)
        (p : Principal) (name : String) (at_route : str_eq q.method "DELETE" ≡ true) where
      delete_done-Holds :
          (r : Outcome String Unit × W)
          → IsHeld S W d not_after clock now run_id q entry k n w r.1
          → Holds S W d not_after clock now run_id q entry k n w
              (delete_done S W d clock now run_id q delete p name s runs r)
      unfolding delete_done Replies
      delete_done-Holds (returned _, w') h = h
      delete_done-Holds (thrown e, w') h = h

      delete_changes :
          (existing : Option AgentSpec) (w₂ w₃ : W)
          → entry n w₃ ≡ entry n w
          → entry n w₂ ≡ entry n w
          → existing ≡ entry name w₂
          → has_other_owner existing p ≡ false
          → (name ≡ n
              → has_other_owner (entry n w) p ≡ false
              → MayChange S W d not_after clock now run_id q entry k n w)
          → IsHeld S W d not_after clock now run_id q entry k n w (delete name w₃).1
      delete_changes existing w₂ w₃ keep keep₂ is_entry own permit =
          elim (Bool-cases (str_eq name n)) [
            | inl same ↦
                let named : name ≡ n = (eq_iff name n).0 same in
                let here : existing ≡ entry n w = is_entry ∙ ap (λ m. entry m w₂) named ∙ keep₂ in
                inr (permit named (subst (λ a. has_other_owner a p ≡ false) here own))
            | inr differs ↦
                inl (k.is_registry.delete_entry delete is_delete name w₃ n differs ∙ keep)
          ]

      delete_found-Holds :
          (w₂ : W) (r : Outcome String (Option AgentSpec) × W)
          → entry n w₂ ≡ entry n w
          → Ends
              (λ found w₃. (found ≡ entry name w₂) × ((m : String) → entry m w₃ ≡ entry m w₂))
              (λ e w₃. (m : String) → entry m w₃ ≡ entry m w₂)
              r
          → (name ≡ n
              → has_other_owner (entry n w) p ≡ false
              → MayChange S W d not_after clock now run_id q entry k n w)
          → Holds S W d not_after clock now run_id q entry k n w
              (delete_found S W d clock now run_id q delete p name s runs r)
      unfolding delete_found
      delete_found-Holds w₂ (thrown e, w₃) keep law permit =
          throws-Holds S W d not_after clock now run_id q entry k n w s runs e w₃ (law n ∙ keep)
      delete_found-Holds w₂ (returned none, w₃) keep law permit =
          fails-Holds S W d not_after clock now run_id q entry k n w s runs _ _ _ w₃
            (law.1 n ∙ keep)
      delete_found-Holds w₂ (returned (some existing), w₃) keep law permit =
          elim (Bool-cases (has_other_owner (some existing) p)) [
            | inl owned ↦ rw owned (
                (fails-Holds S W d not_after clock now run_id q entry k n w s runs) _ _ _ w₃
                  (law.1 n ∙ keep))
            | inr own ↦ rw own (
                delete_done-Holds _
                  (delete_changes (some existing) w₂ w₃ (law.1 n ∙ keep) keep law.0 own permit))
          ]

      delete_decided-Holds :
          (w₁ : W)
          → d.authenticate (bearer q) q.headers w ≡ (returned p, w₁)
          → (r : Outcome String PolicyDecision × W)
          → d.authorize p "agent:delete" (some name) none w₁ ≡ r
          → entry n r.1 ≡ entry n w
          → Holds S W d not_after clock now run_id q entry k n w
              (delete_decided S W d clock now run_id q delete p name s runs r)
      unfolding delete_decided
      delete_decided-Holds w₁ known (thrown e, w₂) ruled keep =
          throws-Holds S W d not_after clock now run_id q entry k n w s runs e w₂ keep
      delete_decided-Holds w₁ known (returned decision, w₂) ruled keep =
          elim (Bool-cases decision.allow) [
            | inl allowed ↦ rw allowed (
                delete_found-Holds w₂ _ keep (k.is_registry.get_entry name w₂) (λ named own.
                  record {
                    principal = p;
                    w₁ = w₁;
                    identified = known;
                    action = "agent:delete";
                    attributes = none;
                    change = deletes at_route;
                    decision = decision;
                    w₂ = w₂;
                    ruled = rw (← named) ruled;
                    allowed = allowed;
                    owned = has_other_owner-Owns (entry n w) p own;
                  }))
            | inr denied ↦
                rw denied (
                  (fails-Holds S W d not_after clock now run_id q entry k n w s runs) _ _ _ w₂ keep)
          ]

    pub delete_agent-Holds :
        (delete : Option (String → Action String W Unit))
        → d.registry.delete ≡ delete
        → str_eq q.method "DELETE" ≡ true
        → (name : String) (p : Principal) (w₁ : W)
        → d.authenticate (bearer q) q.headers w ≡ (returned p, w₁)
        → Holds S W d not_after clock now run_id q entry k n w
            (delete_agent S W d clock now run_id q delete name p w₁ s runs)
    unfolding delete_agent
    delete_agent-Holds none is_delete at_route name p w₁ known =
        fails-Holds S W d not_after clock now run_id q entry k n w s runs _ _ _ w₁
          ((identified_keeps S W d not_after clock now run_id q entry k n w) _ w₁ known)
    delete_agent-Holds (some delete) is_delete at_route name p w₁ known =
        delete_decided-Holds delete is_delete p name at_route w₁ known _ refl (
          k.authorizes p _ _ _ w₁ n
          ∙ (identified_keeps S W d not_after clock now run_id q entry k n w) _ w₁ known)
