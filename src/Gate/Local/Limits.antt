-- ===== src/Gate/Local/Limits.antt =====
-- When `reserve` of `LocalGate` admits an amount, and that no history of calls breaks a cap.
use creance.Prelude.{
  String, Bool, true, false, Option, none, some, ◌≡◌, refl, ◌≢◌, ◌⊎◌, inl, inr, ◌&&◌, not, str_eq,
  eq_iff, Bool-cases, arith, ap, List, [], ◌∷◌, sym, ◌∙◌, All,
}
use creance.Prelude.Int.{ℤ, pos, ◌+ℤ◌, ◌≤ℤ◌, int_laws}
use creance.Prelude.Text.{Lacks}
use creance.Gate.{SpendStore, BudgetScopes, current_period}
use creance.Gate.Caps.{Amount, finite, exceeds}
use creance.Gate.Local.{
  Config, limit_for, session_scope, session_on, over_by, reserve_session, reserve, settle,
}
use creance.Gate.Local.Keys.{period-ne-session_key}
use creance.Gate.Local.Laws.{
  charge, charge_le, charge_ne, charge_self, charge_other, session_charge, get-add_charge, breaks,
  get-settle, session_reserve_lem, reserve-Booked,
}

-- The session's key is not the period.
abbrev IsApart : String → Option (Amount × String) → Type 0
IsApart p none = Unit
IsApart p (some (_, key)) = p ≢ key

session_scope-IsApart :
    (l : Option Amount) (i : Option String) (now : String)
    → IsApart (current_period now) (session_scope l i)
session_scope-IsApart (some ceiling) (some id) now = elim (Bool-cases (str_eq id "")) [
  | inl e ↦ rw e tt
  | inr e ↦ rw e (period-ne-session_key now id)
]
session_scope-IsApart _ _ now = tt

session_on-IsApart :
    (c : Config) (now : String) (scopes : BudgetScopes)
    → IsApart (current_period now) (session_on c scopes)
unfolding session_on
session_on-IsApart c now scopes = session_scope-IsApart c.session_limit scopes.session_id now

module _ (S : SpendStore) where
  open S use {Store, get, add, reserve as store_reserve}

  get-add_ne :
      (t p p' : String) (w : ℤ) (s : Store)
      → Lacks 0 t
      → p ≢ p'
      → get t p' (add t p w s).1 ≡ get t p' s
  get-add_ne t p p' w s h apart =
      rw (get-add_charge S t p t p' w s h h, charge_ne t p t p' w apart) (omega int_laws)

  abbrev pub session_breaks : String → ℤ → Option (Amount × String) → Store → Bool
  session_breaks t w none s = false
  session_breaks t w (some (ceiling, key)) s = breaks S t key w ceiling s

  session_ok :
      (p t : String) (w : ℤ) (limit : Amount) (total : ℤ) (session : Option (Amount × String))
      (s : Store)
      → (reserve_session S p t w limit total session s).0.ok ≡ not (session_breaks t w session s)
  unfolding reserve_session
  session_ok p t w limit total none s = refl
  session_ok p t w limit total (some (ceiling, key)) s =
      rw (session_reserve_lem S t key w ceiling s, reserve_session)
        (elim (Bool-cases (breaks S t key w ceiling s)) [
          | inl refused ↦ rw refused
          | inr fits ↦ rw fits
        ])

  session_breaks-add :
      (p t : String) (w : ℤ) (session : Option (Amount × String)) (s : Store)
      → Lacks 0 t
      → IsApart p session
      → session_breaks t w session (add t p w s).1 ≡ session_breaks t w session s
  session_breaks-add p t w none s h apart = refl
  session_breaks-add p t w (some (ceiling, key)) s h apart = rw (get-add_ne t p key w s h apart)

  -- For a tenant whose name holds no NUL, `reserve` answers `ok` exactly when the amount exceeds, alone
  -- or on top of what the tally holds, neither the tenant's cap at the period nor the session's,
  -- where one applies.
  pub reserve-ok :
      (c : Config) (now t : String) (w : ℤ) (scopes : BudgetScopes) (s : Store)
      → Lacks 0 t
      → (reserve S c now t w scopes s).0.ok
        ≡ not (breaks S t (current_period now) w (limit_for c t) s)
          && not (session_breaks t w (session_on c scopes) s)
  unfolding reserve over_by
  reserve-ok c now t w scopes s h =
      let p = current_period now in
      let limit = limit_for c t in
      let session = session_on c scopes in
      elim (Bool-cases (exceeds w limit)) [
        | inl big ↦ rw (big, reserve)
        | inr small ↦
            rw (small, reserve)
              (rw (S.reserve_lem t p w limit s small)
                (elim (Bool-cases (exceeds (get t p s +ℤ w) limit)) [
                  | inl over ↦ rw over
                  | inr fits ↦ rw fits (
                      session_ok p t w limit (get t p s +ℤ w) session (add t p w s).1
                      ∙ ap not
                          (session_breaks-add p t w session s h (session_on-IsApart c now scopes)))
                ]))
      ]

exceeds_mono : (x y : ℤ) (a : Amount) → y ≤ℤ x → exceeds x a ≡ false → exceeds y a ≡ false
exceeds_mono x y (finite a) h e = ground arith
exceeds_mono x y _ h e = refl

session_charge_apart :
    (t t' p : String) (session : Option (Amount × String)) (w : ℤ)
    → IsApart p session
    → session_charge t session t' p w ≡ pos 0
unfolding session_charge
session_charge_apart t t' p none w apart = refl
session_charge_apart t t' p (some (_, key)) w apart = charge_ne t key t' p w (λ e. apart (sym e))

pub +ℤ-zero : (a : ℤ) → a +ℤ pos 0 ≡ a
+ℤ-zero a = omega int_laws

same_text : (s t : String) → (s ≡ t) ⊎ (s ≢ t)
same_text s t = elim (Bool-cases (str_eq s t)) [
  | inl e ↦ inl ((eq_iff s t).0 e)
  | inr e ↦ inr (λ p. ground (arith, eq_iff s t))
]

breaks_of_ok :
    (S : SpendStore) (t p : String) (w : ℤ) (limit : Amount) (s : S.Store) (other : Bool)
    → (not (breaks S t p w limit s) && not other) ≡ true
    → exceeds (S.get t p s +ℤ w) limit ≡ false
breaks_of_ok S t p w limit s other h = ground arith

-- The calls that admission makes on the gate.
pub data Call : Type 0 where
  reserves : String → ℤ → BudgetScopes → Call
  settles : String → ℤ → BudgetScopes → Call

-- A settlement only gives back: the actual cost is at most the reserved worst case.
abbrev pub IsGoverned : Call → Type 0
IsGoverned (reserves t w scopes) = Lacks 0 t
IsGoverned (settles t d scopes) = Lacks 0 t × (d ≤ℤ pos 0)

module _ (S : SpendStore) (c : Config) (now : String) where
  open S use {Store, get, add}

  unfoldable pub step : Call → Store → Store
  step (reserves t w scopes) s = (reserve S c now t w scopes s).1
  step (settles t d scopes) s = settle S c now t d scopes s

  unfoldable pub run : List Call → Store → Store
  run [] s = s
  run (call ∷ calls) s = run calls (step call s)

  -- No tenant's spend of the period is over its cap.
  abbrev pub IsWithinCaps : Store → Type 0
  IsWithinCaps s =
      (t : String) → Lacks 0 t → exceeds (get t (current_period now) s) (limit_for c t) ≡ false

  pub reserve-IsWithinCaps :
      (t : String) (w : ℤ) (scopes : BudgetScopes) (s : Store)
      → Lacks 0 t
      → IsWithinCaps s
      → IsWithinCaps (reserve S c now t w scopes s).1
  reserve-IsWithinCaps t w scopes s h within t' h' =
      let p = current_period now in
      let session = session_on c scopes in
      let booked = reserve-Booked S c now t t' p w scopes s h h' in
      let elsewhere = session_charge_apart t t' p session w (session_on-IsApart c now scopes) in
      elim (Bool-cases (reserve S c now t w scopes s).0.ok) [
        | inr refused ↦ rw booked (rw refused (rw +ℤ-zero (within t' h')))
        | inl ok ↦ rw booked (
            rw (ok, elsewhere, +ℤ-zero)
              (elim (same_text t t') [
                | inl same ↦ rw (charge_self t t' p w same) (
                    rw (← same) (
                      breaks_of_ok S t p w (limit_for c t) s (session_breaks S t w session s)
                        (sym (reserve-ok S c now t w scopes s h) ∙ ok)))
                | inr other ↦ rw (charge_other t t' p w other, +ℤ-zero) (within t' h')
              ]))
      ]

  -- A settlement that adds nothing, in whatever month it is made.
  pub settle-IsWithinCaps :
      (later t : String) (d : ℤ) (scopes : BudgetScopes) (s : Store)
      → Lacks 0 t
      → d ≤ℤ pos 0
      → IsWithinCaps s
      → IsWithinCaps (settle S c later t d scopes s)
  settle-IsWithinCaps later t d scopes s h small within t' h' =
      let p = current_period now in
      let session = session_on c scopes in
      let elsewhere = session_charge_apart t t' p session d (session_on-IsApart c now scopes) in
      let less = charge_le t (current_period later) t' p d small in
      rw (get-settle S c later t t' p d scopes s h h') (
        rw (elsewhere, +ℤ-zero)
          (exceeds_mono (get t' p s) (get t' p s +ℤ charge t (current_period later) t' p d)
            (limit_for c t') (omega (int_laws, less)) (within t' h')))

  step-IsWithinCaps :
      (call : Call) (s : Store) → IsGoverned call → IsWithinCaps s → IsWithinCaps (step call s)
  unfolding step
  step-IsWithinCaps (reserves t w scopes) s g within = reserve-IsWithinCaps t w scopes s g within
  step-IsWithinCaps (settles t d scopes) s g within =
      settle-IsWithinCaps now t d scopes s g.0 g.1 within

  -- Whatever reservations and settlements are made within a period, in whatever order and by whatever
  -- tenants, no tenant's spend of the period goes over its cap, where all began within their caps, no
  -- settlement adds and no tenant's name holds NUL.
  pub run-IsWithinCaps :
      (calls : List Call) (s : Store)
      → All IsGoverned calls
      → IsWithinCaps s
      → IsWithinCaps (run calls s)
  unfolding run
  run-IsWithinCaps [] s g within = within
  run-IsWithinCaps (call ∷ calls) s g within =
      run-IsWithinCaps calls (step call s) g.1 (step-IsWithinCaps call s g.0 within)
