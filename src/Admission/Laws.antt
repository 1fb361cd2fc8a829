-- ===== src/Admission/Laws.antt =====
-- What a metered turn leaves on the tallies, however it ends.
use creance.Prelude.{
  ℕ, String, true, false, ◌≡◌, refl, inl, inr, ◌||◌, Bool-cases, arith, ◌∙◌, List, if◌then◌else◌,
}
use creance.Prelude.Int.{ℤ, pos, ◌+ℤ◌, ◌-ℤ◌, int_laws}
use creance.Prelude.Text.{Lacks}
use creance.Prelude.Outcome.{Outcome, returned, thrown}
use creance.Ports.{Message, ToolDef, AssistantTurn}
use creance.Gate.{SpendStore, BudgetStatus, current_period}
use creance.Gate.Price.{estimate_cost, IsUnder, estimate_cost-le-price_tokens}
use creance.Gate.Local.{limit_for, session_on, reserve}
use creance.Gate.Local.Laws.{
  charge, session_charge, charge_diff, session_charge_diff, charge_zero, session_charge_zero,
  reserve-Booked, get-settle, breaks,
}
use creance.Gate.Local.Limits.{
  reserve-ok, session_breaks, IsWithinCaps, reserve-IsWithinCaps, settle-IsWithinCaps, +ℤ-zero,
}
use creance.Admission.{
  Failure, budget_exceeded, estimate_input_tokens, worst_case, Admission, scopes_of, settled,
  reserved, generate,
}

-- What a call costs: the price of the usage that its turn reports, nothing where it throws.
abbrev pub spent : String → Outcome Failure AssistantTurn → ℤ
spent model (returned turn) = pos (estimate_cost model turn.usage)
spent model (thrown e) = pos 0

module _ (S : SpendStore) (W : Type 0) (a : Admission S W) (now later : String) where
  open S use {Store, get}
  open a use {tenant, model, gate, inner}

  -- What another tally sees of a call for which `held` was reserved and that cost `cost`: the
  -- reservation in the month in which it was made, the settlement in the month in which it was made, and
  -- the cost at the session.
  abbrev pub entry : String → String → ℤ → ℤ → ℤ
  entry t' p' held cost =
      charge tenant (current_period now) t' p' held
      +ℤ (charge tenant (current_period later) t' p' (cost -ℤ held)
          +ℤ session_charge tenant (session_on gate (scopes_of S W a)) t' p' cost)

  entry_zero : (t' p' : String) → entry t' p' (pos 0) (pos 0) ≡ pos 0
  entry_zero t' p' =
      rw
        (
          charge_diff tenant (current_period later) t' p' (pos 0) (pos 0),
          charge_zero tenant (current_period now) t' p',
          charge_zero tenant (current_period later) t' p',
          session_charge_zero tenant t' p' (session_on gate (scopes_of S W a)),
        )
        (omega int_laws)

  -- Within a month a call is billed its cost.
  pub entry_in_month :
      (t' p' : String) (held cost : ℤ)
      → current_period later ≡ current_period now
      → entry t' p' held cost
        ≡ charge tenant (current_period now) t' p' cost
          +ℤ session_charge tenant (session_on gate (scopes_of S W a)) t' p' cost
  entry_in_month t' p' held cost same =
      rw (same, charge_diff tenant (current_period now) t' p' cost held) (omega int_laws)

  -- The wrapped call leaves the tallies alone.
  abbrev pub Keeps : Type 0
  Keeps =
      (ms : List Message) (ts : List ToolDef) (n : ℕ) (w : W) (s : Store) (t' p' : String)
      → Lacks 0 t'
      → get t' p' (inner ms ts n (w, s)).1.1 ≡ get t' p' s

  settled_effect :
      (worst before : ℤ) (t' p' : String) (r : Outcome Failure AssistantTurn × (W × Store))
      → Lacks 0 tenant
      → Lacks 0 t'
      → get t' p' r.1.1
        ≡ before
          +ℤ (charge tenant (current_period now) t' p' worst
              +ℤ session_charge tenant (session_on gate (scopes_of S W a)) t' p' worst)
      → let (out, (w', s')) = settled S W a later worst r in
        get t' p' s' ≡ before +ℤ entry t' p' worst (spent model out)
  unfolding settled
  settled_effect worst before t' p' (returned turn, (w, s)) h h' held =
      let actual = pos (estimate_cost model turn.usage) in
      rw (get-settle S gate later tenant t' p' (actual -ℤ worst) (scopes_of S W a) s h h') (
        rw (held, session_charge_diff tenant t' p' (session_on gate (scopes_of S W a)) actual worst)
          (omega int_laws))
  settled_effect worst before t' p' (thrown e, (w, s)) h h' held =
      rw (get-settle S gate later tenant t' p' (pos 0 -ℤ worst) (scopes_of S W a) s h h') (
        rw
          (held, session_charge_diff tenant t' p' (session_on gate (scopes_of S W a)) (pos 0) worst)
          (omega int_laws))

  -- What is reserved for a call: its worst case, or nothing where the gate refuses it.
  abbrev pub held_for : List Message → List ToolDef → ℕ → Store → ℤ
  held_for ms ts n s =
      let worst = worst_case model ms ts n in
      if (reserve S gate now tenant worst (scopes_of S W a) s).0.ok then worst else pos 0

  -- After a metered call every tally reads what it read before plus: at the tenant's month of the
  -- reservation the worst case that was held, at its month of the settlement the difference of the cost
  -- to it, and at the session's key the cost. So a call within one month is billed its cost, a refused one
  -- nothing, and one that throws nothing in all. The wrapped call leaves the tallies alone and no
  -- tenant's name holds NUL.
  pub get-generate :
      (ms : List Message) (ts : List ToolDef) (n : ℕ) (w : W) (s : Store) (t' p' : String)
      → Lacks 0 tenant
      → Lacks 0 t'
      → Keeps
      → let (out, (w', s')) = generate S W a now later ms ts n (w, s) in
        get t' p' s' ≡ get t' p' s +ℤ entry t' p' (held_for ms ts n s) (spent model out)
  unfolding generate reserved
  get-generate ms ts n w s t' p' h h' keeps =
      let worst = worst_case model ms ts n in
      let booked = reserve-Booked S gate now tenant t' p' worst (scopes_of S W a) s h h' in
      let s₁ = (reserve S gate now tenant worst (scopes_of S W a) s).1 in
      elim (Bool-cases (reserve S gate now tenant worst (scopes_of S W a) s).0.ok) [
        | inl ok ↦
            rw (ok, reserved)
              (settled_effect worst (get t' p' s) t' p' (inner ms ts n (w, s₁)) h h'
                (keeps ms ts n w s₁ t' p' h' ∙ (booked ∙ rw ok)))
        | inr refused ↦ rw (refused, reserved) (booked ∙ rw refused (rw (entry_zero t' p')))
      ]

  -- A call whose worst case would break the tenant's cap or the session's is refused before it is
  -- sent: it throws the budget error, and neither the world nor any tally changes, where no tenant's
  -- name holds NUL.
  pub generate_refuses :
      (ms : List Message) (ts : List ToolDef) (n : ℕ) (w : W) (s : Store)
      → Lacks 0 tenant
      → let worst = worst_case model ms ts n in
        (breaks S tenant (current_period now) worst (limit_for gate tenant) s
            || session_breaks S tenant worst (session_on gate (scopes_of S W a)) s)
          ≡ true
        → let (out, (w', s')) = generate S W a now later ms ts n (w, s) in
          ((b : BudgetStatus) × (out ≡ thrown (budget_exceeded b)))
          × (w' ≡ w)
          × ((t' p' : String) → Lacks 0 t' → get t' p' s' ≡ get t' p' s)
  unfolding generate reserved
  generate_refuses ms ts n w s h broken =
      let worst = worst_case model ms ts n in
      let refused : (reserve S gate now tenant worst (scopes_of S W a) s).0.ok ≡ false =
        reserve-ok S gate now tenant worst (scopes_of S W a) s h ∙ ground arith in
      rw (refused, reserved)
        (
          (_, refl),
          refl,
          λ t' p' h'.
              reserve-Booked S gate now tenant t' p' worst (scopes_of S W a) s h h'
              ∙ rw refused (+ℤ-zero _),
        )

  -- What the code relies on: a turn reports at most the estimated input and the requested output.
  abbrev pub IsHonest : Type 0
  IsHonest =
      (ms : List Message) (ts : List ToolDef) (n : ℕ) (ws : W × Store) (turn : AssistantTurn)
      → (inner ms ts n ws).0 ≡ returned turn
      → IsUnder (estimate_input_tokens ms ts) n turn.usage

  settled-IsWithinCaps :
      (ms : List Message) (ts : List ToolDef) (n : ℕ)
      (r : Outcome Failure AssistantTurn × (W × Store))
      → Lacks 0 tenant
      → ((turn : AssistantTurn)
          → r.0 ≡ returned turn
          → IsUnder (estimate_input_tokens ms ts) n turn.usage)
      → IsWithinCaps S gate now r.1.1
      → IsWithinCaps S gate now (settled S W a later (worst_case model ms ts n) r).1.1
  unfolding settled worst_case
  settled-IsWithinCaps ms ts n (returned turn, (w, s)) h honest within =
      let under =
        estimate_cost-le-price_tokens model (estimate_input_tokens ms ts) n turn.usage
          (honest turn refl) in
      settle-IsWithinCaps S gate now later tenant _ (scopes_of S W a) s h (omega (int_laws, under))
        within
  settled-IsWithinCaps ms ts n (thrown e, (w, s)) h honest within =
      settle-IsWithinCaps S gate now later tenant _ (scopes_of S W a) s h (omega int_laws) within

  -- A metered call keeps every tenant within its cap of the month of its reservation, in whatever month
  -- it is settled, where the provider reports at most the estimated
  -- input and the requested output, what others do while it is awaited keeps the caps too, and no
  -- tenant's name holds NUL.
  pub generate-IsWithinCaps :
      (ms : List Message) (ts : List ToolDef) (n : ℕ) (w : W) (s : Store)
      → Lacks 0 tenant
      → IsHonest
      → ((s₁ : Store)
          → IsWithinCaps S gate now s₁
          → IsWithinCaps S gate now (inner ms ts n (w, s₁)).1.1)
      → IsWithinCaps S gate now s
      → IsWithinCaps S gate now (generate S W a now later ms ts n (w, s)).1.1
  unfolding generate reserved
  generate-IsWithinCaps ms ts n w s h honest others within =
      let worst = worst_case model ms ts n in
      let kept = reserve-IsWithinCaps S gate now tenant worst (scopes_of S W a) s h within in
      let s₁ = (reserve S gate now tenant worst (scopes_of S W a) s).1 in
      elim (Bool-cases (reserve S gate now tenant worst (scopes_of S W a) s).0.ok) [
        | inl ok ↦
            rw (ok, reserved)
              (settled-IsWithinCaps ms ts n (inner ms ts n (w, s₁)) h
                (λ turn e. honest ms ts n (w, s₁) turn e) (others s₁ kept))
        | inr refused ↦ rw (refused, reserved) kept
      ]
