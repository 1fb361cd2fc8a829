-- ===== src/Gate/Local/Laws.antt =====
-- What `reserve` and `settle` of `LocalGate` do to every tally of the store.
use creance.Prelude.{
  String, Bool, false, Option, none, some, ◌≡◌, refl, ◌≢◌, inl, inr, ◌||◌, eq_iff, if◌then◌else◌,
  Bool-cases, arith,
}
use creance.Prelude.Int.{◌≤ℤ◌, ℤ, pos, ◌+ℤ◌, ◌-ℤ◌, int_laws}
use creance.Prelude.Text.{Lacks}
use creance.Gate.{SpendStore, BudgetStatus, BudgetScopes, same_key, current_period}
use creance.Gate.Caps.{Amount, exceeds}
use creance.Gate.Local.{
  Config, limit_for, session_on, session_reserve, reserve_session, reserve, settle_session, settle,
}

-- What an entry of `w` at one tally adds to the reading of another.
unfoldable pub charge : String → String → String → String → ℤ → ℤ
charge t p t' p' w = if same_key t p t' p' then w else pos 0

unfoldable pub session_charge : String → Option (Amount × String) → String → String → ℤ → ℤ
session_charge t none t' p' w = pos 0
session_charge t (some (_, key)) t' p' w = charge t key t' p' w

pub charge_diff :
    (t p t' p' : String) (v w : ℤ)
    → charge t p t' p' (v -ℤ w) ≡ charge t p t' p' v -ℤ charge t p t' p' w
unfolding charge
charge_diff t p t' p' v w = elim (Bool-cases (same_key t p t' p')) [
  | inl e ↦ rw e
  | inr e ↦ rw e (omega int_laws)
]

pub session_charge_diff :
    (t t' p' : String) (session : Option (Amount × String)) (v w : ℤ)
    → session_charge t session t' p' (v -ℤ w)
      ≡ session_charge t session t' p' v -ℤ session_charge t session t' p' w
unfolding session_charge
session_charge_diff t t' p' none v w = omega int_laws
session_charge_diff t t' p' (some (_, key)) v w = charge_diff t key t' p' v w

pub charge_le : (t p t' p' : String) (w : ℤ) → w ≤ℤ pos 0 → charge t p t' p' w ≤ℤ pos 0
unfolding charge
charge_le t p t' p' w small = elim (Bool-cases (same_key t p t' p')) [
  | inl same ↦ rw same small
  | inr other ↦ rw other (omega int_laws)
]

pub charge_zero : (t p t' p' : String) → charge t p t' p' (pos 0) ≡ pos 0
unfolding charge
charge_zero t p t' p' = elim (Bool-cases (same_key t p t' p')) [ inl e ↦ rw e | inr e ↦ rw e ]

pub session_charge_zero :
    (t t' p' : String) (session : Option (Amount × String))
    → session_charge t session t' p' (pos 0) ≡ pos 0
unfolding session_charge
session_charge_zero t t' p' none = refl
session_charge_zero t t' p' (some (_, key)) = charge_zero t key t' p'

pub charge_ne : (t p t' p' : String) (w : ℤ) → p ≢ p' → charge t p t' p' w ≡ pos 0
unfolding charge
charge_ne t p t' p' w apart = ground (arith, eq_iff t t', eq_iff p p')

pub charge_self : (t t' p : String) (w : ℤ) → t ≡ t' → charge t p t' p w ≡ w
unfolding charge
charge_self t t' p w e = ground (arith, eq_iff t t', eq_iff p p)

pub charge_other : (t t' p : String) (w : ℤ) → t ≢ t' → charge t p t' p w ≡ pos 0
unfolding charge
charge_other t t' p w e = ground (arith, eq_iff t t', eq_iff p p)

pub charge_refund :
    (t p t' p' : String) (w : ℤ) → charge t p t' p' (pos 0 -ℤ w) ≡ pos 0 -ℤ charge t p t' p' w
unfolding charge
charge_refund t p t' p' w = elim (Bool-cases (same_key t p t' p')) [
  | inl e ↦ rw e
  | inr e ↦ rw e (omega int_laws)
]

module _ (S : SpendStore) where
  open S use {Store, get, add, reserve as store_reserve}

  pub get-add_charge :
      (t p t' p' : String) (d : ℤ) (s : Store)
      → Lacks 0 t
      → Lacks 0 t'
      → get t' p' (add t p d s).1 ≡ get t' p' s +ℤ charge t p t' p' d
  unfolding charge
  get-add_charge t p t' p' d s h h' =
      rw (S.get-add t p t' p' d s h h') (elim (Bool-cases (same_key t p t' p')) [
        | inl e ↦
            let same_t : t ≡ t' = ground (arith, eq_iff t t') in
            let same_p : p ≡ p' = ground (arith, eq_iff p p') in
            rw e (λ i. get (same_t i) (same_p i) s +ℤ d)
        | inr e ↦ rw e (omega int_laws)
      ])

  pub reserve-charge :
      (t p t' p' : String) (w : ℤ) (c : Amount) (s : Store)
      → Lacks 0 t
      → Lacks 0 t'
      → exceeds w c ≡ false
      → get t' p' (store_reserve t p w c s).1
        ≡ (if exceeds (get t p s +ℤ w) c then get t' p' s else get t' p' s +ℤ charge t p t' p' w)
  reserve-charge t p t' p' w c s h h' small =
      rw (S.reserve_lem t p w c s small) (elim (Bool-cases (exceeds (get t p s +ℤ w) c)) [
        | inl e ↦ rw e
        | inr e ↦ rw e (get-add_charge t p t' p' w s h h')
      ])

  -- What a reservation has done to a tally that read `before` and now reads `after`.
  abbrev pub Booked : BudgetStatus → ℤ → ℤ → ℤ → Type 0
  Booked r before after entry = after ≡ before +ℤ (if r.ok then entry else pos 0)

  -- The amount alone, or on top of what the tally holds, breaks the ceiling.
  abbrev pub breaks : String → String → ℤ → Amount → Store → Bool
  breaks t p w ceiling s = exceeds w ceiling || exceeds (get t p s +ℤ w) ceiling

  pub session_reserve_lem :
      (t key : String) (w : ℤ) (ceiling : Amount) (s : Store)
      → session_reserve S t (ceiling, key) w s ≡ (
          if breaks t key w ceiling s
          then (none, s)
          else (some (get t key s +ℤ w), (add t key w s).1))
  unfolding session_reserve
  session_reserve_lem t key w ceiling s = elim (Bool-cases (exceeds w ceiling)) [
    | inl big ↦ rw big
    | inr small ↦ rw small (S.reserve_lem t key w ceiling s small)
  ]

  session_effect :
      (p t t' p' : String) (w : ℤ) (limit : Amount) (total : ℤ) (before : ℤ)
      (session : Option (Amount × String)) (s : Store)
      → Lacks 0 t
      → Lacks 0 t'
      → get t' p' s ≡ before +ℤ charge t p t' p' w
      → let (r, s') = reserve_session S p t w limit total session s in
        Booked r before (get t' p' s') (charge t p t' p' w +ℤ session_charge t session t' p' w)
  unfolding reserve_session session_charge
  session_effect p t t' p' w limit total before none s h h' booked = rw booked (omega int_laws)
  session_effect p t t' p' w limit total before (some (ceiling, key)) s h h' booked =
      rw (session_reserve_lem t key w ceiling s, reserve_session)
        (elim (Bool-cases (breaks t key w ceiling s)) [
          | inl refused ↦ rw refused (
              rw (get-add_charge t p t' p' (pos 0 -ℤ w) s h h', charge_refund t p t' p' w, booked)
                (omega int_laws))
          | inr fits ↦ rw fits (rw (get-add_charge t key t' p' w s h h', booked) (omega int_laws))
        ])

  -- Where no tenant's name holds NUL, every tally, whoever owns it, reads after a reservation what it
  -- read before, plus the amount at the tenant's period and at the session's key where the answer is
  -- `ok`, and nothing more where it is not.
  pub reserve-Booked :
      (c : Config) (now t t' p' : String) (w : ℤ) (scopes : BudgetScopes) (s : Store)
      → Lacks 0 t
      → Lacks 0 t'
      → let (r, s') = reserve S c now t w scopes s in
        Booked r
          (get t' p' s)
          (get t' p' s')
          (charge t (current_period now) t' p' w +ℤ session_charge t (session_on c scopes) t' p' w)
  unfolding reserve
  reserve-Booked c now t t' p' w scopes s h h' =
      let p = current_period now in
      let limit = limit_for c t in
      elim (Bool-cases (exceeds w limit)) [
        | inl big ↦ rw (big, reserve) (omega int_laws)
        | inr small ↦
            rw (small, reserve)
              (rw (S.reserve_lem t p w limit s small)
                (elim (Bool-cases (exceeds (get t p s +ℤ w) limit)) [
                  | inl over ↦ rw over (omega int_laws)
                  | inr fits ↦ rw fits (
                      session_effect p t t' p' w limit (get t p s +ℤ w) (get t' p' s)
                        (session_on c scopes) (add t p w s).1 h h'
                        (get-add_charge t p t' p' w s h h'))
                ]))
      ]

  -- Where no tenant's name holds NUL, settling adds its amount to the tenant's period and to the
  -- session's key, and to no other tally.
  pub get-settle :
      (c : Config) (now t t' p' : String) (d : ℤ) (scopes : BudgetScopes) (s : Store)
      → Lacks 0 t
      → Lacks 0 t'
      → get t' p' (settle S c now t d scopes s)
        ≡ get t' p' s
          +ℤ (charge t (current_period now) t' p' d
              +ℤ session_charge t (session_on c scopes) t' p' d)
  unfolding settle
  get-settle c now t t' p' d scopes s h h' = settled (session_on c scopes)
    where
      settled :
          (session : Option (Amount × String))
          → get t' p' (settle_session S t d session (add t (current_period now) d s).1)
            ≡ get t' p' s
              +ℤ (charge t (current_period now) t' p' d +ℤ session_charge t session t' p' d)
      settled none =
          unfold settle_session session_charge in
          rw (get-add_charge t (current_period now) t' p' d s h h') (omega int_laws)
      settled (some (ceiling, key)) =
          unfold settle_session session_charge in
          rw (get-add_charge t key t' p' d (add t (current_period now) d s).1 h h')
            (rw (get-add_charge t (current_period now) t' p' d s h h') (omega int_laws))
