-- ===== src/Gate/Local/Quota.antt =====
-- The run quota of `LocalGate`: how many runs a tenant starts in a period.
use creance.Prelude.{
  Option, ℕ, zero, suc, ◌+◌, ◌-◌, ◌≤◌, ◌<◌, String, Bool, true, false, Option, none, some, ◌≡◌,
  refl, inl, inr, if◌then◌else◌, ltb, Bool-cases, arith, ap, ◌∙◌,
}
use Prim.Native.Nat.{min}
use creance.Prelude.Int.{pos, ◌+ℤ◌, ltb_ℤ, int_laws}
use creance.Prelude.Text.{Lacks}
use creance.Gate.{SpendStore}
use creance.Gate.Caps.{Amount, finite, exceeds}
use creance.Gate.Local.{
  Config, run_period, reserve_run, reserve_under, reserve_optional, quota_reserved,
}
use creance.Gate.Local.Laws.{charge_self, get-add_charge}

module _ (S : SpendStore) (c : Config) (now t : String) where
  open S use {Store, get, add, reserve as store_reserve}

  module _ (q u : ℕ) (s : Store) (quota : c.run_quota ≡ some (finite (pos q)))
      (used : get t (run_period now) s ≡ pos u) where
    taken : exceeds (get t (run_period now) s +ℤ pos 1) (finite (pos q)) ≡ ltb q (u + 1)
    unfolding ◌+ℤ◌
    taken = rw used (ground arith)

    reserved :
        (b : Bool)
        → ltb q (u + 1) ≡ b
        → 1 ≤ q
        → reserve_run S c now t s
          ≡ quota_reserved S t (finite (pos q)) (run_period now) (
              if b
              then (none, s)
              else (some (get t (run_period now) s +ℤ pos 1), (add t (run_period now) (pos 1) s).1))
    unfolding reserve_run reserve_under
    reserved b e large = rw quota (
        let small : ltb_ℤ (pos q) (pos 1) ≡ false = ground arith in
        rw small
          (rw (S.reserve_lem t (run_period now) (pos 1) (finite (pos q)) s small) (rw (taken, e))))

    left :
        Lacks 0 t
        → u < q
        → ((reserve_run S c now t s).0.ok ≡ true)
          × (get t (run_period now) (reserve_run S c now t s).1 ≡ pos (u + 1))
    unfolding quota_reserved
    left h less = rw (reserved false (ground arith) (omega arith)) (
      refl,
      get-add_charge S t (run_period now) t (run_period now) (pos 1) s h h
          ∙ rw (charge_self t t (run_period now) (pos 1) refl, used) (omega int_laws),
    )

    full : q ≤ u → ((reserve_run S c now t s).0.ok ≡ false) × ((reserve_run S c now t s).1 ≡ s)
    unfolding quota_reserved reserve_run reserve_under
    full more = elim (Bool-cases (ltb q 1)) [
      | inl none_left ↦
          rw quota
            (let small : ltb_ℤ (pos q) (pos 1) ≡ true = ground arith in rw small (refl, refl))
      | inr some_left ↦ rw (reserved true (ground arith) (ground arith)) (refl, refl)
    ]

  under-refused :
      (limit : Amount) (period : String) (s : Store)
      → (reserve_under S limit period t s).0.ok ≡ false
      → (reserve_under S limit period t s).1 ≡ s
  unfolding reserve_under quota_reserved
  under-refused limit period s e = elim (Bool-cases (exceeds (pos 1) limit)) [
    | inl big ↦ rw big
    | inr small ↦ elim (Bool-cases (exceeds (get t period s +ℤ pos 1) limit)) [
      | inl full ↦ rw (small, S.reserve_lem t period (pos 1) limit s small, full, reserve_under)
      | inr fits ↦
          let ok : (reserve_under S limit period t s).0.ok ≡ true =
            rw (small, S.reserve_lem t period (pos 1) limit s small, fits, reserve_under) in
          ground arith
    ]
  ]

  -- A run that the quota refuses takes nothing from it, and changes no tally.
  pub reserve_run-refused :
      (s : Store) → (reserve_run S c now t s).0.ok ≡ false → (reserve_run S c now t s).1 ≡ s
  unfolding reserve_run reserve_optional
  reserve_run-refused s e = go c.run_quota e
    where
      go :
          (quota : Option Amount)
          → (reserve_optional S quota (run_period now) t s).0.ok ≡ false
          → (reserve_optional S quota (run_period now) t s).1 ≡ s
      go none e' = refl
      go (some limit) e' = under-refused limit (run_period now) s e'

  -- `n` requests in a row: how many are admitted, and the store after them.
  pub reserve_runs : ℕ → Store → ℕ × Store
  reserve_runs zero s = (0, s)
  reserve_runs (suc n) s =
      let (r, s') = reserve_run S c now t s in
      let (more, s'') = reserve_runs n s' in ((if r.ok then suc more else more), s'')

  -- Of `n` requests in a row by a tenant whose name holds no NUL, in a period in which `u` runs of a
  -- quota of `q` are taken, exactly as many are admitted as are left, and each admitted one is
  -- counted.
  pub reserve_runs-min :
      (n q u : ℕ) (s : Store)
      → Lacks 0 t
      → c.run_quota ≡ some (finite (pos q))
      → get t (run_period now) s ≡ pos u
      → let (admitted, s') = reserve_runs n s in
        (admitted ≡ min n (q - u)) × (get t (run_period now) s' ≡ pos (u + admitted))
  unfolding reserve_runs
  reserve_runs-min zero q u s h quota used = (omega arith, rw used (ground arith))
  reserve_runs-min (suc n) q u s h quota used = elim (Bool-cases (ltb u q)) [
    | inl less ↦
        let below : u < q = ground arith in
        let (ok, counted) = left q u s quota used h below in
        let (most, after) =
          reserve_runs-min n q (u + 1) (reserve_run S c now t s).1 h quota counted in
        rw ok (omega (arith, most), after ∙ ap pos (omega arith))
    | inr more ↦
        let above : q ≤ u = ground arith in
        let (refused, same) = full q u s quota used above in
        let (most, after) =
          reserve_runs-min n q u (reserve_run S c now t s).1 h quota (rw same used) in
        rw refused (omega (arith, most), after)
  ]
