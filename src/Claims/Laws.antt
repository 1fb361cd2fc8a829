-- ===== src/Claims/Laws.antt =====
-- The verdict on each claim.
use creance.Prelude.{
  ◌+◌, ◌<◌, String, Bool, true, false, not, Option, some, List, [], ◌∷◌, ◌++◌, ◌≡◌, ◌≢◌, ◌⊎◌, inl,
  inr, refl, ap, sym, subst, ◌∙◌, arith, eq_iff, All, Bool-cases,
}
use creance.Prelude.Int.{ℤ, pos, pos_part, neg_part, ◌+ℤ◌, ◌≤ℤ◌, ltb_ℤ, int_laws}
use creance.Prelude.Dict.{Dict, lookup, insert, lookup-insert}
use creance.Claims.{
  ClaimLite, Verdict, within_allowance, allowance_exceeded, verdict, judge, created, evaluate,
}
use creance.Claims.Order.{total, total_if, sorted-Stands}

judge_others :
    (most sum : ℤ) (name : String) (cs : List ClaimLite) (out : Dict Verdict)
    → All (λ c. c.name ≢ name) cs
    → lookup name (judge most sum cs out) ≡ lookup name out
unfolding judge
judge_others most sum name [] out h = refl
judge_others most sum name (c ∷ cs) out h =
    judge_others most (sum +ℤ c.monthly_budget) name cs
      (insert c.name (verdict most (sum +ℤ c.monthly_budget)) out) h.1
    ∙ lookup-insert c.name name (verdict most (sum +ℤ c.monthly_budget)) out
    ∙ ground (arith, eq_iff c.name name, h.0)

lookup-judge :
    (most sum : ℤ) (before : List ClaimLite) (c : ClaimLite) (later : List ClaimLite)
    (out : Dict Verdict)
    → All (λ d. d.name ≢ c.name) later
    → lookup c.name (judge most sum (before ++ c ∷ later) out)
      ≡ some (verdict most ((sum +ℤ total before) +ℤ c.monthly_budget))
unfolding judge
lookup-judge most sum [] c later out h =
    let here : sum +ℤ c.monthly_budget ≡ (sum +ℤ pos 0) +ℤ c.monthly_budget = omega int_laws in
    judge_others most (sum +ℤ c.monthly_budget) c.name later
      (insert c.name (verdict most (sum +ℤ c.monthly_budget)) out) h
    ∙ lookup-insert c.name c.name (verdict most (sum +ℤ c.monthly_budget)) out
    ∙ ground (arith, eq_iff c.name c.name)
    ∙ ap (λ s. some (verdict most s)) here
lookup-judge most sum (b ∷ before) c later out h =
    let here : ((sum +ℤ b.monthly_budget) +ℤ total before) +ℤ c.monthly_budget
        ≡ (sum +ℤ (b.monthly_budget +ℤ total before)) +ℤ c.monthly_budget =
      omega int_laws in
    lookup-judge most (sum +ℤ b.monthly_budget) before c later
      (insert b.name (verdict most (sum +ℤ b.monthly_budget)) out) h
    ∙ ap (λ s. some (verdict most s)) here

-- A claim is within the allowance exactly where its total is not over it.
abbrev pub IsJudged : ℤ → ℤ → Option Verdict → Type 0
IsJudged most sum v =
    ((sum ≤ℤ most) × (v ≡ some (within_allowance sum most)))
    ⊎ (((most +ℤ pos 1) ≤ℤ sum) × (v ≡ some (allowance_exceeded sum most)))

verdict-IsJudged : (most sum : ℤ) → IsJudged most sum (some (verdict most sum))
verdict-IsJudged most sum = elim (Bool-cases (ltb_ℤ most sum)) [
  | inl over ↦
      let more : pos_part most + neg_part sum < pos_part sum + neg_part most = ground arith in
      inr (omega (int_laws, more), rw over refl)
  | inr within ↦ inl (ground arith, rw within refl)
]

-- Under an allowance, a claim is judged by the sum of its own budget and those of the claims that come
-- before it: they are earlier, or of the same time and before it in the list. It is within the allowance
-- where the sum is at most the allowance, and exceeds it where the sum is more. The comparison of
-- timestamps is total and transitive, and no other claim has its name.
pub lookup-evaluate :
    (not_after : String → String → Bool)
    → ((a b : String) → not_after a b ≡ false → not_after b a ≡ true)
    → ((a b c : String) → not_after a b ≡ true → not_after b c ≡ true → not_after a c ≡ true)
    → (front : List ClaimLite) (c : ClaimLite) (back : List ClaimLite) (most : ℤ)
    → All (λ d. d.name ≢ c.name) front
    → All (λ d. d.name ≢ c.name) back
    → IsJudged most
        (total_if (λ d. not_after (created d) (created c)) front
          +ℤ total_if (λ d. not (not_after (created c) (created d))) back
          +ℤ c.monthly_budget)
        (lookup c.name (evaluate not_after (front ++ (c ∷ back)) (some most)))
unfolding evaluate
lookup-evaluate not_after total_order transitive front c back most hf hb =
    let at =
      sorted-Stands not_after total_order transitive (λ d. d.name ≢ c.name) front c back hf hb in
    let order = at.split in
    let up = at.adds_up in
    let here : (pos 0 +ℤ total at.before) +ℤ c.monthly_budget
        ≡ total_if (λ d. not_after (created d) (created c)) front
          +ℤ total_if (λ d. not (not_after (created c) (created d))) back
          +ℤ c.monthly_budget =
      rw up (omega int_laws) in
    let judged =
      lookup-judge most (pos 0) at.before c at.later [] at.others
      ∙ ap (λ s. some (verdict most s)) here in
    subst (IsJudged most _) (sym (rw order judged)) (verdict-IsJudged most _)
