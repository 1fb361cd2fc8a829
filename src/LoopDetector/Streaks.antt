-- ===== src/LoopDetector/Streaks.antt =====
-- When the detector trips.
use creance.Prelude.{
  ℕ, zero, suc, ◌≤◌, String, Option, none, some, List, [], ◌∷◌, ◌≡◌, ◌≢◌, ◌↔◌, refl, sym, ap, ◌∙◌,
  inl, inr, arith, All, Bool-cases, length, take, map, ltb, leb, str_eq, eq_iff, if◌then◌else◌,
}
use creance.Ports.Json.{Json}
use creance.LoopDetector.{Detector, tool_signature, new_detector, repeats, record_call}

-- The detector after some calls, the newest first.
unfoldable pub after : List (String × Json) → Detector → Detector
after [] d = d
after ((name, input) ∷ older) d = (record_call name input (after older d)).1

abbrev pub sign : String × Json → String
sign (name, input) = tool_signature name input

-- How many of the newest texts are `s`.
matching : String → List String → ℕ
matching s [] = 0
matching s (t ∷ ts) = let more = matching s ts in if str_eq s t then suc more else 0

matching_iff :
    (n : ℕ) (s : String) (ts : List String)
    → (n ≤ matching s ts) ↔ ((n ≤ length ts) × All (λ t. t ≡ s) (take n ts))
unfolding matching
matching_iff zero s ts = ((λ h. (omega arith, tt)), λ h. omega arith)
matching_iff (suc n) s [] = ((λ h. absurd (omega (arith, h))), λ h. absurd (omega (arith, h.0)))
matching_iff (suc n) s (t ∷ ts) = elim (Bool-cases (str_eq s t)) [
  | inl same ↦
      let same_text : t ≡ s = sym ((eq_iff s t).0 same) in
      rw same (
        (λ h.
            let (enough, all) = (matching_iff n s ts).0 (omega (arith, h)) in
            (omega (arith, enough), (same_text, all))),
        λ h. let more = (matching_iff n s ts).1 (omega (arith, h.0), h.1.1) in omega (arith, more),
      )
  | inr other ↦
      rw other ((λ h. absurd (omega (arith, h))), λ h. absurd (ground (arith, eq_iff s t, h.1.0)))
]

streak : List String → ℕ
streak [] = 0
streak (s ∷ ts) = suc (matching s ts)

abbrev fresh : ℕ → Detector
fresh n = record { threshold = n; last = none; count = 0 }

abbrev newest : List String → Option String
newest [] = none
newest (s ∷ ts) = some s

counted :
    (s : String) (ts : List String)
    → (if repeats s (newest ts) then suc (streak ts) else 1) ≡ streak (s ∷ ts)
unfolding streak matching
counted s [] = refl
counted s (t ∷ ts) = elim (Bool-cases (str_eq s t)) [
  | inl same ↦
      let same_text : s ≡ t = (eq_iff s t).0 same in
      rw same (ap (λ u. suc (suc (matching u ts))) (sym same_text))
  | inr other ↦ rw other
]

after-streak :
    (n : ℕ) (calls : List (String × Json))
    → after calls (fresh n)
      ≡ record { threshold = n; last = newest (map sign calls); count = streak (map sign calls) }
unfolding after record_call streak
after-streak n [] = refl
after-streak n ((name, input) ∷ older) = rw (after-streak n older) (
    ap (λ c. record { threshold = n; last = some (tool_signature name input); count = c })
      (counted (tool_signature name input) (map sign older)))

none-ne-some : {A : Type 0} (a : A) → ◌≢◌ {A = Option A} none (some a)
none-ne-some a e = cc

some-ne-none : {A : Type 0} (a : A) → ◌≢◌ {A = Option A} (some a) none
some-ne-none a e = cc

some_injective : {A : Type 0} (a b : A) → ◌≡◌ {A = Option A} (some a) (some b) → a ≡ b
some_injective a b e = cc

new_detector-fresh : (n : ℕ) (d : Detector) → new_detector n ≡ some d → (d ≡ fresh n) × (1 ≤ n)
unfolding new_detector
new_detector-fresh n d e = elim (Bool-cases (ltb n 2)) [
  | inl small ↦ absurd (none-ne-some d (sym (rw small) ∙ e))
  | inr large ↦ (some_injective d (fresh n) (sym e ∙ rw large), ground arith)
]

tripped_iff :
    (n : ℕ) (s name : String) (older : List String)
    → 1 ≤ n
    → (if◌then◌else◌ {A = Option (String × ℕ)}
          (leb n (streak (s ∷ older)))
          (some (name, streak (s ∷ older)))
          none
        ≢ none)
      ↔ ((n ≤ length (s ∷ older)) × All (λ t. t ≡ s) (take n (s ∷ older)))
unfolding streak
tripped_iff zero s name older h = absurd (omega (arith, h))
tripped_iff (suc n) s name older h = elim (Bool-cases (leb (suc n) (suc (matching s older)))) [
  | inl long ↦
      let enough = (matching_iff n s older).0 (ground arith) in
      rw long (
        (λ p. (omega (arith, enough.0), (refl, enough.1))),
        λ p. some-ne-none (name, suc (matching s older)),
      )
  | inr short ↦ rw short (
    (λ p. absurd (p refl)),
    λ p.
        let long = (matching_iff n s older).1 (omega (arith, p.0), p.1.1) in
        absurd (ground (arith, long)),
  )
]

-- Over the calls of a run, the newest first, recording one more trips the detector exactly when
-- there are at least as many calls as the threshold and that many of the newest, this one among
-- them, have its signature.
pub record_call_iff :
    (n : ℕ) (d : Detector) (name : String) (input : Json) (older : List (String × Json))
    → new_detector n ≡ some d
    → let signs = map sign ((name, input) ∷ older) in
      ((record_call name input (after older d)).0 ≢ none)
      ↔ ((n ≤ length signs) × All (λ t. t ≡ tool_signature name input) (take n signs))
unfolding record_call
record_call_iff n d name input older e =
    let (same, some_calls) = new_detector-fresh n d e in
    rw (same, after-streak n older, counted (tool_signature name input) (map sign older))
      (tripped_iff n (tool_signature name input) name (map sign older) some_calls)
