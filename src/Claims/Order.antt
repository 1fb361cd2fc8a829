-- ===== src/Claims/Order.antt =====
-- Where a claim stands in the order of creation, and what the claims before it have
-- (services/claims-controller/evaluate.ts).
use creance.Prelude.{
  String, Bool, true, false, not, List, [], ◌∷◌, ◌++◌, ◌≡◌, refl, ap, ◌∙◌, sym, inl, inr, arith,
  All, Bool-cases, subst, if◌then◌else◌,
}
use creance.Prelude.Int.{ℤ, pos, ◌+ℤ◌, int_laws}
use creance.Claims.{ClaimLite, created, place, sorted}

abbrev pub total : List ClaimLite → ℤ
total [] = pos 0
total (c ∷ cs) = c.monthly_budget +ℤ total cs

-- The budgets of the claims that pass a test.
abbrev pub total_if : (ClaimLite → Bool) → List ClaimLite → ℤ
total_if test [] = pos 0
total_if test (c ∷ cs) = (if test c then c.monthly_budget else pos 0) +ℤ total_if test cs

module _ (not_after : String → String → Bool)
    (total_order : (a b : String) → not_after a b ≡ false → not_after b a ≡ true)
    (transitive : (a b c : String)
      → not_after a b ≡ true
      → not_after b c ≡ true
      → not_after a c ≡ true) where
  abbrev pub le : ClaimLite → ClaimLite → Bool
  le c d = not_after (created c) (created d)

  abbrev IsSorted : List ClaimLite → Type 0
  IsSorted [] = Unit
  IsSorted (c ∷ cs) = All (λ d. le c d ≡ true) cs × IsSorted cs

  All-place {ℓ} :
      (P : ClaimLite → Type ℓ) (c : ClaimLite) (ds : List ClaimLite)
      → P c
      → All P ds
      → All P (place not_after c ds)
  unfolding place
  All-place P c [] h all = (h, tt)
  All-place P c (d ∷ ds) h all = elim (Bool-cases (le c d)) [
    | inl early ↦ rw early (h, all)
    | inr late ↦ rw late (all.0, All-place P c ds h all.1)
  ]

  All-later :
      (c d : ClaimLite) (ds : List ClaimLite)
      → le c d ≡ true
      → All (λ e. le d e ≡ true) ds
      → All (λ e. le c e ≡ true) ds
  All-later c d [] first all = tt
  All-later c d (e ∷ es) first all =
      (transitive (created c) (created d) (created e) first all.0, All-later c d es first all.1)

  place-IsSorted :
      (c : ClaimLite) (ds : List ClaimLite) → IsSorted ds → IsSorted (place not_after c ds)
  unfolding place
  place-IsSorted c [] h = (tt, tt)
  place-IsSorted c (d ∷ ds) h = elim (Bool-cases (le c d)) [
    | inl early ↦ rw early ((early, All-later c d ds early h.0), h)
    | inr late ↦ rw late (
      All-place (λ e. le d e ≡ true) c ds (total_order (created c) (created d) late) h.0,
      place-IsSorted c ds h.1,
    )
  ]

  sorted-IsSorted : (cs : List ClaimLite) → IsSorted (sorted not_after cs)
  unfolding sorted
  sorted-IsSorted [] = tt
  sorted-IsSorted (c ∷ cs) = place-IsSorted c (sorted not_after cs) (sorted-IsSorted cs)

  All-sorted {ℓ} :
      (P : ClaimLite → Type ℓ) (cs : List ClaimLite) → All P cs → All P (sorted not_after cs)
  unfolding sorted
  All-sorted P [] h = tt
  All-sorted P (c ∷ cs) h = All-place P c (sorted not_after cs) h.0 (All-sorted P cs h.1)

  total_if-place :
      (test : ClaimLite → Bool) (c : ClaimLite) (ds : List ClaimLite)
      → total_if test (place not_after c ds) ≡ total_if test (c ∷ ds)
  unfolding place
  total_if-place test c [] = refl
  total_if-place test c (d ∷ ds) = elim (Bool-cases (le c d)) [
    | inl early ↦ rw early refl
    | inr late ↦ let rest = total_if-place test c ds in rw late (rw rest (omega int_laws))
  ]

  total_if-sorted :
      (test : ClaimLite → Bool) (cs : List ClaimLite)
      → total_if test (sorted not_after cs) ≡ total_if test cs
  unfolding sorted
  total_if-sorted test [] = refl
  total_if-sorted test (c ∷ cs) =
      total_if-place test c (sorted not_after cs)
      ∙ ap (λ n. (if test c then c.monthly_budget else pos 0) +ℤ n) (total_if-sorted test cs)

  -- The claim `c` stands in the list after claims that are not after it, whose budgets are `sum`.
  pub record Stands (P : ClaimLite → Type 0) (c : ClaimLite) (sum : ℤ) (cs : List ClaimLite)
      : Type 0 where
    pub before : List ClaimLite
    pub later : List ClaimLite
    pub split : cs ≡ before ++ (c ∷ later)
    pub not_later : All (λ d. le d c ≡ true) before
    pub adds_up : total before ≡ sum
    pub others : All P later

  none_before :
      (c : ClaimLite) (ds : List ClaimLite)
      → All (λ d. le c d ≡ true) ds
      → total_if (λ d. not (le c d)) ds ≡ pos 0
  none_before c [] h = refl
  none_before c (d ∷ ds) h =
      let first = h.0 in rw first (rw (none_before c ds h.1) (omega int_laws))

  place-Stands :
      (P : ClaimLite → Type 0) (c : ClaimLite) (ds : List ClaimLite)
      → IsSorted ds
      → All P ds
      → Stands P c (total_if (λ d. not (le c d)) ds) (place not_after c ds)
  unfolding place
  place-Stands P c [] h all = record {
    before = [];
    later = [];
    split = refl;
    not_later = tt;
    adds_up = refl;
    others = tt;
  }
  place-Stands P c (d ∷ ds) h all = elim (Bool-cases (le c d)) [
    | inl early ↦ rw early (record {
      before = [];
      later = d ∷ ds;
      split = refl;
      not_later = tt;
      adds_up = rw (none_before c ds (All-later c d ds early h.0)) (omega int_laws);
      others = all;
    })
    | inr late ↦
        let rest = place-Stands P c ds h.1 all.1 in
        rw late (record {
          before = d ∷ rest.before;
          later = rest.later;
          split = ap (λ cs. d ∷ cs) rest.split;
          not_later = (total_order (created c) (created d) late, rest.not_later);
          adds_up = ap (λ n. d.monthly_budget +ℤ n) rest.adds_up;
          others = rest.others;
        })
  ]

  place_before :
      (P : ClaimLite → Type 0) (e c : ClaimLite) (before later : List ClaimLite)
      → le e c ≡ true
      → All (λ d. le d c ≡ true) before
      → All P later
      → Stands P c (e.monthly_budget +ℤ total before) (place not_after e (before ++ (c ∷ later)))
  unfolding place
  place_before P e c [] later early all others = rw early (record {
    before = e ∷ [];
    later = later;
    split = refl;
    not_later = (early, tt);
    adds_up = refl;
    others = others;
  })
  place_before P e c (d ∷ ds) later early all others = elim (Bool-cases (le e d)) [
    | inl first ↦ rw first (record {
      before = e ∷ d ∷ ds;
      later = later;
      split = refl;
      not_later = (early, all);
      adds_up = refl;
      others = others;
    })
    | inr past ↦
        let rest = place_before P e c ds later early all.1 others in
        rw past (record {
          before = d ∷ rest.before;
          later = rest.later;
          split = ap (λ cs. d ∷ cs) rest.split;
          not_later = (all.0, rest.not_later);
          adds_up = (let up = rest.adds_up in rw up (omega int_laws));
          others = rest.others;
        })
  ]

  place_past :
      (e c : ClaimLite) (before later : List ClaimLite)
      → le e c ≡ false
      → All (λ d. le d c ≡ true) before
      → place not_after e (before ++ (c ∷ later)) ≡ before ++ (c ∷ place not_after e later)
  unfolding place
  place_past e c [] later late all = rw late refl
  place_past e c (d ∷ ds) later late all = elim (Bool-cases (le e d)) [
    | inl first ↦
        let early : le e c ≡ true = transitive (created e) (created d) (created c) first all.0 in
        absurd (ground (arith, early, late))
    | inr past ↦ rw past (ap (λ cs. d ∷ cs) (place_past e c ds later late all.1))
  ]

  Stands-place :
      (P : ClaimLite → Type 0) (e c : ClaimLite) (sum : ℤ) (cs : List ClaimLite)
      → P e
      → Stands P c sum cs
      → Stands P c ((if le e c then e.monthly_budget else pos 0) +ℤ sum) (place not_after e cs)
  Stands-place P e c sum cs other h = elim (Bool-cases (le e c)) [
    | inl early ↦
        subst
          (λ ds.
            Stands P c ((if le e c then e.monthly_budget else pos 0) +ℤ sum) (place not_after e ds))
          (sym h.split)
          (subst (λ n. Stands P c n (place not_after e (h.before ++ (c ∷ h.later))))
            (let up = h.adds_up in rw (early, up) refl)
            (place_before P e c h.before h.later early h.not_later h.others))
    | inr late ↦ record {
      before = h.before;
      later = place not_after e h.later;
      split = ap (place not_after e) h.split ∙ place_past e c h.before h.later late h.not_later;
      not_later = h.not_later;
      adds_up = (let up = h.adds_up in rw (late, up) (omega int_laws));
      others = All-place P e h.later other h.others;
    }
  ]

  -- In the sorted list, a claim stands after those that are earlier, and after those of its own time
  -- that come before it in the list.
  pub sorted-Stands :
      (P : ClaimLite → Type 0) (front : List ClaimLite) (c : ClaimLite) (back : List ClaimLite)
      → All P front
      → All P back
      → Stands P c
          (total_if (λ d. le d c) front +ℤ total_if (λ d. not (le c d)) back)
          (sorted not_after (front ++ (c ∷ back)))
  unfolding sorted
  sorted-Stands P [] c back hf hb =
      let same = total_if-sorted (λ d. not (le c d)) back in
      subst (λ n. Stands P c n (place not_after c (sorted not_after back)))
        (rw same (omega int_laws))
        (place-Stands P c (sorted not_after back) (sorted-IsSorted back) (All-sorted P back hb))
  sorted-Stands P (e ∷ front) c back hf hb =
      subst (λ n. Stands P c n (place not_after e (sorted not_after (front ++ (c ∷ back)))))
        (omega int_laws) (Stands-place P e c _ _ hf.0 (sorted-Stands P front c back hf.1 hb))
