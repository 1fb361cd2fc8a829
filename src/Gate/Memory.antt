-- ===== src/Gate/Memory.antt =====
-- `InMemorySpendStore` (packages/core/src/gate.ts): one map, keyed by tenant, NUL and period.
use Prim.Native.Char.{nul, code}
use Prim.Native.String
use text.Mathlib.TextLemmas.{nil-append, cons-append, cons-eq-cons}
use creance.Prelude.{
  [], String, Option, none, some, ◌≡◌, refl, sym, ap, ◌∙◌, arith, str_eq, eq_iff, if◌then◌else◌,
  eq_of_iff,
}
use creance.Prelude.Int.{ℤ, pos, ◌+ℤ◌}
use creance.Prelude.Text.{Lacks}
use creance.Prelude.Dict.{Dict, lookup, insert, lookup-insert}
use creance.Gate.{SpendStore, same_key}
use creance.Gate.Caps.{Amount, exceeds}

unfoldable pub key : String → String → String
key tenant period = String.◌++◌ tenant (String.◌∷◌ nul period)

abbrev or_zero : Option ℤ → ℤ
or_zero none = pos 0
or_zero (some v) = v

unfoldable pub get : String → String → Dict ℤ → ℤ
get tenant period totals = or_zero (lookup (key tenant period) totals)

unfoldable pub add : String → String → ℤ → Dict ℤ → ℤ × Dict ℤ
add tenant period usd totals =
    let next = or_zero (lookup (key tenant period) totals) +ℤ usd in
    (next, insert (key tenant period) next totals)

unfoldable pub reserve : String → String → ℤ → Amount → Dict ℤ → Option ℤ × Dict ℤ
reserve tenant period delta ceiling totals =
    let next = or_zero (lookup (key tenant period) totals) +ℤ delta in
    if exceeds next ceiling
    then (none, totals)
    else (some next, insert (key tenant period) next totals)

-- The joined key tells two pairs apart where the tenants hold no NUL.
key_injective :
    (t t' p p' : String) → Lacks 0 t → Lacks 0 t' → key t p ≡ key t' p' → (t ≡ t') × (p ≡ p')
unfolding key
key_injective String.[] String.[] p p' h h' e =
    (refl, (cons-eq-cons.0 (sym (nil-append _) ∙ e ∙ nil-append _)).1)
key_injective String.[] (String.◌∷◌ c t') p p' h h' e =
    absurd (h'.0 (sym (ap code (cons-eq-cons.0 (sym (nil-append _) ∙ e ∙ cons-append _ _ _)).0)))
key_injective (String.◌∷◌ c t) String.[] p p' h h' e =
    absurd (h.0 (ap code (cons-eq-cons.0 (sym (cons-append _ _ _) ∙ e ∙ nil-append _)).0))
key_injective (String.◌∷◌ c t) (String.◌∷◌ d t') p p' h h' e =
    let (same_head, same_tail) = cons-eq-cons.0 (sym (cons-append _ _ _) ∙ e ∙ cons-append _ _ _) in
    let (same_t, same_p) = key_injective t t' p p' h.1 h'.1 same_tail in
    ((λ i. String.◌∷◌ (same_head i) (same_t i)), same_p)

key_test :
    (t p t' p' : String)
    → Lacks 0 t
    → Lacks 0 t'
    → str_eq (key t p) (key t' p') ≡ same_key t p t' p'
key_test t p t' p' h h' =
    eq_of_iff
      (λ e.
        let (same_t, same_p) = key_injective t t' p p' h h' ((eq_iff _ _).0 e) in
        ground (arith, eq_iff t t', eq_iff p p'))
      (λ e.
        let same_t : t ≡ t' = ground (arith, eq_iff t t') in
        let same_p : p ≡ p' = ground (arith, eq_iff p p') in
        (eq_iff _ _).1 (λ i. key (same_t i) (same_p i)))

-- In the in-process store an addition raises the total of its own tenant and period by its amount
-- and leaves every other total as it was, where no tenant's name holds the separator NUL.
pub get-add :
    (t p t' p' : String) (d : ℤ) (s : Dict ℤ)
    → Lacks 0 t
    → Lacks 0 t'
    → get t' p' (add t p d s).1 ≡ (if same_key t p t' p' then get t p s +ℤ d else get t' p' s)
unfolding get add
get-add t p t' p' d s h h' = rw (lookup-insert, key_test t p t' p' h h') (ground arith)

unfoldable pub memory_store : SpendStore
unfolding get add reserve key
memory_store = record {
  Store = Dict ℤ;
  get = get;
  add = add;
  reserve = reserve;
  add_total = λ t p d s. refl;
  get-add = get-add;
  reserve_lem = λ t p d c s h. refl;
}

-- The store that a process starts with.
unfoldable pub new_store : memory_store.Store
unfolding memory_store
new_store = []
