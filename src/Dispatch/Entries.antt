-- ===== src/Dispatch/Entries.antt =====
-- The table of the substrates as it is filled, row by row (services/agent-runtime/dispatch.ts).
use creance.Prelude.{
  String, Bool, true, false, some, List, [], ◌∷◌, ◌++◌, ◌≡◌, refl, ◌∙◌, sym, subst, ◌⊎◌, inl, inr,
  Bool-cases, str_eq, eq_iff, arith,
}
use creance.Prelude.Dict.{lookup}
use creance.Prelude.Outcome.{Outcome, returned, thrown}
use creance.FrontDoor.{has}
use creance.Dispatch.Env.{and_then}
use creance.Dispatch.{DispatchFn}
use creance.Dispatch.Table.{Table, Row, fill, keys_but, entry_if}

module _ {W : Type 0} where
  abbrev pub HasMode : String → Table W → Type 0
  HasMode mode table = (impl : DispatchFn W) × (lookup mode table ≡ some impl)

  lookup_more :
      (mode at : String) (impl : DispatchFn W) (t : Table W)
      → HasMode mode t
      → HasMode mode (t ++ ((at, impl) ∷ []))
  unfolding lookup
  lookup_more mode at impl [] (found, e) = absurd cc
  lookup_more mode at impl ((key, value) ∷ rest) (found, e) = elim (Bool-cases (str_eq key mode)) [
    | inl here ↦ (value, rw here refl)
    | inr later ↦
        let inner : lookup mode rest ≡ some found = rw later refl ∙ e in
        let (found', e') = lookup_more mode at impl rest (found, inner) in (found', rw later e')
  ]

  lookup_new :
      (mode : String) (impl : DispatchFn W) (t : Table W) → HasMode mode (t ++ ((mode, impl) ∷ []))
  unfolding lookup
  lookup_new mode impl [] = (impl, rw ((eq_iff mode mode).1 refl) refl)
  lookup_new mode impl ((key, value) ∷ rest) = elim (Bool-cases (str_eq key mode)) [
    | inl here ↦ (value, rw here refl)
    | inr later ↦ let (found, e) = lookup_new mode impl rest in (found, rw later e)
  ]

  pub HasMode-keys : (mode m : String) (t : Table W) → has m (keys_but mode t) ≡ true → HasMode m t
  unfolding keys_but lookup
  HasMode-keys mode m [] h = absurd cc
  HasMode-keys mode m ((at, impl) ∷ rest) h = elim (Bool-cases (str_eq at m)) [
    | inl here ↦ (impl, rw here refl)
    | inr later ↦
        let inner : has m (keys_but mode rest) ≡ true = ground (arith, eq_iff m at, eq_iff at m) in
        let (found, e) = HasMode-keys mode m rest inner in (found, rw later e)
  ]

  -- The table that is built, where it is, has the mode.
  abbrev pub Builds : String → Outcome String (Table W) → Type 0
  Builds mode (returned table) = HasMode mode table
  Builds mode (thrown e) = Unit

  entry_if-new :
      (wired : Bool) (mode : String) (impl : Outcome String (DispatchFn W)) (t : Table W)
      → wired ≡ true
      → Builds mode (entry_if wired mode impl t)
  entry_if-new true mode (returned impl) t e = lookup_new mode impl t
  entry_if-new true mode (thrown why) t e = tt
  entry_if-new false mode impl t e = absurd cc

  entry_if-old :
      (wired : Bool) (mode at : String) (impl : Outcome String (DispatchFn W)) (t : Table W)
      → HasMode mode t
      → Builds mode (entry_if wired at impl t)
  entry_if-old false mode at impl t h = h
  entry_if-old true mode at (returned impl) t h = lookup_more mode at impl t h
  entry_if-old true mode at (thrown why) t h = tt

  and_then-Builds :
      (mode : String) (r : Outcome String (Table W)) (f : Table W → Outcome String (Table W))
      → ((t : Table W) → Builds mode (f t))
      → Builds mode (and_then r f)
  and_then-Builds mode (returned t) f h = h t
  and_then-Builds mode (thrown e) f h = tt

  and_then-keeps :
      (mode : String) (r : Outcome String (Table W)) (f : Table W → Outcome String (Table W))
      → Builds mode r
      → ((t : Table W) → HasMode mode t → Builds mode (f t))
      → Builds mode (and_then r f)
  and_then-keeps mode (returned t) f h k = k t h
  and_then-keeps mode (thrown e) f h k = tt

  fill-old :
      (mode : String) (rows : List (Row W)) (t : Table W)
      → HasMode mode t
      → Builds mode (fill rows t)
  unfolding fill
  fill-old mode [] t h = h
  fill-old mode ((wired, (at, impl)) ∷ more) t h =
      and_then-keeps mode (entry_if wired at impl t) (fill more)
        (entry_if-old wired mode at impl t h) (fill-old mode more)

  -- The rows enter the mode.
  abbrev pub Enters : String → List (Row W) → Type 0
  Enters mode [] = ⊥
  Enters mode ((wired, (at, impl)) ∷ more) = ((wired ≡ true) × (at ≡ mode)) ⊎ Enters mode more

  pub fill-new :
      (mode : String) (rows : List (Row W)) (t : Table W)
      → Enters mode rows
      → Builds mode (fill rows t)
  unfolding fill
  fill-new mode [] t h = elim h [ ]
  fill-new mode ((wired, (at, impl)) ∷ more) t (inl (on, same)) =
      and_then-keeps mode (entry_if wired at impl t) (fill more)
        (rw same (entry_if-new wired mode impl t on)) (fill-old mode more)
  fill-new mode ((wired, (at, impl)) ∷ more) t (inr later) =
      and_then-Builds mode (entry_if wired at impl t) (fill more)
        (λ t'. fill-new mode more t' later)

  module _ (P : String → DispatchFn W → Type 0) where
    -- What is entered under a mode.
    abbrev pub AllEntries : Table W → Type 0
    AllEntries [] = Unit
    AllEntries ((at, impl) ∷ rest) = P at impl × AllEntries rest

    abbrev pub IsEntry : String → Outcome String (DispatchFn W) → Type 0
    IsEntry at (returned impl) = P at impl
    IsEntry at (thrown e) = Unit

    abbrev pub AllRows : List (Row W) → Type 0
    AllRows [] = Unit
    AllRows ((wired, (at, impl)) ∷ more) = IsEntry at impl × AllRows more

    abbrev pub Built : Outcome String (Table W) → Type 0
    Built (returned table) = AllEntries table
    Built (thrown e) = Unit

    AllEntries-append :
        (t : Table W) (at : String) (impl : DispatchFn W)
        → AllEntries t
        → P at impl
        → AllEntries (t ++ ((at, impl) ∷ []))
    AllEntries-append [] at impl h e = (e, tt)
    AllEntries-append ((key, value) ∷ rest) at impl h e =
        (h.0, AllEntries-append rest at impl h.1 e)

    entry_if-Built :
        (wired : Bool) (at : String) (impl : Outcome String (DispatchFn W)) (t : Table W)
        → IsEntry at impl
        → AllEntries t
        → Built (entry_if wired at impl t)
    entry_if-Built false at impl t e h = h
    entry_if-Built true at (returned impl) t e h = AllEntries-append t at impl h e
    entry_if-Built true at (thrown why) t e h = tt

    and_then-Built :
        (r : Outcome String (Table W)) (f : Table W → Outcome String (Table W))
        → Built r
        → ((t : Table W) → AllEntries t → Built (f t))
        → Built (and_then r f)
    and_then-Built (returned t) f h k = k t h
    and_then-Built (thrown e) f h k = tt

    pub fill-Built :
        (rows : List (Row W)) (t : Table W) → AllRows rows → AllEntries t → Built (fill rows t)
    unfolding fill
    fill-Built [] t all h = h
    fill-Built ((wired, (at, impl)) ∷ more) t all h =
        and_then-Built (entry_if wired at impl t) (fill more)
          (entry_if-Built wired at impl t all.0 h) (λ t' h'. fill-Built more t' all.1 h')

    pub AllEntries-lookup :
        (m : String) (t : Table W) (impl : DispatchFn W)
        → AllEntries t
        → lookup m t ≡ some impl
        → P m impl
    unfolding lookup
    AllEntries-lookup m [] impl h e = absurd cc
    AllEntries-lookup m ((key, value) ∷ rest) impl h e = elim (Bool-cases (str_eq key m)) [
      | inl here ↦
          let found : lookup m ((key, value) ∷ rest) ≡ some value = rw here refl in
          let same : value ≡ impl = cc in
          subst (λ x. P m x) same (subst (λ x. P x value) ((eq_iff key m).0 here) h.0)
      | inr later ↦
          let inner : lookup m rest ≡ some impl = sym (rw later refl) ∙ e in
          AllEntries-lookup m rest impl h.1 inner
    ]
