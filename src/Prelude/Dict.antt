-- ===== src/Prelude/Dict.antt =====
-- A JavaScript `Map` with text keys, in insertion order.
use creance.Prelude.Tests.{if◌then◌else◌}
use Prim.Native.String.{String}
use mathlib.Core.Path.{◌≡◌, refl}
use mathlib.Core.Option.{Option, none, some}
use mathlib.Core.List.{List, [], ◌∷◌}
use native.Mathlib.Omega.{arith}
use text.Mathlib.Text.{◌==◌}
use text.Mathlib.TextEquality.{eq_iff}

abbrev pub Dict {ℓ} : Type ℓ → Type ℓ
Dict V = List (String × V)

module _ {ℓ} {V : Type ℓ} where
  -- `m.get(k)`
  unfoldable pub lookup : String → Dict V → Option V
  lookup key [] = none
  lookup key ((at, value) ∷ rest) = if at == key then some value else lookup key rest

  -- `m.set(k, v)`: a key that is present keeps its place.
  unfoldable pub insert : String → V → Dict V → Dict V
  insert key new [] = (key, new) ∷ []
  insert key new ((at, value) ∷ rest) =
      if at == key then (at, new) ∷ rest else (at, value) ∷ insert key new rest

  -- `m.delete(k)`
  unfoldable pub erase : String → Dict V → Dict V
  erase key [] = []
  erase key ((at, value) ∷ rest) =
      if at == key then erase key rest else (at, value) ∷ erase key rest

  -- `[...m.values()]`
  unfoldable pub values : Dict V → List V
  values [] = []
  values ((at, value) ∷ rest) = value ∷ values rest

  pub lookup-insert :
      (key asked : String) (new : V) (d : Dict V)
      → lookup asked (insert key new d) ≡ (if key == asked then some new else lookup asked d)
  unfolding lookup insert
  lookup-insert key asked new [] = refl
  lookup-insert key asked new ((at, value) ∷ rest) =
      let later = lookup-insert key asked new rest in
      ground (arith, later, eq_iff at asked, eq_iff at key, eq_iff key asked)

  pub lookup-erase :
      (key asked : String) (d : Dict V)
      → lookup asked (erase key d) ≡ (if key == asked then none else lookup asked d)
  unfolding lookup erase
  lookup-erase key asked [] = ground arith
  lookup-erase key asked ((at, value) ∷ rest) =
      let later = lookup-erase key asked rest in
      ground (arith, later, eq_iff at asked, eq_iff at key, eq_iff key asked)
