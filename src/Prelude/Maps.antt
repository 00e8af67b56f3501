-- ===== src/Prelude/Maps.antt =====
-- Go maps as association lists. The order of the list is the order in which `range` visits the
-- entries; a write to a key that is there stays in its place.
use Prim.Native.String.{String}
use mathlib.Core.Path.{◌≡◌, refl}
use mathlib.Core.Bool.{Bool}
use mathlib.Core.Option.{Option, none, some}
use mathlib.Core.List.{List, [], ◌∷◌}
use native.Mathlib.Omega.{arith}
use text.Mathlib.Text.{◌==◌ as str_equal}
use text.Mathlib.TextEquality.{eq_iff}
use blockchain_test.Prelude.Tests.{if◌then◌else◌}

abbrev pub str_eq : String → String → Bool
str_eq = str_equal

abbrev pub Map {ℓ} : Type ℓ → Type ℓ
Map V = List (String × V)

module _ {ℓ} {V : Type ℓ} where
  -- `v, ok := m[key]`
  unfoldable pub lookup : String → Map V → Option V
  lookup key [] = none
  lookup key ((used, v) ∷ rest) = if str_eq used key then some v else lookup key rest

  -- `delete(m, key)`
  unfoldable pub delete : String → Map V → Map V
  delete key [] = []
  delete key ((used, v) ∷ rest) =
      let shorter = delete key rest in if str_eq used key then shorter else (used, v) ∷ shorter

  -- `m[key] = v`
  unfoldable pub insert : String → V → Map V → Map V
  insert key v [] = (key, v) ∷ []
  insert key v ((used, w) ∷ rest) =
      if str_eq used key then (used, v) ∷ rest else (used, w) ∷ insert key v rest

  -- A key is found after `delete` where it is another one.
  pub lookup-delete :
      (key other : String) (m : Map V)
      → lookup other (delete key m) ≡ (if str_eq key other then none else lookup other m)
  unfolding lookup delete
  lookup-delete key other [] = ground arith
  lookup-delete key other ((used, w) ∷ rest) =
      ground
        (lookup-delete key other rest, eq_iff used other, eq_iff used key, eq_iff key other, arith)

  -- A write is read back, and changes no other key.
  pub lookup-insert :
      (key other : String) (v : V) (m : Map V)
      → lookup other (insert key v m) ≡ (if str_eq key other then some v else lookup other m)
  unfolding lookup insert
  lookup-insert key other v [] = refl
  lookup-insert key other v ((used, w) ∷ rest) =
      ground (
        lookup-insert key other v rest,
        eq_iff used other,
        eq_iff used key,
        eq_iff key other,
        arith,
      )
