-- ===== src/Prelude/Lists.antt =====
-- Lists measured by native numbers, and association lists for Go's maps with text keys.
use Prim.Native.Nat.{ℕ, suc, ◌+◌}
use Prim.Native.String.{String}
use mathlib.Core.Path.{◌≡◌, refl}
use mathlib.Core.Bool.{Bool, true, false, ◌||◌}
use mathlib.Core.Option.{Option, none, some}
use mathlib.Core.List.{List, [], ◌∷◌, ◌++◌}
use native.Mathlib.Omega.{arith}
use text.Mathlib.Text.{◌==◌}
use text.Mathlib.TextEquality.{eq_iff}
use mathlib.Core.Logic.{inl, inr}
use soothe_client_go.Prelude.Tests.{Bool-cases, if◌then◌else◌}

module _ {ℓ} {A : Type ℓ} where
  abbrev pub length : List A → ℕ
  length [] = 0
  length (x ∷ xs) = suc (length xs)

  abbrev pub is_empty : List A → Bool
  is_empty [] = true
  is_empty (x ∷ xs) = false

  pub length-append : (xs ys : List A) → length (xs ++ ys) ≡ length xs + length ys
  length-append [] ys = omega arith
  length-append (x ∷ xs) ys = omega (arith, length-append xs ys)

abbrev pub contains_key : String → List String → Bool
contains_key k [] = false
contains_key k (j ∷ l) = k == j || contains_key k l

-- A Go map with text keys. The order of the entries is never read where the code does not read it.
module _ {ℓ} {V : Type ℓ} where
  -- `v, ok := m[key]`
  unfoldable pub lookup : String → List (String × V) → Option V
  lookup key [] = none
  lookup key ((k, v) ∷ rest) = if k == key then some v else lookup key rest

  -- `delete(m, key)`
  unfoldable pub delete : String → List (String × V) → List (String × V)
  delete key [] = []
  delete key ((k, v) ∷ more) =
      let rest = delete key more in if k == key then rest else (k, v) ∷ rest

  -- `m[key] = new`, in the place of the old entry if there is one
  unfoldable pub insert : String → V → List (String × V) → List (String × V)
  insert key new [] = (key, new) ∷ []
  insert key new ((k, v) ∷ more) =
      let rest = insert key new more in if k == key then (key, new) ∷ more else (k, v) ∷ rest

  pub lookup-delete :
      (key other : String) (m : List (String × V))
      → lookup other (delete key m) ≡ (if key == other then none else lookup other m)
  unfolding lookup delete
  lookup-delete key other [] = ground arith
  lookup-delete key other ((k, v) ∷ rest) =
      ground (arith, eq_iff k key, eq_iff key other, eq_iff k other, lookup-delete key other rest)

  pub lookup-insert :
      (key other : String) (new : V) (m : List (String × V))
      → lookup other (insert key new m) ≡ (if key == other then some new else lookup other m)
  unfolding lookup insert
  lookup-insert key other new [] = refl
  lookup-insert key other new ((k, v) ∷ rest) = elim (Bool-cases (k == key)) [
    | inl e ↦ rw e (ground (arith, eq_iff k key, eq_iff k other))
    | inr e ↦ rw e (
        ground
          (arith, eq_iff k key, eq_iff key other, eq_iff k other, lookup-insert key other new rest))
  ]

  pub lookup-empty : (k : String) → ◌≡◌ {A = Option V} (lookup k []) none
  unfolding lookup
  lookup-empty k = refl

pub ruleset map_laws = (lookup-insert, lookup-delete, lookup-empty)
