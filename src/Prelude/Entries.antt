-- ===== src/Prelude/Entries.antt =====
-- The number of entries of an association list whose keys differ, as those of a Go map do.
use Prim.Native.Nat.{suc}
use Prim.Native.String.{String}
use mathlib.Core.Path.{◌≡◌, refl, ap, subst, ◌∙◌}
use mathlib.Core.Logic.{inl, inr, Lift}
use mathlib.Core.Bool.{Bool, true, false}
use mathlib.Core.Option.{Option, none, some}
use mathlib.Core.List.{List, [], ◌∷◌}
use native.Mathlib.Omega.{arith}
use text.Mathlib.Text.{◌==◌}
use text.Mathlib.TextEquality.{eq_iff}
use soothe_client_go.Prelude.Tests.{Bool-cases, if◌then◌else◌}
use soothe_client_go.Prelude.Lists.{
  length, lookup, delete, insert, lookup-empty, lookup-delete, lookup-insert,
}

not-flip : (j k : String) → (j == k) ≡ false → (k == j) ≡ false
not-flip j k e = ground (arith, eq_iff j k, eq_iff k j)

module _ {ℓ} {V : Type ℓ} where
  abbrev pub Distinct : List (String × V) → Type ℓ
  Distinct [] = Lift {0, ℓ} Unit
  Distinct ((k, v) ∷ m) = (lookup k m ≡ none) × Distinct m

  pub delete-absent : (k : String) (m : List (String × V)) → lookup k m ≡ none → delete k m ≡ m
  unfolding lookup delete
  delete-absent k [] h = refl
  delete-absent k ((j, v) ∷ m) h = elim (Bool-cases (j == k)) [
    | inl e ↦ cc (rw e at h)
    | inr e ↦ rw e (ap (λ rest. (j, v) ∷ rest) (delete-absent k m (rw e at h)))
  ]

  pub length-delete :
      (k : String) (v : V) (m : List (String × V))
      → Distinct m
      → lookup k m ≡ some v
      → suc (length (delete k m)) ≡ length m
  unfolding lookup delete
  length-delete k v [] d h = cc
  length-delete k v ((j, w) ∷ m) (fresh, d) h = elim (Bool-cases (j == k)) [
    | inl e ↦ rw e (
        ap suc
          (ap length (delete-absent k m (subst (λ i. lookup i m ≡ none) ((eq_iff j k).0 e) fresh))))
    | inr e ↦ rw e (ap suc (length-delete k v m d (rw e at h)))
  ]

  pub length-insert_new :
      (k : String) (v : V) (m : List (String × V))
      → lookup k m ≡ none
      → length (insert k v m) ≡ suc (length m)
  unfolding lookup insert
  length-insert_new k v [] h = refl
  length-insert_new k v ((j, w) ∷ m) h = elim (Bool-cases (j == k)) [
    | inl e ↦ cc (rw e at h)
    | inr e ↦ rw e (ap suc (length-insert_new k v m (rw e at h)))
  ]

  pub length-insert_old :
      (k : String) (v w : V) (m : List (String × V))
      → lookup k m ≡ some w
      → length (insert k v m) ≡ length m
  unfolding lookup insert
  length-insert_old k v w [] h = cc
  length-insert_old k v w ((j, u) ∷ m) h = elim (Bool-cases (j == k)) [
    | inl e ↦ rw e refl
    | inr e ↦ rw e (ap suc (length-insert_old k v w m (rw e at h)))
  ]

  none_if : (b : Bool) (found : Option V) → found ≡ none → (if b then none else found) ≡ none
  none_if true found h = refl
  none_if false found h = h

  pub delete-Distinct : (k : String) (m : List (String × V)) → Distinct m → Distinct (delete k m)
  unfolding delete
  delete-Distinct k [] d = d
  delete-Distinct k ((j, v) ∷ m) (fresh, d) = elim (Bool-cases (j == k)) [
    | inl e ↦ rw e (delete-Distinct k m d)
    | inr e ↦
        rw e (lookup-delete k j m ∙ none_if (k == j) (lookup j m) fresh, delete-Distinct k m d)
  ]

  pub insert-Distinct :
      (k : String) (v : V) (m : List (String × V)) → Distinct m → Distinct (insert k v m)
  unfolding insert
  insert-Distinct k v [] d = (lookup-empty k, record { lower = tt })
  insert-Distinct k v ((j, w) ∷ m) (fresh, d) = elim (Bool-cases (j == k)) [
    | inl e ↦ rw e (subst (λ i. lookup i m ≡ none) ((eq_iff j k).0 e) fresh, d)
    | inr e ↦ rw e (lookup-insert k j v m ∙ rw (not-flip j k e) fresh, insert-Distinct k v m d)
  ]
