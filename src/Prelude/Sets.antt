-- ===== src/Prelude/Sets.antt =====
-- How many values the keys of a map are.
use mathlib.Core.Logic.{inl, inr}
use mathlib.Core.Path.{◌≡◌, refl}
use mathlib.Core.List.{List, [], ◌∷◌}
use Prim.Native.Nat.{◌≤◌, ◌+◌}
use native.Mathlib.Omega.{arith}
use tail_state.Prelude.Tests.{Bool-cases}
use tail_state.Prelude.Lists.{length}
use tail_state.Prelude.Equality.{Equal, contains}
use tail_state.Prelude.Sorting.{Ordered, sort, sort_insert, sorted_set, unique}

module _ {ℓ} {A : Type ℓ} ⦃e : Equal A⦄ where
  length-unique : (seen xs : List A) → length (unique seen xs) ≤ length xs
  unfolding unique
  length-unique seen [] = omega arith
  length-unique seen (x ∷ xs) = elim (Bool-cases (contains seen x)) [
    | inl old ↦ rw old (omega (arith, length-unique seen xs))
    | inr fresh ↦ rw fresh (omega (arith, length-unique (x ∷ seen) xs))
  ]

  module _ (o : Ordered A) where
    length-sort_insert : (x : A) (xs : List A) → length (sort_insert o x xs) ≡ length xs + 1
    unfolding sort_insert
    length-sort_insert x [] = omega arith
    length-sort_insert x (y ∷ ys) = elim (Bool-cases (o.lt y x)) [
      | inl later ↦ rw later (omega (arith, length-sort_insert x ys))
      | inr here ↦ rw here (omega arith)
    ]

    length-sort : (xs : List A) → length (sort o xs) ≡ length xs
    unfolding sort
    length-sort [] = refl
    length-sort (x ∷ xs) = omega (arith, length-sort_insert x (sort o xs), length-sort xs)

    pub length-sorted_set : (xs : List A) → length (sorted_set o xs) ≤ length xs
    unfolding sorted_set
    length-sorted_set xs = omega (arith, length-sort (unique [] xs), length-unique [] xs)
