-- ===== src/Prelude/Maps.antt =====
-- Go maps as association lists. Iteration visits the entries in the order of the list, which
-- stands for any order, since Go leaves it open.
use mathlib.Core.Path.{◌≡◌, refl}
use mathlib.Core.Bool.{Bool, true, false}
use mathlib.Core.Option.{Option, none, some}
use mathlib.Core.List.{List, [], ◌∷◌}
use native.Mathlib.Omega.{arith}
use Prim.Native.Nat.{◌≤◌, ◌<◌, ◌+◌}
use tail_state.Prelude.Tests.{if◌then◌else◌}
use tail_state.Prelude.Lists.{length}
use tail_state.Prelude.Equality.{Equal, ◌==◌}

abbrev pub Dict {ℓ κ} : Type ℓ → Type κ → Type (ℓ ⊔ κ)
Dict K V = List (K × V)

module _ {ℓ κ} {K : Type ℓ} {V : Type κ} ⦃e : Equal K⦄ where
  unfoldable pub lookup : Dict K V → K → Option V
  lookup [] k = none
  lookup ((j, v) ∷ m) k = if j == k then some v else lookup m k

  unfoldable pub insert : Dict K V → K → V → Dict K V
  insert [] k v = (k, v) ∷ []
  insert ((j, w) ∷ m) k v = if j == k then (j, v) ∷ m else (j, w) ∷ insert m k v

  unfoldable pub remove : Dict K V → K → Dict K V
  remove [] k = []
  remove ((j, w) ∷ m) k = let rest = remove m k in if j == k then rest else (j, w) ∷ rest

  -- The key is bound in the map.
  unfoldable pub has : Dict K V → K → Bool
  has [] k = false
  has ((j, w) ∷ m) k = if j == k then true else has m k

  pub lookup-insert :
      (m : Dict K V) (k j : K) (v : V)
      → lookup (insert m k v) j ≡ (if k == j then some v else lookup m j)
  unfolding lookup insert
  lookup-insert [] k j v = refl
  lookup-insert ((i, w) ∷ m) k j v =
      ground (arith, e.same_iff k j, e.same_iff i k, e.same_iff i j, lookup-insert m k j v)

  pub lookup-remove :
      (m : Dict K V) (k j : K) → lookup (remove m k) j ≡ (if k == j then none else lookup m j)
  unfolding lookup remove
  lookup-remove [] k j = ground arith
  lookup-remove ((i, w) ∷ m) k j =
      ground (arith, e.same_iff k j, e.same_iff i k, e.same_iff i j, lookup-remove m k j)

  pub length-remove : (m : Dict K V) (k : K) → length (remove m k) ≤ length m
  unfolding remove
  length-remove [] k = omega arith
  length-remove ((j, w) ∷ m) k = ground (arith, length-remove m k)

  pub length-remove-has : (m : Dict K V) (k : K) → has m k ≡ true → length (remove m k) < length m
  unfolding remove has
  length-remove-has ((j, w) ∷ m) k h = ground (arith, length-remove m k, length-remove-has m k)
  length-remove-has [] k h = ground arith

  pub length-insert : (m : Dict K V) (k : K) (v : V) → length (insert m k v) ≤ length m + 1
  unfolding insert
  length-insert [] k v = omega arith
  length-insert ((j, w) ∷ m) k v = ground (arith, length-insert m k v)

  pub has-of-lookup : (m : Dict K V) (k : K) (v : V) → lookup m k ≡ some v → has m k ≡ true
  unfolding lookup has
  has-of-lookup [] k v h = ground arith
  has-of-lookup ((j, w) ∷ m) k v h = ground (arith, has-of-lookup m k v)

  -- No key is bound twice: what a Go map gives.
  abbrev pub IsMap : Dict K V → Type 0
  IsMap [] = Unit
  IsMap ((k, v) ∷ m) = (has m k ≡ false) × IsMap m

  pub has-insert :
      (m : Dict K V) (k j : K) (v : V) → has (insert m k v) j ≡ (if k == j then true else has m j)
  unfolding has insert
  has-insert [] k j v = refl
  has-insert ((i, w) ∷ m) k j v =
      ground (arith, e.same_iff k j, e.same_iff i k, e.same_iff i j, has-insert m k j v)

  pub has-remove :
      (m : Dict K V) (k j : K) → has (remove m k) j ≡ (if k == j then false else has m j)
  unfolding has remove
  has-remove [] k j = ground arith
  has-remove ((i, w) ∷ m) k j =
      ground (arith, e.same_iff k j, e.same_iff i k, e.same_iff i j, has-remove m k j)

  pub insert-IsMap : (m : Dict K V) (k : K) (v : V) → IsMap m → IsMap (insert m k v)
  unfolding insert has
  insert-IsMap [] k v h = (refl, tt)
  insert-IsMap ((j, w) ∷ m) k v h =
      ground (arith, e.same_iff j k, e.same_iff k j, has-insert m k j v, insert-IsMap m k v)

  pub remove-IsMap : (m : Dict K V) (k : K) → IsMap m → IsMap (remove m k)
  unfolding remove
  remove-IsMap [] k h = tt
  remove-IsMap ((j, w) ∷ m) k h = ground (arith, e.same_iff k j, has-remove m k j, remove-IsMap m k)

  pub lookup-of-not-has : (m : Dict K V) (k : K) → has m k ≡ false → lookup m k ≡ none
  unfolding lookup has
  lookup-of-not-has [] k h = refl
  lookup-of-not-has ((j, w) ∷ m) k h = ground (arith, lookup-of-not-has m k)
