-- ===== src/Prelude/Stable.antt =====
-- `sort.SliceStable`, and what it leaves as it is.
use mathlib.Core.Path.{◌≡◌, refl, ap, ◌∙◌}
use mathlib.Core.Logic.{inl, inr}
use mathlib.Core.Bool.{Bool, true, false}
use mathlib.Core.List.{List, [], ◌∷◌}
use tail_state.Prelude.Tests.{if◌then◌else◌, Bool-cases}
use tail_state.Prelude.Lists.{Every}

-- `sort.SliceStable` by a comparison: elements that compare equal keep their order.
module _ {ℓ} {A : Type ℓ} (less : A → A → Bool) where
  unfoldable pub stable_insert : A → List A → List A
  stable_insert a [] = a ∷ []
  stable_insert a (x ∷ xs) = if less x a then x ∷ stable_insert a xs else a ∷ x ∷ xs

  unfoldable pub stable_sort : List A → List A
  unfolding stable_insert
  stable_sort [] = []
  stable_sort (x ∷ xs) = stable_insert x (stable_sort xs)

  module _ (P : A → Type ℓ) where
    Every-stable_insert : (a : A) (xs : List A) → P a → Every P xs → Every P (stable_insert a xs)
    unfolding stable_insert
    Every-stable_insert a [] h k = (h, tt)
    Every-stable_insert a (x ∷ xs) h k = elim (Bool-cases (less x a)) [
      | inl first ↦ rw first (k.0, Every-stable_insert a xs h k.1)
      | inr here ↦ rw here (h, k)
    ]

    pub Every-stable_sort : (xs : List A) → Every P xs → Every P (stable_sort xs)
    unfolding stable_sort
    Every-stable_sort [] h = tt
    Every-stable_sort (x ∷ xs) h =
        Every-stable_insert x (stable_sort xs) h.0 (Every-stable_sort xs h.1)

  -- No element comes before the one that it follows.
  Follows : A → List A → Type 0
  Follows x [] = Unit
  Follows x (y ∷ xs) = less y x ≡ false

  Arranged : List A → Type 0
  unfolding Follows
  Arranged [] = Unit
  Arranged (x ∷ xs) = Follows x xs × Arranged xs

  stable_insert-Follows : (x : A) (xs : List A) → Follows x xs → stable_insert x xs ≡ x ∷ xs
  unfolding stable_insert Follows
  stable_insert-Follows x [] h = refl
  stable_insert-Follows x (y ∷ xs) h = rw h refl

  stable_sort-Arranged : (xs : List A) → Arranged xs → stable_sort xs ≡ xs
  unfolding Arranged stable_sort
  stable_sort-Arranged [] h = refl
  stable_sort-Arranged (x ∷ xs) h =
      ap (stable_insert x) (stable_sort-Arranged xs h.1) ∙ stable_insert-Follows x xs h.0

  Follows-stable_insert :
      (x a : A) (xs : List A) → less a x ≡ false → Follows x xs → Follows x (stable_insert a xs)
  unfolding Follows stable_insert
  Follows-stable_insert x a [] h k = h
  Follows-stable_insert x a (y ∷ xs) h k = elim (Bool-cases (less y a)) [
    | inl first ↦ rw first k
    | inr here ↦ rw here h
  ]

  module _ (asymmetric : (x y : A) → less x y ≡ true → less y x ≡ false) where
    stable_insert-Arranged : (a : A) (xs : List A) → Arranged xs → Arranged (stable_insert a xs)
    unfolding Arranged Follows stable_insert
    stable_insert-Arranged a [] h = (tt, tt)
    stable_insert-Arranged a (x ∷ xs) h = elim (Bool-cases (less x a)) [
      | inl first ↦
          rw first (
            Follows-stable_insert x a xs (asymmetric x a first) h.0,
            stable_insert-Arranged a xs h.1,
          )
      | inr here ↦ rw here (here, h)
    ]

    stable_sort_arranges : (xs : List A) → Arranged (stable_sort xs)
    unfolding stable_sort Arranged
    stable_sort_arranges [] = tt
    stable_sort_arranges (x ∷ xs) =
        stable_insert-Arranged x (stable_sort xs) (stable_sort_arranges xs)

    pub stable_sort_idem : (xs : List A) → stable_sort (stable_sort xs) ≡ stable_sort xs
    stable_sort_idem xs = stable_sort-Arranged (stable_sort xs) (stable_sort_arranges xs)
