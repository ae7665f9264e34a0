-- ===== src/Prelude/Sorting.antt =====
-- Sets built in a map and then sorted: `sort.Strings`, `sort.Ints` and the loops that fill `seen`.
use tail_state.Prelude.Tests.{Bool-cases, if◌then◌else◌, ltb}
use tail_state.Prelude.Lists.{Every, keep_if}
use tail_state.Prelude.Equality.{==_refl, Equal, contains, nat_eq, string_eq, ◌==◌}
use mathlib.Core.Path.{◌≡◌, refl, sym, ◌∙◌, ap, ap₂}
use mathlib.Core.Bool.{◌&&◌, Bool, true, false, ◌||◌}
use mathlib.Core.List.{List, [], ◌∷◌}
use mathlib.Core.Logic.{inl, inr}
use native.Mathlib.Omega.{arith}
use Prim.Native.Nat.{ℕ}

-- A strict linear order, as the comparisons of Go's `sort` are.
pub record Ordered {ℓ} (A : Type ℓ) : Type ℓ where
  pub lt : A → A → Bool
  pub lt_irrefl : (a : A) → lt a a ≡ false
  pub lt_trans : (a b c : A) → lt a b ≡ true → lt b c ≡ true → lt a c ≡ true
  pub lt_total : (a b : A) → lt a b ≡ false → lt b a ≡ false → a ≡ b

pub nat_irrefl : (a : ℕ) → ltb a a ≡ false
nat_irrefl a = ground arith

pub nat_trans : (a b c : ℕ) → ltb a b ≡ true → ltb b c ≡ true → ltb a c ≡ true
nat_trans a b c h k = ground arith

pub nat_total : (a b : ℕ) → ltb a b ≡ false → ltb b a ≡ false → a ≡ b
nat_total a b h k = ground arith

instance abbrev pub nat_ordered : Ordered ℕ
nat_ordered = record {
  lt = ltb;
  lt_irrefl = nat_irrefl;
  lt_trans = nat_trans;
  lt_total = nat_total;
}

-- `sort.Sort(sort.Reverse(…))` sorts by the opposite order.
pub reverse_total : (a b : ℕ) → ltb b a ≡ false → ltb a b ≡ false → a ≡ b
reverse_total a b h k = ground arith

abbrev pub descending : Ordered ℕ
descending = record {
  lt = λ a b. ltb b a;
  lt_irrefl = nat_irrefl;
  lt_trans = λ a b c h k. nat_trans c b a k h;
  lt_total = reverse_total;
}

module _ {ℓ} {A : Type ℓ} ⦃e : Equal A⦄ where
  -- The keys of `seen` in the order in which they were first met.
  unfoldable pub unique : List A → List A → List A
  unfolding contains
  unique seen [] = []
  unique seen (x ∷ xs) =
      let fresh = x ∷ unique (x ∷ seen) xs in
      let old = unique seen xs in if contains seen x then old else fresh

  pub contains-unique :
      (seen xs : List A) (a : A)
      → contains seen a || contains (unique seen xs) a ≡ contains seen a || contains xs a
  unfolding unique contains
  contains-unique seen [] a = refl
  contains-unique seen (x ∷ xs) a =
      ground (arith, e.same_iff x a, contains-unique seen xs a, contains-unique (x ∷ seen) xs a)

module _ {ℓ} {A : Type ℓ} ⦃e : Equal A⦄ (o : Ordered A) where
  unfoldable pub sort_insert : A → List A → List A
  sort_insert a [] = a ∷ []
  sort_insert a (x ∷ xs) = if o.lt x a then x ∷ sort_insert a xs else a ∷ x ∷ xs

  unfoldable pub sort : List A → List A
  unfolding sort_insert
  sort [] = []
  sort (x ∷ xs) = sort_insert x (sort xs)

  -- Strictly increasing: sorted, and nothing occurs twice.
  abbrev pub Above : A → List A → Type 0
  Above a [] = Unit
  Above a (x ∷ xs) = (o.lt a x ≡ true) × Above a xs

  abbrev pub Increasing : List A → Type 0
  Increasing [] = Unit
  Increasing (x ∷ xs) = Above x xs × Increasing xs

  contains-sort_insert :
      (x : A) (xs : List A) (a : A) → contains (sort_insert x xs) a ≡ (x == a) || contains xs a
  unfolding sort_insert contains
  contains-sort_insert x [] a = refl
  contains-sort_insert x (y ∷ ys) a = ground (arith, contains-sort_insert x ys a)

  pub contains-sort : (xs : List A) (a : A) → contains (sort xs) a ≡ contains xs a
  unfolding sort contains
  contains-sort [] a = refl
  contains-sort (x ∷ xs) a =
      contains-sort_insert x (sort xs) a ∙ ap (λ b. (x == a) || b) (contains-sort xs a)

  Above-trans : (a b : A) (xs : List A) → o.lt a b ≡ true → Above b xs → Above a xs
  Above-trans a b [] h k = tt
  Above-trans a b (x ∷ xs) h k = (o.lt_trans a b x h k.0, Above-trans a b xs h k.1)

  Above-sort_insert :
      (a x : A) (xs : List A) → o.lt a x ≡ true → Above a xs → Above a (sort_insert x xs)
  unfolding sort_insert
  Above-sort_insert a x [] h k = (h, tt)
  Above-sort_insert a x (y ∷ ys) h k = ground (arith, Above-sort_insert a x ys h)

  sort_insert-Increasing :
      (x : A) (xs : List A) → contains xs x ≡ false → Increasing xs → Increasing (sort_insert x xs)
  unfolding sort_insert contains
  sort_insert-Increasing x [] h k = (tt, tt)
  sort_insert-Increasing x (y ∷ ys) h k = elim (Bool-cases (o.lt y x)) [
    | inl t ↦ rw t (Above-sort_insert y x ys t k.0, sort_insert-Increasing x ys (ground arith) k.1)
    | inr f ↦ elim (Bool-cases (o.lt x y)) [
      | inl u ↦ rw f ((u, Above-trans x y ys u k.0), k)
      | inr v ↦ absurd (clash (ground (arith, e.same_iff y x, o.lt_total y x)))
    ]
  ]
    where
      clash : false ≡ true → ⊥
      clash p = cc

  abbrev pub Distinct : List A → Type 0
  Distinct [] = Unit
  Distinct (x ∷ xs) = (contains xs x ≡ false) × Distinct xs

  sort-Increasing : (xs : List A) → Distinct xs → Increasing (sort xs)
  unfolding sort
  sort-Increasing [] h = tt
  sort-Increasing (x ∷ xs) h =
      sort_insert-Increasing x (sort xs) (contains-sort xs x ∙ h.0) (sort-Increasing xs h.1)

  unique-fresh :
      (seen xs : List A) (a : A) → contains seen a ≡ true → contains (unique seen xs) a ≡ false
  unfolding unique contains
  unique-fresh seen [] a h = refl
  unique-fresh seen (x ∷ xs) a h =
      ground (arith, e.same_iff x a, unique-fresh seen xs a, unique-fresh (x ∷ seen) xs a)

  pub unique-Distinct : (seen xs : List A) → Distinct (unique seen xs)
  unfolding unique
  unique-Distinct seen [] = tt
  unique-Distinct seen (x ∷ xs) = elim (Bool-cases (contains seen x)) [
    | inl t ↦ rw t (unique-Distinct seen xs)
    | inr f ↦ rw f (
      unique-fresh (x ∷ seen) xs x (unfold contains in rw (==_refl x)),
      unique-Distinct (x ∷ seen) xs,
    )
  ]

  lt_of_Above : (a b : A) (xs : List A) → Above a xs → contains xs b ≡ true → o.lt a b ≡ true
  unfolding contains
  lt_of_Above a b [] h k = cc
  lt_of_Above a b (x ∷ xs) h k = ground (arith, e.same_iff x b, lt_of_Above a b xs h.1)

  heads_agree :
      (x y : A) (xs ys : List A)
      → Above x xs
      → Above y ys
      → contains (x ∷ xs) y ≡ true
      → contains (y ∷ ys) x ≡ true
      → x ≡ y
  unfolding contains
  heads_agree x y xs ys hx hy p q = ground (
    arith,
    e.same_iff x y,
    e.same_iff y x,
    lt_of_Above x y xs hx,
    lt_of_Above y x ys hy,
    o.lt_trans x y x,
    o.lt_irrefl x,
  )

  -- A strictly increasing list is determined by its members.
  pub Increasing-ext :
      (xs ys : List A)
      → Increasing xs
      → Increasing ys
      → ((a : A) → contains xs a ≡ contains ys a)
      → xs ≡ ys
  unfolding contains
  Increasing-ext [] [] hx hy same = refl
  Increasing-ext [] (y ∷ ys) hx hy same = ground (arith, same y, ==_refl y)
  Increasing-ext (x ∷ xs) [] hx hy same = ground (arith, same x, ==_refl x)
  Increasing-ext (x ∷ xs) (y ∷ ys) hx hy same =
      let heads : x ≡ y =
        heads_agree x y xs ys hx.0 hy.0 (same y ∙ unfold contains in rw (==_refl y))
          (sym (same x) ∙ unfold contains in rw (==_refl x)) in
      ap₂ ◌∷◌ heads (
        Increasing-ext xs ys hx.1 hy.1 λ a. ground (
          arith,
          same a,
          heads,
          e.same_iff x a,
          e.same_iff y a,
          lt_of_Above x a xs hx.0,
          lt_of_Above y a ys hy.0,
          o.lt_irrefl x,
          o.lt_irrefl y,
        ))

  -- Collect the values in a map, then sort its keys.
  unfoldable pub sorted_set : List A → List A
  sorted_set xs = sort (unique [] xs)

  pub contains-sorted_set : (xs : List A) (a : A) → contains (sorted_set xs) a ≡ contains xs a
  unfolding sorted_set
  contains-sorted_set xs a =
      contains-sort (unique [] xs) a ∙ unfold contains in contains-unique [] xs a

  pub sorted_set-Increasing : (xs : List A) → Increasing (sorted_set xs)
  unfolding sorted_set
  sorted_set-Increasing xs = sort-Increasing (unique [] xs) (unique-Distinct [] xs)

  -- The result depends on the set of values alone: not on their order, repetition, or on the
  -- order in which the map is iterated.
  pub sorted_set-ext :
      (xs ys : List A) → ((a : A) → contains xs a ≡ contains ys a) → sorted_set xs ≡ sorted_set ys
  sorted_set-ext xs ys same =
      Increasing-ext (sorted_set xs) (sorted_set ys) (sorted_set-Increasing xs)
        (sorted_set-Increasing ys)
        (λ a. contains-sorted_set xs a ∙ same a ∙ sym (contains-sorted_set ys a))

module _ {ℓ} {A : Type ℓ} ⦃e : Equal A⦄ where
  pub contains-keep_if :
      (p : A → Bool) (xs : List A) (a : A) → contains (keep_if p xs) a ≡ contains xs a && p a
  unfolding contains keep_if
  contains-keep_if p [] a = refl
  contains-keep_if p (x ∷ xs) a = elim (Bool-cases (x == a)) [
    | inl same ↦
        let is : x ≡ a = (e.same_iff x a).0 same in
        ground (arith, same, is, ap p is, contains-keep_if p xs a)
    | inr other ↦ ground (arith, other, contains-keep_if p xs a)
  ]

module _ {ℓ} {A : Type ℓ} ⦃e : Equal A⦄ (P : A → Type ℓ) where
  pub Every-unique : (seen xs : List A) → Every P xs → Every P (unique seen xs)
  unfolding unique
  Every-unique seen [] h = tt
  Every-unique seen (x ∷ xs) h = elim (Bool-cases (contains seen x)) [
    | inl old ↦ rw old (Every-unique seen xs h.1)
    | inr fresh ↦ rw fresh (h.0, Every-unique (x ∷ seen) xs h.1)
  ]

  module _ (o : Ordered A) where
    Every-sort_insert : (x : A) (xs : List A) → P x → Every P xs → Every P (sort_insert o x xs)
    unfolding sort_insert
    Every-sort_insert x [] h k = (h, tt)
    Every-sort_insert x (y ∷ ys) h k = elim (Bool-cases (o.lt y x)) [
      | inl later ↦ rw later (k.0, Every-sort_insert x ys h k.1)
      | inr here ↦ rw here (h, k)
    ]

    Every-sort : (xs : List A) → Every P xs → Every P (sort o xs)
    unfolding sort
    Every-sort [] h = tt
    Every-sort (x ∷ xs) h = Every-sort_insert x (sort o xs) h.0 (Every-sort xs h.1)

    pub Every-sorted_set : (xs : List A) → Every P xs → Every P (sorted_set o xs)
    unfolding sorted_set
    Every-sorted_set xs h = Every-sort (unique [] xs) (Every-unique [] xs h)
