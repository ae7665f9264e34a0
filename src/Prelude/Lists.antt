-- ===== src/Prelude/Lists.antt =====
-- Lists measured by native numbers, and the loops over slices that the components share.
use Prim.Native.Nat.{ℕ, zero, suc, ◌+◌, ◌-◌, ◌≤◌, min}
use mathlib.Core.Path.{◌≡◌, refl}
use mathlib.Core.Bool.{Bool, true, false, ◌&&◌, ◌||◌}
use mathlib.Core.List.{List, [], ◌∷◌, ◌++◌}
use mathlib.Core.Option.{Option, none, some}
use native.Mathlib.Omega.{arith}
use tail_state.Prelude.Tests.{if◌then◌else◌, Bool-cases}
use mathlib.Core.Logic.{inl, inr}

pub or_false : (a b : Bool) → (a || b) ≡ false → (a ≡ false) × (b ≡ false)
or_false a b h = ground (arith, h)

module _ {ℓ} {A : Type ℓ} where
  abbrev pub length : List A → ℕ
  length [] = 0
  length (x ∷ xs) = suc (length xs)

  abbrev pub drop : ℕ → List A → List A
  drop zero xs = xs
  drop (suc n) [] = []
  drop (suc n) (x ∷ xs) = drop n xs

  abbrev pub take : ℕ → List A → List A
  take zero xs = []
  take (suc n) [] = []
  take (suc n) (x ∷ xs) = x ∷ take n xs

  abbrev pub replicate : ℕ → A → List A
  replicate zero a = []
  replicate (suc n) a = a ∷ replicate n a

  abbrev pub get_elem? : List A → ℕ → Option A
  get_elem? [] i = none
  get_elem? (x ∷ xs) zero = some x
  get_elem? (x ∷ xs) (suc i) = get_elem? xs i

  -- `len(xs) == 0`
  abbrev pub is_empty : List A → Bool
  is_empty [] = true
  is_empty (x ∷ xs) = false

  -- A loop that appends the elements that pass a test to `kept`.
  unfoldable pub keep_if : (A → Bool) → List A → List A
  keep_if p [] = []
  keep_if p (x ∷ xs) = let rest = keep_if p xs in if p x then x ∷ rest else rest

  -- A loop that returns true at the first element that passes a test.
  unfoldable pub some_of : (A → Bool) → List A → Bool
  some_of p [] = false
  some_of p (x ∷ xs) = p x || some_of p xs

  unfoldable pub every_of : (A → Bool) → List A → Bool
  every_of p [] = true
  every_of p (x ∷ xs) = p x && every_of p xs

  pub length-append : (xs ys : List A) → length (xs ++ ys) ≡ length xs + length ys
  length-append [] ys = omega arith
  length-append (x ∷ xs) ys = omega (arith, length-append xs ys)

  pub length-drop : (n : ℕ) (xs : List A) → length (drop n xs) ≡ length xs - n
  length-drop zero xs = omega arith
  length-drop (suc n) [] = omega arith
  length-drop (suc n) (x ∷ xs) = omega (arith, length-drop n xs)

  pub length-take : (n : ℕ) (xs : List A) → length (take n xs) ≡ min n (length xs)
  length-take zero xs = omega arith
  length-take (suc n) [] = omega arith
  length-take (suc n) (x ∷ xs) = omega (arith, length-take n xs)

  pub length-keep_if : (p : A → Bool) (xs : List A) → length (keep_if p xs) ≤ length xs
  unfolding keep_if
  length-keep_if p [] = omega arith
  length-keep_if p (x ∷ xs) = ground (arith, length-keep_if p xs)

  pub keep_if-append :
      (p : A → Bool) (xs ys : List A) → keep_if p (xs ++ ys) ≡ keep_if p xs ++ keep_if p ys
  unfolding keep_if
  keep_if-append p [] ys = refl
  keep_if-append p (x ∷ xs) ys = ground (arith, keep_if-append p xs ys)

  pub some_of-append :
      (p : A → Bool) (xs ys : List A) → some_of p (xs ++ ys) ≡ some_of p xs || some_of p ys
  unfolding some_of
  some_of-append p [] ys = refl
  some_of-append p (x ∷ xs) ys = ground (arith, some_of-append p xs ys)

  pub keep_if-keep_if : (p : A → Bool) (xs : List A) → keep_if p (keep_if p xs) ≡ keep_if p xs
  unfolding keep_if
  keep_if-keep_if p [] = refl
  keep_if-keep_if p (x ∷ xs) = elim (Bool-cases (p x)) [
    | inl h ↦ rw h (rw h (rw (keep_if-keep_if p xs)))
    | inr h ↦ rw h (keep_if-keep_if p xs)
  ]

  -- Every element satisfies a predicate.
  abbrev pub Every : (A → Type ℓ) → List A → Type ℓ
  Every P [] = Unit
  Every P (x ∷ xs) = P x × Every P xs

  pub Every-mono :
      (P Q : A → Type ℓ) (xs : List A) → ((x : A) → P x → Q x) → Every P xs → Every Q xs
  Every-mono P Q [] f h = tt
  Every-mono P Q (x ∷ xs) f h = (f x h.0, Every-mono P Q xs f h.1)

  pub Every-both :
      (P Q : A → Type ℓ) (xs : List A) → Every P xs → Every Q xs → Every (λ x. P x × Q x) xs
  Every-both P Q [] h k = tt
  Every-both P Q (x ∷ xs) h k = ((h.0, k.0), Every-both P Q xs h.1 k.1)

  pub Every-keep_if :
      (p : A → Bool) (P : A → Type ℓ) (xs : List A) → Every P xs → Every P (keep_if p xs)
  unfolding keep_if
  Every-keep_if p P [] h = tt
  Every-keep_if p P (x ∷ xs) h = elim (Bool-cases (p x)) [
    | inl passes ↦ rw passes (h.0, Every-keep_if p P xs h.1)
    | inr fails ↦ rw fails (Every-keep_if p P xs h.1)
  ]

  -- Where two tests fail on every element, so does one that they refute.
  pub some_of-refuted :
      (p q r : A → Bool) (xs : List A)
      → ((x : A) → p x ≡ false → q x ≡ false → r x ≡ false)
      → some_of p xs ≡ false
      → some_of q xs ≡ false
      → some_of r xs ≡ false
  unfolding some_of
  some_of-refuted p q r [] f h k = refl
  some_of-refuted p q r (x ∷ xs) f h k =
      let (here, there) = or_false (p x) (some_of p xs) h in
      let (here', there') = or_false (q x) (some_of q xs) k in
      rw (f x here here') (some_of-refuted p q r xs f there there')
