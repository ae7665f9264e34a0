-- ===== src/Expiry/Tightest.antt =====
-- Decreasing lists of windows, and the last of those that pass a test.
use mathlib.Core.Path.{subst}
use tail_state.Prelude.{
  Above, Bool, Bool-cases, Every, Increasing, List, [], ap, arith, contains, descending, false,
  if◌then◌else◌, inl, inr, is_empty, keep_if, ltb, nat_beq, nat_eq, not, refl, some_of, string_eq,
  true, ℕ, ◌&&◌, ◌<◌, ◌||◌, ◌∙◌, ◌∷◌, ◌≡◌,
}
use tail_state.Text.{text_eq, text_ordered}
use tail_state.Expiry.{tightest}

-- From the widest to the smallest, without repetitions.
abbrev pub IsDecreasing : List ℕ → Type 0
IsDecreasing [] = Unit
IsDecreasing (w ∷ ws) = Every (λ v. v < w) ws × IsDecreasing ws

pub Decreasing-of : (ws : List ℕ) → Increasing descending ws → IsDecreasing ws
Decreasing-of [] h = tt
Decreasing-of (w ∷ ws) h = (below ws h.0, Decreasing-of ws h.1)
  where
    below : (vs : List ℕ) → Above descending w vs → Every (λ v. v < w) vs
    below [] k = tt
    below (v ∷ vs) k = (ground (arith, k.0), below vs k.1)

module _ (p : ℕ → Bool) where
  keep_if-nothing : (ws : List ℕ) → is_empty (keep_if p ws) ≡ not (some_of p ws)
  unfolding keep_if some_of
  keep_if-nothing [] = refl
  keep_if-nothing (w ∷ ws) = elim (Bool-cases (p w)) [
    | inl passes ↦ rw passes refl
    | inr fails ↦ rw fails (keep_if-nothing ws)
  ]

  some_of-member : (ws : List ℕ) (w : ℕ) → contains ws w ≡ true → p w ≡ true → some_of p ws ≡ true
  unfolding contains some_of
  some_of-member [] w h k = absurd (cc h)
  some_of-member (v ∷ ws) w h k = ground (arith, h, k, some_of-member ws w)

  some_of-found :
      (ws : List ℕ) → some_of p ws ≡ true → (w : ℕ) × (contains ws w ≡ true) × (p w ≡ true)
  unfolding contains some_of
  some_of-found [] h = absurd (cc h)
  some_of-found (v ∷ ws) h = elim (Bool-cases (p v)) [
    | inl passes ↦ (v, ground arith, passes)
    | inr fails ↦
        let (w, there, passes) = some_of-found ws (rw fails at h) in
        (w, ground (arith, there), passes)
  ]

  -- Below a bound, the test of being below it says nothing.
  some_of-below :
      (w : ℕ) (ws : List ℕ)
      → Every (λ v. v < w) ws
      → some_of (λ v. ltb v w && p v) ws ≡ some_of p ws
  unfolding some_of
  some_of-below w [] h = refl
  some_of-below w (v ∷ ws) h =
      let here : ltb v w ≡ true = ground (arith, h.0) in
      rw here (ap (λ b. p v || b) (some_of-below w ws h.1))

contains-below :
    (w : ℕ) (ws : List ℕ) → Every (λ v. v < w) ws → (a : ℕ) → contains ws a ≡ true → a < w
unfolding contains
contains-below w [] h a k = absurd (cc k)
contains-below w (v ∷ ws) h a k = elim (Bool-cases (nat_beq v a)) [
  | inl same ↦ ground (arith, same, h.0)
  | inr other ↦ contains-below w ws h.1 a (ground (arith, other, k))
]

-- The last of a list is the given number.
abbrev pub is_last : ℕ → List ℕ → Bool
is_last w [] = false
is_last w (v ∷ vs) = nat_beq (tightest (v ∷ vs)) w

is_last-cons :
    (w v : ℕ) (vs : List ℕ)
    → is_last w (v ∷ vs) ≡ (if is_empty vs then nat_beq v w else is_last w vs)
is_last-cons w v [] = refl
is_last-cons w v (u ∷ vs) = refl

-- Putting a number in front that fails the test, or one that passes it.
last_behind :
    (x w : ℕ) (last here passes smaller : Bool)
    → nat_beq x w ≡ false
    → last ≡ (here && passes && not smaller)
    → last ≡ ((nat_beq x w || here) && passes && not (ltb x w && false || smaller))
last_behind x w last here passes smaller other h = ground (arith, other, h)

last_after :
    (x w : ℕ) (whole last here passes smaller any : Bool)
    → nat_beq x w ≡ false
    → last ≡ (here && passes && not smaller)
    → whole ≡ (if not any then nat_beq x w else last)
    → (here ≡ true → passes ≡ true → any ≡ true)
    → (here ≡ true → w < x)
    → whole ≡ ((nat_beq x w || here) && passes && not (ltb x w && true || smaller))
last_after x w whole last here passes smaller any other h is member below =
    ground (arith, other, h, is, member, below)

module _ (p : ℕ → Bool) where
  -- In a decreasing list the last number that passes a test is the one below which none does.
  unfoldable pub IsTightest : ℕ → List ℕ → Type 0
  IsTightest w ws =
      is_last w (keep_if p ws) ≡ (contains ws w && p w && not (some_of (λ v. ltb v w && p v) ws))

  is_last-head :
      (x : ℕ) (ws : List ℕ) → Every (λ v. v < x) ws → IsTightest x ws → IsTightest x (x ∷ ws)
  unfolding IsTightest keep_if some_of contains
  is_last-head x ws below rest =
      let absent : contains ws x ≡ false = elim (Bool-cases (contains ws x)) [
        | inl there ↦ absurd (omega (arith, contains-below x ws below x there))
        | inr out ↦ out
      ] in
      elim (Bool-cases (p x)) [
        | inl passes ↦ rw passes (
            ground (
              arith,
              is_last-cons x x (keep_if p ws),
              keep_if-nothing p ws,
              rest,
              absent,
              some_of-below p x ws below,
            ))
        | inr fails ↦ rw fails (ground (arith, rest, absent))
      ]

  is_last-other :
      (x w : ℕ) (ws : List ℕ)
      → Every (λ v. v < x) ws
      → nat_beq x w ≡ false
      → IsTightest w ws
      → IsTightest w (x ∷ ws)
  unfolding IsTightest keep_if some_of contains
  is_last-other x w ws below other rest = elim (Bool-cases (p x)) [
    | inl passes ↦ rw passes (
        last_after x w (is_last w (x ∷ keep_if p ws)) (is_last w (keep_if p ws)) (contains ws w)
          (p w) (some_of (λ v. ltb v w && p v) ws) (some_of p ws) other rest
          (is_last-cons w x (keep_if p ws)
            ∙ ap (λ b. if b then nat_beq x w else is_last w (keep_if p ws)) (keep_if-nothing p ws))
          (some_of-member p ws w) (contains-below x ws below w))
    | inr fails ↦ rw fails (
        last_behind x w (is_last w (keep_if p ws)) (contains ws w) (p w)
          (some_of (λ v. ltb v w && p v) ws) other rest)
  ]

  pub is_last-IsTightest : (w : ℕ) (ws : List ℕ) → IsDecreasing ws → IsTightest w ws
  unfolding IsTightest
  is_last-IsTightest w [] h = unfold keep_if contains in refl
  is_last-IsTightest w (x ∷ ws) h = elim (Bool-cases (nat_beq x w)) [
    | inl same ↦
        let e : x ≡ w = ground (arith, same) in
        subst (λ y. IsTightest y (x ∷ ws)) e (is_last-head x ws h.0 (is_last-IsTightest x ws h.1))
    | inr other ↦ is_last-other x w ws h.0 other (is_last-IsTightest w ws h.1)
  ]

-- Two lists of windows with the same positive ones.
pub some_of-positive :
    (p : ℕ → Bool) (ws windows : List ℕ)
    → ((v : ℕ) → contains ws v ≡ (contains windows v && ltb 0 v))
    → some_of p ws ≡ some_of (λ v. ltb 0 v && p v) windows
some_of-positive p ws windows same = elim (Bool-cases (some_of p ws)) [
  | inl found ↦
      let (v, there, passes) = some_of-found p ws found in
      ground (
        arith,
        found,
        some_of-member (λ u. ltb 0 u && p u) windows v (ground (arith, same v, there))
            (ground (arith, same v, there, passes)),
      )
  | inr nothing ↦ elim (Bool-cases (some_of (λ v. ltb 0 v && p v) windows)) [
    | inl found ↦
        let (v, there, passes) = some_of-found (λ u. ltb 0 u && p u) windows found in
        absurd (
          ground (
            arith,
            nothing,
            some_of-member p ws v (ground (arith, same v, there, passes)) (ground (arith, passes)),
          ))
    | inr none_there ↦ ground (arith, nothing, none_there)
  ]
]
