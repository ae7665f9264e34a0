-- ===== src/Text/Fold.antt =====
-- Trimming and folding are idempotent and commute.
use tail_state.Prelude.{Bool-cases, [], ap₂, arith, inl, inr, is_empty, refl, ℕ, ◌&&◌, ◌∷◌, ◌≡◌}
use tail_state.Text.{Text, is_space, lower_byte, to_lower, trim_left, trim_right, trim_space}

lower_byte_idem : (c : ℕ) → lower_byte (lower_byte c) ≡ lower_byte c
lower_byte_idem c = ground arith

is_space-lower_byte : (c : ℕ) → is_space (lower_byte c) ≡ is_space c
is_space-lower_byte c = ground arith

pub to_lower_idem : (s : Text) → to_lower (to_lower s) ≡ to_lower s
unfolding to_lower
to_lower_idem [] = refl
to_lower_idem (c ∷ s) = ap₂ ◌∷◌ (lower_byte_idem c) (to_lower_idem s)

trim_left-to_lower : (s : Text) → trim_left (to_lower s) ≡ to_lower (trim_left s)
unfolding trim_left to_lower
trim_left-to_lower [] = refl
trim_left-to_lower (c ∷ s) = elim (Bool-cases (is_space c)) [
  | inl t ↦ rw is_space-lower_byte (rw t (trim_left-to_lower s))
  | inr f ↦ rw is_space-lower_byte (rw f)
]

is_empty-to_lower : (s : Text) → is_empty (to_lower s) ≡ is_empty s
unfolding to_lower
is_empty-to_lower [] = refl
is_empty-to_lower (c ∷ s) = refl

trim_right-to_lower : (s : Text) → trim_right (to_lower s) ≡ to_lower (trim_right s)
unfolding trim_right to_lower
trim_right-to_lower [] = refl
trim_right-to_lower (c ∷ s) =
    rw (trim_right-to_lower s, is_space-lower_byte, is_empty-to_lower)
      (elim (Bool-cases (is_space c && is_empty (trim_right s))) [ inl t ↦ rw t | inr f ↦ rw f ])

pub trim_space-to_lower : (s : Text) → trim_space (to_lower s) ≡ to_lower (trim_space s)
unfolding trim_space
trim_space-to_lower s = rw trim_right-to_lower (trim_left-to_lower (trim_right s))

trim_left_idem : (s : Text) → trim_left (trim_left s) ≡ trim_left s
unfolding trim_left
trim_left_idem [] = refl
trim_left_idem (c ∷ s) = elim (Bool-cases (is_space c)) [
  | inl t ↦ rw t (trim_left_idem s)
  | inr f ↦ rw f (rw f)
]

trim_right_idem : (s : Text) → trim_right (trim_right s) ≡ trim_right s
unfolding trim_right
trim_right_idem [] = refl
trim_right_idem (c ∷ s) = elim (Bool-cases (is_space c && is_empty (trim_right s))) [
  | inl t ↦ rw t
  | inr f ↦ rw f (rw (trim_right_idem s) (rw f))
]

-- Trimming on the left leaves a text that is trimmed on the right so.
trim_right-trim_left : (s : Text) → trim_right s ≡ s → trim_right (trim_left s) ≡ trim_left s
unfolding trim_left trim_right
trim_right-trim_left [] h = refl
trim_right-trim_left (c ∷ s) h = elim (Bool-cases (is_space c)) [
  | inl t ↦ rw t (trim_right-trim_left s (ground arith))
  | inr f ↦ rw f h
]

pub trim_space_idem : (s : Text) → trim_space (trim_space s) ≡ trim_space s
unfolding trim_space
trim_space_idem s =
    rw (trim_right-trim_left (trim_right s) (trim_right_idem s)) (trim_left_idem (trim_right s))
