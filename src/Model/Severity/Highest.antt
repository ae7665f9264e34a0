-- ===== src/Model/Severity/Highest.antt =====
-- A device change takes the highest severity of its fields.
use tail_state.Prelude.{
  Bool, Bool-cases, List, [], ap, arith, false, if◌then◌else◌, inl, inr, is_empty, max, nat_eq,
  refl, string_eq, true, ℕ, ◌&&◌, ◌∙◌, ◌∷◌, ◌≡◌, ◌≤◌, ◌⊎◌,
}
use tail_state.Text.{eq_text, text_eq, text_ordered}
use tail_state.Model.{Change, FieldChange}
use tail_state.Model.Severity.{
  Severity, classify_device_fields, device_loop, is_high_field, is_low_field, rank, severity_high,
  severity_low, severity_medium,
}

-- The severity of one device field.
unfoldable pub field_severity : FieldChange → Severity
field_severity f =
    if is_high_field f
    then severity_high
    else if is_low_field f
    then severity_low
    else severity_medium

-- The highest rank of the fields, or that of low.
unfoldable pub highest_rank : List FieldChange → ℕ
highest_rank [] = 1
highest_rank (f ∷ fields) = max (rank (field_severity f)) (highest_rank fields)

rank_low : rank severity_low ≡ 1
unfolding rank eq_text
rank_low = refl

rank_medium : rank severity_medium ≡ 2
unfolding rank eq_text
rank_medium = refl

rank_high : rank severity_high ≡ 3
unfolding rank eq_text
rank_high = refl

-- The rank of one field.
field_rank-cases :
    (f : FieldChange)
    → ((is_high_field f ≡ true) × (rank (field_severity f) ≡ 3))
      ⊎ ((is_high_field f ≡ false) × (is_low_field f ≡ true) × (rank (field_severity f) ≡ 1))
      ⊎ ((is_high_field f ≡ false) × (is_low_field f ≡ false) × (rank (field_severity f) ≡ 2))
unfolding field_severity
field_rank-cases f = elim (Bool-cases (is_high_field f)) [
  | inl high ↦ inl (high, rw high rank_high)
  | inr lower ↦ elim (Bool-cases (is_low_field f)) [
    | inl low ↦ inr (inl (lower, low, rw lower (rw low rank_low)))
    | inr other ↦ inr (inr (lower, other, rw lower (rw other rank_medium)))
  ]
]

-- The rank as a bound that the loop keeps.
highest_rank-bounds :
    (fields : List FieldChange) → (highest_rank fields ≤ 3) × (1 ≤ highest_rank fields)
unfolding highest_rank
highest_rank-bounds [] = (omega arith, omega arith)
highest_rank-bounds (f ∷ fields) =
    let (below, above) = highest_rank-bounds fields in
    elim (field_rank-cases f) [
      | inl (_, is) ↦ rw is (omega (arith, below, above), omega (arith, below, above))
      | inr (inl (_, _, is)) ↦ rw is (omega (arith, below, above), omega (arith, below, above))
      | inr (inr (_, _, is)) ↦ rw is (omega (arith, below, above), omega (arith, below, above))
    ]

device_loop-medium :
    (fields : List FieldChange)
    → rank (device_loop severity_medium fields) ≡ max 2 (highest_rank fields)
unfolding device_loop highest_rank
device_loop-medium [] = rank_medium
device_loop-medium (f ∷ fields) =
    let (below, above) = highest_rank-bounds fields in
    let rest = device_loop-medium fields in
    elim (field_rank-cases f) [
      | inl (high, is) ↦ rw (high, is) (rank_high ∙ omega (arith, below))
      | inr (inl (lower, low, is)) ↦ rw (lower, low, is) (rest ∙ omega (arith, above))
      | inr (inr (lower, other, is)) ↦ rw (lower, other, is) (rest ∙ omega (arith, above))
    ]

device_loop-low :
    (fields : List FieldChange) → rank (device_loop severity_low fields) ≡ highest_rank fields
unfolding device_loop highest_rank
device_loop-low [] = rank_low
device_loop-low (f ∷ fields) =
    let (below, above) = highest_rank-bounds fields in
    elim (field_rank-cases f) [
      | inl (high, is) ↦ rw (high, is) (rank_high ∙ omega (arith, below))
      | inr (inl (lower, low, is)) ↦
          rw (lower, low, is) (device_loop-low fields ∙ omega (arith, above))
      | inr (inr (lower, other, is)) ↦ rw (lower, other, is) (device_loop-medium fields)
    ]

-- Only `low` among the results of the loop has the lowest rank.
abbrev Result : Severity → Type 0
Result s =
    ((eq_text s severity_low ≡ true) × (rank s ≡ 1))
    ⊎ ((eq_text s severity_low ≡ false) × (2 ≤ rank s))

device_loop-Result :
    (severity : Severity) (fields : List FieldChange)
    → Result severity
    → Result (device_loop severity fields)
unfolding device_loop
device_loop-Result severity [] h = h
device_loop-Result severity (f ∷ fields) h = elim (Bool-cases (is_high_field f)) [
  | inl high ↦ rw high (inr (unfold eq_text in refl, rw rank_high (omega arith)))
  | inr lower ↦ elim (Bool-cases (is_low_field f)) [
    | inl low ↦ rw lower (rw low (device_loop-Result severity fields h))
    | inr other ↦ rw lower (
        rw other (
          device_loop-Result severity_medium fields
            (inr (unfold eq_text in refl, rw rank_medium (omega arith)))))
  ]
]

rank_at_least_medium :
    (s : Severity) (cut : Bool)
    → Result s
    → rank (if cut && eq_text s severity_low then severity_medium else s)
      ≡ max (if cut then 2 else 1) (rank s)
rank_at_least_medium s true (inl (low, one)) = rw (low, one) rank_medium
rank_at_least_medium s true (inr (other, least)) = rw other (omega (arith, least))
rank_at_least_medium s false (inl (low, one)) = rw one (omega arith)
rank_at_least_medium s false (inr (other, least)) = omega (arith, least)

-- A device change with fields ranks as the highest of them, and at least as medium when its list
-- of fields was cut; a device change without fields is medium.
pub classify_device_fields-highest :
    (change : Change)
    → rank (classify_device_fields change) ≡ (
        if is_empty change.fields
        then 2
        else max (if change.fields_truncated then 2 else 1) (highest_rank change.fields))
unfolding classify_device_fields
classify_device_fields-highest change =
    let result = device_loop severity_low change.fields in
    elim (Bool-cases (is_empty change.fields)) [
      | inl none_left ↦ rw none_left rank_medium
      | inr listed ↦ rw listed (
          rank_at_least_medium result change.fields_truncated
            (device_loop-Result severity_low change.fields (inl (unfold eq_text in refl, rank_low)))
          ∙ ap (λ r. max (if change.fields_truncated then 2 else 1) r)
              (device_loop-low change.fields))
    ]
