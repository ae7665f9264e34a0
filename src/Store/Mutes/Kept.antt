-- ===== src/Store/Mutes/Kept.antt =====
-- A change that is not muted loses its muted fields and no other.
use tail_state.Prelude.{
  Bool, Bool-cases, Dict, List, Option, [], ap, arith, false, inl, inr, is_empty, keep_if, length,
  length-keep_if, lookup, nat_beq, nat_eq, not, refl, some_of, string_eq, sym, true, ◌&&◌, ◌∷◌, ◌≡◌,
}
use tail_state.Text.{Text, text_eq, text_ordered}
use tail_state.Store.Mutes.Evaluate.{
  MuteSet, evaluate, field_muted, has_no_mutes, is_changed, paths_of, unmuted_fields, whole_muted,
}
use tail_state.Model.{Change, Json}

keep_if-all :
    {A : Type 0} (p : A → Bool) (xs : List A)
    → nat_beq (length (keep_if p xs)) (length xs) ≡ true
    → keep_if p xs ≡ xs
unfolding keep_if
keep_if-all p [] h = refl
keep_if-all p (x ∷ xs) h = elim (Bool-cases (p x)) [
  | inl passes ↦ rw passes (ap (λ r. x ∷ r) (keep_if-all p xs (ground (arith, h, passes))))
  | inr fails ↦ absurd (ground (arith, h, fails, length-keep_if p xs))
]

keep_if-every :
    {A : Type 0} (p : A → Bool) (xs : List A) → ((x : A) → p x ≡ true) → keep_if p xs ≡ xs
unfolding keep_if
keep_if-every p [] h = refl
keep_if-every p (x ∷ xs) h = rw (h x) (ap (λ r. x ∷ r) (keep_if-every p xs h))

some_of-empty :
    {A : Type 0} (p : A → Bool) (xs : List A) → is_empty xs ≡ true → some_of p xs ≡ false
unfolding some_of
some_of-empty p [] h = refl
some_of-empty p (x ∷ xs) h = absurd (cc h)

-- Without rules for its collector, no field is muted.
unmuted_fields-all :
    (m : MuteSet) (change : Change)
    → is_empty (paths_of m.fields change.collector) ≡ true
    → unmuted_fields m change ≡ change.fields
unmuted_fields-all m change h =
    keep_if-every (λ f. not (field_muted m change.collector f.field)) change.fields
      (λ f. unfold field_muted in rw (some_of-empty _ (paths_of m.fields change.collector) h) refl)

paths_of-empty :
    (fields : Dict Text (List Text)) (collector : Text)
    → is_empty fields ≡ true
    → is_empty (paths_of fields collector) ≡ true
unfolding paths_of lookup
paths_of-empty [] collector h = refl
paths_of-empty (kv ∷ fields) collector h = absurd (cc h)

keep_if-empty : {A : Type 0} (p : A → Bool) (xs : List A) → is_empty xs ≡ true → keep_if p xs ≡ xs
unfolding keep_if
keep_if-empty p [] h = refl
keep_if-empty p (x ∷ xs) h = absurd (cc h)

-- A changed resource that is not muted as a whole keeps in the digest exactly the fields that no
-- rule mutes, and nothing else of the change is altered but their count.
pub evaluate-keeps :
    (m : MuteSet) (change : Change) (before after : Option Json)
    → is_changed change ≡ true
    → (evaluate m change before after).0 ≡ false
    → let kept = (evaluate m change before after).1 in
      (kept.fields ≡ unmuted_fields m change)
      × (record kept { fields = change.fields; total_fields = change.total_fields } ≡ change)
unfolding evaluate
evaluate-keeps m change before after is shown = elim (Bool-cases (has_no_mutes m)) [
  | inl idle ↦ rw idle (
    sym (
        unmuted_fields-all m change
          (paths_of-empty m.fields change.collector (ground (arith, idle)))),
    refl,
  )
  | inr active ↦ elim (Bool-cases (whole_muted m change before after)) [
    | inl whole ↦ absurd (cc (rw (active, whole) at shown))
    | inr part ↦ elim (Bool-cases (is_empty change.fields)) [
      | inl bare ↦ rw (active, part, is, bare) (sym (keep_if-empty _ change.fields bare), refl)
      | inr listed ↦ elim (Bool-cases (is_empty (paths_of m.fields change.collector))) [
        | inl free ↦
            rw (active, part, is, listed, free) (sym (unmuted_fields-all m change free), refl)
        | inr ruled ↦
            let kept = unmuted_fields m change in
            elim (Bool-cases (is_empty kept && not change.fields_truncated)) [
              | inl gone ↦ absurd (cc (rw (active, part, is, listed, ruled, gone) at shown))
              | inr left ↦ elim (Bool-cases (nat_beq (length kept) (length change.fields))) [
                | inl all ↦
                    rw (active, part, is, listed, ruled, left, all)
                      (sym (keep_if-all _ change.fields all), refl)
                | inr fewer ↦ rw (active, part, is, listed, ruled, left, fewer) (refl, refl)
              ]
            ]
      ]
    ]
  ]
]
