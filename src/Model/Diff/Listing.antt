-- ===== src/Model/Diff/Listing.antt =====
-- internal/model/model.go: all differences of two values, listed without a result to extend, without
-- a bound and without a count: what the bounded result of `differ.diff` is compared with.
use tail_state.Prelude.{
  Bool-cases, List, Option, Option-cases, [], ap, arith, false, if◌then◌else◌, inl, inr, is_empty,
  length, length-append, length-take, lookup, ltb, ltb→lt, nat_eq, none, refl, some, sort,
  sorted_set, string_eq, suc, sym, take, true, zero, ℕ, ◌++◌, ◌+◌, ◌<◌, ◌==◌, ◌>>=◌, ◌∙◌, ◌∷◌, ◌≡◌,
  ◌≤◌,
}
use tail_state.Text.{Text, eq_text, str, text_eq, text_ordered}
use tail_state.Model.{FieldChange, Json, Members, json_object, json_string, member}
use tail_state.Model.Encoding.{before, keys_of}
use tail_state.Model.Diff.{
  DiffResult, child_path, diff_json, element_path, max_diff_fields, value_change,
}
use tail_state.Model.Diff.Walk.{
  both_objects, compare_whole, diff, diff_keyed, element_ids, for_each, index_by, keyed_lists,
}
use tail_state.Model.Diff.Views.{both_objects-from, diff-keyed, diff-objects, diff-whole}
use tail_state.Model.Diff.Depth.{diff_decoded, diff_detailed_for, fuel_for}

-- The lists of all keys, one after the other.
unfoldable pub listed_each :
    List Text → (Text → Option (List FieldChange)) → Option (List FieldChange)
listed_each [] list = some []
listed_each (key ∷ keys) list =
    list key >>= (λ here. listed_each keys list >>= (λ rest. some (here ++ rest)))

-- Two values that differ as a whole are one difference.
unfoldable pub whole_difference : Text → Option Json → Option Json → List FieldChange
unfolding diff_json value_change eq_text
whole_difference path old new =
    if diff_json old == diff_json new
    then []
    else value_change (if is_empty path then str "value" else path) old new ∷ []

-- The differences of two objects are those of each of their keys, those of two identified arrays
-- those of each identity.
unfoldable pub differences : ℕ → Text → Text → Option Json → Option Json → Option (List FieldChange)
unfolding sorted_set keys_of member both_objects keyed_lists element_ids index_by lookup sort
    element_path listed_each whole_difference
differences zero collector path old new = none
differences (suc fuel) collector path old new = elim (both_objects old new) [
  | some (ms, ns) ↦
      listed_each (sorted_set text_ordered (keys_of ms ++ keys_of ns))
        (λ key. differences fuel collector (child_path path key) (member ms key) (member ns key))
  | none ↦ elim (keyed_lists collector path old new) [
    | some (key, (olds, news)) ↦ listed_each (sort text_ordered (element_ids key olds news)) (λ id.
        differences fuel collector (element_path path id) (lookup (index_by key [] olds) id)
          (lookup (index_by key [] news) id))
    | none ↦ some (whole_difference path old new)
  ]
]

-- What is reported of a list of differences: the first 24, whether there are more, and how many
-- there are.
abbrev pub reported : List FieldChange → DiffResult
reported all = record {
  fields = take max_diff_fields all;
  fields_truncated = ltb max_diff_fields (length all);
  total_fields = length all;
}

-- Values of which one cannot be decoded are one difference, of their raw texts.
unfoldable pub decoded_differences :
    Text → Text → Text → Option Json → Option Json → Option (List FieldChange)
unfolding differences
decoded_differences collector old_raw new_raw (some old) (some new) =
    differences (fuel_for old new) collector [] (some old) (some new)
decoded_differences collector old_raw new_raw _ _ =
    some (value_change (str "value") (some (json_string old_raw)) (some (json_string new_raw)) ∷ [])

unfoldable pub all_differences :
    (Text → Option Json) → Text → Text → Text → Option (List FieldChange)
unfolding decoded_differences
all_differences decode collector old_raw new_raw =
    decoded_differences collector old_raw new_raw (decode old_raw) (decode new_raw)

-- One more field, of those that are kept.
take-one_more :
    (n : ℕ) (all : List FieldChange) (d : FieldChange)
    → (length all < n → take n (all ++ d ∷ []) ≡ take n all ++ d ∷ [])
      × (n ≤ length all → take n (all ++ d ∷ []) ≡ take n all)
take-one_more zero all d = (λ h. absurd (omega arith), λ h. refl)
take-one_more (suc n) [] d = (λ h. take-nil n, λ h. absurd (omega arith))
  where
    take-nil : (m : ℕ) → take (suc m) (d ∷ []) ≡ d ∷ []
    take-nil zero = refl
    take-nil (suc m) = refl
take-one_more (suc n) (x ∷ all) d = (
  λ h. ap (λ r. x ∷ r) ((take-one_more n all d).0 (omega (arith, h))),
  λ h. ap (λ r. x ∷ r) ((take-one_more n all d).1 (omega (arith, h))),
)

append_nil : (a : List FieldChange) → a ≡ a ++ []
append_nil [] = refl
append_nil (x ∷ a) = ap (λ r. x ∷ r) (append_nil a)

append_assoc : (a b c : List FieldChange) → (a ++ b) ++ c ≡ a ++ (b ++ c)
append_assoc [] b c = refl
append_assoc (x ∷ a) b c = ap (λ r. x ∷ r) (append_assoc a b c)

compare_whole-reported :
    (path : Text) (old new : Option Json) (before : List FieldChange)
    → compare_whole path old new (reported before)
      ≡ reported (before ++ whole_difference path old new)
unfolding compare_whole whole_difference
compare_whole-reported path old new before = elim (Bool-cases (diff_json old == diff_json new)) [
  | inl same ↦ rw same (ap reported (append_nil before))
  | inr differs ↦
      let d = value_change (if is_empty path then str "value" else path) old new in
      elim (Bool-cases (ltb (length before) 24)) [
        | inl room ↦
            let short = ltb→lt (length before) 24 room in
            let kept : ltb (length (take 24 before)) 24 ≡ true =
              ground (arith, length-take 24 before, short) in
            let uncut : ltb 24 (length before) ≡ false = ground (arith, short) in
            let still : ltb 24 (length before + 1) ≡ false = ground (arith, short) in
            rw (differs, kept, length-append, (take-one_more 24 before d).0 short)
              (rw (uncut, still) refl)
        | inr full ↦
            let long : 24 ≤ length before = ground (arith, full) in
            let kept : ltb (length (take 24 before)) 24 ≡ false =
              ground (arith, length-take 24 before, long) in
            let cut : ltb 24 (length before + 1) ≡ true = ground (arith, long) in
            rw (differs, kept, length-append, (take-one_more 24 before d).1 long) (rw cut refl)
      ]
]

for_each-reported :
    (keys : List Text) (step : Text → DiffResult → Option DiffResult)
    (list : Text → Option (List FieldChange)) (before : List FieldChange)
    → ((key : Text) (b : List FieldChange)
        → step key (reported b) ≡ (list key >>= (λ here. some (reported (b ++ here)))))
    → for_each keys step (reported before)
      ≡ (listed_each keys list >>= (λ all. some (reported (before ++ all))))
unfolding for_each listed_each
for_each-reported [] step list before each = ap (λ b. some (reported b)) (append_nil before)
for_each-reported (key ∷ keys) step list before each =
    rw (each key before) (elim (Option-cases (list key)) [
      | inl stopped ↦ rw stopped refl
      | inr (here, made) ↦ rw made (
          for_each-reported keys step list (before ++ here) each
          ∙ (elim (Option-cases (listed_each keys list)) [
            | inl stopped ↦ rw stopped refl
            | inr (rest, others) ↦
                rw others (ap (λ b. some (reported b)) (append_assoc before here rest))
          ]))
    ])

module _ (fuel : ℕ) (collector path : Text) (old new : Option Json) where
  differences-objects :
      (ms ns : Members)
      → old ≡ some (json_object ms)
      → new ≡ some (json_object ns)
      → differences (suc fuel) collector path old new
        ≡ listed_each (sorted_set text_ordered (keys_of ms ++ keys_of ns)) (λ key.
          differences fuel collector (child_path path key) (member ms key) (member ns key))
  unfolding differences both_objects
  differences-objects ms ns e f = rw (e, f) refl

  differences-keyed :
      (key : Text) (olds news : List Json)
      → both_objects old new ≡ none
      → keyed_lists collector path old new ≡ some (key, (olds, news))
      → differences (suc fuel) collector path old new
        ≡ listed_each (sort text_ordered (element_ids key olds news)) (λ id.
          differences fuel collector
            (element_path path id)
            (lookup (index_by key [] olds) id)
            (lookup (index_by key [] news) id))
  unfolding differences
  differences-keyed key olds news plain keyed =
      rw (plain, differences) (rw (keyed, differences) refl)

  differences-whole :
      both_objects old new ≡ none
      → keyed_lists collector path old new ≡ none
      → differences (suc fuel) collector path old new ≡ some (whole_difference path old new)
  unfolding differences
  differences-whole plain whole = rw (plain, differences) (rw (whole, differences) refl)

-- A diff that extends what is reported of some differences reports them and those of its values.
pub diff-reported :
    (fuel : ℕ) (collector path : Text) (old new : Option Json) (before : List FieldChange)
    → diff fuel collector path old new (reported before)
      ≡ (differences fuel collector path old new >>= (λ all. some (reported (before ++ all))))
unfolding diff diff_keyed differences
diff-reported zero collector path old new before = refl
diff-reported (suc fuel) collector path old new before =
    let report =
      λ (o : Option (List FieldChange)). o >>= (λ all. some (reported (before ++ all))) in
    elim (both_objects-from old new) [
      | inr (ms, ns, e, f) ↦
          diff-objects fuel collector path old new (reported before) ms ns e f
          ∙ for_each-reported (sorted_set text_ordered (keys_of ms ++ keys_of ns)) _ _ before
              (λ key b.
                diff-reported fuel collector (child_path path key) (member ms key) (member ns key)
                  b)
          ∙ sym (ap report (differences-objects fuel collector path old new ms ns e f))
      | inl plain ↦ elim (Option-cases (keyed_lists collector path old new)) [
        | inl whole ↦
            diff-whole fuel collector path old new (reported before) plain whole
            ∙ ap some (compare_whole-reported path old new before)
            ∙ sym (ap report (differences-whole fuel collector path old new plain whole))
        | inr ((key, (olds, news)), keyed) ↦
            diff-keyed fuel collector path old new (reported before) key olds news plain keyed
            ∙ for_each-reported (sort text_ordered (element_ids key olds news)) _ _ before (λ id b.
              diff-reported fuel collector (element_path path id) (lookup (index_by key [] olds) id)
                (lookup (index_by key [] news) id) b)
            ∙ sym (
                ap report (differences-keyed fuel collector path old new key olds news plain keyed))
      ]
    ]

diff_decoded-reported :
    (collector old_raw new_raw : Text) (old new : Option Json)
    → diff_decoded collector old_raw new_raw old new
      ≡ (decoded_differences collector old_raw new_raw old new >>= (λ all. some (reported all)))
unfolding diff_decoded decoded_differences
diff_decoded-reported collector old_raw new_raw (some old) (some new) =
    diff-reported (fuel_for old new) collector [] (some old) (some new) []
diff_decoded-reported collector old_raw new_raw _ _ = refl

pub diff_detailed_for-reported :
    (decode : Text → Option Json) (collector old_raw new_raw : Text)
    → diff_detailed_for decode collector old_raw new_raw
      ≡ (all_differences decode collector old_raw new_raw >>= (λ all. some (reported all)))
unfolding diff_detailed_for all_differences
diff_detailed_for-reported decode collector old_raw new_raw =
    diff_decoded-reported collector old_raw new_raw (decode old_raw) (decode new_raw)
