-- ===== src/Model/Diff/Bounds.antt =====
-- internal/model/model.go: the bound on the fields of a diff, and the count of those beyond it.
use tail_state.Prelude.{
  ap, List, Option, Option-cases, [], bind_some, inl, inr, length, lookup, ltb, nat_eq, some,
  string_eq, suc, sym, take, zero, ℕ, ◌∙◌, ◌∷◌, ◌≡◌,
}
use tail_state.Text.{Text, text_eq, text_ordered}
use tail_state.Model.{FieldChange, Json, member}
use tail_state.Model.Diff.{DiffResult, child_path, element_path}
use tail_state.Model.Diff.Walk.{compare_whole, diff, diff_keyed, for_each, index_by, keyed_lists}
use tail_state.Model.Diff.Views.{both_objects-from, diff-keyed, diff-objects, diff-whole}
use tail_state.Model.Diff.Depth.{diff_detailed_for}
use tail_state.Model.Diff.Listing.{all_differences, diff_detailed_for-reported, reported}

module _ (Keeps : DiffResult → Type 0) where
  pub for_each-Keeps :
      (keys : List Text) (step : Text → DiffResult → Option DiffResult) (result final : DiffResult)
      → ((key : Text) (r s : DiffResult) → step key r ≡ some s → Keeps r → Keeps s)
      → for_each keys step result ≡ some final
      → Keeps result
      → Keeps final
  unfolding for_each
  for_each-Keeps [] step result final keep h k = let e : result ≡ final = cc h in rw (← e) k
  for_each-Keeps (key ∷ keys) step result final keep h k =
      let (next, runs, rest) = bind_some (step key result) (for_each keys step) h in
      for_each-Keeps keys step next final keep rest (keep key result next runs k)

  -- What one comparison keeps, the whole diff keeps.
  pub diff-Keeps :
      ((path : Text) (old new : Option Json) (r : DiffResult)
        → Keeps r
        → Keeps (compare_whole path old new r))
      → (fuel : ℕ) (collector path : Text) (old new : Option Json) (result final : DiffResult)
      → diff fuel collector path old new result ≡ some final
      → Keeps result
      → Keeps final
  unfolding diff diff_keyed
  diff-Keeps keep zero collector path old new result final h k = absurd (cc h)
  diff-Keeps keep (suc fuel) collector path old new result final h k =
      elim (both_objects-from old new) [
        | inr (ms, ns, e, f) ↦
            for_each-Keeps _ _ result final
              (λ key r s.
                diff-Keeps keep fuel collector (child_path path key) (member ms key) (member ns key)
                  r s)
              (sym (diff-objects fuel collector path old new result ms ns e f) ∙ h) k
        | inl plain ↦ elim (Option-cases (keyed_lists collector path old new)) [
          | inl whole ↦
              let e : compare_whole path old new result ≡ final =
                cc (sym (diff-whole fuel collector path old new result plain whole) ∙ h) in
              rw (← e) (keep path old new result k)
          | inr ((key, (olds, news)), keyed) ↦
              for_each-Keeps _ _ result final
                (λ id r s.
                  diff-Keeps keep fuel collector (element_path path id)
                    (lookup (index_by key [] olds) id) (lookup (index_by key [] news) id) r s)
                (sym (diff-keyed fuel collector path old new result key olds news plain keyed) ∙ h)
                k
        ]
      ]

-- `DiffDetailedFor` reports of the list of all differences, which has no bound, the first 24, in its
-- order; it says that it is cut exactly if there are more, and counts all of them.
pub diff_detailed_for-IsBounded :
    (decode : Text → Option Json) (collector old_raw new_raw : Text) (result : DiffResult)
    → diff_detailed_for decode collector old_raw new_raw ≡ some result
    → (all : List FieldChange) × (all_differences decode collector old_raw new_raw ≡ some all)
      × (result.fields ≡ take 24 all)
      × (result.fields_truncated ≡ ltb 24 (length all))
      × (result.total_fields ≡ length all)
diff_detailed_for-IsBounded decode collector old_raw new_raw result h =
    let listed = diff_detailed_for-reported decode collector old_raw new_raw in
    let (all, there, same) =
      bind_some (all_differences decode collector old_raw new_raw) (λ ds. some (reported ds))
        (sym listed ∙ h) in
    let is : reported all ≡ result = cc same in
    (
      all,
      there,
      ap (λ r. r.fields) (sym is),
      ap (λ r. r.fields_truncated) (sym is),
      ap (λ r. r.total_fields) (sym is),
    )
