-- ===== src/Model/Diff/Agree.antt =====
-- internal/model/model.go: when two values have no difference to report.
pub mod Same
pub mod Exact
pub mod Report
use tail_state.Prelude.{
  List, Option, [], arith, lookup, nat_eq, none, refl, some, string_eq, suc, sym, true, zero, ℕ,
  ◌==◌, ◌∙◌, ◌≡◌,
}
use tail_state.Text.{Text, text_eq, text_ordered}
use tail_state.Model.{Json, Members, json_object, member}
use tail_state.Model.Diff.{DiffResult, child_path, diff_json, element_path}
use tail_state.Model.Diff.Walk.{
  both_lists, both_objects, compare_whole, diff, diff_keyed, index_by, keyed_lists, list_of,
}
use tail_state.Model.Diff.Views.{diff-keyed, diff-objects, diff-whole}
use tail_state.Model.Diff.Bounds.{for_each-Keeps}

compare_whole-same :
    (path : Text) (old new : Option Json) (result : DiffResult)
    → diff_json old ≡ diff_json new
    → compare_whole path old new result ≡ result
unfolding compare_whole
compare_whole-same path old new result same =
    let equal : diff_json old == diff_json new ≡ true =
      (text_eq.same_iff (diff_json old) (diff_json new)).1 same in
    rw equal refl

module _ (collector : Text) where
  -- Objects agree in every field, identified arrays in every identity, whatever their order, and
  -- all else as a whole, by its encoding.
  pub data Agree : Text → Option Json → Option Json → Type 0 where
    agree_fields :
        (path : Text) (ms ns : Members)
        → ((key : Text) → Agree (child_path path key) (member ms key) (member ns key))
        → Agree path (some (json_object ms)) (some (json_object ns))
    agree_elements :
        (path : Text) (old new : Option Json) (key : Text) (olds news : List Json)
        → both_objects old new ≡ none
        → keyed_lists collector path old new ≡ some (key, (olds, news))
        → ((id : Text)
            → Agree
                (element_path path id)
                (lookup (index_by key [] olds) id)
                (lookup (index_by key [] news) id))
        → Agree path old new
    agree_whole :
        (path : Text) (old new : Option Json)
        → both_objects old new ≡ none
        → keyed_lists collector path old new ≡ none
        → diff_json old ≡ diff_json new
        → Agree path old new

  keyed_lists-nothing : (path : Text) → keyed_lists collector path none none ≡ none
  unfolding keyed_lists both_lists list_of
  keyed_lists-nothing path = ground arith

  pub Agree-absent : (path : Text) → Agree path none none
  unfolding both_objects
  Agree-absent path = agree_whole path none none refl (keyed_lists-nothing path) refl

  -- Values that agree add nothing to a result.
  pub diff-Agree :
      (fuel : ℕ) (path : Text) (old new : Option Json) (result final : DiffResult)
      → Agree path old new
      → diff fuel collector path old new result ≡ some final
      → result ≡ final
  unfolding diff diff_keyed
  diff-Agree zero path old new result final a h = absurd (cc h)
  diff-Agree (suc fuel) path _ _ result final (agree_fields _ ms ns all) h =
      for_each-Keeps (λ s. result ≡ s) _ _ result final
        (λ key r s e k.
          k ∙ diff-Agree fuel (child_path path key) (member ms key) (member ns key) r s (all key) e)
        (sym (diff-objects fuel collector path _ _ result ms ns refl refl) ∙ h) refl
  diff-Agree (suc fuel) path old new result final
        (agree_elements _ _ _ key olds news plain keyed all) h =
      for_each-Keeps (λ s. result ≡ s) _ _ result final
        (λ id r s e k. k ∙ diff-Agree fuel (element_path path id) _ _ r s (all id) e)
        (sym (diff-keyed fuel collector path old new result key olds news plain keyed) ∙ h) refl
  diff-Agree (suc fuel) path old new result final (agree_whole _ _ _ plain whole same) h =
      sym (compare_whole-same path old new result same)
      ∙ cc (sym (diff-whole fuel collector path old new result plain whole) ∙ h)
