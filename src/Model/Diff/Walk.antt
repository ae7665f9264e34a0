-- ===== src/Model/Diff/Walk.antt =====
-- `differ.diff` and `diffKeyed` of internal/model/model.go: the comparison of two decoded values.
-- The recursion is on fuel, which `Depth` proves to be enough.
use tail_state.Prelude.{
  Bool, Dict, List, Option, [], false, has, if◌then◌else◌, insert, is_empty, keep_if, length,
  lookup, ltb, map, nat_eq, none, not, some, sort, sorted_set, string_eq, suc, true, zero, ℕ, ◌&&◌,
  ◌++◌, ◌+◌, ◌==◌, ◌>>=◌, ◌∷◌,
}
use tail_state.Text.{Text, eq_text, str, text_eq, text_ordered}
use tail_state.Model.{Json, Members, json_array, json_null, json_object, member}
use tail_state.Model.Encoding.{elements_of, keys_of}
use tail_state.Model.Diff.{
  DiffResult, array_identity, child_path, diff_json, element_identity, element_path,
  max_diff_fields, ordered_array, value_change,
}

-- `id, _ := elementIdentity(key, element)`
unfoldable pub identity_text : Text → Json → Text
unfolding element_identity
identity_text key value = elim (element_identity key value) [ none ↦ [] | some id ↦ id ]

-- The elements in a map by their identities.
unfoldable pub index_by : Text → Dict Text Json → List Json → Dict Text Json
unfolding insert identity_text
index_by key index [] = index
index_by key index (value ∷ list) = index_by key (insert index (identity_text key value) value) list

-- The identities of the old elements, and those of the new ones that no old one has.
unfoldable pub element_ids : Text → List Json → List Json → List Text
unfolding has keep_if index_by identity_text
element_ids key olds news =
    map (identity_text key) olds
    ++ keep_if (λ id. not (has (index_by key [] olds) id)) (map (identity_text key) news)

-- A loop whose steps extend the result.
unfoldable pub for_each :
    List Text → (Text → DiffResult → Option DiffResult) → DiffResult → Option DiffResult
for_each [] step result = some result
for_each (key ∷ keys) step result = step key result >>= for_each keys step

-- `diffKeyed`, where `step` compares two elements.
unfoldable pub diff_keyed :
    (Text → Option Json → Option Json → DiffResult → Option DiffResult)
    → Text
    → Text
    → List Json
    → List Json
    → DiffResult
    → Option DiffResult
unfolding element_ids index_by lookup sort for_each element_path
diff_keyed step path key olds news result =
    let old_by_id = index_by key [] olds in
    let new_by_id = index_by key [] news in
    for_each (sort text_ordered (element_ids key olds news))
      (λ id. step (element_path path id) (lookup old_by_id id) (lookup new_by_id id)) result

-- Both values are present and objects.
unfoldable pub both_objects : Option Json → Option Json → Option (Members × Members)
both_objects (some (json_object ms)) (some (json_object ns)) = some (ms, ns)
both_objects _ _ = none

unfoldable pub list_of : Option Json → Option (List Json)
unfolding elements_of
list_of (some (json_array xs)) = some (elements_of xs)
list_of _ = none

-- `value == nil`: absent or null.
abbrev pub is_nil : Option Json → Bool
is_nil none = true
is_nil (some json_null) = true
is_nil _ = false

-- A list that appears from nothing or disappears has an empty list beside it.
unfoldable pub from_nothing : Text → Option Json → List Json → Bool
from_nothing path other list = not (is_empty path) && is_nil other && not (is_empty list)

-- The two lists to compare.
unfoldable pub both_lists : Text → Option Json → Option Json → Option (List Json × List Json)
unfolding list_of from_nothing
both_lists path old new = elim (list_of old) [
  | some olds ↦ elim (list_of new) [
    | some news ↦ some (olds, news)
    | none ↦ if from_nothing path new olds then some (olds, []) else none
  ]
  | none ↦ elim (list_of new) [
    | some news ↦ if from_nothing path old news then some ([], news) else none
    | none ↦ none
  ]
]

-- The lists that are compared element by element, and the key of their identities.
unfoldable pub keyed_lists :
    Text → Text → Option Json → Option Json → Option (Text × (List Json × List Json))
unfolding ordered_array array_identity both_lists
keyed_lists collector path old new =
    if ordered_array collector path
    then none
    else both_lists path old new
      >>= (λ lists. array_identity lists.0 lists.1 >>= (λ key. some (key, lists)))

-- The end of `diff`: both values are compared by their encodings.
unfoldable pub compare_whole : Text → Option Json → Option Json → DiffResult → DiffResult
unfolding diff_json eq_text value_change
compare_whole path old new result =
    let name = if is_empty path then str "value" else path in
    if diff_json old == diff_json new
    then result
    else if ltb (length result.fields) max_diff_fields
    then record {
      fields = result.fields ++ (value_change name old new ∷ []);
      fields_truncated = result.fields_truncated;
      total_fields = result.total_fields + 1;
    }
    else record {
      fields = result.fields;
      fields_truncated = true;
      total_fields = result.total_fields + 1;
    }

-- `differ.diff`
unfoldable pub diff : ℕ → Text → Text → Option Json → Option Json → DiffResult → Option DiffResult
unfolding sorted_set keys_of member for_each both_objects keyed_lists diff_keyed compare_whole
diff zero collector path old new result = none
diff (suc fuel) collector path old new result = elim (both_objects old new) [
  | some (ms, ns) ↦
      for_each (sorted_set text_ordered (keys_of ms ++ keys_of ns))
        (λ key. diff fuel collector (child_path path key) (member ms key) (member ns key)) result
  | none ↦ elim (keyed_lists collector path old new) [
    | some (key, (olds, news)) ↦ diff_keyed (diff fuel collector) path key olds news result
    | none ↦ some (compare_whole path old new result)
  ]
]
