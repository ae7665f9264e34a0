-- ===== src/Model/Diff/Views.antt =====
-- internal/model/model.go: what decides how `differ.diff` compares two values.
use tail_state.Prelude.{
  Bool-cases, List, Option, [], ap, arith, bind_some, inl, inr, nat_eq, none, refl, some,
  sorted_set, string_eq, suc, sym, ℕ, ◌++◌, ◌>>=◌, ◌∙◌, ◌≡◌, ◌⊎◌,
}
use tail_state.Text.{Text, text_eq, text_ordered}
use tail_state.Model.{Json, Members, json_object, member}
use tail_state.Model.Diff.{DiffResult, array_identity, child_path, ordered_array}
use tail_state.Model.Diff.Walk.{
  both_lists, both_objects, compare_whole, diff, diff_keyed, for_each, from_nothing, keyed_lists,
  list_of,
}
use tail_state.Model.Encoding.{keys_of}

pub both_objects-from :
    (old new : Option Json)
    → (both_objects old new ≡ none)
      ⊎ ((ms : Members) × (ns : Members) × (old ≡ some (json_object ms))
          × (new ≡ some (json_object ns)))
unfolding both_objects
both_objects-from (some (json_object ms)) (some (json_object ns)) = inr (ms, ns, refl, refl)
both_objects-from _ _ = inl refl

pub both_lists-from :
    (path : Text) (old new : Option Json) (olds news : List Json)
    → both_lists path old new ≡ some (olds, news)
    → ((list_of old ≡ some olds) ⊎ (olds ≡ []))
      × ((list_of new ≡ some news) ⊎ (news ≡ []))
      × ((list_of old ≡ some olds) ⊎ (list_of new ≡ some news))
unfolding both_lists from_nothing
both_lists-from path old new olds news h = ground arith

pub keyed_lists-from :
    (collector path : Text) (old new : Option Json) (key : Text) (olds news : List Json)
    → keyed_lists collector path old new ≡ some (key, (olds, news))
    → (both_lists path old new ≡ some (olds, news)) × (array_identity olds news ≡ some key)
unfolding keyed_lists
keyed_lists-from collector path old new key olds news h =
    elim (Bool-cases (ordered_array collector path)) [
      | inl ordered ↦ absurd (cc (rw ordered at h))
      | inr free ↦
          let (lists, both, rest) =
            bind_some (both_lists path old new)
              (λ lists. array_identity lists.0 lists.1 >>= (λ k. some (k, lists))) (rw free at h) in
          let (k, identity, same) =
            bind_some (array_identity lists.0 lists.1) (λ k. some (k, lists)) rest in
          let e : k ≡ key = cc same in
          let f : lists ≡ (olds, news) = cc same in
          (both ∙ ap some f, sym (ap (λ l. array_identity l.0 l.1) f) ∙ identity ∙ ap some e)
    ]

module _ (fuel : ℕ) (collector path : Text) (old new : Option Json) (result : DiffResult) where
  pub diff-objects :
      (ms ns : Members)
      → old ≡ some (json_object ms)
      → new ≡ some (json_object ns)
      → diff (suc fuel) collector path old new result
        ≡ for_each
            (sorted_set text_ordered (keys_of ms ++ keys_of ns))
            (λ key. diff fuel collector (child_path path key) (member ms key) (member ns key))
            result
  unfolding diff both_objects
  diff-objects ms ns e f = rw (e, f) refl

  pub diff-keyed :
      (key : Text) (olds news : List Json)
      → both_objects old new ≡ none
      → keyed_lists collector path old new ≡ some (key, (olds, news))
      → diff (suc fuel) collector path old new result
        ≡ diff_keyed (diff fuel collector) path key olds news result
  unfolding diff
  diff-keyed key olds news plain keyed = rw (plain, diff) (rw (keyed, diff) refl)

  pub diff-whole :
      both_objects old new ≡ none
      → keyed_lists collector path old new ≡ none
      → diff (suc fuel) collector path old new result ≡ some (compare_whole path old new result)
  unfolding diff
  diff-whole plain whole = rw (plain, diff) (rw (whole, diff) refl)
