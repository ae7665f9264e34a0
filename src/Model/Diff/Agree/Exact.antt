-- ===== src/Model/Diff/Agree/Exact.antt =====
-- internal/model/model.go: a comparison that reports nothing has compared values that agree.
use tail_state.Prelude.{
  Bool, Bool-cases, Dict, List, Option, Option-cases, [], ap, arith, bind_some, contains,
  contains-append, contains-keep_if, contains-sort, contains-sorted_set, false, has, inl, inr,
  insert, keep_if, length, lookup, lookup-insert, ltb, map, nat_eq, none, not, or_false, refl, some,
  sort, sorted_set, string_eq, suc, sym, true, zero, ℕ, ◌&&◌, ◌++◌, ◌==◌, ◌∙◌, ◌∷◌, ◌≡◌, ◌≤◌,
}
use tail_state.Text.{Text, text_eq, text_ordered}
use tail_state.Model.{Json, Members, member, named, no_members}
use tail_state.Model.Encoding.{keys_of}
use tail_state.Model.Diff.{DiffResult, child_path, diff_json, element_path, max_diff_fields}
use tail_state.Model.Diff.Walk.{
  compare_whole, diff, diff_keyed, element_ids, for_each, identity_text, index_by, keyed_lists,
}
use tail_state.Model.Diff.Bounds.{diff-Keeps, for_each-Keeps}
use tail_state.Model.Diff.Views.{both_objects-from, diff-keyed, diff-objects, diff-whole}
use tail_state.Model.Diff.Agree.{Agree, Agree-absent, agree_elements, agree_fields, agree_whole}

compare_whole-grows :
    (n : ℕ) (path : Text) (old new : Option Json) (r : DiffResult)
    → n ≤ r.total_fields
    → n ≤ (compare_whole path old new r).total_fields
unfolding compare_whole
compare_whole-grows n path old new r h = elim (Bool-cases (diff_json old == diff_json new)) [
  | inl same ↦ rw same h
  | inr differs ↦ elim (Bool-cases (ltb (length r.fields) max_diff_fields)) [
    | inl room ↦ rw (differs, room) (omega arith)
    | inr full ↦ rw (differs, full) (omega arith)
  ]
]

-- No step of a diff takes a field back.
diff-grows :
    (fuel : ℕ) (collector path : Text) (old new : Option Json) (r s : DiffResult)
    → diff fuel collector path old new r ≡ some s
    → r.total_fields ≤ s.total_fields
diff-grows fuel collector path old new r s h =
    diff-Keeps (λ t. r.total_fields ≤ t.total_fields) (compare_whole-grows r.total_fields) fuel
      collector path old new r s h (omega arith)

-- A step that adds nothing.
abbrev Still : (Text → DiffResult → Option DiffResult) → Text → Type 0
Still step key =
    (r : DiffResult) × (s : DiffResult) × (step key r ≡ some s) × (s.total_fields ≡ r.total_fields)

for_each-Still :
    (keys : List Text) (step : Text → DiffResult → Option DiffResult) (r s : DiffResult)
    → ((key : Text) (a b : DiffResult) → step key a ≡ some b → a.total_fields ≤ b.total_fields)
    → for_each keys step r ≡ some s
    → s.total_fields ≡ r.total_fields
    → (key : Text) → contains keys key ≡ true
    → Still step key
unfolding for_each contains
for_each-Still [] step r s grows h e key k = absurd (cc k)
for_each-Still (next ∷ keys) step r s grows h e key k =
    let (t, runs, rest) = bind_some (step next r) (for_each keys step) h in
    let before_rest = grows next r t runs in
    let rest_grows =
      for_each-Keeps (λ u. t.total_fields ≤ u.total_fields) keys step t s
        (λ j a b run le. omega (arith, grows j a b run)) rest (omega arith) in
    elim (Bool-cases (next == key)) [
      | inl same ↦
          let e' : next ≡ key = (text_eq.same_iff next key).0 same in
          rw (← e') (r, t, runs, omega arith)
      | inr other ↦ for_each-Still keys step t s grows rest (omega arith) key (rw other at k)
    ]

compare_whole_still :
    (path : Text) (old new : Option Json) (r : DiffResult)
    → (compare_whole path old new r).total_fields ≡ r.total_fields
    → diff_json old ≡ diff_json new
unfolding compare_whole
compare_whole_still path old new r h = elim (Bool-cases (diff_json old == diff_json new)) [
  | inl same ↦ (text_eq.same_iff (diff_json old) (diff_json new)).0 same
  | inr differs ↦ elim (Bool-cases (ltb (length r.fields) max_diff_fields)) [
    | inl room ↦ absurd (omega (arith, rw (differs, room) at h))
    | inr full ↦ absurd (omega (arith, rw (differs, full) at h))
  ]
]

contains-keys_of :
    (ms : Members) (key : Text) → contains (keys_of ms) key ≡ false → member ms key ≡ none
unfolding keys_of member contains
contains-keys_of no_members key h = refl
contains-keys_of (named k v ms) key h = ground (arith, contains-keys_of ms key)

lookup-index_by_absent :
    (key : Text) (index : Dict Text Json) (list : List Json) (id : Text)
    → contains (map (identity_text key) list) id ≡ false
    → lookup (index_by key index list) id ≡ lookup index id
unfolding index_by contains
lookup-index_by_absent key index [] id h = refl
lookup-index_by_absent key index (v ∷ list) id h =
    let (other, rest) = or_false (identity_text key v == id) _ h in
    lookup-index_by_absent key (insert index (identity_text key v) v) list id rest
    ∙ rw (lookup-insert index (identity_text key v) id v, other) refl

index-absent :
    (key : Text) (list : List Json) (id : Text)
    → contains (map (identity_text key) list) id ≡ false
    → lookup (index_by key [] list) id ≡ none
unfolding lookup
index-absent key list id h = lookup-index_by_absent key [] list id h

lookup-has : (m : Dict Text Json) (k : Text) → lookup m k ≡ none → has m k ≡ false
unfolding lookup has
lookup-has [] k h = refl
lookup-has ((j, v) ∷ m) k h = ground (arith, lookup-has m k)

and_false : (a b : Bool) → (a && b) ≡ false → b ≡ true → a ≡ false
and_false a b h k = ground arith

-- A key that is not visited is in neither object.
unvisited_key :
    (ms ns : Members) (key : Text)
    → contains (sorted_set text_ordered (keys_of ms ++ keys_of ns)) key ≡ false
    → (member ms key ≡ none) × (member ns key ≡ none)
unvisited_key ms ns key h =
    let (a, b) = or_false (contains (keys_of ms) key) (contains (keys_of ns) key) (
      sym (contains-append (keys_of ms) (keys_of ns) key)
      ∙ sym (contains-sorted_set text_ordered (keys_of ms ++ keys_of ns) key)
      ∙ h) in
    (contains-keys_of ms key a, contains-keys_of ns key b)

-- An identity that is not visited is in neither list.
unvisited_id :
    (key : Text) (olds news : List Json) (id : Text)
    → contains (sort text_ordered (element_ids key olds news)) id ≡ false
    → (lookup (index_by key [] olds) id ≡ none) × (lookup (index_by key [] news) id ≡ none)
unfolding element_ids
unvisited_id key olds news id h =
    let fresh : Text → Bool = λ i. not (has (index_by key [] olds) i) in
    let (a, b) =
      or_false (contains (map (identity_text key) olds) id)
        (contains (keep_if fresh (map (identity_text key) news)) id)
        (sym (contains-append (map (identity_text key) olds) _ id)
          ∙ sym (contains-sort text_ordered (element_ids key olds news) id)
          ∙ h) in
    let old_absent = index-absent key olds id a in
    (
      old_absent,
      index-absent key news id (
          and_false _ (fresh id)
            (sym (contains-keep_if fresh (map (identity_text key) news) id) ∙ b)
            (ap not (lookup-has (index_by key [] olds) id old_absent))),
    )

-- A comparison that adds no field has compared values that agree.
pub diff-exact :
    (fuel : ℕ) (collector path : Text) (old new : Option Json) (r s : DiffResult)
    → diff fuel collector path old new r ≡ some s
    → s.total_fields ≡ r.total_fields
    → Agree collector path old new
unfolding diff_keyed
diff-exact zero collector path old new r s h e = absurd (unfold diff in cc h)
diff-exact (suc fuel) collector path old new r s h e = elim (both_objects-from old new) [
  | inr (ms, ns, p, q) ↦
      rw (p, q)
        (agree_fields path ms ns (λ key.
          elim (Bool-cases (contains (sorted_set text_ordered (keys_of ms ++ keys_of ns)) key)) [
            | inl visited ↦
                let (a, b, runs, same) =
                  for_each-Still _ _ r s
                    (λ j a b. diff-grows fuel collector (child_path path j) _ _ a b)
                    (sym (diff-objects fuel collector path old new r ms ns p q) ∙ h) e key
                    visited in
                diff-exact fuel collector (child_path path key) _ _ a b runs same
            | inr unvisited ↦
                let (absent, absent') = unvisited_key ms ns key unvisited in
                rw (absent, absent') (Agree-absent collector (child_path path key))
          ]))
  | inl plain ↦ elim (Option-cases (keyed_lists collector path old new)) [
    | inl whole ↦
        let f : compare_whole path old new r ≡ s =
          cc (sym (diff-whole fuel collector path old new r plain whole) ∙ h) in
        agree_whole path old new plain whole
          (compare_whole_still path old new r (ap (λ t. t.total_fields) f ∙ e))
    | inr ((key, (olds, news)), keyed) ↦
        agree_elements path old new key olds news plain keyed (λ id.
          elim (Bool-cases (contains (sort text_ordered (element_ids key olds news)) id)) [
            | inl visited ↦
                let (a, b, runs, same) =
                  for_each-Still _ _ r s
                    (λ j a b. diff-grows fuel collector (element_path path j) _ _ a b)
                    (sym (diff-keyed fuel collector path old new r key olds news plain keyed) ∙ h) e
                    id visited in
                diff-exact fuel collector (element_path path id) _ _ a b runs same
            | inr unvisited ↦
                let (absent, absent') = unvisited_id key olds news id unvisited in
                rw (absent, absent') (Agree-absent collector (element_path path id))
          ])
  ]
]
