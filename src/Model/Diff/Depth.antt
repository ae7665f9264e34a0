-- ===== src/Model/Diff/Depth.antt =====
-- `DiffDetailedFor` of internal/model/model.go, and the depth of values as fuel for its recursion.
use tail_state.Prelude.{
  Bool-cases, Dict, Every, Every-mono, List, Option, Option-cases, [], arith, false, inl, inr,
  insert, lookup, lookup-insert, max, nat_eq, none, refl, some, string_eq, suc, zero, ℕ, ◌-◌, ◌==◌,
  ◌∷◌, ◌≡◌, ◌≤◌, ◌⊎◌,
}
use tail_state.Text.{Text, str, text_eq, text_ordered}
use tail_state.Model.{
  Elements, Json, Members, element, json_array, json_bool, json_null, json_number, json_object,
  json_string, member, named, no_elements, no_members,
}
use tail_state.Model.Encoding.{elements_of}
use tail_state.Model.Diff.{DiffResult, child_path, element_path, no_changes, value_change}
use tail_state.Model.Diff.Walk.{
  compare_whole, diff, diff_keyed, for_each, identity_text, index_by, keyed_lists, list_of,
}
use tail_state.Model.Diff.Views.{
  both_lists-from, both_objects-from, diff-keyed, diff-objects, diff-whole, keyed_lists-from,
}

unfoldable mutual
  pub depth : Json → ℕ
  depth (json_array xs) = suc (elements_depth xs)
  depth (json_object ms) = suc (members_depth ms)
  depth json_null = 1
  depth (json_bool b) = 1
  depth (json_number n) = 1
  depth (json_string s) = 1

  pub elements_depth : Elements → ℕ
  elements_depth no_elements = 0
  elements_depth (element v vs) = max (depth v) (elements_depth vs)

  pub members_depth : Members → ℕ
  members_depth no_members = 0
  members_depth (named k v ms) = max (depth v) (members_depth ms)

abbrev pub height : Option Json → ℕ
height none = 0
height (some value) = depth value

-- The result for values of which one cannot be decoded.
abbrev pub undecoded : Text → Text → DiffResult
undecoded old_raw new_raw = record {
  fields =
      value_change (str "value") (some (json_string old_raw)) (some (json_string new_raw)) ∷ [];
  fields_truncated = false;
  total_fields = 1;
}

-- The recursion goes one level down in each value at each call.
abbrev pub fuel_for : Json → Json → ℕ
fuel_for old new = suc (max (depth old) (depth new))

unfoldable pub diff_decoded : Text → Text → Text → Option Json → Option Json → Option DiffResult
unfolding diff depth
diff_decoded collector old_raw new_raw (some old) (some new) =
    diff (fuel_for old new) collector [] (some old) (some new) no_changes
diff_decoded collector old_raw new_raw _ _ = some (undecoded old_raw new_raw)

-- `DiffDetailedFor`; `decode` is `json.Unmarshal` into an `any`.
unfoldable pub diff_detailed_for : (Text → Option Json) → Text → Text → Text → Option DiffResult
unfolding diff_decoded
diff_detailed_for decode collector old_raw new_raw =
    diff_decoded collector old_raw new_raw (decode old_raw) (decode new_raw)

member-depth :
    (ms : Members) (key : Text) (v : Json) → member ms key ≡ some v → depth v ≤ members_depth ms
unfolding depth member
member-depth no_members key v h = absurd (cc h)
member-depth (named k w ms) key v h = ground (arith, member-depth ms key v)

pub height-member : (ms : Members) (key : Text) → height (member ms key) ≤ members_depth ms
height-member ms key = elim (Option-cases (member ms key)) [
  | inl absent ↦ rw absent (omega arith)
  | inr (v, found) ↦ rw found (member-depth ms key v found)
]

elements_of-depth : (xs : Elements) → Every (λ v. depth v ≤ elements_depth xs) (elements_of xs)
unfolding depth elements_of
elements_of-depth no_elements = tt
elements_of-depth (element v vs) =
    (omega arith, Every-mono _ _ (elements_of vs) (λ x h. omega arith) (elements_of-depth vs))

for_each_total :
    (keys : List Text) (step : Text → DiffResult → Option DiffResult) (result : DiffResult)
    → ((key : Text) (r : DiffResult) → (s : DiffResult) × (step key r ≡ some s))
    → (s : DiffResult) × (for_each keys step result ≡ some s)
unfolding for_each
for_each_total [] step result total = (result, refl)
for_each_total (key ∷ keys) step result total =
    let (next, runs) = total key result in rw runs (for_each_total keys step next total)

-- Every value of an index is one of the list.
lookup-index_by :
    (P : Json → Type 0) (key : Text) (index : Dict Text Json) (list : List Json)
    → ((id : Text) (v : Json) → lookup index id ≡ some v → P v)
    → Every P list
    → (id : Text) (v : Json) → lookup (index_by key index list) id ≡ some v
    → P v
unfolding index_by
lookup-index_by P key index [] h k id v found = h id v found
lookup-index_by P key index (value ∷ list) h k id v found =
    lookup-index_by P key (insert index (identity_text key value) value) list inserted k.1 id v
      found
  where
    inserted :
        (j : Text) (w : Json)
        → lookup (insert index (identity_text key value) value) j ≡ some w
        → P w
    inserted j w at = elim (Bool-cases (identity_text key value == j)) [
      | inl same ↦
          let e : value ≡ w =
            cc (rw (lookup-insert index (identity_text key value) j value, same) at at) in
          rw (← e) k.0
      | inr other ↦ h j w (rw (lookup-insert index (identity_text key value) j value, other) at at)
    ]

list_of-depth :
    (o : Option Json) (xs : List Json) (n : ℕ)
    → list_of o ≡ some xs
    → height o ≤ suc n
    → Every (λ v. depth v ≤ n) xs
unfolding depth list_of
list_of-depth (some (json_array xs)) ys n h bound =
    let e : elements_of xs ≡ ys = cc h in
    rw (← e) (Every-mono _ _ (elements_of xs) (λ x le. omega arith) (elements_of-depth xs))
list_of-depth none ys n h bound = absurd (cc h)
list_of-depth (some _) ys n h bound = absurd (cc h)

list_of-height : (o : Option Json) (xs : List Json) → list_of o ≡ some xs → 1 ≤ height o
unfolding depth list_of
list_of-height (some (json_array xs)) ys h = omega arith
list_of-height none ys h = absurd (cc h)
list_of-height (some _) ys h = absurd (cc h)

lists-depth :
    (o : Option Json) (list : List Json) (n : ℕ)
    → (list_of o ≡ some list) ⊎ (list ≡ [])
    → height o ≤ suc n
    → Every (λ v. depth v ≤ n) list
lists-depth o list n (inl h) bound = list_of-depth o list n h bound
lists-depth o list n (inr h) bound = rw h tt

pub height-index :
    (key : Text) (list : List Json) (n : ℕ) (id : Text)
    → Every (λ v. depth v ≤ n) list
    → height (lookup (index_by key [] list) id) ≤ n
unfolding lookup
height-index key list n id h = elim (Option-cases (lookup (index_by key [] list) id)) [
  | inl absent ↦ rw absent (omega arith)
  | inr (v, found) ↦
      rw found
        (lookup-index_by (λ w. depth w ≤ n) key [] list (λ i w e. absurd (cc e)) h id v found)
]

-- The lists that are compared element by element hold values that are smaller than the fuel.
pub keyed_lists-depth :
    (collector path : Text) (old new : Option Json) (key : Text) (olds news : List Json) (fuel : ℕ)
    → keyed_lists collector path old new ≡ some (key, (olds, news))
    → height old ≤ fuel
    → height new ≤ fuel
    → (n : ℕ) × (fuel ≡ suc n) × Every (λ v. depth v ≤ n) olds × Every (λ v. depth v ≤ n) news
unfolding keyed_lists
keyed_lists-depth collector path old new key olds news fuel h ho hn =
    let (both, identity) = keyed_lists-from collector path old new key olds news h in
    let (from_old, from_new, some_list) = both_lists-from path old new olds news both in
    let positive : 1 ≤ fuel = elim some_list [
      | inl e ↦ omega (arith, list_of-height old olds e)
      | inr e ↦ omega (arith, list_of-height new news e)
    ] in
    (
      fuel - 1,
      omega arith,
      lists-depth old olds (fuel - 1) from_old (omega arith),
      lists-depth new news (fuel - 1) from_new (omega arith),
    )

-- The recursion ends within the depth of the values.
diff_total :
    (fuel : ℕ) (collector path : Text) (old new : Option Json) (result : DiffResult)
    → height old ≤ fuel
    → height new ≤ fuel
    → (s : DiffResult) × (diff (suc fuel) collector path old new result ≡ some s)
unfolding diff diff_keyed depth
diff_total zero collector path old new result ho hn = elim (both_objects-from old new) [
  | inr (ms, ns, e, f) ↦ absurd (omega (arith, rw e at ho))
  | inl plain ↦ elim (Option-cases (keyed_lists collector path old new)) [
    | inl whole ↦
        (compare_whole path old new result, diff-whole 0 collector path old new result plain whole)
    | inr ((key, (olds, news)), keyed) ↦
        let (n, e, small_olds, small_news) =
          keyed_lists-depth collector path old new key olds news 0 keyed ho hn in
        absurd (omega arith)
  ]
]
diff_total (suc fuel) collector path old new result ho hn = elim (both_objects-from old new) [
  | inr (ms, ns, e, f) ↦ rw (diff-objects (suc fuel) collector path old new result ms ns e f) (
      for_each_total _ _ result (λ key r.
        diff_total fuel collector (child_path path key) (member ms key) (member ns key) r
          (omega (arith, height-member ms key, rw e at ho))
          (omega (arith, height-member ns key, rw f at hn))))
  | inl plain ↦ elim (Option-cases (keyed_lists collector path old new)) [
    | inl whole ↦ (
      compare_whole path old new result,
      diff-whole (suc fuel) collector path old new result plain whole,
    )
    | inr ((key, (olds, news)), keyed) ↦
        let (n, e, small_olds, small_news) =
          keyed_lists-depth collector path old new key olds news (suc fuel) keyed ho hn in
        rw (diff-keyed (suc fuel) collector path old new result key olds news plain keyed) (
          for_each_total _ _ result (λ id r.
            diff_total fuel collector (element_path path id) (lookup (index_by key [] olds) id)
              (lookup (index_by key [] news) id) r
              (omega (arith, height-index key olds n id small_olds))
              (omega (arith, height-index key news n id small_news))))
  ]
]

diff_decoded_total :
    (collector old_raw new_raw : Text) (old new : Option Json)
    → (result : DiffResult) × (diff_decoded collector old_raw new_raw old new ≡ some result)
unfolding diff_decoded
diff_decoded_total collector old_raw new_raw (some old) (some new) =
    diff_total (max (depth old) (depth new)) collector [] (some old) (some new) no_changes
      (omega arith) (omega arith)
diff_decoded_total collector old_raw new_raw _ _ = (undecoded old_raw new_raw, refl)

-- `DiffDetailedFor` always ends with a result: whatever the raw values and their decoding, the
-- depths of the decoded values are fuel enough for its recursion.
pub diff_detailed_for_total :
    (decode : Text → Option Json) (collector old_raw new_raw : Text)
    → (result : DiffResult) × (diff_detailed_for decode collector old_raw new_raw ≡ some result)
unfolding diff_detailed_for
diff_detailed_for_total decode collector old_raw new_raw =
    diff_decoded_total collector old_raw new_raw (decode old_raw) (decode new_raw)
