-- ===== src/Model/Diff/Agree/Same.antt =====
-- internal/model/model.go: a value has no difference to itself.
use mathlib.Core.Path.{subst}
use tail_state.Prelude.{
  List, Option, Option-cases, [], arith, inl, inr, lookup, nat_eq, none, refl, some, string_eq, suc,
  zero, ℕ, ◌≡◌, ◌≤◌,
}
use tail_state.Text.{Text, text_eq, text_ordered}
use tail_state.Model.{Json, Members, json_array, json_object, member}
use tail_state.Model.Diff.Walk.{both_lists, from_nothing, index_by, keyed_lists, list_of}
use tail_state.Model.Diff.Views.{both_objects-from, keyed_lists-from}
use tail_state.Model.Diff.Depth.{
  depth, height, height-index, height-member, keyed_lists-depth, members_depth,
}
use tail_state.Model.Diff.Agree.{Agree, Agree-absent, agree_elements, agree_fields, agree_whole}
use tail_state.Model.Diff.{child_path, element_path}

-- A list is only compared with another list.
both_lists-same :
    (path : Text) (v : Json) (olds news : List Json)
    → both_lists path (some v) (some v) ≡ some (olds, news)
    → olds ≡ news
unfolding both_lists list_of from_nothing
both_lists-same path v olds news h = ground arith

depth-positive : (v : Json) → 1 ≤ depth v
unfolding depth
depth-positive (json_array xs) = omega arith
depth-positive (json_object ms) = omega arith
depth-positive _ = omega arith

object-depth : (v : Json) (ms : Members) → v ≡ json_object ms → depth v ≡ suc (members_depth ms)
unfolding depth
object-depth v ms e = rw e refl

-- A value, or nothing, agrees with itself.
pub Agree-self :
    (collector path : Text) (n : ℕ) (o : Option Json) → height o ≤ n → Agree collector path o o
Agree-self collector path n none h = Agree-absent collector path
Agree-self collector path zero (some v) h = absurd (omega (arith, depth-positive v))
Agree-self collector path (suc n) (some v) h = elim (both_objects-from (some v) (some v)) [
  | inr (ms, ns, e, f) ↦
      let e' : v ≡ json_object ms = cc e in
      rw e' (
        agree_fields path ms ms (λ key.
          Agree-self collector (child_path path key) n (member ms key)
            (omega (arith, height-member ms key, object-depth v ms e'))))
  | inl plain ↦ elim (Option-cases (keyed_lists collector path (some v) (some v))) [
    | inl whole ↦ agree_whole path (some v) (some v) plain whole refl
    | inr ((key, (olds, news)), keyed) ↦
        let (both, identity) = keyed_lists-from collector path _ _ key olds news keyed in
        let same = both_lists-same path v olds news both in
        let (m, e, small, small_news) =
          keyed_lists-depth collector path _ _ key olds news (suc n) keyed h h in
        agree_elements path (some v) (some v) key olds news plain keyed (λ id.
          subst
            (λ list.
              Agree collector (element_path path id) (lookup (index_by key [] olds) id)
                (lookup (index_by key [] list) id))
            same
            (Agree-self collector (element_path path id) n (lookup (index_by key [] olds) id)
              (omega (arith, height-index key olds m id small))))
  ]
]
