-- ===== src/Model/Diff/Agree/Report.antt =====
-- internal/model/model.go: what `DiffDetailedFor` reports of two decoded snapshots.
use tail_state.Prelude.{
  List, Option, [], ap, arith, bind_some, false, length, nat_eq, some, string_eq, sym, ◌↔◌, ◌∙◌,
  ◌≡◌,
}
use tail_state.Text.{Text, text_eq, text_ordered}
use tail_state.Model.{FieldChange, Json}
use tail_state.Model.Diff.{DiffResult, no_changes}
use tail_state.Model.Diff.Depth.{
  depth, diff_decoded, diff_detailed_for, diff_detailed_for_total, fuel_for,
}
use tail_state.Model.Diff.Listing.{diff-reported, differences, reported}
use tail_state.Model.Diff.Agree.{Agree, diff-Agree}
use tail_state.Model.Diff.Agree.Same.{Agree-self}
use tail_state.Model.Diff.Agree.Exact.{diff-exact}

-- `DiffDetailedFor` of two values that decode counts each difference in the list of them all, and
-- counts none exactly if the values agree: in each field of two objects, in the presence and each
-- field of each identified element, and in the encoding of anything else.
pub diff_detailed_for_exact :
    (decode : Text → Option Json) (collector old_raw new_raw : Text) (old new : Json)
    (result : DiffResult)
    → decode old_raw ≡ some old
    → decode new_raw ≡ some new
    → diff_detailed_for decode collector old_raw new_raw ≡ some result
    → ((all : List FieldChange) × (differences (fuel_for old new) collector [] (some old) (some new)
          ≡ some all)
        × (result.total_fields ≡ length all))
      × ((result.total_fields ≡ 0) ↔ Agree collector [] (some old) (some new))
unfolding diff_detailed_for diff_decoded
diff_detailed_for_exact decode collector old_raw new_raw old new result e f h =
    let run = rw (e, f) at h in
    let fuel = fuel_for old new in
    let (all, there, same) =
      bind_some (differences fuel collector [] (some old) (some new)) (λ ds. some (reported ds))
        (sym (diff-reported fuel collector [] (some old) (some new) []) ∙ run) in
    let is : reported all ≡ result = cc same in
    (
      (all, there, ap (λ t. t.total_fields) (sym is)),
      (
        diff-exact fuel collector [] (some old) (some new) no_changes result run,
        λ agree.
            ap (λ t. t.total_fields)
              (sym
                (diff-Agree collector fuel [] (some old) (some new) no_changes result agree run)),
      ),
    )

-- `DiffDetailedFor` of two texts that decode to the same value reports no change, counts none and
-- is not cut.
pub diff_detailed_for_same :
    (decode : Text → Option Json) (collector old_raw new_raw : Text) (value : Json)
    → decode old_raw ≡ some value
    → decode new_raw ≡ some value
    → diff_detailed_for decode collector old_raw new_raw
      ≡ some (record { fields = []; fields_truncated = false; total_fields = 0 })
unfolding diff_detailed_for diff_decoded
diff_detailed_for_same decode collector old_raw new_raw value e f =
    let (result, runs) = diff_detailed_for_total decode collector old_raw new_raw in
    let run = rw (e, f) at runs in
    runs
    ∙ ap some (
        sym (
          diff-Agree collector (fuel_for value value) [] (some value) (some value) no_changes result
            (Agree-self collector [] (depth value) (some value) (omega arith)) run))
