-- ===== src/Tests/Diff.antt =====
-- Runs of the diff of internal/model/model.go, and its theorems at concrete snapshots.
use tail_state.Prelude.{
  List, Option, [], false, if◌then◌else◌, length, ltb, nat_eq, none, refl, some, sort, string_eq,
  take, true, unique, ◌==◌, ◌↔◌, ◌∷◌, ◌≡◌,
}
use tail_state.Text.{Text, eq_text, lt_text, str, text_eq, text_ordered}
use tail_state.Model.{
  FieldChange, Json, element, json_array, json_null, json_object, json_string, named, no_elements,
  no_members,
}
use tail_state.Model.Encoding.{encode, format_float}
use tail_state.Model.Diff.{DiffResult, element_identity, element_path, no_changes}
use tail_state.Model.Diff.Depth.{diff_detailed_for, diff_detailed_for_total, fuel_for}
use tail_state.Model.Diff.Listing.{all_differences, differences}
use tail_state.Model.Diff.Bounds.{diff_detailed_for-IsBounded}
use tail_state.Model.Diff.Agree.{Agree}
use tail_state.Model.Diff.Agree.Report.{diff_detailed_for_exact}
use tail_state.Model.Diff.Paths.{element_path_parts, element_path_parts-element_path}

abbrev share : Text → Text → Json
share id tailnet =
    json_object
      (named (str "id") (json_string id) (named (str "tailnetId") (json_string tailnet) no_members))

abbrev details : Json → Json → Json
details a b =
    json_object
      (named (str "deviceInvites") (json_array (element a (element b no_elements))) no_members)

abbrev old_details : Json
old_details = details (share (str "11") (str "x")) (share (str "22") (str "y"))

-- The shares in another order, and one of them in another tailnet.
abbrev new_details : Json
new_details = details (share (str "22") (str "z")) (share (str "11") (str "x"))

abbrev moved_details : Json
moved_details = details (share (str "22") (str "y")) (share (str "11") (str "x"))

abbrev decode_named : Text → Option Json
decode_named raw =
    if raw == str "old"
    then some old_details
    else if raw == str "new"
    then some new_details
    else if raw == str "moved"
    then some moved_details
    else none

abbrev one_change : DiffResult
one_change = record {
  fields =
      (record {
        field = str "deviceInvites[22].tailnetId";
        old = json_string (str "y");
        new = json_string (str "z");
        old_present = true;
        new_present = true;
      })
      ∷ [];
  fields_truncated = false;
  total_fields = 1;
}

diff_share :
    diff_detailed_for decode_named (str "device_details") (str "old") (str "new") ≡ some one_change
unfolding diff_detailed_for eq_text unique lt_text
diff_share = refl

diff_moved :
    diff_detailed_for decode_named (str "device_details") (str "old") (str "moved")
    ≡ some no_changes
unfolding diff_detailed_for eq_text unique lt_text
diff_moved = refl

encode_escapes :
    encode (
      json_object
        (named (str "b") (json_string (str "<\"")) (named (str "a") json_null no_members)))
    ≡ str "{\"a\":null,\"b\":\"\\u003c\\\"\"}"
unfolding encode sort unique eq_text lt_text
encode_escapes = refl

format_exponent : format_float (str "-1.25e+21") ≡ str "-1250000000000000000000"
unfolding format_float
format_exponent = refl

format_small : format_float (str "1.5e-7") ≡ str "0.00000015"
unfolding format_float
format_small = refl

diff_detailed_for_total_example :
    (result : DiffResult) × (diff_detailed_for decode_named
        (str "device_details")
        (str "old")
        (str "new")
      ≡ some result)
diff_detailed_for_total_example =
    diff_detailed_for_total decode_named (str "device_details") (str "old") (str "new")

diff_detailed_for-IsBounded_example :
    (all : List FieldChange) × (all_differences decode_named
        (str "device_details")
        (str "old")
        (str "new")
      ≡ some all)
    × (one_change.fields ≡ take 24 all)
    × (one_change.fields_truncated ≡ ltb 24 (length all))
    × (one_change.total_fields ≡ length all)
diff_detailed_for-IsBounded_example =
    diff_detailed_for-IsBounded decode_named (str "device_details") (str "old") (str "new")
      one_change diff_share

diff_detailed_for_exact_example :
    ((all : List FieldChange) × (differences
          (fuel_for old_details moved_details)
          (str "device_details")
          []
          (some old_details)
          (some moved_details)
        ≡ some all)
      × (no_changes.total_fields ≡ length all))
    × ((no_changes.total_fields ≡ 0)
        ↔ Agree (str "device_details") [] (some old_details) (some moved_details))
unfolding eq_text
diff_detailed_for_exact_example =
    diff_detailed_for_exact decode_named (str "device_details") (str "old") (str "moved")
      old_details moved_details no_changes refl refl diff_moved

usable_id : element_identity (str "id") (share (str "11") (str "x")) ≡ some (str "11")
unfolding element_identity eq_text
usable_id = refl

element_path_parts-element_path_example :
    element_path_parts (element_path (str "deviceInvites") (str "11"))
    ≡ some (str "deviceInvites", str "11")
element_path_parts-element_path_example =
    element_path_parts-element_path (str "deviceInvites") (str "id") (share (str "11") (str "x"))
      (str "11") refl usable_id
