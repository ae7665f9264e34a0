-- ===== src/Model/Severity.antt =====
-- internal/model/severity.go: the built-in importance of a change.
use tail_state.Prelude.{
  Bool, List, Option, [], contains, false, if◌then◌else◌, is_empty, keep_if, leb, nat_beq, nat_eq,
  none, not, some, some_of, string_eq, true, ℕ, ◌&&◌, ◌||◌, ◌∷◌,
}
use tail_state.Text.{Text, eq_text, equal_fold, str, text_eq, text_ordered, to_lower, trim_space}
use tail_state.Model.{
  Change, CreatedState, FieldChange, Json, Members, element, field_root, json_array, json_bool,
  json_null, json_object, json_string, member,
}
pub mod Highest

-- `Severity` is a string type; "" and unknown names rank as low.
abbrev pub Severity : Type 0
Severity = Text

abbrev pub severity_low : Severity
severity_low = str "low"

abbrev pub severity_medium : Severity
severity_medium = str "medium"

abbrev pub severity_high : Severity
severity_high = str "high"

unfoldable pub rank : Severity → ℕ
unfolding eq_text
rank s = if eq_text s severity_high then 3 else if eq_text s severity_medium then 2 else 1

abbrev pub at_least : Severity → Severity → Bool
at_least s minimum = leb (rank minimum) (rank s)

-- `ParseSeverity`.
unfoldable pub parse_severity : Text → Option Severity
unfolding eq_text to_lower trim_space
parse_severity value =
    let name = to_lower (trim_space value) in
    if eq_text name severity_low
    then some severity_low
    else if eq_text name severity_medium
    then some severity_medium
    else if eq_text name severity_high
    then some severity_high
    else none

abbrev pub high_impact_collectors : List Text
high_impact_collectors =
    str "policy" ∷ str "log_streaming" ∷ str "settings" ∷ str "webhooks" ∷ str "oauth_apps" ∷ []

abbrev pub low_impact_device_fields : List Text
low_impact_device_fields =
    str "clientversion" ∷ str "updateavailable" ∷ str "os" ∷ str "distro" ∷ []

-- `isFalse`: an absent value is false.
unfoldable pub is_false : Json → Bool → Bool
is_false json_null present = not present
is_false (json_bool b) present = not b
is_false _ present = false

unfoldable pub is_true : Json → Bool
is_true (json_bool b) = b
is_true _ = false

-- A missing key reads as nil.
unfoldable pub get : Members → Text → Json
get snapshot key = elim (member snapshot key) [ none ↦ json_null | some v ↦ v ]

unfoldable pub string_or_empty : Json → Text
string_or_empty (json_string s) = s
string_or_empty _ = []

unfoldable pub has_elements : Json → Bool
has_elements (json_array (element v rest)) = true
has_elements _ = false

-- `CreatedStateOf`; a snapshot that does not decode is `none`.
unfoldable pub created_state_of : Text → Option Json → Option CreatedState
unfolding eq_text trim_space get string_or_empty has_elements is_true
created_state_of collector (some (json_object snapshot)) =
    if eq_text collector (str "users")
      || eq_text collector (str "user_invites")
      || eq_text collector (str "devices")
    then some (record {
      role = trim_space (string_or_empty (get snapshot (str "role")));
      tagged = has_elements (get snapshot (str "tags"));
      key_expiry_disabled = is_true (get snapshot (str "keyExpiryDisabled"));
    })
    else none
created_state_of collector _ = none

unfoldable pub privileged : Text → Option CreatedState → Bool
unfolding eq_text equal_fold
privileged collector none = false
privileged collector (some s) =
    if eq_text collector (str "users") || eq_text collector (str "user_invites")
    then not (is_empty s.role) && not (equal_fold s.role (str "member"))
    else if eq_text collector (str "devices")
    then s.tagged || s.key_expiry_disabled
    else false

-- `strings.ReplaceAll(strings.ReplaceAll(s, "_", ""), "-", "")`
abbrev pub without_dashes : Text → Text
without_dashes s = keep_if (λ c. not (nat_beq c b'_' || nat_beq c b'-')) s

-- `fieldRoot`.
unfoldable pub compact_root : Text → Text
unfolding to_lower field_root keep_if
compact_root path = to_lower (without_dashes (field_root path))

-- A device field that always makes the change high.
unfoldable pub is_high_field : FieldChange → Bool
unfolding eq_text compact_root is_false is_true
is_high_field f =
    let root = compact_root f.field in
    eq_text root (str "tags")
    || ((eq_text root (str "authorized") || eq_text root (str "keyexpirydisabled"))
        && is_false f.old f.old_present
        && is_true f.new)

unfoldable pub is_low_field : FieldChange → Bool
unfolding compact_root contains
is_low_field f = contains low_impact_device_fields (compact_root f.field)

-- The loop of `classifyDeviceFields`, which returns early at a field that is high.
unfoldable pub device_loop : Severity → List FieldChange → Severity
unfolding is_high_field is_low_field
device_loop severity [] = severity
device_loop severity (f ∷ fields) =
    let rest = device_loop (if is_low_field f then severity else severity_medium) fields in
    if is_high_field f then severity_high else rest

unfoldable pub classify_device_fields : Change → Severity
unfolding eq_text device_loop
classify_device_fields change =
    let severity = device_loop severity_low change.fields in
    if is_empty change.fields
    then severity_medium
    else if change.fields_truncated && eq_text severity severity_low
    then severity_medium
    else severity

unfoldable pub touches_role : List FieldChange → Bool
unfolding eq_text compact_root some_of
touches_role fields = some_of (λ f. eq_text (compact_root f.field) (str "role")) fields

-- `Classify`; `details` stands for `classifyDeviceDetails` of internal/model/shares.go.
unfoldable pub classify : (Change → Severity) → Change → Severity
unfolding eq_text contains privileged touches_role classify_device_fields
classify details change =
    let is_collector = eq_text change.collector in
    let is_kind = eq_text change.kind in
    if contains high_impact_collectors change.collector
    then severity_high
    else if is_kind (str "created") && privileged change.collector change.created
    then severity_high
    else if is_collector (str "keys")
    then (if is_kind (str "created") then severity_high else severity_medium)
    else if is_collector (str "users")
    then (if is_kind (str "changed") && touches_role change.fields
        then severity_high
        else severity_medium)
    else if is_collector (str "devices")
    then (if is_kind (str "changed") then classify_device_fields change else severity_medium)
    else if is_collector (str "device_details")
    then (if is_kind (str "changed") then details change else severity_medium)
    else severity_medium
