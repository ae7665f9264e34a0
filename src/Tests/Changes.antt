-- ===== src/Tests/Changes.antt =====
-- Severity, routing and mutes at concrete changes.
use tail_state.Prelude.{
  Every, List, Option, [], arith, contains, every_of, false, if◌then◌else◌, insert, is_empty,
  keep_if, lookup, map, max, nat_eq, none, refl, some, some_of, sort, sort_insert, sorted_set,
  string_eq, true, unique, ℕ, ◌↔◌, ◌∷◌, ◌≡◌,
}
use tail_state.Text.{
  Text, eq_text, equal_fold, has_prefix, lt_text, str, text_eq, text_ordered, to_lower, trim_space,
}
use tail_state.Model.{
  Change, FieldChange, Json, element, field_root, json_array, json_object, json_string, named,
  no_elements, no_members,
}
use tail_state.Model.Severity.{
  Severity, classify, classify_device_fields, compact_root, device_loop, is_high_field,
  is_low_field, parse_severity, privileged, rank, severity_medium,
}
use tail_state.Model.Severity.Highest.{classify_device_fields-highest, highest_rank}
use tail_state.Store.Routing.{
  RoutingRules, all_changes, is_change_kind, is_collector_name, join_comma, matches, normal_values,
  normalize_routing_list, normalize_routing_rules, normalize_severity, rules_key,
}
use tail_state.Store.Routing.Canonical.{normalize_routing_rules_idem}
use tail_state.Store.Mutes.{
  MuteRule, Mutes, add_mute_rule, cut_dot, delete_mute_rule, mute_field, mute_tag,
}
use tail_state.Store.Mutes.Evaluate.{
  MuteSet, add_rule, compact_path, evaluate, field_muted, has_muted_tag, is_changed, lower_strings,
  new_mute_set, no_mutes, paths_of, same_tags, snapshot_tags, tag_muted, tags_in, unmuted_fields,
  whole_muted,
}
use tail_state.Store.Mutes.Kept.{evaluate-keeps}
use tail_state.Store.Mutes.Tags.{tag_muted-same_tags}
use tail_state.Store.Mutes.Bounds.{IsWellFormed, mutes-IsWellFormed}
use tail_state.Store.Routing.Digest.{
  RoutedDestination, cached_render, enqueue_digest, enqueue_each_digest, queue_payload, render,
  routed_changes,
}
use tail_state.Store.Routing.Shared.{enqueue_digest-shared}
use tail_state.Store.Routing.Keys.{IsCanonical}
use tail_state.Store.Outbox.{Outbox, OutboxRow}
use tail_state.Store.Routing.Columns.{routing_from_columns, routing_from_columns-IsCanonical}
use tail_state.Store.Routing.Everything.{all_changes_iff}

abbrev a_field : Text → Json → Json → FieldChange
a_field name old new = record {
  field = name;
  old = old;
  new = new;
  old_present = true;
  new_present = true;
}

abbrev upgrade : Change
upgrade = record {
  kind = str "changed";
  collector = str "devices";
  resource_id = str "n1";
  resource_type = str "device";
  name = str "web-1";
  fields =
      a_field (str "clientVersion") (json_string (str "1.80")) (json_string (str "1.82"))
      ∷ a_field (str "hostname") (json_string (str "a")) (json_string (str "b"))
      ∷ [];
  fields_truncated = false;
  total_fields = 2;
  created = none;
}

upgrade_severity : classify (λ c. severity_medium) upgrade ≡ severity_medium
unfolding classify eq_text contains privileged classify_device_fields device_loop is_high_field
    is_low_field compact_root to_lower field_root keep_if
upgrade_severity = refl

classify_device_fields-highest_example : rank (classify_device_fields upgrade) ≡ (
    if is_empty upgrade.fields
    then 2
    else max (if upgrade.fields_truncated then 2 else 1) (highest_rank upgrade.fields))
classify_device_fields-highest_example = classify_device_fields-highest upgrade

abbrev written : RoutingRules
written = record {
  min_severity = str " Medium";
  include_collectors = str "Users" ∷ str "devices" ∷ str "" ∷ str "users" ∷ [];
  exclude_collectors = [];
  change_kinds = str "removed" ∷ str "created" ∷ str "changed" ∷ [];
}

abbrev canonical_rules : RoutingRules
canonical_rules = record {
  min_severity = severity_medium;
  include_collectors = str "devices" ∷ str "users" ∷ [];
  exclude_collectors = [];
  change_kinds = [];
}

written-normal : normalize_routing_rules written ≡ some canonical_rules
unfolding normalize_routing_rules normalize_severity parse_severity normalize_routing_list
    normal_values is_collector_name is_change_kind every_of contains eq_text lt_text to_lower
    trim_space sorted_set unique sort sort_insert
written-normal = refl

normalize_routing_rules_idem_example :
    normalize_routing_rules canonical_rules ≡ some canonical_rules
normalize_routing_rules_idem_example =
    normalize_routing_rules_idem written canonical_rules written-normal

-- A mute of one field of devices, and of the tag `tag:ci`.
abbrev rules : List MuteRule
rules =
    record { id = 1; kind = mute_field; value = str "devices.client_version"; created_at = 0 }
    ∷ record { id = 2; kind = mute_tag; value = str "tag:ci"; created_at = 0 }
    ∷ []

abbrev mutes : MuteSet
mutes = new_mute_set no_mutes rules

abbrev tagged : Text → Option Json
tagged tag = some (
    json_object
      (named (str "tags") (json_array (element (json_string tag) no_elements)) no_members))

upgrade-shown : (evaluate mutes upgrade none none).0 ≡ false
unfolding evaluate whole_muted contains tag_muted has_muted_tag some_of snapshot_tags eq_text
    field_muted paths_of lookup insert new_mute_set add_rule cut_dot compact_path to_lower keep_if
    has_prefix
upgrade-shown = refl

upgrade-changed : is_changed upgrade ≡ true
unfolding eq_text
upgrade-changed = refl

evaluate-keeps_example :
    let kept = (evaluate mutes upgrade none none).1 in
    (kept.fields ≡ unmuted_fields mutes upgrade)
    × (record kept { fields = upgrade.fields; total_fields = upgrade.total_fields } ≡ upgrade)
evaluate-keeps_example = evaluate-keeps mutes upgrade none none upgrade-changed upgrade-shown

upgrade-tag_muted : tag_muted mutes upgrade (tagged (str "tag:ci")) (tagged (str "Tag:CI")) ≡ true
unfolding tag_muted contains has_muted_tag some_of snapshot_tags tags_in lower_strings equal_fold
    eq_text new_mute_set add_rule cut_dot compact_path to_lower keep_if field_root same_tags
    every_of unique paths_of lookup insert
upgrade-tag_muted = refl

tag_muted-same_tags_example :
    contains (snapshot_tags (tagged (str "tag:ci"))) (str "tag:web")
    ≡ contains (snapshot_tags (tagged (str "Tag:CI"))) (str "tag:web")
tag_muted-same_tags_example =
    tag_muted-same_tags mutes upgrade (tagged (str "tag:ci")) (tagged (str "Tag:CI"))
      upgrade-changed upgrade-tag_muted (str "tag:web")

abbrev table : Mutes
table = record { rules = rules; next_id = 3 }

table-IsWellFormed : IsWellFormed table
unfolding some_of eq_text
table-IsWellFormed = (omega arith, (refl, (refl, tt)))

mutes-IsWellFormed_example :
    IsWellFormed (add_mute_rule 5 (str "tag") (str "tag:web") table).1
    × IsWellFormed (delete_mute_rule 1 table).1
mutes-IsWellFormed_example =
    mutes-IsWellFormed 5 1 (str "tag") (str "tag:web") table table-IsWellFormed

abbrev devices_rules : RoutingRules
devices_rules = canonical_rules

abbrev two_destinations : List RoutedDestination
two_destinations =
    record { id = 3; rules = devices_rules } ∷ record { id = 4; rules = devices_rules } ∷ []

abbrev empty_outbox : Outbox
empty_outbox = record { rows = []; next_id = 1 }

abbrev encode : List Change → Option (Text × Text)
encode kept = some (str "message", str "digest")

abbrev batch : List (Change × Severity)
batch = (upgrade, severity_medium) ∷ []

two_destinations-IsCanonical : Every (λ d. IsCanonical d.rules) two_destinations
two_destinations-IsCanonical = ((written, written-normal), ((written, written-normal), tt))

enqueue_digest-shared_example :
    enqueue_digest encode batch 7 50 [] two_destinations empty_outbox
    ≡ enqueue_each_digest encode batch 7 50 two_destinations empty_outbox
enqueue_digest-shared_example =
    enqueue_digest-shared encode batch 7 50 two_destinations empty_outbox
      two_destinations-IsCanonical

abbrev queued_ids : Option Outbox → List ℕ
queued_ids none = []
queued_ids (some box) = map (λ (o : OutboxRow). o.destination_id) box.rows

both_queued :
    queued_ids (enqueue_digest encode batch 7 50 [] two_destinations empty_outbox) ≡ 3 ∷ 4 ∷ []
unfolding enqueue_digest cached_render render routed_changes matches contains rank lookup insert
    rules_key join_comma queue_payload eq_text
both_queued = refl

routing_from_columns-IsCanonical_example :
    (routing_from_columns canonical_rules.min_severity
        (join_comma canonical_rules.include_collectors)
        (join_comma canonical_rules.exclude_collectors)
        (join_comma canonical_rules.change_kinds)
      ≡ canonical_rules)
    × IsCanonical (routing_from_columns (str "urgent") (str "a,,B") [] [])
routing_from_columns-IsCanonical_example =
    routing_from_columns-IsCanonical canonical_rules (str "urgent") (str "a,,B") [] []
      (written, written-normal)

all_changes_iff_example :
    (all_changes canonical_rules ≡ true)
    ↔ ((change : Change) (severity : Severity) → matches canonical_rules change severity ≡ true)
all_changes_iff_example = all_changes_iff canonical_rules (written, written-normal)
