-- ===== src/Store/Mutes/Evaluate.antt =====
-- internal/store/mutes.go: the rules as a set, and what they do to a change.
use tail_state.Prelude.{
  Bool, Dict, List, Option, [], contains, every_of, false, if◌then◌else◌, insert, is_empty, keep_if,
  length, lookup, nat_beq, nat_eq, none, not, some, some_of, string_eq, true, unique, ◌&&◌, ◌++◌,
  ◌||◌, ◌∷◌,
}
use tail_state.Text.{Text, eq_text, equal_fold, has_prefix, str, text_eq, text_ordered, to_lower}
use tail_state.Model.{
  Change, Elements, FieldChange, Json, Members, element, field_root, json_array, json_null,
  json_object, json_string, named, no_elements, no_members,
}
use tail_state.Model.Severity.{without_dashes}
use tail_state.Store.Mutes.{MuteRule, cut_dot, mute_collector, mute_field, mute_resource, mute_tag}

-- `compactPath`.
unfoldable pub compact_path : Text → Text
unfolding to_lower keep_if
compact_path path = to_lower (without_dashes path)

-- The rules by kind; the Go maps that are used as sets are lists of their keys.
pub record MuteSet : Type 0 where
  pub collectors : List Text
  pub fields : Dict Text (List Text)
  pub tags : List Text
  pub resources : List Text

abbrev pub no_mutes : MuteSet
no_mutes = record { collectors = []; fields = []; tags = []; resources = [] }

-- A missing key reads as no paths.
unfoldable pub paths_of : Dict Text (List Text) → Text → List Text
paths_of fields collector = elim (lookup fields collector) [ none ↦ [] | some paths ↦ paths ]

unfoldable pub add_rule : MuteSet → MuteRule → MuteSet
unfolding eq_text cut_dot paths_of compact_path to_lower
add_rule set r =
    let parts = cut_dot r.value in
    let path : Text = elim parts.1 [ none ↦ [] | some after ↦ after ] in
    if eq_text r.kind mute_collector
    then record set { collectors = r.value ∷ set.collectors }
    else if eq_text r.kind mute_field
    then record set {
      fields = insert set.fields parts.0 (paths_of set.fields parts.0 ++ compact_path path ∷ []);
    }
    else if eq_text r.kind mute_tag
    then record set { tags = to_lower r.value ∷ set.tags }
    else if eq_text r.kind mute_resource
    then record set { resources = to_lower r.value ∷ set.resources }
    else set

-- `newMuteSet`.
unfoldable pub new_mute_set : MuteSet → List MuteRule → MuteSet
new_mute_set set [] = set
new_mute_set set (r ∷ rules) = new_mute_set (add_rule set r) rules

-- `empty`.
abbrev pub has_no_mutes : MuteSet → Bool
has_no_mutes m =
    is_empty m.collectors && is_empty m.fields && is_empty m.tags && is_empty m.resources

-- `fieldMuted`.
unfoldable pub field_muted : MuteSet → Text → Text → Bool
unfolding compact_path some_of paths_of eq_text has_prefix
field_muted m collector field =
    let f = compact_path field in
    some_of
      (λ rule.
        eq_text f rule || has_prefix f (rule ++ b'.' ∷ []) || has_prefix f (rule ++ b'[' ∷ []))
      (paths_of m.fields collector)

-- The lower-cased strings of a list.
unfoldable pub lower_strings : Elements → List Text
unfolding to_lower
lower_strings no_elements = []
lower_strings (element (json_string s) rest) = to_lower s ∷ lower_strings rest
lower_strings (element _ rest) = lower_strings rest

-- Decoding into the field `Tags`: a key matches it in any case, the last one counts, null clears it,
-- and any other value is an error.
unfoldable pub tags_in : Members → List Text → Option (List Text)
unfolding lower_strings equal_fold
tags_in no_members tags = some tags
tags_in (named key (json_array es) rest) tags =
    tags_in rest (if equal_fold key (str "tags") then lower_strings es else tags)
tags_in (named key json_null rest) tags =
    tags_in rest (if equal_fold key (str "tags") then [] else tags)
tags_in (named key _ rest) tags =
    let others = tags_in rest tags in if equal_fold key (str "tags") then none else others

-- `snapshotTags`; a snapshot that is absent or does not decode is `none`.
unfoldable pub snapshot_tags : Option Json → List Text
unfolding tags_in unique
snapshot_tags (some (json_object members)) = elim (tags_in members []) [
  | none ↦ []
  | some tags ↦ unique [] tags
]
snapshot_tags _ = []

-- `sameTags`.
unfoldable pub same_tags : List Text → List Text → Bool
unfolding every_of contains
same_tags left right =
    nat_beq (length left) (length right) && every_of (λ tag. contains right tag) left

-- `hasMutedTag`.
unfoldable pub has_muted_tag : MuteSet → Option Json → Bool
unfolding some_of contains snapshot_tags
has_muted_tag m raw = some_of (λ tag. contains m.tags tag) (snapshot_tags raw)

abbrev pub is_changed : Change → Bool
is_changed change = eq_text change.kind (str "changed")

-- `tagMuted`.
unfoldable pub tag_muted : MuteSet → Change → Option Json → Option Json → Bool
unfolding eq_text has_muted_tag some_of equal_fold field_root same_tags snapshot_tags
tag_muted m change before after =
    if not (is_changed change)
    then has_muted_tag m before || has_muted_tag m after
    else if not (has_muted_tag m before) || not (has_muted_tag m after)
    then false
    else if some_of (λ f. equal_fold (field_root f.field) (str "tags")) change.fields
    then false
    else same_tags (snapshot_tags before) (snapshot_tags after)

abbrev pub unmuted_fields : MuteSet → Change → List FieldChange
unmuted_fields m change = keep_if (λ f. not (field_muted m change.collector f.field)) change.fields

-- The rules that mute a change as a whole.
unfoldable pub whole_muted : MuteSet → Change → Option Json → Option Json → Bool
unfolding contains to_lower tag_muted
whole_muted m change before after =
    contains m.collectors change.collector
    || contains m.resources (to_lower change.resource_id)
    || (contains m.resources (to_lower change.name) && not (is_empty change.name))
    || (not (is_empty m.tags) && tag_muted m change before after)

-- `evaluate`: whether a change is muted, and the change with its muted fields removed.
unfoldable pub evaluate : MuteSet → Change → Option Json → Option Json → Bool × Change
unfolding whole_muted eq_text paths_of keep_if
evaluate m change before after =
    let kept = unmuted_fields m change in
    if has_no_mutes m
    then (false, change)
    else if whole_muted m change before after
    then (true, change)
    else if not (is_changed change)
        || is_empty change.fields
        || is_empty (paths_of m.fields change.collector)
    then (false, change)
    else if is_empty kept && not change.fields_truncated
    then (true, change)
    else if nat_beq (length kept) (length change.fields)
    then (false, change)
    else (
      false,
      record change {
        fields = kept;
        total_fields = if change.fields_truncated then change.total_fields else length kept;
      },
    )
