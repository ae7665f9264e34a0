-- ===== src/Store/Snapshots/Upsert.antt =====
-- `upsertResource` of internal/store/snapshots.go: one resource that a poll returned.
use tail_state.Prelude.{
  Bool, List, Option, [], false, if◌then◌else◌, length, nat_beq, nat_eq, none, not, some, string_eq,
  true, ℕ, ◌&&◌, ◌++◌, ◌+◌, ◌==◌, ◌||◌, ◌∷◌,
}
use tail_state.Text.{Text, eq_text, equal_fold, str, text_eq, text_ordered}
use tail_state.Model.{Change, CreatedState, Json, json_object}
use tail_state.Model.Diff.{DiffResult, no_changes}
use tail_state.Model.Diff.Depth.{diff_detailed_for}
use tail_state.Model.Normalize.Walk.{canonical_for}
use tail_state.Model.Dns.{shape_transition}
use tail_state.Model.Severity.{created_state_of, get, string_or_empty}
use tail_state.Store.Table.{find_row, update_where}
use tail_state.Store.Snapshots.{
  Apply, Limits, RecordedChange, Resource, Snapshot, StoredValue, TruncationLog, bounded_value,
  existing_stored_value, is_row, no_value,
}

-- `record`, for the events of one resource.
abbrev pub add_events : List RecordedChange → Apply → Apply
add_events events a = record a { recorded = a.recorded ++ events }

-- `noteTruncation`: nothing is noted of a value that was not cut.
unfoldable pub note_truncation : Text → Text → StoredValue → ℕ → Bool → Apply → Apply
note_truncation collector resource value limit snapshot a =
    let cut = value.truncated in
    let entry : TruncationLog = record {
      collector = collector;
      resource = resource;
      value_hash = value.hash;
      observed = value.bytes;
      limit = limit;
      reason = value.reason;
    } in
    let one : Bool → ℕ = λ b. if b then 1 else 0 in
    record a {
      truncations = if cut then a.truncations ++ (entry ∷ []) else a.truncations;
      snapshot_truncations = a.snapshot_truncations + one (cut && snapshot);
      event_truncations = a.event_truncations + one (cut && not snapshot);
      oversized_writes = a.oversized_writes + one (cut && value.rejected);
    }

-- `isSharedUser`.
unfoldable pub is_shared : Json → Bool
unfolding get string_or_empty equal_fold
is_shared (json_object ms) = equal_fold (string_or_empty (get ms (str "type"))) (str "shared")
is_shared _ = false

-- The row that is written for a resource.
abbrev pub row_of : ℕ → ℕ → Text → Resource → StoredValue → Text → Snapshot
row_of generation now collector resource value hash = record {
  generation = generation;
  collector = collector;
  resource_id = resource.id;
  resource_type = resource.resource_type;
  name = resource.name;
  canonical_json = value.raw;
  content_hash = hash;
  content_bytes = value.bytes;
  content_truncated = value.truncated;
  missing_count = 0;
  updated_at = now;
}

-- `rewriteSnapshot`.
unfoldable pub rewrite_snapshot : ℕ → ℕ → Text → Resource → StoredValue → Text → Apply → Apply
unfolding update_where eq_text
rewrite_snapshot generation now collector resource value hash a = record a {
  snapshots =
      update_where (is_row generation collector resource.id)
        (λ row. row_of generation now collector resource value hash) a.snapshots;
}

-- The stored row is what would be written.
unfoldable pub is_unchanged : Snapshot → Resource → StoredValue → Text → Bool
unfolding eq_text
is_unchanged row resource value hash =
    row.content_hash == hash
    && row.resource_type == resource.resource_type
    && row.name == resource.name
    && nat_beq row.missing_count 0
    && (if row.content_truncated then value.truncated else not value.truncated)
    && nat_beq row.content_bytes value.bytes
    && row.canonical_json == value.raw

-- A stored value as it is compared: its text, its hash and the value that an event shows.
pub record Previous : Type 0 where
  pub raw : Text
  pub hash : Text
  pub value : StoredValue

module _ (decode : Text → Option Json) (digest : Text → Text) where
  abbrev pub as_stored : Snapshot → Previous
  as_stored row = record {
    raw = row.canonical_json;
    hash = row.content_hash;
    value =
        existing_stored_value row.canonical_json row.content_hash row.content_bytes
          row.content_truncated;
  }

  -- A stored value with another hash is normalised again, unless it was cut.
  unfoldable pub previous_of : Text → Text → Snapshot → Previous
  unfolding eq_text existing_stored_value canonical_for
  previous_of collector hash row =
      if row.content_hash == hash || row.content_truncated
      then as_stored row
      else elim (decode row.canonical_json) [
        | none ↦ as_stored row
        | some previous ↦
            let canonical = canonical_for digest collector previous in
            record {
              raw = canonical.0;
              hash = canonical.1;
              value = existing_stored_value canonical.0 canonical.1 (length canonical.0) false;
            }
      ]

  -- `DiffDetailedFor`, which always has a result.
  unfoldable pub diff_of : Text → Text → Text → DiffResult
  unfolding diff_detailed_for
  diff_of collector old_raw new_raw = elim (diff_detailed_for decode collector old_raw new_raw) [
    | some result ↦ result
    | none ↦ no_changes
  ]

  abbrev pub change_of : Text → Text → Resource → DiffResult → Option CreatedState → Change
  change_of kind collector resource result created = record {
    kind = kind;
    collector = collector;
    resource_id = resource.id;
    resource_type = resource.resource_type;
    name = resource.name;
    fields = result.fields;
    fields_truncated = result.fields_truncated;
    total_fields = result.total_fields;
    created = created;
  }

  -- The event of a resource whose content differs: none for a change of shape alone.
  unfoldable pub changed_events :
      Text → Resource → Text → Text → Bool → Previous → List RecordedChange
  unfolding shape_transition eq_text diff_of existing_stored_value
  changed_events collector resource raw hash baselined old =
      let event : DiffResult → List RecordedChange = λ result.
        (record {
          change = change_of (str "changed") collector resource result none;
          before = old.value;
          after = existing_stored_value raw hash (length raw) false;
        })
        ∷ [] in
      if not baselined
      then []
      else if old.value.truncated
      then event no_changes
      else elim (shape_transition decode collector old.raw raw) [
        | none ↦ event (diff_of collector old.raw raw)
        | some (old_comparable, new_comparable) ↦
            if old_comparable == new_comparable
            then []
            else event (diff_of collector old_comparable new_comparable)
      ]

  -- The event of a resource that is stored for the first time.
  unfoldable pub created_events :
      Text → Resource → Text → Text → Bool → Bool → Bool → List RecordedChange
  unfolding is_shared created_state_of existing_stored_value
  created_events collector resource raw hash baselined silent absorb =
      if baselined && not silent && not (absorb && is_shared resource.content)
      then (record {
        change =
            change_of (str "created") collector resource no_changes
              (created_state_of collector (decode raw));
        before = no_value;
        after = existing_stored_value raw hash (length raw) false;
      })
        ∷ []
      else []

  -- `upsertResource`; the canonical form of the resource is an argument.
  unfoldable pub upsert_resource :
      ℕ → ℕ → Limits → Text → Bool → Bool → Bool → Resource → Text × Text → Apply → Apply
  unfolding bounded_value note_truncation find_row created_events previous_of changed_events
      rewrite_snapshot is_unchanged eq_text
  upsert_resource generation now limits collector baselined silent absorb resource (raw, hash) a =
      let value = bounded_value raw hash limits.snapshot_bytes limits.reject_bytes in
      let noted = note_truncation collector resource.id value limits.snapshot_bytes true a in
      let rewritten = rewrite_snapshot generation now collector resource value hash in
      elim (find_row (is_row generation collector resource.id) a.snapshots) [
        | none ↦
            let created =
              add_events (created_events collector resource raw hash baselined silent absorb)
                noted in
            record created {
              snapshots =
                  created.snapshots ++ (row_of generation now collector resource value hash ∷ []);
            }
        | some row ↦
            let old = previous_of collector hash row in
            if not (old.hash == hash)
            then rewritten
                (add_events (changed_events collector resource raw hash baselined old) noted)
            else if is_unchanged row resource value hash
            then noted
            else rewritten noted
      ]

  -- The loop of `collector` over the resources of a result, with their canonical forms.
  unfoldable pub upsert_all :
      ℕ → ℕ → Limits → Text → Bool → Bool → Bool → List Resource → Apply → Apply
  unfolding upsert_resource canonical_for
  upsert_all generation now limits collector baselined silent absorb [] a = a
  upsert_all generation now limits collector baselined silent absorb (resource ∷ resources) a =
      upsert_all generation now limits collector baselined silent absorb resources (
        upsert_resource generation now limits collector baselined silent absorb resource
          (canonical_for digest collector resource.content) a)
