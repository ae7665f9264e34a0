-- ===== src/Store/Snapshots/Removal.antt =====
-- The resources that a complete response omitted: `massRemovalGuard` and `reconcileMissing` of
-- internal/store/snapshots.go.
use tail_state.Prelude.{
  Bool, List, Option, [], contains, every_of, false, if◌then◌else◌, keep_if, leb, length, ltb, map,
  nat_beq, nat_eq, none, not, string_eq, true, unique, ℕ, ◌&&◌, ◌++◌, ◌+◌, ◌||◌, ◌∷◌,
}
use tail_state.Text.{Text, eq_text, has_prefix, str, text_eq, text_ordered}
use tail_state.Store.Table.{update_where}
use tail_state.Store.Snapshots.{
  Apply, Collected, CollectorState, RecordedChange, Resource, Snapshot, existing_stored_value,
  is_row, no_value, of_collector,
}
use tail_state.Store.Snapshots.States.{failures_of, last_error_of, removal_guard_prefix, state_row}

abbrev pub ids_of : List Resource → List Text
ids_of resources = map (λ r. r.id) resources

-- `len(seen)`: a map has each id once.
unfoldable pub seen_count : List Text → ℕ
unfolding unique
seen_count seen = length (unique [] seen)

-- A row of the collector that the response omitted.
unfoldable pub is_absent : ℕ → Text → List Text → Snapshot → Bool
unfolding contains eq_text
is_absent generation collector seen row =
    of_collector generation collector row && not (contains seen row.resource_id)

unfoldable pub absent_rows : ℕ → Text → List Text → List Snapshot → List Snapshot
unfolding keep_if is_absent
absent_rows generation collector seen rows = keep_if (is_absent generation collector seen) rows

abbrev pub was_missing : Snapshot → Bool
was_missing row = not (nat_beq row.missing_count 0)

-- `massRemovalGuard` for a complete response, with the omitted rows and the number of ids seen.
unfoldable pub is_guarded : Option CollectorState → List Snapshot → ℕ → Bool
unfolding every_of has_prefix
is_guarded state absent present =
    let missing = length absent in
    let confirmed = not (nat_beq missing 0) && every_of was_missing absent in
    let suspicious = leb 3 missing && ltb present missing in
    if not suspicious || confirmed
    then false
    else not (has_prefix (last_error_of state) removal_guard_prefix) || ltb (failures_of state) 2

-- `massRemovalGuard`: a partial response is guarded, and counts no omitted row.
unfoldable pub mass_removal_guard : ℕ → Collected → List Text → Apply → Bool × ℕ
unfolding is_guarded absent_rows state_row seen_count
mass_removal_guard generation result seen a =
    let absent = absent_rows generation result.collector seen a.snapshots in
    if result.partial then (true, 0) else (
      is_guarded (state_row generation result.collector a.states) absent (seen_count seen),
      length absent,
    )

unfoldable pub removed_change : Text → Snapshot → RecordedChange
unfolding existing_stored_value
removed_change collector row = record {
  change = record {
    kind = str "removed";
    collector = collector;
    resource_id = row.resource_id;
    resource_type = row.resource_type;
    name = row.name;
    fields = [];
    fields_truncated = false;
    total_fields = 0;
    created = none;
  };
  before =
      existing_stored_value row.canonical_json row.content_hash row.content_bytes
        row.content_truncated;
  after = no_value;
}

abbrev pub missed_again : Snapshot → Snapshot
missed_again row = record row { missing_count = row.missing_count + 1 }

-- One round of the loop of `reconcileMissing`: the row is removed, or is missing once more.
unfoldable pub reconcile_row : ℕ → Text → Bool → Snapshot → Bool × Apply → Bool × Apply
unfolding keep_if update_where removed_change eq_text
reconcile_row generation collector events row (pending, a) =
    let this = is_row generation collector row.resource_id in
    if leb 2 (row.missing_count + 1)
    then (
      pending,
      record a {
        snapshots = keep_if (λ r. not (this r)) a.snapshots;
        recorded = if events then a.recorded ++ (removed_change collector row ∷ []) else a.recorded;
      },
    )
    else (true, record a { snapshots = update_where this missed_again a.snapshots })

unfoldable pub reconcile_rows : ℕ → Text → Bool → List Snapshot → Bool × Apply → Bool × Apply
unfolding reconcile_row
reconcile_rows generation collector events [] state = state
reconcile_rows generation collector events (row ∷ rows) state =
    reconcile_rows generation collector events rows
      (reconcile_row generation collector events row state)

-- `reconcileMissing`: whether an omitted resource still waits for its confirming poll, and the rest.
unfoldable pub reconcile_missing : ℕ → Text → List Text → Bool → Bool → Apply → Bool × Apply
unfolding absent_rows reconcile_rows
reconcile_missing generation collector seen baselined silent a =
    reconcile_rows generation collector (baselined && not silent)
      (absent_rows generation collector seen a.snapshots) (false, a)
