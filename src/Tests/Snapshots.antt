-- ===== src/Tests/Snapshots.antt =====
-- Runs of internal/store/snapshots.go, and its theorems at concrete tables.
use tail_state.Prelude.{
  List, Option, [], arith, contains, false, length, nat_eq, none, refl, some, string_eq, true,
  unique, ℕ, ◌∷◌, ◌≡◌,
}
use tail_state.Text.{Text, eq_text, lt_text, str, text_eq, text_ordered}
use tail_state.Model.{Json, json_object, json_string, named, no_members}
use tail_state.Model.Encoding.{encode}
use tail_state.Model.Normalize.{health_state, normalize_health_status}
use tail_state.Model.Normalize.Walk.{canonical_for}
use tail_state.Store.Table.{find_row}
use tail_state.Store.Snapshots.{
  Apply, Collected, CollectorState, Limits, Resource, Snapshot, is_row,
}
use tail_state.Store.Snapshots.States.{new_state, state_row}
use tail_state.Store.Snapshots.Removal.{absent_rows}
use tail_state.Store.Snapshots.Upsert.{upsert_resource}
use tail_state.Store.Snapshots.Unsupported.{
  awaits_confirmation, is_first_refusal, unsupported_collector,
}
use tail_state.Store.Snapshots.Polls.{poll_all}
use tail_state.Store.Snapshots.Health.{posture, recovery-unrecorded, with_status}
use tail_state.Store.Snapshots.Polls.Gone.{poll_all-settles}
use tail_state.Store.Snapshots.Demotion.{IsDemoted, collector_row, demotion-twice}

abbrev hash_stub : Text → Text
hash_stub text = text

abbrev device : Text → Resource
device id = record {
  id = id;
  resource_type = str "device";
  name = id;
  content = json_object (named (str "id") (json_string id) no_members);
}

abbrev poll : Text → List Resource → Collected
poll collector resources = record {
  collector = collector;
  resources = resources;
  unsupported = false;
  unsupported_reason = [];
  partial = false;
  partial_error = [];
  partial_error_count = 0;
  failed = false;
  observed_at = none;
}

abbrev refusal : Collected
refusal = record (poll (str "services") []) {
  unsupported = true;
  unsupported_reason = str "unsupported (HTTP 404)";
}

abbrev bounds : Limits
bounds = record { snapshot_bytes = 1000; reject_bytes = 2000 }

abbrev stored_as : Text → Text → Text → Snapshot
stored_as collector id raw = record {
  generation = 1;
  collector = collector;
  resource_id = id;
  resource_type = str "device";
  name = id;
  canonical_json = raw;
  content_hash = raw;
  content_bytes = length raw;
  content_truncated = false;
  missing_count = 0;
  updated_at = 0;
}

abbrev healthy_state : Text → CollectorState
healthy_state collector = record (new_state 1 collector) { supported = true; baseline = true }

abbrev tables : List Snapshot → Apply
tables snapshots = record {
  snapshots = snapshots;
  states = healthy_state (str "devices") ∷ healthy_state (str "services") ∷ [];
  shared_users = none;
  guard_since = [];
  recorded = [];
  truncations = [];
  unhealthy = [];
  snapshot_truncations = 0;
  event_truncations = 0;
  oversized_writes = 0;
}

abbrev five_devices : Apply
five_devices = tables (
    stored_as (str "devices") (str "a") (str "{\"id\":\"a\"}")
    ∷ stored_as (str "devices") (str "b") (str "{}")
    ∷ stored_as (str "devices") (str "c") (str "{}")
    ∷ stored_as (str "devices") (str "d") (str "{}")
    ∷ stored_as (str "devices") (str "e") (str "{}")
    ∷ [])

abbrev no_decode : Text → Option Json
no_decode raw = none

abbrev one_device : Collected
one_device = poll (str "devices") (device (str "a") ∷ [])

abbrev three_polls : List (ℕ × Collected)
three_polls = (10, one_device) ∷ (20, one_device) ∷ (30, one_device) ∷ []

-- Three polls are not enough: the first two are held back, and the third only counts.
three_polls_wait :
    length (
      absent_rows 1
        (str "devices")
        (str "a" ∷ [])
        (poll_all no_decode hash_stub 1 bounds three_polls five_devices).snapshots)
    ≡ 4
unfolding poll_all absent_rows eq_text contains unique lt_text
three_polls_wait = refl

abbrev four_polls : List (ℕ × Collected)
four_polls = (5, one_device) ∷ three_polls

poll_all-settles_example :
    absent_rows 1
      (str "devices")
      (str "a" ∷ [])
      (poll_all no_decode hash_stub 1 bounds four_polls five_devices).snapshots
    ≡ []
poll_all-settles_example =
    poll_all-settles no_decode hash_stub 1 bounds (str "devices") (str "a" ∷ []) four_polls
      five_devices
      (
        (refl, refl, refl, refl, refl),
        (
          (refl, refl, refl, refl, refl),
          ((refl, refl, refl, refl, refl), ((refl, refl, refl, refl, refl), tt)),
        ),
      )
      (omega arith)

four_polls_report :
    length (poll_all no_decode hash_stub 1 bounds four_polls five_devices).recorded ≡ 4
unfolding poll_all eq_text contains unique lt_text
four_polls_report = refl

-- A posture integration whose error has passed.
abbrev integration : Json → Json
integration status =
    with_status status (named (str "provider") (json_string (str "falcon")) no_members)

abbrev failing : Json
failing = integration (health_state (str "error"))

abbrev ok_status : Json
ok_status = json_object (named (str "lastError") (json_string []) no_members)

abbrev decode_failing : Text → Option Json
decode_failing raw = some failing

abbrev recovered : Resource
recovered = record (device (str "p1")) { content = integration ok_status }

abbrev one_integration : Apply
one_integration = tables (stored_as posture (str "p1") (encode failing) ∷ [])

is_stored :
    find_row (is_row 1 posture (str "p1")) one_integration.snapshots
    ≡ some (stored_as posture (str "p1") (encode failing))
unfolding find_row eq_text
is_stored = refl

is_healthy : normalize_health_status ok_status ≡ health_state (str "healthy")
unfolding normalize_health_status eq_text
is_healthy = refl

recovery-unrecorded_example :
    (upsert_resource decode_failing hash_stub 1 40 bounds posture true false false recovered
      (canonical_for hash_stub posture (integration ok_status))
      one_integration).recorded
    ≡ []
recovery-unrecorded_example =
    recovery-unrecorded decode_failing hash_stub 1 40 bounds true false false recovered ok_status
      (named (str "provider") (json_string (str "falcon")) no_members)
      (stored_as posture (str "p1") (encode failing)) one_integration is_stored refl refl is_healthy

services_state :
    collector_row 1 (str "services") (tables []) ≡ some (healthy_state (str "services"))
unfolding state_row eq_text
services_state = refl

services_wait : is_first_refusal (some (healthy_state (str "services"))) ≡ true
unfolding is_first_refusal eq_text
services_wait = refl

demotion-twice_example :
    let one = unsupported_collector 1 10 refusal (tables []) in
    let two = unsupported_collector 1 20 refusal one in
    let three = unsupported_collector 1 30 refusal two in
    (collector_row 1 (str "services") one
      ≡ some (awaits_confirmation 10 (healthy_state (str "services"))))
    × (one.unhealthy ≡ [])
    × ((next : CollectorState) × (collector_row 1 (str "services") two ≡ some next)
        × IsDemoted 1 (str "services") next)
    × (length two.unhealthy ≡ 1)
    × (three.unhealthy ≡ two.unhealthy)
demotion-twice_example =
    demotion-twice 1 (str "services") 10 20 30 refusal refusal refusal (tables [])
      (healthy_state (str "services")) refl refl refl services_state services_wait
