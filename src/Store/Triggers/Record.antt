-- ===== src/Store/Triggers/Record.antt =====
-- internal/store/webhooks.go: recording a verified delivery.
use tail_state.Prelude.{
  Bool, List, Option, [], every_of, false, if◌then◌else◌, length, ltb, nat_beq, nat_eq, none, not,
  some, string_eq, true, ℕ, ◌&&◌, ◌++◌, ◌+◌, ◌||◌, ◌∷◌,
}
use tail_state.Text.{Text, eq_text, is_hex, text_eq, text_ordered, trim_space}
use tail_state.Store.Triggers.{Ledger, Trigger, pending, read_row, sha256_hex_length}
use tail_state.Store.Table.{find_row}
use tail_state.Store.Metadata.{
  max_collectors, max_event_types, metadata_of, sorted_unique, valid_value,
}

abbrev pub valid_hash : Text → Bool
valid_hash hash = nat_beq (length hash) sha256_hex_length && every_of is_hex hash

abbrev pub new_row : ℕ → ℕ → Text → List Text → List Text → Trigger
new_row id now hash event_types collectors = record {
  id = id;
  body_hash = hash;
  received_at = now;
  event_types = metadata_of event_types;
  collectors = metadata_of collectors;
  status = pending;
  attempts = 0;
  next_attempt = now;
  lease_until = none;
  lease_token = [];
  last_error = [];
  processed_at = none;
}

-- `INSERT … ON CONFLICT(body_hash) DO NOTHING` of a row, given the row that has the hash.
unfoldable pub insert_unless : Trigger → Ledger → Option Trigger → (Trigger × Bool) × Ledger
insert_unless fresh db (some t) = ((t, false), db)
insert_unless fresh db none =
    ((fresh, true), record { rows = db.rows ++ fresh ∷ []; next_id = db.next_id + 1 })

abbrev pub has_hash : Text → Trigger → Bool
has_hash hash t = eq_text t.body_hash hash

-- The statement, and the row that the hash then has.
unfoldable pub insert_or_find :
    ℕ → Text → List Text → List Text → Ledger → (Trigger × Bool) × Ledger
insert_or_find now hash event_types collectors db =
    insert_unless (new_row db.next_id now hash event_types collectors) db
      (find_row (has_hash hash) db.rows)

-- The transaction commits where the row can be read, and is rolled back where it cannot.
unfoldable pub recorded_as :
    (Text → Text) → Ledger → (Trigger × Bool) × Ledger → Option (Trigger × Bool) × Ledger
unfolding read_row
recorded_as safe db ((t, created), db') = elim (read_row safe t) [
  | none ↦ (none, db)
  | some read ↦ (some (read, created), db')
]

-- `RecordWebhookTrigger`; `none` is an error, which leaves the table as it was.
unfoldable pub record_webhook_trigger :
    (Text → Text) → ℕ → Text → List Text → List Text → Ledger → Option (Trigger × Bool) × Ledger
record_webhook_trigger safe now hash event_types collectors db =
    let hash' = trim_space hash in
    let event_types' = sorted_unique event_types in
    let collectors' = sorted_unique collectors in
    if not (valid_hash hash')
    then (none, db)
    else if not (every_of valid_value (event_types ++ collectors))
    then (none, db)
    else if ltb max_event_types (length event_types') || ltb max_collectors (length collectors')
    then (none, db)
    else recorded_as safe db (insert_or_find now hash' event_types' collectors' db)
