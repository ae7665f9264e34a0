-- ===== src/Store/Outbox.antt =====
-- internal/store/outbox.go: the queue of notifications and its leases.
-- Times are nanoseconds; `first_attempt <= now - window` is written `first_attempt + window ≤ now`.
pub mod Claim
pub mod Finish
pub mod Fence
pub mod Order
pub mod Queue
pub mod Enqueue
pub mod Pass
use tail_state.Prelude.{
  Bool, List, Option, [], false, if◌then◌else◌, nat_beq, nat_eq, none, not, some, string_eq, suc,
  true, zero, ℕ, ◌&&◌, ◌*◌, ◌++◌, ◌∷◌,
}
use tail_state.Text.{Text, eq_text, str, text_eq, text_ordered}
use tail_state.Store.Table.{count_where, find_row, update_where}
use tail_state.Store.Triggers.{second}

pub data Delivery : Type 0 where
  waiting sending delivered given_up : Delivery

abbrev pub is_waiting : Delivery → Bool
is_waiting waiting = true
is_waiting _ = false

abbrev pub is_sending : Delivery → Bool
is_sending sending = true
is_sending _ = false

abbrev pub is_given_up : Delivery → Bool
is_given_up given_up = true
is_given_up _ = false

-- A row of `outbox`; `status` is 'pending', 'processing', 'delivered' or 'dead'.
pub record OutboxRow : Type 0 where
  pub id : ℕ
  pub batch_id : Option ℕ
  pub destination_id : ℕ
  pub payload : Text
  pub payload_format : Text
  pub status : Delivery
  pub attempts : ℕ
  pub next_attempt : ℕ
  pub first_attempt : ℕ
  pub last_error : Text
  pub created_at : ℕ
  pub delivered_at : Option ℕ
  pub lease_until : Option ℕ
  pub lease_token : Text

-- A row of `notification_destinations`.
pub record Destination : Type 0 where
  pub id : ℕ
  pub name : Text
  pub service_url_enc : Text
  pub enabled : Bool
  pub deleted_at : Option ℕ

-- The outbox with its AUTOINCREMENT counter.
pub record Outbox : Type 0 where
  pub rows : List OutboxRow
  pub next_id : ℕ

abbrev pub outbox_retry_window : ℕ
outbox_retry_window = 24 * 60 * 60 * second

abbrev pub outbox_lease : ℕ
outbox_lease = 2 * 60 * second

abbrev pub has_outbox_id : ℕ → OutboxRow → Bool
has_outbox_id id o = nat_beq o.id id

-- `d.enabled=1 AND d.deleted_at IS NULL`
abbrev pub is_active : Destination → Bool
is_active d = d.enabled && elim d.deleted_at [ none ↦ true | some at ↦ false ]

-- `JOIN notification_destinations d ON d.id=o.destination_id`
abbrev pub goes_to : OutboxRow → Destination → Bool
goes_to o d = nat_beq d.id o.destination_id

-- The row that an INSERT adds.
abbrev pub queued_row : Text → Text → ℕ → Option ℕ → ℕ → ℕ → OutboxRow
queued_row format payload now batch destination_id id = record {
  id = id;
  batch_id = batch;
  destination_id = destination_id;
  payload = payload;
  payload_format = format;
  status = waiting;
  attempts = 0;
  next_attempt = now;
  first_attempt = now;
  last_error = [];
  created_at = now;
  delivered_at = none;
  lease_until = none;
  lease_token = [];
}

-- `INSERT INTO outbox`, given the row for its id.
abbrev pub insert_row : (ℕ → OutboxRow) → Outbox → Outbox
insert_row row box = record { rows = box.rows ++ row box.next_id ∷ []; next_id = suc box.next_id }

-- One INSERT for each active destination, in the order of their ids.
unfoldable pub enqueue_each : Text → Text → ℕ → Option ℕ → List Destination → Outbox → Outbox
enqueue_each format payload now batch [] box = box
enqueue_each format payload now batch (d ∷ destinations) box =
    let queue = enqueue_each format payload now batch destinations in
    if is_active d
    then queue (insert_row (queued_row format payload now batch d.id) box)
    else queue box

-- `enqueueOutboxTx`; a batch id of 0 is stored as NULL.
unfoldable pub enqueue_outbox : Text → Text → ℕ → ℕ → List Destination → Outbox → Outbox
enqueue_outbox format payload now zero destinations box =
    enqueue_each format payload now none destinations box
enqueue_outbox format payload now batch_id destinations box =
    enqueue_each format payload now (some batch_id) destinations box

-- `retryableDeadOutbox`; `other_generation` says of a batch that it exists and belongs to another
-- generation of the settings.
unfoldable pub retryable_dead : (ℕ → Bool) → OutboxRow → Bool
retryable_dead other_generation o =
    is_given_up o.status
    && not (eq_text o.last_error (str "monitoring identity changed"))
    && elim o.batch_id [ none ↦ true | some batch ↦ not (other_generation batch) ]

pub data RetryDead : Type 0 where
  not_found : RetryDead
  disabled : RetryDead
  requeued : ℕ → RetryDead

abbrev pub fresh_row : ℕ → OutboxRow → OutboxRow
fresh_row now o = record o {
  status = waiting;
  attempts = 0;
  first_attempt = now;
  next_attempt = now;
  last_error = [];
  lease_until = none;
  lease_token = [];
  delivered_at = none;
}

abbrev pub is_retried : (ℕ → Bool) → ℕ → OutboxRow → Bool
is_retried other_generation destination_id o =
    nat_beq o.destination_id destination_id && retryable_dead other_generation o

-- `WHERE id=? AND deleted_at IS NULL`
abbrev pub is_destination : ℕ → Destination → Bool
is_destination id d = nat_beq d.id id && elim d.deleted_at [ none ↦ true | some at ↦ false ]

-- `RetryDeadOutbox`.
unfoldable pub retry_dead_outbox :
    (ℕ → Bool) → ℕ → ℕ → List Destination → List OutboxRow → RetryDead × List OutboxRow
retry_dead_outbox other_generation now destination_id destinations rows =
    let test = is_retried other_generation destination_id in
    elim (find_row (is_destination destination_id) destinations) [
      | none ↦ (not_found, rows)
      | some d ↦
          if d.enabled
          then (requeued (count_where test rows), update_where test (fresh_row now) rows)
          else (disabled, rows)
    ]
