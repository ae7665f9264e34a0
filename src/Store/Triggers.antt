-- ===== src/Store/Triggers.antt =====
-- internal/store/webhooks.go: the ledger of webhook triggers and its leases.
-- Times are nanoseconds; `received_at <= now - window` is written `received_at + window ≤ now`.
pub mod Claim
pub mod Finish
pub mod Record
pub mod Rows
pub mod Lease
pub mod Fence
pub mod Due
pub mod Batch
pub mod Once
pub mod Readable
pub mod Selected
pub mod Loop
use tail_state.Prelude.{
  Bool, List, Option, [], false, if◌then◌else◌, is_empty, leb, ltb, nat_beq, nat_eq, none, some,
  string_eq, true, ℕ, ◌&&◌, ◌*◌, ◌+◌, ◌||◌,
}
use tail_state.Text.{Text, str, text_eq, text_ordered, trim_space}
use tail_state.Store.Metadata.{Metadata, decode_metadata, max_collectors, max_event_types}

pub data Status : Type 0 where
  pending processing processed dead : Status

abbrev pub is_pending : Status → Bool
is_pending pending = true
is_pending _ = false

abbrev pub is_processing : Status → Bool
is_processing processing = true
is_processing _ = false

-- `WebhookTrigger`, a row of `webhook_triggers`.
pub record Trigger : Type 0 where
  pub id : ℕ
  pub body_hash : Text
  pub received_at : ℕ
  pub event_types : Metadata
  pub collectors : Metadata
  pub status : Status
  pub attempts : ℕ
  pub next_attempt : ℕ
  pub lease_until : Option ℕ
  pub lease_token : Text
  pub last_error : Text
  pub processed_at : Option ℕ

-- The table with its AUTOINCREMENT counter.
pub record Ledger : Type 0 where
  pub rows : List Trigger
  pub next_id : ℕ

abbrev pub second : ℕ
second = 1_000_000_000

abbrev pub retry_window : ℕ
retry_window = 24 * 60 * 60 * second

abbrev pub default_lease : ℕ
default_lease = 2 * 60 * second

abbrev pub batch_size : ℕ
batch_size = 8

abbrev pub sha256_hex_length : ℕ
sha256_hex_length = 64

-- `lease_until IS NULL OR lease_until<=?`
abbrev pub lease_expired : ℕ → Trigger → Bool
lease_expired now t = elim t.lease_until [ none ↦ true | some until ↦ leb until now ]

abbrev pub horizon_passed : ℕ → Trigger → Bool
horizon_passed now t = leb (t.received_at + retry_window) now

-- The first statement of a claim: an expired lease returns to the queue.
abbrev pub is_released : ℕ → Trigger → Bool
is_released now t = is_processing t.status && lease_expired now t

abbrev pub release : Trigger → Trigger
release t = record t { status = pending; lease_until = none; lease_token = [] }

-- The second: a row past the retry horizon becomes a dead letter.
abbrev pub is_buried : ℕ → Trigger → Bool
is_buried now t =
    (is_pending t.status || is_processing t.status)
    && horizon_passed now t
    && (is_pending t.status || lease_expired now t)

abbrev pub window_expired : Text
window_expired = str "reconciliation retry window expired"

abbrev pub bury : Trigger → Trigger
bury t = record t {
  status = dead;
  lease_until = none;
  lease_token = [];
  last_error = window_expired;
}

-- The third: a pending row that is due is leased.
abbrev pub is_due : ℕ → Trigger → Bool
is_due now t = is_pending t.status && leb t.next_attempt now

abbrev pub lease_row : ℕ → Text → Trigger → Trigger
lease_row until token t = record t {
  status = processing;
  attempts = t.attempts + 1;
  lease_until = some until;
  lease_token = token;
}

abbrev pub has_id : ℕ → Trigger → Bool
has_id id t = nat_beq t.id id

abbrev pub lease_or_default : ℕ → ℕ
lease_or_default lease = if ltb lease second then default_lease else lease

-- A recorded error leaves the table only through the allow-list `safe`, which stands for
-- `notify.SafeDeliveryMessage`.
unfoldable pub safe_error : (Text → Text) → Trigger → Trigger
unfolding trim_space
safe_error safe t =
    if is_empty (trim_space t.last_error) then t else record t { last_error = safe t.last_error }

-- Both columns decode, within their bounds.
unfoldable pub is_decodable : Trigger → Bool
unfolding decode_metadata
is_decodable t =
    (elim (decode_metadata max_event_types t.event_types) [ none ↦ false | some names ↦ true ])
    && (elim (decode_metadata max_collectors t.collectors) [ none ↦ false | some names ↦ true ])

-- The decoded names, in the columns of the trigger that is read.
unfoldable pub with_names : Trigger → Trigger
unfolding decode_metadata
with_names t = record t {
  event_types = record t.event_types { values = decode_metadata max_event_types t.event_types };
  collectors = record t.collectors { values = decode_metadata max_collectors t.collectors };
}

-- `readWebhookTrigger`; `none` is an error. The timestamps are typed here.
unfoldable pub read_row : (Text → Text) → Trigger → Option Trigger
unfolding is_decodable with_names safe_error
read_row safe t = if is_decodable t then some (with_names (safe_error safe t)) else none
