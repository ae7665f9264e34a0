-- ===== src/Store/Snapshots.antt =====
-- internal/store/snapshots.go and internal/store/storage_limits.go: the stored snapshots of each
-- collector, its state, and what one write transaction has recorded so far.
pub mod Upsert
pub mod States
pub mod Removal
pub mod Unsupported
pub mod Absent
pub mod Reconcile
pub mod Put
pub mod Settle
pub mod Polls
pub mod Health
pub mod Demotion
pub mod Failures
pub mod Batch
use tail_state.Prelude.{
  Bool, Dict, List, Option, [], false, if◌then◌else◌, is_empty, leb, length, ltb, nat_beq, nat_eq,
  not, string_eq, true, ℕ, ◌&&◌, ◌++◌, ◌==◌, ◌||◌,
}
use tail_state.Text.{Text, digits, number_text, str, text_eq, text_ordered}
use tail_state.Model.{Change, Json}
use tail_state.Model.Encoding.{after, before, quote}

-- A row of `snapshots`.
pub record Snapshot : Type 0 where
  pub generation : ℕ
  pub collector : Text
  pub resource_id : Text
  pub resource_type : Text
  pub name : Text
  pub canonical_json : Text
  pub content_hash : Text
  pub content_bytes : ℕ
  pub content_truncated : Bool
  pub missing_count : ℕ
  pub updated_at : ℕ

-- A row of `collector_state`.
pub record CollectorState : Type 0 where
  pub generation : ℕ
  pub collector : Text
  pub supported : Bool
  pub baseline : Bool
  pub last_success : Option ℕ
  pub last_error : Text
  pub failure_count : ℕ
  pub unhealthy_notified : Bool
  pub next_poll : Option ℕ
  pub partial : Bool
  pub partial_error_count : ℕ

pub record Resource : Type 0 where
  pub id : Text
  pub resource_type : Text
  pub name : Text
  pub content : Json

-- `Collected`; of an error only its presence matters here.
pub record Collected : Type 0 where
  pub collector : Text
  pub resources : List Resource
  pub unsupported : Bool
  pub unsupported_reason : Text
  pub partial : Bool
  pub partial_error : Text
  pub partial_error_count : ℕ
  pub failed : Bool
  pub observed_at : Option ℕ

pub record StoredValue : Type 0 where
  pub raw : Text
  pub hash : Text
  pub bytes : ℕ
  pub truncated : Bool
  pub rejected : Bool
  pub reason : Text

abbrev pub no_value : StoredValue
no_value = record {
  raw = [];
  hash = [];
  bytes = 0;
  truncated = false;
  rejected = false;
  reason = [];
}

pub record TruncationLog : Type 0 where
  pub collector : Text
  pub resource : Text
  pub value_hash : Text
  pub observed : ℕ
  pub limit : ℕ
  pub reason : Text

pub record RecordedChange : Type 0 where
  pub change : Change
  pub before : StoredValue
  pub after : StoredValue

-- `notify.CollectorHealth`.
pub record CollectorHealth : Type 0 where
  pub collector : Text
  pub reason : Text
  pub detail : Text

-- The limits of a raw value that concern snapshots.
pub record Limits : Type 0 where
  pub snapshot_bytes : ℕ
  pub reject_bytes : ℕ

-- The tables that a transaction works on, and the rest of `batchApply`. Of the table `meta` it has
-- the generation of the shared users and, for each collector, where a guard began.
pub record Apply : Type 0 where
  pub snapshots : List Snapshot
  pub states : List CollectorState
  pub shared_users : Option ℕ
  pub guard_since : Dict Text (ℕ × ℕ)
  pub recorded : List RecordedChange
  pub truncations : List TruncationLog
  pub unhealthy : List CollectorHealth
  pub snapshot_truncations : ℕ
  pub event_truncations : ℕ
  pub oversized_writes : ℕ

abbrev pub of_collector : ℕ → Text → Snapshot → Bool
of_collector generation collector row =
    nat_beq row.generation generation && row.collector == collector

abbrev pub is_row : ℕ → Text → Text → Snapshot → Bool
is_row generation collector id row = of_collector generation collector row && row.resource_id == id

abbrev pub state_of : ℕ → Text → CollectorState → Bool
state_of generation collector row = nat_beq row.generation generation && row.collector == collector

-- `effectiveValueLimit`.
abbrev pub effective_value_limit : ℕ → ℕ → ℕ
effective_value_limit limit reject = if ltb 0 reject && ltb reject limit then reject else limit

-- `truncationJSON`: the fields of a struct are written in their order.
unfoldable pub truncation_json : Text → ℕ → ℕ → Text → Text
unfolding quote digits
truncation_json hash bytes limit reason =
    str "{\"_tailstate\":{\"truncated\":true,\"sha256\":"
    ++ quote hash
    ++ str ",\"bytes\":"
    ++ number_text bytes
    ++ str ",\"limit\":"
    ++ number_text limit
    ++ str ",\"reason\":"
    ++ quote reason
    ++ str "}}"

-- `boundedValue`.
unfoldable pub bounded_value : Text → Text → ℕ → ℕ → StoredValue
unfolding truncation_json
bounded_value raw hash limit reject =
    let effective = effective_value_limit limit reject in
    let over_reject = ltb 0 reject && ltb reject (length raw) in
    let reason = if over_reject then str "hard write limit" else str "byte limit" in
    if is_empty raw || leb (length raw) effective
    then record {
      raw = raw;
      hash = hash;
      bytes = length raw;
      truncated = false;
      rejected = false;
      reason = [];
    }
    else record {
      raw = truncation_json hash (length raw) effective reason;
      hash = hash;
      bytes = length raw;
      truncated = true;
      rejected = over_reject;
      reason = reason;
    }

-- `existingStoredValue`.
unfoldable pub existing_stored_value : Text → Text → ℕ → Bool → StoredValue
existing_stored_value raw hash bytes truncated = record {
  raw = raw;
  hash = hash;
  bytes = if nat_beq bytes 0 && not (is_empty raw) then length raw else bytes;
  truncated = truncated;
  rejected = false;
  reason = [];
}
