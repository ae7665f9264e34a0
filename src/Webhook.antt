-- ===== src/Webhook.antt =====
-- internal/webhook/webhook.go: what a delivery of events is accepted for. `mac` is the HMAC-SHA256 of
-- a message under a key, `digest` the SHA-256 of a text in hexadecimal digits, and `decode_events`
-- what `json.Unmarshal` makes of a body.
pub mod Signature
pub mod Verify
pub mod Authentic
pub mod Outcomes
pub mod Targets
pub mod Kept
pub mod Recorded
use tail_state.Prelude.{List, nat_eq, string_eq, ℕ, ◌*◌}
use tail_state.Text.{Text, text_eq, text_ordered}

-- Bytes, and nanoseconds.
abbrev pub max_body_bytes : ℕ
max_body_bytes = 1048576

abbrev pub max_events : ℕ
max_events = 100

abbrev pub max_event_type_len : ℕ
max_event_type_len = 128

abbrev pub max_signature_age : ℕ
max_signature_age = 24 * 3600 * 1000000000

abbrev pub max_future_skew : ℕ
max_future_skew = 5 * 60 * 1000000000

pub data VerifyError : Type 0 where
  unauthenticated : VerifyError
  body_too_large : VerifyError
  malformed_body : VerifyError

pub data FallbackReason : Type 0 where
  no_fallback : FallbackReason
  fallback_event_count : FallbackReason
  fallback_event_type_missing : FallbackReason
  fallback_event_type_length : FallbackReason
  fallback_event_type_invalid : FallbackReason

pub record Event : Type 0 where
  pub timestamp : Text
  pub version : Text
  pub event_type : Text
  pub tailnet : Text
  pub message : Text
  pub content : Text

-- `Delivery`; no collectors stand for a full reconciliation.
pub record VerifiedDelivery : Type 0 where
  pub events : List Event
  pub body_hash : Text
  pub event_types : List Text
  pub collectors : List Text
  pub fallback_reason : FallbackReason
