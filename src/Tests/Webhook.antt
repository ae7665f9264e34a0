-- ===== src/Tests/Webhook.antt =====
-- Runs of internal/webhook/webhook.go, and its theorems at a concrete request.
use tail_state.Store.Metadata.{decode_metadata, names_json, sorted_unique}
use tail_state.Model.Encoding.{join_list, quote}
use tail_state.Prelude.{
  List, Option, [], contains, every_of, if◌then◌else◌, inl, is_empty, keep_if, length, nat_eq, none,
  refl, replicate, some, sort, sorted_set, string_eq, suc, true, unique, zero, ℕ, ◌*◌, ◌+◌, ◌<◌,
  ◌==◌, ◌↔◌, ◌∷◌, ◌≡◌, ◌⊎◌,
}
use tail_state.Text.{Text, contains_any, eq_text, lt_text, str, text_eq, text_ordered, trim_space}
use tail_state.Webhook.{
  Event, VerifiedDelivery, body_too_large, malformed_body, max_body_bytes, no_fallback,
  unauthenticated,
}
use tail_state.Webhook.Verify.{verify}
use tail_state.Webhook.Outcomes.{Accepted, Decodes, IsAuthentic, outcome, verify-authentic}
use tail_state.Store.Table.{find_row}
use tail_state.Store.Triggers.{Ledger, is_decodable, read_row}
use tail_state.Store.Triggers.Record.{
  insert_or_find, insert_unless, record_webhook_trigger, recorded_as,
}

abbrev mac_stub : Text → Text → Text
mac_stub key message = 171 ∷ 205 ∷ []

abbrev digest_hex : Text → Text
digest_hex text = str "0123456789abcdef0123456789abcdef0123456789abcdef0123456789abcdef"

abbrev event : Text → Event
event event_type = record {
  timestamp = [];
  version = [];
  event_type = event_type;
  tailnet = [];
  message = [];
  content = [];
}

abbrev decode_stub : Text → Option (List Event)
decode_stub body =
    if body == str "[node]"
    then some (event (str " nodeCreated") ∷ event (str "policyUpdate") ∷ [])
    else if body == str "[new]"
    then some (event (str "somethingNew") ∷ event [] ∷ [])
    else none

abbrev header : Text
header = str "t=100, v1=zz, v1=ABCD"

abbrev at_once : ℕ
at_once = 100 * 1000000000

abbrev node_delivery : VerifiedDelivery
node_delivery = record {
  events = event (str "nodeCreated") ∷ event (str "policyUpdate") ∷ [];
  body_hash = digest_hex [];
  event_types = str "nodeCreated" ∷ str "policyUpdate" ∷ [];
  collectors = str "device_details" ∷ str "devices" ∷ str "policy" ∷ [];
  fallback_reason = no_fallback;
}

verify_late :
    verify mac_stub digest_hex decode_stub
      (str "[node]")
      header
      (str "key")
      (at_once + 24 * 3600 * 1000000000 + 1)
    ≡ inl unauthenticated
unfolding verify eq_text
verify_late = refl

verify_garbage :
    verify mac_stub digest_hex decode_stub (str "{}") header (str "key") at_once
    ≡ inl malformed_body
unfolding verify eq_text
verify_garbage = refl

verify-authentic_example :
    (Accepted mac_stub digest_hex decode_stub (str "[node]") header (str "key") at_once ↔ (
      IsAuthentic mac_stub digest_hex decode_stub (str "[node]") header (str "key") at_once
      × Decodes mac_stub digest_hex decode_stub (str "[node]") header (str "key") at_once))
    × ((outcome mac_stub digest_hex decode_stub (str "[node]") header (str "key") at_once
          ≡ inl malformed_body)
        ↔ ((is_empty (str "[node]") ≡ true)
            ⊎ (IsAuthentic mac_stub digest_hex decode_stub (str "[node]") header (str "key") at_once
                × (decode_stub (str "[node]") ≡ none))))
    × ((outcome mac_stub digest_hex decode_stub (str "[node]") header (str "key") at_once
          ≡ inl body_too_large)
        ↔ (max_body_bytes < length (str "[node]")))
verify-authentic_example =
    verify-authentic mac_stub digest_hex decode_stub (str "[node]") header (str "key") at_once

abbrev no_triggers : Ledger
no_triggers = record { rows = []; next_id = 1 }

abbrev safe_stub : Text → Text
safe_stub text = text

-- Names within the bounds of their number and length whose JSON is too long.
abbrev long_names : ℕ → List Text
long_names zero = []
long_names (suc n) = ((65 + n) ∷ replicate 127 b'<') ∷ long_names n

long_names_fail :
    record_webhook_trigger safe_stub 7 (replicate 64 b'a') (long_names 22) [] no_triggers
    ≡ (none, no_triggers)
unfolding record_webhook_trigger insert_or_find insert_unless find_row recorded_as read_row
    trim_space is_decodable decode_metadata every_of contains_any names_json join_list quote
    sorted_unique sorted_set unique sort keep_if contains eq_text lt_text
long_names_fail = refl
