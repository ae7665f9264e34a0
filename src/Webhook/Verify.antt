-- ===== src/Webhook/Verify.antt =====
-- `Verify` and `CollectorsFor` of internal/webhook/webhook.go.
use tail_state.Prelude.{
  Bool, List, Option, [], contains, false, if◌then◌else◌, inl, inr, is_empty, leb, length, ltb, map,
  nat_eq, none, not, some, some_of, sorted_set, string_eq, take, true, ℕ, ◌&&◌, ◌*◌, ◌++◌, ◌+◌,
  ◌==◌, ◌>>=◌, ◌||◌, ◌∷◌, ◌⊎◌,
}
use tail_state.Text.{
  Text, contains_any, digits, eq_text, is_control, lt_text, number_text, str, text_eq, text_ordered,
  to_lower, trim_space,
}
use tail_state.Webhook.{
  Event, FallbackReason, VerifiedDelivery, VerifyError, body_too_large, fallback_event_count,
  fallback_event_type_invalid, fallback_event_type_length, fallback_event_type_missing,
  malformed_body, max_body_bytes, max_event_type_len, max_events, max_future_skew,
  max_signature_age, no_fallback, unauthenticated,
}
use tail_state.Webhook.Signature.{decode_signature, parse_signature}
use tail_state.Text.Truncate.{truncate}

abbrev pub device_events : List Text
device_events =
    str "nodeapproved"
    ∷ str "nodeauthorized"
    ∷ str "nodecreated"
    ∷ str "nodedeleted"
    ∷ str "nodekeyexpired"
    ∷ str "nodekeyexpiringinoneday"
    ∷ str "nodeneedsapproval"
    ∷ str "nodeneedsauthorization"
    ∷ str "nodeneedssignature"
    ∷ str "nodesigned"
    ∷ str "exitnodeipforwardingnotenabled"
    ∷ str "subnetipforwardingnotenabled"
    ∷ []

abbrev pub user_events : List Text
user_events =
    str "userapproved" ∷ str "usercreated" ∷ str "userneedsapproval" ∷ str "userroleupdated" ∷ []

abbrev pub webhook_events : List Text
webhook_events = str "webhookcreated" ∷ str "webhookdeleted" ∷ str "webhookupdated" ∷ []

-- The collectors of one event, where it is a documented one.
unfoldable pub collectors_of : Text → Option (List Text)
unfolding trim_space to_lower contains eq_text
collectors_of event_type =
    let name = to_lower (trim_space event_type) in
    if contains device_events name
    then some (str "devices" ∷ str "device_details" ∷ [])
    else if contains user_events name
    then some (str "users" ∷ str "user_invites" ∷ [])
    else if name == str "policyupdate"
    then some (str "policy" ∷ [])
    else if contains webhook_events name
    then some (str "webhooks" ∷ [])
    else none

-- The loop over the events, which ends at one that is not documented.
unfoldable pub collect : List Event → Option (List Text)
unfolding collectors_of
collect [] = some []
collect (event ∷ events) =
    collectors_of event.event_type >>= (λ here. collect events >>= (λ rest. some (here ++ rest)))

-- `CollectorsFor`.
unfoldable pub collectors_for : List Event → List Text
unfolding collect sorted_set eq_text lt_text
collectors_for events = elim (collect events) [
  | none ↦ []
  | some names ↦ sorted_set text_ordered names
]

-- The reason that the loop over the types gives for one of them.
unfoldable pub type_reason : Text → FallbackReason
unfolding contains_any
type_reason event_type =
    if is_empty event_type
    then fallback_event_type_missing
    else if contains_any event_type is_control
    then fallback_event_type_invalid
    else if ltb max_event_type_len (length event_type)
    then fallback_event_type_length
    else no_fallback

-- The type that the loop keeps.
unfoldable pub kept_type : Text → Option Text
unfolding contains_any truncate
kept_type event_type =
    if is_empty event_type || contains_any event_type is_control
    then none
    else if ltb max_event_type_len (length event_type)
    then some (truncate event_type max_event_type_len)
    else some event_type

-- The first reason stays.
abbrev pub or_reason : FallbackReason → FallbackReason → FallbackReason
or_reason no_fallback next = next
or_reason reason next = reason

abbrev pub add_kept : Option Text → List Text → List Text
add_kept none types = types
add_kept (some event_type) types = event_type ∷ types

unfoldable pub read_types : List Event → FallbackReason → List Text × FallbackReason
unfolding type_reason kept_type
read_types [] reason = ([], reason)
read_types (event ∷ events) reason =
    let rest = read_types events (or_reason reason (type_reason event.event_type)) in
    (add_kept (kept_type event.event_type) rest.0, rest.1)

abbrev pub trimmed : Event → Event
trimmed event = record event { event_type = trim_space event.event_type }

abbrev pub is_targeted : FallbackReason → Bool
is_targeted no_fallback = true
is_targeted _ = false

-- What is kept of authentic events.
unfoldable pub delivery_of : Text → List Event → VerifiedDelivery
unfolding trim_space read_types sorted_set collectors_for eq_text lt_text
delivery_of hash received =
    let events = map trimmed received in
    let start : FallbackReason =
      if is_empty events || ltb max_events (length events)
      then fallback_event_count
      else no_fallback in
    let found = read_types events start in
    record {
      events = events;
      body_hash = hash;
      event_types = take max_events (sorted_set text_ordered found.0);
      collectors = if is_targeted found.1 then collectors_for events else [];
      fallback_reason = found.1;
    }

-- A Unix time in seconds, against the clock.
abbrev pub in_window : ℕ → ℕ → Bool
in_window timestamp now =
    leb (timestamp * 1000000000) (now + max_future_skew)
    && leb now (timestamp * 1000000000 + max_signature_age)

-- The message that is signed.
abbrev pub signed_message : ℕ → Text → Text
signed_message timestamp body = number_text timestamp ++ str "." ++ body

abbrev pub is_signature : Text → Text → Bool
is_signature want encoded = elim (decode_signature encoded) [
  | none ↦ false
  | some provided ↦ provided == want
]

module _ (mac : Text → Text → Text) (digest : Text → Text)
    (decode_events : Text → Option (List Event)) where
  -- From the decoded events on, when the request is authentic.
  unfoldable pub accept : Text → VerifyError ⊎ VerifiedDelivery
  unfolding delivery_of
  accept body = elim (decode_events body) [
    | none ↦ inl malformed_body
    | some events ↦ inr (delivery_of (digest body) events)
  ]

  -- The tests of the signature, given what the header holds.
  unfoldable pub verify_header :
      Text → Text → ℕ → Option (ℕ × List Text) → VerifyError ⊎ VerifiedDelivery
  unfolding digits decode_signature some_of eq_text accept
  verify_header body key now none = inl unauthenticated
  verify_header body key now (some (timestamp, signatures)) =
      if not (in_window timestamp now)
      then inl unauthenticated
      else if some_of (is_signature (mac key (signed_message timestamp body))) signatures
      then accept body
      else inl unauthenticated

  -- `Verify`.
  unfoldable pub verify : Text → Text → Text → ℕ → VerifyError ⊎ VerifiedDelivery
  unfolding trim_space parse_signature verify_header
  verify body signature secret now =
      let key = trim_space secret in
      if is_empty body
      then inl malformed_body
      else if ltb max_body_bytes (length body)
      then inl body_too_large
      else if is_empty key
      then inl unauthenticated
      else verify_header body key now (parse_signature signature)
