-- ===== src/Model/Normalize.antt =====
-- The normalisation of internal/model/model.go: what of a provider's value is kept in a snapshot.
pub mod Walk
pub mod Hides
pub mod Redaction
pub mod Stable
use tail_state.Prelude.{
  Bool, Dict, List, Option, [], contains, every_of, false, if◌then◌else◌, is_empty, length, lookup,
  nat_beq, nat_eq, none, some, string_eq, true, ◌&&◌, ◌==◌, ◌||◌, ◌∷◌,
}
use tail_state.Text.{
  Text, eq_text, equal_fold, is_hex, str, text_eq, text_ordered, to_lower, trim_space,
}
use tail_state.Model.{Json, Members, json_bool, json_object, json_string, member, named, no_members}
use tail_state.Model.Encoding.{before}

abbrev pub ignored : List Text
ignored =
    str "lastseen"
    ∷ str "connectedtocontrol"
    ∷ str "clientconnectivity"
    ∷ str "endpoints"
    ∷ str "lastupdated"
    ∷ str "createdat"
    ∷ str "updatedat"
    ∷ str "timestamp"
    ∷ str "requestedat"
    ∷ str "profilepicurl"
    ∷ []

abbrev pub redacted_fields : List Text
redacted_fields =
    str "accesstoken"
    ∷ str "clientsecret"
    ∷ str "secret"
    ∷ str "signingsecret"
    ∷ str "token"
    ∷ str "tokenvalue"
    ∷ str "password"
    ∷ str "webhooksecret"
    ∷ str "gcscredentials"
    ∷ str "s3secretaccesskey"
    ∷ []

abbrev pub collector_fields : Dict Text (List Text)
collector_fields =
    (
      str "devices",
      str "addresses"
          ∷ str "id"
          ∷ str "nodeid"
          ∷ str "user"
          ∷ str "name"
          ∷ str "hostname"
          ∷ str "clientversion"
          ∷ str "updateavailable"
          ∷ str "os"
          ∷ str "created"
          ∷ str "keyexpirydisabled"
          ∷ str "expires"
          ∷ str "authorized"
          ∷ str "isexternal"
          ∷ str "blocksincomingconnections"
          ∷ str "enabledroutes"
          ∷ str "advertisedroutes"
          ∷ str "tags"
          ∷ str "tailnetlockerror"
          ∷ str "tailnetlockkey"
          ∷ str "sshenabled"
          ∷ str "postureidentity"
          ∷ str "isephemeral"
          ∷ str "distro"
          ∷ [],
    )
    ∷ (
      str "users",
      str "id"
          ∷ str "displayname"
          ∷ str "loginname"
          ∷ str "profilepicurl"
          ∷ str "tailnetid"
          ∷ str "created"
          ∷ str "type"
          ∷ str "role"
          ∷ str "status"
          ∷ [],
    )
    ∷ (str "device_details", str "postureattributes" ∷ str "deviceinvites" ∷ [])
    ∷ (
      str "posture",
      str "provider"
          ∷ str "cloudid"
          ∷ str "clientid"
          ∷ str "tenantid"
          ∷ str "id"
          ∷ str "configupdated"
          ∷ str "status"
          ∷ [],
    )
    ∷ (str "log_streaming", str "configuration" ∷ str "network" ∷ [])
    ∷ (
      str "services",
      str "name" ∷ str "displayname" ∷ str "addrs" ∷ str "comment" ∷ str "ports" ∷ str "tags" ∷ [],
    )
    ∷ (
      str "oauth_apps",
      str "id"
          ∷ str "name"
          ∷ str "description"
          ∷ str "redirecturis"
          ∷ str "scopes"
          ∷ str "allowednodeattributes"
          ∷ [],
    )
    ∷ []

unfoldable pub collector_field_allowed : Text → Text → Bool
unfolding lookup contains eq_text
collector_field_allowed collector field = elim (lookup collector_fields collector) [
  | none ↦ true
  | some fields ↦ contains fields field
]

abbrev pub device_posture_duplicates : List Text
device_posture_duplicates = str "node:tsversion" ∷ str "node:os" ∷ str "node:osversion" ∷ []

unfoldable pub device_posture_duplicate : Text → Text → Bool
unfolding contains before equal_fold
device_posture_duplicate path key =
    contains device_posture_duplicates key
    && equal_fold (before b'.' path) (str "postureAttributes")

unfoldable pub posture_expiries : Text → Text → Bool
unfolding eq_text equal_fold
posture_expiries path key = key == str "expiries" && equal_fold path (str "postureAttributes")

unfoldable pub tenant_key_section : Text → Text → Bool
unfolding eq_text
tenant_key_section collector key =
    if collector == str "policy"
    then key == str "groups" || key == str "tagowners" || key == str "hosts"
    else if collector == str "dns"
    then key == str "splitdns" || key == str "nameservers" || key == str "searchpaths"
    else false

unfoldable pub ignored_for_collector : Text → Text → Bool
unfolding eq_text
ignored_for_collector collector key =
    if collector == str "devices"
    then key == str "multipleconnections" || key == str "machinekey" || key == str "nodekey"
    else if collector == str "users"
    then key == str "currentlyconnected"
    else false

-- An object with one key: a Go map has no key twice.
abbrev pub fingerprint_of : Text → Json
fingerprint_of text = json_object (named (str "redacted_sha256") (json_string text) no_members)

-- `redactedFingerprint`.
unfoldable pub redacted_fingerprint : Json → Option Text
unfolding eq_text every_of to_lower
redacted_fingerprint (json_object (named k (json_string encoded) no_members)) =
    if k == str "redacted_sha256" && nat_beq (length encoded) 64 && every_of is_hex encoded
    then some (to_lower encoded)
    else none
redacted_fingerprint _ = none

-- `legacyUnsupportedLogStream`.
unfoldable pub legacy_unsupported_log_stream : Json → Bool
unfolding eq_text
legacy_unsupported_log_stream (json_object (named k (json_bool unsupported) no_members)) =
    k == str "unsupported" && unsupported
legacy_unsupported_log_stream _ = false

-- `normalizeUserStatus`.
unfoldable pub normalize_user_status : Json → Json
unfolding eq_text
normalize_user_status (json_string status) =
    if status == str "active" || status == str "idle"
    then json_string (str "enabled")
    else json_string status
normalize_user_status value = value

abbrev pub health_state : Text → Json
health_state state = json_object (named (str "state") (json_string state) no_members)

-- `text, _ := status[key].(string)`
unfoldable pub text_member : Members → Text → Text
unfolding member
text_member status key = elim (member status key) [ some (json_string text) ↦ text | _ ↦ [] ]

unfoldable pub is_unavailable : Members → Bool
unfolding eq_text
is_unavailable (named k (json_string state) no_members) =
    k == str "state" && state == str "unavailable"
is_unavailable _ = false

-- `normalizeHealthStatus`.
unfoldable pub normalize_health_status : Json → Json
unfolding is_unavailable text_member trim_space
normalize_health_status (json_object status) =
    let error = text_member status (str "error") in
    let message = if is_empty error then text_member status (str "lastError") else error in
    if is_unavailable status
    then health_state (str "unavailable")
    else if is_empty (trim_space message)
    then health_state (str "healthy")
    else health_state (str "error")
normalize_health_status value = value
