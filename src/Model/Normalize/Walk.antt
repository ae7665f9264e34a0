-- ===== src/Model/Normalize/Walk.antt =====
-- `normalizeFor` of internal/model/model.go. `digest` is the hexadecimal SHA-256 of a text.
use tail_state.Prelude.{
  Bool, List, Option, [], contains, false, if◌then◌else◌, is_empty, nat_eq, none, not, some,
  stable_sort, string_eq, true, ◌&&◌, ◌==◌, ◌||◌, ◌∷◌,
}
use tail_state.Text.{Text, eq_text, has_prefix, lt_text, str, text_eq, text_ordered}
use tail_state.Model.{
  Elements, Json, Members, element, json_array, json_bool, json_object, named, no_elements,
  no_members,
}
use tail_state.Model.Encoding.{elements_of, encode}
use tail_state.Model.Diff.{child_path, compact_key, ordered_array}
use tail_state.Model.Normalize.{
  collector_field_allowed, device_posture_duplicate, fingerprint_of, ignored, ignored_for_collector,
  legacy_unsupported_log_stream, normalize_health_status, normalize_user_status, posture_expiries,
  redacted_fields, redacted_fingerprint, tenant_key_section,
}

-- What the loop over the keys of an object does with one of them.
pub data Treatment : Type 0 where
  skipped : Treatment
  legacy_stream : Treatment
  fingerprinted : Treatment
  user_status : Treatment
  health_status : Treatment
  descended : Treatment

-- `strings.Contains`.
unfoldable pub contains_text : Text → Text → Bool
unfolding has_prefix
contains_text [] sub = is_empty sub
contains_text (c ∷ s) sub = has_prefix (c ∷ s) sub || contains_text s sub

abbrev pub has_health_status : Text → Bool
has_health_status collector = collector == str "posture" || collector == str "log_streaming"

-- A key whose value is only kept as a fingerprint.
unfoldable pub is_secret : Text → Bool
unfolding contains eq_text contains_text
is_secret name =
    contains redacted_fields name || (contains_text name (str "url") || name == str "endpoint")

-- The tests that skip a key whatever its collector's schema says of secrets.
unfoldable pub is_left_out : Text → Bool → Bool → Text → Text → Bool
unfolding eq_text collector_field_allowed device_posture_duplicate posture_expiries
is_left_out collector root tenant_keys path name =
    let open_keys = tenant_keys || (root && collector == str "policy") in
    (root && not open_keys && not (collector_field_allowed collector name))
    || (collector == str "device_details" && name == str "detail")
    || (collector == str "device_details" && device_posture_duplicate path name)
    || (collector == str "device_details" && posture_expiries path name)

-- The tests for a key that is not a tenant's.
unfoldable pub schema_treatment : Text → Text → Treatment
unfolding contains eq_text contains_text ignored_for_collector
schema_treatment collector name =
    if contains redacted_fields name
    then fingerprinted
    else if contains ignored name || ignored_for_collector collector name
    then skipped
    else if collector == str "users" && name == str "status"
    then user_status
    else if has_health_status collector && name == str "status"
    then health_status
    else if contains_text name (str "url") || name == str "endpoint"
    then fingerprinted
    else descended

unfoldable pub treatment : Text → Bool → Bool → Text → Text → Json → Treatment
unfolding is_left_out eq_text legacy_unsupported_log_stream schema_treatment
treatment collector root tenant_keys path name child =
    if is_left_out collector root tenant_keys path name
    then skipped
    else if collector == str "log_streaming" && root && legacy_unsupported_log_stream child
    then legacy_stream
    else if tenant_keys
    then descended
    else schema_treatment collector name

abbrev pub encoding_before : Json → Json → Bool
encoding_before a b = lt_text (encode a) (encode b)

abbrev pub elements_from : List Json → Elements
elements_from [] = no_elements
elements_from (v ∷ vs) = element v (elements_from vs)

-- Arrays are sorted by their encodings unless the collector keeps their order.
unfoldable pub arranged : Text → Text → Elements → Elements
unfolding ordered_array elements_of stable_sort encode lt_text
arranged collector path out =
    if ordered_array collector path
    then out
    else elements_from (stable_sort encoding_before (elements_of out))

-- `out[key] = value`, unless the loop continues without it.
abbrev pub written : Text → Option Json → Members → Members
written key none rest = rest
written key (some value) rest = named key value rest

module _ (digest : Text → Text) where
  -- `redactedValue`, and the same for a URL.
  unfoldable pub redacted_value : Json → Json
  unfolding redacted_fingerprint encode
  redacted_value value = elim (redacted_fingerprint value) [
    | some fingerprint ↦ fingerprint_of fingerprint
    | none ↦ fingerprint_of (digest (encode value))
  ]

  -- What is written under the key, with the normalised child for the case that it is needed.
  unfoldable pub treated : Treatment → Json → Json → Option Json
  unfolding redacted_value normalize_user_status normalize_health_status
  treated skipped child below = none
  treated legacy_stream child below =
      some (json_object (named (str "configured") (json_bool false) no_members))
  treated fingerprinted child below = some (redacted_value child)
  treated user_status child below = some (normalize_user_status child)
  treated health_status child below = some (normalize_health_status child)
  treated descended child below = some below

  unfoldable mutual
    unfolding treatment treated compact_key tenant_key_section arranged

    pub normalize : Text → Bool → Bool → Text → Json → Json
    normalize collector root tenant_keys path (json_object ms) =
        json_object (normalize_members collector root tenant_keys path ms)
    normalize collector root tenant_keys path (json_array xs) =
        json_array (arranged collector path (normalize_elements collector path xs))
    normalize collector root tenant_keys path value = value

    pub normalize_elements : Text → Text → Elements → Elements
    normalize_elements collector path no_elements = no_elements
    normalize_elements collector path (element v vs) =
        element (normalize collector false false path v) (normalize_elements collector path vs)

    pub normalize_members : Text → Bool → Bool → Text → Members → Members
    normalize_members collector root tenant_keys path no_members = no_members
    normalize_members collector root tenant_keys path (named key child ms) =
        let rest = normalize_members collector root tenant_keys path ms in
        let name = compact_key key in
        let below =
          normalize collector false (tenant_key_section collector name) (child_path path key)
            child in
        written key (treated (treatment collector root tenant_keys path name child) child below)
          rest

  -- `NormalizeFor`
  unfoldable pub normalize_for : Text → Json → Json
  unfolding normalize
  normalize_for collector value = normalize collector true false [] value

  -- `CanonicalFor`: the encoding and its digest.
  unfoldable pub canonical_for : Text → Json → Text × Text
  unfolding normalize encode
  canonical_for collector value =
      let raw = encode (normalize collector true false [] value) in (raw, digest raw)
