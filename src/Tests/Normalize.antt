-- ===== src/Tests/Normalize.antt =====
-- Runs of normalisation of internal/model/model.go and of internal/model/dns.go, and the theorems
-- at concrete values.
use tail_state.Prelude.{[], every_of, false, nat_eq, refl, string_eq, ◌≡◌}
use tail_state.Text.{Text, eq_text, lt_text, str, text_eq, text_ordered}
use tail_state.Model.{
  Json, element, json_array, json_object, json_string, named, no_elements, no_members,
}
use tail_state.Model.Normalize.{fingerprint_of}
use tail_state.Model.Normalize.Walk.{has_health_status, normalize_for}
use tail_state.Model.Normalize.Hides.{Hidden, IsDigest}
use tail_state.Model.Normalize.Redaction.Deep.{normalize_for-Hidden}
use tail_state.Model.Normalize.Stable.Again.{normalize_for_idem}

abbrev digest_stub : Text → Text
digest_stub text = str "0123456789abcdef0123456789abcdef0123456789abcdef0123456789abcdef"

digest_stub-IsDigest : (text : Text) → IsDigest (digest_stub text)
unfolding every_of
digest_stub-IsDigest text = (refl, refl)

-- An OAuth app with a list that is sorted and a field that is left out.
abbrev oauth_app : Json
oauth_app = json_object (
    named (str "scopes")
      (json_array
        (element (json_string (str "read")) (element (json_string (str "all")) no_elements)))
      (named (str "clientSecret") (json_string (str "s3cret"))
        (named (str "redirectUris") (json_string (str "https://a")) no_members)))

normalize_app :
    normalize_for digest_stub (str "oauth_apps") oauth_app
    ≡ json_object (
        named
          (str "scopes")
          (json_array
            (element (json_string (str "all")) (element (json_string (str "read")) no_elements)))
          (named (str "redirectUris") (json_string (str "https://a")) no_members))
unfolding normalize_for eq_text lt_text
normalize_app = refl

abbrev webhooks : Json
webhooks = json_object (
    named (str "endpoint_url") (json_string (str "https://a"))
      (named (str "secret") (json_string (str "s3cret")) no_members))

normalize_webhooks :
    normalize_for digest_stub (str "webhooks") webhooks
    ≡ json_object (
        named
          (str "endpoint_url")
          (fingerprint_of (digest_stub []))
          (named (str "secret") (fingerprint_of (digest_stub [])) no_members))
unfolding normalize_for eq_text lt_text
normalize_webhooks = refl

normalize_for-Hidden_example :
    Hidden (str "webhooks") false (normalize_for digest_stub (str "webhooks") webhooks)
normalize_for-Hidden_example =
    normalize_for-Hidden digest_stub digest_stub-IsDigest (str "webhooks") webhooks

no_health_oauth : has_health_status (str "oauth_apps") ≡ false
unfolding eq_text
no_health_oauth = refl

normalize_for_idem_example :
    normalize_for digest_stub
      (str "oauth_apps")
      (normalize_for digest_stub (str "oauth_apps") oauth_app)
    ≡ normalize_for digest_stub (str "oauth_apps") oauth_app
normalize_for_idem_example =
    normalize_for_idem digest_stub digest_stub-IsDigest (str "oauth_apps") no_health_oauth oauth_app
