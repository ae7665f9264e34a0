-- ===== src/Store/Snapshots/Health.antt =====
-- internal/store/snapshots.go and `normalizeHealthStatus` of internal/model/model.go: the status of
-- a posture integration that is stored and normalised again.
use mathlib.Core.Path.{subst}
use tail_state.Prelude.{
  ==_refl, Bool, Bool-cases, Option, [], ap, false, inl, inr, nat_eq, refl, some, string_eq, sym,
  true, ℕ, ◌==◌, ◌∙◌, ◌≡◌,
}
use tail_state.Text.{Text, eq_text, str, text_eq, text_ordered}
use tail_state.Model.{Json, Members, json_object, named}
use tail_state.Model.Encoding.{encode}
use tail_state.Model.Normalize.{collector_field_allowed, health_state, normalize_health_status}
use tail_state.Model.Normalize.Walk.{
  canonical_for, normalize, normalize_members, schema_treatment, treatment,
}
use tail_state.Store.Table.{find_row}
use tail_state.Store.Snapshots.{Apply, Limits, Resource, Snapshot, bounded_value, is_row}
use tail_state.Store.Snapshots.Upsert.{
  is_unchanged, note_truncation, previous_of, rewrite_snapshot, upsert_resource,
}

abbrev pub posture : Text
posture = str "posture"

-- The snapshot of an integration with its status first.
abbrev pub with_status : Json → Members → Json
with_status status ms = json_object (named (str "status") status ms)

-- The state that is stored of an error is read as healthy, since it has no message any more.
error_again : normalize_health_status (health_state (str "error")) ≡ health_state (str "healthy")
unfolding normalize_health_status eq_text
error_again = refl

normalize-status :
    (digest : Text → Text) (status : Json) (ms : Members)
    → normalize digest posture true false [] (with_status status ms)
      ≡ with_status
          (normalize_health_status status)
          (normalize_members digest posture true false [] ms)
unfolding normalize treatment schema_treatment collector_field_allowed
normalize-status digest status ms = refl

canonical-recovered :
    (digest : Text → Text) (status : Json) (ms : Members)
    → normalize_health_status status ≡ health_state (str "healthy")
    → canonical_for digest posture (with_status (health_state (str "error")) ms)
      ≡ canonical_for digest posture (with_status status ms)
unfolding canonical_for
canonical-recovered digest status ms h =
    ap (λ v. (encode v, digest (encode v)))
      (normalize-status digest (health_state (str "error")) ms
        ∙ ap (λ s. with_status s (normalize_members digest posture true false [] ms))
            (error_again ∙ sym h)
        ∙ sym (normalize-status digest status ms))

module _ (decode : Text → Option Json) (digest : Text → Text) where
  -- The stored hash, or that of the value normalised again, is the new one.
  previous_of-recovered :
      (row : Snapshot) (status : Json) (ms : Members)
      → row.content_truncated ≡ false
      → decode row.canonical_json ≡ some (with_status (health_state (str "error")) ms)
      → normalize_health_status status ≡ health_state (str "healthy")
      → let hash = (canonical_for digest posture (with_status status ms)).1 in
        (previous_of decode digest posture hash row).hash == hash ≡ true
  unfolding previous_of
  previous_of-recovered row status ms whole stored healthy =
      let hash = (canonical_for digest posture (with_status status ms)).1 in
      elim (Bool-cases (row.content_hash == hash)) [
        | inl same ↦ rw same same
        | inr other ↦
            rw (other, whole, stored)
              (subst (λ h. h == hash ≡ true)
                (sym (ap (λ c. c.1) (canonical-recovered digest status ms healthy))) (==_refl hash))
      ]

  -- A resource whose stored hash is the new one is no event.
  upsert_resource-same :
      (generation now : ℕ) (limits : Limits) (collector : Text) (baselined silent absorb : Bool)
      (resource : Resource) (canonical : Text × Text) (row : Snapshot) (a : Apply)
      → find_row (is_row generation collector resource.id) a.snapshots ≡ some row
      → (previous_of decode digest collector canonical.1 row).hash == canonical.1 ≡ true
      → (upsert_resource decode digest generation now limits collector baselined silent absorb
          resource canonical a).recorded
        ≡ a.recorded
  unfolding upsert_resource note_truncation rewrite_snapshot
  upsert_resource-same generation now limits collector baselined silent absorb resource canonical
        row a found same =
      let value = bounded_value canonical.0 canonical.1 limits.snapshot_bytes limits.reject_bytes in
      elim (Bool-cases (is_unchanged row resource value canonical.1)) [
        | inl unchanged ↦ rw (found, upsert_resource) (rw (same, unchanged) refl)
        | inr written_again ↦ rw (found, upsert_resource) (rw (same, written_again) refl)
      ]

-- A posture integration whose stored status is an error, and which a poll returns with a healthy
-- status and the same other fields, is stored without an event: its recovery is not reported. The
-- stored text was not cut and decodes to the snapshot.
pub recovery-unrecorded :
    (decode : Text → Option Json) (digest : Text → Text) (generation now : ℕ) (limits : Limits)
    (baselined silent absorb : Bool) (resource : Resource) (status : Json) (ms : Members)
    (row : Snapshot) (a : Apply)
    → find_row (is_row generation posture resource.id) a.snapshots ≡ some row
    → row.content_truncated ≡ false
    → decode row.canonical_json ≡ some (with_status (health_state (str "error")) ms)
    → normalize_health_status status ≡ health_state (str "healthy")
    → (upsert_resource decode digest generation now limits posture baselined silent absorb resource
        (canonical_for digest posture (with_status status ms))
        a).recorded
      ≡ a.recorded
recovery-unrecorded decode digest generation now limits baselined silent absorb resource status ms
      row a found whole stored healthy =
    upsert_resource-same decode digest generation now limits posture baselined silent absorb
      resource (canonical_for digest posture (with_status status ms)) row a found
      (previous_of-recovered decode digest row status ms whole stored healthy)
