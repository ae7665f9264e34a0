-- ===== src/Model/Normalize/Stable/Again.antt =====
-- internal/model/model.go: `NormalizeFor` on a value that it has normalised.
use mathlib.Core.Path.{subst}
use tail_state.Prelude.{
  Bool, Bool-cases, Every, Every-stable_sort, List, Option, [], ap, ap₂, arith, false, inl, inr,
  nat_eq, none, refl, some, string_eq, sym, true, ◌==◌, ◌∙◌, ◌∷◌, ◌≡◌,
}
use tail_state.Text.{Text, str, text_eq, text_ordered}
use tail_state.Model.{
  Elements, Json, Members, element, json_array, json_object, named, no_elements, no_members,
}
use tail_state.Model.Encoding.{elements_of}
use tail_state.Model.Diff.{child_path, compact_key, ordered_array}
use tail_state.Model.Normalize.Walk.{
  arranged, elements_from, encoding_before, has_health_status, health_status, legacy_stream,
  normalize, normalize_elements, normalize_for, normalize_members, treated, treatment, written,
}
use tail_state.Model.Normalize.Hides.{IsDigest, schema-health, treatment-legacy}
use tail_state.Model.Normalize.Redaction.{treatment-status}
use tail_state.Model.Normalize.Stable.{arranged_idem, elements_from-elements_of, treated_idem}
use tail_state.Model.Normalize.{tenant_key_section}

no_log_stream :
    (collector : Text)
    → has_health_status collector ≡ false
    → collector == str "log_streaming" ≡ false
no_log_stream collector h = ground arith

module _ (collector : Text) (no_health : has_health_status collector ≡ false) where
  -- Only the legacy form of a log stream makes the treatment depend on the value.
  treatment-value :
      (root tenant_keys : Bool) (path name : Text) (v w : Json)
      → treatment collector root tenant_keys path name v
        ≡ treatment collector root tenant_keys path name w
  unfolding treatment
  treatment-value root tenant_keys path name v w =
      rw (no_log_stream collector no_health, treatment) refl

  treatment-not_legacy :
      (root tenant_keys : Bool) (path name : Text) (v : Json)
      → treatment collector root tenant_keys path name v ≡ legacy_stream
      → ⊥
  treatment-not_legacy root tenant_keys path name v h =
      let (kept, at_log, at_root) = treatment-legacy collector root tenant_keys path name v h in
      cc (sym (no_log_stream collector no_health) ∙ at_log)

  treatment-not_health :
      (root tenant_keys : Bool) (path name : Text) (v : Json)
      → treatment collector root tenant_keys path name v ≡ health_status
      → ⊥
  treatment-not_health root tenant_keys path name v h =
      let (free, schema) =
        treatment-status collector root tenant_keys path name v health_status (inr refl) h in
      cc (sym no_health ∙ schema-health collector name schema)

  module _ (digest : Text → Text) (digest_hex : (text : Text) → IsDigest (digest text)) where
    -- A list of values that are kept as they are is kept as it is.
    normalize_elements-fixed :
        (path : Text) (vs : List Json)
        → Every (λ v. normalize digest collector false false path v ≡ v) vs
        → normalize_elements digest collector path (elements_from vs) ≡ elements_from vs
    unfolding normalize
    normalize_elements-fixed path [] h = refl
    normalize_elements-fixed path (v ∷ vs) h =
        ap₂ element h.0 (normalize_elements-fixed path vs h.1)

    arranged-fixed :
        (path : Text) (xs : Elements)
        → Every (λ v. normalize digest collector false false path v ≡ v) (elements_of xs)
        → normalize_elements digest collector path (arranged collector path xs)
          ≡ arranged collector path xs
    unfolding arranged
    arranged-fixed path xs h = elim (Bool-cases (ordered_array collector path)) [
      | inl ordered ↦
          rw (ordered, arranged)
            (subst (λ ys. normalize_elements digest collector path ys ≡ ys)
              (elements_from-elements_of xs) (normalize_elements-fixed path (elements_of xs) h))
      | inr free ↦
          rw (free, arranged)
            (normalize_elements-fixed path _
              (Every-stable_sort encoding_before _ (elements_of xs) h))
    ]

    -- A key that is written as it was, or not at all, before members that stay.
    written-fixed :
        (root tenant_keys : Bool) (path key : Text) (o : Option Json) (rest : Members)
        → ((w : Json)
            → o ≡ some w
            → treated digest (treatment collector root tenant_keys path (compact_key key) w) w (
                normalize digest collector false
                  (tenant_key_section collector (compact_key key))
                  (child_path path key)
                  w)
              ≡ some w)
        → normalize_members digest collector root tenant_keys path rest ≡ rest
        → normalize_members digest collector root tenant_keys path (written key o rest)
          ≡ written key o rest
    unfolding normalize
    written-fixed root tenant_keys path key none rest h k = k
    written-fixed root tenant_keys path key (some w) rest h k =
        ap₂ (λ o r. written key o r) (h w refl) k

    mutual
      unfolding normalize elements_of

      pub normalize_idem :
          (root tenant_keys : Bool) (path : Text) (v : Json)
          → normalize digest collector root tenant_keys path
              (normalize digest collector root tenant_keys path v)
            ≡ normalize digest collector root tenant_keys path v
      normalize_idem root tenant_keys path (json_object ms) =
          ap json_object (normalize_members_idem root tenant_keys path ms)
      normalize_idem root tenant_keys path (json_array xs) =
          let out = normalize_elements digest collector path xs in
          ap (λ ys. json_array (arranged collector path ys))
            (arranged-fixed path out (normalize_elements_idem path xs))
          ∙ ap json_array (arranged_idem collector path out)
      normalize_idem root tenant_keys path _ = refl

      normalize_elements_idem :
          (path : Text) (xs : Elements)
          → Every
              (λ v. normalize digest collector false false path v ≡ v)
              (elements_of (normalize_elements digest collector path xs))
      normalize_elements_idem path no_elements = tt
      normalize_elements_idem path (element v vs) =
          (normalize_idem false false path v, normalize_elements_idem path vs)

      normalize_members_idem :
          (root tenant_keys : Bool) (path : Text) (ms : Members)
          → normalize_members digest collector root tenant_keys path
              (normalize_members digest collector root tenant_keys path ms)
            ≡ normalize_members digest collector root tenant_keys path ms
      normalize_members_idem root tenant_keys path no_members = refl
      normalize_members_idem root tenant_keys path (named key v ms) =
          let name = compact_key key in
          let section = tenant_key_section collector name in
          let inner = child_path path key in
          let below = normalize digest collector false section inner v in
          written-fixed root tenant_keys path key
            (treated digest (treatment collector root tenant_keys path name v) v below)
            (normalize_members digest collector root tenant_keys path ms)
            (λ w k.
              subst
                (λ t.
                  treated digest t w (normalize digest collector false section inner w) ≡ some w)
                (treatment-value root tenant_keys path name v w)
                (treated_idem digest digest_hex _ v below w
                  (normalize digest collector false section inner)
                  (treatment-not_legacy root tenant_keys path name v)
                  (treatment-not_health root tenant_keys path name v)
                  (normalize_idem false section inner v) k))
            (normalize_members_idem root tenant_keys path ms)

-- A snapshot that is normalised again stays as it is, for every collector but those of posture and
-- log streams; the digest is one of 64 hexadecimal digits.
pub normalize_for_idem :
    (digest : Text → Text)
    → ((text : Text) → IsDigest (digest text))
    → (collector : Text) → has_health_status collector ≡ false
    → (value : Json)
    → normalize_for digest collector (normalize_for digest collector value)
      ≡ normalize_for digest collector value
unfolding normalize_for
normalize_for_idem digest digest_hex collector no_health value =
    normalize_idem collector no_health digest digest_hex true false [] value
